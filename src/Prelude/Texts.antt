-- ===== src/Prelude/Texts.antt =====
-- A text as the list of its bytes, and its split at a byte: Rust's `find` and `rfind` with the two
-- slices around the place that they find.
use mathlib.Core.List.{List, [], ◌∷◌, ◌++◌}
use mathlib.Core.Path.{◌≡◌, refl, ap}
use mathlib.Core.Logic.{◌≢◌}
use mathlib.Core.Bool.{Bool, true, false, ◌&&◌}
use mathlib.Core.Option.{Option, none, some}
use Prim.Native.Nat.{ℕ}
use native.Mathlib.Decide.{ℕ_discrete}
use native.Mathlib.Omega.{arith}
use visor.Prelude.Tests.{◌==◌, if◌then◌else◌, if_cases, ==_iff}
use visor.Prelude.Lists.{All}

abbrev pub Text : Type 0
Text = List ℕ

unfoldable pub text_discrete : Discrete Text
text_discrete = hlevel ℕ_discrete

abbrev pub is_empty : Text → Bool
is_empty [] = true
is_empty (c ∷ text) = false

-- Equality of two texts.
abbrev pub same_text : Text → Text → Bool
same_text [] [] = true
same_text [] (d ∷ other) = false
same_text (c ∷ text) [] = false
same_text (c ∷ text) (d ∷ other) = (c == d) && same_text text other

abbrev pub has : ℕ → Text → Bool
has c [] = false
has c (d ∷ text) = if d == c then true else has c text

-- No byte of the text is `c`.
abbrev pub Lacks : ℕ → Text → Type 0
Lacks c text = All (λ d. d ≢ c) text

-- What a split of the rest is for the whole, when the first byte is not the place.
abbrev pub kept : ℕ → Option (Text × Text) → Option (Text × Text)
kept d none = none
kept d (some (before, after)) = some (d ∷ before, after)

unfoldable pub split_first : ℕ → Text → Option (Text × Text)
split_first c [] = none
split_first c (d ∷ text) = if d == c then some ([], text) else kept d (split_first c text)

abbrev pub or_here : Option (Text × Text) → Option (Text × Text) → Option (Text × Text)
or_here none here = here
or_here (some split) here = some split

unfoldable pub split_last : ℕ → Text → Option (Text × Text)
split_last c [] = none
split_last c (d ∷ text) =
    or_here (kept d (split_last c text)) (if d == c then some ([], text) else none)

pub split_first-at :
    (c : ℕ) (before after : Text)
    → Lacks c before
    → split_first c (before ++ c ∷ after) ≡ some (before, after)
unfolding split_first
split_first-at c [] after h = ground arith
split_first-at c (d ∷ before) after (hd, h) = ground (arith, split_first-at c before after h)

pub split_last-Lacks : (c : ℕ) (text : Text) → Lacks c text → split_last c text ≡ none
unfolding split_last
split_last-Lacks c [] h = refl
split_last-Lacks c (d ∷ text) (hd, h) = ground (arith, split_last-Lacks c text h)

pub split_last-at :
    (c : ℕ) (before after : Text)
    → Lacks c after
    → split_last c (before ++ c ∷ after) ≡ some (before, after)
unfolding split_last
split_last-at c [] after h = ground (arith, split_last-Lacks c after h)
split_last-at c (d ∷ before) after h = rw (split_last-at c before after h) refl

-- What the split says of the text.
abbrev pub FirstAt : ℕ → Text → Option (Text × Text) → Type 0
FirstAt c text none = Lacks c text
FirstAt c text (some (before, after)) = Lacks c before × (text ≡ before ++ c ∷ after)

abbrev pub LastAt : ℕ → Text → Option (Text × Text) → Type 0
LastAt c text none = Lacks c text
LastAt c text (some (before, after)) = Lacks c after × (text ≡ before ++ c ∷ after)

kept-FirstAt :
    (c d : ℕ) (text : Text) (split : Option (Text × Text))
    → d ≢ c
    → FirstAt c text split
    → FirstAt c (d ∷ text) (kept d split)
kept-FirstAt c d text none other h = (other, h)
kept-FirstAt c d text (some (before, after)) other (l, e) = ((other, l), ap (◌∷◌ d) e)

pub split_first-FirstAt : (c : ℕ) (text : Text) → FirstAt c text (split_first c text)
unfolding split_first
split_first-FirstAt c [] = tt
split_first-FirstAt c (d ∷ text) =
    if_cases (FirstAt c (d ∷ text)) (d == c)
      (λ here. (tt, ap (λ (e : ℕ). e ∷ text) ((==_iff d c).0 here)))
      (λ miss.
        kept-FirstAt c d text (split_first c text) (ground arith) (split_first-FirstAt c text))

here-LastAt :
    (c d : ℕ) (text : Text) (split : Option (Text × Text))
    → LastAt c text split
    → LastAt c (d ∷ text) (or_here (kept d split) (if d == c then some ([], text) else none))
here-LastAt c d text none h =
    if_cases (LastAt c (d ∷ text)) (d == c)
      (λ here. (h, ap (λ (e : ℕ). e ∷ text) ((==_iff d c).0 here))) (λ miss. (ground arith, h))
here-LastAt c d text (some (before, after)) (l, e) = (l, ap (◌∷◌ d) e)

pub split_last-LastAt : (c : ℕ) (text : Text) → LastAt c text (split_last c text)
unfolding split_last
split_last-LastAt c [] = tt
split_last-LastAt c (d ∷ text) = here-LastAt c d text (split_last c text) (split_last-LastAt c text)
