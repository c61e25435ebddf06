-- ===== src/Oci/Canonical.antt =====
-- How the splits of oci/reference.rs see a name that was put together again.
use visor.Prelude.{
  ℕ, ◌≡◌, subst, ◌⊎◌, inl, inr, refl, sym, ap, ◌∙◌, true, false, [], ◌∷◌, ◌++◌, append_assoc,
  Option, none, some, Result, ok, err, All, arith, if_cases,
}
use visor.Prelude.Texts.{
  Text, is_empty, Lacks, split_first, split_last, split_last-at, split_last-Lacks,
  split_last-LastAt, split_first-at, split_first-FirstAt, FirstAt, LastAt,
}
use visor.Oci.{
  ReferenceError, is_registry, default_registry, library, split_name_and_tag, after_slash, tag_of,
  split_name, registry_of,
}

pub All-append : (P : ℕ → Type 0) (xs ys : Text) → All P xs → All P ys → All P (xs ++ ys)
All-append P [] ys hx hy = hy
All-append P (x ∷ xs) ys (h, hx) hy = (h, All-append P xs ys hx hy)

pub All-left : (P : ℕ → Type 0) (xs ys : Text) → All P (xs ++ ys) → All P xs
All-left P [] ys h = tt
All-left P (x ∷ xs) ys (hx, h) = (hx, All-left P xs ys h)

pub All-right : (P : ℕ → Type 0) (xs ys : Text) → All P (xs ++ ys) → All P ys
All-right P [] ys h = h
All-right P (x ∷ xs) ys (hx, h) = All-right P xs ys h

-- A tag has a byte, and neither a slash nor a colon.
abbrev pub IsTag : Text → Type 0
IsTag tag = (is_empty tag ≡ false) × Lacks b'/' tag × Lacks b':' tag

-- What the split into name and tag says of its input.
abbrev pub Splits : Text → Result (Text × Option Text) ReferenceError → Type 0
Splits input (ok (name, none)) = input ≡ name
Splits input (ok (name, some tag)) = (input ≡ name ++ b':' ∷ tag) × IsTag tag
Splits input (err e) = Unit

tag_of-Splits :
    (prefix last : Text) (split : Option (Text × Text))
    → Lacks b'/' last
    → LastAt b':' last split
    → Splits (prefix ++ last) (tag_of (prefix ++ last) prefix split)
unfolding tag_of
tag_of-Splits prefix last none slashes at = refl
tag_of-Splits prefix last (some (name, [])) slashes at = tt
tag_of-Splits prefix last (some (name, t ∷ tag)) slashes (colons, e) =
    let parts = subst (Lacks b'/') (e ∙ sym (append_assoc name (b':' ∷ []) (t ∷ tag))) slashes in
    (
      ap (λ (u : Text). prefix ++ u) e ∙ sym (append_assoc prefix name (b':' ∷ t ∷ tag)),
      (refl, All-right _ (name ++ b':' ∷ []) (t ∷ tag) parts, colons),
    )

after_slash-Splits :
    (input : Text) (split : Option (Text × Text))
    → LastAt b'/' input split
    → Splits input (after_slash input split)
unfolding after_slash
after_slash-Splits input none slashes =
    tag_of-Splits [] input (split_last b':' input) slashes (split_last-LastAt b':' input)
after_slash-Splits input (some (before, last)) (slashes, e) =
    let whole : (before ++ b'/' ∷ []) ++ last ≡ input =
      append_assoc before (b'/' ∷ []) last ∙ sym e in
    rw whole at (
      tag_of-Splits (before ++ b'/' ∷ []) last (split_last b':' last) slashes
        (split_last-LastAt b':' last))

pub split_name_and_tag-Splits : (input : Text) → Splits input (split_name_and_tag input)
unfolding split_name_and_tag
split_name_and_tag-Splits input =
    after_slash-Splits input (split_last b'/' input) (split_last-LastAt b'/' input)

-- A tag after any name is found again.
tag_again :
    (name tag prefix last : Text)
    → IsTag tag
    → name ≡ prefix ++ last
    → tag_of (name ++ b':' ∷ tag) prefix (split_last b':' (last ++ b':' ∷ tag))
      ≡ ok (name, some tag)
unfolding tag_of
tag_again name tag prefix last (some_byte, slashes, colons) e =
    rw (split_last-at b':' last tag colons, some_byte, sym e) refl

slash_again :
    (name tag : Text) (split : Option (Text × Text))
    → IsTag tag
    → LastAt b'/' name split
    → after_slash (name ++ b':' ∷ tag) (split_last b'/' (name ++ b':' ∷ tag)) ≡ ok (name, some tag)
unfolding after_slash
slash_again name tag none is slashes =
    let none_there : split_last b'/' (name ++ b':' ∷ tag) ≡ none =
      split_last-Lacks b'/' (name ++ b':' ∷ tag)
        (All-append _ name (b':' ∷ tag) slashes (ground arith, is.1)) in
    rw none_there (tag_again name tag [] name is refl)
slash_again name tag (some (before, last)) is (slashes, e) =
    let there : split_last b'/' (name ++ b':' ∷ tag) ≡ some (before, last ++ b':' ∷ tag) =
      ap (split_last b'/')
        (ap (λ (u : Text). u ++ b':' ∷ tag) e ∙ append_assoc before (b'/' ∷ last) (b':' ∷ tag))
      ∙ split_last-at b'/' before (last ++ b':' ∷ tag)
          (All-append _ last (b':' ∷ tag) slashes (ground arith, is.1)) in
    rw there (
      tag_again name tag (before ++ b'/' ∷ []) last is
        (e ∙ sym (append_assoc before (b'/' ∷ []) last)))

pub split_name_and_tag-tag :
    (name tag : Text) → IsTag tag → split_name_and_tag (name ++ b':' ∷ tag) ≡ ok (name, some tag)
unfolding split_name_and_tag
split_name_and_tag-tag name tag is =
    slash_again name tag (split_last b'/' name) is (split_last-LastAt b'/' name)

untagged :
    (input prefix : Text) (split : Option (Text × Text)) (name : Text)
    → tag_of input prefix split ≡ ok (name, none)
    → split ≡ none
unfolding tag_of
untagged input prefix none name h = refl
untagged input prefix (some (before, [])) name h = absurd (ground (arith, h))
untagged input prefix (some (before, t ∷ tag)) name h = absurd (ground (arith, h))

slash-untagged :
    (front name : Text) (split : Option (Text × Text))
    → LastAt b'/' name split
    → after_slash name split ≡ ok (name, none)
    → after_slash (front ++ b'/' ∷ name) (split_last b'/' (front ++ b'/' ∷ name))
      ≡ ok (front ++ b'/' ∷ name, none)
unfolding after_slash tag_of
slash-untagged front name none slashes h =
    rw (split_last-at b'/' front name slashes, untagged name [] (split_last b':' name) name h) refl
slash-untagged front name (some (before, last)) (slashes, e) h =
    let whole = front ++ b'/' ∷ name in
    let there : split_last b'/' whole ≡ some (front ++ b'/' ∷ before, last) =
      ap (λ (u : Text). split_last b'/' (front ++ b'/' ∷ u)) e
      ∙ ap (split_last b'/') (sym (append_assoc front (b'/' ∷ before) (b'/' ∷ last)))
      ∙ split_last-at b'/' (front ++ b'/' ∷ before) last slashes in
    rw (there, untagged name (before ++ b'/' ∷ []) (split_last b':' last) name h) refl

-- A name without a tag has none after more path components in front of it.
pub split_name_and_tag-untagged :
    (front name : Text)
    → split_name_and_tag name ≡ ok (name, none)
    → split_name_and_tag (front ++ b'/' ∷ name) ≡ ok (front ++ b'/' ∷ name, none)
unfolding split_name_and_tag
split_name_and_tag-untagged front name h =
    slash-untagged front name (split_last b'/' name) (split_last-LastAt b'/' name) h

-- The ways in which a name is completed.
abbrev pub Completes : Text → Text → Type 0
Completes name full =
    (full ≡ name)
    ⊎ (full ≡ default_registry ++ b'/' ∷ name)
    ⊎ (full ≡ (default_registry ++ b'/' ∷ library) ++ b'/' ∷ name)

-- What the split into registry and repository says: put together again, it splits in the same way.
abbrev pub Named : Text → Result (Text × Text) ReferenceError → Type 0
Named name (ok (registry, repository)) =
    (split_name (registry ++ b'/' ∷ repository) ≡ ok (registry, repository))
    × Completes name (registry ++ b'/' ∷ repository)
Named name (err e) = Unit

named_again :
    (registry repository : Text)
    → Lacks b'/' registry
    → is_registry registry ≡ true
    → is_empty repository ≡ false
    → split_name (registry ++ b'/' ∷ repository) ≡ ok (registry, repository)
unfolding split_name registry_of
named_again registry repository slashes host some_byte =
    rw (split_first-at b'/' registry repository slashes, host, some_byte) refl

pub is_empty-append : (xs ys : Text) (y : ℕ) → is_empty (xs ++ y ∷ ys) ≡ false
is_empty-append [] ys y = refl
is_empty-append (x ∷ xs) ys y = refl

registry_of-Named :
    (name : Text) (split : Option (Text × Text))
    → FirstAt b'/' name split
    → Named name (registry_of name split)
unfolding registry_of
registry_of-Named name none slashes =
    (named_again default_registry (library ++ b'/' ∷ name) (ground arith) refl refl, inr (inr refl))
registry_of-Named name (some (first, [])) (slashes, e) =
    if_cases (Named name) (is_registry first) (λ host. tt)
      (λ user. (
        named_again default_registry name (ground arith) refl
            (ap is_empty e ∙ is_empty-append first [] b'/'),
        inr (inl refl),
      ))
registry_of-Named name (some (first, c ∷ rest)) (slashes, e) =
    if_cases (Named name) (is_registry first)
      (λ host. (named_again first (c ∷ rest) slashes host refl, inl (sym e)))
      (λ user. (
        named_again default_registry name (ground arith) refl
            (ap is_empty e ∙ is_empty-append first (c ∷ rest) b'/'),
        inr (inl refl),
      ))

pub split_name-Named : (name : Text) → Named name (split_name name)
unfolding split_name
split_name-Named name =
    registry_of-Named name (split_first b'/' name) (split_first-FirstAt b'/' name)
