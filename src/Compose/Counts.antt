-- ===== src/Compose/Counts.antt =====
-- Occurrences of names in lists, in which the facts about the queue of compose/orchestrator.rs are stated.
use visor.Prelude.{
  ℕ, suc, ◌+◌, ◌≤◌, ◌≡◌, refl, sym, ap, List, [], ◌∷◌, ◌++◌, length, arith, if◌then◌else◌, ◌==◌,
}
use visor.Prelude.Maps
use visor.Prelude.Maps.{Map, get-insert}
use visor.Prelude.Texts.{Text, text_discrete}
use mathlib.Core.Logic.{ite}
use visor.Compose.{keys, insert_sorted, sort, Degrees, seeds, or_zero}

unfoldable pub count : Text → List Text → ℕ
count x [] = 0
count x (y ∷ ys) = ite (text_discrete y x) (suc (count x ys)) (count x ys)

-- How many of the names are not done.
unfoldable pub todo : List Text → List Text → ℕ
todo done [] = 0
todo done (d ∷ ds) = if count d done == 0 then suc (todo done ds) else todo done ds

pub count-append : (x : Text) (xs ys : List Text) → count x (xs ++ ys) ≡ count x xs + count x ys
unfolding count
count-append x [] ys = omega arith
count-append x (y ∷ xs) ys = ground (arith, count-append x xs ys)

pub todo-nothing : (ds : List Text) → todo [] ds ≡ length ds
unfolding todo count
todo-nothing [] = refl
todo-nothing (d ∷ ds) = ap suc (todo-nothing ds)

-- One more name that is done.
pub todo-done :
    (name : Text) (done ds : List Text)
    → count name done ≡ 0
    → todo (done ++ name ∷ []) ds + count name ds ≡ todo done ds
unfolding todo count
todo-done name done [] h = omega arith
todo-done name done (d ∷ ds) h = elim (text_discrete d name) [
  | yes same ↦
      rw same (ground (arith, count-append name done (name ∷ []), h, todo-done name done ds h))
  | no other ↦ ground (
    arith,
    count-append d done (name ∷ []),
    (λ (e : name ≡ d). other (sym e)),
    todo-done name done ds h,
  )
]

count-insert_sorted :
    (x name : Text) (names : List Text)
    → count x (insert_sorted name names) ≡ count x (name ∷ names)
unfolding insert_sorted count
count-insert_sorted x name [] = refl
count-insert_sorted x name (other ∷ names) = ground (arith, count-insert_sorted x name names)

pub count-sort : (x : Text) (names : List Text) → count x (sort names) ≡ count x names
unfolding sort count
count-sort x [] = refl
count-sort x (name ∷ names) =
    ground (arith, count-insert_sorted x name (sort names), count-sort x names)

-- A list without one occurrence of a name.
unfoldable erase : Text → List Text → List Text
erase x [] = []
erase x (y ∷ ys) = ite (text_discrete y x) ys (y ∷ erase x ys)

length-erase : (x : Text) (ys : List Text) → 1 ≤ count x ys → suc (length (erase x ys)) ≡ length ys
unfolding erase count
length-erase x [] h = absurd (omega arith)
length-erase x (y ∷ ys) h = elim (text_discrete y x) [
  | yes same ↦ ground (arith, same)
  | no other ↦ ground (arith, other, length-erase x ys (ground (arith, h, other)))
]

count-erase : (z x : Text) (ys : List Text) → count z ys ≤ count z (erase x ys) + count z (x ∷ [])
unfolding erase count
count-erase z x [] = omega arith
count-erase z x (y ∷ ys) = elim (text_discrete y x) [
  | yes same ↦ rw same (ground (arith, count-erase z x ys))
  | no other ↦ ground (arith, other, count-erase z x ys)
]

-- A list whose names are all in another one, as often, is no longer.
pub length-le : (xs ys : List Text) → ((z : Text) → count z xs ≤ count z ys) → length xs ≤ length ys
unfolding count
length-le [] ys h = omega arith
length-le (x ∷ xs) ys h =
    let some_x : 1 ≤ count x ys = ground (arith, h x) in
    let rest = length-le xs (erase x ys) (λ z. (ground (arith, h z, count-erase z x ys))) in
    omega (arith, rest, length-erase x ys some_x)

pub length-keys {ℓ} : {V : Type ℓ} (m : List (Text × V)) → length (keys m) ≡ length m
unfolding keys
length-keys [] = refl
length-keys ((name, v) ∷ m) = ap suc (length-keys m)

count-keys-remove :
    (x name : Text) (m : Degrees)
    → count x (keys (Maps.remove text_discrete name m))
      ≡ ite (text_discrete name x) 0 (count x (keys m))
unfolding keys count Maps.remove
count-keys-remove x name [] = ground arith
count-keys-remove x name ((other, d) ∷ m) = elim (text_discrete other name) [
  | yes same ↦ rw same (ground (arith, count-keys-remove x name m))
  | no differ ↦ ground (arith, differ, count-keys-remove x name m)
]

pub count-keys-insert :
    (x name : Text) (d : ℕ) (m : Degrees)
    → count x (keys (Maps.insert text_discrete name d m))
      ≡ ite (text_discrete name x) 1 (count x (keys m))
unfolding keys count Maps.insert
count-keys-insert x name d m = ground (arith, count-keys-remove x name m)

-- The seeds are the names of degree 0.
pub count-seeds : (x : Text) (m : Degrees) → count x (seeds m) ≤ count x (keys m)
unfolding seeds keys count
count-seeds x [] = omega arith
count-seeds x ((name, d) ∷ m) = ground (arith, count-seeds x m)

pub seeds-zero :
    (x : Text) (m : Degrees)
    → count x (keys m) ≤ 1
    → 1 ≤ count x (seeds m)
    → or_zero (Maps.get text_discrete x m) ≡ 0
unfolding seeds keys count Maps.get
seeds-zero x [] once h = refl
seeds-zero x ((name, d) ∷ m) once h = elim (text_discrete name x) [
  | yes same ↦ ground (arith, same, h, once, count-seeds x m)
  | no other ↦ ground (
    arith,
    other,
    h,
    once,
    seeds-zero x m (ground (arith, other, once)) (ground (arith, other, h)),
  )
]

pub zero-seeds :
    (x : Text) (m : Degrees)
    → 1 ≤ count x (keys m)
    → or_zero (Maps.get text_discrete x m) ≡ 0
    → 1 ≤ count x (seeds m)
unfolding seeds keys count Maps.get
zero-seeds x [] h z = absurd (omega arith)
zero-seeds x ((name, d) ∷ m) h z = elim (text_discrete name x) [
  | yes same ↦ ground (arith, same, z)
  | no other ↦
      ground (arith, other, z, zero-seeds x m (ground (arith, other, h)) (ground (arith, other, z)))
]
