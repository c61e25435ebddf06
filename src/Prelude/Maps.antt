-- ===== src/Prelude/Maps.antt =====
-- Finite maps as association lists, over keys with decidable equality: Rust's `HashMap` and
-- `BTreeMap`, whose order the modelled code does not read.
use mathlib.Core.Path.{◌≡◌}
use mathlib.Core.Logic.{ite}
use mathlib.Core.Bool.{Bool}
use mathlib.Core.List.{List, [], ◌∷◌}
use mathlib.Core.Option.{Option, none, some}
use native.Mathlib.Omega.{arith}
use visor.Prelude.Tests.{if◌then◌else◌}

abbrev pub Map {ℓ} : Type ℓ → Type ℓ → Type ℓ
Map K V = List (K × V)

module _ {ℓ} {K V : Type ℓ} (dec : Discrete K) where
  unfoldable pub get : K → Map K V → Option V
  get k [] = none
  get k ((j, v) ∷ m) = ite (dec j k) (some v) (get k m)

  unfoldable pub remove : K → Map K V → Map K V
  remove k [] = []
  remove k ((j, v) ∷ m) = ite (dec j k) (remove k m) ((j, v) ∷ remove k m)

  -- The old binding of the key goes.
  unfoldable pub insert : K → V → Map K V → Map K V
  insert k v m = (k, v) ∷ remove k m

  pub get-remove : (k j : K) (m : Map K V) → get j (remove k m) ≡ ite (dec k j) none (get j m)
  unfolding get remove
  get-remove k j [] = ground arith
  get-remove k j ((i, v) ∷ m) = ground (arith, get-remove k j m)

  pub get-insert :
      (k j : K) (v : V) (m : Map K V) → get j (insert k v m) ≡ ite (dec k j) (some v) (get j m)
  unfolding get insert
  get-insert k j v m = ground (arith, get-remove k j m)

  unfoldable pub retain : (K → Bool) → Map K V → Map K V
  retain keep [] = []
  retain keep ((j, v) ∷ m) = if keep j then (j, v) ∷ retain keep m else retain keep m

  pub get-retain :
      (keep : K → Bool) (k : K) (m : Map K V)
      → get k (retain keep m) ≡ (if keep k then get k m else none)
  unfolding get retain
  get-retain keep k [] = ground arith
  get-retain keep k ((j, v) ∷ m) = elim (dec j k) [
    | yes hit ↦ rw hit (ground (arith, get-retain keep k m))
    | no miss ↦ ground (arith, miss, get-retain keep k m)
  ]
