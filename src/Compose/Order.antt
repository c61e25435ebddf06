-- ===== src/Compose/Order.antt =====
-- What the order of compose/orchestrator.rs guarantees to the services it starts.
use visor.Prelude.{suc, ◌+◌, ◌≤◌, ◌≡◌, refl, true, List, [], ◌∷◌, ◌++◌, length, arith}
use visor.Prelude.Maps
use visor.Prelude.Texts.{Text, text_discrete}
use visor.Compose.{Services, keys, contains_key}
use visor.Compose.Counts.{count, todo, count-append, length-le, length-keys}
use visor.Compose.Degrees.{dependencies}
use visor.Compose.Loop.{IsOrdered, Finished}

-- An order in which every service comes once, after all that it depends on.
pub record IsStartOrder (services : Services) (order : List Text) : Type 0 where
  pub each_once : (x : Text) → count x order ≡ count x (keys services)
  pub after_dependencies : IsOrdered (dependencies services) [] order

-- A name has one entry.
abbrev pub HasUniqueKeys : Services → Type 0
HasUniqueKeys services = (x : Text) → count x (keys services) ≤ 1

pub dependencies-known :
    (services : Services) (x d : Text)
    → 1 ≤ count d (dependencies services x)
    → 1 ≤ count x (keys services)
unfolding dependencies count keys
dependencies-known [] x d h = absurd (omega arith)
dependencies-known ((name, svc) ∷ services) x d h = elim (text_discrete name x) [
  | yes same ↦ ground (arith, same)
  | no other ↦ ground (arith, other, dependencies-known services x d (ground (arith, other, h)))
]

-- A result that misses a service is shorter than the services.
missing-shorter :
    (services : Services) (result : List Text) (x : Text)
    → ((z : Text) → count z [] + count z result ≤ count z (keys services))
    → 1 ≤ count x (keys services)
    → count x result ≡ 0
    → suc (length result) ≤ length services
unfolding count
missing-shorter services result x h there z =
    let le = length-le (x ∷ result) (keys services) (λ y. elim (text_discrete x y) [
      | yes same ↦ rw⁻¹ same (ground (arith, z, there))
      | no other ↦ ground (arith, other, h y, z)
    ]) in
    omega (arith, le, length-keys services)

pub full-IsStartOrder :
    (services : Services) (result : List Text)
    → HasUniqueKeys services
    → Finished services (dependencies services) result
    → length result ≡ length services
    → IsStartOrder services result
unfolding count
full-IsStartOrder services result unique (degrees, r) e = record {
  each_once = λ x. ground (arith, e, unique x, r.once x, missing-shorter services result x r.once);
  after_dependencies = r.in_order;
}

todo-zero : (d : Text) (done ds : List Text) → todo done ds ≡ 0 → 1 ≤ count d ds → 1 ≤ count d done
unfolding todo count
todo-zero d done [] z h = absurd (omega arith)
todo-zero d done (x ∷ ds) z h = elim (text_discrete x d) [
  | yes same ↦ rw⁻¹ same (ground (arith, z))
  | no other ↦ todo-zero d done ds (ground (arith, z)) (ground (arith, other, h))
]

todo-more :
    (before done ds : List Text)
    → ((d : Text) → 1 ≤ count d before → 1 ≤ count d done)
    → todo before ds ≡ 0
    → todo done ds ≡ 0
unfolding todo
todo-more before done [] h z = refl
todo-more before done (d ∷ ds) h z =
    ground (arith, h d, z, todo-more before done ds h (ground (arith, z)))

-- A name more that is done already.
before-snoc :
    (y : Text) (before done : List Text)
    → ((x : Text) → 1 ≤ count x before → 1 ≤ count x done)
    → 1 ≤ count y done
    → (x : Text) → 1 ≤ count x (before ++ y ∷ [])
    → 1 ≤ count x done
unfolding count
before-snoc y before done h there x m = elim (text_discrete y x) [
  | yes same ↦ rw⁻¹ same there
  | no other ↦ h x (ground (arith, other, m, count-append x before (y ∷ [])))
]

-- What can be started in some order, the loop has started.
pub IsOrdered-started :
    (services : Services) (deps : Text → List Text) (result before order : List Text)
    → Finished services deps result
    → ((x : Text) → 1 ≤ count x order → 1 ≤ count x (keys services))
    → ((x : Text) → 1 ≤ count x before → 1 ≤ count x result)
    → IsOrdered deps before order
    → (x : Text) → 1 ≤ count x order
    → 1 ≤ count x result
unfolding IsOrdered count
IsOrdered-started services deps result before [] f known h o x m = absurd (omega arith)
IsOrdered-started services deps result before (y ∷ order) (degrees, r) known h (z, o) x m =
    let there : 1 ≤ count y result = ground (
      arith,
      r.left y,
      todo-more before result (deps y) h z,
      r.complete y (known y (ground arith)),
    ) in
    elim (text_discrete y x) [
      | yes same ↦ rw⁻¹ same there
      | no other ↦
          IsOrdered-started services deps result (before ++ y ∷ []) order (degrees, r)
            (λ w n. known w (ground (arith, n))) (before-snoc y before result h there) o x
            (ground (arith, other, m))
    ]

-- The dependencies of what is in the order are in it.
pub IsOrdered-has :
    (deps : Text → List Text) (before order : List Text) (x d : Text)
    → IsOrdered deps before order
    → 1 ≤ count x order
    → 1 ≤ count d (deps x)
    → 1 ≤ count d before + count d order
unfolding IsOrdered count
IsOrdered-has deps before [] x d o m h = absurd (omega arith)
IsOrdered-has deps before (y ∷ order) x d (z, o) m h = elim (text_discrete y x) [
  | yes same ↦ let first = todo-zero d before (deps x) (rw⁻¹ same z) h in ground (arith, first)
  | no other ↦
      let rest = IsOrdered-has deps (before ++ y ∷ []) order x d o (ground (arith, other, m)) h in
      ground (arith, rest, count-append d before (y ∷ []))
]

pub count-contains_key :
    (d : Text) (services : Services) → 1 ≤ count d (keys services) → contains_key d services ≡ true
unfolding contains_key count keys Maps.get
count-contains_key d [] h = absurd (omega arith)
count-contains_key d ((name, svc) ∷ services) h = elim (text_discrete name d) [
  | yes same ↦ ground (arith, same)
  | no other ↦ ground (arith, other, count-contains_key d services (ground (arith, other, h)))
]
