-- ===== src/Compose/Degrees.antt =====
-- The counting of dependencies in compose/orchestrator.rs.
use visor.Prelude.{ℕ, ◌+◌, ◌≤◌, ◌≡◌, refl, true, List, [], ◌∷◌, ◌++◌, length, length-append, arith}
use visor.Prelude.Maps
use visor.Prelude.Maps.{Map, get-insert}
use visor.Prelude.Texts.{Text, text_discrete}
use mathlib.Core.Logic.{ite}
use visor.Compose.{
  Services, keys, extract_dependency_names, contains_key, Degrees, Dependents, or_zero, or_nil,
  zero_degrees, add_dependency,
}
use visor.Compose.Counts.{count, count-append, count-keys-insert}

-- What a service depends on; a name has one entry.
unfoldable pub dependencies : Services → Text → List Text
dependencies [] x = []
dependencies ((name, svc) ∷ services) x =
    ite (text_discrete name x) (extract_dependency_names svc.depends_on ++ dependencies services x)
      (dependencies services x)

abbrev pub degree : Degrees → Text → ℕ
degree m x = or_zero (Maps.get text_discrete x m)

abbrev pub waiting : Dependents → Text → List Text
waiting m d = or_nil (Maps.get text_discrete d m)

-- The tables after the dependencies `deps x` of each service `x`.
pub record Counted (services : Services) (deps : Text → List Text) (state : Degrees × Dependents)
    : Type 0 where
  pub degree_is : (x : Text) → degree state.0 x ≡ length (deps x)
  pub waiting_is : (x d : Text) → count x (waiting state.1 d) ≡ count d (deps x)
  pub keys_are : (x : Text) → count x (keys state.0) ≤ 1
  pub keys_in : (x : Text) → 1 ≤ count x (keys state.0) → 1 ≤ count x (keys services)
  pub keys_all : (x : Text) → 1 ≤ count x (keys services) → 1 ≤ count x (keys state.0)
  pub defined : (x d : Text) → 1 ≤ count d (deps x) → 1 ≤ count d (keys services)

-- One more dependency of a service.
abbrev pub with_dependency : (Text → List Text) → Text → Text → Text → List Text
with_dependency deps name dep x = ite (text_discrete name x) (deps x ++ dep ∷ []) (deps x)

length-with :
    (deps : Text → List Text) (name dep x : Text)
    → length (with_dependency deps name dep x)
      ≡ ite (text_discrete name x) (length (deps x) + 1) (length (deps x))
length-with deps name dep x = elim (text_discrete name x) [
  | yes same ↦ ground (arith, same, length-append (deps x) (dep ∷ []))
  | no other ↦ ground (arith, other)
]

count-with :
    (deps : Text → List Text) (name dep x d : Text)
    → count d (with_dependency deps name dep x)
      ≡ ite (text_discrete name x) (count d (deps x) + count d (dep ∷ [])) (count d (deps x))
count-with deps name dep x d = elim (text_discrete name x) [
  | yes same ↦ ground (arith, same, count-append d (deps x) (dep ∷ []))
  | no other ↦ ground (arith, other)
]

pub contains_key-count :
    (d : Text) (services : Services) → contains_key d services ≡ true → 1 ≤ count d (keys services)
unfolding contains_key count keys Maps.get
contains_key-count d [] h = absurd (ground (arith, h))
contains_key-count d ((name, svc) ∷ services) h = elim (text_discrete name d) [
  | yes same ↦ ground (arith, same)
  | no other ↦ ground (arith, other, contains_key-count d services (ground (arith, other, h)))
]

pub add-Counted :
    (services : Services) (deps : Text → List Text) (state : Degrees × Dependents) (name dep : Text)
    → Counted services deps state
    → 1 ≤ count name (keys services)
    → 1 ≤ count dep (keys services)
    → Counted services (with_dependency deps name dep) (add_dependency name dep state)
unfolding add_dependency count
add-Counted services deps (degrees, dependents) name dep c there known = record {
  degree_is = λ x. elim (text_discrete name x) [
    | yes same ↦ rw same (
        ground (
          arith,
          get-insert text_discrete x x (degree degrees x + 1) degrees,
          length-with deps x dep x,
          c.degree_is x,
        ))
    | no other ↦ ground (
      arith,
      other,
      get-insert text_discrete name x (degree degrees name + 1) degrees,
      length-with deps name dep x,
      c.degree_is x,
    )
  ];
  waiting_is = λ x d. elim (text_discrete dep d) [
    | yes same ↦ rw same (
        ground (
          arith,
          get-insert text_discrete d d (waiting dependents d ++ name ∷ []) dependents,
          count-append x (waiting dependents d) (name ∷ []),
          c.waiting_is x d,
          count-with deps name d x d,
        ))
    | no other ↦ ground (
      arith,
      other,
      get-insert text_discrete dep d (waiting dependents dep ++ name ∷ []) dependents,
      c.waiting_is x d,
      count-with deps name dep x d,
    )
  ];
  keys_are =
      λ x. ground (arith, count-keys-insert x name (degree degrees name + 1) degrees, c.keys_are x);
  keys_in = λ x h. elim (text_discrete name x) [
    | yes same ↦ rw⁻¹ same there
    | no other ↦
        c.keys_in x
          (ground (arith, other, h, count-keys-insert x name (degree degrees name + 1) degrees))
  ];
  keys_all = λ x h.
      ground (arith, count-keys-insert x name (degree degrees name + 1) degrees, c.keys_all x h);
  defined = λ x d h. elim (text_discrete dep d) [
    | yes same ↦ rw⁻¹ same known
    | no other ↦ c.defined x d (ground (arith, other, h, count-with deps name dep x d))
  ];
}

zero_degree : (services : Services) (x : Text) → degree (zero_degrees services) x ≡ 0
unfolding zero_degrees Maps.get
zero_degree [] x = refl
zero_degree ((name, svc) ∷ services) x =
    ground
      (arith, get-insert text_discrete name x 0 (zero_degrees services), zero_degree services x)

zero_keys : (services : Services) (x : Text) → count x (keys (zero_degrees services)) ≤ 1
unfolding zero_degrees keys count
zero_keys [] x = omega arith
zero_keys ((name, svc) ∷ services) x =
    ground (arith, count-keys-insert x name 0 (zero_degrees services), zero_keys services x)

zero_in :
    (services : Services) (x : Text)
    → 1 ≤ count x (keys (zero_degrees services))
    → 1 ≤ count x (keys services)
unfolding zero_degrees keys count
zero_in [] x h = h
zero_in ((name, svc) ∷ services) x h = elim (text_discrete name x) [
  | yes same ↦ ground (arith, same)
  | no other ↦ ground (
    arith,
    other,
    zero_in services x
        (ground (arith, other, h, count-keys-insert x name 0 (zero_degrees services))),
  )
]

zero_all :
    (services : Services) (x : Text)
    → 1 ≤ count x (keys services)
    → 1 ≤ count x (keys (zero_degrees services))
unfolding zero_degrees keys count
zero_all [] x h = h
zero_all ((name, svc) ∷ services) x h = elim (text_discrete name x) [
  | yes same ↦ ground (arith, same, count-keys-insert x name 0 (zero_degrees services))
  | no other ↦ ground (
    arith,
    other,
    count-keys-insert x name 0 (zero_degrees services),
    zero_all services x (ground (arith, other, h)),
  )
]

pub zero-Counted : (services : Services) → Counted services (λ x. []) (zero_degrees services, [])
unfolding zero_degrees count keys Maps.get
zero-Counted services = record {
  degree_is = λ x. zero_degree services x;
  waiting_is = λ x d. refl;
  keys_are = λ x. zero_keys services x;
  keys_in = λ x h. zero_in services x h;
  keys_all = λ x h. zero_all services x h;
  defined = λ x d h. absurd (omega arith);
}
