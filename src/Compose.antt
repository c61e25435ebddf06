-- ===== src/Compose.antt =====
-- crates/visor-runtime/src/compose/orchestrator.rs: the order in which the services of a compose file are
-- started. A text is the list of its bytes. Of a service only `depends_on` is read here.
pub mod Counts
pub mod Counting
pub mod Degrees
pub mod Loop
pub mod Order
pub mod Starting
mod Tests
use visor.Prelude.{
  ℕ, zero, suc, ◌+◌, ◌-◌, Bool, true, false, ◌||◌, List, [], ◌∷◌, ◌++◌, Option, none, some, Result,
  ok, err, ◌>>=◌, length, ltb, ◌==◌, if◌then◌else◌,
}
use visor.Prelude.Maps
use visor.Prelude.Maps.{Map}
use visor.Prelude.Texts.{Text, text_discrete, same_text}

pub record DependsOnCondition : Type 0 where
  pub condition : Option Text

pub data ComposeDependsOn : Type 0 where
  empty : ComposeDependsOn
  simple : List Text → ComposeDependsOn
  extended : Map Text DependsOnCondition → ComposeDependsOn

pub record ComposeService : Type 0 where
  pub depends_on : ComposeDependsOn

abbrev pub Services : Type 0
Services = Map Text ComposeService

pub data SortError : Type 0 where
  -- The service and the dependency that is not defined.
  undefined_dependency : Text → Text → SortError
  dependency_cycle : SortError
  -- Not an error of the source: the fuel of the model was not enough.
  out_of_fuel : SortError

unfoldable pub keys {ℓ} : {V : Type ℓ} → List (Text × V) → List Text
keys [] = []
keys ((name, v) ∷ rest) = name ∷ keys rest

unfoldable pub extract_dependency_names : ComposeDependsOn → List Text
extract_dependency_names ComposeDependsOn.empty = []
extract_dependency_names (ComposeDependsOn.simple names) = names
extract_dependency_names (ComposeDependsOn.extended conditions) = keys conditions

-- "service_healthy"
abbrev pub service_healthy : Text
service_healthy =
    b's' ∷ b'e' ∷ b'r' ∷ b'v' ∷ b'i' ∷ b'c' ∷ b'e' ∷ b'_' ∷ b'h' ∷ b'e' ∷ b'a' ∷ b'l' ∷ b't' ∷ b'h'
    ∷ b'y' ∷ []

unfoldable pub is_healthy_condition : Option DependsOnCondition → Bool
is_healthy_condition none = false
is_healthy_condition (some c) = elim c.condition [
  | none ↦ false
  | some text ↦ same_text text service_healthy
]

unfoldable pub waits_for : Text → ComposeDependsOn → Bool
waits_for name ComposeDependsOn.empty = false
waits_for name (ComposeDependsOn.simple names) = false
waits_for name (ComposeDependsOn.extended conditions) =
    is_healthy_condition (Maps.get text_discrete name conditions)

unfoldable pub needs_health_wait : Text → Services → Bool
needs_health_wait name [] = false
needs_health_wait name ((other, svc) ∷ services) =
    let rest = needs_health_wait name services in waits_for name svc.depends_on || rest

unfoldable pub contains_key : Text → Services → Bool
contains_key name services = elim (Maps.get text_discrete name services) [
  | none ↦ false
  | some svc ↦ true
]

-- `in_degree` and `dependents`.
abbrev pub Degrees : Type 0
Degrees = Map Text ℕ

abbrev pub Dependents : Type 0
Dependents = Map Text (List Text)

abbrev pub or_zero : Option ℕ → ℕ
or_zero none = 0
or_zero (some n) = n

abbrev pub or_nil : Option (List Text) → List Text
or_nil none = []
or_nil (some names) = names

-- `entry(name).or_insert(0)` for every service; a name has one entry.
unfoldable pub zero_degrees : Services → Degrees
zero_degrees [] = []
zero_degrees ((name, svc) ∷ services) = Maps.insert text_discrete name 0 (zero_degrees services)

unfoldable pub add_dependency : Text → Text → Degrees × Dependents → Degrees × Dependents
add_dependency name dep (in_degree, dependents) = (
  Maps.insert text_discrete name (or_zero (Maps.get text_discrete name in_degree) + 1) in_degree,
  Maps.insert text_discrete dep (or_nil (Maps.get text_discrete dep dependents) ++ name ∷ [])
      dependents,
)

unfoldable pub count_dependencies :
    Services → Text → List Text → Degrees × Dependents → Result (Degrees × Dependents) SortError
count_dependencies services name [] state = ok state
count_dependencies services name (dep ∷ deps) state =
    let rest = count_dependencies services name deps (add_dependency name dep state) in
    if contains_key dep services then rest else err (SortError.undefined_dependency name dep)

-- The loop over the services that are left.
unfoldable pub count_services :
    Services → Services → Degrees × Dependents → Result (Degrees × Dependents) SortError
count_services services [] state = ok state
count_services services ((name, svc) ∷ left) state =
    count_dependencies services name (extract_dependency_names svc.depends_on) state >>= λ counted.
    count_services services left counted

-- The order of texts, and `sort`.
unfoldable pub text_leb : Text → Text → Bool
text_leb [] other = true
text_leb (c ∷ text) [] = false
text_leb (c ∷ text) (d ∷ other) =
    let rest = text_leb text other in if ltb c d then true else (if c == d then rest else false)

unfoldable pub insert_sorted : Text → List Text → List Text
insert_sorted name [] = name ∷ []
insert_sorted name (other ∷ names) =
    let rest = insert_sorted name names in
    if text_leb name other then name ∷ other ∷ names else other ∷ rest

unfoldable pub sort : List Text → List Text
sort [] = []
sort (name ∷ names) = insert_sorted name (sort names)

unfoldable pub seeds : Degrees → List Text
seeds [] = []
seeds ((name, deg) ∷ rest) = let later = seeds rest in if deg == 0 then name ∷ later else later

-- One dependent that is waiting for one less, and whether it is ready then.
unfoldable pub lower : Text → Degrees → Option ℕ → Degrees × List Text
lower dep in_degree none = (in_degree, [])
lower dep in_degree (some deg) =
    (Maps.insert text_discrete dep (deg - 1) in_degree, (if deg - 1 == 0 then dep ∷ [] else []))

unfoldable pub lower_all : List Text → Degrees → Degrees × List Text
lower_all [] in_degree = (in_degree, [])
lower_all (dep ∷ deps) in_degree =
    let first = lower dep in_degree (Maps.get text_discrete dep in_degree) in
    let later = lower_all deps first.0 in (later.0, first.1 ++ later.1)

-- The loop over the queue; each round takes one unit of fuel.
unfoldable pub process : ℕ → Dependents → List Text → Degrees → List Text → Option (List Text)
process fuel dependents [] in_degree result = some result
process zero dependents (name ∷ queue) in_degree result = none
process (suc fuel) dependents (name ∷ queue) in_degree result =
    let lowered = lower_all (or_nil (Maps.get text_discrete name dependents)) in_degree in
    process fuel dependents (queue ++ sort lowered.1) lowered.0 (result ++ name ∷ [])

unfoldable pub checked : Services → Option (List Text) → Result (List Text) SortError
checked services none = err SortError.out_of_fuel
checked services (some result) =
    if length result == length services then ok result else err SortError.dependency_cycle

-- As many rounds as there are services.
unfoldable pub dependency_sort : Services → Result (List Text) SortError
dependency_sort [] = ok []
dependency_sort ((name, svc) ∷ rest) =
    let services = (name, svc) ∷ rest in
    count_services services services (zero_degrees services, []) >>= λ counted.
    checked services (process (length services) counted.1 (sort (seeds counted.0)) counted.0 [])
