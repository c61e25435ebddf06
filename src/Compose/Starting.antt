-- ===== src/Compose/Starting.antt =====
-- `dependency_sort` of compose/orchestrator.rs: it finds an order exactly when there is one.
use visor.Prelude.{
  ◌≤◌, ◌≡◌, ◌≢◌, refl, false, List, [], ◌∷◌, some, Result, ok, err, ◌>>=◌, length, arith, ◌==◌,
  if_cases,
}
use visor.Prelude.Texts.{Text}
use visor.Compose.{
  Services, SortError, keys, contains_key, Degrees, Dependents, zero_degrees, count_services, sort,
  seeds, process, checked, dependency_sort,
}
use visor.Compose.Counts.{count, length-le, length-keys}
use visor.Compose.Degrees.{dependencies}
use visor.Compose.Counting.{CountsTo, all-CountsTo}
use visor.Compose.Loop.{IsOrdered, Finished, process-Finished, first-Running}
use visor.Compose.Order.{
  IsStartOrder, HasUniqueKeys, full-IsStartOrder, IsOrdered-started, IsOrdered-has,
  count-contains_key, dependencies-known,
}

-- What each result says of the services: an order in which they can be started, or that there is none,
-- and with the name of a missing service who depends on it.
unfoldable pub SortsTo : Services → Result (List Text) SortError → Type 0
SortsTo services (ok order) = IsStartOrder services order
SortsTo services (err (SortError.undefined_dependency name dep)) =
    (1 ≤ count dep (dependencies services name))
    × ((contains_key dep services ≡ false) × ¬ ((order : List Text) × IsStartOrder services order))
SortsTo services (err SortError.dependency_cycle) =
    ¬ ((order : List Text) × IsStartOrder services order)
SortsTo services (err SortError.out_of_fuel) = ⊥

undefined-no_order :
    (services : Services) (name dep : Text) (order : List Text)
    → 1 ≤ count dep (dependencies services name)
    → contains_key dep services ≡ false
    → ¬ IsStartOrder services order
unfolding count
undefined-no_order services name dep order h unknown s =
    let known = dependencies-known services name dep h in
    let there =
      IsOrdered-has (dependencies services) [] order name dep s.after_dependencies
        (ground (arith, known, s.each_once name)) h in
    absurd (
      ground
        (arith, unknown, count-contains_key dep services (ground (arith, there, s.each_once dep))))

-- A loop that has missed a service has found that there is no order.
short-no_order :
    (services : Services) (result order : List Text)
    → HasUniqueKeys services
    → Finished services (dependencies services) result
    → length result ≢ length services
    → ¬ IsStartOrder services order
unfolding count
short-no_order services result order unique (degrees, r) short s =
    let all : (x : Text) → count x (keys services) ≤ count x result = λ x. ground (
      arith,
      unique x,
      s.each_once x,
      IsOrdered-started services (dependencies services) result [] order (degrees, r)
          (λ y m. ground (arith, m, s.each_once y)) (λ y m. absurd (omega arith))
          s.after_dependencies x,
    ) in
    let le = length-le (keys services) result all in
    let ge = length-le result (keys services) (λ x. ground (arith, r.once x)) in
    short (omega (arith, le, ge, length-keys services))

checked-SortsTo :
    (services : Services) (result : List Text)
    → HasUniqueKeys services
    → Finished services (dependencies services) result
    → SortsTo services (checked services (some result))
unfolding checked SortsTo
checked-SortsTo services result unique f =
    if_cases (SortsTo services) (length result == length services)
      (λ same. full-IsStartOrder services result unique f (ground (arith, same)))
      (λ other. (λ s.
        short-no_order services result s.0 unique f (λ e. absurd (ground (arith, other, e))) s.1))

-- What the counting ends in is sorted.
counted-SortsTo :
    (services : Services) (counted : Result (Degrees × Dependents) SortError)
    → HasUniqueKeys services
    → CountsTo services (dependencies services) (dependencies services) counted
    → SortsTo services (
        counted >>= λ c. checked services (process (length services) c.1 (sort (seeds c.0)) c.0 []))
unfolding CountsTo SortsTo
counted-SortsTo services (ok (degrees, dependents)) unique c =
    let (done, e, f) =
      process-Finished (length services) services (dependencies services) dependents degrees
        (sort (seeds degrees)) [] (λ x d. c.waiting_is x d)
        (λ x d m. dependencies-known services x d m)
        (first-Running services (dependencies services) (degrees, dependents) c) (omega arith) in
    rw e (checked-SortsTo services done unique f)
counted-SortsTo services (err (SortError.undefined_dependency name dep)) unique (h, unknown) =
    (h, (unknown, λ s. undefined-no_order services name dep s.0 h unknown s.1))
counted-SortsTo services (err SortError.dependency_cycle) unique c = absurd c
counted-SortsTo services (err SortError.out_of_fuel) unique c = absurd c

-- The services of a compose file, each name with one entry, are put in an order in which every service
-- comes exactly once and after all that it depends on, if there is such an order. Otherwise sorting ends in
-- the error of a cycle, or in one that names a service and a dependency of it that is not defined. The
-- rounds are always enough.
pub dependency_sort-SortsTo :
    (services : Services) → HasUniqueKeys services → SortsTo services (dependency_sort services)
unfolding dependency_sort SortsTo IsOrdered keys count
dependency_sort-SortsTo [] unique = record { each_once = λ x. refl; after_dependencies = tt }
dependency_sort-SortsTo ((name, svc) ∷ rest) unique =
    counted-SortsTo ((name, svc) ∷ rest)
      (count_services ((name, svc) ∷ rest) ((name, svc) ∷ rest)
        (zero_degrees ((name, svc) ∷ rest), []))
      unique (all-CountsTo ((name, svc) ∷ rest))
