-- ===== src/Compose/Tests.antt =====
-- Runs of the start order of compose/orchestrator.rs.
use visor.Prelude.{◌≡◌, ◌≢◌, refl, sym, ◌∙◌, ◌∙◌, true, false, [], ◌∷◌, some, ok, err, arith}
use native.Mathlib.Decide.{ℕ_discrete}
use visor.Prelude.Maps.{get, insert, remove}
use visor.Prelude.Texts.{Text, text_discrete}
use visor.Compose.{
  Services, ComposeDependsOn, SortError, keys, needs_health_wait, dependency_sort, service_healthy,
  waits_for, is_healthy_condition, extract_dependency_names, contains_key, zero_degrees,
  add_dependency, count_dependencies, count_services, text_leb, insert_sorted, sort, seeds, lower,
  lower_all, process, checked,
}
use visor.Compose.Counts.{count}
use visor.Compose.Order.{HasUniqueKeys}
use visor.Compose.Starting.{SortsTo, dependency_sort-SortsTo}

abbrev web : Text
web = b'w' ∷ []

abbrev db : Text
db = b'd' ∷ []

-- The service `web` waits for a healthy `db`.
abbrev two_services : Services
two_services =
    (
      web,
      record {
        depends_on =
            ComposeDependsOn.extended ((db, record { condition = some service_healthy }) ∷ []);
      },
    )
    ∷ (db, record { depends_on = ComposeDependsOn.empty })
    ∷ []

abbrev cyclic_services : Services
cyclic_services =
    (web, record { depends_on = ComposeDependsOn.simple (db ∷ []) })
    ∷ (db, record { depends_on = ComposeDependsOn.simple (web ∷ []) })
    ∷ []

db_before_web : dependency_sort two_services ≡ ok (db ∷ web ∷ [])
unfolding dependency_sort count_services count_dependencies extract_dependency_names contains_key
    checked process sort seeds add_dependency zero_degrees insert_sorted lower lower_all text_leb
    keys get insert remove text_discrete ℕ_discrete
db_before_web = refl

cycle_is_found : dependency_sort cyclic_services ≡ err SortError.dependency_cycle
unfolding dependency_sort count_services count_dependencies extract_dependency_names contains_key
    checked process sort seeds add_dependency zero_degrees insert_sorted lower lower_all text_leb
    keys get insert remove text_discrete ℕ_discrete
cycle_is_found = refl

undefined_is_named :
    dependency_sort ((web, record { depends_on = ComposeDependsOn.simple (db ∷ []) }) ∷ [])
    ≡ err (SortError.undefined_dependency web db)
unfolding dependency_sort count_services count_dependencies extract_dependency_names contains_key
    checked process sort seeds add_dependency zero_degrees insert_sorted lower lower_all text_leb
    keys get insert remove text_discrete ℕ_discrete
undefined_is_named = refl

waits_for_db : needs_health_wait db two_services ≡ true
unfolding needs_health_wait waits_for is_healthy_condition get text_discrete ℕ_discrete
waits_for_db = refl

waits_not_for_web : needs_health_wait web two_services ≡ false
unfolding needs_health_wait waits_for is_healthy_condition get text_discrete ℕ_discrete
waits_not_for_web = refl

web-db : web ≢ db
web-db e = absurd (ground (arith, e))

two_services-HasUniqueKeys : HasUniqueKeys two_services
unfolding keys count
two_services-HasUniqueKeys x = elim (text_discrete web x) [
  | yes is_web ↦ elim (text_discrete db x) [
    | yes is_db ↦ absurd (web-db (is_web ∙ sym is_db))
    | no other ↦ ground (arith, is_web, other)
  ]
  | no other ↦ ground (arith, other)
]

dependency_sort-SortsTo_example : SortsTo two_services (dependency_sort two_services)
dependency_sort-SortsTo_example = dependency_sort-SortsTo two_services two_services-HasUniqueKeys
