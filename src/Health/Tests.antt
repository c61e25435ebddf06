-- ===== src/Health/Tests.antt =====
-- The health checks of pool/health.rs with a threshold of 3.
use visor.Prelude.{
  ℕ, ◌≡◌, refl, false, List, [], ◌∷◌, ◌++◌, Option, none, some, if◌then◌else◌, ◌==◌,
}
use native.Mathlib.Decide.{ℕ_discrete}
use visor.Prelude.Maps
use visor.Prelude.Texts.{Text, text_discrete}
use visor.Health.{
  unknown, VmHealthState, recovered, went_unhealthy, States, update, check_vm, check_each,
  check_all, is_active, entry_or_new,
}
use visor.Health.Watch.{watch, Alternates, watch-Alternates, failures}
use visor.Health.Sweep.{Once, cid_of}

abbrev vm : Text
vm = 118 ∷ []

abbrev reasons : List Text
reasons = (1 ∷ []) ∷ (2 ∷ []) ∷ (3 ∷ []) ∷ (4 ∷ []) ∷ []

abbrev unchecked : VmHealthState
unchecked = record { status = unknown; consecutive_failures = 0; notified_unhealthy = false }

outage_runs :
    (watch 3 vm unchecked (failures reasons ++ none ∷ [])).1
    ≡ went_unhealthy vm (3 ∷ []) 3 ∷ recovered vm ∷ []
unfolding watch update check_vm
outage_runs = refl

watch-Alternates_example : Alternates false (watch 3 vm unchecked (failures reasons ++ none ∷ [])).1
watch-Alternates_example = watch-Alternates 3 vm unchecked (failures reasons ++ none ∷ [])

-- The VM with CID 5 does not answer.
abbrev ping : ℕ → Option Text
ping cid = if cid == 5 then some (1 ∷ []) else none

abbrev running : List (Text × ℕ)
running = (vm, 5) ∷ (119 ∷ [], 6) ∷ []

abbrev known : States
known = (vm, record unchecked { consecutive_failures = 2 }) ∷ (120 ∷ [], unchecked) ∷ []

running-Once : Once running
unfolding cid_of text_discrete ℕ_discrete
running-Once = (refl, (refl, tt))

sweep_runs : (check_all ping 3 running known).1 ≡ went_unhealthy vm (1 ∷ []) 3 ∷ []
unfolding check_all check_each update check_vm is_active entry_or_new Maps.get Maps.insert
    Maps.remove Maps.retain text_discrete ℕ_discrete
sweep_runs = refl
