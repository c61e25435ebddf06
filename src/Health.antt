-- ===== src/Health.antt =====
-- crates/visor-runtime/src/pool/health.rs: the health checks of running VMs. The ping over vsock is
-- an argument: for a CID, `none` is a pong and `some` the reason of a failure. The locks are held for
-- a whole sweep, so a sweep is a function of the states.
pub mod Watch
pub mod Sweep
mod Tests
use visor.Prelude.{
  ℕ, ◌+◌, ◌%◌, ◌^◌, Bool, true, false, not, ◌&&◌, ◌||◌, List, [], ◌∷◌, ◌++◌, Option, none, some,
  leb, if◌then◌else◌,
}
use visor.Prelude.Maps
use visor.Prelude.Maps.{Map}
use visor.Prelude.Texts.{Text, text_discrete}

pub data HealthStatus : Type 0 where
  healthy unknown : HealthStatus
  unhealthy : (reason : Text) → HealthStatus

pub record VmHealthState : Type 0 where
  pub status : HealthStatus
  pub consecutive_failures : ℕ
  pub notified_unhealthy : Bool

pub data VmEvent : Type 0 where
  recovered : (vm_id : Text) → VmEvent
  went_unhealthy : (vm_id reason : Text) (consecutive_failures : ℕ) → VmEvent

unfoldable pub new : VmHealthState
new = record { status = unknown; consecutive_failures = 0; notified_unhealthy = false }

-- `HealthChecker::check_vm`.
unfoldable pub check_vm : Option Text → HealthStatus
check_vm none = healthy
check_vm (some reason) = unhealthy reason

abbrev pub increment_u32 : ℕ → ℕ
increment_u32 n = (n + 1) % 2 ^ 32

-- The `match` on a check's result: the entry, and the events that are sent.
unfoldable pub update : ℕ → Text → VmHealthState → HealthStatus → VmHealthState × List VmEvent
update threshold vm_id entry healthy =
    let entry' : VmHealthState = record {
      status = healthy;
      consecutive_failures = 0;
      notified_unhealthy = false;
    } in
    (entry', if entry.notified_unhealthy then recovered vm_id ∷ [] else [])
update threshold vm_id entry (unhealthy reason) =
    let failures = increment_u32 entry.consecutive_failures in
    let crossed = leb threshold failures && not entry.notified_unhealthy in
    (
      record {
        status = unhealthy reason;
        consecutive_failures = failures;
        notified_unhealthy = crossed || entry.notified_unhealthy;
      },
      if crossed then went_unhealthy vm_id reason failures ∷ [] else [],
    )
update threshold vm_id entry unknown = (record entry { status = unknown }, [])

abbrev pub States : Type 0
States = Map Text VmHealthState

-- `.entry(vm_id).or_insert_with(VmHealthState::new)`.
unfoldable pub entry_or_new : Option VmHealthState → VmHealthState
unfolding new
entry_or_new none = new
entry_or_new (some entry) = entry

unfoldable pub is_active : List (Text × ℕ) → Text → Bool
is_active [] vm_id = false
is_active ((id, cid) ∷ vms) vm_id = elim (text_discrete id vm_id) [
  | yes _ ↦ true
  | no _ ↦ is_active vms vm_id
]

module _ (ping : ℕ → Option Text) (threshold : ℕ) where
  -- The `for` loop of `check_all`.
  unfoldable pub check_each : List (Text × ℕ) → States → States × List VmEvent
  check_each [] states = (states, [])
  check_each ((vm_id, cid) ∷ vms) states =
      let entry = entry_or_new (Maps.get text_discrete vm_id states) in
      let (entry', sent) = update threshold vm_id entry (check_vm (ping cid)) in
      let (states', more) = check_each vms (Maps.insert text_discrete vm_id entry' states) in
      (states', sent ++ more)

  unfoldable pub check_all : List (Text × ℕ) → States → States × List VmEvent
  check_all running states =
      check_each running (Maps.retain text_discrete (is_active running) states)

pub record VmHealthReport : Type 0 where
  pub vm_id : Text
  pub status : HealthStatus
  pub consecutive_failures : ℕ

unfoldable pub report : States → Text → Option VmHealthReport
report states vm_id = elim (Maps.get text_discrete vm_id states) [
  | none ↦ none
  | some state ↦ some (record {
    vm_id = vm_id;
    status = state.status;
    consecutive_failures = state.consecutive_failures;
  })
]
