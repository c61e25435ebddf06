-- ===== src/Migration.antt =====
-- crates/visor-vmm/src/migration.rs: the rounds of pre-copy over the snapshots of the dirty tracker. The
-- threshold is a floating-point number: its type and the comparison of a rate with it are arguments. The
-- round stays below 2 ^ 32.
pub mod Rounds
mod Tests
use visor.Prelude.{
  ℕ, suc, ◌+◌, Bool, true, false, List, [], ◌∷◌, Option, none, some, length, leb, if◌then◌else◌,
}
use visor.DirtyTracking.{DirtySnapshot, dirty_pages}

pub record ConvergenceDetector (T : Type 0) : Type 0 where
  pub threshold_pages_per_sec : T
  pub max_rounds : ℕ

unfoldable pub with_config : {T : Type 0} → T → ℕ → ConvergenceDetector T
with_config threshold max_rounds = record {
  threshold_pages_per_sec = threshold;
  max_rounds = max_rounds;
}

pub data PreCopyAction : Type 0 where
  send_pages : (round : ℕ) (dirty_page_indices : List ℕ) → PreCopyAction
  stop_and_copy : (round : ℕ) → PreCopyAction

pub record PreCopyState (T : Type 0) : Type 0 where
  pub round : ℕ
  pub total_pages_sent : ℕ
  pub convergence : ConvergenceDetector T

unfoldable pub with_convergence : {T : Type 0} → ConvergenceDetector T → PreCopyState T
with_convergence convergence = record { round = 0; total_pages_sent = 0; convergence = convergence }

-- `is_below rate threshold` is `rate < threshold`; a rate is a count of pages and the milliseconds.
module _ {T : Type 0} (is_below : ℕ × ℕ → T → Bool) where
  unfoldable pub rate_converged : ConvergenceDetector T → Option (ℕ × ℕ) → Bool
  rate_converged c none = false
  rate_converged c (some rate) = is_below rate c.threshold_pages_per_sec

  unfoldable pub should_stop_and_copy : ConvergenceDetector T → Option (ℕ × ℕ) → ℕ → Bool
  should_stop_and_copy c dirty_rate round =
      if leb c.max_rounds round then true else rate_converged c dirty_rate

  -- The state with its new round, and what to do with the dirty pages.
  unfoldable pub decide : PreCopyState T → Option (ℕ × ℕ) → List ℕ → PreCopyState T × PreCopyAction
  decide s rate [] = (s, stop_and_copy s.round)
  decide s rate (page ∷ pages) =
      if should_stop_and_copy s.convergence rate s.round then (s, stop_and_copy s.round) else (
        record s { total_pages_sent = s.total_pages_sent + length (page ∷ pages) },
        send_pages s.round (page ∷ pages),
      )

  unfoldable pub process_snapshot : PreCopyState T → DirtySnapshot → PreCopyState T × PreCopyAction
  process_snapshot s snapshot =
      decide (record s { round = suc s.round }) snapshot.rate (dirty_pages snapshot.snapshot_bitmap)
