-- ===== src/Migration/Tests.antt =====
-- Runs of migration.rs on one dirty page that is written again and again.
use visor.Prelude.{ℕ, ◌*◌, ◌≡◌, max, Bool, true, [], ◌∷◌, some, ltb}
use visor.DirtyTracking.{DirtySnapshot}
use visor.Migration.{ConvergenceDetector, with_convergence}
use visor.Migration.Rounds.{rounds, rounds-end}

-- The third page of eight is dirty, 1000 pages in a second.
abbrev busy : ℕ → DirtySnapshot
busy n = record {
  snapshot_bitmap = record { bitmap = 4 ∷ []; page_count = 8 };
  rate = some (1000, 1000);
  snapshot_count = 1;
}

-- The threshold in pages per second.
abbrev is_below : ℕ × ℕ → ℕ → Bool
is_below (pages, ms) threshold = ltb (pages * 1000) (threshold * ms)

abbrev three_rounds : ConvergenceDetector ℕ
three_rounds = record { threshold_pages_per_sec = 50; max_rounds = 3 }

rounds-end_example : (rounds is_below busy (max 1 3) (with_convergence three_rounds)).1 ≡ true
rounds-end_example = rounds-end is_below busy three_rounds
