-- ===== src/Migration/Rounds.antt =====
-- The rounds of migration.rs over a sequence of snapshots: they end, and send the dirty pages.
use visor.Prelude.{
  ℕ, zero, suc, ◌+◌, ◌≤◌, ◌<◌, ◌≡◌, refl, ap, max, Bool, true, false, List, [], ◌∷◌, ◌++◌, Option,
  length, arith, length-append, if_cases,
}
use visor.DirtyTracking.{DirtySnapshot, dirty_pages}
use visor.Migration.{
  ConvergenceDetector, PreCopyAction, send_pages, stop_and_copy, PreCopyState, with_convergence,
  should_stop_and_copy, decide, process_snapshot,
}

-- The pages that the batches of a list of actions hold.
abbrev pub pages_sent : List PreCopyAction → List ℕ
pages_sent [] = []
pages_sent (send_pages round pages ∷ rest) = pages ++ pages_sent rest
pages_sent (stop_and_copy round ∷ rest) = pages_sent rest

-- The answer to one snapshot before the rest of the rounds.
abbrev pub continue :
    {T : Type 0}
    → PreCopyState T × PreCopyAction
    → PreCopyState T × Bool × List PreCopyAction
    → PreCopyState T × Bool × List PreCopyAction
continue (s, stop_and_copy round) rest = (s, true, stop_and_copy round ∷ [])
continue (s, send_pages round pages) rest = (rest.0, rest.1, send_pages round pages ∷ rest.2)

module _ {T : Type 0} (is_below : ℕ × ℕ → T → Bool) (snapshots : ℕ → DirtySnapshot) where
  -- The caller's loop: a snapshot in each round, until the answer is to stop. `fuel` bounds the rounds, and
  -- the flag says whether the answer came.
  unfoldable pub rounds : ℕ → PreCopyState T → PreCopyState T × Bool × List PreCopyAction
  rounds zero s = (s, false, [])
  rounds (suc fuel) s =
      let next = process_snapshot is_below s (snapshots s.round) in
      let rest = rounds fuel next.0 in continue next rest

  -- One round: it stops, or sends the dirty pages of its snapshot before the last round.
  abbrev Round : PreCopyState T → PreCopyState T × PreCopyAction → Type 0
  Round s (t, stop_and_copy round) = (t ≡ record s { round = suc s.round }) × (round ≡ suc s.round)
  Round s (t, send_pages round pages) =
      (round ≡ suc s.round)
      × (pages ≡ dirty_pages (snapshots s.round).snapshot_bitmap)
      × (t ≡ record s { round = suc s.round; total_pages_sent = s.total_pages_sent + length pages })
      × suc s.round < s.convergence.max_rounds

  decide-Round :
      (s : PreCopyState T) (rate : Option (ℕ × ℕ)) (pages : List ℕ)
      → pages ≡ dirty_pages (snapshots s.round).snapshot_bitmap
      → Round s (decide is_below (record s { round = suc s.round }) rate pages)
  unfolding decide should_stop_and_copy
  decide-Round s rate [] e = (refl, refl)
  decide-Round s rate (page ∷ pages) e =
      if_cases (Round s) (should_stop_and_copy is_below s.convergence rate (suc s.round))
        (λ stop. (refl, refl)) (λ go. (refl, e, refl, ground (arith, go)))

  process-Round : (s : PreCopyState T) → Round s (process_snapshot is_below s (snapshots s.round))
  unfolding process_snapshot
  process-Round s =
      decide-Round s (snapshots s.round).rate (dirty_pages (snapshots s.round).snapshot_bitmap) refl

  ends_after :
      (s : PreCopyState T) (fuel : ℕ) (next : PreCopyState T × PreCopyAction)
      → Round s next
      → s.convergence.max_rounds ≤ s.round + suc fuel
      → ((t : PreCopyState T)
          → t.convergence.max_rounds ≤ t.round + fuel
          → 1 ≤ fuel
          → (rounds fuel t).1 ≡ true)
      → (continue next (rounds fuel next.0)).1 ≡ true
  ends_after s fuel (t, stop_and_copy round) r enough later = refl
  ends_after s fuel (t, send_pages round pages) (at, sent, e, below) enough later =
      later t (rw e (omega (arith, enough))) (omega (arith, below, enough))

  ends :
      (fuel : ℕ) (s : PreCopyState T)
      → s.convergence.max_rounds ≤ s.round + fuel
      → 1 ≤ fuel
      → (rounds fuel s).1 ≡ true
  unfolding rounds
  ends zero s enough some_fuel = absurd (omega arith)
  ends (suc fuel) s enough some_fuel =
      ends_after s fuel (process_snapshot is_below s (snapshots s.round)) (process-Round s) enough
        (ends fuel)

  -- Whatever the guest writes, the rounds come to the answer to stop: by round `max_rounds`, and in the first
  -- round when that is 0.
  pub rounds-end :
      (convergence : ConvergenceDetector T)
      → (rounds (max 1 convergence.max_rounds) (with_convergence convergence)).1 ≡ true
  unfolding with_convergence
  rounds-end convergence =
      ends (max 1 convergence.max_rounds) (with_convergence convergence) (omega arith) (omega arith)

  -- From round `r` on, each action but the last sends the dirty pages of the snapshot of its round, and the
  -- last one, if the rounds have come to it, stops.
  abbrev pub IsPlan : ℕ → List PreCopyAction → Type 0
  IsPlan r [] = Unit
  IsPlan r (stop_and_copy round ∷ rest) = (round ≡ suc r) × (rest ≡ [])
  IsPlan r (send_pages round pages ∷ rest) =
      (round ≡ suc r) × (pages ≡ dirty_pages (snapshots r).snapshot_bitmap) × IsPlan (suc r) rest

  Counted : PreCopyState T → PreCopyState T × Bool × List PreCopyAction → Type 0
  Counted s (t, ended, actions) =
      IsPlan s.round actions
      × (t.total_pages_sent ≡ s.total_pages_sent + length (pages_sent actions))

  continue-Counted :
      (s : PreCopyState T) (next : PreCopyState T × PreCopyAction)
      (rest : PreCopyState T × Bool × List PreCopyAction)
      → Round s next
      → Counted next.0 rest
      → Counted s (continue next rest)
  unfolding Counted
  continue-Counted s (t, stop_and_copy round) rest (e, at) c = ((at, refl), rw e (omega arith))
  continue-Counted s (t, send_pages round pages) (u, ended, actions) (at, sent, e, below)
        (plan, total) =
      (
        (at, sent, (rw e at plan)),
        omega (
          arith,
          total,
          length-append pages (pages_sent actions),
          ap (λ (v : PreCopyState T). v.total_pages_sent) e,
        ),
      )

  counted : (fuel : ℕ) (s : PreCopyState T) → Counted s (rounds fuel s)
  unfolding rounds Counted
  counted zero s = (tt, omega arith)
  counted (suc fuel) s =
      let next = process_snapshot is_below s (snapshots s.round) in
      continue-Counted s next (rounds fuel next.0) (process-Round s) (counted fuel next.0)

  -- For any number of rounds: each action but a last one to stop sends exactly the dirty pages of the
  -- snapshot of its round, in the order of the rounds, and `total_pages_sent` is the number of pages sent.
  pub rounds-IsPlan :
      (convergence : ConvergenceDetector T) (fuel : ℕ)
      → IsPlan 0 (rounds fuel (with_convergence convergence)).2
        × ((rounds fuel (with_convergence convergence)).0.total_pages_sent
            ≡ length (pages_sent (rounds fuel (with_convergence convergence)).2))
  unfolding Counted with_convergence
  rounds-IsPlan convergence fuel =
      let (plan, total) = counted fuel (with_convergence convergence) in
      (plan, omega (arith, total))
