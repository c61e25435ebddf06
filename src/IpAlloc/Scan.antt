-- ===== src/IpAlloc/Scan.antt =====
-- The scan of `SubnetAllocator::allocate` (net/ip_alloc.rs): it ends, and it misses no offset.
use visor.Prelude.{
  ℕ, zero, suc, ◌+◌, ◌-◌, ◌≤◌, ◌<◌, ◌≡◌, ◌≢◌, true, false, ◌||◌, ◌⊎◌, inl, inr, List, some, Result,
  ok, err, arith, ltb, ◌==◌, if◌then◌else◌, Bool-cases,
}
use visor.IpAlloc.{AllocError, exhausted, scan, mem, advance, is_reserved}

-- What may be handed out: neither the network's offset, nor 1, nor the broadcast's.
abbrev pub Usable : ℕ → ℕ → Type 0
Usable hosts o = (2 ≤ o) × (o + 1 < hosts)

-- An offset that the scan may stand at.
abbrev pub InRange : ℕ → ℕ → Type 0
InRange hosts o = (2 ≤ o) × (o < hosts)

-- The rounds from `offset` until the scan is back at `start`.
abbrev rounds : ℕ → ℕ → ℕ → ℕ
rounds hosts start offset =
    if ltb offset start then start - offset else (hosts - offset) + (start - 2)

pub rounds_bound : (hosts start : ℕ) → InRange hosts start → rounds hosts start start ≤ hosts
rounds_bound hosts start s = ground arith

pub advance-InRange : (hosts o : ℕ) → InRange hosts o → InRange hosts (advance hosts o)
unfolding advance
advance-InRange hosts o h = ground arith

-- With a round of fuel for each offset the scan comes to a result.
pub scan_total :
    (fuel hosts : ℕ) (allocated : List ℕ) (start offset : ℕ)
    → InRange hosts start
    → InRange hosts offset
    → rounds hosts start offset ≤ fuel
    → (r : Result ℕ AllocError) × (scan fuel hosts allocated start offset ≡ some r)
unfolding scan
scan_total zero hosts allocated start offset s o f = absurd (ground arith)
scan_total (suc fuel) hosts allocated start offset s o f =
    elim (Bool-cases (is_reserved hosts offset || mem offset allocated)) [
      | inr free ↦ (ok offset, ground arith)
      | inl taken ↦ elim (Bool-cases (advance hosts offset == start)) [
        | inl back ↦ (err exhausted, ground arith)
        | inr on ↦
            let (r, e) =
              scan_total fuel hosts allocated start (advance hosts offset) s
                (advance-InRange hosts offset o) (unfold advance in ground arith) in
            (r, ground (arith, e))
      ]
    ]

-- What it takes is usable and free.
pub scan-ok :
    (fuel hosts : ℕ) (allocated : List ℕ) (start offset o : ℕ)
    → InRange hosts offset
    → scan fuel hosts allocated start offset ≡ some (ok o)
    → Usable hosts o × (mem o allocated ≡ false)
unfolding scan
scan-ok zero hosts allocated start offset o h e = cc
scan-ok (suc fuel) hosts allocated start offset o h e = ground (
  arith,
  advance-InRange hosts offset h,
  scan-ok fuel hosts allocated start (advance hosts offset) o,
)

-- The offsets that the scan still has before it.
abbrev Ahead : ℕ → ℕ → ℕ → Type 0
Ahead start offset o =
    ((offset < start) × (offset ≤ o) × (o < start))
    ⊎ ((start ≤ offset) × ((offset ≤ o) ⊎ (o < start)))

-- One round on, all that was before it is still before it, but the offset that it has left.
Ahead-advance :
    (hosts start offset o : ℕ)
    → InRange hosts start
    → InRange hosts offset
    → Usable hosts o
    → Ahead start offset o
    → (o ≡ offset) ⊎ ((advance hosts offset ≢ start) × Ahead start (advance hosts offset) o)
unfolding advance
Ahead-advance hosts start offset o s h u a = ground arith

-- It gives up only if every usable offset before it is taken.
pub scan-err :
    (fuel hosts : ℕ) (allocated : List ℕ) (start offset : ℕ) (x : AllocError) (o : ℕ)
    → InRange hosts start
    → InRange hosts offset
    → scan fuel hosts allocated start offset ≡ some (err x)
    → Ahead start offset o
    → Usable hosts o
    → mem o allocated ≡ true
unfolding scan
scan-err zero hosts allocated start offset x o s h e a u = cc
scan-err (suc fuel) hosts allocated start offset x o s h e a u =
    elim (Ahead-advance hosts start offset o s h u a) [
      | inl here ↦ ground arith
      | inr (not_back, still) ↦
          scan-err fuel hosts allocated start (advance hosts offset) x o s
            (advance-InRange hosts offset h) (ground arith) still u
    ]

pub scan-exhausted :
    (fuel hosts : ℕ) (allocated : List ℕ) (start offset : ℕ) (x : AllocError)
    → scan fuel hosts allocated start offset ≡ some (err x)
    → x ≡ exhausted
unfolding scan
scan-exhausted zero hosts allocated start offset x e = cc
scan-exhausted (suc fuel) hosts allocated start offset x e =
    ground (arith, scan-exhausted fuel hosts allocated start (advance hosts offset) x)
