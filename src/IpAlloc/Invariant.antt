-- ===== src/IpAlloc/Invariant.antt =====
-- What holds of a subnet allocator between two calls (net/ip_alloc.rs), and what `allocate` does.
use native.Mathlib.Nat.{pow-le-pow_right}
use visor.Prelude.{
  ℕ, ◌-◌, ◌^◌, ◌≤◌, ◌<◌, ◌≡◌, true, false, List, [], ◌∷◌, some, Result, ok, err, arith,
}
use visor.IpAlloc.{
  AllocError, exhausted, SubnetAllocator, new, host_count, mem, scan, allocate, allocated_at,
}
use visor.IpAlloc.Scan.{
  Usable, InRange, rounds_bound, scan_total, scan-ok, scan-err, scan-exhausted,
}

-- No offset stands twice, and all are usable.
abbrev pub Distinct : ℕ → List ℕ → Type 0
Distinct hosts [] = Unit {0}
Distinct hosts (o ∷ os) = Usable hosts o × (mem o os ≡ false) × Distinct hosts os

pub record Inv (a : SubnetAllocator) : Type 0 where
  pub prefix_pos : 0 < a.prefix
  pub prefix_le : a.prefix ≤ 30
  pub candidate : InRange (host_count a) a.state.next_candidate
  pub distinct : Distinct (host_count a) a.state.allocated

pub host_count_bounds :
    (a : SubnetAllocator)
    → 0 < a.prefix
    → a.prefix ≤ 30
    → (4 ≤ host_count a) × (host_count a ≤ 2 ^ 31)
host_count_bounds a h k = (
  pow-le-pow_right {n = 2} (omega arith) {i = 2} {j = 32 - a.prefix} (omega arith),
  pow-le-pow_right {n = 2} (omega arith) {i = 32 - a.prefix} {j = 31} (omega arith),
)

-- A new allocator has a prefix between 1 and 30, and satisfies the invariant.
pub new-Inv :
    (base prefix gateway : ℕ) (a : SubnetAllocator) → new base prefix gateway ≡ ok a → Inv a
unfolding new
new-Inv base prefix gateway a e =
    let shape : (0 < prefix)
        × (prefix ≤ 30)
        × (a ≡ record {
          base = base;
          prefix = prefix;
          gateway = gateway;
          state = record { allocated = []; next_candidate = 2 };
        }) =
      ground arith in
    rw shape.2 (record {
      prefix_pos = shape.0;
      prefix_le = shape.1;
      candidate = (
        omega arith,
        omega (
          arith,
          host_count_bounds
              (record {
                base = base;
                prefix = prefix;
                gateway = gateway;
                state = record { allocated = []; next_candidate = 2 };
              })
              shape.0 shape.1,
        ),
      );
      distinct = tt;
    })

-- The outcome of `allocate`: a free usable offset and its address, or the proof that none is free.
pub data Outcome (a : SubnetAllocator) : Result (SubnetAllocator × ℕ) AllocError → Type 0 where
  taken :
      (o : ℕ)
      → Usable (host_count a) o
      → mem o a.state.allocated ≡ false
      → Outcome a (ok (allocated_at a o))
  full :
      ((o : ℕ) → Usable (host_count a) o → mem o a.state.allocated ≡ true)
      → Outcome a (err exhausted)

allocate_of_scan :
    (a : SubnetAllocator) (fuel : ℕ) (r : Result ℕ AllocError)
    → Inv a
    → scan fuel (host_count a) a.state.allocated a.state.next_candidate a.state.next_candidate
      ≡ some r
    → (r' : Result (SubnetAllocator × ℕ) AllocError) × (allocate fuel a ≡ some r') × Outcome a r'
unfolding allocate
allocate_of_scan a fuel (ok o) v e =
    let (u, free) = scan-ok fuel _ _ _ _ o v.candidate e in
    (ok (allocated_at a o), rw (e, allocate), taken o u free)
allocate_of_scan a fuel (err x) v e =
    let s = a.state.next_candidate in
    let same = scan-exhausted fuel _ _ _ _ x e in
    (
      err exhausted,
      rw (e, allocate) (rw same),
      full λ o u. scan-err fuel _ _ s s x o v.candidate v.candidate e (ground arith) u,
    )

-- `allocate` always returns, within one round for each address of the subnet. It takes an offset that
-- is free and neither the network's, nor 1, nor the broadcast's, or reports exhaustion, and then
-- every such offset is in use.
pub allocate_total :
    (a : SubnetAllocator) (fuel : ℕ)
    → Inv a
    → host_count a ≤ fuel
    → (r : Result (SubnetAllocator × ℕ) AllocError) × (allocate fuel a ≡ some r) × Outcome a r
allocate_total a fuel v f =
    let s = a.state.next_candidate in
    let (r, e) =
      scan_total fuel (host_count a) a.state.allocated s s v.candidate v.candidate
        (omega (arith, rounds_bound (host_count a) s v.candidate)) in
    allocate_of_scan a fuel r v e
