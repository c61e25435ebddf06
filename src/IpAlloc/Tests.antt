-- ===== src/IpAlloc/Tests.antt =====
-- The allocator of net/ip_alloc.rs on the subnet 10.0.0.0/29.
use visor.Prelude.{ℕ, ◌+◌, ◌-◌, ◌*◌, ◌^◌, ◌≡◌, refl, List, [], ◌∷◌, some, Result, ok, err, arith}
use visor.IpAlloc.{
  AllocError, network_address, SubnetAllocator, new, host_count, allocate, allocated_at, release,
  scan, mem, contains, allocated_count, available_count,
}
use visor.IpAlloc.Invariant.{Inv, Outcome, allocate_total}
use visor.IpAlloc.Release.{Call, allocates, releases, run, run-Inv_counts}

abbrev base : ℕ
base = 10 * 2 ^ 24

abbrev fresh : SubnetAllocator
fresh = record {
  base = base;
  prefix = 29;
  gateway = base + 1;
  state = record { allocated = []; next_candidate = 2 };
}

fresh_is_new : new base 29 (base + 1) ≡ ok fresh
unfolding new
fresh_is_new = refl

fresh-Inv : Inv fresh
fresh-Inv = omega arith

-- Two in use, and the scan stands at the last offset but one.
abbrev busy : SubnetAllocator
busy = record fresh { state = record { allocated = 6 ∷ 2 ∷ []; next_candidate = 6 } }

busy-Inv : Inv busy
unfolding mem
busy-Inv = record {
  prefix_pos = omega arith;
  prefix_le = omega arith;
  candidate = omega arith;
  distinct = (omega arith, refl, (omega arith, refl, tt));
}

-- It skips the broadcast offset and offset 2, and takes 3.
wraps_round : allocate 8 busy ≡ some (ok (allocated_at busy 3))
unfolding allocate scan mem
wraps_round = refl

refuses_network : release busy base ≡ err network_address
unfolding release contains
refuses_network = refl

allocate_total_example :
    (r : Result (SubnetAllocator × ℕ) AllocError) × (allocate 8 busy ≡ some r) × Outcome busy r
allocate_total_example = allocate_total busy 8 busy-Inv (omega arith)

abbrev history : List Call
history = allocates ∷ allocates ∷ releases (base + 2) ∷ allocates ∷ []

run-Inv_counts_example :
    Inv (run busy history)
    × (allocated_count (run busy history) + available_count (run busy history)
        ≡ host_count (run busy history) - 3)
run-Inv_counts_example = run-Inv_counts busy history busy-Inv

-- The same subnet with its gateway at offset 2.
abbrev gateway_two : SubnetAllocator
gateway_two = record fresh { gateway = base + 2 }
