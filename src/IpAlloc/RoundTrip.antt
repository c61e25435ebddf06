-- ===== src/IpAlloc/RoundTrip.antt =====
-- `allocate` followed by `release` (net/ip_alloc.rs), and the gateway that is not at offset 1.
use visor.Prelude.{
  ℕ, suc, ◌+◌, ◌%◌, ◌^◌, ◌≤◌, ◌<◌, ◌≡◌, ◌≢◌, refl, true, false, List, ◌∷◌, some, ok, err, arith,
  ltb, if◌then◌else◌,
}
use visor.IpAlloc.{
  AllocState, gateway_address, SubnetAllocator, host_count, mem, remove, advance, scan, is_reserved,
  allocate, allocated_at, release, offset_of, contains,
}
use visor.IpAlloc.Scan.{Usable}
use visor.IpAlloc.Invariant.{Inv, host_count_bounds}
use visor.IpAlloc.Release.{IsAligned, high_part, aligned_address}

contains_address :
    (a : SubnetAllocator) (o : ℕ)
    → Inv a
    → IsAligned a
    → o < host_count a
    → (contains a (a.base + o) ≡ true) × (offset_of a (a.base + o) ≡ o) × (a.base + o < 2 ^ 32)
unfolding contains
contains_address a o v al h =
    let (lt, same) = aligned_address a o v al h in
    let bounds = host_count_bounds a v.prefix_pos v.prefix_le in
    (
      rw (high_part a (a.base + o) v lt, high_part a a.base v al.1, same) (ground arith),
      omega arith,
      lt,
    )

contains_any_state :
    (a : SubnetAllocator) (s : AllocState) (ip : ℕ)
    → contains (record a { state = s }) ip ≡ contains a ip
unfolding contains
contains_any_state a s ip = refl

release_own :
    (a : SubnetAllocator) (o next : ℕ) (os : List ℕ)
    → Inv a
    → IsAligned a
    → Usable (host_count a) o
    → a.base + o ≢ a.gateway
    → let full = record a { state = record { allocated = o ∷ os; next_candidate = next } } in
      release full (a.base + o)
      ≡ ok (record a {
        state = record { allocated = os; next_candidate = if ltb o next then o else next };
      })
unfolding release mem remove
release_own a o next os v al u g =
    let (inside, at, lt) = contains_address a o v al (omega arith) in
    ground (
      arith,
      contains_any_state a (record { allocated = o ∷ os; next_candidate = next }) (a.base + o),
      inside,
      at,
    )

-- An address that `allocate` hands out can be given back, unless it is the gateway's: on an aligned
-- subnet the address is the base plus the offset, `release` accepts it, and the same offsets are in
-- use as before.
pub release-allocate :
    (a : SubnetAllocator) (o : ℕ)
    → Inv a
    → IsAligned a
    → Usable (host_count a) o
    → a.base + o ≢ a.gateway
    → let (a', ip) = allocated_at a o in
      (ip ≡ a.base + o)
      × ((b : SubnetAllocator) × (release a' ip ≡ ok b)
          × (b.state.allocated ≡ a.state.allocated)
          × (b.base ≡ a.base)
          × (b.prefix ≡ a.prefix)
          × (b.gateway ≡ a.gateway))
release-allocate a o v al u g =
    let (inside, at, lt) = contains_address a o v al (omega arith) in
    let next = advance (host_count a) o in
    let e : (a.base + o) % 2 ^ 32 ≡ a.base + o = omega arith in
    (
      e,
      (
        record a {
          state = record {
            allocated = a.state.allocated;
            next_candidate = if ltb o next then o else next;
          };
        },
        rw e (release_own a o next a.state.allocated v al u g),
        refl,
        refl,
        refl,
        refl,
      ),
    )

allocate_free :
    (a : SubnetAllocator) (fuel o : ℕ)
    → a.state.next_candidate ≡ o
    → Usable (host_count a) o
    → mem o a.state.allocated ≡ false
    → (a.base + o) % 2 ^ 32 ≡ a.gateway
    → allocate (suc fuel) a ≡ some (ok ((allocated_at a o).0, a.gateway))
unfolding allocate scan is_reserved
allocate_free a fuel o c u free g = ground arith

release_gateway :
    (a : SubnetAllocator) (s : AllocState) (o : ℕ)
    → contains a (a.base + o) ≡ true
    → offset_of a (a.base + o) ≡ o
    → 2 ≤ o
    → a.gateway ≡ a.base + o
    → release (record a { state = s }) a.gateway ≡ err gateway_address
unfolding release
release_gateway a s o inside at two g = ground (arith, contains_any_state a s (a.base + o))

-- A gateway that does not stand at offset 1 is not kept back: when the scan comes to it, `allocate`
-- hands it out, and `release` then refuses to take it, so that its offset is never free again.
pub allocate_gives_gateway :
    (a : SubnetAllocator) (fuel o : ℕ)
    → Inv a
    → IsAligned a
    → a.state.next_candidate ≡ o
    → Usable (host_count a) o
    → mem o a.state.allocated ≡ false
    → a.gateway ≡ a.base + o
    → (allocate (suc fuel) a ≡ some (ok ((allocated_at a o).0, a.gateway)))
      × (release (allocated_at a o).0 a.gateway ≡ err gateway_address)
allocate_gives_gateway a fuel o v al c u free g =
    let (inside, at, lt) = contains_address a o v al (omega arith) in
    (
      allocate_free a fuel o c u free (omega arith),
      release_gateway a (allocated_at a o).0.state o inside at (omega arith) g,
    )
