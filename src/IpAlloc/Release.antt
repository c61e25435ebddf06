-- ===== src/IpAlloc/Release.antt =====
-- `SubnetAllocator::release` and the counts of net/ip_alloc.rs.
use native.Mathlib.Nat.{mod-add-div, mul-add-div, div-eq_of_lt}
use visor.Prelude.{
  ℕ, zero, suc, ◌+◌, ◌-◌, ◌*◌, ◌/◌, ◌%◌, ◌^◌, ◌≤◌, ◌<◌, ◌≡◌, refl, ap, subst, ◌∙◌, true, false, inl,
  inr, List, [], ◌∷◌, Option, none, some, Result, ok, err, length, arith, ◌==◌, bit_and,
  if◌then◌else◌, Bool-cases,
}
use visor.Prelude.Bits.{pow_split, and_shl_mask}
use visor.IpAlloc.{
  AllocError, SubnetAllocator, host_count, mask, mem, remove, allocate, allocated_at, release,
  offset_of, allocated_count, available_count,
}
use visor.IpAlloc.Scan.{Usable, advance-InRange}
use visor.IpAlloc.Invariant.{Inv, Distinct, allocate_total, Outcome, taken, full}

mem-remove :
    (hosts o x : ℕ) (os : List ℕ)
    → Distinct hosts os
    → mem x (remove o os) ≡ (if x == o then false else mem x os)
unfolding mem remove
mem-remove hosts o x [] d = ground arith
mem-remove hosts o x (y ∷ os) d = ground (arith, mem-remove hosts o x os d.2)

remove-Distinct : (hosts o : ℕ) (os : List ℕ) → Distinct hosts os → Distinct hosts (remove o os)
unfolding mem remove
remove-Distinct hosts o [] d = tt
remove-Distinct hosts o (y ∷ os) d =
    ground (arith, remove-Distinct hosts o os d.2, mem-remove hosts o y os d.2)

length-remove : (o : ℕ) (os : List ℕ) → mem o os ≡ true → length os ≡ suc (length (remove o os))
unfolding mem remove
length-remove o [] h = cc
length-remove o (y ∷ os) h = ground (arith, length-remove o os)

Usable-of_mem : (hosts o : ℕ) (os : List ℕ) → Distinct hosts os → mem o os ≡ true → Usable hosts o
unfolding mem
Usable-of_mem hosts o [] d h = cc
Usable-of_mem hosts o (y ∷ os) d h = ground (arith, Usable-of_mem hosts o os d.2)

-- A list without the largest usable offset stays distinct one bound down.
Distinct-down : (h : ℕ) (os : List ℕ) → Distinct (suc h) os → mem (h - 1) os ≡ false → Distinct h os
unfolding mem
Distinct-down h [] d m = tt
Distinct-down h (y ∷ os) d m = ground (arith, Distinct-down h os d.2)

-- So no more offsets are in use than there are usable ones.
length-Distinct : (hosts : ℕ) (os : List ℕ) → Distinct hosts os → length os ≤ hosts - 3
length-Distinct hosts [] d = omega arith
length-Distinct zero (y ∷ os) d = absurd (omega arith)
length-Distinct (suc h) (y ∷ os) d = elim (Bool-cases (mem (h - 1) (y ∷ os))) [
  | inr out ↦ omega (arith, length-Distinct h (y ∷ os) (Distinct-down h (y ∷ os) d out), d.0)
  | inl in_use ↦
      let u = Usable-of_mem (suc h) (h - 1) (y ∷ os) d in_use in
      omega (
        arith,
        u,
        length-remove (h - 1) (y ∷ os) in_use,
        length-Distinct h (remove (h - 1) (y ∷ os)) (
            Distinct-down h (remove (h - 1) (y ∷ os)) (remove-Distinct (suc h) (h - 1) (y ∷ os) d)
              (ground (arith, mem-remove (suc h) (h - 1) (h - 1) (y ∷ os) d))),
      )
]

-- `allocate` keeps the invariant.
allocated_at-Inv :
    (a : SubnetAllocator) (o : ℕ)
    → Inv a
    → Usable (host_count a) o
    → mem o a.state.allocated ≡ false
    → Inv (allocated_at a o).0
allocated_at-Inv a o v u free = record {
  prefix_pos = v.prefix_pos;
  prefix_le = v.prefix_le;
  candidate = advance-InRange (host_count a) o (omega arith);
  distinct = (u, free, v.distinct);
}

release-Inv : (a a' : SubnetAllocator) (ip : ℕ) → Inv a → release a ip ≡ ok a' → Inv a'
unfolding release
release-Inv a a' ip v e =
    let o = offset_of a ip in
    ground (
      arith,
      Usable-of_mem (host_count a) o a.state.allocated v.distinct,
      remove-Distinct (host_count a) o a.state.allocated v.distinct,
    )

allocate-Inv :
    (a a' : SubnetAllocator) (ip : ℕ)
    → Inv a
    → allocate (host_count a) a ≡ some (ok (a', ip))
    → Inv a'
allocate-Inv a a' ip v e =
    let (r, e', out) = allocate_total a (host_count a) v (omega arith) in from_outcome r out (cc)
  where
    from_outcome :
        (r : Result (SubnetAllocator × ℕ) AllocError) → Outcome a r → r ≡ ok (a', ip) → Inv a'
    from_outcome r (taken o u free) same =
        let e : (allocated_at a o).0 ≡ a' = cc in subst Inv e (allocated_at-Inv a o v u free)
    from_outcome r (full all) same = cc

pub data Call : Type 0 where
  allocates : Call
  releases : ℕ → Call

after {ℓ} :
    {E : Type ℓ} → SubnetAllocator → Option (Result (SubnetAllocator × ℕ) E) → SubnetAllocator
after a (some (ok (a', ip))) = a'
after a (some (err x)) = a
after a none = a

-- A call that fails leaves the allocator as it was. The fuel is a round for each address.
unfoldable pub step : SubnetAllocator → Call → SubnetAllocator
unfolding after
step a allocates = after a (allocate (host_count a) a)
step a (releases ip) = elim (release a ip) [ ok a' ↦ a' | err x ↦ a ]

unfoldable pub run : SubnetAllocator → List Call → SubnetAllocator
run a [] = a
run a (c ∷ cs) = run (step a c) cs

step-Inv : (a : SubnetAllocator) (c : Call) → Inv a → Inv (step a c)
unfolding step
step-Inv a allocates v = by_result (allocate (host_count a) a) refl
  where
    by_result :
        (r : Option (Result (SubnetAllocator × ℕ) AllocError))
        → allocate (host_count a) a ≡ r
        → Inv (after a r)
    by_result none e = v
    by_result (some (err x)) e = v
    by_result (some (ok (a', ip))) e = allocate-Inv a a' ip v e
step-Inv a (releases ip) v = by_result (release a ip) refl
  where
    by_result :
        (r : Result SubnetAllocator AllocError)
        → release a ip ≡ r
        → Inv (elim r [ ok a' ↦ a' | err x ↦ a ])
    by_result (err x) e = v
    by_result (ok a') e = release-Inv a a' ip v e

-- After any history of calls on an allocator that satisfies the invariant it still does: the offsets
-- in use are distinct and usable, and the next candidate lies in the subnet. So the subtraction of
-- `available_count` does not underflow, and the two counts make up the usable offsets.
pub run-Inv_counts :
    (a : SubnetAllocator) (cs : List Call)
    → Inv a
    → Inv (run a cs)
      × (allocated_count (run a cs) + available_count (run a cs) ≡ host_count (run a cs) - 3)
unfolding run allocated_count available_count
run-Inv_counts a [] v =
    (v, omega (arith, length-Distinct (host_count a) a.state.allocated v.distinct))
run-Inv_counts a (c ∷ cs) v = run-Inv_counts (step a c) cs (step-Inv a c v)

-- The base is the first address of a subnet of this prefix.
abbrev pub IsAligned : SubnetAllocator → Type 0
IsAligned a = (a.base % host_count a ≡ 0) × (a.base < 2 ^ 32)

pub high_part :
    (a : SubnetAllocator) (x : ℕ)
    → Inv a
    → x < 2 ^ 32
    → bit_and x (mask a) ≡ x / host_count a * host_count a
high_part a x v h = and_shl_mask a.prefix (32 - a.prefix) 32 x (omega arith) h

pub aligned_address :
    (a : SubnetAllocator) (o : ℕ)
    → Inv a
    → IsAligned a
    → o < host_count a
    → (a.base + o < 2 ^ 32) × ((a.base + o) / host_count a ≡ a.base / host_count a)
aligned_address a o v al h =
    let hosts = host_count a in
    let q = a.base / hosts in
    let whole : a.base ≡ hosts * q = omega (arith, mod-add-div a.base hosts) in
    let split : 2 ^ a.prefix * hosts ≡ 2 ^ 32 =
      pow_split a.prefix (32 - a.prefix) 32 (omega arith) in
    let below : suc q ≤ 2 ^ a.prefix = below_quotient q (2 ^ a.prefix) hosts (omega arith) in
    (
      omega (arith, mul_mono (suc q) (2 ^ a.prefix) hosts below),
      ap (λ (t : ℕ). (t + o) / hosts) whole
          ∙ mul-add-div (omega arith) q o
          ∙ omega (arith, div-eq_of_lt h),
    )
  where
    mul_mono : (a b c : ℕ) → a ≤ b → a * c ≤ b * c
    mul_mono a b c h = grind arith

    below_quotient : (q p c : ℕ) → c * q < p * c → suc q ≤ p
    below_quotient q p c h = grind arith
