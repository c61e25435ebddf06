-- ===== src/Memory/Access.antt =====
-- Reads and writes of the guest memory of memory.rs.
use visor.Prelude.{
  ℕ, zero, suc, ◌+◌, ◌-◌, ◌%◌, ◌^◌, ◌≤◌, ◌<◌, ◌≡◌, ◌⊎◌, inl, inr, refl, ap, true, false, List, [],
  ◌∷◌, Result, ok, err, length, take, drop, ltb, leb, arith, if_cases, Bool-cases, set,
}
use visor.Prelude.Bytes.{copy_at, length-copy_at}
use visor.Memory.{
  MemoryError, GuestMemory, size, checked_sub, guest_offset, inside, guest_to_host, checked_access,
  write_bytes, read_bytes,
}

-- The bytes of an access lie in the region, and so does its start.
abbrev pub IsInside : GuestMemory → ℕ → ℕ → Type 0
IsInside m addr len =
    (m.guest_base ≤ addr) × (addr < m.guest_base + size m) × (addr + len ≤ m.guest_base + size m)

pub checked_access-inside :
    (m : GuestMemory) (addr len : ℕ)
    → IsInside m addr len
    → checked_access m addr len ≡ ok (addr - m.guest_base)
unfolding checked_access guest_to_host guest_offset checked_sub inside
checked_access-inside m addr len (low, start, high) =
    let above : leb m.guest_base addr ≡ true = ground arith in
    let before : leb (size m) (addr - m.guest_base) ≡ false = ground arith in
    let fits : ltb (size m) ((addr - m.guest_base + len) % 2 ^ 64) ≡ false = ground arith in
    rw (above, before, fits) refl

copy-skip :
    (x : ℕ) (xs : List ℕ) (i : ℕ) (bytes : List ℕ)
    → copy_at (x ∷ xs) (suc i) bytes ≡ x ∷ copy_at xs i bytes
unfolding copy_at
copy-skip x xs i [] = refl
copy-skip x xs i (b ∷ bytes) = copy-skip x (set xs i b) (suc i) bytes

copy-first :
    (x : ℕ) (xs : List ℕ) (b : ℕ) (bytes : List ℕ)
    → copy_at (x ∷ xs) 0 (b ∷ bytes) ≡ b ∷ copy_at xs 0 bytes
unfolding copy_at
copy-first x xs b bytes = copy-skip b xs 0 bytes

copy-nothing : (xs : List ℕ) (i : ℕ) → copy_at xs i [] ≡ xs
unfolding copy_at
copy-nothing xs i = refl

taken :
    (xs : List ℕ) (i : ℕ) (bytes : List ℕ)
    → i + length bytes ≤ length xs
    → take (length bytes) (drop i (copy_at xs i bytes)) ≡ bytes
taken xs i [] fits = refl
taken [] zero (b ∷ bytes) fits = absurd (omega arith)
taken [] (suc i) (b ∷ bytes) fits = absurd (omega arith)
taken (x ∷ xs) zero (b ∷ bytes) fits =
    rw (copy-first x xs b bytes) (ap (◌∷◌ b) (taken xs zero bytes (omega arith)))
taken (x ∷ xs) (suc i) (b ∷ bytes) fits =
    rw (copy-skip x xs i (b ∷ bytes)) (taken xs i (b ∷ bytes) (omega arith))

copy-empty : (i : ℕ) (bytes : List ℕ) → copy_at [] i bytes ≡ []
unfolding copy_at
copy-empty i [] = refl
copy-empty i (b ∷ bytes) = copy-empty (suc i) bytes

elsewhere :
    (xs : List ℕ) (i j len : ℕ) (bytes : List ℕ)
    → (j + len ≤ i) ⊎ (i + length bytes ≤ j)
    → take len (drop j (copy_at xs i bytes)) ≡ take len (drop j xs)
elsewhere xs i j len [] apart = rw (copy-nothing xs i) refl
elsewhere [] i j len (b ∷ bytes) apart = rw (copy-empty i (b ∷ bytes)) refl
elsewhere (x ∷ xs) zero zero zero (b ∷ bytes) apart = refl
elsewhere (x ∷ xs) zero zero (suc len) (b ∷ bytes) apart =
    absurd (elim apart [ inl h ↦ omega arith | inr h ↦ omega arith ])
elsewhere (x ∷ xs) zero (suc j) len (b ∷ bytes) apart =
    rw (copy-first x xs b bytes) (elsewhere xs zero j len bytes (ground arith))
elsewhere (x ∷ xs) (suc i) zero zero (b ∷ bytes) apart = refl
elsewhere (x ∷ xs) (suc i) zero (suc len) (b ∷ bytes) apart =
    rw (copy-skip x xs i (b ∷ bytes))
      (ap (◌∷◌ x) (elsewhere xs i zero len (b ∷ bytes) (ground arith)))
elsewhere (x ∷ xs) (suc i) (suc j) len (b ∷ bytes) apart =
    rw (copy-skip x xs i (b ∷ bytes)) (elsewhere xs i j len (b ∷ bytes) (ground arith))

-- What the check of an access says.
abbrev pub Access : GuestMemory → ℕ → ℕ → Result ℕ MemoryError → Type 0
Access m addr len (ok host_ptr) = IsInside m addr len × (host_ptr ≡ addr - m.guest_base)
Access m addr len (err (MemoryError.out_of_bounds a s)) =
    (a ≡ addr) × (s ≡ size m) × ((addr < m.guest_base) ⊎ (m.guest_base + size m ≤ addr))
Access m addr len (err (MemoryError.access_overflow a l s)) =
    (a ≡ addr) × (l ≡ len) × (s ≡ size m) × (m.guest_base + size m < addr + len)
Access m addr len (err (MemoryError.allocation s)) = ⊥

-- The check that reads and writes begin with, for a region and an access whose sizes add up to at most
-- 2 ^ 64: it passes exactly for an access that lies in the region and starts in it, and its errors say which
-- of the two fails, a start outside before an end outside.
pub checked_access-Access :
    (m : GuestMemory) (addr len : ℕ)
    → size m + len ≤ 2 ^ 64
    → Access m addr len (checked_access m addr len)
unfolding checked_access guest_to_host guest_offset checked_sub inside
checked_access-Access m addr len no_wrap = elim (Bool-cases (leb m.guest_base addr)) [
  | inl above ↦ rw above (elim (Bool-cases (leb (size m) (addr - m.guest_base))) [
    | inl past ↦ rw past (refl, refl, ground arith)
    | inr before ↦ rw before (
        if_cases (Access m addr len) (ltb (size m) ((addr - m.guest_base + len) % 2 ^ 64))
          (λ over. (refl, refl, refl, ground arith))
          (λ fits. ((ground arith, ground arith, ground arith), refl)))
  ])
  | inr below ↦ rw below (refl, refl, ground arith)
]

-- Beyond that bound the sum wraps, and an access that leaves the region passes the check.
pub checked_access-wraps :
    (m : GuestMemory) (addr len : ℕ)
    → m.guest_base ≤ addr
    → addr < m.guest_base + size m
    → 2 ^ 64 ≤ addr - m.guest_base + len
    → addr - m.guest_base + len ≤ 2 ^ 64 + size m
    → size m < 2 ^ 64
    → checked_access m addr len ≡ ok (addr - m.guest_base)
unfolding checked_access guest_to_host guest_offset checked_sub inside
checked_access-wraps m addr len low start wraps small region =
    let above : leb m.guest_base addr ≡ true = ground arith in
    let before : leb (size m) (addr - m.guest_base) ≡ false = ground arith in
    let fits : ltb (size m) ((addr - m.guest_base + len) % 2 ^ 64) ≡ false = ground arith in
    rw (above, before, fits) refl

-- The region after a write.
abbrev pub written : GuestMemory → ℕ → List ℕ → GuestMemory
written m addr bytes = record m { host = copy_at m.host (addr - m.guest_base) bytes }

pub written-IsInside :
    (m : GuestMemory) (addr a len : ℕ) (bytes : List ℕ)
    → IsInside m a len
    → IsInside (written m addr bytes) a len
written-IsInside m addr a len bytes is = rw (length-copy_at m.host (addr - m.guest_base) bytes) is

-- A write in the region succeeds; a read of the same bytes gives them back, and a read that lies apart gives
-- what it gave before.
pub read_bytes-write_bytes :
    (m : GuestMemory) (addr : ℕ) (bytes : List ℕ) (other len : ℕ)
    → IsInside m addr (length bytes)
    → IsInside m other len
    → (other + len ≤ addr) ⊎ (addr + length bytes ≤ other)
    → (write_bytes m addr bytes ≡ ok (written m addr bytes))
      × (read_bytes (written m addr bytes) addr (length bytes) ≡ ok bytes)
      × (read_bytes (written m addr bytes) other len ≡ read_bytes m other len)
unfolding write_bytes read_bytes
read_bytes-write_bytes m addr bytes other len is there apart =
    let n = written m addr bytes in
    let start = addr - m.guest_base in
    let (low, first, high) = is in
    let (low', first', high') = there in
    let passes = checked_access-inside m addr (length bytes) is in
    let again =
      checked_access-inside n addr (length bytes)
        (written-IsInside m addr addr (length bytes) bytes is) in
    let other_now =
      checked_access-inside n other len (written-IsInside m addr other len bytes there) in
    let other_then = checked_access-inside m other len there in
    (
      rw passes refl,
      rw again (ap ok (taken m.host start bytes (omega arith))),
      rw (other_now, other_then)
          (ap ok (elsewhere m.host start (other - m.guest_base) len bytes (ground arith))),
    )
