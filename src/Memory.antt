-- ===== src/Memory.antt =====
-- crates/visor-vmm/src/memory.rs: a region of guest memory. The mapped region is the list of its bytes, and a
-- host pointer into it is an offset. Whether `mmap` succeeds is an argument. The sum
-- of an offset and a length wraps at 2 ^ 64, as in a release build.
pub mod Access
mod Tests
use visor.Prelude.{
  ℕ, ◌+◌, ◌-◌, ◌*◌, ◌%◌, ◌^◌, Bool, true, false, List, Option, none, some, Result, ok, err, ◌>>=◌,
  ok_or, length, take, drop, replicate, ltb, leb, ◌==◌, if◌then◌else◌,
}
use visor.Prelude.Bytes.{copy_at}

pub data MemoryError : Type 0 where
  allocation : (size : ℕ) → MemoryError
  out_of_bounds : (addr size : ℕ) → MemoryError
  access_overflow : (addr len size : ℕ) → MemoryError

pub data HugePageSize : Type 0 where
  no_huge_pages two_mib one_gib : HugePageSize

unfoldable pub size_bytes : HugePageSize → ℕ
size_bytes HugePageSize.no_huge_pages = 0
size_bytes HugePageSize.two_mib = 2 * 1024 * 1024
size_bytes HugePageSize.one_gib = 1024 * 1024 * 1024

pub record HugePageInfo : Type 0 where
  pub two_mib_total : ℕ
  pub two_mib_available : ℕ
  pub one_gib_total : ℕ
  pub one_gib_available : ℕ

unfoldable pub has_pages : HugePageInfo → HugePageSize → Bool
has_pages info HugePageSize.no_huge_pages = true
has_pages info HugePageSize.two_mib = ltb 0 info.two_mib_available
has_pages info HugePageSize.one_gib = ltb 0 info.one_gib_available

pub record GuestMemory : Type 0 where
  pub host : List ℕ
  pub guest_base : ℕ
  pub huge_pages : Bool

abbrev pub size : GuestMemory → ℕ
size m = length m.host

-- `mapped` says whether `mmap` succeeds.
unfoldable pub new : Bool → ℕ → ℕ → Result GuestMemory MemoryError
new true size guest_base =
    ok (record { host = replicate size 0; guest_base = guest_base; huge_pages = false })
new false size guest_base = err (MemoryError.allocation size)

-- The same for the call with huge pages, and for the one that it falls back to.
unfoldable pub with_huge_pages : Bool → Bool → ℕ → ℕ → HugePageSize → Result GuestMemory MemoryError
with_huge_pages huge mapped size guest_base HugePageSize.no_huge_pages = new mapped size guest_base
with_huge_pages huge mapped size guest_base kind =
    if size % size_bytes kind == 0
    then (if huge
        then ok (record { host = replicate size 0; guest_base = guest_base; huge_pages = true })
        else new mapped size guest_base)
    else new mapped size guest_base

-- `checked_sub`.
unfoldable pub checked_sub : ℕ → ℕ → Option ℕ
checked_sub a b = if leb b a then some (a - b) else none

unfoldable pub guest_offset : GuestMemory → ℕ → Result ℕ MemoryError
guest_offset m guest_addr =
    ok_or (checked_sub guest_addr m.guest_base) (MemoryError.out_of_bounds guest_addr (size m))

unfoldable pub inside : GuestMemory → Option ℕ → Option ℕ
inside m none = none
inside m (some offset) = if leb (size m) offset then none else some offset

unfoldable pub guest_to_host : GuestMemory → ℕ → Option ℕ
guest_to_host m guest_addr = inside m (checked_sub guest_addr m.guest_base)

-- The host offset of an access of some length, or the error of the access.
unfoldable pub checked_access : GuestMemory → ℕ → ℕ → Result ℕ MemoryError
checked_access m guest_addr len =
    ok_or (guest_to_host m guest_addr) (MemoryError.out_of_bounds guest_addr (size m))
    >>= λ host_ptr. guest_offset m guest_addr >>= λ offset.
        (if ltb (size m) ((offset + len) % 2 ^ 64)
          then err (MemoryError.access_overflow guest_addr len (size m))
          else ok host_ptr)

unfoldable pub write_bytes : GuestMemory → ℕ → List ℕ → Result GuestMemory MemoryError
write_bytes m guest_addr bytes = checked_access m guest_addr (length bytes) >>= λ host_ptr.
    ok (record m { host = copy_at m.host host_ptr bytes })

unfoldable pub read_bytes : GuestMemory → ℕ → ℕ → Result (List ℕ) MemoryError
read_bytes m guest_addr len =
    checked_access m guest_addr len >>= λ host_ptr. ok (take len (drop host_ptr m.host))
