-- ===== src/Memory/Tests.antt =====
-- Runs of memory.rs on sixteen bytes at address 256.
use visor.Prelude.{◌≡◌, inr, refl, true, false, [], ◌∷◌, ok, replicate, arith}
use visor.Memory.{
  GuestMemory, new, with_huge_pages, HugePageSize, size_bytes, write_bytes, read_bytes,
  checked_access,
}
use visor.Memory.Access.{Access, checked_access-Access, written, read_bytes-write_bytes}

abbrev sixteen : GuestMemory
sixteen = record { host = replicate 16 0; guest_base = 256; huge_pages = false }

-- A size that is no multiple of the huge page falls back to regular pages.
falls_back : with_huge_pages true true 16 256 HugePageSize.two_mib ≡ ok sixteen
unfolding with_huge_pages new size_bytes
falls_back = refl

checked_access-Access_example : Access sixteen 270 4 (checked_access sixteen 270 4)
checked_access-Access_example = checked_access-Access sixteen 270 4 (omega arith)

read_bytes-write_bytes_example :
    (write_bytes sixteen 258 (7 ∷ 8 ∷ []) ≡ ok (written sixteen 258 (7 ∷ 8 ∷ [])))
    × (read_bytes (written sixteen 258 (7 ∷ 8 ∷ [])) 258 2 ≡ ok (7 ∷ 8 ∷ []))
    × (read_bytes (written sixteen 258 (7 ∷ 8 ∷ [])) 260 4 ≡ read_bytes sixteen 260 4)
read_bytes-write_bytes_example =
    read_bytes-write_bytes sixteen 258 (7 ∷ 8 ∷ []) 260 4 (ground arith) (ground arith)
      (inr (omega arith))
