-- ===== src/Acpi/Layout.antt =====
-- Where the tables of acpi.rs are in guest memory afterwards.
use visor.Prelude.{
  ℕ, ◌+◌, ◌-◌, ◌≤◌, ◌≡◌, inl, refl, ◌∙◌, false, List, [], ◌∷◌, ok, length, arith, ltb, ◌==◌,
}
use visor.Prelude.Bytes.{length-copy_at}
use visor.Memory.{GuestMemory, size, read_bytes}
use visor.Memory.Access.{IsInside, written, written-IsInside, read_bytes-write_bytes}
use visor.Acpi.{
  AcpiTables, MmioDeviceInfo, rsdp_addr, lapic_addr, ioapic_addr, layout, write_tables,
  create_acpi_tables, build_dsdt_aml,
}

-- Tables that are not empty and lie one behind the other, from one address to another.
abbrev Chain : ℕ → List (ℕ × List ℕ) → ℕ → Type 0
Chain start [] end = start ≡ end
Chain start ((addr, bytes) ∷ tables) end =
    (addr ≡ start) × (1 ≤ length bytes) × Chain (start + length bytes) tables end

-- Each table is read back from its address.
abbrev pub AllRead : GuestMemory → List (ℕ × List ℕ) → Type 0
AllRead m [] = Unit
AllRead m ((addr, bytes) ∷ tables) =
    (read_bytes m addr (length bytes) ≡ ok bytes) × AllRead m tables

Chain-le : (tables : List (ℕ × List ℕ)) (start end : ℕ) → Chain start tables end → start ≤ end
Chain-le [] start end h = omega (arith, h)
Chain-le ((addr, bytes) ∷ tables) start end (at, some_byte, rest) =
    omega (arith, Chain-le tables (start + length bytes) end rest)

-- What lies before the tables is as before.
abbrev SameBefore : GuestMemory → GuestMemory → ℕ → Type 0
SameBefore m w start =
    (other len : ℕ)
    → IsInside m other len
    → other + len ≤ start
    → read_bytes w other len ≡ read_bytes m other len

write_tables-AllRead :
    (tables : List (ℕ × List ℕ)) (m : GuestMemory) (start end : ℕ)
    → Chain start tables end
    → m.guest_base ≤ start
    → end ≤ m.guest_base + size m
    → (w : GuestMemory) × (write_tables m tables ≡ ok w) × AllRead w tables × SameBefore m w start
unfolding write_tables
write_tables-AllRead [] m start end chain low high = (m, refl, tt, λ other len is before. refl)
write_tables-AllRead ((addr, bytes) ∷ tables) m start end (at, some_byte, rest) low high =
    let stop = start + length bytes in
    let le = Chain-le tables stop end rest in
    let n = written m addr bytes in
    let same_size = length-copy_at m.host (addr - m.guest_base) bytes in
    let is : IsInside m addr (length bytes) =
      (omega (arith, at), omega (arith, at), omega (arith, at)) in
    let (w, later, all, before) =
      write_tables-AllRead tables n stop end rest (omega arith) (omega (arith, same_size)) in
    let (written_ok, back, _) =
      read_bytes-write_bytes m addr bytes addr 0 is (is.0, is.1, omega (arith, is.2))
        (inl (omega arith)) in
    (
      w,
      rw written_ok later,
      (
        before addr (length bytes) (written-IsInside m addr addr (length bytes) bytes is)
              (omega (arith, at))
            ∙ back,
        all,
      ),
      λ other len inside ahead.
          before other len (written-IsInside m addr other len bytes inside) (omega arith)
          ∙ (read_bytes-write_bytes m addr bytes other len is inside (inl (omega (arith, at)))).2,
    )

-- The tables that are built have a header, and that of the RSDP has the length that the crate promises.
pub record HasHeaders (tables : AcpiTables) : Type 0 where
  pub length-rsdp : (addr : ℕ) → length (tables.rsdp addr) ≡ tables.rsdp_len
  pub rsdp_some : 1 ≤ tables.rsdp_len
  pub dsdt_some : (body : List ℕ) → 1 ≤ length (tables.dsdt body)
  pub fadt_some : (addr : ℕ) → 1 ≤ length (tables.fadt addr)
  pub madt_some : (lapic ioapic count : ℕ) → 1 ≤ length (tables.madt lapic ioapic count)
  pub xsdt_some : (entries : List ℕ) → 1 ≤ length (tables.xsdt entries)

-- The bytes of all tables.
abbrev pub total : List (ℕ × List ℕ) → ℕ
total [] = 0
total ((addr, bytes) ∷ tables) = length bytes + total tables

layout-Chain :
    (tables : AcpiTables) (n : ℕ) (devices : List MmioDeviceInfo)
    → HasHeaders tables
    → Chain rsdp_addr (layout tables n devices) (rsdp_addr + total (layout tables n devices))
unfolding layout
layout-Chain tables n devices has =
    let body = build_dsdt_aml tables devices in
    let dsdt_addr = rsdp_addr + tables.rsdp_len in
    let fadt_addr = dsdt_addr + length (tables.dsdt body) in
    let madt_addr = fadt_addr + length (tables.fadt dsdt_addr) in
    let xsdt_addr = madt_addr + length (tables.madt lapic_addr ioapic_addr n) in
    let first = has.length-rsdp xsdt_addr in
    (
      refl,
      omega (arith, first, has.rsdp_some),
      (
        omega (arith, first),
        has.dsdt_some body,
        (
          omega (arith, first),
          has.fadt_some dsdt_addr,
          (
            omega (arith, first),
            has.madt_some lapic_addr ioapic_addr n,
            (
              omega (arith, first),
              has.xsdt_some (fadt_addr ∷ madt_addr ∷ []),
              omega (arith, first),
            ),
          ),
        ),
      ),
    )

-- In a region that holds the tables from the address of the RSDP on, they are all written, for 1 to 255
-- processors and at most 256 devices, and each is read back whole from the address that the others have for
-- it: no table overlaps another. The address of the RSDP is returned.
pub create_acpi_tables-AllRead :
    (tables : AcpiTables) (m : GuestMemory) (n : ℕ) (devices : List MmioDeviceInfo)
    → HasHeaders tables
    → 1 ≤ n
    → length devices ≤ 256
    → m.guest_base ≤ rsdp_addr
    → rsdp_addr + total (layout tables n devices) ≤ m.guest_base + size m
    → (w : GuestMemory) × (create_acpi_tables tables m n devices ≡ ok (w, rsdp_addr))
      × AllRead w (layout tables n devices)
unfolding create_acpi_tables
create_acpi_tables-AllRead tables m n devices has some_cpu few low high =
    let (w, done, all, before) =
      write_tables-AllRead (layout tables n devices) m rsdp_addr _
        (layout-Chain tables n devices has) low high in
    let cpu : (n == 0) ≡ false = ground arith in
    let fit : ltb 256 (length devices) ≡ false = ground arith in (w, rw (cpu, fit, done) refl, all)
