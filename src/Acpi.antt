-- ===== src/Acpi.antt =====
-- crates/visor-vmm/src/acpi.rs: the layout of the ACPI tables in guest memory, and the length prefix of AML
-- packages. The tables themselves are built by the crate `acpi_tables`: what it serialises is an argument,
-- as a function of what is put into the table.
pub mod PkgLength
pub mod Layout
mod Tests
use visor.Prelude.{
  ℕ, suc, ◌+◌, ◌/◌, List, [], ◌∷◌, ◌++◌, Result, ok, err, ◌>>=◌, length, bit_and, bit_or, ltb, leb,
  ◌==◌, if◌then◌else◌,
}
use visor.Memory.{GuestMemory, MemoryError, write_bytes}

abbrev pub rsdp_addr : ℕ
rsdp_addr = 0xA0000

abbrev pub ioapic_addr : ℕ
ioapic_addr = 0xFEC00000

abbrev pub lapic_addr : ℕ
lapic_addr = 0xFEE00000

pub data AcpiError : Type 0 where
  memory_write : MemoryError → AcpiError
  invalid_vcpu_count : ℕ → AcpiError
  too_many_devices : ℕ → AcpiError

pub record MmioDeviceInfo : Type 0 where
  pub base_addr : ℕ
  pub region_size : ℕ
  pub gsi : ℕ

-- What `acpi_tables` serialises: the DSDT with its body, the FADT with the address of the DSDT, the MADT with
-- the addresses of the controllers and the number of processors, the XSDT with its entries, the RSDP with the
-- address of the XSDT, and the devices of the DSDT below the scope `_SB_`.
pub record AcpiTables : Type 0 where
  pub dsdt : List ℕ → List ℕ
  pub fadt : ℕ → List ℕ
  pub madt : ℕ → ℕ → ℕ → List ℕ
  pub xsdt : List ℕ → List ℕ
  pub rsdp : ℕ → List ℕ
  pub rsdp_len : ℕ
  pub scope_name : List ℕ
  pub device_aml : ℕ → MmioDeviceInfo → List ℕ

-- `data_len` is below 2 ^ 28 - 4.
unfoldable pub encode_pkg_length : ℕ → List ℕ
encode_pkg_length data_len =
    if ltb data_len 0x3F
    then (data_len + 1) ∷ []
    else (if leb (data_len + 2) 0xFFF
        then bit_or (bit_and (data_len + 2) 0x0F) 64 ∷ bit_and ((data_len + 2) / 16) 0xFF ∷ []
        else (if leb (data_len + 3) 0xFFFFF
            then bit_or (bit_and (data_len + 3) 0x0F) 128
              ∷ bit_and ((data_len + 3) / 16) 0xFF
              ∷ bit_and ((data_len + 3) / 4096) 0xFF
              ∷ []
            else bit_or (bit_and (data_len + 4) 0x0F) 192
              ∷ bit_and ((data_len + 4) / 16) 0xFF
              ∷ bit_and ((data_len + 4) / 4096) 0xFF
              ∷ bit_and ((data_len + 4) / 1048576) 0xFF
              ∷ []))

-- The devices from index `i` on.
unfoldable pub scope_children : AcpiTables → ℕ → List MmioDeviceInfo → List ℕ
scope_children tables i [] = []
scope_children tables i (dev ∷ devices) =
    tables.device_aml i dev ++ scope_children tables (suc i) devices

unfoldable pub scope : AcpiTables → List ℕ → List ℕ
scope tables [] = []
scope tables (byte ∷ children) =
    let body_len = length tables.scope_name + length (byte ∷ children) in
    0x10 ∷ (encode_pkg_length body_len ++ tables.scope_name) ++ byte ∷ children

unfoldable pub build_dsdt_aml : AcpiTables → List MmioDeviceInfo → List ℕ
build_dsdt_aml tables devices = scope tables (scope_children tables 0 devices)

-- The tables with their addresses, in the order in which they are written.
unfoldable pub layout : AcpiTables → ℕ → List MmioDeviceInfo → List (ℕ × List ℕ)
layout tables num_vcpus mmio_devices =
    let dsdt_bytes = tables.dsdt (build_dsdt_aml tables mmio_devices) in
    let dsdt_addr = rsdp_addr + tables.rsdp_len in
    let fadt_addr = dsdt_addr + length dsdt_bytes in
    let fadt_bytes = tables.fadt dsdt_addr in
    let madt_addr = fadt_addr + length fadt_bytes in
    let madt_bytes = tables.madt lapic_addr ioapic_addr num_vcpus in
    let xsdt_addr = madt_addr + length madt_bytes in
    let xsdt_bytes = tables.xsdt (fadt_addr ∷ madt_addr ∷ []) in
    (rsdp_addr, tables.rsdp xsdt_addr)
    ∷ (dsdt_addr, dsdt_bytes)
    ∷ (fadt_addr, fadt_bytes)
    ∷ (madt_addr, madt_bytes)
    ∷ (xsdt_addr, xsdt_bytes)
    ∷ []

-- The error of the memory as one of this module, as `?` converts it.
abbrev pub from_memory : Result GuestMemory MemoryError → Result GuestMemory AcpiError
from_memory (ok written) = ok written
from_memory (err e) = err (AcpiError.memory_write e)

unfoldable pub write_tables : GuestMemory → List (ℕ × List ℕ) → Result GuestMemory AcpiError
write_tables memory [] = ok memory
write_tables memory ((addr, bytes) ∷ tables) =
    from_memory (write_bytes memory addr bytes) >>= λ written. write_tables written tables

-- The memory afterwards and the address that is returned.
unfoldable pub create_acpi_tables :
    AcpiTables → GuestMemory → ℕ → List MmioDeviceInfo → Result (GuestMemory × ℕ) AcpiError
create_acpi_tables tables memory num_vcpus mmio_devices =
    if num_vcpus == 0
    then err (AcpiError.invalid_vcpu_count 0)
    else (if ltb 256 (length mmio_devices)
        then err (AcpiError.too_many_devices (length mmio_devices))
        else (write_tables memory (layout tables num_vcpus mmio_devices) >>= λ written.
            ok (written, rsdp_addr)))
