-- ===== src/Acpi/Tests.antt =====
-- Runs of acpi.rs with tables of a few bytes.
use visor.Prelude.{◌+◌, ◌≡◌, refl, false, [], ◌∷◌, ok, some, replicate, length, arith}
use visor.Memory.{GuestMemory}
use visor.Acpi.{
  AcpiTables, rsdp_addr, layout, create_acpi_tables, encode_pkg_length, build_dsdt_aml, scope,
  scope_children,
}
use visor.Acpi.PkgLength.{decode_pkg_length, decode-encode_pkg_length}
use visor.Acpi.Layout.{HasHeaders, AllRead, create_acpi_tables-AllRead}

abbrev small_tables : AcpiTables
small_tables = record {
  dsdt = λ body. 1 ∷ body;
  fadt = λ addr. 2 ∷ [];
  madt = λ lapic ioapic count. 3 ∷ [];
  xsdt = λ entries. 4 ∷ entries;
  rsdp = λ addr. 5 ∷ [];
  rsdp_len = 1;
  scope_name = b'_' ∷ b'S' ∷ b'B' ∷ b'_' ∷ [];
  device_aml = λ i dev. i ∷ [];
}

small_tables-HasHeaders : HasHeaders small_tables
small_tables-HasHeaders = record {
  length-rsdp = λ addr. refl;
  rsdp_some = omega arith;
  dsdt_some = λ body. omega arith;
  fadt_some = λ addr. omega arith;
  madt_some = λ lapic ioapic count. omega arith;
  xsdt_some = λ entries. omega arith;
}

-- Sixteen bytes from the address of the RSDP on.
abbrev room : GuestMemory
room = record { host = replicate 16 0; guest_base = 0xA0000; huge_pages = false }

two_byte_prefix : encode_pkg_length 0x3F ≡ 0x41 ∷ 0x04 ∷ []
unfolding encode_pkg_length
two_byte_prefix = refl

decode-encode_pkg_length_example :
    decode_pkg_length (encode_pkg_length 0x1234) ≡ some (0x1234 + length (encode_pkg_length 0x1234))
decode-encode_pkg_length_example = decode-encode_pkg_length 0x1234 (omega arith)

create_acpi_tables-AllRead_example :
    (w : GuestMemory) × (create_acpi_tables small_tables room 2 [] ≡ ok (w, rsdp_addr))
    × AllRead w (layout small_tables 2 [])
unfolding layout build_dsdt_aml scope scope_children
create_acpi_tables-AllRead_example =
    create_acpi_tables-AllRead small_tables room 2 [] small_tables-HasHeaders (omega arith)
      (omega arith) (omega arith) (omega arith)
