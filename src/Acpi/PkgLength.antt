-- ===== src/Acpi/PkgLength.antt =====
-- The length prefix of AML packages that acpi.rs writes, against the reading of the ACPI specification.
use visor.Prelude.{
  ℕ, zero, suc, ◌+◌, ◌*◌, ◌/◌, ◌%◌, ◌^◌, ◌≤◌, ◌<◌, ◌≡◌, ap, ◌∙◌, true, false, List, [], ◌∷◌, length,
  bit_and, bit_or, ltb, leb, if◌then◌else◌, arith, if_cases, Option, none, some, ◌==◌,
}
use visor.Prelude.Bits.{and_low_mask}
use visor.Prelude.BitSets.{or_low_high}
use visor.Acpi.{encode_pkg_length}

-- The bytes behind the lead byte, which are the higher digits: eight bits each from bit 4 on.
unfoldable pub follow : ℕ → ℕ → List ℕ → Option ℕ
follow zero scale bytes = some 0
follow (suc n) scale [] = none
follow (suc n) scale (byte ∷ bytes) = elim (follow n (scale * 256) bytes) [
  | none ↦ none
  | some rest ↦ some (byte * scale + rest)
]

-- The two highest bits of the lead byte count the bytes that follow; with none the six lower bits are the
-- length, and else the four lowest are its lowest digit.
unfoldable pub decode_pkg_length : List ℕ → Option ℕ
decode_pkg_length [] = none
decode_pkg_length (lead ∷ bytes) =
    if lead / 64 == 0
    then some (lead % 64)
    else elim (follow (lead / 64) 16 bytes) [ none ↦ none | some rest ↦ some (lead % 16 + rest) ]

low_digit : (a : ℕ) → bit_and a 0x0F ≡ a % 16
low_digit a = and_low_mask 4 a

byte_digit : (a : ℕ) → bit_and a 0xFF ≡ a % 256
byte_digit a = and_low_mask 8 a

lead_byte : (a count : ℕ) → bit_or (bit_and a 0x0F) (count * 2 ^ 6) ≡ a % 16 + count * 64
lead_byte a count =
    or_low_high 6 (bit_and a 0x0F) count (omega (arith, low_digit a))
    ∙ ap (λ (t : ℕ). t + count * 64) (low_digit a)

one_byte : (a : ℕ) → a < 0x3F → decode_pkg_length ((a + 1) ∷ []) ≡ some (a + 1)
unfolding decode_pkg_length
one_byte a h =
    let zero_count : ((a + 1) / 64 == 0) ≡ true = ground arith in
    rw zero_count (ap some (omega arith))

two_bytes : (a : ℕ) → a ≤ 0xFFF → decode_pkg_length ((a % 16 + 64) ∷ (a / 16 % 256) ∷ []) ≡ some a
unfolding decode_pkg_length follow
two_bytes a h =
    let count : (a % 16 + 64) / 64 ≡ 1 = omega arith in
    let nonzero : ((a % 16 + 64) / 64 == 0) ≡ false = ground (arith, count) in
    let digit : (a % 16 + 64) % 16 ≡ a % 16 = omega arith in
    rw (nonzero, count, digit) (ap some (omega arith))

three_bytes :
    (a : ℕ)
    → a ≤ 0xFFFFF
    → decode_pkg_length ((a % 16 + 128) ∷ (a / 16 % 256) ∷ (a / 4096 % 256) ∷ []) ≡ some a
unfolding decode_pkg_length follow
three_bytes a h =
    let count : (a % 16 + 128) / 64 ≡ 2 = omega arith in
    let nonzero : ((a % 16 + 128) / 64 == 0) ≡ false = ground (arith, count) in
    let digit : (a % 16 + 128) % 16 ≡ a % 16 = omega arith in
    rw (nonzero, count, digit) (ap some (omega arith))

four_bytes :
    (a : ℕ)
    → a < 2 ^ 28
    → decode_pkg_length
        ((a % 16 + 192) ∷ (a / 16 % 256) ∷ (a / 4096 % 256) ∷ (a / 1048576 % 256) ∷ [])
      ≡ some a
unfolding decode_pkg_length follow
four_bytes a h =
    let count : (a % 16 + 192) / 64 ≡ 3 = omega arith in
    let nonzero : ((a % 16 + 192) / 64 == 0) ≡ false = ground (arith, count) in
    let digit : (a % 16 + 192) % 16 ≡ a % 16 = omega arith in
    rw (nonzero, count, digit) (ap some (omega arith))

-- The prefix that is written is read, by the rules of the specification, as the length of the package with
-- the prefix itself, for every length that four bytes can give.
pub decode-encode_pkg_length :
    (data_len : ℕ)
    → data_len + 4 < 2 ^ 28
    → decode_pkg_length (encode_pkg_length data_len)
      ≡ some (data_len + length (encode_pkg_length data_len))
unfolding encode_pkg_length
decode-encode_pkg_length n h =
    let Q = λ (bytes : List ℕ). decode_pkg_length bytes ≡ some (n + length bytes) in
    if_cases Q (ltb n 0x3F) (λ small. one_byte n (ground arith))
      (λ large.
        if_cases Q (leb (n + 2) 0xFFF)
          (λ two.
            rw (lead_byte (n + 2) 1, byte_digit ((n + 2) / 16)) (two_bytes (n + 2) (ground arith)))
          (λ more.
            if_cases Q (leb (n + 3) 0xFFFFF)
              (λ three.
                rw (lead_byte (n + 3) 2, byte_digit ((n + 3) / 16), byte_digit ((n + 3) / 4096))
                  (three_bytes (n + 3) (ground arith)))
              (λ four.
                rw
                  (
                    lead_byte (n + 4) 3,
                    byte_digit ((n + 4) / 16),
                    byte_digit ((n + 4) / 4096),
                    byte_digit ((n + 4) / 1048576),
                  )
                  (four_bytes (n + 4) h))))
