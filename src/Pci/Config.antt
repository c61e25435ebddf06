-- ===== src/Pci/Config.antt =====
-- What writes to the configuration space of transport/pci.rs keep.
use visor.Prelude.{
  ℕ, suc, ◌+◌, ◌-◌, ◌*◌, ◌/◌, ◌%◌, ◌≤◌, ◌<◌, ◌≡◌, ◌≢◌, ◌⊎◌, inl, inr, refl, sym, ap, ◌∙◌, bit_and,
  bit_or, not, ◌&&◌, ◌||◌, List, [], ◌∷◌, Option, none, some, length, get_elem?, set, ltb, leb,
  ◌==◌, if_both, length-set, get_elem?-set_ne, get_elem?-set_self, arith, if_cases,
}
use visor.Prelude.Bytes.{
  to_le_bytes, from_le_bytes, copy_at, length-copy_at, get_elem?-copy_at_outside,
  get_elem?-copy_at_inside,
}
use visor.Pci.Device.{
  read_bytes, PciDevice, BarRegion, byte_or_zero, byte_at, write_config, write_config_byte,
  write_config_bytes, write_message_control, write_bar_register, write_bar_region, bar_value,
}

-- The addresses of the configuration space that no write reaches.
abbrev pub IsReadOnly : ℕ → Type 0
IsReadOnly addr =
    (addr < 0x04 ⊎ 0x05 < addr) × (addr < 0x10 ⊎ 0x27 < addr) × addr ≢ 0x3C × addr ≢ 0x43

set-keeps_byte :
    (config : List ℕ) (i j v : ℕ) → i ≢ j → byte_at (set config i v) j ≡ byte_at config j
set-keeps_byte config i j v h = ap byte_or_zero (get_elem?-set_ne config i j v h)

set-has_byte : (config : List ℕ) (i v : ℕ) → i < length config → byte_at (set config i v) i ≡ v
set-has_byte config i v h = ap byte_or_zero (get_elem?-set_self config i v h)

copy-keeps_byte :
    (config : List ℕ) (start : ℕ) (bytes : List ℕ) (i : ℕ)
    → start + length bytes ≤ i
    → byte_at (copy_at config start bytes) i ≡ byte_at config i
copy-keeps_byte config start bytes i h =
    ap byte_or_zero (get_elem?-copy_at_outside config start bytes i (inr h))

read_all :
    (bytes : List ℕ) (outside : ℕ → ℕ) (start : ℕ) (buffer wanted : List ℕ)
    → length buffer ≡ length wanted
    → ((i : ℕ) → i < length wanted → get_elem? bytes (start + i) ≡ get_elem? wanted i)
    → read_bytes bytes outside start buffer ≡ wanted
unfolding read_bytes
read_all bytes outside start [] [] len at = refl
read_all bytes outside start [] (w ∷ ws) len at = absurd (omega (arith, len))
read_all bytes outside start (b ∷ bs) [] len at = absurd (omega (arith, len))
read_all bytes outside start (b ∷ bs) (w ∷ ws) len at =
    let e0 : start + 0 ≡ start = omega arith in
    let first = rw e0 at (at 0 (omega arith)) in
    let later = λ (i : ℕ) (h : i < length ws).
      (let e : start + suc i ≡ suc start + i = omega arith in rw e at (at (suc i) (omega arith))) in
    rw first (ap (◌∷◌ w) (read_all bytes outside (suc start) bs ws (omega (arith, len)) later))

-- What was copied into an array is read back from there.
pub read_bytes-copy_at :
    (array : List ℕ) (outside : ℕ → ℕ) (start : ℕ) (bytes buffer : List ℕ)
    → length buffer ≡ length bytes
    → start + length bytes ≤ length array
    → read_bytes (copy_at array start bytes) outside start buffer ≡ bytes
read_bytes-copy_at array outside start bytes buffer len fits =
    read_all (copy_at array start bytes) outside start buffer bytes len
      (λ i h. get_elem?-copy_at_inside array start bytes i h fits)

module _ {D M E : Type 0} where
  -- The arrays have their lengths, and MSI-X is enabled exactly if bit 7 of the message control is set.
  abbrev pub IsValid : PciDevice D M E → Type 0
  IsValid d =
      length d.config ≡ 256
      × length d.bars ≡ 6
      × (d.msix_enabled ≡ not (bit_and (byte_at d.config 0x43) 0x80 == 0))

  control-IsValid :
      (d : PciDevice D M E) (addr byte : ℕ)
      → addr ≡ 0x43
      → IsValid d
      → IsValid (write_message_control d addr byte)
  unfolding write_message_control
  control-IsValid d addr byte at (c, b, m) =
      let stored = bit_or (bit_and byte 0xC0) (bit_and (byte_at d.config addr) 0x3F) in
      let kept : length (set d.config addr stored) ≡ 256 = length-set d.config addr stored ∙ c in
      let read : byte_at (set d.config addr stored) 0x43 ≡ stored =
        rw (sym at) (set-has_byte d.config addr stored (omega arith)) in
      (kept, b, rw read refl)

  byte-IsValid :
      (d : PciDevice D M E) (addr byte : ℕ) → IsValid d → IsValid (write_config_byte d addr byte)
  unfolding write_config_byte
  byte-IsValid d addr byte (c, b, m) =
      let Q = λ (e : PciDevice D M E). IsValid e in
      if_cases Q (leb 0x10 addr && leb addr 0x27) (λ h. (c, b, m))
        (λ h.
          if_cases Q ((leb 0x04 addr && leb addr 0x05) || addr == 0x3C)
            (λ at.
              let other : addr ≢ 0x43 = ground arith in
              (
                length-set d.config addr byte ∙ c,
                b,
                rw (set-keeps_byte d.config addr 0x43 byte other) m,
              ))
            (λ miss.
              if_cases Q (addr == 0x43) (λ at. control-IsValid d addr byte (ground arith) (c, b, m))
                (λ no. (c, b, m))))

  bytes-IsValid :
      (d : PciDevice D M E) (addr : ℕ) (bytes : List ℕ)
      → IsValid d
      → IsValid (write_config_bytes d addr bytes)
  unfolding write_config_bytes
  bytes-IsValid d addr [] h = h
  bytes-IsValid d addr (byte ∷ rest) h =
      bytes-IsValid (write_config_byte d addr byte) (suc addr) rest (byte-IsValid d addr byte h)

  bar-IsValid :
      (d : PciDevice D M E) (bar_idx value : ℕ) (bar : Option BarRegion)
      → bar_idx < 6
      → IsValid d
      → IsValid (write_bar_region d bar_idx value bar)
  unfolding write_bar_region to_le_bytes
  bar-IsValid d bar_idx value none small h = h
  bar-IsValid d bar_idx value (some bar) small (c, b, m) =
      let bytes = to_le_bytes (bar_value bar value) in
      if_both (λ (e : PciDevice D M E). IsValid e) (bar.size == 0) (c, b, m)
        (
          length-copy_at d.config (0x10 + bar_idx * 4) bytes ∙ c,
          b,
          rw (copy-keeps_byte d.config (0x10 + bar_idx * 4) bytes 0x43 (omega arith)) m,
        )

  -- Every write to the configuration space keeps the flag in step with bit 7 of the message control.
  pub write_config-IsValid :
      (d : PciDevice D M E) (start : ℕ) (bytes : List ℕ)
      → IsValid d
      → IsValid (write_config d start bytes)
  unfolding write_config write_bar_register
  write_config-IsValid d start bytes h =
      let stored = write_config_bytes d start bytes in
      let kept = bytes-IsValid d start bytes h in
      let bar_idx = (start - 0x10) / 4 in
      let Q = λ (e : PciDevice D M E). IsValid e in
      if_both Q
        ((leb 0x10 start && leb start 0x24) && ((start - 0x10) % 4 == 0 && length bytes == 4))
        (if_cases Q (ltb bar_idx 6)
          (λ small.
            bar-IsValid stored bar_idx (from_le_bytes bytes) (get_elem? stored.bars bar_idx)
              (ground arith) kept)
          (λ large. kept))
        kept

  byte-keeps :
      (d : PciDevice D M E) (at byte addr : ℕ)
      → IsReadOnly addr
      → get_elem? (write_config_byte d at byte).config addr ≡ get_elem? d.config addr
  unfolding write_config_byte write_message_control
  byte-keeps d at byte addr (c, b, l, m) =
      let Q = λ (e : PciDevice D M E). get_elem? e.config addr ≡ get_elem? d.config addr in
      if_both Q (leb 0x10 at && leb at 0x27) refl (
        if_cases Q ((leb 0x04 at && leb at 0x05) || at == 0x3C)
          (λ h. get_elem?-set_ne d.config at addr byte (ground arith))
          (λ h.
            if_cases Q (at == 0x43) (λ e. get_elem?-set_ne d.config at addr _ (ground arith))
              (λ e. refl)))

  bytes-keep :
      (d : PciDevice D M E) (at : ℕ) (bytes : List ℕ) (addr : ℕ)
      → IsReadOnly addr
      → get_elem? (write_config_bytes d at bytes).config addr ≡ get_elem? d.config addr
  unfolding write_config_bytes
  bytes-keep d at [] addr h = refl
  bytes-keep d at (byte ∷ rest) addr h =
      bytes-keep (write_config_byte d at byte) (suc at) rest addr h ∙ byte-keeps d at byte addr h

  bar-keeps :
      (d : PciDevice D M E) (bar_idx value : ℕ) (bar : Option BarRegion) (addr : ℕ)
      → bar_idx < 6
      → IsReadOnly addr
      → get_elem? (write_bar_region d bar_idx value bar).config addr ≡ get_elem? d.config addr
  unfolding write_bar_region to_le_bytes
  bar-keeps d bar_idx value none addr small h = refl
  bar-keeps d bar_idx value (some bar) addr small (c, b, l, m) =
      if_both (λ (e : PciDevice D M E). get_elem? e.config addr ≡ get_elem? d.config addr)
        (bar.size == 0) refl
        (get_elem?-copy_at_outside d.config (0x10 + bar_idx * 4) (to_le_bytes (bar_value bar value))
          addr (elim b [ inl before ↦ inl (omega arith) | inr after ↦ inr (omega arith) ]))

  -- Identity, status, header, capability pointer, table location and every other byte outside the command
  -- register, the bars, the interrupt line and the message control stay as they are, whatever is written
  -- wherever.
  pub write_config-read_only :
      (d : PciDevice D M E) (start : ℕ) (bytes : List ℕ) (addr : ℕ)
      → IsReadOnly addr
      → get_elem? (write_config d start bytes).config addr ≡ get_elem? d.config addr
  unfolding write_config write_bar_register
  write_config-read_only d start bytes addr h =
      let stored = write_config_bytes d start bytes in
      let kept = bytes-keep d start bytes addr h in
      let bar_idx = (start - 0x10) / 4 in
      let Q = λ (e : PciDevice D M E). get_elem? e.config addr ≡ get_elem? d.config addr in
      if_both Q
        ((leb 0x10 start && leb start 0x24) && ((start - 0x10) % 4 == 0 && length bytes == 4))
        (if_cases Q (ltb bar_idx 6)
          (λ small.
            bar-keeps stored bar_idx (from_le_bytes bytes) (get_elem? stored.bars bar_idx) addr
              (ground arith) h
            ∙ kept)
          (λ large. kept))
        kept
