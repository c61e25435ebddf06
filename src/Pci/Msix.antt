-- ===== src/Pci/Msix.antt =====
-- The MSI-X table of transport/pci.rs, as the driver reads and writes it through bar 4.
use visor.Prelude.{
  ℕ, zero, suc, ◌+◌, ◌*◌, ◌/◌, ◌%◌, ◌≤◌, ◌<◌, ◌≡◌, ◌≢◌, refl, sym, ap, ◌∙◌, true, false, List, [],
  ◌∷◌, Option, none, some, ok, length, get_elem?, set, ltb, leb, ◌==◌, arith, length-set, All,
  get_elem?-set_self, get_elem?-set_ne, get_elem?-below,
}
use visor.Prelude.Bytes.{to_le_bytes, from_le_bytes, copy_at, length-copy_at}
use visor.Pci.Device.{
  PciDevice, BarRegion, MsixTableEntry, msix_entry_to_bytes, msix_entry_from_bytes, read_bar,
  write_bar, check_bar, check_region, read_msix_region, write_msix_region, read_entry, write_entry,
  entry_at,
}
use visor.Pci.Config.{read_bytes-copy_at}

abbrev IsByte : ℕ → Type 0
IsByte n = n < 256

word-bytes :
    (a b c d : ℕ)
    → IsByte a
    → IsByte b
    → IsByte c
    → IsByte d
    → to_le_bytes (from_le_bytes (a ∷ b ∷ c ∷ d ∷ [])) ≡ a ∷ b ∷ c ∷ d ∷ []
unfolding to_le_bytes from_le_bytes
word-bytes a b c d ha hb hc hd = grind arith

to_le_bytes-All : (value : ℕ) → All IsByte (to_le_bytes value)
unfolding to_le_bytes
to_le_bytes-All value = ground arith

set-All : (xs : List ℕ) (i v : ℕ) → IsByte v → All IsByte xs → All IsByte (set xs i v)
set-All [] i v hv h = h
set-All (x ∷ xs) zero v hv (hx, h) = (hv, h)
set-All (x ∷ xs) (suc i) v hv (hx, h) = (hx, set-All xs i v hv h)

copy_at-All :
    (xs : List ℕ) (start : ℕ) (bytes : List ℕ)
    → All IsByte xs
    → All IsByte bytes
    → All IsByte (copy_at xs start bytes)
unfolding copy_at
copy_at-All xs start [] h hb = h
copy_at-All xs start (b ∷ bs) h (hb, hs) =
    copy_at-All (set xs start b) (suc start) bs (set-All xs start b hb h) hs

-- The bytes of an entry are sixteen bytes.
entry-All : (entry : MsixTableEntry) → All IsByte (msix_entry_to_bytes entry)
unfolding msix_entry_to_bytes
entry-All entry =
    copy_at-All _ 12 _
      (copy_at-All _ 8 _
        (copy_at-All _ 4 _ (copy_at-All _ 0 _ (ground arith) (to_le_bytes-All entry.msg_addr_lo))
          (to_le_bytes-All entry.msg_addr_hi))
        (to_le_bytes-All entry.msg_data))
      (to_le_bytes-All entry.vector_ctrl)

length-entry : (entry : MsixTableEntry) → length (msix_entry_to_bytes entry) ≡ 16
unfolding msix_entry_to_bytes to_le_bytes copy_at
length-entry entry = refl

-- A list of bytes begins with four of them.
four :
    (n : ℕ) (xs : List ℕ)
    → length xs ≡ 4 + n
    → All IsByte xs
    → (a : ℕ) × (b : ℕ) × (c : ℕ) × (d : ℕ) × (rest : List ℕ) × (xs ≡ a ∷ b ∷ c ∷ d ∷ rest)
      × IsByte a
      × IsByte b
      × IsByte c
      × IsByte d
      × (length rest ≡ n)
      × All IsByte rest
four n [] len h = absurd (omega (arith, len))
four n (a ∷ []) len h = absurd (omega (arith, len))
four n (a ∷ b ∷ []) len h = absurd (omega (arith, len))
four n (a ∷ b ∷ c ∷ []) len h = absurd (omega (arith, len))
four n (a ∷ b ∷ c ∷ d ∷ rest) len h =
    (a, b, c, d, rest, refl, h.0, h.1.0, h.1.1.0, h.1.1.1.0, omega (arith, len), h.1.1.1.1)

-- Sixteen bytes survive the way through an entry.
to_bytes-from_bytes :
    (xs : List ℕ)
    → length xs ≡ 16
    → All IsByte xs
    → msix_entry_to_bytes (msix_entry_from_bytes xs) ≡ xs
unfolding msix_entry_to_bytes msix_entry_from_bytes copy_at
to_bytes-from_bytes xs len h =
    let (a0, b0, c0, d0, r0, e0, p0, q0, s0, t0, l0, h0) = four 12 xs len h in
    let (a1, b1, c1, d1, r1, e1, p1, q1, s1, t1, l1, h1) = four 8 r0 l0 h0 in
    let (a2, b2, c2, d2, r2, e2, p2, q2, s2, t2, l2, h2) = four 4 r1 l1 h1 in
    let (a3, b3, c3, d3, r3, e3, p3, q3, s3, t3, l3, h3) = four 0 r2 l2 h2 in
    let nil : r3 ≡ [] = ground (arith, l3) in
    rw
      (
        e0,
        e1,
        e2,
        e3,
        nil,
        word-bytes a0 b0 c0 d0 p0 q0 s0 t0,
        word-bytes a1 b1 c1 d1 p1 q1 s1 t1,
        word-bytes a2 b2 c2 d2 p2 q2 s2 t2,
        word-bytes a3 b3 c3 d3 p3 q3 s3 t3,
      )
      refl

module _ {D M E : Type 0} where
  write-read_entry :
      (d : PciDevice D M E) (off : ℕ) (bytes buffer : List ℕ) (entry : MsixTableEntry)
      → off < length d.msix_table * 16
      → off % 16 + length bytes ≤ 16
      → length buffer ≡ length bytes
      → All IsByte bytes
      → get_elem? d.msix_table (off / 16) ≡ some entry
      → read_msix_region (write_msix_region d off bytes) off buffer ≡ bytes
  unfolding read_msix_region write_msix_region read_entry write_entry entry_at
  write-read_entry d off bytes buffer entry inside fits len small at =
      let old = msix_entry_to_bytes entry in
      let stored = copy_at old (off % 16) bytes in
      let sixteen : length stored ≡ 16 = length-copy_at old (off % 16) bytes ∙ length-entry entry in
      let there : ltb off (length d.msix_table * 16) ≡ true = ground arith in
      let index : off / 16 < length d.msix_table = omega arith in
      let kept = length-set d.msix_table (off / 16) (msix_entry_from_bytes stored) in
      let now = get_elem?-set_self d.msix_table (off / 16) (msix_entry_from_bytes stored) index in
      let whole =
        to_bytes-from_bytes stored sixteen
          (copy_at-All old (off % 16) bytes (entry-All entry) small) in
      rw (there, at, kept, there, now, whole)
        (read_bytes-copy_at old (λ o. o) (off % 16) bytes buffer len
          (omega (arith, length-entry entry)))

  check_bar-msix :
      (d : PciDevice D M E) (off : ℕ) (bar : BarRegion)
      → get_elem? d.bars 4 ≡ some bar
      → off < bar.size
      → check_bar d 4 off ≡ ok true
  unfolding check_bar check_region
  check_bar-msix d off bar at size =
      let nonzero : (bar.size == 0) ≡ false = ground arith in
      let below : leb bar.size off ≡ false = ground arith in rw (at, nonzero, below) refl

  write_bar-msix :
      (d : PciDevice D M E) (off : ℕ) (bytes : List ℕ)
      → check_bar d 4 off ≡ ok true
      → write_bar d 4 off bytes ≡ ok (write_msix_region d off bytes)
  unfolding write_bar
  write_bar-msix d off bytes h = rw h refl

  read_bar-msix :
      (d : PciDevice D M E) (off : ℕ) (bytes : List ℕ)
      → check_bar d 4 off ≡ ok true
      → read_bar d 4 off bytes ≡ ok (read_msix_region d off bytes)
  unfolding read_bar
  read_bar-msix d off bytes h = rw h refl

  -- A write into the table changes the table only.
  write_region :
      (d : PciDevice D M E) (off : ℕ) (bytes : List ℕ) (entry : MsixTableEntry)
      → off < length d.msix_table * 16
      → get_elem? d.msix_table (off / 16) ≡ some entry
      → (table : List MsixTableEntry) × (write_msix_region d off bytes
          ≡ record d { msix_table = table })
  unfolding write_msix_region write_entry entry_at
  write_region d off bytes entry inside at =
      let there : ltb off (length d.msix_table * 16) ≡ true = ground arith in
      let stored = copy_at (msix_entry_to_bytes entry) (off % 16) bytes in
      (set d.msix_table (off / 16) (msix_entry_from_bytes stored), rw (there, at) refl)

  others_entry :
      (d : PciDevice D M E) (off : ℕ) (bytes : List ℕ) (j : ℕ) (entry : Option MsixTableEntry)
      → j ≢ off / 16
      → get_elem? (write_entry d off bytes entry).msix_table j ≡ get_elem? d.msix_table j
  unfolding write_entry
  others_entry d off bytes j none h = refl
  others_entry d off bytes j (some entry) h =
      get_elem?-set_ne d.msix_table (off / 16) j _ (λ (e : off / 16 ≡ j). h (sym e))

  others :
      (d : PciDevice D M E) (off : ℕ) (bytes : List ℕ) (j : ℕ)
      → j ≢ off / 16
      → get_elem? (write_msix_region d off bytes).msix_table j ≡ get_elem? d.msix_table j
  unfolding write_msix_region
  others d off bytes j h = others_entry d off bytes j (entry_at d off) h

  -- A write of bytes that lies in one entry of the MSI-X table succeeds, a read of the same bytes gives
  -- them back, and the other entries stay.
  pub read_bar-write_bar :
      (d : PciDevice D M E) (off : ℕ) (bytes buffer : List ℕ) (bar : BarRegion) (j : ℕ)
      → get_elem? d.bars 4 ≡ some bar
      → off < bar.size
      → off < length d.msix_table * 16
      → off % 16 + length bytes ≤ 16
      → length buffer ≡ length bytes
      → All IsByte bytes
      → j ≢ off / 16
      → (e : PciDevice D M E) × (write_bar d 4 off bytes ≡ ok e)
        × (read_bar e 4 off buffer ≡ ok bytes)
        × (get_elem? e.msix_table j ≡ get_elem? d.msix_table j)
  read_bar-write_bar d off bytes buffer bar j at size inside fits len small other =
      let (entry, there) = get_elem?-below d.msix_table (off / 16) (omega arith) in
      let (table, written) = write_region d off bytes entry inside there in
      let open_now : check_bar (write_msix_region d off bytes) 4 off ≡ ok true =
        rw written (check_bar-msix (record d { msix_table = table }) off bar at size) in
      (
        write_msix_region d off bytes,
        write_bar-msix d off bytes (check_bar-msix d off bar at size),
        read_bar-msix (write_msix_region d off bytes) off buffer open_now
            ∙ ap ok (write-read_entry d off bytes buffer entry inside fits len small there),
        others d off bytes j other,
      )
