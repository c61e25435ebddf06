-- ===== src/PacketSwitch/Frames.antt =====
-- The fields of the frames of net/packet.rs.
use visor.Prelude.{
  ℕ, zero, suc, ◌+◌, ◌*◌, ◌/◌, ◌%◌, ◌^◌, false, ◌<◌, ◌≡◌, refl, ap, ◌∙◌, List, [], ◌∷◌, ◌++◌, ok,
  length, length-append, take, drop, arith, ltb, append_assoc, get_elem?,
}
use visor.Switch.{MacAddr}
use visor.PacketSwitch.{
  EthernetFrame, parse, dst_mac, src_mac, ethertype, from_be_bytes, payload, build,
}

take-append : (n : ℕ) (xs ys : List ℕ) → length xs ≡ n → take n (xs ++ ys) ≡ xs
take-append zero [] ys h = refl
take-append (suc n) [] ys h = absurd (omega (arith, h))
take-append zero (x ∷ xs) ys h = absurd (omega (arith, h))
take-append (suc n) (x ∷ xs) ys h = ap (◌∷◌ x) (take-append n xs ys (omega (arith, h)))

drop-append : (n : ℕ) (xs ys : List ℕ) → length xs ≡ n → drop n (xs ++ ys) ≡ ys
drop-append zero [] ys h = refl
drop-append (suc n) [] ys h = absurd (omega (arith, h))
drop-append zero (x ∷ xs) ys h = absurd (omega (arith, h))
drop-append (suc n) (x ∷ xs) ys h = drop-append n xs ys (omega (arith, h))

elem-append :
    (n i : ℕ) (xs ys : List ℕ) → length xs ≡ n → get_elem? (xs ++ ys) (n + i) ≡ get_elem? ys i
elem-append zero i [] ys h = let e : 0 + i ≡ i = omega arith in rw e refl
elem-append (suc n) i [] ys h = absurd (omega (arith, h))
elem-append zero i (x ∷ xs) ys h = absurd (omega (arith, h))
elem-append (suc n) i (x ∷ xs) ys h =
    let e : suc n + i ≡ suc (n + i) = omega arith in rw e (elem-append n i xs ys (omega (arith, h)))

-- A frame that is built from its parts is parsed, and has these parts.
pub parse-build :
    (dst src : MacAddr) (kind : ℕ) (content : List ℕ)
    → length dst.octets ≡ 6
    → length src.octets ≡ 6
    → kind < 2 ^ 16
    → (f : EthernetFrame) × (parse (build dst src kind content) ≡ ok f)
      × (dst_mac f ≡ dst)
      × (src_mac f ≡ src)
      × (ethertype f ≡ kind)
      × (payload f ≡ content)
unfolding parse build dst_mac src_mac ethertype payload from_be_bytes
parse-build dst src kind content hd hs hk =
    let high = kind / 256 % 256 in
    let low = kind % 256 in
    let tail = high ∷ low ∷ content in
    let heads = dst.octets ++ src.octets in
    let twelve : length heads ≡ 12 = omega (arith, length-append dst.octets src.octets, hd, hs) in
    let front : length (heads ++ high ∷ low ∷ []) ≡ 14 =
      omega (arith, length-append heads (high ∷ low ∷ []), twelve) in
    let halves = append_assoc heads (high ∷ low ∷ []) content in
    let thirds = halves ∙ append_assoc dst.octets src.octets tail in
    let long_enough : ltb (length (heads ++ (high ∷ low ∷ []) ++ content)) 14 ≡ false =
      ground (arith, length-append (heads ++ high ∷ low ∷ []) content, front) in
    let first = ap (take 6) thirds ∙ take-append 6 dst.octets (src.octets ++ tail) hd in
    let second =
      ap (λ (t : List ℕ). take 6 (drop 6 t)) thirds
      ∙ ap (take 6) (drop-append 6 dst.octets (src.octets ++ tail) hd)
      ∙ take-append 6 src.octets tail hs in
    let at_high = ap (λ (t : List ℕ). get_elem? t 12) halves ∙ elem-append 12 0 heads tail twelve in
    let at_low = ap (λ (t : List ℕ). get_elem? t 13) halves ∙ elem-append 12 1 heads tail twelve in
    let word : high * 256 + low ≡ kind = omega arith in
    (
      record { frame_data = build dst src kind content },
      rw long_enough refl,
      ap (λ (o : List ℕ). record { octets = o }) first,
      ap (λ (o : List ℕ). record { octets = o }) second,
      rw (at_high, at_low) word,
      drop-append 14 (heads ++ high ∷ low ∷ []) content front,
    )
