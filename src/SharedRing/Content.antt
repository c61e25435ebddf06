-- ===== src/SharedRing/Content.antt =====
-- The packets that stand between two indices of the ring of net/shared_ring.rs.
use visor.Prelude.{
  ℕ, ◌+◌, ◌-◌, ◌%◌, ◌≤◌, ◌<◌, ◌≡◌, sym, subst, ◌∙◌, List, [], ◌∷◌, ◌++◌, length, arith,
}
use visor.SharedRing.{entry_size, load_u32, copy_out, skip_marker}
use visor.SharedRing.Memory.{copy_out-agree, load_u32-agree}
use visor.SharedRing.Positions.{entry_size-bounds, position-add}

-- The entry of a packet at a position: it ends within the ring, and header and bytes are there.
pub record Stored (cap : ℕ) (memory : ℕ → ℕ) (pos : ℕ) (packet : List ℕ) : Type 0 where
  pub small : length packet ≤ 9014
  pub ends_inside : pos + entry_size packet ≤ cap
  pub header : load_u32 memory pos ≡ length packet
  pub payload : copy_out memory (pos + 4) (length packet) ≡ packet

-- A marker at a position other than the start, which sends the reader to the start.
pub record Marked (cap : ℕ) (memory : ℕ → ℕ) (pos : ℕ) : Type 0 where
  pub inside : 0 < pos
  pub room : pos + 4 ≤ cap
  pub marker : load_u32 memory pos ≡ skip_marker

pub data Content (cap : ℕ) (memory : ℕ → ℕ) : ℕ → ℕ → List (List ℕ) → Type 0 where
  nothing : (i : ℕ) → Content cap memory i i []
  entry :
      (r w : ℕ) (packet : List ℕ) (rest : List (List ℕ))
      → Stored cap memory (r % cap) packet
      → Content cap memory (r + entry_size packet) w rest
      → Content cap memory r w (packet ∷ rest)
  skip :
      (r w : ℕ) (rest : List (List ℕ))
      → Marked cap memory (r % cap)
      → Content cap memory (r + (cap - r % cap)) w rest
      → Content cap memory r w rest

pub Content-ordered :
    (cap : ℕ) (memory : ℕ → ℕ) (r w : ℕ) (packets : List (List ℕ))
    → Content cap memory r w packets
    → r ≤ w
Content-ordered cap memory _ _ _ (nothing i) = omega arith
Content-ordered cap memory _ _ _ (entry r w packet rest s c) =
    omega (arith, Content-ordered cap memory _ w rest c)
Content-ordered cap memory _ _ _ (skip r w rest m c) =
    omega (arith, Content-ordered cap memory _ w rest c)

-- The positions between two indices hold the same bytes.
abbrev pub Agree : ℕ → (ℕ → ℕ) → (ℕ → ℕ) → ℕ → ℕ → Type 0
Agree cap f g r w = (x : ℕ) → r ≤ x → x < w → f (x % cap) ≡ g (x % cap)

-- Within an entry the positions follow each other.
stretch :
    (cap : ℕ) (f g : ℕ → ℕ) (r w n : ℕ)
    → Agree cap f g r w
    → r % cap + n ≤ cap
    → r + n ≤ w
    → (i : ℕ) → r % cap ≤ i
    → i < r % cap + n
    → f i ≡ g i
stretch cap f g r w n agree fits inside i le lt =
    let k = i - r % cap in
    let place : (r + k) % cap ≡ i = position-add cap r k (omega arith) ∙ omega arith in
    subst (λ (p : ℕ). f p ≡ g p) place (agree (r + k) (omega arith) (omega arith))

Stored-Agree :
    (cap : ℕ) (f g : ℕ → ℕ) (r w : ℕ) (packet : List ℕ)
    → Agree cap f g r w
    → r + entry_size packet ≤ w
    → Stored cap f (r % cap) packet
    → Stored cap g (r % cap) packet
Stored-Agree cap f g r w packet agree inside s =
    let (fits, most, even, some_bytes) = entry_size-bounds packet s.small in
    let same = stretch cap f g r w (entry_size packet) agree s.ends_inside inside in
    record {
      small = s.small;
      ends_inside = s.ends_inside;
      header =
          sym (load_u32-agree f g (r % cap) (λ i le lt. same i le (omega (arith, fits))))
          ∙ s.header;
      payload =
          sym (
            copy_out-agree f g (r % cap + 4) (length packet)
              (λ i le lt. same i (omega arith) (omega (arith, fits))))
          ∙ s.payload;
    }

Marked-Agree :
    (cap : ℕ) (f g : ℕ → ℕ) (r w : ℕ)
    → Agree cap f g r w
    → r + (cap - r % cap) ≤ w
    → Marked cap f (r % cap)
    → Marked cap g (r % cap)
Marked-Agree cap f g r w agree inside m = record {
  inside = m.inside;
  room = m.room;
  marker =
      sym
        (load_u32-agree f g (r % cap) (stretch cap f g r w 4 agree m.room (omega (arith, m.room))))
      ∙ m.marker;
}

pub Content-Agree :
    (cap : ℕ) (f g : ℕ → ℕ) (r w : ℕ) (packets : List (List ℕ))
    → Content cap f r w packets
    → Agree cap f g r w
    → Content cap g r w packets
Content-Agree cap f g _ _ _ (nothing i) agree = nothing i
Content-Agree cap f g _ _ _ (entry r w packet rest s c) agree =
    let after = Content-ordered cap f _ w rest c in
    entry r w packet rest (Stored-Agree cap f g r w packet agree after s)
      (Content-Agree cap f g _ w rest c (λ x le lt. agree x (omega arith) lt))
Content-Agree cap f g _ _ _ (skip r w rest m c) agree =
    let after = Content-ordered cap f _ w rest c in
    skip r w rest (Marked-Agree cap f g r w agree after m)
      (Content-Agree cap f g _ w rest c (λ x le lt. agree x (omega arith) lt))

pub Content-append :
    (cap : ℕ) (memory : ℕ → ℕ) (r w e : ℕ) (packets more : List (List ℕ))
    → Content cap memory r w packets
    → Content cap memory w e more
    → Content cap memory r e (packets ++ more)
Content-append cap memory _ _ e _ more (nothing i) d = d
Content-append cap memory _ _ e _ more (entry r w packet rest s c) d =
    entry r e packet (rest ++ more) s (Content-append cap memory _ w e rest more c d)
Content-append cap memory _ _ e _ more (skip r w rest m c) d =
    skip r e (rest ++ more) m (Content-append cap memory _ w e rest more c d)
