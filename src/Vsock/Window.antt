-- ===== src/Vsock/Window.antt =====
-- The bytes in the ring of vsock.rs from a position on, and what a copy into it changes.
use visor.Prelude.{
  ℕ, zero, suc, ◌+◌, ◌-◌, ◌%◌, ◌≤◌, ◌<◌, ◌≡◌, refl, ap, ◌∙◌, List, [], ◌∷◌, ◌++◌, Option, none,
  some, inl, inr, length, get_elem?, take, drop, min, arith, length-take, Bool-cases, ltb, ltb→lt,
  false,
}
use visor.Prelude.Bytes.{
  copy_at, length-copy_at, get_elem?-copy_at_inside, get_elem?-copy_at_outside,
}
use visor.Vsock.TxBuf.{conn_tx_buf_size, copy_wrapped}

abbrev pub byte_of : Option ℕ → ℕ
byte_of none = 0
byte_of (some byte) = byte

abbrev pub byte_at : List ℕ → ℕ → ℕ
byte_at storage i = byte_of (get_elem? storage i)

-- So many bytes from a position on.
unfoldable pub window : List ℕ → ℕ → ℕ → List ℕ
window storage pos zero = []
window storage pos (suc n) = byte_at storage (pos % conn_tx_buf_size) ∷ window storage (pos + 1) n

pub length-window : (storage : List ℕ) (pos n : ℕ) → length (window storage pos n) ≡ n
unfolding window
length-window storage pos zero = refl
length-window storage pos (suc n) = ap suc (length-window storage (pos + 1) n)

plus_zero : (i : ℕ) → i + 0 ≡ i
plus_zero i = omega arith

pub window-same :
    (n pos other : ℕ) (xs ys : List ℕ)
    → ((i : ℕ)
        → i < n
        → byte_at xs ((pos + i) % conn_tx_buf_size) ≡ byte_at ys ((other + i) % conn_tx_buf_size))
    → window xs pos n ≡ window ys other n
unfolding window
window-same zero pos other xs ys h = refl
window-same (suc n) pos other xs ys h =
    let first : byte_at xs (pos % conn_tx_buf_size) ≡ byte_at ys (other % conn_tx_buf_size) =
      rw (plus_zero pos, plus_zero other) at (h zero (omega arith)) in
    let rest = window-same n (pos + 1) (other + 1) xs ys (λ i lt.
      let p : pos + 1 + i ≡ pos + suc i = omega arith in
      let q : other + 1 + i ≡ other + suc i = omega arith in rw (p, q) (h (suc i) (omega arith))) in
    λ i. first i ∷ rest i

pub window-src :
    (src : List ℕ) (pos : ℕ) (xs : List ℕ)
    → ((i : ℕ) → i < length src → byte_at xs ((pos + i) % conn_tx_buf_size) ≡ byte_at src i)
    → window xs pos (length src) ≡ src
unfolding window
window-src [] pos xs h = refl
window-src (byte ∷ src) pos xs h =
    let first : byte_at xs (pos % conn_tx_buf_size) ≡ byte =
      rw (plus_zero pos) at (h zero (omega arith)) in
    let rest =
      window-src src (pos + 1) xs (λ i lt.
        let p : pos + 1 + i ≡ pos + suc i = omega arith in rw p (h (suc i) (omega arith))) in
    λ i. first i ∷ rest i

pub window-append :
    (a b pos : ℕ) (xs : List ℕ) → window xs pos (a + b) ≡ window xs pos a ++ window xs (pos + a) b
unfolding window
window-append zero b pos xs =
    let p : pos + 0 ≡ pos = omega arith in let q : 0 + b ≡ b = omega arith in rw (p, q) refl
window-append (suc a) b pos xs =
    let p : pos + suc a ≡ pos + 1 + a = omega arith in
    let q : suc a + b ≡ suc (a + b) = omega arith in
    rw (p, q) (ap (◌∷◌ (byte_at xs (pos % conn_tx_buf_size))) (window-append a b (pos + 1) xs))

zero_plus : (i : ℕ) → 0 + i ≡ i
zero_plus i = omega arith

suc_plus : (n i : ℕ) → suc n + i ≡ suc (n + i)
suc_plus n i = omega arith

step-slice :
    (n ofs : ℕ) (xs : List ℕ)
    → ofs < length xs
    → take (suc n) (drop ofs xs) ≡ byte_at xs ofs ∷ take n (drop (suc ofs) xs)
step-slice n ofs [] h = absurd (omega arith)
step-slice n zero (x ∷ xs) h = refl
step-slice n (suc ofs) (x ∷ xs) h = step-slice n ofs xs (omega arith)

-- A slice that does not go over the end.
pub slice-window :
    (n ofs : ℕ) (xs : List ℕ)
    → ofs + n ≤ conn_tx_buf_size
    → length xs ≡ conn_tx_buf_size
    → take n (drop ofs xs) ≡ window xs ofs n
unfolding window
slice-window zero ofs xs h e = refl
slice-window (suc n) ofs xs h e =
    let here : ofs % conn_tx_buf_size ≡ ofs = omega (arith, h) in
    let later : ofs + 1 ≡ suc ofs = omega arith in
    rw (here, later)
      (step-slice n ofs xs (omega (arith, h, e))
        ∙ ap (◌∷◌ (byte_at xs ofs)) (slice-window n (suc ofs) xs (omega (arith, h)) e))

pub length-drop : (n : ℕ) (xs : List ℕ) → length (drop n xs) ≡ length xs - n
length-drop zero xs = omega arith
length-drop (suc n) [] = omega arith
length-drop (suc n) (x ∷ xs) = omega (arith, length-drop n xs)

get_elem?-take : (n i : ℕ) (xs : List ℕ) → i < n → get_elem? (take n xs) i ≡ get_elem? xs i
get_elem?-take zero i xs h = absurd (omega arith)
get_elem?-take (suc n) i [] h = refl
get_elem?-take (suc n) zero (x ∷ xs) h = refl
get_elem?-take (suc n) (suc i) (x ∷ xs) h = get_elem?-take n i xs (omega arith)

get_elem?-drop : (n i : ℕ) (xs : List ℕ) → get_elem? (drop n xs) i ≡ get_elem? xs (n + i)
get_elem?-drop zero i xs = rw (zero_plus i) refl
get_elem?-drop (suc n) i [] = refl
get_elem?-drop (suc n) i (x ∷ xs) = rw (suc_plus n i) (get_elem?-drop n i xs)

ltb_not : (a b : ℕ) → ltb a b ≡ false → b ≤ a
ltb_not a b h = ground arith

-- The bytes that were copied.
pub byte_at-copied :
    (xs : List ℕ) (head_ofs : ℕ) (src : List ℕ) (i : ℕ)
    → length xs ≡ conn_tx_buf_size
    → head_ofs < conn_tx_buf_size
    → length src ≤ conn_tx_buf_size
    → i < length src
    → byte_at (copy_wrapped xs head_ofs src) ((head_ofs + i) % conn_tx_buf_size) ≡ byte_at src i
unfolding copy_wrapped
byte_at-copied xs head_ofs src i e h fits lt =
    let n = min (conn_tx_buf_size - head_ofs) (length src) in
    let first = length-take n src (omega arith) in
    let second = length-drop n src in
    let once = copy_at xs head_ofs (take n src) in
    elim (Bool-cases (ltb i n)) [
      | inl before ↦
          let low = ltb→lt i n before in
          let pos : (head_ofs + i) % conn_tx_buf_size ≡ head_ofs + i = omega (arith, low, h) in
          rw pos (
            ap byte_of (
              get_elem?-copy_at_outside once 0 (drop n src) (head_ofs + i)
                (inr (omega (arith, second, low, fits)))
              ∙ get_elem?-copy_at_inside xs head_ofs (take n src) i (omega (arith, first, low))
                  (omega (arith, first, e, h))
              ∙ get_elem?-take n i src low))
      | inr after ↦
          let high = ltb_not i n after in
          let pos : (head_ofs + i) % conn_tx_buf_size ≡ 0 + (i - n) =
            omega (arith, high, lt, h, fits) in
          let back : n + (i - n) ≡ i = omega (arith, high) in
          rw pos (
            ap byte_of (
              get_elem?-copy_at_inside once 0 (drop n src) (i - n) (omega (arith, second, high, lt))
                (omega (arith, second, length-copy_at xs head_ofs (take n src), e, fits))
              ∙ get_elem?-drop n (i - n) src
              ∙ ap (get_elem? src) back))
    ]

-- The bytes that were not.
pub byte_at-kept :
    (xs : List ℕ) (head_ofs : ℕ) (src : List ℕ) (j : ℕ)
    → head_ofs < conn_tx_buf_size
    → length src ≤ (j + conn_tx_buf_size - head_ofs) % conn_tx_buf_size
    → j < conn_tx_buf_size
    → byte_at (copy_wrapped xs head_ofs src) j ≡ byte_at xs j
unfolding copy_wrapped
byte_at-kept xs head_ofs src j h outside lt =
    let n = min (conn_tx_buf_size - head_ofs) (length src) in
    let first = length-take n src (omega arith) in
    let second = length-drop n src in
    ap byte_of (
      get_elem?-copy_at_outside (copy_at xs head_ofs (take n src)) 0 (drop n src) j
        (inr (omega (arith, second, outside, h)))
      ∙ get_elem?-copy_at_outside xs head_ofs (take n src) j (elim (Bool-cases (ltb j head_ofs)) [
        | inl before ↦ inl (ground (arith, before))
        | inr after ↦ inr (omega (arith, first, outside, ltb_not j head_ofs after))
      ]))
