-- ===== src/Bus/Routing.antt =====
-- Where an access on a bus goes (devices/bus.rs): the binary search against a plain scan.
use visor.Prelude.{
  ℕ, suc, ◌+◌, ◌-◌, ◌^◌, ◌≤◌, ◌<◌, max, ◌≡◌, ◌≢◌, refl, Bool, true, ◌&&◌, ◌⊎◌, inl, inr, List, [],
  ◌∷◌, Option, none, some, ok, err, get_elem?, arith, ltb, leb, ◌==◌, if◌then◌else◌, Bool-cases,
  Option-cases, ◌∙◌, ◌↔◌,
}
use visor.Bus.{
  Bus, BusEntry, overlap, binary_search, last_at_or_below, within, find, target, ranges_overlap,
  any_overlap, register,
}
use visor.Bus.Layout.{
  end_of, Layout, IsLaidOut, Apart, insert_sorted, binary_search-suc, insert-place, register-ok,
  register-IsLaidOut, any_overlap-Apart,
}

abbrev pub holds : BusEntry → ℕ → Bool
holds e addr = leb e.base addr && ltb addr (end_of e)

-- The specification: the first entry of the list whose range holds the address.
unfoldable pub owner : ℕ → List BusEntry → Option (ℕ × ℕ)
owner addr [] = none
owner addr (e ∷ es) = if holds e addr then some (e.device, addr - e.base) else owner addr es

-- The entry that `find` looks at.
pick : ℕ → List BusEntry → Option BusEntry
pick addr es = elim (last_at_or_below (binary_search addr es 0)) [
  | none ↦ none
  | some i ↦ get_elem? es i
]

answer : ℕ → Option BusEntry → Option (ℕ × ℕ)
answer addr none = none
answer addr (some e) = if ltb (addr - e.base) e.size then some (e.device, addr - e.base) else none

target-answer : (b : Bus) (addr : ℕ) → target b addr ≡ answer addr (pick addr b.entries)
unfolding target find pick answer within
target-answer b addr = ground arith

index : ℕ → List BusEntry → Option ℕ
index addr es = last_at_or_below (binary_search addr es 0)

index-cons :
    (addr : ℕ) (x : BusEntry) (es : List BusEntry)
    → index addr (x ∷ es) ≡ (
        if addr == x.base
        then some 0
        else (if ltb addr x.base
            then none
            else some (elim (index addr es) [ none ↦ 0 | some i ↦ suc i ])))
unfolding index binary_search last_at_or_below
index-cons addr x es = ground (arith, binary_search-suc addr es 0)

-- The search never leads out of the vector, so the indexing of `find` does not panic.
index_in_range :
    (addr : ℕ) (es : List BusEntry)
    → (index addr es ≡ none)
      ⊎ ((i : ℕ) × (e : BusEntry) × (index addr es ≡ some i) × (get_elem? es i ≡ some e))
unfolding index binary_search last_at_or_below
index_in_range addr [] = inl refl
index_in_range addr (x ∷ es) = elim (Bool-cases (addr == x.base)) [
  | inl here ↦ inr (0, x, rw here, refl)
  | inr not_here ↦ elim (Bool-cases (ltb addr x.base)) [
    | inl below ↦ inl (rw (not_here, below))
    | inr above ↦ elim (index_in_range addr es) [
      | inl no_index ↦ inr (0, x, index-cons addr x es ∙ rw (not_here, above, no_index), refl)
      | inr (i, e, p, q) ↦ inr (suc i, e, index-cons addr x es ∙ rw (not_here, above, p), q)
    ]
  ]
]

or_else : Option BusEntry → BusEntry → Option BusEntry
or_else none x = some x
or_else (some e) x = some e

pick-cons :
    (addr : ℕ) (x : BusEntry) (es : List BusEntry)
    → pick addr (x ∷ es) ≡ (
        if addr == x.base
        then some x
        else (if ltb addr x.base then none else or_else (pick addr es) x))
unfolding pick or_else index
pick-cons addr x es = ground (arith, index-cons addr x es, index_in_range addr es)

below-Layout :
    (addr lo : ℕ) (es : List BusEntry)
    → Layout lo es
    → addr < lo
    → (pick addr es ≡ none) × (owner addr es ≡ none)
unfolding owner
below-Layout addr lo [] l h = (unfold pick binary_search last_at_or_below in refl, refl)
below-Layout addr lo (x ∷ es) l h =
    ground (arith, pick-cons addr x es, below-Layout addr (end_of x) es l.3)

pick_bounds :
    (addr : ℕ) (lo : ℕ) (es : List BusEntry) (e : BusEntry)
    → Layout lo es
    → pick addr es ≡ some e
    → (lo ≤ e.base) × (e.base ≤ addr)
unfolding or_else
pick_bounds addr lo [] e l h = unfold pick binary_search last_at_or_below in cc
pick_bounds addr lo (x ∷ es) e l h =
    ground (arith, pick-cons addr x es, pick_bounds addr (end_of x) es e l.3)

answer-owner :
    (addr lo : ℕ) (es : List BusEntry) → Layout lo es → answer addr (pick addr es) ≡ owner addr es
unfolding owner answer or_else
answer-owner addr lo [] l = unfold pick binary_search last_at_or_below in refl
answer-owner addr lo (x ∷ es) l = elim (Option-cases (pick addr es)) [
  | inl no_pick ↦ ground (
    arith,
    no_pick,
    pick-cons addr x es,
    below-Layout addr (end_of x) es l.3,
    answer-owner addr (end_of x) es l.3,
  )
  | inr (e, picked) ↦ ground (
    arith,
    picked,
    pick-cons addr x es,
    pick_bounds addr (end_of x) es e l.3 picked,
    below-Layout addr (end_of x) es l.3,
    answer-owner addr (end_of x) es l.3,
  )
]

-- The binary search is right: on a laid-out bus an access goes to the device whose range holds the
-- address, at the offset from the range's base, and nowhere if no range holds it, as a plain scan
-- of the entries finds it.
pub target-owner : (b : Bus) (addr : ℕ) → IsLaidOut b → target b addr ≡ owner addr b.entries
target-owner b addr l = target-answer b addr ∙ answer-owner addr 0 b.entries l

owner-insert_sorted :
    (e : BusEntry) (addr : ℕ) (es : List BusEntry)
    → Apart e es
    → owner addr (insert_sorted e es)
      ≡ (if holds e addr then some (e.device, addr - e.base) else owner addr es)
unfolding owner insert_sorted
owner-insert_sorted e addr [] a = refl
owner-insert_sorted e addr (x ∷ es) a = ground (arith, owner-insert_sorted e addr es a.1)

-- What a registration does to the address space: the new range goes to the new device, and every
-- other address goes where it went before.
pub target-register :
    (b : Bus) (base size device : ℕ) (b' : Bus) (addr : ℕ)
    → IsLaidOut b
    → base + size < 2 ^ 64
    → register b base size device ≡ ok b'
    → target b' addr ≡ (
        if leb base addr && ltb addr (base + size)
        then some (device, addr - base)
        else target b addr)
target-register b base size device b' addr l t h =
    let e : BusEntry = record { base = base; size = size; device = device } in
    let (s, a, same) = register-ok b base size device b' l t h in
    let l' = register-IsLaidOut b base size device b' l t h in
    rw (target-owner b' addr l', target-owner b addr l, same)
      (owner-insert_sorted e addr b.entries a)

-- Some address of the range has an owner.
owned_of_overlap :
    (base size lo : ℕ) (es : List BusEntry)
    → 0 < size
    → base + size < 2 ^ 64
    → Layout lo es
    → any_overlap base size es ≡ true
    → (addr : ℕ) × (base ≤ addr) × (addr < base + size) × (owner addr es ≢ none)
unfolding any_overlap owner ranges_overlap
owned_of_overlap base size lo [] s t l h = cc
owned_of_overlap base size lo (x ∷ es) s t l h =
    elim (Bool-cases (ltb base (end_of x) && ltb x.base (base + size))) [
      | inl meets ↦ (max base x.base, ground arith, ground arith, ground arith)
      | inr misses ↦
          let (addr, p, q, o) = owned_of_overlap base size (end_of x) es s t l.3 (ground arith) in
          (addr, p, q, ground (arith, o))
    ]

not_owned_of_Apart :
    (e : BusEntry) (addr : ℕ) (es : List BusEntry)
    → Apart e es
    → e.base ≤ addr
    → addr < end_of e
    → owner addr es ≡ none
unfolding owner
not_owned_of_Apart e addr [] a p q = refl
not_owned_of_Apart e addr (x ∷ es) a p q = ground (arith, not_owned_of_Apart e addr es a.1)

-- `register` refuses what it has to and nothing else: on a laid-out bus a range that is not empty and
-- ends below the top is refused, by `overlap` with that range, exactly if one of its addresses is
-- routed to a device already.
pub register-refuses_iff :
    (b : Bus) (base size device : ℕ)
    → IsLaidOut b
    → 0 < size
    → base + size < 2 ^ 64
    → (register b base size device ≡ err (overlap base size))
      ↔ ((addr : ℕ) × (base ≤ addr) × (addr < base + size) × (target b addr ≢ none))
unfolding register
register-refuses_iff b base size device l s t =
    let e : BusEntry = record { base = base; size = size; device = device } in
    elim (Bool-cases (any_overlap base size b.entries)) [
      | inl meets ↦
          let (addr, p, q, o) = owned_of_overlap base size 0 b.entries s t l meets in
          ((λ _. (addr, p, q, rw (target-owner b addr l) o)), (λ _. ground arith))
      | inr clear ↦
          let a = any_overlap-Apart e 0 b.entries s t l clear in
          (
            (λ h. absurd (ground arith)),
            (λ (addr, p, q, o).
                absurd (o (target-owner b addr l ∙ not_owned_of_Apart e addr b.entries a p q))),
          )
    ]

-- The wrapping sum misses a range that ends at the very top of the address space: with such a range
-- on the bus, a range that meets it is accepted, and both stand on the bus.
pub register-misses_top :
    (top e : BusEntry) (addr : ℕ)
    → end_of top ≡ 2 ^ 64
    → holds top addr ≡ true
    → holds e addr ≡ true
    → register (record { entries = top ∷ [] }) e.base e.size e.device
      ≡ ok (record { entries = insert_sorted e (top ∷ []) })
unfolding register any_overlap ranges_overlap
register-misses_top top e addr t h k = ground (arith, insert-place e (top ∷ []))
