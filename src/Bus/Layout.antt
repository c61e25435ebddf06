-- ===== src/Bus/Layout.antt =====
-- The layout of a bus (devices/bus.rs): sorted, non-empty ranges that do not meet, kept by `register`.
use visor.Prelude.{
  ℕ, suc, ◌+◌, ◌^◌, ◌≤◌, ◌<◌, ◌≡◌, refl, false, ◌⊎◌, inl, inr, List, [], ◌∷◌, ok, arith, leb,
  if◌then◌else◌, Bool-cases,
}
use visor.Bus.{
  Bus, BusEntry, Search, found, insert_at, place, binary_search, insert, ranges_overlap,
  any_overlap, register,
}

abbrev pub end_of : BusEntry → ℕ
end_of e = e.base + e.size

-- From `lo` on: each range is not empty, ends inside the address space, and starts after the last.
abbrev pub Layout : ℕ → List BusEntry → Type 0
Layout lo [] = Unit {0}
Layout lo (e ∷ es) = (lo ≤ e.base) × (0 < e.size) × (end_of e < 2 ^ 64) × Layout (end_of e) es

abbrev pub IsLaidOut : Bus → Type 0
IsLaidOut b = Layout 0 b.entries

abbrev shift : Search → Search
shift (found i) = found (suc i)
shift (insert_at i) = insert_at (suc i)

pub binary_search-suc :
    (key : ℕ) (es : List BusEntry) (i : ℕ)
    → binary_search key es (suc i) ≡ shift (binary_search key es i)
unfolding binary_search
binary_search-suc key [] i = refl
binary_search-suc key (e ∷ es) i = ground (arith, binary_search-suc key es (suc i))

-- Where `register` puts an entry, without the search.
unfoldable pub insert_sorted : BusEntry → List BusEntry → List BusEntry
insert_sorted e [] = e ∷ []
insert_sorted e (x ∷ es) = if leb e.base x.base then e ∷ x ∷ es else x ∷ insert_sorted e es

pub insert-place :
    (e : BusEntry) (es : List BusEntry)
    → insert (place (binary_search e.base es 0)) e es ≡ insert_sorted e es
unfolding insert binary_search insert_sorted
insert-place e [] = refl
insert-place e (x ∷ es) = ground (arith, binary_search-suc e.base es 0, insert-place e es)

-- No two ranges meet.
abbrev pub Apart : BusEntry → List BusEntry → Type 0
Apart e [] = Unit {0}
Apart e (x ∷ es) = ((end_of e ≤ x.base) ⊎ (end_of x ≤ e.base)) × Apart e es

-- Inside the address space the wrapping test is the true one.
pub any_overlap-Apart :
    (e : BusEntry) (lo : ℕ) (es : List BusEntry)
    → 0 < e.size
    → end_of e < 2 ^ 64
    → Layout lo es
    → any_overlap e.base e.size es ≡ false
    → Apart e es
unfolding any_overlap ranges_overlap
any_overlap-Apart e lo [] s t l h = tt
any_overlap-Apart e lo (x ∷ es) s t l h = ground (arith, any_overlap-Apart e (end_of x) es s t l.3)

insert_sorted-Layout :
    (e : BusEntry) (lo : ℕ) (es : List BusEntry)
    → lo ≤ e.base
    → 0 < e.size
    → end_of e < 2 ^ 64
    → Apart e es
    → Layout lo es
    → Layout lo (insert_sorted e es)
unfolding insert_sorted
insert_sorted-Layout e lo [] b s t a l = (b, s, t, tt)
insert_sorted-Layout e lo (x ∷ es) b s t a l = elim (Bool-cases (leb e.base x.base)) [
  | inl first ↦ rw first (ground arith)
  | inr later ↦
      rw later (l.0, l.1, l.2, insert_sorted-Layout e (end_of x) es (ground arith) s t a.1 l.3)
]

-- What `register` accepts is the sorted insertion of a range that meets no other.
pub register-ok :
    (b : Bus) (base size device : ℕ) (b' : Bus)
    → IsLaidOut b
    → base + size < 2 ^ 64
    → register b base size device ≡ ok b'
    → let e : BusEntry = record { base = base; size = size; device = device } in
      (0 < size) × Apart e b.entries × (b'.entries ≡ insert_sorted e b.entries)
unfolding register
register-ok b base size device b' l t h =
    let e : BusEntry = record { base = base; size = size; device = device } in
    ground (arith, any_overlap-Apart e 0 b.entries, insert-place e b.entries)

-- The invariant of the bus: a registration that is accepted keeps the ranges sorted, not empty and
-- apart, if the new range ends below the top of the address space.
pub register-IsLaidOut :
    (b : Bus) (base size device : ℕ) (b' : Bus)
    → IsLaidOut b
    → base + size < 2 ^ 64
    → register b base size device ≡ ok b'
    → IsLaidOut b'
register-IsLaidOut b base size device b' l t h =
    let e : BusEntry = record { base = base; size = size; device = device } in
    let (s, a, same) = register-ok b base size device b' l t h in
    rw same (insert_sorted-Layout e 0 b.entries (omega arith) s t a l)
