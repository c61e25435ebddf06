-- ===== src/Bus.antt =====
-- crates/visor-vmm/src/devices/bus.rs: the bus that routes port and memory-mapped I/O to devices.
-- A device is a handle into a store of device states, since `Arc<Mutex<dyn BusDevice>>` is shared;
-- `none` in the store is a poisoned lock. u64 sums wrap, as in a release build.
pub mod Layout
pub mod Routing
mod Tests
use visor.Prelude.{
  ℕ, zero, suc, ◌+◌, ◌-◌, ◌%◌, ◌^◌, Bool, ◌&&◌, List, [], ◌∷◌, Option, none, some, Result, ok, err,
  get_elem?, ltb, ◌==◌, if◌then◌else◌,
}

-- The trait: `read` fills a buffer and may change the device.
pub record BusDevice (D : Type 0) : Type 0 where
  pub read : D → ℕ → List ℕ → D × List ℕ
  pub write : D → ℕ → List ℕ → D

pub data BusError : Type 0 where
  overlap : (base size : ℕ) → BusError
  zero_sized_range : BusError

pub record BusEntry : Type 0 where
  pub base : ℕ
  pub size : ℕ
  pub device : ℕ

pub record Bus : Type 0 where
  pub entries : List BusEntry

unfoldable pub empty : Bus
empty = record { entries = [] }

abbrev pub add_u64 : ℕ → ℕ → ℕ
add_u64 a b = (a + b) % 2 ^ 64

unfoldable pub ranges_overlap : ℕ → ℕ → ℕ → ℕ → Bool
ranges_overlap a_base a_size b_base b_size =
    ltb a_base (add_u64 b_base b_size) && ltb b_base (add_u64 a_base a_size)

-- What `slice::binary_search_by_key` answers on a slice sorted by that key: the place of the key, or
-- the place where it is to be inserted.
pub data Search : Type 0 where
  found : ℕ → Search
  insert_at : ℕ → Search

unfoldable pub binary_search : ℕ → List BusEntry → ℕ → Search
binary_search key [] i = insert_at i
binary_search key (e ∷ es) i =
    let rest = binary_search key es (suc i) in
    if key == e.base then found i else (if ltb key e.base then insert_at i else rest)

abbrev pub place : Search → ℕ
place (found i) = i
place (insert_at i) = i

-- `Vec::insert`.
unfoldable pub insert : ℕ → BusEntry → List BusEntry → List BusEntry
insert zero e es = e ∷ es
insert (suc i) e [] = e ∷ []
insert (suc i) e (x ∷ es) = x ∷ insert i e es

-- The `for` loop of `register`.
unfoldable pub any_overlap : ℕ → ℕ → List BusEntry → Bool
any_overlap base size [] = Bool.false
any_overlap base size (e ∷ es) =
    let rest = any_overlap base size es in
    if ranges_overlap base size e.base e.size then Bool.true else rest

unfoldable pub register : Bus → ℕ → ℕ → ℕ → Result Bus BusError
register b base size device =
    if size == 0
    then err zero_sized_range
    else (if any_overlap base size b.entries
        then err (overlap base size)
        else ok (record {
          entries =
              insert (place (binary_search base b.entries 0))
                (record { base = base; size = size; device = device }) b.entries;
        }))

-- The index that `find` looks at: the last entry with a base at or below the address.
unfoldable pub last_at_or_below : Search → Option ℕ
last_at_or_below (found i) = some i
last_at_or_below (insert_at zero) = none
last_at_or_below (insert_at (suc i)) = some i

-- The offset in the entry at that index, if the address lies in its range.
unfoldable pub within : ℕ → ℕ → Option BusEntry → Option (ℕ × ℕ)
within addr i none = none
within addr i (some e) = if ltb (addr - e.base) e.size then some (i, addr - e.base) else none

unfoldable pub find : Bus → ℕ → Option (ℕ × ℕ)
unfolding last_at_or_below within
find b addr = elim (last_at_or_below (binary_search addr b.entries 0)) [
  | none ↦ none
  | some i ↦ within addr i (get_elem? b.entries i)
]

-- The device that an access goes to, with the offset.
unfoldable pub target : Bus → ℕ → Option (ℕ × ℕ)
target b addr = elim (find b addr) [
  | none ↦ none
  | some (i, offset) ↦ elim (get_elem? b.entries i) [
    | none ↦ none
    | some e ↦ some (e.device, offset)
  ]
]

module _ {D : Type 0} (dev : BusDevice D) where
  abbrev pub Store : Type 0
  Store = ℕ → Option D

  abbrev put : Store → ℕ → D → Store
  put store h d k = if k == h then some d else store k

  unfoldable pub read : Bus → Store → ℕ → List ℕ → Option (Store × List ℕ)
  read b store addr buf = elim (target b addr) [
    | none ↦ none
    | some (h, offset) ↦ elim (store h) [
      | none ↦ none
      | some d ↦ let (d', buf') = dev.read d offset buf in some (put store h d', buf')
    ]
  ]

  unfoldable pub write : Bus → Store → ℕ → List ℕ → Option Store
  write b store addr buf = elim (target b addr) [
    | none ↦ none
    | some (h, offset) ↦ elim (store h) [
      | none ↦ none
      | some d ↦ some (put store h (dev.write d offset buf))
    ]
  ]
