-- ===== src/IpAlloc.antt =====
-- crates/visor-runtime/src/net/ip_alloc.rs: the subnet allocator. An address is its u32. The
-- `BTreeSet` of offsets is a list without order; the lock is held for a whole call, so a call is a
-- function of the state, and its poisoning by a panic of another thread is not modelled.
pub mod Scan
pub mod Invariant
pub mod Release
pub mod RoundTrip
mod Tests
use visor.Prelude.{
  ℕ, zero, suc, ◌+◌, ◌-◌, ◌*◌, ◌%◌, ◌^◌, bit_and, Bool, true, false, ◌||◌, List, [], ◌∷◌, Option,
  none, some, Result, ok, err, length, leb, ltb, ◌==◌, if◌then◌else◌,
}

pub data AllocError : Type 0 where
  bad_prefix exhausted not_in_subnet network_address gateway_address broadcast_address
        not_allocated :
      AllocError

pub record AllocState : Type 0 where
  pub allocated : List ℕ
  pub next_candidate : ℕ

pub record SubnetAllocator : Type 0 where
  pub base : ℕ
  pub prefix : ℕ
  pub gateway : ℕ
  pub state : AllocState

unfoldable pub new : ℕ → ℕ → ℕ → Result SubnetAllocator AllocError
new base prefix gateway =
    if prefix == 0 || ltb 30 prefix
    then err bad_prefix
    else ok (record {
      base = base;
      prefix = prefix;
      gateway = gateway;
      state = record { allocated = []; next_candidate = 2 };
    })

-- `1u32 << (32 - self.prefix)`.
abbrev pub host_count : SubnetAllocator → ℕ
host_count a = 2 ^ (32 - a.prefix)

unfoldable pub mem : ℕ → List ℕ → Bool
mem o [] = false
mem o (x ∷ xs) = if o == x then true else mem o xs

unfoldable pub remove : ℕ → List ℕ → List ℕ
remove o [] = []
remove o (x ∷ xs) = if o == x then xs else x ∷ remove o xs

-- The next offset, back to 2 from the last one.
unfoldable pub advance : ℕ → ℕ → ℕ
advance hosts offset = if leb hosts (offset + 1) then 2 else offset + 1

unfoldable pub is_reserved : ℕ → ℕ → Bool
is_reserved hosts offset = offset == 0 || offset == 1 || offset == hosts - 1

-- The `loop` of `allocate` on fuel: the offset that it takes, or `exhausted` when it is back at
-- `start`; `none` if the fuel runs out.
unfoldable pub scan : ℕ → ℕ → List ℕ → ℕ → ℕ → Option (Result ℕ AllocError)
unfolding advance is_reserved
scan zero hosts allocated start offset = none
scan (suc fuel) hosts allocated start offset =
    let next = advance hosts offset in
    let rest = scan fuel hosts allocated start next in
    if is_reserved hosts offset
    then (if next == start then some (err exhausted) else rest)
    else (if mem offset allocated
        then (if next == start then some (err exhausted) else rest)
        else some (ok offset))

-- What `allocate` does with the offset that the loop takes: the new state, and the address.
abbrev pub allocated_at : SubnetAllocator → ℕ → SubnetAllocator × ℕ
allocated_at a offset = (
  record a {
    state = record {
      allocated = offset ∷ a.state.allocated;
      next_candidate = advance (host_count a) offset;
    };
  },
  (a.base + offset) % 2 ^ 32,
)

unfoldable pub allocate : ℕ → SubnetAllocator → Option (Result (SubnetAllocator × ℕ) AllocError)
allocate fuel a =
    elim (scan fuel (host_count a) a.state.allocated a.state.next_candidate
      a.state.next_candidate) [
        | none ↦ none
        | some (err e) ↦ some (err e)
        | some (ok offset) ↦ some (ok (allocated_at a offset))
      ]

-- `u32::MAX << (32 - self.prefix)`.
abbrev pub mask : SubnetAllocator → ℕ
mask a = ((2 ^ 32 - 1) * 2 ^ (32 - a.prefix)) % 2 ^ 32

unfoldable pub contains : SubnetAllocator → ℕ → Bool
contains a ip = bit_and ip (mask a) == bit_and a.base (mask a)

-- The u32 difference of two addresses wraps.
abbrev pub offset_of : SubnetAllocator → ℕ → ℕ
offset_of a ip = (ip + 2 ^ 32 - a.base) % 2 ^ 32

unfoldable pub release : SubnetAllocator → ℕ → Result SubnetAllocator AllocError
release a ip =
    let offset = offset_of a ip in
    let s = a.state in
    if contains a ip
    then (if offset == 0
        then err network_address
        else (if ip == a.gateway || offset == 1
            then err gateway_address
            else (if offset == host_count a - 1
                then err broadcast_address
                else (if mem offset s.allocated
                    then ok (record a {
                      state = record {
                        allocated = remove offset s.allocated;
                        next_candidate =
                            if ltb offset s.next_candidate then offset else s.next_candidate;
                      };
                    })
                    else err not_allocated))))
    else err not_in_subnet

unfoldable pub allocated_count : SubnetAllocator → ℕ
allocated_count a = length a.state.allocated

unfoldable pub available_count : SubnetAllocator → ℕ
available_count a = host_count a - 3 - length a.state.allocated
