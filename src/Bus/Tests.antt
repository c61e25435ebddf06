-- ===== src/Bus/Tests.antt =====
-- The bus of devices/bus.rs at concrete inputs.
use visor.Prelude.{
  ℕ, ◌+◌, ◌-◌, ◌^◌, ◌≤◌, ◌<◌, ◌≡◌, ◌≢◌, ◌↔◌, refl, [], ◌∷◌, none, some, ok, err, arith,
  if◌then◌else◌, ◌==◌,
}
use visor.Bus.{
  Bus, BusEntry, BusDevice, overlap, register, find, target, write, binary_search, insert,
  any_overlap, ranges_overlap, within, last_at_or_below,
}
use visor.Bus.Layout.{IsLaidOut}
use visor.Bus.Routing.{owner, target-owner, register-refuses_iff}

abbrev serial : BusEntry
serial = record { base = 0x3f8; size = 8; device = 0 }

abbrev virtio : BusEntry
virtio = record { base = 0xd000_0000; size = 0x1000; device = 1 }

abbrev two : Bus
two = record { entries = serial ∷ virtio ∷ [] }

abbrev three : Bus
three = record { entries = serial ∷ record { base = 0x1000; size = 16; device = 2 } ∷ virtio ∷ [] }

two-IsLaidOut : IsLaidOut two
two-IsLaidOut = omega arith

registered : register two 0x1000 16 2 ≡ ok three
unfolding register any_overlap ranges_overlap binary_search insert
registered = refl

-- A device that adds up what is written to it.
abbrev adder : BusDevice ℕ
adder = record { read = λ d offset buf. (d, d ∷ []); write = λ d offset buf. d + offset }

routed :
    write adder two (λ h. some h) 0x3fd (7 ∷ []) ≡ some (λ k. if k == 0 then some 5 else some k)
unfolding write target find binary_search within last_at_or_below
routed = refl

target-owner_example : target two 0xd000_0004 ≡ owner 0xd000_0004 (serial ∷ virtio ∷ [])
target-owner_example = target-owner two 0xd000_0004 two-IsLaidOut

register-refuses_iff_example :
    (register two 0x3fc 8 2 ≡ err (overlap 0x3fc 8))
    ↔ ((addr : ℕ) × (0x3fc ≤ addr) × (addr < 0x3fc + 8) × (target two addr ≢ none))
register-refuses_iff_example =
    register-refuses_iff two 0x3fc 8 2 two-IsLaidOut (omega arith) (omega arith)

abbrev top_page : BusEntry
top_page = record { base = 2 ^ 64 - 4096; size = 4096; device = 0 }

abbrev over_it : BusEntry
over_it = record { base = 2 ^ 64 - 4096; size = 16; device = 1 }
