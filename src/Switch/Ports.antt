-- ===== src/Switch/Ports.antt =====
-- What the three lookups of a virtual switch (net/switch.rs) answer.
use mathlib.Core.Logic.{ite}
use native.Mathlib.Decide.{ℕ_discrete}
use visor.Prelude.{
  ℕ, ◌/◌, ◌%◌, ◌<◌, ◌≡◌, ◌↔◌, refl, true, ◌&&◌, List, ◌∷◌, none, some, ok, inl, inr, arith,
  Option-cases, ◌==◌,
}
use visor.Prelude.Bits.{passes_below, passes_below-passes}
use visor.Switch.{
  MacAddr, VmNetPort, VirtualSwitch, mac_discrete, with_port, register_port, unregister_port,
  lookup_mac, lookup_ip, lookup_vm, local_octet, generate,
}
use visor.Prelude.Texts.{Text, text_discrete}
use visor.Switch.Tables.{
  Inv, at_mac, at_ip, at_vm, at_mac-with_port, at_ip-with_port, at_vm-with_port, without_port,
  at_mac-without_port, at_ip-without_port, at_vm-without_port, register_port-ok,
}

-- The two ways to a port agree: an IP leads to a port exactly if the port stands under its MAC and
-- has that IP.
pub lookup_ip_iff :
    (s : VirtualSwitch) (ip : ℕ) (p : VmNetPort)
    → Inv s
    → (lookup_ip s ip ≡ some p) ↔ ((lookup_mac s p.mac ≡ some p) × (p.ip ≡ ip))
unfolding lookup_ip lookup_mac
lookup_ip_iff s ip p v = (forth, back)
  where
    forth : lookup_ip s ip ≡ some p → (at_mac s p.mac ≡ some p) × (p.ip ≡ ip)
    forth e = elim (Option-cases (at_ip s ip)) [
      | inl absent ↦ absurd (ground (arith, absent))
      | inr (m, found) ↦
          let (q, f, g) = v.ip_port ip m found in ground (arith, found, f, g, v.keyed m q f)
    ]

    back : (at_mac s p.mac ≡ some p) × (p.ip ≡ ip) → lookup_ip s ip ≡ some p
    back (f, g) = ground (arith, v.ip_back p.mac p f)

-- A registration that is accepted adds its port to all three lookups, and changes no other answer.
pub lookup-register_port :
    (s t : VirtualSwitch) (vm_id : Text) (mac : MacAddr) (ip : ℕ)
    → Inv s
    → register_port s vm_id mac ip ≡ ok t
    → let p : VmNetPort = record { vm_id = vm_id; mac = mac; ip = ip } in
      ((m : MacAddr) → lookup_mac t m ≡ ite (mac_discrete mac m) (some p) (lookup_mac s m))
      × ((i : ℕ) → lookup_ip t i ≡ ite (ℕ_discrete ip i) (some p) (lookup_ip s i))
      × ((w : Text) → lookup_vm t w ≡ ite (text_discrete vm_id w) (some p) (lookup_vm s w))
unfolding lookup_mac lookup_ip lookup_vm
lookup-register_port s t vm_id mac ip v e =
    let p : VmNetPort = record { vm_id = vm_id; mac = mac; ip = ip } in
    let (free_mac, free_ip, shape) = register_port-ok s t vm_id mac ip e in
    rw shape (
      (λ m. at_mac-with_port s p m),
      (λ i. elim (Option-cases (at_ip s i)) [
        | inl absent ↦ ground (arith, absent, at_ip-with_port s p i, at_mac-with_port s p mac)
        | inr (m, found) ↦
            let (q, f, g) = v.ip_port i m found in
            ground (
              arith,
              found,
              f,
              at_ip-with_port s p i,
              at_mac-with_port s p mac,
              at_mac-with_port s p m,
            )
      ]),
      (λ w. elim (Option-cases (at_vm s w)) [
        | inl absent ↦ ground (arith, absent, at_vm-with_port s p w, at_mac-with_port s p mac)
        | inr (m, found) ↦
            let (q, f, g) = v.vm_port w m found in
            ground (
              arith,
              found,
              f,
              at_vm-with_port s p w,
              at_mac-with_port s p mac,
              at_mac-with_port s p m,
            )
      ]),
    )

-- Unregistering the port that was just registered is accepted, and gives back every answer of before,
-- if the identifier had no port.
pub unregister_port-register_port :
    (s t : VirtualSwitch) (vm_id : Text) (mac : MacAddr) (ip : ℕ)
    → Inv s
    → lookup_vm s vm_id ≡ none
    → register_port s vm_id mac ip ≡ ok t
    → (u : VirtualSwitch) × (unregister_port t mac ≡ ok u)
      × ((m : MacAddr) → lookup_mac u m ≡ lookup_mac s m)
      × ((i : ℕ) → lookup_ip u i ≡ lookup_ip s i)
      × ((w : Text) → lookup_vm u w ≡ lookup_vm s w)
unfolding lookup_mac lookup_ip lookup_vm unregister_port
unregister_port-register_port s t vm_id mac ip v fresh e =
    let (free_mac, free_ip, shape) = register_port-ok s t vm_id mac ip e in
    (
      u,
      rw shape (ground (arith, at_mac-with_port s p mac)),
      same_mac free_mac,
      (λ i. elim (Option-cases (at_ip s i)) [
        | inl absent ↦ ground (arith, absent, at_ip-without_port t' mac p i, at_ip-with_port s p i)
        | inr (m, found) ↦
            let m_same = same_mac free_mac m in
            ground
              (arith, found, free_ip, m_same, at_ip-without_port t' mac p i, at_ip-with_port s p i)
      ]),
      (λ w. elim (Option-cases (at_vm s w)) [
        | inl absent ↦ ground (arith, absent, at_vm-without_port t' mac p w, at_vm-with_port s p w)
        | inr (m, found) ↦
            let (q, f, g) = v.vm_port w m found in
            let m_same = same_mac free_mac m in
            elim (text_discrete vm_id w) [
              | yes hit ↦ absurd (ground (arith, hit, fresh, f, found))
              | no miss ↦
                  ground
                    (arith, found, m_same, at_vm-without_port t' mac p w, at_vm-with_port s p w)
            ]
      ]),
    )
  where
    p : VmNetPort
    p = record { vm_id = vm_id; mac = mac; ip = ip }

    t' : VirtualSwitch
    t' = with_port s p

    u : VirtualSwitch
    u = without_port t' mac p

    same_mac : at_mac s mac ≡ none → (m : MacAddr) → at_mac u m ≡ at_mac s m
    same_mac free m = ground (arith, at_mac-without_port t' mac p m, at_mac-with_port s p m)

-- The identifier is not checked: two ports may be registered under one, and when the first is
-- unregistered the second is lost to `lookup_vm`, though it still stands under its MAC.
pub lookup_vm-shared_id :
    (s t u : VirtualSwitch) (vm_id : Text) (mac mac' : MacAddr) (ip ip' : ℕ)
    → register_port s vm_id mac ip ≡ ok t
    → register_port t vm_id mac' ip' ≡ ok u
    → (w : VirtualSwitch) × (unregister_port u mac ≡ ok w)
      × (lookup_vm w vm_id ≡ none)
      × (lookup_mac w mac' ≡ some (record { vm_id = vm_id; mac = mac'; ip = ip' }))
unfolding lookup_mac lookup_vm unregister_port
lookup_vm-shared_id s t u vm_id mac mac' ip ip' e e' =
    let (free, _, shape) = register_port-ok s t vm_id mac ip e in
    let (free', _, shape') = register_port-ok t u vm_id mac' ip' e' in
    let there : at_mac t mac ≡ some p = rw shape (ground (arith, at_mac-with_port s p mac)) in
    let still : at_mac u mac ≡ some p =
      rw shape' (ground (arith, there, free', at_mac-with_port t p' mac)) in
    (
      without_port u mac p,
      ground (arith, still),
      ground (arith, at_vm-without_port u mac p vm_id),
      ground (
        arith,
        there,
        free',
        shape',
        at_mac-without_port u mac p mac',
        at_mac-with_port t p' mac',
      ),
    )
  where
    p : VmNetPort
    p = record { vm_id = vm_id; mac = mac; ip = ip }

    p' : VmNetPort
    p' = record { vm_id = vm_id; mac = mac'; ip = ip' }

local_octet_table :
    passes_below
      (λ x. (local_octet x % 2 == 0) && (local_octet x / 2 % 2 == 1) && (local_octet x / 256 == 0))
      256
    ≡ true
unfolding passes_below local_octet
local_octet_table = refl

-- A generated MAC is a unicast address and locally administered, whatever the hash is.
pub generate_local :
    (hash : ℕ)
    → (first : ℕ) × (rest : List ℕ) × ((generate hash).octets ≡ first ∷ rest)
      × (first % 2 ≡ 0)
      × (first / 2 % 2 ≡ 1)
      × (first < 256)
unfolding generate
generate_local hash =
    let h = passes_below-passes _ 256 local_octet_table (hash % 256) (omega arith) in
    (local_octet (hash % 256), _, refl, ground (arith, h), ground (arith, h), ground (arith, h))
