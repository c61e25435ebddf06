-- ===== src/Switch/Tables.antt =====
-- What the three tables of a virtual switch (net/switch.rs) say of each other, whatever is registered. A port
-- need not be found under its VM id: two ports may share one, and the later registration takes the entry.
use mathlib.Core.Logic.{ite}
use native.Mathlib.Decide.{ℕ_discrete}
use visor.Prelude.{
  ℕ, ◌≡◌, refl, List, [], ◌∷◌, Option, none, some, Result, ok, err, inl, inr, arith, Option-cases,
}
use visor.Prelude.Maps
use visor.Switch.{
  MacAddr, VmNetPort, VirtualSwitch, SwitchError, new, mac_discrete, with_port, register_port,
  unregister_port,
}
use visor.Prelude.Texts.{Text, text_discrete}

abbrev pub at_mac : VirtualSwitch → MacAddr → Option VmNetPort
at_mac s m = Maps.get mac_discrete m s.mac_table

abbrev pub at_ip : VirtualSwitch → ℕ → Option MacAddr
at_ip s i = Maps.get ℕ_discrete i s.ip_table

abbrev pub at_vm : VirtualSwitch → Text → Option MacAddr
at_vm s v = Maps.get text_discrete v s.vm_table

pub record Inv (s : VirtualSwitch) : Type 0 where
  pub keyed : (m : MacAddr) (p : VmNetPort) → at_mac s m ≡ some p → p.mac ≡ m
  pub ip_back : (m : MacAddr) (p : VmNetPort) → at_mac s m ≡ some p → at_ip s p.ip ≡ some p.mac
  pub ip_port :
      (i : ℕ) (m : MacAddr)
      → at_ip s i ≡ some m
      → (p : VmNetPort) × (at_mac s m ≡ some p) × (p.ip ≡ i)
  pub vm_port :
      (v : Text) (m : MacAddr)
      → at_vm s v ≡ some m
      → (p : VmNetPort) × (at_mac s m ≡ some p) × (p.vm_id ≡ v)

module _ (s : VirtualSwitch) (p : VmNetPort) where
  pub at_mac-with_port :
      (m : MacAddr) → at_mac (with_port s p) m ≡ ite (mac_discrete p.mac m) (some p) (at_mac s m)
  at_mac-with_port m = Maps.get-insert mac_discrete p.mac m p s.mac_table

  pub at_ip-with_port :
      (i : ℕ) → at_ip (with_port s p) i ≡ ite (ℕ_discrete p.ip i) (some p.mac) (at_ip s i)
  at_ip-with_port i = Maps.get-insert ℕ_discrete p.ip i p.mac s.ip_table

  pub at_vm-with_port :
      (v : Text) → at_vm (with_port s p) v ≡ ite (text_discrete p.vm_id v) (some p.mac) (at_vm s v)
  at_vm-with_port v = Maps.get-insert text_discrete p.vm_id v p.mac s.vm_table

new-Inv : (name : Text) (base prefix gateway : ℕ) → Inv (new name base prefix gateway)
unfolding new Maps.get
new-Inv name base prefix gateway = record {
  keyed = λ m p e. cc;
  ip_back = λ m p e. cc;
  ip_port = λ i m e. absurd (cc);
  vm_port = λ v m e. absurd (cc);
}

with_port-Inv :
    (s : VirtualSwitch) (p : VmNetPort)
    → Inv s
    → at_mac s p.mac ≡ none
    → at_ip s p.ip ≡ none
    → Inv (with_port s p)
with_port-Inv s p v free_mac free_ip = record {
  keyed = λ m q e. ground (arith, at_mac-with_port s p m, v.keyed m q);
  ip_back =
      λ m q e. ground (arith, at_mac-with_port s p m, at_ip-with_port s p q.ip, v.ip_back m q);
  ip_port = λ i m e. elim (ℕ_discrete p.ip i) [
    | yes same ↦ (p, ground (arith, at_ip-with_port s p i, at_mac-with_port s p m), same)
    | no other ↦
        let (q, f, g) = v.ip_port i m (ground (arith, at_ip-with_port s p i)) in
        (q, ground (arith, at_mac-with_port s p m), g)
  ];
  vm_port = λ w m e. elim (text_discrete p.vm_id w) [
    | yes same ↦ (p, ground (arith, at_vm-with_port s p w, at_mac-with_port s p m), same)
    | no other ↦
        let (q, f, g) = v.vm_port w m (ground (arith, at_vm-with_port s p w)) in
        (q, ground (arith, at_mac-with_port s p m), g)
  ];
}

-- What an accepted registration has found, and what it does.
pub register_port-ok :
    (s t : VirtualSwitch) (vm_id : Text) (mac : MacAddr) (ip : ℕ)
    → register_port s vm_id mac ip ≡ ok t
    → (at_mac s mac ≡ none)
      × (at_ip s ip ≡ none)
      × (t ≡ with_port s (record { vm_id = vm_id; mac = mac; ip = ip }))
unfolding register_port
register_port-ok s t vm_id mac ip e = ground arith

-- The switch without a port.
abbrev pub without_port : VirtualSwitch → MacAddr → VmNetPort → VirtualSwitch
without_port s mac port = record s {
  mac_table = Maps.remove mac_discrete mac s.mac_table;
  ip_table = Maps.remove ℕ_discrete port.ip s.ip_table;
  vm_table = Maps.remove text_discrete port.vm_id s.vm_table;
}

module _ (s : VirtualSwitch) (mac : MacAddr) (port : VmNetPort) where
  pub at_mac-without_port :
      (m : MacAddr)
      → at_mac (without_port s mac port) m ≡ ite (mac_discrete mac m) none (at_mac s m)
  at_mac-without_port m = Maps.get-remove mac_discrete mac m s.mac_table

  pub at_ip-without_port :
      (i : ℕ) → at_ip (without_port s mac port) i ≡ ite (ℕ_discrete port.ip i) none (at_ip s i)
  at_ip-without_port i = Maps.get-remove ℕ_discrete port.ip i s.ip_table

  pub at_vm-without_port :
      (v : Text)
      → at_vm (without_port s mac port) v ≡ ite (text_discrete port.vm_id v) none (at_vm s v)
  at_vm-without_port v = Maps.get-remove text_discrete port.vm_id v s.vm_table

without_port-Inv :
    (s : VirtualSwitch) (mac : MacAddr) (port : VmNetPort)
    → Inv s
    → at_mac s mac ≡ some port
    → Inv (without_port s mac port)
without_port-Inv s mac port v found = record {
  keyed = λ m q e. ground (arith, at_mac-without_port s mac port m, v.keyed m q);
  ip_back = λ m q e. ground (
    arith,
    at_mac-without_port s mac port m,
    at_ip-without_port s mac port q.ip,
    v.ip_back m q,
    v.ip_back mac port found,
    v.keyed m q,
    v.keyed mac port found,
  );
  ip_port = λ i m e.
      let (q, f, g) = v.ip_port i m (ground (arith, at_ip-without_port s mac port i)) in
      (
        q,
        ground (arith, f, g, at_ip-without_port s mac port i, at_mac-without_port s mac port m),
        g,
      );
  vm_port = λ w m e.
      let (q, f, g) = v.vm_port w m (ground (arith, at_vm-without_port s mac port w)) in
      (
        q,
        ground (arith, f, g, at_vm-without_port s mac port w, at_mac-without_port s mac port m),
        g,
      );
}

pub unregister_port-ok :
    (s t : VirtualSwitch) (mac : MacAddr)
    → unregister_port s mac ≡ ok t
    → (port : VmNetPort) × (at_mac s mac ≡ some port) × (t ≡ without_port s mac port)
unfolding unregister_port
unregister_port-ok s t mac e = elim (Option-cases (at_mac s mac)) [
  | inl absent ↦ absurd (ground (arith, absent))
  | inr (port, found) ↦ (port, found, ground (arith, found))
]

-- The calls that change a switch; one that fails leaves it as it was.
pub data Call : Type 0 where
  registers : (vm_id : Text) (mac : MacAddr) (ip : ℕ) → Call
  unregisters : (mac : MacAddr) → Call

abbrev after : VirtualSwitch → Result VirtualSwitch SwitchError → VirtualSwitch
after s (ok t) = t
after s (err e) = s

unfoldable pub step : VirtualSwitch → Call → VirtualSwitch
step s (registers vm_id mac ip) = after s (register_port s vm_id mac ip)
step s (unregisters mac) = after s (unregister_port s mac)

unfoldable pub run : VirtualSwitch → List Call → VirtualSwitch
run s [] = s
run s (c ∷ cs) = run (step s c) cs

step-Inv : (s : VirtualSwitch) (c : Call) → Inv s → Inv (step s c)
unfolding step
step-Inv s (registers vm_id mac ip) v = by_result (register_port s vm_id mac ip) refl
  where
    by_result :
        (r : Result VirtualSwitch SwitchError) → register_port s vm_id mac ip ≡ r → Inv (after s r)
    by_result (err e) same = v
    by_result (ok t) same =
        let (free_mac, free_ip, shape) = register_port-ok s t vm_id mac ip same in
        rw shape (with_port-Inv s _ v free_mac free_ip)
step-Inv s (unregisters mac) v = by_result (unregister_port s mac) refl
  where
    by_result : (r : Result VirtualSwitch SwitchError) → unregister_port s mac ≡ r → Inv (after s r)
    by_result (err e) same = v
    by_result (ok t) same =
        let (port, found, shape) = unregister_port-ok s t mac same in
        rw shape (without_port-Inv s mac port v found)

run-Inv_from : (s : VirtualSwitch) (cs : List Call) → Inv s → Inv (run s cs)
unfolding run
run-Inv_from s [] v = v
run-Inv_from s (c ∷ cs) v = run-Inv_from (step s c) cs (step-Inv s c v)

-- After any history of a switch: a port stands under its own MAC, its IP leads back
-- to it, and every entry of the IP table and of the VM table leads to a port with that IP or that id.
pub run-Inv :
    (name : Text) (base prefix gateway : ℕ) (cs : List Call)
    → Inv (run (new name base prefix gateway) cs)
run-Inv name base prefix gateway cs = run-Inv_from _ cs (new-Inv name base prefix gateway)
