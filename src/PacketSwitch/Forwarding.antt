-- ===== src/PacketSwitch/Forwarding.antt =====
-- Which ports get a frame on the switch of net/packet.rs, and what the counters say.
use visor.Prelude.{
  ℕ, ◌+◌, ◌*◌, ◌≡◌, ◌≢◌, subst, ◌==◌, refl, sym, ap, ◌∙◌, Bool, true, false, not, ◌&&◌, List, [],
  ◌∷◌, drop, Option, none, some, Result, ok, err, length, arith, if◌then◌else◌, Bool-cases, inl,
  inr, if_both, if_cases, ite_cases,
}
use visor.Prelude.Maps
use visor.Prelude.Maps.{Map, get-insert, get-remove}
use visor.Prelude.Texts.{Text}
use mathlib.Core.Logic.{ite}
use visor.Switch.{MacAddr, mac_discrete}
use visor.PacketSwitch.{
  new, EthernetFrame, SwitchPort, PacketSwitch, PacketError, dst_mac, src_mac, is_broadcast,
  has_room, try_send, send_all, drop_frame, forward_to, forward_broadcast, forward_frame,
  register_port, unregister_port, unregister_found, has_port, ip_in_use,
}

-- Each port stands under its address.
abbrev pub Inv : PacketSwitch → Type 0
Inv s = (mac : MacAddr) (p : SwitchPort) → Maps.get mac_discrete mac s.ports ≡ some p → p.mac ≡ mac

abbrev pub if_there : (SwitchPort → SwitchPort) → Option SwitchPort → Option SwitchPort
if_there f none = none
if_there f (some p) = some (f p)

-- Whether a frame is meant for the port of an address: not for the sender's own, and for all others of a
-- broadcast or the one of the destination.
abbrev pub is_for : EthernetFrame → MacAddr → Bool
is_for f mac =
    ite (mac_discrete mac (src_mac f)) false
      (if is_broadcast f then true else ite (mac_discrete (dst_mac f) mac) true false)

send_all-get :
    (src mac : MacAddr) (frame : List ℕ) (ports : Map MacAddr SwitchPort)
    → Maps.get mac_discrete mac (send_all src frame ports).0
      ≡ ite
          (mac_discrete mac src)
          (Maps.get mac_discrete mac ports)
          (if_there (try_send frame) (Maps.get mac_discrete mac ports))
unfolding send_all Maps.get
send_all-get src mac frame [] = ground arith
send_all-get src mac frame ((other, port) ∷ rest) = elim (mac_discrete other mac) [
  | yes here ↦ rw here (ground (arith, send_all-get src mac frame rest))
  | no miss ↦ ground (arith, send_all-get src mac frame rest, miss)
]

full_port : (p : SwitchPort) (frame : List ℕ) → has_room p ≡ false → try_send frame p ≡ p
unfolding try_send
full_port p frame h = rw h refl

-- What the unicast branch does to the port of an address.
abbrev unicast : MacAddr → MacAddr → List ℕ → MacAddr → Option SwitchPort → Option SwitchPort
unicast dst src frame mac held =
    ite (mac_discrete mac src) held
      (ite (mac_discrete dst mac) (if_there (try_send frame) held) held)

kept_port :
    (s : PacketSwitch) (dst src mac : MacAddr) (frame : List ℕ) (held : Option SwitchPort)
    → Maps.get mac_discrete dst s.ports ≡ held
    → ((dst ≢ src) → if_there (try_send frame) held ≡ held)
    → Maps.get mac_discrete mac s.ports
      ≡ unicast dst src frame mac (Maps.get mac_discrete mac s.ports)
kept_port s dst src mac frame held at same =
    let now = Maps.get mac_discrete mac s.ports in
    let Q = λ (o : Option SwitchPort). now ≡ o in
    ite_cases Q (mac_discrete mac src) (λ own. refl)
      (λ other.
        ite_cases Q (mac_discrete dst mac)
          (λ here.
            let e : now ≡ held =
              ap (λ (m : MacAddr). Maps.get mac_discrete m s.ports) (sym here) ∙ at in
            e
            ∙ sym (same (λ (own : dst ≡ src). other (sym here ∙ own)))
            ∙ ap (if_there (try_send frame)) (sym e))
          (λ elsewhere. refl))

sent_port :
    (s : PacketSwitch) (dst src mac : MacAddr) (frame : List ℕ) (p : SwitchPort)
    → Maps.get mac_discrete dst s.ports ≡ some p
    → dst ≢ src
    → Maps.get mac_discrete mac (Maps.insert mac_discrete dst (try_send frame p) s.ports)
      ≡ unicast dst src frame mac (Maps.get mac_discrete mac s.ports)
sent_port s dst src mac frame p at foreign =
    let now = Maps.get mac_discrete mac s.ports in
    get-insert mac_discrete dst mac (try_send frame p) s.ports
    ∙ ite_cases (λ o. o ≡ unicast dst src frame mac now) (mac_discrete dst mac)
        (λ here.
          let e : now ≡ some p =
            ap (λ (m : MacAddr). Maps.get mac_discrete m s.ports) (sym here) ∙ at in
          ground (arith, here, e, foreign))
        (λ elsewhere. ground (arith, elsewhere))

forward_to-get :
    (s : PacketSwitch) (dst src mac : MacAddr) (frame : List ℕ) (held : Option SwitchPort)
    → Inv s
    → Maps.get mac_discrete dst s.ports ≡ held
    → Maps.get mac_discrete mac (forward_to s dst src frame held).0.ports
      ≡ unicast dst src frame mac (Maps.get mac_discrete mac s.ports)
unfolding forward_to drop_frame
forward_to-get s dst src mac frame none inv at =
    kept_port s dst src mac frame none at (λ foreign. refl)
forward_to-get s dst src mac frame (some p) inv at =
    let own : p.mac ≡ dst = inv dst p at in
    let Q = λ (r : PacketSwitch × ℕ).
      Maps.get mac_discrete mac r.0.ports
      ≡ unicast dst src frame mac (Maps.get mac_discrete mac s.ports) in
    ite_cases Q (mac_discrete p.mac src)
      (λ back.
        kept_port s dst src mac frame (some p) at (λ foreign. absurd (foreign (sym own ∙ back))))
      (λ forth.
        if_cases Q (has_room p)
          (λ room. sent_port s dst src mac frame p at (λ (e : dst ≡ src). forth (own ∙ e)))
          (λ full.
            kept_port s dst src mac frame (some p) at
              (λ foreign. ap some (full_port p frame full))))

forward-get :
    (s : PacketSwitch) (f : EthernetFrame) (mac : MacAddr)
    → Inv s
    → Maps.get mac_discrete mac (forward_frame s f).0.ports ≡ (
        if is_for f mac
        then if_there (try_send f.frame_data) (Maps.get mac_discrete mac s.ports)
        else Maps.get mac_discrete mac s.ports)
unfolding forward_frame forward_broadcast
forward-get s f mac inv = elim (Bool-cases (is_broadcast f)) [
  | inl all ↦ rw all (send_all-get (src_mac f) mac f.frame_data s.ports ∙ ground arith)
  | inr one ↦ rw one (
      forward_to-get s (dst_mac f) (src_mac f) mac f.frame_data
        (Maps.get mac_discrete (dst_mac f) s.ports) inv refl
      ∙ ground arith)
]

-- What the owner of the receiving end of a port's channel does: it takes the next frame, or drops its end.
abbrev pub take_frame : SwitchPort → SwitchPort
take_frame p = record p { queue = drop 1 p.queue }

abbrev pub hang_up : SwitchPort → SwitchPort
hang_up p = record p { queue = []; is_open = false }

abbrev pub put_port : MacAddr → SwitchPort → PacketSwitch → PacketSwitch
put_port mac p s = record s { ports = Maps.insert mac_discrete mac p s.ports }

-- The states of a switch that begins without ports, and of its channels.
pub data Reachable : PacketSwitch → Type 0 where
  started :
      (name : Text) (subnet_base subnet_prefix gateway : ℕ)
      → Reachable (new name subnet_base subnet_prefix gateway)
  registered :
      (s t : PacketSwitch) (vm_id : Text) (mac : MacAddr) (ip : ℕ)
      → Reachable s
      → register_port s vm_id mac ip ≡ ok t
      → Reachable t
  unregistered :
      (s t : PacketSwitch) (mac : MacAddr)
      → Reachable s
      → unregister_port s mac ≡ ok t
      → Reachable t
  forwarded : (s : PacketSwitch) (f : EthernetFrame) → Reachable s → Reachable (forward_frame s f).0
  received :
      (s : PacketSwitch) (mac : MacAddr) (p : SwitchPort)
      → Reachable s
      → Maps.get mac_discrete mac s.ports ≡ some p
      → Reachable (put_port mac (take_frame p) s)
  hung_up :
      (s : PacketSwitch) (mac : MacAddr) (p : SwitchPort)
      → Reachable s
      → Maps.get mac_discrete mac s.ports ≡ some p
      → Reachable (put_port mac (hang_up p) s)

new-Inv : (name : Text) (a b c : ℕ) → Inv (new name a b c)
unfolding new Maps.get
new-Inv name a b c mac p h = absurd (ground (arith, h))

abbrev OkInv : Result PacketSwitch PacketError → Type 0
OkInv (ok t) = Inv t
OkInv (err e) = Unit

-- The address of a port that may be there.
abbrev mac_of : MacAddr → Option SwitchPort → MacAddr
mac_of mac none = mac
mac_of mac (some p) = p.mac

register_port-Inv :
    (s : PacketSwitch) (vm_id : Text) (mac : MacAddr) (ip : ℕ)
    → Inv s
    → OkInv (register_port s vm_id mac ip)
unfolding register_port
register_port-Inv s vm_id mac ip inv = if_both OkInv (has_port s mac) tt (
    if_both OkInv (ip_in_use ip s.ports) tt (λ other p h.
      let e = sym (get-insert mac_discrete mac other _ s.ports) ∙ h in
      ite_cases (λ (o : Option SwitchPort). o ≡ some p → p.mac ≡ other) (mac_discrete mac other)
        (λ here g. ap (mac_of mac) (sym g) ∙ here) (λ miss g. inv other p g) e))

unregister_found-Inv :
    (s : PacketSwitch) (mac : MacAddr) (held : Option SwitchPort)
    → Inv s
    → OkInv (unregister_found s mac held)
unfolding unregister_found
unregister_found-Inv s mac none inv = tt
unregister_found-Inv s mac (some port) inv = λ other p h.
    let e = sym (get-remove mac_discrete mac other s.ports) ∙ h in
    ite_cases (λ (o : Option SwitchPort). o ≡ some p → p.mac ≡ other) (mac_discrete mac other)
      (λ here g. absurd (ground (arith, g))) (λ miss g. inv other p g) e

try_send-mac : (frame : List ℕ) (p : SwitchPort) → (try_send frame p).mac ≡ p.mac
unfolding try_send
try_send-mac frame p = ground arith

there_mac :
    (s : PacketSwitch) (mac : MacAddr) (frame : List ℕ) (p : SwitchPort)
    → Inv s
    → (held : Option SwitchPort) → Maps.get mac_discrete mac s.ports ≡ held
    → if_there (try_send frame) held ≡ some p
    → p.mac ≡ mac
there_mac s mac frame p inv none at h = absurd (ground (arith, h))
there_mac s mac frame p inv (some q) at h =
    ap (λ (o : Option SwitchPort). mac_of mac o) (sym h) ∙ try_send-mac frame q ∙ inv mac q at

forward_frame-Inv : (s : PacketSwitch) (f : EthernetFrame) → Inv s → Inv (forward_frame s f).0
forward_frame-Inv s f inv mac p h =
    let e = sym (forward-get s f mac inv) ∙ h in
    if_both (λ (o : Option SwitchPort). o ≡ some p → p.mac ≡ mac) (is_for f mac)
      (there_mac s mac f.frame_data p inv (Maps.get mac_discrete mac s.ports) refl) (inv mac p) e

put_port-Inv :
    (s : PacketSwitch) (mac : MacAddr) (p : SwitchPort)
    → Inv s
    → p.mac ≡ mac
    → Inv (put_port mac p s)
put_port-Inv s mac p inv own other q h =
    let e = sym (get-insert mac_discrete mac other p s.ports) ∙ h in
    ite_cases (λ (o : Option SwitchPort). o ≡ some q → q.mac ≡ other) (mac_discrete mac other)
      (λ here g. ap (mac_of mac) (sym g) ∙ own ∙ here) (λ miss g. inv other q g) e

Reachable-Inv : (s : PacketSwitch) → Reachable s → Inv s
unfolding unregister_port
Reachable-Inv _ (started name a b c) = new-Inv name a b c
Reachable-Inv _ (registered s t vm_id mac ip r h) =
    subst OkInv h (register_port-Inv s vm_id mac ip (Reachable-Inv s r))
Reachable-Inv _ (unregistered s t mac r h) =
    subst OkInv h
      (unregister_found-Inv s mac (Maps.get mac_discrete mac s.ports) (Reachable-Inv s r))
Reachable-Inv _ (forwarded s f r) = forward_frame-Inv s f (Reachable-Inv s r)
Reachable-Inv _ (received s mac p r at) =
    put_port-Inv s mac (take_frame p) (Reachable-Inv s r) (Reachable-Inv s r mac p at)
Reachable-Inv _ (hung_up s mac p r at) =
    put_port-Inv s mac (hang_up p) (Reachable-Inv s r) (Reachable-Inv s r mac p at)

-- The port of each address after a frame was forwarded, in every state that a switch reaches by calls, and by
-- receivers that take frames or hang up: it has the frame at the end of its queue, if the frame is for it,
-- its receiver is there and there is room, and is else as before. A frame
-- is for all ports of a broadcast, or the port of its destination, and never for the one of its source.
pub forward_frame-get :
    (s : PacketSwitch) (f : EthernetFrame) (mac : MacAddr)
    → Reachable s
    → Maps.get mac_discrete mac (forward_frame s f).0.ports ≡ (
        if is_for f mac
        then if_there (try_send f.frame_data) (Maps.get mac_discrete mac s.ports)
        else Maps.get mac_discrete mac s.ports)
forward_frame-get s f mac r = forward-get s f mac (Reachable-Inv s r)

-- What the counters say of a frame that `n` ports took.
abbrev pub Counts : PacketSwitch → EthernetFrame → PacketSwitch × ℕ → Type 0
Counts s f (t, n) =
    (t.metrics.frames_forwarded ≡ s.metrics.frames_forwarded + n)
    × (t.metrics.bytes_forwarded ≡ s.metrics.bytes_forwarded + length f.frame_data * n)
    × (t.metrics.frames_broadcast ≡ s.metrics.frames_broadcast + (if is_broadcast f then 1 else 0))
    × (t.metrics.frames_dropped
        ≡ s.metrics.frames_dropped + (if not (is_broadcast f) && n == 0 then 1 else 0))

forward_to-Counts :
    (s : PacketSwitch) (f : EthernetFrame) (dst src : MacAddr) (held : Option SwitchPort)
    → is_broadcast f ≡ false
    → Counts s f (forward_to s dst src f.frame_data held)
unfolding forward_to drop_frame
forward_to-Counts s f dst src none one = ground (arith, one)
forward_to-Counts s f dst src (some p) one = ground (arith, one)

-- The counters after a frame was forwarded: as many frames and their bytes as ports took it, one broadcast
-- for a broadcast, and one dropped frame for a frame to a single address that no port took.
pub forward_frame-Counts : (s : PacketSwitch) (f : EthernetFrame) → Counts s f (forward_frame s f)
unfolding forward_frame forward_broadcast
forward_frame-Counts s f =
    if_cases (Counts s f) (is_broadcast f) (λ all. ground (arith, all))
      (λ one.
        forward_to-Counts s f (dst_mac f) (src_mac f) (Maps.get mac_discrete (dst_mac f) s.ports)
          one)
