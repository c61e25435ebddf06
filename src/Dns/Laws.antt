-- ===== src/Dns/Laws.antt =====
-- The two tables of the registry of net/dns.rs.
use native.Mathlib.Decide.{ℕ_discrete}
use visor.Prelude.{ℕ, ◌≡◌, ◌≢◌, sym, ap, ◌∙◌, List, [], ◌∷◌, Option, none, some, arith}
use visor.Prelude.Maps
use visor.Prelude.Maps.{Map, get-insert, get-remove}
use visor.Prelude.Texts.{Text, text_discrete}
use mathlib.Core.Logic.{ite}
use visor.Dns.{DnsRegistry, new, without, register, unregister, resolve, reverse_lookup}

pub data DnsOp : Type 0 where
  op_register : Text → ℕ → DnsOp
  op_unregister : Text → DnsOp

get-without-some :
    (old : Option ℕ) (ip : ℕ) (m : Map ℕ Text) (name : Text)
    → Maps.get ℕ_discrete ip (without old m) ≡ some name
    → (old ≢ some ip) × (Maps.get ℕ_discrete ip m ≡ some name)
unfolding without
get-without-some none ip m name h = (ground arith, h)
get-without-some (some o) ip m name h =
    let e = sym (get-remove ℕ_discrete o ip m) ∙ h in ground (arith, e)

module _ (to_lowercase : Text → Text) where
  unfoldable pub apply : DnsRegistry → DnsOp → DnsRegistry
  apply r (op_register name ip) = register to_lowercase r name ip
  apply r (op_unregister name) = unregister to_lowercase r name

  unfoldable pub run : DnsRegistry → List DnsOp → DnsRegistry
  run r [] = r
  run r (op ∷ ops) = run (apply r op) ops

  -- The name that an address has resolves to the address.
  abbrev pub Inv : DnsRegistry → Type 0
  Inv r =
      (ip : ℕ) (name : Text)
      → Maps.get ℕ_discrete ip r.reverse ≡ some name
      → Maps.get text_discrete name r.forward ≡ some ip

  -- A reverse entry that survives is not that of the name.
  survives :
      (r : DnsRegistry) (lower : Text) (ip : ℕ) (found : Text)
      → Inv r
      → Maps.get ℕ_discrete ip (without (Maps.get text_discrete lower r.forward) r.reverse)
        ≡ some found
      → (lower ≢ found) × (Maps.get text_discrete found r.forward ≡ some ip)
  survives r lower ip found inv h =
      let (other, at) =
        get-without-some (Maps.get text_discrete lower r.forward) ip r.reverse found h in
      let resolves = inv ip found at in
      (
        (λ (e : lower ≡ found).
            other (ap (λ (n : Text). Maps.get text_discrete n r.forward) e ∙ resolves)),
        resolves,
      )

  register-Inv :
      (r : DnsRegistry) (name : Text) (ip : ℕ) → Inv r → Inv (register to_lowercase r name ip)
  unfolding register
  register-Inv r name ip inv at_ip found h =
      let lower = to_lowercase name in
      let rest = without (Maps.get text_discrete lower r.forward) r.reverse in
      let e = sym (get-insert ℕ_discrete ip at_ip lower rest) ∙ h in
      rw (get-insert text_discrete lower found ip r.forward) (elim (ℕ_discrete ip at_ip) [
        | yes here ↦ ground (arith, e, here)
        | no there ↦
            (let (other, resolves) = survives r lower at_ip found inv (ground (arith, e, there)) in
              ground (arith, other, resolves))
      ])

  unregister-Inv : (r : DnsRegistry) (name : Text) → Inv r → Inv (unregister to_lowercase r name)
  unfolding unregister
  unregister-Inv r name inv at_ip found h =
      let lower = to_lowercase name in
      let (other, resolves) = survives r lower at_ip found inv h in
      rw (get-remove text_discrete lower found r.forward) (ground (arith, other, resolves))

  run-Inv : (r : DnsRegistry) (ops : List DnsOp) → Inv r → Inv (run r ops)
  unfolding run apply
  run-Inv r [] h = h
  run-Inv r (op_register name ip ∷ ops) h =
      run-Inv (register to_lowercase r name ip) ops (register-Inv r name ip h)
  run-Inv r (op_unregister name ∷ ops) h =
      run-Inv (unregister to_lowercase r name) ops (unregister-Inv r name h)

  new-Inv : Inv new
  unfolding new Maps.get
  new-Inv ip found h = absurd (ground (arith, h))

  -- After any registrations and removals from the empty registry, the name that the reverse lookup gives for
  -- an address is one whose forward entry is that address.
  pub reverse-forward :
      (ops : List DnsOp) (ip : ℕ) (name : Text)
      → reverse_lookup (run new ops) ip ≡ some name
      → Maps.get text_discrete name (run new ops).forward ≡ some ip
  unfolding reverse_lookup
  reverse-forward ops ip name h = run-Inv new ops new-Inv ip name h

  -- A registration changes what its name resolves to, in any case, and a removal leaves the name without an
  -- address; every other name resolves as before.
  pub resolve-register :
      (r : DnsRegistry) (name other : Text) (ip : ℕ)
      → (resolve to_lowercase (register to_lowercase r name ip) other
          ≡ ite
              (text_discrete (to_lowercase name) (to_lowercase other))
              (some ip)
              (resolve to_lowercase r other))
        × (resolve to_lowercase (unregister to_lowercase r name) other
            ≡ ite
                (text_discrete (to_lowercase name) (to_lowercase other))
                none
                (resolve to_lowercase r other))
  unfolding resolve register unregister
  resolve-register r name other ip = (
    get-insert text_discrete (to_lowercase name) (to_lowercase other) ip r.forward,
    get-remove text_discrete (to_lowercase name) (to_lowercase other) r.forward,
  )
