-- ===== src/Dns.antt =====
-- crates/visor-runtime/src/net/dns.rs: the registry of the names of VMs. A text is the list of its bytes
-- and an address its u32. `to_lowercase` of the standard library goes by the Unicode tables: it is an
-- argument.
pub mod Laws
mod Tests
use native.Mathlib.Decide.{ℕ_discrete}
use visor.Prelude.{ℕ, List, [], ◌∷◌, ◌++◌, Option, none, some, length}
use visor.Prelude.Maps
use visor.Prelude.Maps.{Map}
use visor.Prelude.Texts.{Text, text_discrete}

pub record DnsRegistry : Type 0 where
  pub forward : Map Text ℕ
  pub reverse : Map ℕ Text

unfoldable pub new : DnsRegistry
new = record { forward = []; reverse = [] }

-- The reverse entries without that of an address, if there is one.
unfoldable pub without : Option ℕ → Map ℕ Text → Map ℕ Text
without none reverse = reverse
without (some old_ip) reverse = Maps.remove ℕ_discrete old_ip reverse

module _ (to_lowercase : Text → Text) where
  unfoldable pub register : DnsRegistry → Text → ℕ → DnsRegistry
  register r name ip =
      let lower = to_lowercase name in
      record {
        forward = Maps.insert text_discrete lower ip r.forward;
        reverse =
            Maps.insert ℕ_discrete ip lower
              (without (Maps.get text_discrete lower r.forward) r.reverse);
      }

  unfoldable pub unregister : DnsRegistry → Text → DnsRegistry
  unregister r name =
      let lower = to_lowercase name in
      record {
        forward = Maps.remove text_discrete lower r.forward;
        reverse = without (Maps.get text_discrete lower r.forward) r.reverse;
      }

  unfoldable pub resolve : DnsRegistry → Text → Option ℕ
  resolve r name = Maps.get text_discrete (to_lowercase name) r.forward

unfoldable pub reverse_lookup : DnsRegistry → ℕ → Option Text
reverse_lookup r ip = Maps.get ℕ_discrete ip r.reverse

unfoldable pub count : DnsRegistry → ℕ
count r = length r.forward

pub record DnsResolverConfig : Type 0 where
  pub listen_ip : ℕ
  pub listen_port : ℕ
  pub upstream_servers : List ℕ

-- With the server 8.8.8.8.
unfoldable pub new_config : ℕ → DnsResolverConfig
new_config listen_ip = record {
  listen_ip = listen_ip;
  listen_port = 53;
  upstream_servers = 0x08080808 ∷ [];
}

unfoldable pub with_port : DnsResolverConfig → ℕ → DnsResolverConfig
with_port c port = record c { listen_port = port }

unfoldable pub with_upstream : DnsResolverConfig → ℕ → DnsResolverConfig
with_upstream c server = record c { upstream_servers = c.upstream_servers ++ server ∷ [] }
