-- ===== src/Dns/Tests.antt =====
-- Runs of net/dns.rs with the lower case of ASCII letters.
use visor.Prelude.{◌+◌, ◌≡◌, refl, ◌&&◌, List, [], ◌∷◌, ◌++◌, none, some, map, leb, if◌then◌else◌}
use visor.Prelude.Maps
use visor.Prelude.Texts.{Text, text_discrete}
use native.Mathlib.Decide.{ℕ_discrete}
use visor.Dns.{new, register, unregister, resolve, reverse_lookup, without}
use visor.Dns.Laws.{DnsOp, op_register, op_unregister, apply, run, reverse-forward}

abbrev ascii_lower : Text → Text
ascii_lower = map (λ c. if leb b'A' c && leb c b'Z' then c + 32 else c)

abbrev two_names : List DnsOp
two_names = op_register (b'A' ∷ []) 7 ∷ op_register (b'b' ∷ []) 7 ∷ []

-- Two names share an address; when the first goes, the address has no name any more.
shared_address :
    (resolve ascii_lower
        (run ascii_lower new (two_names ++ (op_unregister (b'a' ∷ []) ∷ [])))
        (b'B' ∷ [])
      ≡ some 7)
    × (reverse_lookup (run ascii_lower new (two_names ++ (op_unregister (b'a' ∷ []) ∷ []))) 7
        ≡ none)
unfolding run apply new register unregister resolve reverse_lookup without Maps.get Maps.insert
    Maps.remove text_discrete ℕ_discrete
shared_address = (refl, refl)

reverse_found : reverse_lookup (run ascii_lower new two_names) 7 ≡ some (b'b' ∷ [])
unfolding run apply new register unregister resolve reverse_lookup without Maps.get Maps.insert
    Maps.remove text_discrete ℕ_discrete
reverse_found = refl

reverse-forward_example :
    Maps.get text_discrete (b'b' ∷ []) (run ascii_lower new two_names).forward ≡ some 7
reverse-forward_example = reverse-forward ascii_lower two_names 7 (b'b' ∷ []) reverse_found
