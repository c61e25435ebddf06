-- ===== src/RateLimit/NetLaws.antt =====
-- `NetRateLimiter` of rate_limit/net.rs under any interleaving of receives and transmits.
use visor.Prelude.{
  ℕ, ◌+◌, ◌≡◌, refl, sym, Bool, List, [], ◌∷◌, Option, none, some, arith, if◌then◌else◌,
}
use visor.RateLimit.{TokenBucket}
use visor.RateLimit.Conservation.{consume_all}
use visor.RateLimit.Net.{NetRateLimiter, consume_or_pass, try_rx, try_tx}

-- A packet of that many bytes, at that time.
pub data Packet : Type 0 where
  received transmitted : (bytes now : ℕ) → Packet

pub record Traffic : Type 0 where
  pub limiter : NetRateLimiter
  pub rx_passed : ℕ
  pub tx_passed : ℕ

abbrev count_if : Bool → ℕ → ℕ
count_if b n = if b then n else 0

-- The packets in order, with the sums of the bytes that pass.
unfoldable pub traffic : NetRateLimiter → List Packet → Traffic
traffic l [] = record { limiter = l; rx_passed = 0; tx_passed = 0 }
traffic l (received bytes now ∷ ps) =
    let (l', passed) = try_rx l bytes now in
    let rest = traffic l' ps in record rest { rx_passed = count_if passed bytes + rest.rx_passed }
traffic l (transmitted bytes now ∷ ps) =
    let (l', passed) = try_tx l bytes now in
    let rest = traffic l' ps in record rest { tx_passed = count_if passed bytes + rest.tx_passed }

abbrev pub receives : List Packet → List (ℕ × ℕ)
receives [] = []
receives (received bytes now ∷ ps) = (bytes, now) ∷ receives ps
receives (transmitted bytes now ∷ ps) = receives ps

abbrev pub transmits : List Packet → List (ℕ × ℕ)
transmits [] = []
transmits (received bytes now ∷ ps) = transmits ps
transmits (transmitted bytes now ∷ ps) = (bytes, now) ∷ transmits ps

-- What a direction with a bucket does on its own; an unlimited one passes all.
abbrev pub alone : Option TokenBucket → List (ℕ × ℕ) → Option TokenBucket × ℕ
alone none [] = (none, 0)
alone none ((bytes, now) ∷ calls) = (none, bytes + (alone none calls).1)
alone (some b) calls = let (b', sum) = consume_all b calls in (some b', sum)

alone-step :
    (b : Option TokenBucket) (bytes now : ℕ) (calls : List (ℕ × ℕ))
    → let (b', passed) = consume_or_pass b bytes now in
      ((alone b ((bytes, now) ∷ calls)).0 ≡ (alone b' calls).0)
      × ((alone b ((bytes, now) ∷ calls)).1 ≡ count_if passed bytes + (alone b' calls).1)
unfolding consume_or_pass consume_all
alone-step none bytes now calls = ground arith
alone-step (some b) bytes now calls = (refl, refl)

alone-nil : (b : Option TokenBucket) → alone b [] ≡ (b, 0)
unfolding consume_all
alone-nil none = refl
alone-nil (some b) = refl

-- The two directions are independent: under any interleaving the bytes that pass in one direction,
-- and the bucket that is left, are those of that direction's bucket over its own packets alone.
pub traffic_independent :
    (l : NetRateLimiter) (ps : List Packet)
    → let t = traffic l ps in
      ((t.limiter.rx_bucket, t.rx_passed) ≡ alone l.rx_bucket (receives ps))
      × ((t.limiter.tx_bucket, t.tx_passed) ≡ alone l.tx_bucket (transmits ps))
unfolding traffic try_rx try_tx
traffic_independent l [] = (sym (alone-nil l.rx_bucket), sym (alone-nil l.tx_bucket))
traffic_independent l (received bytes now ∷ ps) = ground (
  arith,
  alone-step l.rx_bucket bytes now (receives ps),
  traffic_independent (try_rx l bytes now).0 ps,
)
traffic_independent l (transmitted bytes now ∷ ps) = ground (
  arith,
  alone-step l.tx_bucket bytes now (transmits ps),
  traffic_independent (try_tx l bytes now).0 ps,
)
