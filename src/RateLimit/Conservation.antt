-- ===== src/RateLimit/Conservation.antt =====
-- What a token bucket lets through: rate_limit/mod.rs, over any sequence of calls.
use visor.Prelude.{ℕ, ◌+◌, ◌-◌, ◌*◌, ◌≤◌, ◌≡◌, refl, ap, List, [], ◌∷◌, All, arith, if◌then◌else◌}
use visor.RateLimit.{TokenBucket, nanos_per_sec, new, refill, consume}

-- The calls of `consume` in order, each with the time that it reads; the sum of the granted tokens.
unfoldable pub consume_all : TokenBucket → List (ℕ × ℕ) → TokenBucket × ℕ
consume_all b [] = (b, 0)
consume_all b ((tokens, now) ∷ calls) =
    let (b', granted) = consume b tokens now in
    let (b'', sum) = consume_all b' calls in (b'', (if granted then tokens else 0) + sum)

-- The tokens that time makes, up to the time of the last refill.
abbrev pub earned : TokenBucket → ℕ
earned b = b.rate * b.last_refill

pub record Kept (b c : TokenBucket) : Type 0 where
  pub rate_kept : c.rate ≡ b.rate
  pub burst_kept : c.burst ≡ b.burst
  pub later : b.last_refill ≤ c.last_refill

-- A refill adds at most what the time since the last one has made.
pub refill-earned :
    (b : TokenBucket) (now : ℕ)
    → Kept b (refill b now)
      × ((refill b now).scaled_tokens + earned b
          ≤ b.scaled_tokens + b.rate * (refill b now).last_refill)
unfolding refill
refill-earned b now =
    ground
      (arith, λ (h : b.last_refill ≤ now). ap (λ (t : ℕ). b.rate * t) (the_sum b.last_refill now h))
  where
    the_sum : (l n : ℕ) → l ≤ n → n ≡ l + (n - l)
    the_sum l n h = omega arith

-- One call: what it grants is paid from the bucket.
consume-earned :
    (b : TokenBucket) (tokens now : ℕ)
    → let (b', granted) = consume b tokens now in
      Kept b b'
      × ((if granted then tokens else 0) * nanos_per_sec + b'.scaled_tokens + earned b
          ≤ b.scaled_tokens + b.rate * b'.last_refill)
unfolding consume
consume-earned b tokens now = ground (arith, refill-earned b now)

consume-last_refill_le :
    (b : TokenBucket) (tokens now T : ℕ)
    → b.last_refill ≤ T
    → now ≤ T
    → (consume b tokens now).0.last_refill ≤ T
unfolding consume refill
consume-last_refill_le b tokens now T h k = ground arith

consume_all-earned :
    (b : TokenBucket) (calls : List (ℕ × ℕ))
    → let (b', sum) = consume_all b calls in
      Kept b b'
      × (sum * nanos_per_sec + b'.scaled_tokens + earned b
          ≤ b.scaled_tokens + b.rate * b'.last_refill)
unfolding consume_all
consume_all-earned b [] =
    (record { rate_kept = refl; burst_kept = refl; later = omega arith }, omega arith)
consume_all-earned b ((tokens, now) ∷ calls) =
    let one = consume-earned b tokens now in
    let more = consume_all-earned (consume b tokens now).0 calls in
    ground (
      arith,
      one,
      more,
      ap (λ (r : ℕ). r * (consume b tokens now).0.last_refill) one.0.rate_kept,
      ap (λ (r : ℕ). r * (consume_all (consume b tokens now).0 calls).0.last_refill)
          one.0.rate_kept,
    )

consume_all-last_refill_le :
    (b : TokenBucket) (calls : List (ℕ × ℕ)) (T : ℕ)
    → b.last_refill ≤ T
    → All (λ c. c.1 ≤ T) calls
    → (consume_all b calls).0.last_refill ≤ T
unfolding consume_all
consume_all-last_refill_le b [] T h k = h
consume_all-last_refill_le b ((tokens, now) ∷ calls) T h k =
    consume_all-last_refill_le (consume b tokens now).0 calls T
      (consume-last_refill_le b tokens now T h k.0) k.1

-- The rate limit. Whatever calls a client makes, and in whatever order the clock is read, the tokens
-- that a new bucket grants up to a time T are at most its burst and what the rate makes from its
-- creation to T (in nano-tokens).
pub consume_all-le-burst_and_rate :
    (rate burst start T : ℕ) (calls : List (ℕ × ℕ))
    → start ≤ T
    → All (λ c. c.1 ≤ T) calls
    → (consume_all (new rate burst start) calls).1 * nanos_per_sec
      ≤ burst * nanos_per_sec + rate * (T - start)
unfolding new
consume_all-le-burst_and_rate rate burst start T calls h k =
    let b = new rate burst start in
    let last = (consume_all b calls).0.last_refill in
    let before = consume_all-last_refill_le b calls T h k in
    omega (
      arith,
      consume_all-earned b calls,
      mul_mono rate last T before,
      ap (λ (t : ℕ). rate * t) (the_sum start T h),
    )
  where
    the_sum : (l n : ℕ) → l ≤ n → n ≡ l + (n - l)
    the_sum l n h = omega arith

    mul_mono : (r a b : ℕ) → a ≤ b → r * a ≤ r * b
    mul_mono r a b h = grind arith
