-- ===== src/RateLimit/Waiting.antt =====
-- `TokenBucket::refill` and `wait_for` of rate_limit/mod.rs: polling and waiting.
use visor.Prelude.{
  ℕ, zero, suc, ◌+◌, ◌-◌, ◌*◌, ◌^◌, ◌≤◌, ◌<◌, ◌≡◌, refl, ap, false, ◌⊎◌, inl, inr, Option, some,
  arith, leb, leb→le, ltb, ◌==◌, Bool-cases,
}
use visor.RateLimit.Conservation.{Kept, earned, refill-earned}
use visor.RateLimit.{
  TokenBucket, nanos_per_sec, refill, wait_loop, wait_for, sleep_nanos, Waited, granted, panicked,
}

mul_mono : (r a b : ℕ) → a ≤ b → a * r ≤ b * r
mul_mono r a b h = grind arith

-- How often a bucket is polled does not change what it holds: a refill at an earlier time and one
-- at a later time leave what the later one alone does, with no rounding and no loss by the cap or by
-- the saturating u128 arithmetic, for a burst that is a u64.
pub refill-refill :
    (b : TokenBucket) (t u : ℕ) → b.burst < 2 ^ 64 → t ≤ u → refill (refill b t) u ≡ refill b u
unfolding refill
refill-refill b t u h k =
    ground (arith, λ (g : b.last_refill ≤ t). splits b.last_refill t u b.rate g k)
  where
    splits : (l t u r : ℕ) → l ≤ t → t ≤ u → (u - l) * r ≡ (t - l) * r + (u - t) * r
    splits l t u r g k = let e : u - l ≡ (t - l) + (u - t) = omega arith in rw e (omega arith)

-- A timer never fires before its time, and never at the instant at which it was set.
abbrev pub Fires : (ℕ → ℕ → ℕ) → Type 0
Fires timer = (t d : ℕ) → (t + d ≤ timer t d) × (t < timer t d)

refill-gains :
    (b : TokenBucket) (now : ℕ)
    → 0 < b.rate
    → b.last_refill < now
    → b.burst < 2 ^ 64
    → (b.burst * nanos_per_sec ≤ (refill b now).scaled_tokens)
      ⊎ (b.scaled_tokens < (refill b now).scaled_tokens)
unfolding refill
refill-gains b now r l h = ground (arith, product b.rate (now - b.last_refill) r)
  where
    product : (a b : ℕ) → 0 < a → 0 < b → 0 < b * a
    product a b h k = grind arith

refill_keeps :
    (b : TokenBucket) (now : ℕ)
    → b.last_refill ≤ now
    → ((refill b now).last_refill ≡ now)
      × ((refill b now).rate ≡ b.rate)
      × ((refill b now).burst ≡ b.burst)
unfolding refill
refill_keeps b now h = ground arith

-- The bucket `b'` is what `b` becomes when `needed` nano-tokens are paid from it.
pub record Paid (b : TokenBucket) (needed : ℕ) (b' : TokenBucket) : Type 0 where
  pub kept : Kept b b'
  pub paid : needed + b'.scaled_tokens + earned b ≤ b.scaled_tokens + b.rate * b'.last_refill

Paid-after_refill :
    (b : TokenBucket) (now needed : ℕ) (b' : TokenBucket)
    → Paid (refill b now) needed b'
    → Paid b needed b'
Paid-after_refill b now needed b' p = ground (
  arith,
  refill-earned b now,
  ap (λ (r : ℕ). r * b'.last_refill) (refill-earned b now).0.rate_kept,
  ap (λ (r : ℕ). r * (refill b now).last_refill) (refill-earned b now).0.rate_kept,
)

Paid-now :
    (b : TokenBucket) (needed : ℕ)
    → needed ≤ b.scaled_tokens
    → Paid b needed (record b { scaled_tokens = b.scaled_tokens - needed })
Paid-now b needed h = ground arith

abbrev pub Grants : TokenBucket → ℕ → Option (TokenBucket × Waited) → Type 0
Grants b needed r = (b' : TokenBucket) × (r ≡ some (b', granted)) × Paid b needed b'

Kept-self : (b : TokenBucket) → Kept b b
Kept-self b = record { rate_kept = refl; burst_kept = refl; later = omega arith }

module _ (timer : ℕ → ℕ → ℕ) (fires : Fires timer) where
  wait_loop-Grants :
      (fuel : ℕ) (b : TokenBucket) (needed now : ℕ)
      → 0 < b.rate
      → b.burst < 2 ^ 64
      → needed ≤ b.burst * nanos_per_sec
      → b.last_refill ≤ now
      → 0 < fuel
      → needed < fuel + (refill b now).scaled_tokens
      → Grants b needed (wait_loop timer fuel b needed now)
  unfolding wait_loop
  wait_loop-Grants zero b needed now r h cap l k f = absurd (omega arith)
  wait_loop-Grants (suc fuel) b needed now r h cap l k f =
      elim (Bool-cases (leb needed b₁.scaled_tokens)) [
        | inl enough ↦ (
          record b₁ { scaled_tokens = b₁.scaled_tokens - needed },
          rw enough,
          Paid-after_refill b now needed _ (Paid-now b₁ needed (leb→le _ _ enough)),
        )
        | inr short ↦
            let keeps = refill_keeps b now l in
            let later = fires now (sleep_nanos b₁ needed) in
            let next = timer now (sleep_nanos b₁ needed) in
            let gains = refill-gains b₁ next (omega arith) (omega arith) (omega arith) in
            let (b', e, p) =
              wait_loop-Grants fuel b₁ needed next (omega arith) (omega arith) (ground arith)
                (omega arith) (ground arith) (ground (arith, gains)) in
            (b', rw short (ground (arith, e)), Paid-after_refill b now needed b' p)
      ]
    where
      b₁ : TokenBucket
      b₁ = refill b now

  -- `wait_for` returns: at a positive rate, a request within the burst is granted after at most
  -- `tokens * 10^9` rounds, if the timer fires as it should, and the tokens are paid from the bucket.
  pub wait_for-Grants :
      (fuel : ℕ) (b : TokenBucket) (tokens now : ℕ)
      → 0 < b.rate
      → b.burst < 2 ^ 64
      → tokens ≤ b.burst
      → b.last_refill ≤ now
      → tokens * nanos_per_sec < fuel
      → Grants b (tokens * nanos_per_sec) (wait_for timer fuel b tokens now)
  unfolding wait_for
  wait_for-Grants fuel b tokens now r h cap l f = elim (Bool-cases (tokens == 0)) [
    | inl zero_tokens ↦ (b, rw zero_tokens, record { kept = Kept-self b; paid = ground arith })
    | inr some_tokens ↦
        let fits : ltb b.burst tokens ≡ false = ground arith in
        let (b', e, p) =
          wait_loop-Grants fuel b (tokens * nanos_per_sec) now r h (omega arith) l (omega arith)
            (omega arith) in
        (b', rw (some_tokens, fits) e, p)
  ]

-- A bucket of rate 0 never fills, and waiting on it divides by zero: a request within the burst
-- that the bucket does not cover panics in the first round.
pub wait_for-zero_rate_panics :
    (timer : ℕ → ℕ → ℕ) (fuel : ℕ) (b : TokenBucket) (tokens now : ℕ)
    → b.rate ≡ 0
    → tokens ≤ b.burst
    → b.scaled_tokens < tokens * nanos_per_sec
    → wait_for timer (suc fuel) b tokens now ≡ some (refill b now, panicked)
unfolding wait_for wait_loop refill
wait_for-zero_rate_panics timer fuel b tokens now r cap short =
    ground (arith, ap (λ (t : ℕ). (now - b.last_refill) * t) r)
