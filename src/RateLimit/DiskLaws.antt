-- ===== src/RateLimit/DiskLaws.antt =====
-- `DiskRateLimiter::try_io` and `wait_for_io` of rate_limit/disk.rs: all or nothing, and what is
-- not.
use visor.Prelude.{
  ℕ, ◌+◌, ◌-◌, ◌*◌, ◌^◌, ◌≤◌, ◌<◌, ◌≡◌, ◌↔◌, refl, true, false, ◌⊎◌, inl, inr, Option, none, some,
  arith, leb→le, le→leb, Bool-cases,
}
use visor.RateLimit.{
  TokenBucket, nanos_per_sec, refill, force_consume, wait_for, refused, exceeds_burst,
}
use visor.RateLimit.Waiting.{Fires, Paid, wait_for-Grants}
use visor.RateLimit.Disk.{
  DiskRateLimiter, has_room, charge, try_io, wait_bucket, wait_bandwidth, wait_for_io,
}

abbrev pub refilled : Option TokenBucket → ℕ → Option TokenBucket
refilled none now = none
refilled (some b) now = some (refill b now)

-- An unlimited dimension covers every request.
abbrev pub Covers : Option TokenBucket → ℕ → Type 0
Covers none tokens = Unit {0}
Covers (some b) tokens = tokens * nanos_per_sec ≤ b.scaled_tokens

-- Exactly `tokens` go from the first bucket to give the second.
abbrev pub Pays : Option TokenBucket → ℕ → Option TokenBucket → Type 0
Pays none tokens b' = b' ≡ none
Pays (some b) tokens b' =
    (s : ℕ) × (s + tokens * nanos_per_sec ≡ b.scaled_tokens)
    × (b' ≡ some (record b { scaled_tokens = s }))

has_room-Covers :
    (b : Option TokenBucket) (tokens now : ℕ)
    → ((has_room b tokens now).0 ≡ refilled b now)
      × (((has_room b tokens now).1 ≡ true) ↔ Covers (refilled b now) tokens)
unfolding has_room
has_room-Covers none tokens now = (refl, (λ _. tt, λ _. refl))
has_room-Covers (some b) tokens now = (refl, (leb→le _ _, le→leb _ _))

charge-Pays :
    (b : Option TokenBucket) (tokens : ℕ) → Covers b tokens → Pays b tokens (charge b tokens)
unfolding charge force_consume
charge-Pays none tokens c = refl
charge-Pays (some b) tokens c = (b.scaled_tokens - tokens * nanos_per_sec, omega arith, refl)

module _ (l : DiskRateLimiter) (bytes now now' : ℕ) where
  abbrev iops : Option TokenBucket
  iops = refilled l.iops_bucket now

  abbrev bandwidth : Option TokenBucket
  bandwidth = refilled l.bandwidth_bucket now'

  -- `try_io` is atomic. It is granted exactly if both dimensions, refilled, cover the request; then
  -- each pays exactly its own cost, and otherwise neither pays anything.
  pub try_io_atomic :
      let (l', passed) = try_io l bytes now now' in
      ((passed ≡ true)
        × Covers iops 1
        × Covers bandwidth bytes
        × Pays iops 1 l'.iops_bucket
        × Pays bandwidth bytes l'.bandwidth_bucket)
      ⊎ ((passed ≡ false)
          × ¬ (Covers iops 1 × Covers bandwidth bytes)
          × (l' ≡ record { iops_bucket = iops; bandwidth_bucket = bandwidth }))
  unfolding try_io
  try_io_atomic =
      let (e, k) = has_room-Covers l.iops_bucket 1 now in
      let (e', k') = has_room-Covers l.bandwidth_bucket bytes now' in
      elim (Bool-cases (has_room l.iops_bucket 1 now).1) [
        | inr no_ops ↦ inr (rw no_ops, λ c. cc (k.1 c.0), rw (no_ops, e, e'))
        | inl ops ↦ elim (Bool-cases (has_room l.bandwidth_bucket bytes now').1) [
          | inr no_bw ↦ inr (rw (ops, no_bw), λ c. cc (k'.1 c.1), rw (ops, no_bw, e, e'))
          | inl bw ↦ inl (
            rw (ops, bw),
            k.0 ops,
            k'.0 bw,
            rw (ops, bw, e) (charge-Pays iops 1 (k.0 ops)),
            rw (ops, bw, e') (charge-Pays bandwidth bytes (k'.0 bw)),
          )
        ]
      ]

-- `wait_for_io` is not atomic: when the request can never fit the bandwidth bucket it is refused,
-- and the IOPS token that the first wait was granted stays paid.
pub wait_for_io-refused_pays :
    (timer : ℕ → ℕ → ℕ) (fires : Fires timer) (fuel : ℕ) (a b : TokenBucket) (bytes now now' : ℕ)
    → 0 < a.rate
    → a.burst < 2 ^ 64
    → 0 < a.burst
    → a.last_refill ≤ now
    → nanos_per_sec < fuel
    → b.burst < bytes
    → (a' : TokenBucket) × (wait_for_io timer fuel
          (record { iops_bucket = some a; bandwidth_bucket = some b })
          bytes
          now
          now'
        ≡ some (
          record { iops_bucket = some a'; bandwidth_bucket = some b },
          refused (exceeds_burst bytes b.burst),
        ))
      × Paid a nanos_per_sec a'
unfolding wait_for_io wait_bucket wait_bandwidth
wait_for_io-refused_pays timer fires fuel a b bytes now now' r h cap l f big =
    let (a', e, p) = wait_for-Grants timer fires fuel a 1 now r h cap l (omega arith) in
    (a', rw (e, wait_for_io, wait_bucket) (rw (refusal, wait_bucket, wait_bandwidth)), p)
  where
    refusal : wait_for timer fuel b bytes now' ≡ some (b, refused (exceeds_burst bytes b.burst))
    refusal = unfold wait_for in ground arith
