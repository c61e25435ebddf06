-- ===== src/RateLimit.antt =====
-- crates/visor-vmm/src/rate_limit/mod.rs: the token bucket, in nanosecond-scaled tokens.
-- `Instant::now()` is an argument of each call, in nanoseconds; `duration_since` is 0 for a time in
-- the past, as the truncated `-` is. The u128 products `u64 * 10^9` cannot overflow.
pub mod Disk
pub mod Net
pub mod Conservation
pub mod Waiting
pub mod DiskLaws
pub mod NetLaws
mod Tests
use visor.Prelude.{
  ℕ, zero, suc, ◌+◌, ◌-◌, ◌*◌, ◌/◌, ◌^◌, min, Bool, true, false, Option, none, some, ltb, leb, ◌==◌,
  if◌then◌else◌,
}

abbrev pub nanos_per_sec : ℕ
nanos_per_sec = 1_000_000_000

abbrev pub u128_max : ℕ
u128_max = 2 ^ 128 - 1

abbrev pub saturating_add : ℕ → ℕ → ℕ
saturating_add a b = min (a + b) u128_max

abbrev pub saturating_mul : ℕ → ℕ → ℕ
saturating_mul a b = min (a * b) u128_max

pub data RateLimitError : Type 0 where
  exceeds_burst : (requested capacity : ℕ) → RateLimitError

pub record TokenBucket : Type 0 where
  pub rate : ℕ
  pub burst : ℕ
  pub scaled_tokens : ℕ
  pub last_refill : ℕ

unfoldable pub new : ℕ → ℕ → ℕ → TokenBucket
new rate burst now = record {
  rate = rate;
  burst = burst;
  scaled_tokens = burst * nanos_per_sec;
  last_refill = now;
}

unfoldable pub refill : TokenBucket → ℕ → TokenBucket
refill b now =
    let elapsed_nanos = now - b.last_refill in
    let new_scaled = saturating_mul elapsed_nanos b.rate in
    let max_scaled = b.burst * nanos_per_sec in
    if elapsed_nanos == 0 then b else (record b {
      scaled_tokens = min (saturating_add b.scaled_tokens new_scaled) max_scaled;
      last_refill = now;
    })

-- The `if self.scaled_tokens >= needed` of `consume`, after the refill.
unfoldable pub take_tokens : TokenBucket → ℕ → TokenBucket × Bool
take_tokens b needed =
    if leb needed b.scaled_tokens
    then (record b { scaled_tokens = b.scaled_tokens - needed }, true)
    else (b, false)

unfoldable pub consume : TokenBucket → ℕ → ℕ → TokenBucket × Bool
unfolding take_tokens
consume b tokens now =
    if tokens == 0 then (b, true) else take_tokens (refill b now) (tokens * nanos_per_sec)

-- How `wait_for` ends: `Ok(())`, an error, or the panic of a division by a zero rate.
pub data Waited : Type 0 where
  granted : Waited
  refused : RateLimitError → Waited
  panicked : Waited

-- The sleep of one round that found `scaled_tokens` below `needed`, at a rate that is not 0.
unfoldable pub sleep_nanos : TokenBucket → ℕ → ℕ
sleep_nanos b needed = min ((needed - b.scaled_tokens) / b.rate) nanos_per_sec

-- `timer t d` is the time that `Instant::now()` reads after a sleep of `d` that began at `t`.
module _ (timer : ℕ → ℕ → ℕ) where
  -- The `loop` of `wait_for`, on fuel: the result with the bucket and the time, or `none`.
  unfoldable pub wait_loop : ℕ → TokenBucket → ℕ → ℕ → Option (TokenBucket × Waited)
  wait_loop zero b needed now = none
  wait_loop (suc fuel) b needed now =
      let r = refill b now in
      let rest = wait_loop fuel r needed (timer now (sleep_nanos r needed)) in
      if leb needed r.scaled_tokens
      then some (record r { scaled_tokens = r.scaled_tokens - needed }, granted)
      else (if r.rate == 0 then some (r, panicked) else rest)

  unfoldable pub wait_for : ℕ → TokenBucket → ℕ → ℕ → Option (TokenBucket × Waited)
  wait_for fuel b tokens now =
      if tokens == 0
      then some (b, granted)
      else (if ltb b.burst tokens
          then some (b, refused (exceeds_burst tokens b.burst))
          else wait_loop fuel b (tokens * nanos_per_sec) now)

unfoldable pub available : TokenBucket → ℕ → TokenBucket × ℕ
available b now = let r = refill b now in (r, r.scaled_tokens / nanos_per_sec)

unfoldable pub has : TokenBucket → ℕ → ℕ → TokenBucket × Bool
has b tokens now = let r = refill b now in (r, leb (tokens * nanos_per_sec) r.scaled_tokens)

-- The truncated `-` is `saturating_sub`.
unfoldable pub force_consume : TokenBucket → ℕ → TokenBucket
force_consume b tokens = record b { scaled_tokens = b.scaled_tokens - tokens * nanos_per_sec }
