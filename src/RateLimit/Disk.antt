-- ===== src/RateLimit/Disk.antt =====
-- crates/visor-vmm/src/rate_limit/disk.rs: two optional buckets, checked together.
use mathlib.Core.Option
use visor.Prelude.{ℕ, Bool, true, false, ◌&&◌, Option, none, some, if◌then◌else◌}
use visor.RateLimit.{
  TokenBucket, new, has, force_consume, wait_for, Waited, granted, refused, panicked,
}

pub record DiskRateLimitConfig : Type 0 where
  pub iops : Option ℕ
  pub bandwidth_bytes : Option ℕ

pub record DiskRateLimiter : Type 0 where
  pub iops_bucket : Option TokenBucket
  pub bandwidth_bucket : Option TokenBucket

unfoldable pub disk_new : DiskRateLimitConfig → ℕ → DiskRateLimiter
disk_new c now = record {
  iops_bucket = Option.map (λ rate. new rate rate now) c.iops;
  bandwidth_bucket = Option.map (λ rate. new rate rate now) c.bandwidth_bytes;
}

-- `bucket.as_mut().is_none_or(|b| b.has(tokens))`.
unfoldable pub has_room : Option TokenBucket → ℕ → ℕ → Option TokenBucket × Bool
unfolding has
has_room none tokens now = (none, true)
has_room (some b) tokens now = let (b', room) = has b tokens now in (some b', room)

-- `if let Some(b) = bucket { b.force_consume(tokens) }`.
unfoldable pub charge : Option TokenBucket → ℕ → Option TokenBucket
charge none tokens = none
charge (some b) tokens = some (force_consume b tokens)

-- Each check reads the clock for itself.
unfoldable pub try_io : DiskRateLimiter → ℕ → ℕ → ℕ → DiskRateLimiter × Bool
try_io l bytes now now' =
    let (iops, iops_ok) = has_room l.iops_bucket 1 now in
    let (bw, bw_ok) = has_room l.bandwidth_bucket bytes now' in
    if iops_ok && bw_ok
    then (record { iops_bucket = charge iops 1; bandwidth_bucket = charge bw bytes }, true)
    else (record { iops_bucket = iops; bandwidth_bucket = bw }, false)

module _ (timer : ℕ → ℕ → ℕ) where
  -- `if let Some(b) = bucket { b.wait_for(tokens).await?; }`.
  unfoldable pub wait_bucket : ℕ → Option TokenBucket → ℕ → ℕ → Option (Option TokenBucket × Waited)
  wait_bucket fuel none tokens now = some (none, granted)
  wait_bucket fuel (some b) tokens now =
      Option.map (λ r. (some r.0, r.1)) (wait_for timer fuel b tokens now)

  -- What follows the first wait: its `?` returns early unless the wait was granted.
  unfoldable pub wait_bandwidth :
      ℕ
      → Option TokenBucket
      → Option TokenBucket
      → Waited
      → ℕ
      → ℕ
      → Option (DiskRateLimiter × Waited)
  wait_bandwidth fuel iops bw granted bytes now' =
      Option.map (λ r. (record { iops_bucket = iops; bandwidth_bucket = r.0 }, r.1))
        (wait_bucket fuel bw bytes now')
  wait_bandwidth fuel iops bw (refused e) bytes now' =
      some (record { iops_bucket = iops; bandwidth_bucket = bw }, refused e)
  wait_bandwidth fuel iops bw panicked bytes now' =
      some (record { iops_bucket = iops; bandwidth_bucket = bw }, panicked)

  -- `now'` is the time at which the second wait starts.
  unfoldable pub wait_for_io : ℕ → DiskRateLimiter → ℕ → ℕ → ℕ → Option (DiskRateLimiter × Waited)
  wait_for_io fuel l bytes now now' = elim (wait_bucket fuel l.iops_bucket 1 now) [
    | none ↦ none
    | some (iops, w) ↦ wait_bandwidth fuel iops l.bandwidth_bucket w bytes now'
  ]
