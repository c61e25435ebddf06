-- ===== src/RateLimit/Net.antt =====
-- crates/visor-vmm/src/rate_limit/net.rs: one optional bucket for each direction.
use mathlib.Core.Option
use visor.Prelude.{ℕ, Bool, true, Option, none, some}
use visor.RateLimit.{TokenBucket, new, consume, Waited}
use visor.RateLimit.Disk.{wait_bucket}

pub record NetRateLimitConfig : Type 0 where
  pub rx_bytes : Option ℕ
  pub tx_bytes : Option ℕ

pub record NetRateLimiter : Type 0 where
  pub rx_bucket : Option TokenBucket
  pub tx_bucket : Option TokenBucket

unfoldable pub net_new : NetRateLimitConfig → ℕ → NetRateLimiter
net_new c now = record {
  rx_bucket = Option.map (λ rate. new rate rate now) c.rx_bytes;
  tx_bucket = Option.map (λ rate. new rate rate now) c.tx_bytes;
}

-- `bucket.as_mut().is_none_or(|b| b.consume(bytes))`.
unfoldable pub consume_or_pass : Option TokenBucket → ℕ → ℕ → Option TokenBucket × Bool
consume_or_pass none bytes now = (none, true)
consume_or_pass (some b) bytes now = let (b', passed) = consume b bytes now in (some b', passed)

unfoldable pub try_rx : NetRateLimiter → ℕ → ℕ → NetRateLimiter × Bool
try_rx l bytes now =
    let (b, passed) = consume_or_pass l.rx_bucket bytes now in (record l { rx_bucket = b }, passed)

unfoldable pub try_tx : NetRateLimiter → ℕ → ℕ → NetRateLimiter × Bool
try_tx l bytes now =
    let (b, passed) = consume_or_pass l.tx_bucket bytes now in (record l { tx_bucket = b }, passed)

module _ (timer : ℕ → ℕ → ℕ) where
  unfoldable pub wait_for_rx : ℕ → NetRateLimiter → ℕ → ℕ → Option (NetRateLimiter × Waited)
  wait_for_rx fuel l bytes now =
      Option.map (λ r. (record l { rx_bucket = r.0 }, r.1))
        (wait_bucket timer fuel l.rx_bucket bytes now)

  unfoldable pub wait_for_tx : ℕ → NetRateLimiter → ℕ → ℕ → Option (NetRateLimiter × Waited)
  wait_for_tx fuel l bytes now =
      Option.map (λ r. (record l { tx_bucket = r.0 }, r.1))
        (wait_bucket timer fuel l.tx_bucket bytes now)
