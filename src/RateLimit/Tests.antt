-- ===== src/RateLimit/Tests.antt =====
-- Runs of rate_limit/ at concrete inputs, and the theorems about it applied there.
use visor.Prelude.{ℕ, ◌+◌, ◌-◌, ◌*◌, ◌≤◌, ◌≡◌, ◌⊎◌, refl, true, false, List, [], ◌∷◌, some, arith}
use visor.RateLimit.{
  TokenBucket, nanos_per_sec, new, refill, consume, wait_for, wait_loop, granted, sleep_nanos,
}
use visor.RateLimit.Conservation.{consume_all, consume_all-le-burst_and_rate}
use visor.RateLimit.Waiting.{Fires}
use visor.RateLimit.Disk.{DiskRateLimiter, has_room, try_io}
use visor.RateLimit.DiskLaws.{Covers, Pays, refilled, try_io_atomic}
use visor.RateLimit.Net.{NetRateLimiter}
use visor.RateLimit.NetLaws.{Packet, received, transmitted}

-- 100 tokens a second and a burst of 100, made at time 0.
abbrev hundred : TokenBucket
hundred = record { rate = 100; burst = 100; scaled_tokens = 100 * nanos_per_sec; last_refill = 0 }

-- Two calls that empty it, one that is refused, and one after half a second.
abbrev calls : List (ℕ × ℕ)
calls = (50, 0) ∷ (50, 0) ∷ (1, 0) ∷ (50, 500_000_000) ∷ []

granted_sum : (consume_all (new 100 100 0) calls).1 ≡ 150
unfolding consume_all consume refill new
granted_sum = refl

consume_all-le-burst_and_rate_example :
    (consume_all (new 100 100 0) calls).1 * nanos_per_sec
    ≤ 100 * nanos_per_sec + 100 * (500_000_000 - 0)
consume_all-le-burst_and_rate_example =
    consume_all-le-burst_and_rate 100 100 0 500_000_000 calls (omega arith) (omega arith)

-- A timer that fires a millisecond late.
abbrev late : ℕ → ℕ → ℕ
late t d = t + d + 1_000_000

late-Fires : Fires late
late-Fires t d = omega arith

-- Empty at time 0.
abbrev drained : TokenBucket
drained = record hundred { scaled_tokens = 0 }

wait_runs :
    wait_for late 3 drained 1 0
    ≡ some (record drained { scaled_tokens = 100_000_000; last_refill = 11_000_000 }, granted)
unfolding wait_for wait_loop refill sleep_nanos
wait_runs = refl

-- Rate 0, a burst of 10, and nothing left.
abbrev stopped : TokenBucket
stopped = record { rate = 0; burst = 10; scaled_tokens = 0; last_refill = 0 }

abbrev limiter : DiskRateLimiter
limiter = record { iops_bucket = some hundred; bandwidth_bucket = some drained }

-- The bandwidth bucket is empty, so the request fails and the IOPS bucket is left alone.
try_io_runs : try_io limiter 1 0 0 ≡ (limiter, false)
unfolding try_io refill has_room
try_io_runs = refl

try_io_atomic_example :
    let (l', passed) = try_io limiter 1 5 6 in
    ((passed ≡ true)
      × Covers (refilled (some hundred) 5) 1
      × Covers (refilled (some drained) 6) 1
      × Pays (refilled (some hundred) 5) 1 l'.iops_bucket
      × Pays (refilled (some drained) 6) 1 l'.bandwidth_bucket)
    ⊎ ((passed ≡ false)
        × ¬ (Covers (refilled (some hundred) 5) 1 × Covers (refilled (some drained) 6) 1)
        × (l' ≡ record {
          iops_bucket = refilled (some hundred) 5;
          bandwidth_bucket = refilled (some drained) 6;
        }))
try_io_atomic_example = try_io_atomic limiter 1 5 6

abbrev nic : NetRateLimiter
nic = record { rx_bucket = some hundred; tx_bucket = some drained }

abbrev packets : List Packet
packets = received 60 1 ∷ transmitted 60 2 ∷ received 60 3 ∷ []
