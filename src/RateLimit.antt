-- ===== src/RateLimit.antt =====
-- The token-bucket limiter, src/ratelimit.rs.
--
-- Instants are nanoseconds. The source counts tokens in `f64`, at `requests_per_minute / 60` a
-- second; here a token is 60 * 10^9 units, so that a nanosecond adds `requests_per_minute` units
-- exactly. The rounding of `f64` is not modelled.
pub mod Bound
pub mod Alone
mod Tests
use rust_socksd.Prelude.{
  ℕ, ◌+◌, ◌-◌, ◌*◌, ◌^◌, min, Bool, true, false, List, [], Option, none, some, leb, ltb,
  if◌then◌else◌, length,
}
use rust_socksd.Net.{IpAddr}
use rust_socksd.Map.{lookup, insert, retain, ip_key}

pub record RateLimitConfig : Type 0 where
  pub requests_per_minute : ℕ
  pub burst_size : ℕ

pub record Bucket : Type 0 where
  pub tokens : ℕ
  pub last_refill : ℕ

pub record RateLimiter : Type 0 where
  pub refill : ℕ
  pub burst : ℕ
  pub buckets : List (IpAddr × Bucket)

abbrev pub second : ℕ
second = 1_000_000_000

-- One token, in units.
abbrev pub token : ℕ
token = 60 * second

abbrev pub stale_after : ℕ
stale_after = 600 * second

abbrev at_least_one : ℕ → ℕ
at_least_one n = if ltb n 1 then 1 else n

unfoldable pub create : RateLimitConfig → RateLimiter
create config = record {
  refill = config.requests_per_minute;
  burst = at_least_one config.burst_size * token;
  buckets = [];
}

-- The eviction when the map has grown past 10000 entries.
unfoldable pub evict : ℕ → List (IpAddr × Bucket) → List (IpAddr × Bucket)
evict now buckets =
    if ltb 10_000 (length buckets)
    then retain (λ b. ltb (now - b.last_refill) stale_after) buckets
    else buckets

abbrev pub or_full : RateLimiter → ℕ → Option Bucket → Bucket
or_full l now none = record { tokens = l.burst; last_refill = now }
or_full l now (some b) = b

-- The tokens of a bucket after its refill.
abbrev pub refilled : RateLimiter → ℕ → Bucket → ℕ
refilled l now b = min (b.tokens + (now - b.last_refill) * l.refill) l.burst

-- Take a token if the bucket holds one, and store the bucket.
unfoldable pub settle : IpAddr → ℕ → ℕ → List (IpAddr × Bucket) → RateLimiter → Bool × RateLimiter
settle ip now tokens buckets l =
    if leb token tokens
    then (
      true,
      record l {
        buckets = insert ip (record { tokens = tokens - token; last_refill = now }) buckets;
      },
    )
    else (
      false,
      record l { buckets = insert ip (record { tokens = tokens; last_refill = now }) buckets },
    )

unfoldable pub check : IpAddr → ℕ → RateLimiter → Bool × RateLimiter
unfolding settle evict
check ip now l =
    settle ip now (refilled l now (or_full l now (lookup ip (evict now l.buckets))))
      (evict now l.buckets) l
