-- ===== src/RateLimit/Tests.antt =====
-- The limiter at concrete requests, after the test of src/ratelimit.rs: a burst of three, a fourth
-- request that is refused, another address, and a request two seconds later.
use rust_socksd.Prelude.{◌+◌, ◌*◌, ◌≤◌, ◌≡◌, refl, List, [], ◌∷◌, true, false, eq_bytes, arith}
use rust_socksd.Net.{IpAddr, v4, eq_ip}
use rust_socksd.Map.{lookup, insert, retain}
use rust_socksd.RateLimit.{RateLimitConfig, token, second, create, check}
use rust_socksd.RateLimit.Bound.{Request, granted, granted_bound}
use rust_socksd.RateLimit.Alone.{answers, alone, own, answers-alone}

abbrev config : RateLimitConfig
config = record { requests_per_minute = 60; burst_size = 3 }

abbrev ip : IpAddr
ip = v4 (203 ∷ 0 ∷ 113 ∷ 7 ∷ [])

abbrev other : IpAddr
other = v4 (203 ∷ 0 ∷ 113 ∷ 8 ∷ [])

abbrev requests : List Request
requests = (ip, 5) ∷ (ip, 5) ∷ (ip, 6) ∷ (ip, 7) ∷ (other, 8) ∷ (ip, 9 + 2 * second) ∷ []

burst_then_throttle : granted ip requests (create config) ≡ 4
unfolding granted create check lookup insert retain eq_ip eq_bytes
burst_then_throttle = refl

granted_alone : answers ip requests (create config) ≡ true ∷ true ∷ true ∷ false ∷ true ∷ []
unfolding answers create check lookup insert retain eq_ip eq_bytes
granted_alone = refl

answers-alone_example :
    answers ip requests (create config)
    ≡ alone 60 (3 * token) (record { tokens = 3 * token; last_refill = 0 }) (own ip requests)
unfolding create
answers-alone_example =
    answers-alone config ip 0 requests (10 * second) (omega arith) (omega arith) (omega arith)

granted_bound_example : granted ip requests (create config) * token ≤ 3 * token + 10 * second * 60
granted_bound_example =
    granted_bound config ip 0 requests (10 * second) (omega arith) (omega arith) (omega arith)
