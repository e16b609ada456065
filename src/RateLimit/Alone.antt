-- ===== src/RateLimit/Alone.antt =====
-- What the limiter does to one address does not depend on the others, nor on its evictions.
use rust_socksd.Prelude.{
  ℕ, ◌+◌, ◌-◌, ◌*◌, ◌≤◌, min, Bool, false, ◌≡◌, refl, sym, ap, ◌∙◌, List, [], ◌∷◌, Option, none,
  some, leb, ltb, if◌then◌else◌, arith, length, Bool-cases, inl, inr,
}
use rust_socksd.Net.{IpAddr, eq_ip, eq_ip_iff}
use rust_socksd.Map.{lookup, ip_key}
use rust_socksd.Map.Laws.{lookup-insert, lookup-retain, same_refl, kept}
use rust_socksd.RateLimit.{
  RateLimitConfig, Bucket, RateLimiter, token, stale_after, create, evict, or_full, refilled,
  settle, check,
}
use rust_socksd.RateLimit.Bound.{
  IsSound, available, granted_iff_available, refilled-evict, mul_mono, refill-check, check-IsSound,
  create-IsSound, Request, Within,
}

-- What a request leaves of the tokens.
abbrev pub paid : ℕ → ℕ
paid tokens = if leb token tokens then tokens - token else tokens

-- A bucket that serves one address alone and is never dropped: its answers to requests at some
-- times.
unfoldable pub alone : ℕ → ℕ → Bucket → List ℕ → List Bool
alone refill burst b [] = []
alone refill burst b (now ∷ times) =
    let tokens = min (b.tokens + (now - b.last_refill) * refill) burst in
    leb token tokens ∷ alone refill burst (record { tokens = paid tokens; last_refill = now }) times

-- The times of the requests of an address.
unfoldable pub own : IpAddr → List Request → List ℕ
own ip [] = []
own ip ((j, now) ∷ rs) = let rest = own ip rs in if eq_ip j ip then now ∷ rest else rest

-- The answers that it gets.
unfoldable pub answers : IpAddr → List Request → RateLimiter → List Bool
answers ip [] l = []
answers ip ((j, now) ∷ rs) l =
    let rest = answers ip rs (check j now l).1 in
    if eq_ip j ip then (check j now l).0 ∷ rest else rest

-- Dropping a stale bucket does not show later either.
later-kept :
    (l : RateLimiter) (now later : ℕ) (o : Option Bucket)
    → l.burst ≤ stale_after * l.refill
    → now ≤ later
    → refilled l later (or_full l later (kept (λ b. ltb (now - b.last_refill) stale_after) o))
      ≡ refilled l later (or_full l later o)
later-kept l now later none h k = refl
later-kept l now later (some b) h k =
    ground (arith, mul_mono stale_after (later - b.last_refill) l.refill)

later-evict :
    (ip : IpAddr) (now later : ℕ) (l : RateLimiter)
    → IsSound l
    → now ≤ later
    → refilled l later (or_full l later (lookup ip (evict now l.buckets))) ≡ available ip later l
unfolding evict available
later-evict ip now later l s k = elim (Bool-cases (ltb 10_000 (length l.buckets))) [
  | inl many ↦
      rw (many, lookup-retain _ ip l.buckets s.is_map) (later-kept l now later _ s.refills k)
  | inr few ↦ rw few
]

settle-other :
    (j ip : IpAddr) (now later tokens : ℕ) (buckets : List (IpAddr × Bucket)) (l : RateLimiter)
    → eq_ip j ip ≡ false
    → available ip later (settle j now tokens buckets l).1
      ≡ refilled l later (or_full l later (lookup ip buckets))
unfolding settle available
settle-other j ip now later tokens buckets l differs = elim (Bool-cases (leb token tokens)) [
  | inl enough ↦ rw (enough, lookup-insert j ip _ buckets, differs) refl
  | inr few ↦ rw (few, lookup-insert j ip _ buckets, differs) refl
]

settle-own :
    (ip : IpAddr) (now later tokens : ℕ) (buckets : List (IpAddr × Bucket)) (l : RateLimiter)
    → available ip later (settle ip now tokens buckets l).1
      ≡ min (paid tokens + (later - now) * l.refill) l.burst
unfolding settle available
settle-own ip now later tokens buckets l = elim (Bool-cases (leb token tokens)) [
  | inl enough ↦ rw (enough, lookup-insert ip ip _ buckets, same_refl ip) refl
  | inr few ↦ rw (few, lookup-insert ip ip _ buckets, same_refl ip) refl
]

burst-check : (ip : IpAddr) (now : ℕ) (l : RateLimiter) → (check ip now l).1.burst ≡ l.burst
unfolding check settle
burst-check ip now l = ground arith

-- The limiter has for an address what a bucket of its own has, from now on.
abbrev Follows : IpAddr → ℕ → RateLimiter → Bucket → Type 0
Follows ip clock l b =
    (later : ℕ)
    → clock ≤ later
    → available ip later l ≡ min (b.tokens + (later - b.last_refill) * l.refill) l.burst

check-other :
    (j ip : IpAddr) (clock now : ℕ) (l : RateLimiter) (b : Bucket)
    → IsSound l
    → clock ≤ now
    → eq_ip j ip ≡ false
    → Follows ip clock l b
    → Follows ip now (check j now l).1 b
unfolding check
check-other j ip clock now l b s h differs f later k =
    settle-other j ip now later _ (evict now l.buckets) l differs
    ∙ later-evict ip now later l s k
    ∙ f later (omega (arith, h, k))
    ∙ ap (λ (r : ℕ). min (b.tokens + (later - b.last_refill) * r) l.burst)
        (sym (refill-check j now l))
    ∙ ap (λ (r : ℕ). min (b.tokens + (later - b.last_refill) * (check j now l).1.refill) r)
        (sym (burst-check j now l))

check-own :
    (ip : IpAddr) (clock now : ℕ) (l : RateLimiter) (b : Bucket)
    → IsSound l
    → clock ≤ now
    → Follows ip clock l b
    → Follows ip now (check ip now l).1 (record {
      tokens = paid (min (b.tokens + (now - b.last_refill) * l.refill) l.burst);
      last_refill = now;
    })
unfolding check
check-own ip clock now l b s h f later k =
    settle-own ip now later _ (evict now l.buckets) l
    ∙ ap (λ (t : ℕ). min (paid t + (later - now) * l.refill) l.burst)
        (refilled-evict ip now l s ∙ f now h)
    ∙ ap
        (λ (r : ℕ).
          min (paid (min (b.tokens + (now - b.last_refill) * l.refill) l.burst) + (later - now) * r)
            l.burst)
        (sym (refill-check ip now l))
    ∙ ap
        (λ (r : ℕ).
          min
            (paid (min (b.tokens + (now - b.last_refill) * l.refill) l.burst)
              + (later - now) * (check ip now l).1.refill)
            r)
        (sym (burst-check ip now l))

answers-Follows :
    (ip : IpAddr) (t : ℕ) (rs : List Request) (u : ℕ) (l : RateLimiter) (b : Bucket)
    → IsSound l
    → Within t rs u
    → Follows ip t l b
    → answers ip rs l ≡ alone l.refill l.burst b (own ip rs)
unfolding answers alone own
answers-Follows ip t [] u l b s w f = refl
answers-Follows ip t ((j, now) ∷ rs) u l b s w f = elim (Bool-cases (eq_ip j ip)) [
  | inr other ↦ rw other (
      rw (refill-check j now l, burst-check j now l) at
        (answers-Follows ip now rs u (check j now l).1 b (check-IsSound j now l s) w.1
          (check-other j ip t now l b s w.0 other f)))
  | inl same ↦
      let is_ip : j ≡ ip = (eq_ip_iff j ip).0 same in
      rw (same, is_ip, granted_iff_available ip now l s, f now w.0)
        (ap (λ rest. leb token (min (b.tokens + (now - b.last_refill) * l.refill) l.burst) ∷ rest)
          (rw (refill-check ip now l, burst-check ip now l) at
            (answers-Follows ip now rs u (check ip now l).1 _ (check-IsSound ip now l s) w.1
              (check-own ip t now l b s w.0 f))))
]

-- Whatever other addresses send and whenever buckets are evicted, an address gets the answers that
-- a bucket of its own, full at the start and never dropped, gives to its own requests, if requests
-- come in order and the burst is at most ten minutes' worth of refill.
pub answers-alone :
    (config : RateLimitConfig) (ip : IpAddr) (t : ℕ) (rs : List Request) (u : ℕ)
    → 1 ≤ config.requests_per_minute
    → config.burst_size ≤ 10 * config.requests_per_minute
    → Within t rs u
    → let l = create config in
      answers ip rs l
      ≡ alone l.refill l.burst (record { tokens = l.burst; last_refill = t }) (own ip rs)
unfolding create
answers-alone config ip t rs u k h w =
    answers-Follows ip t rs u (create config) _ (create-IsSound config h k) w λ later le. full later
  where
    full :
        (later : ℕ)
        → available ip later (create config)
          ≡ min ((create config).burst + (later - t) * (create config).refill) (create config).burst
    full later = unfold available lookup in omega arith
