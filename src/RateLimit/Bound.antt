-- ===== src/RateLimit/Bound.antt =====
-- How many requests of one address the limiter lets through.
use rust_socksd.Prelude.{
  ℕ, ◌+◌, ◌-◌, ◌*◌, ◌≤◌, Bool, true, false, ◌≡◌, refl, sym, ap, List, [], ◌∷◌, Option, none, some,
  leb, ltb, if◌then◌else◌, arith, ◌∙◌, length, Bool-cases, inl, inr,
}
use rust_socksd.Net.{IpAddr, eq_ip, eq_ip_iff}
use rust_socksd.Map.{lookup, IsMap, ip_key}
use rust_socksd.Map.Laws.{lookup-insert, lookup-retain, insert-IsMap, retain-IsMap, kept}
use rust_socksd.RateLimit.{
  RateLimitConfig, Bucket, RateLimiter, token, stale_after, create, evict, or_full, refilled,
  settle, check,
}

-- What an address could use at `now`, in units; an address with no bucket has a full one.
unfoldable pub available : IpAddr → ℕ → RateLimiter → ℕ
available ip now l = refilled l now (or_full l now (lookup ip l.buckets))

-- Eviction forgets nothing that matters: a bucket that is left alone so long is full again.
pub record IsSound (l : RateLimiter) : Type 0 where
  pub is_map : IsMap l.buckets
  pub refills : l.burst ≤ stale_after * l.refill

pub mul_mono : (a b r : ℕ) → a ≤ b → a * r ≤ b * r
mul_mono a b r h = grind arith

-- Dropping a stale bucket leaves what its address could use.
refilled-kept :
    (l : RateLimiter) (now : ℕ) (o : Option Bucket)
    → l.burst ≤ stale_after * l.refill
    → refilled l now (or_full l now (kept (λ b. ltb (now - b.last_refill) stale_after) o))
      ≡ refilled l now (or_full l now o)
refilled-kept l now none h = refl
refilled-kept l now (some b) h = ground (arith, mul_mono stale_after (now - b.last_refill) l.refill)

pub refilled-evict :
    (ip : IpAddr) (now : ℕ) (l : RateLimiter)
    → IsSound l
    → refilled l now (or_full l now (lookup ip (evict now l.buckets))) ≡ available ip now l
unfolding evict available
refilled-evict ip now l s = elim (Bool-cases (ltb 10_000 (length l.buckets))) [
  | inl many ↦ rw (many, lookup-retain _ ip l.buckets s.is_map) (refilled-kept l now _ s.refills)
  | inr few ↦ rw few
]

-- A limiter whose buckets refill in ten minutes lets a request through exactly when its address could
-- use a whole token.
pub granted_iff_available :
    (ip : IpAddr) (now : ℕ) (l : RateLimiter)
    → IsSound l
    → (check ip now l).0 ≡ leb token (available ip now l)
unfolding check
granted_iff_available ip now l s = rw (← refilled-evict ip now l s) (ground arith)

abbrev pub cost : IpAddr → IpAddr → Bool → ℕ
cost ip j true = if eq_ip ip j then token else 0
cost ip j false = 0

settle_spend :
    (ip j : IpAddr) (now tokens : ℕ) (buckets : List (IpAddr × Bucket)) (l : RateLimiter)
    → tokens ≤ l.burst
    → available j now (settle ip now tokens buckets l).1
        + cost ip j (settle ip now tokens buckets l).0
      ≡ (if eq_ip ip j then tokens else refilled l now (or_full l now (lookup j buckets)))
unfolding settle available
settle_spend ip j now tokens buckets l h = elim (Bool-cases (leb token tokens)) [
  | inl enough ↦ rw (enough, lookup-insert ip j _ buckets) (ground arith)
  | inr few ↦ rw (few, lookup-insert ip j _ buckets) (ground arith)
]

-- A granted request costs its own address one token, and no other address anything.
pub spend :
    (ip j : IpAddr) (now : ℕ) (l : RateLimiter)
    → IsSound l
    → available j now (check ip now l).1 + cost ip j (check ip now l).0 ≡ available j now l
unfolding check
spend ip j now l s =
    settle_spend ip j now _ (evict now l.buckets) l (omega arith) ∙ elim (Bool-cases (eq_ip ip j)) [
      | inl same ↦ rw (same, ← (eq_ip_iff ip j).0 same) (refilled-evict ip now l s)
      | inr other ↦ rw other (refilled-evict j now l s)
    ]

evict-IsMap : (now : ℕ) (l : RateLimiter) → IsSound l → IsMap (evict now l.buckets)
unfolding evict
evict-IsMap now l s = ground (
  arith,
  s.is_map,
  retain-IsMap (λ (b : Bucket). ltb (now - b.last_refill) stale_after) l.buckets,
)

settle-IsSound :
    (ip : IpAddr) (now tokens : ℕ) (buckets : List (IpAddr × Bucket)) (l : RateLimiter)
    → IsMap buckets
    → IsSound l
    → IsSound (settle ip now tokens buckets l).1
unfolding settle
settle-IsSound ip now tokens buckets l m s = elim (Bool-cases (leb token tokens)) [
  | inl enough ↦ rw enough (record { is_map = insert-IsMap ip _ buckets m; refills = s.refills })
  | inr few ↦ rw few (record { is_map = insert-IsMap ip _ buckets m; refills = s.refills })
]

pub check-IsSound :
    (ip : IpAddr) (now : ℕ) (l : RateLimiter) → IsSound l → IsSound (check ip now l).1
unfolding check
check-IsSound ip now l s = settle-IsSound ip now _ _ l (evict-IsMap now l s) s

pub refill-check : (ip : IpAddr) (now : ℕ) (l : RateLimiter) → (check ip now l).1.refill ≡ l.refill
unfolding check settle
refill-check ip now l = ground arith

mul_add : (x y r : ℕ) → (x + y) * r ≡ x * r + y * r
mul_add x y r = omega arith

elapsed_join : (t now u r : ℕ) → t ≤ now → now ≤ u → (now - t) * r + (u - now) * r ≡ (u - t) * r
elapsed_join t now u r h k =
    sym (mul_add (now - t) (u - now) r)
    ∙ ap (λ (x : ℕ). x * r) (let e : (now - t) + (u - now) ≡ u - t = omega arith in e)

elapsed_split : (a t u r : ℕ) → t ≤ u → (u - a) * r ≤ (t - a) * r + (u - t) * r
elapsed_split a t u r h =
    omega (arith, mul_mono (u - a) ((t - a) + (u - t)) r (omega arith), mul_add (t - a) (u - t) r)

refilled_grows :
    (l : RateLimiter) (t u : ℕ) (o : Option Bucket)
    → t ≤ u
    → refilled l u (or_full l u o) ≤ refilled l t (or_full l t o) + (u - t) * l.refill
refilled_grows l t u none h = omega arith
refilled_grows l t u (some b) h = omega (arith, elapsed_split b.last_refill t u l.refill h)

-- Time adds at most `refill` units a nanosecond.
pub available_grows :
    (ip : IpAddr) (t u : ℕ) (l : RateLimiter)
    → t ≤ u
    → available ip u l ≤ available ip t l + (u - t) * l.refill
unfolding available
available_grows ip t u l h = refilled_grows l t u (lookup ip l.buckets) h

abbrev pub Request : Type 0
Request = IpAddr × ℕ

-- The requests come in order, from `t` to `u`.
abbrev pub Within : ℕ → List Request → ℕ → Type 0
Within t [] u = t ≤ u
Within t ((ip, now) ∷ rs) u = (t ≤ now) × Within now rs u

-- How many requests of `ip` are let through.
unfoldable pub granted : IpAddr → List Request → RateLimiter → ℕ
granted ip [] l = 0
granted ip ((j, now) ∷ rs) l =
    (if eq_ip j ip then (if (check j now l).0 then 1 else 0) else 0)
    + granted ip rs (check j now l).1

-- What one request adds to the count costs its tokens.
one_granted :
    (ip j : IpAddr) (b : Bool)
    → (if eq_ip j ip then (if b then 1 else 0) else 0) * token ≡ cost j ip b
one_granted ip j true = ground arith
one_granted ip j false = ground arith

Within-le : (t : ℕ) (rs : List Request) (u : ℕ) → Within t rs u → t ≤ u
Within-le t [] u h = h
Within-le t ((j, now) ∷ rs) u h = omega (arith, Within-le now rs u h.1)

granted_le :
    (ip : IpAddr) (t : ℕ) (rs : List Request) (u : ℕ) (l : RateLimiter)
    → IsSound l
    → Within t rs u
    → granted ip rs l * token ≤ available ip t l + (u - t) * l.refill
unfolding granted
granted_le ip t [] u l s h = omega arith
granted_le ip t ((j, now) ∷ rs) u l s h =
    let l' = (check j now l).1 in
    omega (
      arith,
      rw refill-check at (granted_le ip now rs u l' (check-IsSound j now l s) h.1),
      one_granted ip j (check j now l).0,
      spend j ip now l s,
      available_grows ip t now l h.0,
      elapsed_join t now u l.refill h.0 (Within-le now rs u h.1),
    )

refill-create : (config : RateLimitConfig) → (create config).refill ≡ config.requests_per_minute
unfolding create
refill-create config = refl

pub create-IsSound :
    (config : RateLimitConfig)
    → config.burst_size ≤ 10 * config.requests_per_minute
    → 1 ≤ config.requests_per_minute
    → IsSound (create config)
unfolding create
create-IsSound config h k = record { is_map = tt; refills = ground arith }

available-create :
    (config : RateLimitConfig) (ip : IpAddr) (t : ℕ)
    → 1 ≤ config.burst_size
    → available ip t (create config) ≤ config.burst_size * token
unfolding create available lookup
available-create config ip t h = ground arith

-- Whatever other addresses send, from `t` to `u` one address gets at most its burst and what
-- `requests_per_minute` adds in that time, for a burst of at least one token and at most ten
-- minutes' worth of refill.
pub granted_bound :
    (config : RateLimitConfig) (ip : IpAddr) (t : ℕ) (rs : List Request) (u : ℕ)
    → 1 ≤ config.burst_size
    → config.burst_size ≤ 10 * config.requests_per_minute
    → Within t rs u
    → granted ip rs (create config) * token
      ≤ config.burst_size * token + (u - t) * config.requests_per_minute
granted_bound config ip t rs u k h w = omega (
  arith,
  granted_le ip t rs u (create config) (create-IsSound config h (omega arith)) w,
  available-create config ip t k,
  refill-create config,
  ap (λ (r : ℕ). (u - t) * r) (refill-create config),
)
