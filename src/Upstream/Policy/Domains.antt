-- ===== src/Upstream/Policy/Domains.antt =====
-- Which hosts `blocked_domains` and the exclusions cover.
use rust_socksd.Prelude.{
  Bool, true, false, not, ◌&&◌, ◌||◌, ◌≡◌, ◌↔◌, ◌⊎◌, inl, inr, refl, sym, ap, ◌∙◌, List, [], ◌∷◌,
  ◌++◌, Option, Bytes, lit, eq_bytes, eq_bytes_iff, is_empty, any, In, any-eq-true, any_of_In,
  Bool-cases, ◌≢◌, &&_iff,
}
use rust_socksd.Text.{Unicode, to_lowercase, is_ascii}
use rust_socksd.Text.Affix.{
  ends_with_iff, last_or, last_or-append, last_or-suffix, to_lowercase-append,
}
use rust_socksd.Net.{IpAddr, parse_ip}
use rust_socksd.Config.{Config}
use rust_socksd.Upstream.Policy.{
  domain_clean, in_domain, is_domain_blocked, no_proxy_matches, is_excluded, option_matches,
}

-- The domain itself or a name below it.
abbrev pub InDomain : Bytes → Bytes → Type 0
InDomain host domain = (host ≡ domain) ⊎ ((sub : Bytes) × (host ≡ sub ++ b'.' ∷ domain))

in_domain_iff :
    ⦃u : Unicode⦄ (host domain : Bytes) → (in_domain host domain ≡ true) ↔ InDomain host domain
in_domain_iff host domain = elim (Bool-cases (eq_bytes host domain)) [
  | inl same ↦ rw same (λ _. inl ((eq_bytes_iff host domain).0 same), λ _. refl)
  | inr other ↦ rw other (
    λ e. inr ((ends_with_iff (b'.' ∷ domain) host).0 e),
    elim [
      | inl e ↦ cc ((eq_bytes_iff host domain).1 e)
      | inr below ↦ (ends_with_iff (b'.' ∷ domain) host).1 below
    ],
  )
]

non_empty : (xs : Bytes) → (not (is_empty xs) ≡ true) ↔ (xs ≢ [])
unfolding is_empty
non_empty [] = (λ e. cc, λ n. absurd (n refl))
non_empty (x ∷ xs) = (λ _ e. cc, λ _. refl)

entry_iff :
    ⦃u : Unicode⦄ (host domain : Bytes)
    → (not (is_empty domain) && in_domain host domain ≡ true)
      ↔ ((domain ≢ []) × InDomain host domain)
entry_iff host domain = (
  λ e.
      let parts = (&&_iff (not (is_empty domain)) (in_domain host domain)).0 e in
      ((non_empty domain).0 parts.0, (in_domain_iff host domain).0 parts.1),
  λ h.
      (&&_iff (not (is_empty domain)) (in_domain host domain)).1
        ((non_empty domain).1 h.0, (in_domain_iff host domain).1 h.1),
)

-- A host is blocked exactly when, up to letter case and leading dots of the entry, it is an entry
-- that is not empty or a name below one.
pub is_domain_blocked_iff :
    ⦃u : Unicode⦄ (config : Config) (host : Bytes)
    → (is_domain_blocked config host ≡ true) ↔ (
        (domain : Bytes) × In domain config.security.blocked_domains
        × (domain_clean domain ≢ [])
        × InDomain (to_lowercase host) (domain_clean domain))
unfolding is_domain_blocked
is_domain_blocked_iff config host = (
  λ e.
      let (d, m, hit) = any-eq-true _ config.security.blocked_domains e in
      let h = (entry_iff (to_lowercase host) (domain_clean d)).0 hit in (d, m, h.0, h.1),
  λ (d, m, n, h).
      any_of_In _ config.security.blocked_domains d m
        ((entry_iff (to_lowercase host) (domain_clean d)).1 (n, h)),
)

last_of_below :
    (d host sub : Bytes) → d ≢ [] → host ++ b'.' ∷ [] ≡ sub ++ b'.' ∷ d → last_or 0 d ≡ b'.'
unfolding last_or
last_of_below [] host sub n e = absurd (n refl)
last_of_below (x ∷ d) host sub n e =
    sym (last_or-suffix 0 b'.' sub (x ∷ d)) ∙ (sym (ap (last_or 0) e) ∙ last_or-append 0 b'.' host)

dotted_in : (host d : Bytes) → d ≢ [] → InDomain (host ++ b'.' ∷ []) d → last_or 0 d ≡ b'.'
dotted_in host d n (inl e) = sym (ap (last_or 0) e) ∙ last_or-append 0 b'.' host
dotted_in host d n (inr (sub, e)) = last_of_below d host sub n e

-- A dot behind an ASCII name, which resolvers read as the same name, escapes every entry that does
-- not end in a dot itself.
pub blocked_trailing_dot :
    ⦃u : Unicode⦄ (config : Config) (host : Bytes)
    → is_ascii host ≡ true
    → ((domain : Bytes)
        → In domain config.security.blocked_domains
        → last_or 0 (domain_clean domain) ≢ b'.')
    → is_domain_blocked config (host ++ b'.' ∷ []) ≡ false
blocked_trailing_dot config host ascii plain =
    elim (Bool-cases (is_domain_blocked config (host ++ b'.' ∷ []))) [
      | inr free ↦ free
      | inl hit ↦
          let (d, m, n, h) = (is_domain_blocked_iff config (host ++ b'.' ∷ [])).0 hit in
          absurd (
            plain d m (
              dotted_in (to_lowercase host) (domain_clean d) n
                (rw (to_lowercase-append host b'.' ascii refl) at h)))
    ]

-- What excludes a target from the upstream proxy by its address: an entry of a list that matches
-- the resolved address or the host read as an address.
abbrev pub AddressIn : Bytes → Option IpAddr → Bytes → Type 0
AddressIn host ip network =
    (option_matches ip network ≡ true) ⊎ (option_matches (parse_ip host) network ≡ true)

||_cases : (a b : Bool) → (a || b) ≡ true → (a ≡ true) ⊎ (b ≡ true)
||_cases true b h = inl refl
||_cases false b h = inr h

||_left : (a b : Bool) → a ≡ true → (a || b) ≡ true
||_left a b h = rw h

||_right : (a b : Bool) → b ≡ true → (a || b) ≡ true
||_right true b h = refl
||_right false b h = h

no_proxy_iff :
    ⦃u : Unicode⦄ (host : Bytes) (ip : Option IpAddr) (e : Bytes)
    → (no_proxy_matches host ip e ≡ true)
      ↔ ((e ≡ lit "*") ⊎ AddressIn host ip e ⊎ InDomain (to_lowercase host) (domain_clean e))
unfolding no_proxy_matches
no_proxy_iff host ip e = (
  λ h. elim (||_cases _ _ h) [
    | inl star ↦ inl ((eq_bytes_iff e (lit "*")).0 star)
    | inr h₁ ↦ elim (||_cases _ _ h₁) [
      | inl a ↦ inr (inl (inl a))
      | inr h₂ ↦ elim (||_cases _ _ h₂) [
        | inl a ↦ inr (inl (inr a))
        | inr d ↦ inr (inr ((in_domain_iff (to_lowercase host) (domain_clean e)).0 d))
      ]
    ]
  ],
  elim [
    | inl star ↦ ||_left _ _ ((eq_bytes_iff e (lit "*")).1 star)
    | inr (inl (inl a)) ↦ ||_right (eq_bytes e (lit "*")) _ (||_left _ _ a)
    | inr (inl (inr a)) ↦
        ||_right (eq_bytes e (lit "*")) _ (||_right (option_matches ip e) _ (||_left _ _ a))
    | inr (inr d) ↦ ||_right (eq_bytes e (lit "*")) _ (
        ||_right (option_matches ip e) _ (
          ||_right (option_matches (parse_ip host) e) _
            ((in_domain_iff (to_lowercase host) (domain_clean e)).1 d)))
  ],
)

abbrev hits_address : Option IpAddr → List Bytes → Bool
hits_address ip networks = any (λ network. option_matches ip network) networks

abbrev hits_domain : ⦃u : Unicode⦄ → Bytes → List Bytes → Bool
hits_domain host domains =
    any (λ domain. in_domain (to_lowercase host) (domain_clean domain)) domains

hits_domain_iff :
    ⦃u : Unicode⦄ (host : Bytes) (domains : List Bytes)
    → (hits_domain host domains ≡ true)
      ↔ ((d : Bytes) × In d domains × InDomain (to_lowercase host) (domain_clean d))
hits_domain_iff host domains = (
  λ a.
      let (d, m, h) = any-eq-true _ domains a in
      (d, m, (in_domain_iff (to_lowercase host) (domain_clean d)).0 h),
  λ (d, m, h). any_of_In _ domains d m ((in_domain_iff (to_lowercase host) (domain_clean d)).1 h),
)

-- A target is excluded exactly when `exclude_networks` has an entry for its address, or
-- `exclude_domains` one for its name, or the NO_PROXY list has `*` or an entry for either.
pub is_excluded_iff :
    ⦃u : Unicode⦄ (host : Bytes) (ip : Option IpAddr) (networks domains no_proxy : List Bytes)
    → (is_excluded host ip networks domains no_proxy ≡ true) ↔ (
        ((n : Bytes) × In n networks × AddressIn host ip n)
        ⊎ ((d : Bytes) × In d domains × InDomain (to_lowercase host) (domain_clean d))
        ⊎ ((e : Bytes) × In e no_proxy
            × ((e ≡ lit "*")
                ⊎ AddressIn host ip e
                ⊎ InDomain (to_lowercase host) (domain_clean e))))
unfolding is_excluded
is_excluded_iff host ip networks domains no_proxy = (
  λ e. elim (||_cases (hits_address ip networks) _ e) [
    | inl a ↦ let (n, m, h) = any-eq-true _ networks a in inl (n, m, inl h)
    | inr e₁ ↦ elim (||_cases (hits_address (parse_ip host) networks) _ e₁) [
      | inl a ↦ let (n, m, h) = any-eq-true _ networks a in inl (n, m, inr h)
      | inr e₂ ↦ elim (||_cases (hits_domain host domains) _ e₂) [
        | inl a ↦ inr (inl ((hits_domain_iff host domains).0 a))
        | inr a ↦
            let (x, m, h) = any-eq-true (λ entry. no_proxy_matches host ip entry) no_proxy a in
            inr (inr (x, m, (no_proxy_iff host ip x).0 h))
      ]
    ]
  ],
  elim [
    | inl (n, m, inl h) ↦
        ||_left (hits_address ip networks) _
          (any_of_In (λ network. option_matches ip network) networks n m h)
    | inl (n, m, inr h) ↦ ||_right (hits_address ip networks) _ (
        ||_left (hits_address (parse_ip host) networks) _
          (any_of_In (λ network. option_matches (parse_ip host) network) networks n m h))
    | inr (inl d) ↦ ||_right (hits_address ip networks) _ (
        ||_right (hits_address (parse_ip host) networks) _
          (||_left (hits_domain host domains) _ ((hits_domain_iff host domains).1 d)))
    | inr (inr (x, m, h)) ↦ ||_right (hits_address ip networks) _ (
        ||_right (hits_address (parse_ip host) networks) _ (
          ||_right (hits_domain host domains) _ (
            any_of_In (λ entry. no_proxy_matches host ip entry) no_proxy x m
              ((no_proxy_iff host ip x).1 h))))
  ],
)
