-- ===== src/Upstream/Route/Environment.antt =====
-- Which variable `lookup_env_proxy` takes the proxy from.
use rust_socksd.Prelude.{
  ℕ, Bool, true, false, if◌then◌else◌, ◌≡◌, ◌⊎◌, ◌↔◌, inl, inr, refl, ap, sym, subst, ◌∙◌, List, [],
  ◌∷◌, ◌++◌, Option, none, some, Bytes, Option-cases, Bool-cases, In, map, leb, ◌+◌, ◌==◌, ◌&&◌,
  lit, is_empty,
}
use rust_socksd.Text.{trim}
use rust_socksd.Upstream.Route.{
  UpstreamProxy, env_var_keys, proxy_of_var, first_proxy, lookup_env_proxy, parse_proxy_url,
}

-- A value that is the URL of a proxy once the space around it is gone.
abbrev pub Names : Option Bytes → UpstreamProxy → Type 0
Names o proxy =
    (val : Bytes) × (o ≡ some val)
    × (is_empty (trim val) ≡ false)
    × (parse_proxy_url (trim val) ≡ some proxy)

-- No value, a blank one, or one that is no URL of a proxy.
abbrev pub Useless : Option Bytes → Type 0
Useless o =
    (o ≡ none)
    ⊎ ((val : Bytes) × (o ≡ some val)
        × ((is_empty (trim val) ≡ true) ⊎ (parse_proxy_url (trim val) ≡ none)))

set_to : Option Bytes → Bytes
set_to none = []
set_to (some val) = val

if-some :
    (b : Bool) (o : Option UpstreamProxy) {proxy : UpstreamProxy}
    → ((if b then none else o) ≡ some proxy) ↔ ((b ≡ false) × (o ≡ some proxy))
if-some true o = (λ h. cc h, λ p. cc p.0)
if-some false o = (λ h. (refl, h), λ p. p.1)

if-none :
    (b : Bool) (o : Option UpstreamProxy)
    → ((if b then none else o) ≡ none) ↔ ((b ≡ true) ⊎ (o ≡ none))
if-none true o = (λ h. inl refl, λ p. refl)
if-none false o = (λ h. inr h, elim [ inl e ↦ cc e | inr e ↦ e ])

proxy_of_var-some :
    (o : Option Bytes) {proxy : UpstreamProxy} → (proxy_of_var o ≡ some proxy) ↔ Names o proxy
unfolding proxy_of_var set_to
proxy_of_var-some none = (λ h. cc h, λ (val, e, p, q). cc e)
proxy_of_var-some (some val) = (
  λ h.
      let (given, parsed) = (if-some (is_empty (trim val)) (parse_proxy_url (trim val))).0 h in
      (val, refl, given, parsed),
  λ (val', e, p, q). (if-some (is_empty (trim val)) (parse_proxy_url (trim val))).1 (
      subst (λ v. (is_empty (trim v) ≡ false) × (parse_proxy_url (trim v) ≡ some _))
        (sym (ap set_to e)) (p, q)),
)

proxy_of_var-none : (o : Option Bytes) → (proxy_of_var o ≡ none) ↔ Useless o
unfolding proxy_of_var set_to
proxy_of_var-none none = (λ h. inl refl, λ p. refl)
proxy_of_var-none (some val) = (
  λ h. inr (val, refl, (if-none (is_empty (trim val)) (parse_proxy_url (trim val))).0 h),
  elim [
    | inl e ↦ cc e
    | inr (val', e, p) ↦ (if-none (is_empty (trim val)) (parse_proxy_url (trim val))).1 (
        subst (λ v. (is_empty (trim v) ≡ true) ⊎ (parse_proxy_url (trim v) ≡ none))
          (sym (ap set_to e)) p)
  ],
)

small_letter : ℕ → ℕ
small_letter c = if leb 0x41 c && leb c 0x5A then c + 0x20 else c

-- Each name in capitals and then in small letters.
unfoldable pub both_cases : List Bytes → List Bytes
unfolding small_letter
both_cases [] = []
both_cases (name ∷ names) = name ∷ map small_letter name ∷ both_cases names

-- The variables for a kind of request, the most fitting first.
abbrev pub variables : ℕ → Bool → List Bytes
variables target_port true = lit "ALL_PROXY" ∷ lit "HTTPS_PROXY" ∷ lit "HTTP_PROXY" ∷ []
variables target_port false =
    if target_port == 443
    then lit "HTTPS_PROXY" ∷ lit "ALL_PROXY" ∷ lit "HTTP_PROXY" ∷ []
    else lit "HTTP_PROXY" ∷ lit "ALL_PROXY" ∷ []

env_var_keys-both_cases :
    (target_port : ℕ) (is_socks5_request : Bool)
    → env_var_keys target_port is_socks5_request
      ≡ both_cases (variables target_port is_socks5_request)
unfolding env_var_keys both_cases small_letter
env_var_keys-both_cases target_port true = refl
env_var_keys-both_cases target_port false = elim (Bool-cases (target_port == 443)) [
  | inl secure ↦ rw secure refl
  | inr clear ↦ rw clear refl
]

module _ (env : Bytes → Option Bytes) where
  -- The variable that decides: the ones asked before it give no proxy.
  abbrev Decides : List Bytes → UpstreamProxy → Type 0
  Decides keys proxy =
      (before : List Bytes) × (key : Bytes) × (after : List Bytes) × (keys ≡ before ++ key ∷ after)
      × ((k : Bytes) → In k before → proxy_of_var (env k) ≡ none)
      × (proxy_of_var (env key) ≡ some proxy)

  first_proxy_sound :
      (keys : List Bytes) {proxy : UpstreamProxy}
      → first_proxy env keys ≡ some proxy
      → Decides keys proxy
  unfolding first_proxy
  first_proxy_sound [] h = cc
  first_proxy_sound (key ∷ keys) h = elim (Option-cases (proxy_of_var (env key))) [
    | inl unset ↦
        let (before, k, after, e, nothing, gives) =
          first_proxy_sound keys (rw (unset, first_proxy) at h) in
        (
          key ∷ before,
          k,
          after,
          ap (λ ks. key ∷ ks) e,
          λ q. elim [ inl same ↦ rw same unset | inr m ↦ nothing q m ],
          gives,
        )
    | inr (p, e) ↦ ([], key, keys, refl, λ q m. absurd m, e ∙ (rw (e, first_proxy) at h))
  ]

  first_proxy_complete :
      (before after : List Bytes) (key : Bytes) {proxy : UpstreamProxy}
      → ((k : Bytes) → In k before → proxy_of_var (env k) ≡ none)
      → proxy_of_var (env key) ≡ some proxy
      → first_proxy env (before ++ key ∷ after) ≡ some proxy
  unfolding first_proxy
  first_proxy_complete [] after key nothing gives = rw (gives, first_proxy) refl
  first_proxy_complete (k ∷ before) after key nothing gives =
      rw (nothing k (inl refl), first_proxy)
        (first_proxy_complete before after key (λ q m. nothing q (inr m)) gives)

  -- Of the variables that are asked for the kind of request, one gives a proxy, and those before
  -- it do not.
  abbrev pub Found : ℕ → Bool → UpstreamProxy → Type 0
  Found target_port is_socks5_request proxy =
      (before : List Bytes) × (key : Bytes) × (after : List Bytes) × (both_cases
          (variables target_port is_socks5_request)
        ≡ before ++ key ∷ after)
      × ((k : Bytes) → In k before → Useless (env k))
      × Names (env key) proxy

  -- The environment gives a proxy exactly when a variable is set to a text that, without the space
  -- around it, is not empty and is the URL of that proxy, and none of the variables before it is.
  -- They are HTTP_PROXY and ALL_PROXY for an HTTP request, HTTPS_PROXY, ALL_PROXY and HTTP_PROXY
  -- for one to port 443, and ALL_PROXY, HTTPS_PROXY and HTTP_PROXY for a SOCKS5 request, each of
  -- them first in capitals and then in small letters.
  pub lookup_env_proxy_iff :
      (target_port : ℕ) (is_socks5_request : Bool) (proxy : UpstreamProxy)
      → (lookup_env_proxy env target_port is_socks5_request ≡ some proxy)
        ↔ Found target_port is_socks5_request proxy
  unfolding lookup_env_proxy
  lookup_env_proxy_iff target_port is_socks5_request proxy =
      let order = env_var_keys-both_cases target_port is_socks5_request in
      (
        λ h.
            let (before, key, after, e, nothing, gives) =
              first_proxy_sound (env_var_keys target_port is_socks5_request) h in
            (
              before,
              key,
              after,
              sym order ∙ e,
              λ k m. (proxy_of_var-none (env k)).0 (nothing k m),
              (proxy_of_var-some (env key)).0 gives,
            ),
        λ (before, key, after, e, nothing, gives).
            ap (first_proxy env) (order ∙ e)
            ∙ first_proxy_complete before after key
                (λ k m. (proxy_of_var-none (env k)).1 (nothing k m))
                ((proxy_of_var-some (env key)).1 gives),
      )
