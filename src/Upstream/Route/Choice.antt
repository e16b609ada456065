-- ===== src/Upstream/Route/Choice.antt =====
-- Where `resolve_upstream` takes the proxy from.
use rust_socksd.Prelude.{
  ℕ, Bool, true, false, not, if◌then◌else◌, ◌≡◌, ◌⊎◌, ◌↔◌, inl, inr, refl, Option, none, some,
  Bytes,
}
use rust_socksd.Text.{Unicode}
use rust_socksd.Net.{IpAddr}
use rust_socksd.Config.{Config}
use rust_socksd.Upstream.Policy.{is_excluded}
use rust_socksd.Upstream.Route.{
  UpstreamProxy, get_no_proxy_list, lookup_env_proxy, configured_proxy, resolve_upstream, or_proxy,
}

-- From the first source, or from the second if the first has none.
abbrev pub Either : UpstreamProxy → Option UpstreamProxy → Option UpstreamProxy → Type 0
Either proxy first second = (first ≡ some proxy) ⊎ ((first ≡ none) × (second ≡ some proxy))

or_proxy_iff :
    {proxy : UpstreamProxy} (first second : Option UpstreamProxy)
    → (or_proxy first second ≡ some proxy) ↔ Either proxy first second
or_proxy_iff none second = (λ h. inr (refl, h), elim [ inl e ↦ cc | inr p ↦ p.1 ])
or_proxy_iff (some q) second = (λ h. inl h, elim [ inl e ↦ e | inr p ↦ cc p.0 ])

or_none : (o : Option UpstreamProxy) → or_proxy o none ≡ o
or_none none = refl
or_none (some q) = refl

-- The order of the two sources.
chosen :
    {proxy : UpstreamProxy} (excluded prefer_env : Bool) (env configured : Option UpstreamProxy)
    → ((if excluded
          then none
          else or_proxy
              (if prefer_env then env else none)
              (or_proxy configured (if not prefer_env then env else none)))
        ≡ some proxy)
      ↔ ((excluded ≡ false)
          × (if prefer_env then Either proxy env configured else Either proxy configured env))
chosen true prefer_env env configured = (λ h. cc, λ p. cc p.0)
chosen false true env configured =
    rw (or_none configured)
      (λ h. (refl, (or_proxy_iff env configured).0 h), λ p. (or_proxy_iff env configured).1 p.1)
chosen false false env configured =
    (λ h. (refl, (or_proxy_iff configured env).0 h), λ p. (or_proxy_iff configured env).1 p.1)

module _ (env : Bytes → Option Bytes) where
  module _ ⦃u : Unicode⦄ (config : Config) (host : Bytes) (port : ℕ) (ip : Option IpAddr)
      (socks : Bool) where
    -- A target goes through a proxy only if nothing excludes it, and then through the first one of
    -- the two sources, the environment first exactly if `prefer_env` is set.
    pub resolve_upstream_iff :
        (proxy : UpstreamProxy)
        → let first = lookup_env_proxy env port socks in
          let second = configured_proxy config.upstream in
          (resolve_upstream env config host port ip socks ≡ some proxy) ↔ (
            (is_excluded host ip config.upstream.exclude_networks config.upstream.exclude_domains
                (get_no_proxy_list env)
              ≡ false)
            × (if config.upstream.prefer_env
                then Either proxy first second
                else Either proxy second first))
    unfolding resolve_upstream
    resolve_upstream_iff proxy =
        chosen
          (is_excluded host ip config.upstream.exclude_networks config.upstream.exclude_domains
            (get_no_proxy_list env))
          config.upstream.prefer_env (lookup_env_proxy env port socks)
          (configured_proxy config.upstream)
