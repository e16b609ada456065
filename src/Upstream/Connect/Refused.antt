-- ===== src/Upstream/Connect/Refused.antt =====
-- The error that a target gets when a rule of the policy blocks it.
use rust_socksd.Prelude.{
  ℕ, Bool, true, false, ◌≡◌, ◌⊎◌, inl, inr, refl, ◌∷◌, ◌++◌, Option, some, Bytes, lit, Result, err,
  is_empty,
}
use rust_socksd.Text.{Unicode, decimal, contains}
use rust_socksd.Text.Within.{contains_behind}
use rust_socksd.Net.{IpAddr, display_ip}
use rust_socksd.Config.{Config}
use rust_socksd.Stream.{Conn}
use rust_socksd.Relay.{is_policy_error}
use rust_socksd.Upstream.Policy.{is_domain_blocked}
use rust_socksd.Upstream.Connect.{
  Trace, Resolver, Network, has_egress_rules, first_refused, resolve_target, checked_route,
  connect_to_target,
}

domain_text : is_policy_error (lit " is blocked by security policy (blocked_domains)") ≡ true
unfolding contains
domain_text = refl

address_text : is_policy_error (lit ") is blocked by security policy") ≡ true
unfolding contains
address_text = refl

domain_error :
    (host : Bytes)
    → is_policy_error
        (lit "Connection to " ++ host ++ lit " is blocked by security policy (blocked_domains)")
      ≡ true
domain_error host = contains_behind _ (lit "Connection to " ++ host) _ domain_text

address_error :
    (host : Bytes) (port : ℕ) (ip : IpAddr)
    → is_policy_error (
        lit "Connection to "
        ++ host
        ++ b':' ∷ decimal port
        ++ lit " (IP: "
        ++ display_ip ip
        ++ lit ") is blocked by security policy")
      ≡ true
address_error host port ip =
    contains_behind _
      (lit "Connection to " ++ host ++ b':' ∷ decimal port ++ lit " (IP: " ++ display_ip ip) _
      address_text

module _ ⦃u : Unicode⦄ (net : Network) (config : Config) (resolver : Option Resolver) (host : Bytes)
    (port : ℕ) (socks : Bool) (trace : Trace) where
  -- The name is blocked, or there are egress rules, and one of the target's addresses is refused.
  abbrev pub Blocked : Type 0
  Blocked =
      (is_domain_blocked config host ≡ true)
      ⊎ ((is_domain_blocked config host ≡ false)
          × (has_egress_rules config ≡ true)
          × (ip : IpAddr) × (is_empty (resolve_target net config resolver host port trace).0
              ≡ false)
          × (first_refused config (resolve_target net config resolver host port trace).0 ≡ some ip))

  -- Nothing is dialed: at most the resolver was asked.
  abbrev pub Refused : Result Conn × Trace → Type 0
  Refused (r, trace') =
      (e : Bytes) × (r ≡ err e)
      × (is_policy_error e ≡ true)
      × ((trace' ≡ trace) ⊎ (trace' ≡ (resolve_target net config resolver host port trace).1))

  pub blocked_error :
      Blocked → Refused (connect_to_target net config resolver host port socks trace)
  unfolding connect_to_target checked_route
  blocked_error (inl blocked) = rw blocked (_, refl, domain_error host, inl refl)
  blocked_error (inr (clear, rules, ip, known, refused)) =
      rw (clear, rules, known, refused) (_, refl, address_error host port ip, inr refl)
