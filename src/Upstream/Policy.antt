-- ===== src/Upstream/Policy.antt =====
-- Who may connect and where to: `check_client_allowed`, `is_domain_blocked`, `check_egress_rules`,
-- `is_excluded`. A `for` loop that returns from its body is `any`.
pub mod Rules
pub mod Domains
mod Tests
use rust_socksd.Prelude.{
  ℕ, Bool, true, false, not, ◌&&◌, ◌||◌, List, [], ◌∷◌, Option, none, some, Bytes, lit, eq_bytes,
  is_empty, any, if◌then◌else◌,
}
use rust_socksd.Text.{Unicode, to_lowercase, trim_start_matches, ends_with}
use rust_socksd.Net.{IpAddr, parse_ip}
use rust_socksd.Config.{Config}
use rust_socksd.Upstream.Cidr.{match_cidr}

unfoldable pub check_client_allowed : Config → IpAddr → Bool
check_client_allowed config ip =
    if is_empty config.security.allowed_networks
    then true
    else any (λ network. match_cidr ip network) config.security.allowed_networks

unfoldable pub check_egress_rules : Config → IpAddr → Bool
check_egress_rules config ip =
    if any (λ network. match_cidr ip network) config.security.blocked_egress_networks
    then false
    else if is_empty config.security.allowed_egress_networks
    then true
    else any (λ network. match_cidr ip network) config.security.allowed_egress_networks

-- `Option<IpAddr>` against an entry
abbrev pub option_matches : Option IpAddr → Bytes → Bool
option_matches none network = false
option_matches (some ip) network = match_cidr ip network

module _ ⦃u : Unicode⦄ where
  -- An entry without its leading dots, in lower case.
  abbrev pub domain_clean : Bytes → Bytes
  domain_clean domain = to_lowercase (trim_start_matches b'.' domain)

  -- The host is the domain or ends with a dot and the domain.
  abbrev pub in_domain : Bytes → Bytes → Bool
  in_domain host_lower domain = eq_bytes host_lower domain || ends_with (b'.' ∷ domain) host_lower

  unfoldable pub is_domain_blocked : Config → Bytes → Bool
  is_domain_blocked config host =
      any
        (λ domain.
          not (is_empty (domain_clean domain))
          && in_domain (to_lowercase host) (domain_clean domain))
        config.security.blocked_domains

  unfoldable pub no_proxy_matches : Bytes → Option IpAddr → Bytes → Bool
  no_proxy_matches host ip entry =
      eq_bytes entry (lit "*")
      || (option_matches ip entry
          || (option_matches (parse_ip host) entry
              || in_domain (to_lowercase host) (domain_clean entry)))

  unfoldable pub is_excluded : Bytes → Option IpAddr → List Bytes → List Bytes → List Bytes → Bool
  unfolding no_proxy_matches
  is_excluded host ip exclude_networks exclude_domains no_proxy_list =
      any (λ network. option_matches ip network) exclude_networks
      || (any (λ network. option_matches (parse_ip host) network) exclude_networks
          || (any (λ domain. in_domain (to_lowercase host) (domain_clean domain)) exclude_domains
              || any (λ entry. no_proxy_matches host ip entry) no_proxy_list))
