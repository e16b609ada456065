-- ===== src/Upstream/Policy/Tests.antt =====
-- The policies at a concrete configuration, after the tests of src/upstream.rs.
use rust_socksd.Prelude.{
  true, false, ◌≡◌, ◌↔◌, ◌⊎◌, inl, inr, refl, [], ◌∷◌, ◌++◌, none, Bytes, lit, In, any, arith,
  is_empty, eq_bytes, ap, ◌∙◌, ◌≢◌, sym,
}
use rust_socksd.Text.{Unicode, to_lowercase, is_ascii, ends_with, trim_start_matches}
use rust_socksd.Net.{IpAddr, v4, parse_ip}
use rust_socksd.Config.{Config, default_config}
use rust_socksd.Upstream.Cidr.{match_cidr}
use rust_socksd.Upstream.Policy.{
  check_client_allowed, check_egress_rules, is_domain_blocked, is_excluded, domain_clean,
}
use rust_socksd.Upstream.Policy.Rules.{Listed, Unlisted, check_egress_rules_iff}
use rust_socksd.Upstream.Policy.Domains.{
  InDomain, AddressIn, is_domain_blocked_iff, blocked_trailing_dot, is_excluded_iff,
}
use rust_socksd.Text.Affix.{last_or}

instance abbrev unicode : Unicode
unicode = record { lower = λ s. s; upper = λ s. s }

abbrev config : Config
config = record default_config {
  security = record (default_config.security) {
    allowed_networks = lit "10.0.0.0/8" ∷ [];
    blocked_domains = lit ".Evil.com" ∷ [];
    allowed_egress_networks = lit "10.0.0.0/8" ∷ [];
    blocked_egress_networks = lit "10.1.0.0/16" ∷ [];
  };
}

abbrev inside : IpAddr
inside = v4 (10 ∷ 2 ∷ 0 ∷ 1 ∷ [])

abbrev blocked : IpAddr
blocked = v4 (10 ∷ 1 ∷ 0 ∷ 1 ∷ [])

networks :
    (check_client_allowed config inside ≡ true)
    × (check_client_allowed config (v4 (11 ∷ 0 ∷ 0 ∷ 1 ∷ [])) ≡ false)
    × (check_egress_rules config inside ≡ true)
    × (check_egress_rules config blocked ≡ false)
    × (check_egress_rules config (v4 (8 ∷ 8 ∷ 8 ∷ 8 ∷ [])) ≡ false)
unfolding match_cidr check_client_allowed check_egress_rules is_empty any
networks = (refl, refl, refl, refl, refl)

domains :
    (is_domain_blocked config (lit "evil.com") ≡ true)
    × (is_domain_blocked config (lit "sub.EVIL.com") ≡ true)
    × (is_domain_blocked config (lit "notevil.com") ≡ false)
    × (is_domain_blocked config (lit "evil.com.") ≡ false)
unfolding is_domain_blocked to_lowercase ends_with trim_start_matches any is_empty
domains = (refl, refl, refl, refl)

exclusions :
    (is_excluded (lit "192.168.1.5") none (lit "192.168.1.0/24" ∷ []) [] [] ≡ true)
    × (is_excluded (lit "api.internal.net") none [] (lit ".internal.net" ∷ []) [] ≡ true)
    × (is_excluded (lit "google.com") none [] [] (lit "localhost" ∷ []) ≡ false)
    × (is_excluded (lit "google.com") none [] [] (lit "*" ∷ []) ≡ true)
unfolding is_excluded match_cidr to_lowercase ends_with trim_start_matches any parse_ip is_empty
    eq_bytes
exclusions = (refl, refl, refl, refl)

check_egress_rules_iff_example : (check_egress_rules config blocked ≡ true) ↔ (
    Unlisted blocked config.security.blocked_egress_networks
    × ((config.security.allowed_egress_networks ≡ [])
        ⊎ Listed blocked config.security.allowed_egress_networks))
check_egress_rules_iff_example = check_egress_rules_iff config blocked

is_domain_blocked_iff_example : (is_domain_blocked config (lit "evil.com") ≡ true) ↔ (
    (domain : Bytes) × In domain config.security.blocked_domains
    × (domain_clean domain ≢ [])
    × InDomain (to_lowercase (lit "evil.com")) (domain_clean domain))
is_domain_blocked_iff_example = is_domain_blocked_iff config (lit "evil.com")

ascii_name : is_ascii (lit "evil.com") ≡ true
unfolding is_ascii
ascii_name = refl

ends_in_m : last_or 0 (domain_clean (lit ".Evil.com")) ≢ b'.'
unfolding last_or to_lowercase trim_start_matches
ends_in_m e = omega (arith, e)

no_dot_at_end :
    (domain : Bytes)
    → In domain config.security.blocked_domains
    → last_or 0 (domain_clean domain) ≢ b'.'
no_dot_at_end domain m = elim m [
  | inl same ↦ λ e. ends_in_m (sym (ap (λ d. last_or 0 (domain_clean d)) same) ∙ e)
  | inr absent ↦ absurd absent
]

blocked_trailing_dot_example : is_domain_blocked config (lit "evil.com" ++ b'.' ∷ []) ≡ false
blocked_trailing_dot_example = blocked_trailing_dot config (lit "evil.com") ascii_name no_dot_at_end

is_excluded_iff_example : (is_excluded (lit "a.b") none [] (lit "b" ∷ []) [] ≡ true) ↔ (
    ((n : Bytes) × In n [] × AddressIn (lit "a.b") none n)
    ⊎ ((d : Bytes) × In d (lit "b" ∷ []) × InDomain (to_lowercase (lit "a.b")) (domain_clean d))
    ⊎ ((e : Bytes) × In e []
        × ((e ≡ lit "*")
            ⊎ AddressIn (lit "a.b") none e
            ⊎ InDomain (to_lowercase (lit "a.b")) (domain_clean e))))
is_excluded_iff_example = is_excluded_iff (lit "a.b") none [] (lit "b" ∷ []) []
