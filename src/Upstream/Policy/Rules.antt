-- ===== src/Upstream/Policy/Rules.antt =====
-- The rules on addresses, as lists of networks.
use rust_socksd.Prelude.{
  true, false, ◌≡◌, ◌↔◌, ◌⊎◌, inl, inr, refl, List, [], ◌∷◌, Bytes, is_empty, any, if◌then◌else◌,
  In, any-eq-true, any_of_In, any_none, any-eq-false, Bool-cases,
}
use rust_socksd.Net.{IpAddr}
use rust_socksd.Config.{Config}
use rust_socksd.Upstream.Cidr.{match_cidr}
use rust_socksd.Upstream.Policy.{check_client_allowed, check_egress_rules}

-- Some entry of a list matches.
abbrev pub Listed : IpAddr → List Bytes → Type 0
Listed ip networks = (network : Bytes) × In network networks × (match_cidr ip network ≡ true)

abbrev pub Unlisted : IpAddr → List Bytes → Type 0
Unlisted ip networks = (network : Bytes) → In network networks → match_cidr ip network ≡ false

empty_or_some : (xs : List Bytes) → (xs ≡ []) ⊎ (is_empty xs ≡ false)
unfolding is_empty
empty_or_some [] = inl refl
empty_or_some (x ∷ xs) = inr refl

-- A list of networks that is empty or has a match.
allows :
    (ip : IpAddr) (xs : List Bytes)
    → ((if is_empty xs then true else any (λ network. match_cidr ip network) xs) ≡ true)
      ↔ ((xs ≡ []) ⊎ Listed ip xs)
unfolding is_empty
allows ip [] = (λ _. inl refl, λ _. refl)
allows ip (x ∷ xs) = (
  λ e. inr (any-eq-true _ (x ∷ xs) e),
  elim [ inl e ↦ cc | inr (n, m, e) ↦ any_of_In _ (x ∷ xs) n m e ],
)

-- A client is let in exactly when there is no allowlist or an entry of it matches.
pub check_client_allowed_iff :
    (config : Config) (ip : IpAddr)
    → (check_client_allowed config ip ≡ true)
      ↔ ((config.security.allowed_networks ≡ []) ⊎ Listed ip config.security.allowed_networks)
unfolding check_client_allowed
check_client_allowed_iff config ip = allows ip config.security.allowed_networks

-- A destination passes exactly when no blocked network matches it and the allowlist is empty or
-- has a match: blocking wins.
pub check_egress_rules_iff :
    (config : Config) (ip : IpAddr)
    → (check_egress_rules config ip ≡ true) ↔ (
        Unlisted ip config.security.blocked_egress_networks
        × ((config.security.allowed_egress_networks ≡ [])
            ⊎ Listed ip config.security.allowed_egress_networks))
unfolding check_egress_rules
check_egress_rules_iff config ip =
    elim (Bool-cases
      (any (λ network. match_cidr ip network) config.security.blocked_egress_networks)) [
        | inl hit ↦ rw hit (
          λ e. cc,
          λ p. cc (
              any-eq-false (λ network. match_cidr ip network)
                config.security.blocked_egress_networks p.0),
        )
        | inr miss ↦ rw miss (
          λ e. (any_none _ _ miss, (allows ip config.security.allowed_egress_networks).0 e),
          λ p. (allows ip config.security.allowed_egress_networks).1 p.1,
        )
      ]
