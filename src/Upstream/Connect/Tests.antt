-- ===== src/Upstream/Connect/Tests.antt =====
-- A direct connection under egress rules.
use rust_socksd.Prelude.{
  ◌≡◌, ◌⊎◌, refl, true, false, [], ◌∷◌, Option, none, some, Bytes, lit, ok, err, is_empty, any,
}
use rust_socksd.Text.{Unicode}
use rust_socksd.Net.{IpAddr, v4, parse_ip}
use rust_socksd.Metrics.{create}
use rust_socksd.Config.{Config, default_config}
use rust_socksd.Stream.{Conn, conn}
use rust_socksd.Upstream.Cidr.{match_cidr}
use rust_socksd.Upstream.Policy.{is_domain_blocked, check_egress_rules, is_excluded}
use rust_socksd.Upstream.Route.{get_no_proxy_list, lookup_env_proxy, resolve_upstream}
use rust_socksd.Upstream.Connect.{
  asked, dialed, Resolver, Network, has_egress_rules, resolve_target, connect_to_target,
}
use rust_socksd.Upstream.Connect.Checked.{Checked, Direct, Proxied, connect_to_target_sound}

instance abbrev unicode : Unicode
unicode = record { lower = λ s. s; upper = λ s. s }

abbrev config : Config
config = record default_config {
  security = record (default_config.security) { blocked_egress_networks = lit "127.0.0.0/8" ∷ [] };
}

abbrev address : IpAddr
address = v4 (93 ∷ 184 ∷ 216 ∷ 34 ∷ [])

abbrev loopback : IpAddr
loopback = v4 (127 ∷ 0 ∷ 0 ∷ 1 ∷ [])

-- The first answer is a public address; later ones point inside.
abbrev rebinding : Resolver
rebinding [] name = ok (address ∷ [])
rebinding (e ∷ es) name = ok (loopback ∷ [])

abbrev fresh : Conn
fresh = conn [] [] 0 create

abbrev net : Network
net = record {
  dial = λ trace e. ok fresh;
  lookup_host = λ trace name port. err [];
  env = λ name. none;
  encode = λ s. s;
  buffered = 0;
}

abbrev resolver : Option Resolver
resolver = some rebinding

abbrev host : Bytes
host = lit "example.com"

connects :
    connect_to_target net config resolver host 443 true []
    ≡ (ok fresh, dialed address 443 ∷ asked host ∷ [])
unfolding connect_to_target is_domain_blocked check_egress_rules match_cidr any is_empty parse_ip
    is_excluded get_no_proxy_list lookup_env_proxy resolve_upstream
connects = refl

refuses :
    (connect_to_target net config resolver host 443 true (asked host ∷ [])).1
    ≡ asked host ∷ asked host ∷ []
unfolding connect_to_target is_domain_blocked check_egress_rules match_cidr any is_empty parse_ip
    is_excluded get_no_proxy_list lookup_env_proxy resolve_upstream
refuses = refl

connect_to_target_sound_example :
    let (ips, asked_trace) = resolve_target net config resolver host 443 [] in
    (is_domain_blocked config host ≡ false)
    × (has_egress_rules config ≡ true → Checked config ips)
    × (Direct net config resolver host 443 true ips asked_trace
          (ok fresh, dialed address 443 ∷ asked host ∷ [])
        ⊎ Proxied net config resolver host 443 true ips asked_trace
            (ok fresh, dialed address 443 ∷ asked host ∷ []))
connect_to_target_sound_example =
    connect_to_target_sound net config resolver host 443 true [] connects
