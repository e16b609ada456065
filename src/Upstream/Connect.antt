-- ===== src/Upstream/Connect.antt =====
-- `connect_to_target`: the policy on targets, one resolution, and the connection, direct or through
-- a proxy. What is done to the network is a trace of events, the latest first; what the network
-- answers is a parameter, and may depend on all that was done before.
pub mod Checked
pub mod Refused
mod Tests
use rust_socksd.Prelude.{
  ℕ, Bool, true, false, not, ◌&&◌, ◌||◌, List, [], ◌∷◌, ◌++◌, Option, none, some, Bytes, lit,
  Result, ok, err, is_empty, any, if◌then◌else◌,
}
use rust_socksd.Text.{Unicode, decimal, contains_byte}
use rust_socksd.Net.{IpAddr, parse_ip, display_ip}
use rust_socksd.Config.{Config, socks5, http}
use rust_socksd.Stream.{Conn, Io}
use rust_socksd.Upstream.Policy.{is_domain_blocked, check_egress_rules}
use rust_socksd.Upstream.Route.{UpstreamProxy, get_no_proxy_list, resolve_upstream}
use rust_socksd.Upstream.Handshake.{socks5_connect_handshake}
use rust_socksd.Upstream.HttpConnect.{http_connect_handshake}

-- A question to the resolver, one to the system's resolver, a connection to an address, and one to
-- a name, which the system resolves.
pub data Event : Type 0 where
  asked : Bytes → Event
  asked_system : Bytes → ℕ → Event
  dialed : IpAddr → ℕ → Event
  dialed_name : Bytes → ℕ → Event

abbrev pub Trace : Type 0
Trace = List Event

abbrev pub Resolver : Type 0
Resolver = Trace → Bytes → Result (List IpAddr)

-- The code that is not the program's: connections, the system's resolver, the environment, Base64,
-- and what `BufReader` holds.
pub record Network : Type 0 where
  pub dial : Trace → Event → Result Conn
  pub lookup_host : Trace → Bytes → ℕ → Result (List IpAddr)
  pub env : Bytes → Option Bytes
  pub encode : Bytes → Bytes
  pub buffered : ℕ

abbrev pub first : List IpAddr → Option IpAddr
first [] = none
first (ip ∷ ips) = some ip

abbrev all_of : Result (List IpAddr) → List IpAddr
all_of (ok ips) = ips
all_of (err e) = []

abbrev pub has_egress_rules : Config → Bool
has_egress_rules config =
    not (is_empty config.security.allowed_egress_networks)
    || not (is_empty config.security.blocked_egress_networks)

abbrev is_some {ℓ} : {A : Type ℓ} → Option A → Bool
is_some none = false
is_some (some a) = true

-- An entry for addresses.
abbrev names_address : Bytes → Bool
names_address entry = contains_byte b'/' entry || is_some (parse_ip entry)

-- The first address that the rules refuse.
unfoldable pub first_refused : Config → List IpAddr → Option IpAddr
first_refused config [] = none
first_refused config (ip ∷ ips) =
    let later = first_refused config ips in
    if not (check_egress_rules config ip) then some ip else later

module _ (net : Network) where
  unfoldable pub connect_stream_ip : IpAddr → ℕ → Trace → Result Conn × Trace
  connect_stream_ip ip port trace = (net.dial trace (dialed ip port), dialed ip port ∷ trace)

  connect_first : Bytes → ℕ → Result (List IpAddr) → Trace → Result Conn × Trace
  unfolding connect_stream_ip
  connect_first host port (err e) trace = (err e, trace)
  connect_first host port (ok []) trace = (err (lit "Failed to resolve host: " ++ host), trace)
  connect_first host port (ok (ip ∷ ips)) trace = connect_stream_ip ip port trace

  connect_name : Option Resolver → Bytes → ℕ → Trace → Result Conn × Trace
  unfolding connect_first
  connect_name none host port trace =
      (net.dial trace (dialed_name host port), dialed_name host port ∷ trace)
  connect_name (some lookup_ip) host port trace =
      connect_first host port (lookup_ip trace host) (asked host ∷ trace)

  unfoldable pub connect_stream : Option Resolver → Bytes → ℕ → Trace → Result Conn × Trace
  unfolding connect_name connect_stream_ip
  connect_stream resolver host port trace = elim (parse_ip host) [
    | some ip ↦ connect_stream_ip ip port trace
    | none ↦ connect_name resolver host port trace
  ]

  unfoldable pub has_ip_exclusions : Config → Bool
  has_ip_exclusions config =
      any names_address config.upstream.exclude_networks
      || any names_address (get_no_proxy_list net.env)

  ask : Option Resolver → Bytes → ℕ → Trace → List IpAddr × Trace
  ask none host port trace =
      (all_of (net.lookup_host trace host port), asked_system host port ∷ trace)
  ask (some lookup_ip) host port trace = (all_of (lookup_ip trace host), asked host ∷ trace)

  -- `resolved_ips`
  unfoldable pub resolve_target : Config → Option Resolver → Bytes → ℕ → Trace → List IpAddr × Trace
  unfolding ask has_ip_exclusions
  resolve_target config resolver host port trace = elim (parse_ip host) [
    | some ip ↦ (ip ∷ [], trace)
    | none ↦
        if has_ip_exclusions config || has_egress_rules config
        then ask resolver host port trace
        else ([], trace)
  ]

  -- The handshake over the connection to the proxy, which is then the connection to the target.
  abbrev over : Io (Unit {0}) → Conn → Result Conn
  over handshake c = let (r, c') = handshake c in elim r [ ok u ↦ ok c' | err e ↦ err e ]

  handshake_with : UpstreamProxy → Bytes → ℕ → Result Conn → Result Conn
  handshake_with proxy host port (err e) = err e
  handshake_with proxy host port (ok c) = elim proxy.protocol [
    | socks5 ↦ over (socks5_connect_handshake host port proxy.username proxy.password) c
    | http ↦
        over
          (http_connect_handshake net.encode net.buffered host port proxy.username proxy.password) c
  ]

  unfoldable pub connect_via :
      Option Resolver → UpstreamProxy → Bytes → ℕ → Trace → Result Conn × Trace
  unfolding handshake_with connect_stream
  connect_via resolver proxy host port trace =
      let (proxy_stream, trace') = connect_stream resolver proxy.address proxy.port trace in
      (handshake_with proxy host port proxy_stream, trace')

  unfoldable pub connect_direct :
      Config → Option Resolver → Bytes → ℕ → Option IpAddr → Trace → Result Conn × Trace
  unfolding connect_stream connect_stream_ip
  connect_direct config resolver host port target_ip trace =
      if has_egress_rules config
      then elim target_ip [
        | some ip ↦ connect_stream_ip ip port trace
        | none ↦
            (err (lit "Failed to resolve target host " ++ host ++ lit " for connection"), trace)
      ]
      else connect_stream resolver host port trace

  module _ ⦃u : Unicode⦄ where
    unfoldable pub route :
        Config → Option Resolver → Bytes → ℕ → Bool → List IpAddr → Trace → Result Conn × Trace
    unfolding connect_via connect_direct
    route config resolver host port is_socks5_request ips trace =
        elim (resolve_upstream net.env config host port (first ips) is_socks5_request) [
          | some proxy ↦ connect_via resolver proxy host port trace
          | none ↦ connect_direct config resolver host port (first ips) trace
        ]

    -- The checks on the addresses, and the way to the target.
    unfoldable pub checked_route :
        Config → Option Resolver → Bytes → ℕ → Bool → List IpAddr × Trace → Result Conn × Trace
    unfolding route first_refused
    checked_route config resolver host port is_socks5_request (ips, trace) =
        if has_egress_rules config && is_empty ips
        then (
          err (
              lit "Failed to resolve target host "
              ++ host
              ++ lit " to IP address for security check"),
          trace,
        )
        else elim (if has_egress_rules config then first_refused config ips else none) [
          | some ip ↦ (
            err (
                lit "Connection to "
                ++ host
                ++ b':' ∷ decimal port
                ++ lit " (IP: "
                ++ display_ip ip
                ++ lit ") is blocked by security policy"),
            trace,
          )
          | none ↦ route config resolver host port is_socks5_request ips trace
        ]

    unfoldable pub connect_to_target :
        Config → Option Resolver → Bytes → ℕ → Bool → Trace → Result Conn × Trace
    unfolding resolve_target checked_route
    connect_to_target config resolver host port is_socks5_request trace =
        if is_domain_blocked config host
        then (
          err (
              lit "Connection to "
              ++ host
              ++ lit " is blocked by security policy (blocked_domains)"),
          trace,
        )
        else checked_route config resolver host port is_socks5_request
            (resolve_target config resolver host port trace)
