-- ===== src/Server/Session/Tests.antt =====
-- A SOCKS5 client with a password, and a target that is blocked.
use rust_socksd.Prelude.{
  ◌≡◌, ◌≢◌, refl, sym, subst, true, ◌&&◌, [], ◌∷◌, ◌++◌, Option, none, some, lit, ok, err, eq_bytes,
  is_empty, any, inl,
}
use rust_socksd.Text.{
  Unicode, from_utf8, to_lowercase, trim_start_matches, ends_with, to_uppercase, strip_prefix,
  split, split_first, starts_with,
}
use rust_socksd.Net.{IpAddr, v4, parse_ip, to_be_bytes, from_be_bytes}
use rust_socksd.Metrics.{create}
use rust_socksd.Auth.{Authenticator}
use rust_socksd.Config.{Config, default_config}
use rust_socksd.Stream.{Conn, conn, read_exact, write_all, refuse_if, or_fail, ◌>>=◌}
use rust_socksd.Relay.{Sockets, Wire}
use rust_socksd.Socks5.{
  validate_credentials, handle_handshake, handle_request, send_response, handle_user_pass_auth,
  report_auth, finish_handshake, read_address,
}
use rust_socksd.Socks5.Protocol.{
  Socks5Request, connect, domain_name, select_method, encode_response, encode_address, new_success,
}
use rust_socksd.Upstream.Policy.{is_domain_blocked, is_excluded}
use rust_socksd.Upstream.Route.{get_no_proxy_list, lookup_env_proxy, resolve_upstream}
use rust_socksd.Upstream.Connect.{asked, dialed, Resolver, Network, connect_to_target}
use rust_socksd.Upstream.Connect.Refused.{Blocked}
use rust_socksd.HttpProxy.{HttpRequest, get_host_port, is_connect, parse_proxy_uri}
use rust_socksd.HttpProxy.Forward.{handle_connect, handle_regular_proxy}
use rust_socksd.Server.Session.{handle_socks5_connect, handle_socks5_connection}
use rust_socksd.Server.Session.Gate.{Asked, Authenticated, session_gate}
use rust_socksd.Server.Session.Tunnel.{Served, session-Served}
use rust_socksd.Server.Session.Replies.{Told, error_reply, forbidden, blocked-Told}

instance abbrev unicode : Unicode
unicode = record { lower = λ s. s; upper = λ s. s }

abbrev config : Config
config = record default_config {
  auth = record (default_config.auth) { enabled = true };
  security = record (default_config.security) { blocked_domains = lit "evil.com" ∷ [] };
}

abbrev address : IpAddr
address = v4 (93 ∷ 184 ∷ 216 ∷ 34 ∷ [])

abbrev resolver : Resolver
resolver trace name = ok (address ∷ [])

abbrev target : Conn
target = conn [] [] 0 create

abbrev net : Network
net = record {
  dial = λ trace e. ok target;
  lookup_host = λ trace name port. err [];
  env = λ name. none;
  encode = λ s. s;
  buffered = 0;
}

abbrev sockets : Sockets
sockets = record {
  read_ahead = 0;
  local_addr = λ c. ok (record { ip = v4 (10 ∷ 0 ∷ 0 ∷ 1 ∷ []); port = 513 });
  copy_bidirectional = λ c target. ok (3, 4);
}

abbrev backend : Option Authenticator
backend = some (record { authenticate = λ u p. ok (eq_bytes u (lit "u") && eq_bytes p (lit "p")) })

-- The greeting, the username and the password, and the request for a.b:80.
abbrev client : Conn
client =
    conn
      (5 ∷ 1 ∷ 2 ∷ 1 ∷ 1 ∷ b'u' ∷ 1 ∷ b'p' ∷ 5 ∷ 1 ∷ 0 ∷ 3 ∷ 3 ∷ b'a' ∷ b'.' ∷ b'b' ∷ 0 ∷ 80 ∷ [])
      [] 9 create

abbrev served : Wire
served = (
  conn [] (5 ∷ 2 ∷ 1 ∷ 0 ∷ 5 ∷ 0 ∷ 0 ∷ 1 ∷ 10 ∷ 0 ∷ 0 ∷ 1 ∷ 2 ∷ 1 ∷ []) 6
      (record create { bytes_tx = 3; bytes_rx = 4 }),
  dialed address 80 ∷ asked (lit "a.b") ∷ [],
)

serves : handle_socks5_connection sockets net config resolver backend (client, []) ≡ (ok tt, served)
unfolding handle_socks5_connection handle_handshake read_exact refuse_if write_all ◌>>=◌
    finish_handshake handle_user_pass_auth or_fail from_utf8 validate_credentials eq_bytes
    report_auth select_method any handle_request read_address send_response encode_response
    connect_to_target is_domain_blocked parse_ip is_excluded get_no_proxy_list lookup_env_proxy
    resolve_upstream is_empty to_lowercase new_success encode_address to_be_bytes trim_start_matches
    ends_with from_be_bytes
serves = refl

moves : (handle_socks5_connection sockets net config resolver backend (client, [])).1.1 ≢ []
moves = subst (λ r. r.1.1 ≢ []) (sym serves) (λ e. cc)

session_gate_example :
    let (r, (client', trace')) =
      handle_socks5_connection sockets net config resolver backend (client, []) in
    Authenticated sockets net config resolver backend client
    × Asked sockets net config resolver true backend client [] trace'
session_gate_example = session_gate sockets net config resolver backend client [] refl moves

session-Served_example : Served sockets net config resolver backend client [] served
session-Served_example = session-Served sockets net config resolver backend client [] serves

abbrev evil : Socks5Request
evil = record { command = connect; address = domain_name (lit "evil.com"); port = 80 }

abbrev get_evil : HttpRequest
get_evil = record {
  method = lit "GET";
  uri = lit "http://evil.com/";
  version = lit "HTTP/1.1";
  headers = [];
}

asks_evil : get_host_port get_evil ≡ ok (lit "evil.com", 80)
unfolding get_host_port is_connect to_uppercase parse_proxy_uri strip_prefix split split_first
    starts_with eq_bytes
asks_evil = refl

blocks : Blocked net config (some resolver) (lit "evil.com") 80 true []
unfolding is_domain_blocked to_lowercase trim_start_matches eq_bytes any is_empty
blocks = inl refl

blocked-Told_example :
    Told sockets net config resolver
      (lit "evil.com")
      80
      []
      []
      0
      create
      []
      (λ e. lit "Connection to target failed: " ++ e)
      (error_reply 0x02)
      (handle_socks5_connect sockets net config resolver evil (conn [] [] 1 create, []))
    × Told sockets net config resolver
        (lit "evil.com")
        80
        []
        []
        0
        create
        []
        (λ e. e)
        forbidden
        (handle_connect sockets net config resolver true
          (lit "evil.com")
          80
          (conn [] [] 1 create, []))
    × Told sockets net config resolver
        (lit "evil.com")
        80
        []
        []
        0
        create
        []
        (λ e. e)
        forbidden
        (handle_regular_proxy sockets net config resolver true get_evil (conn [] [] 1 create, []))
blocked-Told_example =
    blocked-Told sockets net config resolver evil get_evil [] [] 0 create [] asks_evil blocks
