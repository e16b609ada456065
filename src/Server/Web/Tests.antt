-- ===== src/Server/Web/Tests.antt =====
-- An HTTP client with a password.
use rust_socksd.Prelude.{
  ◌≡◌, ◌≢◌, refl, sym, subst, true, ◌&&◌, [], ◌∷◌, none, some, Bytes, lit, ok, err, eq_bytes,
  is_empty, any,
}
use rust_socksd.Text.{
  Unicode, from_utf8, split_whitespace, trim, split_once, to_lowercase, to_uppercase, strip_prefix,
  split, parse_uint,
}
use rust_socksd.Map.{lookup, insert}
use rust_socksd.Net.{v4, parse_ip}
use rust_socksd.Metrics.{create}
use rust_socksd.Auth.{Authenticator}
use rust_socksd.Config.{Config, default_config}
use rust_socksd.Stream.{Conn, conn, write_all}
use rust_socksd.Relay.{Sockets}
use rust_socksd.Upstream.Connect.{asked, dialed, Resolver, Network, connect_to_target}
use rust_socksd.Upstream.HttpConnect.{into_inner}
use rust_socksd.Upstream.Policy.{is_domain_blocked, is_excluded}
use rust_socksd.Upstream.Route.{get_no_proxy_list, lookup_env_proxy, resolve_upstream}
use rust_socksd.HttpProxy.{
  HttpRequest, handle_request, credentials, validate_auth, add_header, is_connect, get_host_port,
}
use rust_socksd.HttpProxy.Forward.{handle_connect}
use rust_socksd.Server.Web.{handle_http_connection}
use rust_socksd.Server.Web.Gate.{web_gate}

instance abbrev unicode : Unicode
unicode = record { lower = λ s. s; upper = λ s. s }

abbrev config : Config
config = record default_config { auth = record (default_config.auth) { enabled = true } }

abbrev resolver : Resolver
resolver trace name = ok (v4 (93 ∷ 184 ∷ 216 ∷ 34 ∷ []) ∷ [])

abbrev net : Network
net = record {
  dial = λ trace e. ok (conn [] [] 1 create);
  lookup_host = λ trace name port. err [];
  env = λ name. none;
  encode = λ s. s;
  buffered = 0;
}

abbrev sockets : Sockets
sockets = record {
  read_ahead = 0;
  local_addr = λ c. err [];
  copy_bidirectional = λ c target. ok (3, 4);
}

abbrev backend : Authenticator
backend = record { authenticate = λ u p. ok (eq_bytes u (lit "u") && eq_bytes p (lit "p")) }

abbrev client : Conn
client = conn (lit "CONNECT a.b:80 HTTP/1.1\r\nProxy-Authorization: Basic u:p\r\n\r\n") [] 9 create

tunnels :
    handle_http_connection sockets net (λ s. some s) config (some backend) resolver (client, []) ≡ (
      ok tt,
      (
        conn []
            (lit "HTTP/1.1 200 Connection Established\r\n\r\n")
            8
            (record create { bytes_tx = 3; bytes_rx = 4 }),
        dialed (v4 (93 ∷ 184 ∷ 216 ∷ 34 ∷ [])) 80 ∷ asked (lit "a.b") ∷ [],
      ),
    )
unfolding handle_http_connection handle_request from_utf8 is_empty split_whitespace trim
    validate_auth lookup add_header split_once insert eq_bytes to_lowercase strip_prefix into_inner
    is_connect to_uppercase get_host_port split parse_uint write_all connect_to_target parse_ip any
    is_domain_blocked is_excluded get_no_proxy_list lookup_env_proxy resolve_upstream handle_connect
tunnels = refl

moves :
    (handle_http_connection sockets net
      (λ s. some s)
      config
      (some backend)
      resolver
      (client, [])).1.1
    ≢ []
moves = subst (λ r. r.1.1 ≢ []) (sym tunnels) (λ e. cc)

web_gate_example :
    (request : HttpRequest) × (c : Conn) × (username : Bytes) × (password : Bytes)
    × (auth : Authenticator) × (handle_request config client ≡ (ok request, c))
    × (credentials (λ s. some s) request ≡ some (username, password))
    × (some backend ≡ some auth)
    × (auth.authenticate username password ≡ ok true)
web_gate_example =
    web_gate sockets net (λ s. some s) config (some backend) resolver client [] refl moves
