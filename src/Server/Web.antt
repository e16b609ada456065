-- ===== src/Server/Web.antt =====
-- One HTTP connection: `handle_http_connection`.
pub mod Gate
mod Tests
use rust_socksd.Prelude.{
  ℕ, Bool, true, false, List, [], ◌∷◌, ◌++◌, Option, none, some, Bytes, lit, Result, ok, err,
}
use rust_socksd.Text.{Unicode}
use rust_socksd.Auth.{Authenticator}
use rust_socksd.Config.{Config}
use rust_socksd.Stream.{Conn}
use rust_socksd.Relay.{Sockets, Wire, Session, proceed}
use rust_socksd.Upstream.Connect.{Trace, Resolver, Network}
use rust_socksd.Upstream.HttpConnect.{into_inner}
use rust_socksd.HttpProxy.{
  HttpRequest, is_connect, get_host_port, handle_request, validate_auth, send_error_response,
}
use rust_socksd.HttpProxy.Forward.{handle_connect, handle_regular_proxy}

abbrev pub challenge : Bytes
challenge = lit "Proxy Authentication Required\r\nProxy-Authenticate: Basic realm=\"Proxy\""

module _ (sockets : Sockets) ⦃u : Unicode⦄ (net : Network) (decode : Bytes → Option Bytes)
    (config : Config) (authenticator : Option Authenticator) (resolver : Resolver) where
  connect_to : Result (Bytes × ℕ) → Session
  connect_to (err e) wire = (err e, wire)
  connect_to (ok (host, port)) wire = handle_connect sockets net config resolver true host port wire

  -- A request that is let in.
  unfoldable pub forward : HttpRequest → Session
  unfolding connect_to
  forward request wire = elim (is_connect request) [
    | true ↦ connect_to (get_host_port request) wire
    | false ↦ handle_regular_proxy sockets net config resolver true request wire
  ]

  -- What the `BufReader` holds beyond the request is dropped.
  unfoldable pub serve : HttpRequest → Bool × Conn → Trace → Result (Unit {0}) × Wire
  unfolding forward
  serve request (false, client) trace =
      proceed (send_error_response 407 challenge client) trace λ done wire. (ok tt, wire)
  serve request (true, client) trace =
      proceed (into_inner sockets.read_ahead client) trace λ done. forward request

  unfoldable pub handle_http_connection : Session
  unfolding serve
  handle_http_connection (client, trace) =
      proceed (handle_request config client) trace λ request (client', trace').
        serve request (validate_auth decode config authenticator true request client') trace'
