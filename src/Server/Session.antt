-- ===== src/Server/Session.antt =====
-- One SOCKS5 connection: `handle_socks5_connection`, `handle_socks5_connect`, `relay_data`. An
-- action has the client's connection and the trace of what was done to the network.
pub mod Gate
pub mod Replies
pub mod Tunnel
mod Tests
use rust_socksd.Prelude.{
  ℕ, Bool, true, false, List, [], ◌∷◌, ◌++◌, Option, none, some, Bytes, lit, Result, ok, err,
  if◌then◌else◌,
}
use rust_socksd.Text.{Unicode}
use rust_socksd.Net.{IpAddr, v4, v6, SocketAddr, display_ip}
use rust_socksd.Auth.{Authenticator}
use rust_socksd.Config.{Config}
use rust_socksd.Stream.{Conn}
use rust_socksd.Relay.{Sockets, Wire, Session, proceed, count_copied, is_policy_error}
use rust_socksd.Socks5.{Socks5Handler, handle_handshake, handle_request, send_response}
use rust_socksd.Socks5.Protocol.{
  Command, connect, bind, udp_associate, Address, ipv4, ipv6, domain_name, Socks5Request,
  new_success, new_error,
}
use rust_socksd.Upstream.Connect.{Trace, Resolver, Network, connect_to_target}

abbrev pub target_host : Address → Bytes
target_host (ipv4 octets) = display_ip (v4 octets)
target_host (ipv6 octets) = display_ip (v6 octets)
target_host (domain_name domain) = domain

abbrev pub reply_code : Bytes → ℕ
reply_code e = if is_policy_error e then 0x02 else 0x04

-- `Socks5Handler::new`
abbrev pub handler_of : Option Authenticator → Socks5Handler
handler_of authenticator = record { authenticator = authenticator; metrics = true }

module _ (sockets : Sockets) where
  unfoldable pub relay_data : Conn → Session
  relay_data target (client, trace) =
      (ok tt, (count_copied (sockets.copy_bidirectional client target) client, trace))

  start_tunnel : Conn → Result SocketAddr → Session
  unfolding relay_data
  start_tunnel target (err e) (client, trace) = (err e, (client, trace))
  start_tunnel target (ok local_addr) (client, trace) =
      proceed (send_response (new_success local_addr) client) trace λ done. relay_data target

  refuse_tunnel : Bytes → Session
  refuse_tunnel e (client, trace) =
      proceed (send_response (new_error (reply_code e)) client) trace
        λ done wire. (err (lit "Connection to target failed: " ++ e), wire)

  -- What follows the attempt to connect.
  unfoldable pub answer_connect : Conn → Result Conn × Trace → Result (Unit {0}) × Wire
  unfolding start_tunnel refuse_tunnel
  answer_connect client (ok target, trace) =
      start_tunnel target (sockets.local_addr target) (client, trace)
  answer_connect client (err e, trace) = refuse_tunnel e (client, trace)

  refuse_command : Bytes → Session
  refuse_command message (client, trace) =
      proceed (send_response (new_error 0x07) client) trace λ done wire. (err message, wire)

  module _ ⦃u : Unicode⦄ (net : Network) (config : Config) (resolver : Resolver) where
    unfoldable pub handle_socks5_connect : Socks5Request → Session
    unfolding answer_connect
    handle_socks5_connect request (client, trace) = answer_connect client (
        connect_to_target net config (some resolver) (target_host request.address) request.port true
          trace)

    unfoldable pub handle_command : Command → Socks5Request → Session
    unfolding handle_socks5_connect refuse_command
    handle_command connect request = handle_socks5_connect request
    handle_command bind request = refuse_command (lit "BIND command not supported")
    handle_command udp_associate request =
        refuse_command (lit "UDP ASSOCIATE command not supported")

    -- What follows the handshake.
    unfoldable pub serve_request : Bool → Session
    unfolding handle_command
    serve_request false wire = (err (lit "SOCKS5 handshake failed"), wire)
    serve_request true (client, trace) =
        proceed (handle_request client) trace λ request. handle_command request.command request

    unfoldable pub handle_socks5_connection : Option Authenticator → Session
    unfolding serve_request
    handle_socks5_connection authenticator (client, trace) =
        proceed (handle_handshake (handler_of authenticator) config.auth.enabled client) trace
          serve_request
