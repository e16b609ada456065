-- ===== src/Server/Session/Tunnel.antt =====
-- What a connection that ends well has been through.
use rust_socksd.Prelude.{
  Bool, true, false, ◌≡◌, ◌≢◌, refl, ap, subst, ℕ, Option, some, Bytes, Result, ok, err,
}
use rust_socksd.Text.{Unicode}
use rust_socksd.Net.{SocketAddr}
use rust_socksd.Config.{Config}
use rust_socksd.Auth.{Authenticator}
use rust_socksd.Stream.{Conn}
use rust_socksd.Relay.{Sockets, Wire, Session, proceed, count_copied, count_bytes}
use rust_socksd.Socks5.{handle_handshake, handle_request, send_response}
use rust_socksd.Socks5.Protocol.{
  Command, connect, bind, udp_associate, Socks5Request, new_success, new_error,
}
use rust_socksd.Upstream.Policy.{is_domain_blocked}
use rust_socksd.Upstream.Connect.Checked.{Checked, connect_to_target_sound}
use rust_socksd.Upstream.Connect.{has_egress_rules, Trace, Resolver, Network, resolve_target}
use rust_socksd.Server.Session.{
  handler_of, target_host, reply_code, start_tunnel, refuse_tunnel, answer_connect, refuse_command,
  relay_data, handle_socks5_connect, handle_command, serve_request, handle_socks5_connection,
}
use rust_socksd.Server.Session.Gate.{attempt}

proceed-eq-ok {ℓ} :
    {A : Type ℓ} (x : Result A × Conn) (trace : Trace) (next : A → Session) {wire : Wire}
    → proceed x trace next ≡ (ok tt, wire)
    → (a : A) × (c : Conn) × (x ≡ (ok a, c)) × (next a (c, trace) ≡ (ok tt, wire))
proceed-eq-ok (ok a, c) trace next h = (a, c, refl, h)
proceed-eq-ok (err e, c) trace next h = cc

-- What the copying reports is counted once; of a copying that fails nothing is.
abbrev pub Counted : Conn → Conn → Result (ℕ × ℕ) → Type 0
Counted c c' (ok (tx, rx)) = c' ≡ count_bytes tx rx c
Counted c c' (err e) = c' ≡ c

count_copied-Counted :
    (c : Conn) (copied : Result (ℕ × ℕ)) → Counted c (count_copied copied c) copied
count_copied-Counted c (ok (tx, rx)) = refl
count_copied-Counted c (err e) = refl

module _ (sockets : Sockets) where
  -- The success reply has gone out, and what the copying moved is counted.
  abbrev pub Tunnelled : Conn → Result Conn × Trace → Wire → Type 0
  Tunnelled client attempt (client', trace') =
      (target : Conn) × (local_addr : SocketAddr) × (c : Conn) × (attempt ≡ (ok target, trace'))
      × (sockets.local_addr target ≡ ok local_addr)
      × (send_response (new_success local_addr) client ≡ (ok tt, c))
      × Counted c client' (sockets.copy_bidirectional c target)

  start_tunnel_sound :
      (client target : Conn) (trace : Trace) (addr : Result SocketAddr) {wire : Wire}
      → sockets.local_addr target ≡ addr
      → start_tunnel sockets target addr (client, trace) ≡ (ok tt, wire)
      → Tunnelled client (ok target, trace) wire
  unfolding start_tunnel relay_data
  start_tunnel_sound client target trace (err e) same h = cc
  start_tunnel_sound client target trace (ok addr) {wire} same h =
      let (done, c, sent, k) = proceed-eq-ok (send_response (new_success addr) client) trace _ h in
      let copied = sockets.copy_bidirectional c target in
      (
        target,
        addr,
        c,
        ap (λ r. (ok target, r.1.1)) k,
        same,
        sent,
        subst (λ c'. Counted c c' copied) (ap (λ r. r.1.0) k) (count_copied-Counted c copied),
      )

  answer_connect_sound :
      (client : Conn) (attempt : Result Conn × Trace) {wire : Wire}
      → answer_connect sockets client attempt ≡ (ok tt, wire)
      → Tunnelled client attempt wire
  unfolding answer_connect refuse_tunnel
  answer_connect_sound client (err e, trace) h =
      let (done, c, sent, k) =
        proceed-eq-ok (send_response (new_error (reply_code e)) client) trace _ h in
      cc k
  answer_connect_sound client (ok target, trace) h =
      start_tunnel_sound client target trace (sockets.local_addr target) refl h

  refuse_command-fails :
      (message : Bytes) (client : Conn) (trace : Trace) {wire : Wire}
      → refuse_command sockets message (client, trace) ≢ (ok tt, wire)
  unfolding refuse_command
  refuse_command-fails message client trace h =
      let (done, c, sent, k) = proceed-eq-ok (send_response (new_error 0x07) client) trace _ h in
      cc k

  module _ ⦃u : Unicode⦄ (net : Network) (config : Config) (resolver : Resolver) where
    handle_command_sound :
        (command : Command) (request : Socks5Request) (client : Conn) (trace : Trace) {wire : Wire}
        → handle_command sockets net config resolver command request (client, trace) ≡ (ok tt, wire)
        → (command ≡ connect)
          × Tunnelled client (attempt sockets net config resolver request trace) wire
    unfolding handle_command handle_socks5_connect
    handle_command_sound connect request client trace h =
        (refl, answer_connect_sound client (attempt sockets net config resolver request trace) h)
    handle_command_sound bind request client trace h =
        absurd (refuse_command-fails _ client trace h)
    handle_command_sound udp_associate request client trace h =
        absurd (refuse_command-fails _ client trace h)

    -- The request, read after the handshake, and the tunnel to a target that passed the policy.
    abbrev pub Served : Option Authenticator → Conn → Trace → Wire → Type 0
    Served authenticator client trace (client', trace') =
        (c₁ : Conn) × (c₂ : Conn) × (request : Socks5Request) × (handle_handshake
            (handler_of authenticator) config.auth.enabled client
          ≡ (ok true, c₁))
        × (handle_request c₁ ≡ (ok request, c₂))
        × (request.command ≡ connect)
        × Tunnelled c₂ (attempt sockets net config resolver request trace) (client', trace')
        × (let host = target_host request.address in
            (is_domain_blocked config host ≡ false)
            × (has_egress_rules config ≡ true
                → Checked config
                    (resolve_target net config (some resolver) host request.port trace).0))

    serve_request_sound :
        (authenticator : Option Authenticator) (b : Bool) (client c₁ : Conn) (trace : Trace)
        {wire : Wire}
        → handle_handshake (handler_of authenticator) config.auth.enabled client ≡ (ok b, c₁)
        → serve_request sockets net config resolver b (c₁, trace) ≡ (ok tt, wire)
        → Served authenticator client trace wire
    unfolding serve_request
    serve_request_sound authenticator false client c₁ trace shaken h = cc h
    serve_request_sound authenticator true client c₁ trace shaken h =
        let (request, c₂, read, k) = proceed-eq-ok (handle_request c₁) trace _ h in
        let (command, tunnel) = handle_command_sound request.command request c₂ trace k in
        let (target, addr, c, connected, at, sent, counted) = tunnel in
        let (clear, checked, way) =
          connect_to_target_sound net config (some resolver) (target_host request.address)
            request.port true trace connected in
        (c₁, c₂, request, shaken, read, command, tunnel, (clear, checked))

    -- A connection that ends without an error has been through the handshake, has asked for a
    -- connection to a target that the policy does not block, was sent the success reply with the
    -- address of the socket to the target, and then the bytes that the copying reported for each
    -- direction were counted, once, or none if the copying failed.
    pub session-Served :
        (authenticator : Option Authenticator) (client : Conn) (trace : Trace) {wire : Wire}
        → handle_socks5_connection sockets net config resolver authenticator (client, trace)
          ≡ (ok tt, wire)
        → Served authenticator client trace wire
    unfolding handle_socks5_connection
    session-Served authenticator client trace h =
        let (b, c₁, shaken, k) =
          proceed-eq-ok (handle_handshake (handler_of authenticator) config.auth.enabled client)
            trace _ h in
        serve_request_sound authenticator b client c₁ trace shaken k
