-- ===== src/Server/Session/Gate.antt =====
-- What a SOCKS5 connection has passed before anything is done to the network.
use rust_socksd.Prelude.{
  Bool, true, false, ◌≡◌, ◌≢◌, ◌∙◌, refl, ap, subst, ◌++◌, Option, some, Bytes, Result, ok, err,
}
use rust_socksd.Text.{Unicode}
use rust_socksd.Net.{SocketAddr}
use rust_socksd.Auth.{Authenticator}
use rust_socksd.Config.{Config}
use rust_socksd.Stream.{Conn}
use rust_socksd.Relay.{Sockets, Session, proceed}
use rust_socksd.Socks5.{validate_credentials, handle_handshake, handle_request, send_response}
use rust_socksd.Socks5.Protocol.{
  Command, connect, bind, udp_associate, Socks5Request, new_success, new_error,
}
use rust_socksd.Socks5.Handshake.{greeting, auth_message}
use rust_socksd.Socks5.Admission.{handshake_sound}
use rust_socksd.Upstream.Connect.{Trace, Resolver, Network, connect_to_target}
use rust_socksd.Server.Session.{
  handler_of, target_host, reply_code, start_tunnel, refuse_tunnel, answer_connect, refuse_command,
  relay_data, handle_socks5_connect, handle_command, serve_request, handle_socks5_connection,
}

-- What happened if the trace has changed.
pub proceed-moved {ℓ} :
    {A : Type ℓ} (x : Result A × Conn) (trace : Trace) (next : A → Session)
    → (proceed x trace next).1.1 ≢ trace
    → (a : A) × (c : Conn) × (x ≡ (ok a, c)) × (proceed x trace next ≡ next a (c, trace))
proceed-moved (ok a, c) trace next h = (a, c, refl, refl)
proceed-moved (err e, c) trace next h = absurd (h refl)

-- A step that leaves the trace, if what follows does.
pub proceed-trace {ℓ} :
    {A : Type ℓ} (x : Result A × Conn) (trace : Trace) (next : A → Session)
    → ((a : A) (c : Conn) → (next a (c, trace)).1.1 ≡ trace)
    → (proceed x trace next).1.1 ≡ trace
proceed-trace (ok a, c) trace next h = h a c
proceed-trace (err e, c) trace next h = refl

module _ (sockets : Sockets) where
  start_tunnel-trace :
      (target : Conn) (local_addr : Result SocketAddr) (client : Conn) (trace : Trace)
      → (start_tunnel sockets target local_addr (client, trace)).1.1 ≡ trace
  unfolding start_tunnel relay_data
  start_tunnel-trace target (err e) client trace = refl
  start_tunnel-trace target (ok addr) client trace =
      proceed-trace (send_response (new_success addr) client) trace _ (λ a c. refl)

  answer_connect-trace :
      (client : Conn) (attempt : Result Conn × Trace)
      → (answer_connect sockets client attempt).1.1 ≡ attempt.1
  unfolding answer_connect refuse_tunnel
  answer_connect-trace client (err e, trace) =
      proceed-trace (send_response (new_error (reply_code e)) client) trace _ (λ a c. refl)
  answer_connect-trace client (ok target, trace) =
      start_tunnel-trace target (sockets.local_addr target) client trace

  refuse_command-trace :
      (message : Bytes) (client : Conn) (trace : Trace)
      → (refuse_command sockets message (client, trace)).1.1 ≡ trace
  unfolding refuse_command
  refuse_command-trace message client trace =
      proceed-trace (send_response (new_error 0x07) client) trace _ (λ a c. refl)

  module _ ⦃u : Unicode⦄ (net : Network) (config : Config) (resolver : Resolver) where
    abbrev pub attempt : Socks5Request → Trace → Result Conn × Trace
    attempt request trace =
        connect_to_target net config (some resolver) (target_host request.address) request.port true
          trace

    handle_command-moved :
        (command : Command) (request : Socks5Request) (client : Conn) (trace : Trace)
        → (handle_command sockets net config resolver command request (client, trace)).1.1 ≢ trace
        → (command ≡ connect)
          × ((handle_command sockets net config resolver command request (client, trace)).1.1
              ≡ (attempt request trace).1)
    unfolding handle_command handle_socks5_connect
    handle_command-moved connect request client trace h =
        (refl, answer_connect-trace client (attempt request trace))
    handle_command-moved bind request client trace h =
        absurd (h (refuse_command-trace _ client trace))
    handle_command-moved udp_associate request client trace h =
        absurd (h (refuse_command-trace _ client trace))

    -- A request for a connection, read after the handshake, and what it led to.
    abbrev pub Asked : Bool → Option Authenticator → Conn → Trace → Trace → Type 0
    Asked auth_required authenticator client trace trace' =
        (c₁ : Conn) × (c₂ : Conn) × (request : Socks5Request) × (handle_handshake
            (handler_of authenticator) auth_required client
          ≡ (ok true, c₁))
        × (handle_request c₁ ≡ (ok request, c₂))
        × (request.command ≡ connect)
        × (trace' ≡ (attempt request trace).1)

    -- The client has sent a username and password that the backend accepts.
    abbrev pub Authenticated : Option Authenticator → Conn → Type 0
    Authenticated authenticator client =
        (methods : Bytes) × (username : Bytes) × (password : Bytes) × (rest : Bytes) × (client.input
          ≡ greeting methods ++ (auth_message username password ++ rest))
        × (validate_credentials (handler_of authenticator) username password ≡ true)

    serve_request-moved :
        (b : Bool) (client : Conn) (trace : Trace)
        → (serve_request sockets net config resolver b (client, trace)).1.1 ≢ trace
        → (c₂ : Conn) × (request : Socks5Request) × (b ≡ true)
          × (handle_request client ≡ (ok request, c₂))
          × (request.command ≡ connect)
          × ((serve_request sockets net config resolver b (client, trace)).1.1
              ≡ (attempt request trace).1)
    unfolding serve_request
    serve_request-moved false client trace h = absurd (h refl)
    serve_request-moved true client trace h =
        let (request, c₂, read, same) = proceed-moved (handle_request client) trace _ h in
        let moved =
          handle_command-moved request.command request c₂ trace
            (subst (λ r. r.1.1 ≢ trace) same h) in
        (c₂, request, refl, read, moved.0, ap (λ r. r.1.1) same ∙ moved.1)

    session-Asked :
        (authenticator : Option Authenticator) (client : Conn) (trace : Trace)
        → let (r, (client', trace')) =
            handle_socks5_connection sockets net config resolver authenticator (client, trace) in
          trace' ≢ trace → Asked config.auth.enabled authenticator client trace trace'
    unfolding handle_socks5_connection
    session-Asked authenticator client trace h =
        let (b, c₁, shaken, same) =
          proceed-moved (handle_handshake (handler_of authenticator) config.auth.enabled client)
            trace _ h in
        let (c₂, request, b_true, read, command, moved) =
          serve_request-moved b c₁ trace (subst (λ r. r.1.1 ≢ trace) same h) in
        (
          c₁,
          c₂,
          request,
          subst
              (λ b.
                handle_handshake (handler_of authenticator) config.auth.enabled client ≡ (ok b, c₁))
              b_true shaken,
          read,
          command,
          ap (λ r. r.1.1) same ∙ moved,
        )

    Asked-after_auth :
        (authenticator : Option Authenticator) (client : Conn) (trace trace' : Trace)
        → (required : Bool) → required ≡ true
        → Asked required authenticator client trace trace'
        → Authenticated authenticator client × Asked true authenticator client trace trace'
    Asked-after_auth authenticator client trace trace' required enabled asked_if =
        let asked = subst (λ b. Asked b authenticator client trace trace') enabled asked_if in
        let (c₁, c₂, request, shaken, read, command, moved) = asked in
        let (methods, username, password, sent, valid, said, done) =
          handshake_sound (handler_of authenticator) client shaken in
        ((methods, username, password, c₁.input, sent, valid), asked)

    -- A connection of a client does nothing to the network, be it to resolve a name, before the
    -- client has been through the handshake, with authentication enabled by a username and
    -- password that the backend accepts, and has asked for a connection. What is done then is what
    -- connecting to that target does, and nothing after it.
    pub session_gate :
        (authenticator : Option Authenticator) (client : Conn) (trace : Trace)
        → config.auth.enabled ≡ true
        → let (r, (client', trace')) =
            handle_socks5_connection sockets net config resolver authenticator (client, trace) in
          trace' ≢ trace
          → Authenticated authenticator client × Asked true authenticator client trace trace'
    session_gate authenticator client trace enabled h =
        Asked-after_auth authenticator client trace _ config.auth.enabled enabled
          (session-Asked authenticator client trace h)
