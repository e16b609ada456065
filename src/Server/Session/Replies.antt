-- ===== src/Server/Session/Replies.antt =====
-- What a client is told and what is left when a connection ends.
use rust_socksd.Prelude.{
  ℕ, suc, true, false, ◌≡◌, refl, [], ◌∷◌, ◌++◌, some, Bytes, lit, Result, ok, err, ◌⊎◌,
}
use rust_socksd.Text.{Unicode}
use rust_socksd.Net.{to_be_bytes}
use rust_socksd.Config.{Config}
use rust_socksd.Metrics.{ServerMetrics}
use rust_socksd.Stream.{Conn, conn, write_all, write_all-suc}
use rust_socksd.Relay.{Sockets, Wire, is_policy_error}
use rust_socksd.Socks5.{send_response}
use rust_socksd.Socks5.Protocol.{Socks5Request, new_error, encode_response, encode_address}
use rust_socksd.Upstream.Connect.{Trace, Resolver, Network, resolve_target}
use rust_socksd.Upstream.Connect.Refused.{Blocked, Refused, blocked_error}
use rust_socksd.HttpProxy.{HttpRequest, get_host_port, error_text, send_error_response}
use rust_socksd.HttpProxy.Forward.{
  report_failure, handle_connect, answer_regular, handle_target, handle_regular_proxy,
}
use rust_socksd.HttpProxy.Forward
use rust_socksd.Server.Session.{target_host, refuse_tunnel, answer_connect, handle_socks5_connect}

-- The bytes of an error reply.
abbrev pub error_reply : ℕ → Bytes
error_reply code = 0x05 ∷ code ∷ 0x00 ∷ 0x01 ∷ 0x00 ∷ 0x00 ∷ 0x00 ∷ 0x00 ∷ 0x00 ∷ 0x00 ∷ []

refused_reply :
    (sockets : Sockets) (e input output : Bytes) (k : ℕ) (m : ServerMetrics) (trace : Trace)
    → is_policy_error e ≡ true
    → refuse_tunnel sockets e (conn input output (suc k) m, trace) ≡ (
      err (lit "Connection to target failed: " ++ e),
      (conn input (output ++ error_reply 0x02) k m, trace),
    )
unfolding refuse_tunnel send_response write_all encode_response encode_address new_error to_be_bytes
refused_reply sockets e input output k m trace h = rw h refl

-- `403` as it is written.
abbrev pub forbidden : Bytes
forbidden = error_text 403 (lit "Forbidden: Egress connection blocked by security policy")

refused_status :
    (e input output : Bytes) (k : ℕ) (m : ServerMetrics) (trace : Trace) (sockets : Sockets)
    → is_policy_error e ≡ true
    → report_failure sockets e (conn input output (suc k) m, trace)
      ≡ (err e, (conn input (output ++ forbidden) k m, trace))
unfolding report_failure send_error_response
refused_status e input output k m trace sockets h =
    rw (h, write_all-suc output m forbidden input k) refl

module _ (sockets : Sockets) ⦃u : Unicode⦄ (net : Network) (config : Config) (resolver : Resolver)
    (host : Bytes) (port : ℕ) (input output : Bytes) (k : ℕ) (m : ServerMetrics)
    (trace : Trace) where
  -- At most the resolver was asked.
  abbrev pub Undialed : Trace → Type 0
  Undialed trace' =
      (trace' ≡ trace) ⊎ (trace' ≡ (resolve_target net config (some resolver) host port trace).1)

  abbrev pub Told : (Bytes → Bytes) → Bytes → Result (Unit {0}) × Wire → Type 0
  Told message reply result =
      (e : Bytes) × (trace' : Trace) × Undialed trace'
      × (result ≡ (err (message e), (conn input (output ++ reply) k m, trace')))

  Told-socks5 :
      (attempt : Result Conn × Trace)
      → Refused net config (some resolver) host port true trace attempt
      → Told
          (λ e. lit "Connection to target failed: " ++ e)
          (error_reply 0x02)
          (answer_connect sockets (conn input output (suc k) m) attempt)
  unfolding answer_connect
  Told-socks5 (r, trace') (e, failed, policy, undialed) =
      rw failed (e, trace', undialed, refused_reply sockets e input output k m trace' policy)

  Told-http :
      (attempt : Result Conn × Trace)
      → Refused net config (some resolver) host port false trace attempt
      → Told
          (λ e. e)
          forbidden
          (Forward.answer_connect sockets true (conn input output (suc k) m) attempt)
  unfolding Forward.answer_connect
  Told-http (r, trace') (e, failed, policy, undialed) =
      rw failed (e, trace', undialed, refused_status e input output k m trace' sockets policy)

  Told-regular :
      (http : HttpRequest) (attempt : Result Conn × Trace)
      → Refused net config (some resolver) host port false trace attempt
      → Told
          (λ e. e)
          forbidden
          (answer_regular sockets true http (conn input output (suc k) m) attempt)
  unfolding answer_regular
  Told-regular http (r, trace') (e, failed, policy, undialed) =
      rw failed (e, trace', undialed, refused_status e input output k m trace' sockets policy)

-- A client that asks for a target that the policy blocks, by its name or by one of its addresses,
-- is told so, by reply 0x02 of SOCKS5 and by status 403 of HTTP, for a CONNECT as for any other
-- request, as long as it can still be written to; nothing is dialed, at most the resolver was asked.
pub blocked-Told :
    (sockets : Sockets) ⦃u : Unicode⦄ (net : Network) (config : Config) (resolver : Resolver)
    (request : Socks5Request) (http : HttpRequest) (input output : Bytes) (k : ℕ)
    (m : ServerMetrics) (trace : Trace)
    → let host = target_host request.address in
      let port = request.port in
      let client = conn input output (suc k) m in
      get_host_port http ≡ ok (host, port)
      → Blocked net config (some resolver) host port true trace
      → Told sockets net config resolver host port input output k m trace
          (λ e. lit "Connection to target failed: " ++ e)
          (error_reply 0x02)
          (handle_socks5_connect sockets net config resolver request (client, trace))
        × Told sockets net config resolver host port input output k m trace
            (λ e. e)
            forbidden
            (handle_connect sockets net config resolver true host port (client, trace))
        × Told sockets net config resolver host port input output k m trace
            (λ e. e)
            forbidden
            (handle_regular_proxy sockets net config resolver true http (client, trace))
unfolding handle_socks5_connect handle_connect handle_regular_proxy handle_target
blocked-Told sockets net config resolver request http input output k m trace asked blocked =
    let host = target_host request.address in
    let refused = blocked_error net config (some resolver) host request.port false trace blocked in
    (
      Told-socks5 sockets net config resolver host request.port input output k m trace _
          (blocked_error net config (some resolver) host request.port true trace blocked),
      Told-http sockets net config resolver host request.port input output k m trace _ refused,
      rw asked (
          Told-regular sockets net config resolver host request.port input output k m trace http _
            refused),
    )
