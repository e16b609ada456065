-- ===== src/HttpProxy/Forward.antt =====
-- What the HTTP proxy does for a request, src/http_proxy.rs: `handle_connect`,
-- `handle_regular_proxy`, `relay_data`.
use rust_socksd.Prelude.{ℕ, Bool, false, ◌++◌, some, Bytes, lit, Result, ok, err, if◌then◌else◌}
use rust_socksd.Text.{Unicode}
use rust_socksd.Config.{Config}
use rust_socksd.Stream.{Conn, write_all}
use rust_socksd.Relay.{Sockets, Wire, Session, proceed, count_copied, is_policy_error}
use rust_socksd.Upstream.Connect.{Trace, Resolver, Network, connect_to_target}
use rust_socksd.HttpProxy.{HttpRequest, get_host_port, request_data, send_error_response}

abbrev pub status_code : Bytes → ℕ
status_code e = if is_policy_error e then 403 else 502

abbrev pub status_message : Bytes → Bytes
status_message e =
    if is_policy_error e
    then lit "Forbidden: Egress connection blocked by security policy"
    else lit "Bad Gateway: " ++ e

abbrev pub established : Bytes
established = lit "HTTP/1.1 200 Connection Established\r\n\r\n"

module _ (sockets : Sockets) where
  -- With metrics the bytes are counted.
  unfoldable pub relay_data : Bool → Conn → Session
  relay_data counted target (client, trace) = (
    ok tt,
    (
      if counted then count_copied (sockets.copy_bidirectional client target) client else client,
      trace,
    ),
  )

  -- The answer to a target that cannot be reached. The error goes on.
  unfoldable pub report_failure : Bytes → Session
  report_failure e (client, trace) =
      proceed (send_error_response (status_code e) (status_message e) client) trace
        λ done wire. (err e, wire)

  unfoldable pub answer_connect : Bool → Conn → Result Conn × Trace → Result (Unit {0}) × Wire
  unfolding report_failure relay_data
  answer_connect counted client (err e, trace) = report_failure e (client, trace)
  answer_connect counted client (ok target, trace) =
      proceed (write_all established client) trace λ done. relay_data counted target

  -- The request is written to the target; if the target is gone, nothing is relayed.
  forward_request : Bool → Result (Unit {0}) × Conn → Session
  unfolding relay_data
  forward_request counted (ok done, target) wire = relay_data counted target wire
  forward_request counted (err e, target) wire = (err e, wire)

  unfoldable pub answer_regular :
      Bool → HttpRequest → Conn → Result Conn × Trace → Result (Unit {0}) × Wire
  unfolding report_failure forward_request
  answer_regular counted request client (err e, trace) = report_failure e (client, trace)
  answer_regular counted request client (ok target, trace) =
      forward_request counted (write_all (request_data request) target) (client, trace)

  module _ ⦃u : Unicode⦄ (net : Network) (config : Config) (resolver : Resolver)
      (counted : Bool) where
    unfoldable pub handle_connect : Bytes → ℕ → Session
    unfolding answer_connect
    handle_connect target_host target_port (client, trace) =
        answer_connect counted client
          (connect_to_target net config (some resolver) target_host target_port false trace)

    unfoldable pub handle_target : HttpRequest → Result (Bytes × ℕ) → Session
    unfolding answer_regular
    handle_target request (err e) wire = (err e, wire)
    handle_target request (ok (target_host, target_port)) (client, trace) =
        answer_regular counted request client
          (connect_to_target net config (some resolver) target_host target_port false trace)

    unfoldable pub handle_regular_proxy : HttpRequest → Session
    unfolding handle_target
    handle_regular_proxy request wire = handle_target request (get_host_port request) wire
