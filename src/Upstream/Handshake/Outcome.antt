-- ===== src/Upstream/Handshake/Outcome.antt =====
-- Whole handshakes with an upstream proxy.
use rust_socksd.Prelude.{
  ℕ, suc, ◌<◌, ◌≡◌, ◌≢◌, refl, ◌∙◌, true, [], ◌∷◌, ◌++◌, map, Option, none, some, Bytes, ok, err,
  length, append_assoc, arith, lit, any, ◌%◌,
}
use rust_socksd.Text.{from_utf8, decimal}
use rust_socksd.Net.{SocketAddr}
use rust_socksd.Metrics.{ServerMetrics}
use rust_socksd.Stream.{Conn, conn, stream_laws, refuse_if, ◌>>=◌}
use rust_socksd.Socks5.{Socks5Handler, handle_handshake, validate_credentials}
use rust_socksd.Socks5.Protocol.{new_success, new_error, encode_response, is_user_pass, auth_method}
use rust_socksd.Socks5.Admission.{handshake_verdict}
use rust_socksd.Upstream.Handshake.{
  conn_msg, socks5_connect_handshake, follow_method, authenticate, init_msg, auth_msg, offered,
  both,
}
use rust_socksd.Upstream.Handshake.Session.{HasWidth, accepts_success, reports_error}

follow_plain : (creds : Option (Bytes × Bytes)) (c : Conn) → follow_method creds 0x00 c ≡ (ok tt, c)
unfolding follow_method refuse_if
follow_plain none c = refl
follow_plain (some (u, p)) c = refl

module _ (host : Bytes) (port k : ℕ) (rest output : Bytes) (m : ServerMetrics) where
  -- A proxy that asks for no authentication and reports success: the client, with credentials or
  -- without, sends its greeting and its request and leaves what the proxy sends next unread.
  pub handshake_plain :
      (username password : Option Bytes) (addr : SocketAddr)
      → HasWidth addr.ip
      → socks5_connect_handshake host port username password
          (conn (0x05 ∷ 0x00 ∷ (encode_response (new_success addr) ++ rest)) output (suc (suc k)) m)
        ≡ (
          ok tt,
          conn rest
              (output ++ (init_msg (offered (both username password)) ++ conn_msg host port))
              k
              m,
        )
  unfolding socks5_connect_handshake ◌>>=◌ refuse_if
  handshake_plain username password addr w = simp (
    stream_laws,
    append_assoc,
    follow_plain (both username password),
    accepts_success k rest _ m addr w,
  )

  -- A proxy that asks for no authentication and refuses the request: the client fails with the
  -- proxy's code.
  pub handshake_refused :
      (username password : Option Bytes) (code : ℕ)
      → code ≢ 0
      → (socks5_connect_handshake host port username password (
          conn (0x05 ∷ 0x00 ∷ (encode_response (new_error code) ++ rest)) output (suc (suc k)) m)).0
        ≡ err (lit "SOCKS5 proxy failed to connect: error code " ++ decimal code)
  unfolding socks5_connect_handshake ◌>>=◌ refuse_if
  handshake_refused username password code nonzero =
      simp
        (stream_laws, follow_plain (both username password), reports_error k rest _ m code nonzero)

  -- A proxy that selects the password method, accepts the credentials and reports success.
  pub handshake_password :
      (u p : Bytes) (addr : SocketAddr)
      → HasWidth addr.ip
      → socks5_connect_handshake host port (some u) (some p) (
          conn
            (0x05 ∷ 0x02 ∷ 0x01 ∷ 0x00 ∷ (encode_response (new_success addr) ++ rest))
            output
            (suc (suc (suc k)))
            m)
        ≡ (
          ok tt,
          conn rest
              (output ++ (init_msg (0x00 ∷ 0x02 ∷ []) ++ (auth_msg u p ++ conn_msg host port)))
              k
              m,
        )
  unfolding socks5_connect_handshake ◌>>=◌ refuse_if follow_method authenticate
  handshake_password u p addr w =
      simp (stream_laws, append_assoc, accepts_success k rest _ m addr w)

-- A server that requires authentication lets in the client that sends credentials which it takes, if
-- they are UTF-8 of less than 256 bytes each, and answers with what the client waits for.
pub client_admitted :
    (h : Socks5Handler) (u p rest : Bytes) (k : ℕ) (m : ServerMetrics)
    → length u < 256
    → length p < 256
    → from_utf8 u ≡ some u
    → from_utf8 p ≡ some p
    → validate_credentials h u p ≡ true
    → handle_handshake h true (
        conn
          (init_msg (offered (both (some u) (some p))) ++ (auth_msg u p ++ rest))
          []
          (suc (suc k))
          m)
      ≡ (ok true, conn rest (0x05 ∷ 0x02 ∷ 0x01 ∷ 0x00 ∷ []) k m)
unfolding any
client_admitted h u p rest k m short_u short_p text_u text_p valid =
    let told_u : length u % 256 ≡ length u = omega arith in
    let told_p : length p % 256 ≡ length p = omega arith in
    rw (told_u, told_p)
      (handshake_verdict h (0x00 ∷ 0x02 ∷ []) u p rest [] k m (omega arith) offers text_u text_p
        ∙ rw valid refl)
  where
    offers : any is_user_pass (map auth_method (0x00 ∷ 0x02 ∷ [])) ≡ true
    offers = refl
