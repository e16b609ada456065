-- ===== src/Upstream/Handshake/Tests.antt =====
-- Handshakes with concrete proxies.
use rust_socksd.Prelude.{
  ◌≡◌, refl, true, ◌&&◌, [], ◌∷◌, ◌++◌, none, some, Bytes, ok, err, lit, arith, eq_bytes,
}
use rust_socksd.Text.{from_utf8, decimal}
use rust_socksd.Net.{SocketAddr, v4, parse_ip}
use rust_socksd.Metrics.{create}
use rust_socksd.Auth.{Authenticator}
use rust_socksd.Stream.{conn}
use rust_socksd.Socks5.{Socks5Handler, handle_request, handle_handshake, validate_credentials}
use rust_socksd.Socks5.Protocol.{connect, new_success, new_error, encode_response}
use rust_socksd.Upstream.Handshake.{
  conn_msg, socks5_connect_handshake, init_msg, auth_msg, offered, both,
}
use rust_socksd.Upstream.Handshake.Session.{named, Fits, handle_request-conn_msg}
use rust_socksd.Upstream.Handshake.Outcome.{
  handshake_plain, handshake_refused, handshake_password, client_admitted,
}

abbrev host : Bytes
host = lit "example.com"

abbrev bound : SocketAddr
bound = record { ip = v4 (10 ∷ 0 ∷ 0 ∷ 1 ∷ []); port = 4096 }

host-Fits : Fits host (parse_ip host)
unfolding parse_ip from_utf8
host-Fits = (omega arith, refl)

handle_request-conn_msg_example :
    handle_request (conn (conn_msg host 443 ++ lit "GET") [] 0 create) ≡ (
      ok (record { command = connect; address = named host (parse_ip host); port = 443 }),
      conn (lit "GET") [] 0 create,
    )
handle_request-conn_msg_example =
    handle_request-conn_msg host 443 0 (lit "GET") [] create (omega arith) host-Fits

handshake_plain_example :
    socks5_connect_handshake host 443
      (some (lit "u"))
      none
      (conn (0x05 ∷ 0x00 ∷ (encode_response (new_success bound) ++ lit "hi")) [] 2 create)
    ≡ (ok tt, conn (lit "hi") (init_msg (0x00 ∷ []) ++ conn_msg host 443) 0 create)
handshake_plain_example =
    handshake_plain host 443 0 (lit "hi") [] create (some (lit "u")) none bound refl

handshake_refused_example :
    (socks5_connect_handshake host 443 none none
      (conn (0x05 ∷ 0x00 ∷ (encode_response (new_error 0x02) ++ [])) [] 2 create)).0
    ≡ err (lit "SOCKS5 proxy failed to connect: error code " ++ decimal 0x02)
handshake_refused_example =
    handshake_refused host 443 0 [] [] create none none 0x02 (λ e. omega (arith, e))

handshake_password_example :
    socks5_connect_handshake host 443 (some (lit "alice")) (some (lit "secret")) (
      conn
        (0x05 ∷ 0x02 ∷ 0x01 ∷ 0x00 ∷ (encode_response (new_success bound) ++ lit "hi"))
        []
        3
        create)
    ≡ (
      ok tt,
      conn
          (lit "hi")
          (init_msg (0x00 ∷ 0x02 ∷ [])
            ++ (auth_msg (lit "alice") (lit "secret") ++ conn_msg host 443))
          0
          create,
    )
handshake_password_example =
    handshake_password host 443 0 (lit "hi") [] create (lit "alice") (lit "secret") bound refl

abbrev alice : Authenticator
alice = record { authenticate = λ u p. ok (eq_bytes u (lit "alice") && eq_bytes p (lit "secret")) }

abbrev handler : Socks5Handler
handler = record { authenticator = some alice; metrics = true }

credentials :
    (from_utf8 (lit "alice") ≡ some (lit "alice"))
    × (from_utf8 (lit "secret") ≡ some (lit "secret"))
    × (validate_credentials handler (lit "alice") (lit "secret") ≡ true)
unfolding from_utf8 validate_credentials eq_bytes
credentials = (refl, refl, refl)

client_admitted_example :
    handle_handshake handler true (
      conn
        (init_msg (offered (both (some (lit "alice")) (some (lit "secret"))))
          ++ (auth_msg (lit "alice") (lit "secret") ++ []))
        []
        2
        create)
    ≡ (ok true, conn [] (0x05 ∷ 0x02 ∷ 0x01 ∷ 0x00 ∷ []) 0 create)
client_admitted_example =
    client_admitted handler (lit "alice") (lit "secret") [] 0 create (omega arith) (omega arith)
      credentials.0 credentials.1 credentials.2
