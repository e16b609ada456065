-- ===== src/Socks5/Tests.antt =====
-- The handshake at concrete messages.
use rust_socksd.Prelude.{
  ◌≡◌, refl, true, false, [], ◌∷◌, ◌++◌, map, some, Bytes, lit, ok, err, eq_bytes, ◌&&◌,
  if◌then◌else◌, arith, any,
}
use rust_socksd.Text.{from_utf8}
use rust_socksd.Net.{from_be_bytes}
use rust_socksd.Metrics.{create}
use rust_socksd.Auth.{Authenticator}
use rust_socksd.Stream.{Conn, conn, ◌>>=◌, read_exact, write_all, refuse_if, or_fail}
use rust_socksd.Socks5.{
  Socks5Handler, handle_handshake, handle_user_pass_auth, finish_handshake, validate_credentials,
  count_auth_failure, report_auth, handle_request, read_address,
}
use rust_socksd.Socks5.Protocol.{auth_method, is_user_pass, select_method, connect, domain_name}
use rust_socksd.Socks5.Handshake.{greeting, auth_message}
use rust_socksd.Socks5.Admission.{handshake_sound, handshake_verdict}

abbrev alice : Authenticator
alice = record { authenticate = λ u p. ok (eq_bytes u (lit "alice") && eq_bytes p (lit "secret")) }

abbrev handler : Socks5Handler
handler = record { authenticator = some alice; metrics = true }

abbrev methods : Bytes
methods = 0x00 ∷ 0x02 ∷ []

abbrev good : Conn
good =
    conn (greeting methods ++ (auth_message (lit "alice") (lit "secret") ++ lit "next")) [] 2 create

abbrev after : Conn
after = conn (lit "next") (0x05 ∷ 0x02 ∷ 0x01 ∷ 0x00 ∷ []) 0 create

runs : handle_handshake handler true good ≡ (ok true, after)
unfolding handle_handshake ◌>>=◌ read_exact write_all refuse_if or_fail finish_handshake
    handle_user_pass_auth report_auth validate_credentials select_method from_utf8 eq_bytes
runs = refl

abbrev request : Conn
request =
    conn (0x05 ∷ 0x01 ∷ 0x00 ∷ 0x03 ∷ 11 ∷ (lit "example.com" ++ 0x01 ∷ 0xBB ∷ [])) [] 0 create

reads_request : handle_request request ≡ (
  ok (record { command = connect; address = domain_name (lit "example.com"); port = 443 }),
  conn [] [] 0 create,
)
unfolding handle_request ◌>>=◌ read_exact refuse_if or_fail from_utf8 read_address from_be_bytes
reads_request = refl

handshake_sound_example :
    (offered : Bytes) × (username : Bytes) × (password : Bytes) × (good.input
      ≡ greeting offered ++ (auth_message username password ++ after.input))
    × (validate_credentials handler username password ≡ true)
    × (after.output ≡ good.output ++ 0x05 ∷ 0x02 ∷ 0x01 ∷ 0x00 ∷ [])
    × (true ≡ true)
handshake_sound_example = handshake_sound handler good runs

offers : any is_user_pass (map auth_method methods) ≡ true
unfolding any
offers = refl

is_text :
    (from_utf8 (lit "alice") ≡ some (lit "alice"))
    × (from_utf8 (lit "secret") ≡ some (lit "secret"))
unfolding from_utf8
is_text = (refl, refl)

handshake_verdict_example :
    let c = conn [] ([] ++ 0x05 ∷ 0x02 ∷ []) 0 create in
    handle_handshake handler true
      (conn (greeting methods ++ (auth_message (lit "alice") (lit "secret") ++ [])) [] 2 create)
    ≡ (if validate_credentials handler (lit "alice") (lit "secret")
        then (ok true, record c { output = c.output ++ 0x01 ∷ 0x00 ∷ [] })
        else (
          err (lit "Authentication failed"),
          count_auth_failure true (record c { output = c.output ++ 0x01 ∷ 0x01 ∷ [] }),
        ))
handshake_verdict_example =
    handshake_verdict handler methods (lit "alice") (lit "secret") [] [] 0 create (omega arith)
      offers is_text.0 is_text.1

offers_none : any is_user_pass (map auth_method (0x00 ∷ [])) ≡ false
unfolding any
offers_none = refl
