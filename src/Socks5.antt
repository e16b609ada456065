-- ===== src/Socks5.antt =====
-- The SOCKS5 server side, src/socks5.rs: `Socks5Handler` as actions on a connection.
pub mod Protocol
pub mod Handshake
pub mod Admission
pub mod Counted
mod Tests
use rust_socksd.Prelude.{
  ℕ, zero, suc, ◌≡◌, Bool, true, false, not, List, [], ◌∷◌, ◌++◌, map, Option, none, some, Bytes,
  lit, Result, ok, err, ◌==◌, if◌then◌else◌, or_err,
}
use rust_socksd.Text.{decimal, from_utf8}
use rust_socksd.Net.{from_be_bytes}
use rust_socksd.Metrics.{fetch_add}
use rust_socksd.Stream.{
  Conn, Io, pure, fail, refuse_if, or_fail, read_exact, write_all, ◌>>=◌, ◌>>◌,
}
use rust_socksd.Auth.{Authenticator}
use Protocol.{
  AuthMethod, no_auth, user_pass, no_acceptable, auth_method, method_code, select_method,
  AddressType, ipv4_type, domain_name_type, ipv6_type, address_type, command, Address, ipv4, ipv6,
  domain_name, Socks5Request, Socks5Response, encode_response,
}

-- `Socks5Handler`; the configuration is not used. Without metrics nothing is counted.
pub record Socks5Handler : Type 0 where
  pub authenticator : Option Authenticator
  pub metrics : Bool

-- A byte of a buffer.
abbrev pub byte : Bytes → ℕ → ℕ
byte [] i = 0
byte (x ∷ xs) zero = x
byte (x ∷ xs) (suc i) = byte xs i

abbrev accepted : Result Bool → Bool
accepted (ok valid) = valid
accepted (err e) = false

unfoldable pub validate_credentials : Socks5Handler → Bytes → Bytes → Bool
validate_credentials h username password = elim h.authenticator [
  | none ↦ false
  | some auth ↦ accepted (auth.authenticate username password)
]

-- `metrics.auth_failures.fetch_add(1)`, if the handler has metrics
abbrev pub count_auth_failure : Bool → Conn → Conn
count_auth_failure counted c =
    if counted
    then record c {
      metrics = record (c.metrics) { auth_failures = fetch_add c.metrics.auth_failures 1 };
    }
    else c

unfoldable pub report_auth : Bool → Bool → Io Bool
report_auth counted true c = (ok true, c)
report_auth counted false c = (err (lit "Authentication failed"), count_auth_failure counted c)

unfoldable pub handle_user_pass_auth : Socks5Handler → Io Bool
handle_user_pass_auth h = do
  head ← read_exact 2
  refuse_if (not (byte head 0 == 0x01)) (lit "Invalid username/password auth version")
  raw_username ← read_exact (byte head 1)
  username ← or_fail (from_utf8 raw_username) (lit "Invalid UTF-8 in username")
  plen ← read_exact 1
  raw_password ← read_exact (byte plen 0)
  password ← or_fail (from_utf8 raw_password) (lit "Invalid UTF-8 in password")
  write_all (0x01 ∷ (if validate_credentials h username password then 0x00 else 0x01) ∷ [])
  report_auth h.metrics (validate_credentials h username password)

unfoldable pub finish_handshake : Socks5Handler → AuthMethod → Io Bool
finish_handshake h no_auth = pure true
finish_handshake h user_pass = handle_user_pass_auth h
finish_handshake h no_acceptable = fail (lit "No acceptable authentication method")

unfoldable pub handle_handshake : Socks5Handler → Bool → Io Bool
handle_handshake h auth_required = do
  head ← read_exact 2
  refuse_if (not (byte head 0 == 0x05)) (lit "Unsupported SOCKS version: " ++ decimal (byte head 0))
  refuse_if (byte head 1 == 0) (lit "No authentication methods provided")
  raw ← read_exact (byte head 1)
  write_all (0x05 ∷ method_code (select_method auth_required (map auth_method raw)) ∷ [])
  finish_handshake h (select_method auth_required (map auth_method raw))

-- The message of `FromUtf8Error` is not looked at.
unfoldable pub read_domain : Io Address
read_domain = do
  len_buf ← read_exact 1
  domain_buf ← read_exact (byte len_buf 0)
  domain ← or_fail (from_utf8 domain_buf) (lit "invalid utf-8 sequence")
  pure (domain_name domain)

unfoldable pub read_address : AddressType → Io Address
unfolding read_domain
read_address ipv4_type = do octets ← read_exact 4; pure (ipv4 octets)
read_address ipv6_type = do octets ← read_exact 16; pure (ipv6 octets)
read_address domain_name_type = read_domain

unfoldable pub handle_request : Io Socks5Request
handle_request = do
  head ← read_exact 4
  refuse_if (not (byte head 0 == 0x05)) (lit "Invalid SOCKS version in request")
  address ← read_address (address_type (byte head 3))
  port_buf ← read_exact 2
  pure
      (record { command = command (byte head 1); address = address; port = from_be_bytes port_buf })

unfoldable pub send_response : Socks5Response → Io (Unit {0})
unfolding encode_response
send_response r = write_all (encode_response r)
