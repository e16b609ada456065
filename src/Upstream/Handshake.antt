-- ===== src/Upstream/Handshake.antt =====
-- `socks5_connect_handshake`: the client side of SOCKS5, spoken to an upstream proxy. A connection's
-- input is what the proxy sends.
pub mod Session
pub mod Outcome
mod Tests
use rust_socksd.Prelude.{
  ℕ, ◌+◌, ◌%◌, Bool, true, false, not, List, [], ◌∷◌, ◌++◌, Option, none, some, Bytes, lit, ◌==◌,
  if◌then◌else◌, length,
}
use rust_socksd.Text.{decimal}
use rust_socksd.Net.{IpAddr, v4, v6, parse_ip, to_be_bytes}
use rust_socksd.Stream.{Io, pure, fail, refuse_if, read_exact, write_all, ◌>>=◌, ◌>>◌}
use rust_socksd.Socks5.{byte}

-- `has_creds`, with the credentials
abbrev pub both : Option Bytes → Option Bytes → Option (Bytes × Bytes)
both (some u) (some p) = some (u, p)
both u p = none

abbrev pub offered : Option (Bytes × Bytes) → Bytes
offered none = 0x00 ∷ []
offered (some creds) = 0x00 ∷ 0x02 ∷ []

-- `init_msg`
abbrev pub init_msg : Bytes → Bytes
init_msg methods = 0x05 ∷ (length methods % 256) ∷ methods

-- `auth_msg`
abbrev pub auth_msg : Bytes → Bytes → Bytes
auth_msg u p = 0x01 ∷ (length u % 256) ∷ (u ++ (length p % 256) ∷ p)

unfoldable pub authenticate : Bytes → Bytes → Io (Unit {0})
authenticate u p = do
  write_all (auth_msg u p)
  auth_resp ← read_exact 2
  refuse_if (not (byte auth_resp 0 == 0x01))
      (lit "Invalid SOCKS5 auth version response: " ++ decimal (byte auth_resp 0))
  refuse_if (not (byte auth_resp 1 == 0x00)) (lit "SOCKS5 proxy authentication failed")

abbrev rejected : ℕ → Io (Unit {0})
rejected method =
    refuse_if (not (method == 0x00))
      (lit "SOCKS5 proxy rejected authentication methods: " ++ decimal method)

-- What follows the proxy's choice of a method.
unfoldable pub follow_method : Option (Bytes × Bytes) → ℕ → Io (Unit {0})
unfolding authenticate
follow_method none method = rejected method
follow_method (some (u, p)) method = if method == 0x02 then authenticate u p else rejected method

abbrev pub target_address : Bytes → Option IpAddr → Bytes
target_address host none = 0x03 ∷ (length host % 256) ∷ host
target_address host (some (v4 octets)) = 0x01 ∷ octets
target_address host (some (v6 octets)) = 0x04 ∷ octets

-- `conn_msg`
unfoldable pub conn_msg : Bytes → ℕ → Bytes
unfolding to_be_bytes
conn_msg target_host target_port =
    0x05
    ∷ 0x01
    ∷ 0x00
    ∷ (target_address target_host (parse_ip target_host) ++ to_be_bytes 2 target_port)

unfoldable pub skip_domain : Io (Unit {0})
skip_domain = do len_buf ← read_exact 1; domain_buf ← read_exact (byte len_buf 0 + 2); pure tt

-- The bound address and port in the proxy's reply, which are not looked at.
unfoldable pub skip_address : ℕ → Io (Unit {0})
unfolding skip_domain
skip_address addr_type =
    if addr_type == 0x01
    then read_exact 6 >> pure tt
    else if addr_type == 0x04
    then read_exact 18 >> pure tt
    else if addr_type == 0x03
    then skip_domain
    else fail (lit "Invalid address type in SOCKS5 response: " ++ decimal addr_type)

unfoldable pub read_reply : Io (Unit {0})
unfolding skip_address
read_reply = do
  conn_resp ← read_exact 4
  refuse_if (not (byte conn_resp 0 == 0x05))
      (lit "Invalid SOCKS5 proxy version in response: " ++ decimal (byte conn_resp 0))
  refuse_if (not (byte conn_resp 1 == 0x00))
      (lit "SOCKS5 proxy failed to connect: error code " ++ decimal (byte conn_resp 1))
  skip_address (byte conn_resp 3)

unfoldable pub socks5_connect_handshake : Bytes → ℕ → Option Bytes → Option Bytes → Io (Unit {0})
unfolding follow_method conn_msg read_reply
socks5_connect_handshake target_host target_port username password = do
  write_all (init_msg (offered (both username password)))
  resp ← read_exact 2
  refuse_if (not (byte resp 0 == 0x05))
      (lit "Invalid SOCKS5 proxy version: " ++ decimal (byte resp 0))
  follow_method (both username password) (byte resp 1)
  write_all (conn_msg target_host target_port)
  read_reply
