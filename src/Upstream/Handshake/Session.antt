-- ===== src/Upstream/Handshake/Session.antt =====
-- The client side of src/upstream.rs and the server side of src/socks5.rs understand each other.
use rust_socksd.Prelude.{
  ℕ, ◌%◌, ◌<◌, ◌≡◌, refl, ◌≢◌, ◌==◌, false, ◌∷◌, ◌++◌, Option, none, some, Bytes, ok, err, length,
  length-append, append_assoc, arith, lit,
}
use rust_socksd.Text.{from_utf8, decimal}
use rust_socksd.Net.{IpAddr, v4, v6, SocketAddr, parse_ip, to_be_bytes, from_be_bytes}
use rust_socksd.Metrics.{ServerMetrics}
use rust_socksd.Stream.{conn, stream_laws, read_exact_of, refuse_if, or_fail, ◌>>=◌}
use rust_socksd.Socks5.{handle_request, read_address, read_domain}
use rust_socksd.Socks5.Protocol.{
  Address, domain_name, ip_address, connect, new_success, new_error, encode_response,
  encode_address,
}
use rust_socksd.Upstream.Handshake.{conn_msg, target_address, read_reply, skip_address}

-- The address that a request for a host names: what it reads as, or its name.
abbrev pub named : Bytes → Option IpAddr → Address
named host none = domain_name host
named host (some ip) = ip_address ip

-- An address has its number of octets.
abbrev pub HasWidth : IpAddr → Type 0
HasWidth (v4 octets) = length octets ≡ 4
HasWidth (v6 octets) = length octets ≡ 16

-- A name must be text and have a length that one byte can tell.
abbrev pub Fits : Bytes → Option IpAddr → Type 0
Fits host none = (length host < 256) × (from_utf8 host ≡ some host)
Fits host (some ip) = HasWidth ip

port_bytes : (port : ℕ) → port < 65536 → from_be_bytes (to_be_bytes 2 port) ≡ port
unfolding from_be_bytes to_be_bytes
port_bytes port h = omega arith

port_width : (port : ℕ) → length (to_be_bytes 2 port) ≡ 2
unfolding to_be_bytes
port_width port = refl

module _ (port k : ℕ) (rest output : Bytes) (m : ServerMetrics) (small : port < 65536) where
  reads :
      (host : Bytes) (ip : Option IpAddr)
      → Fits host ip
      → handle_request (
          conn
            (0x05 ∷ 0x01 ∷ 0x00 ∷ ((target_address host ip ++ to_be_bytes 2 port) ++ rest))
            output
            k
            m)
        ≡ (
          ok (record { command = connect; address = named host ip; port = port }),
          conn rest output k m,
        )
  unfolding handle_request ◌>>=◌ refuse_if or_fail read_address read_domain
  reads host none (short, text) =
      let told : length host % 256 ≡ length host = omega arith in
      simp (
        stream_laws,
        append_assoc,
        told,
        text,
        read_exact_of _ 2 (port_width port),
        port_bytes port small,
      )
  reads host (some (v4 octets)) width = simp (
    stream_laws,
    append_assoc,
    read_exact_of octets 4 width,
    read_exact_of _ 2 (port_width port),
    port_bytes port small,
  )
  reads host (some (v6 octets)) width = simp (
    stream_laws,
    append_assoc,
    read_exact_of octets 16 width,
    read_exact_of _ 2 (port_width port),
    port_bytes port small,
  )

-- The server reads the client's request as a CONNECT to the address and port that the client means,
-- provided that a name is text of at most 255 bytes.
pub handle_request-conn_msg :
    (host : Bytes) (port k : ℕ) (rest output : Bytes) (m : ServerMetrics)
    → port < 65536
    → Fits host (parse_ip host)
    → handle_request (conn (conn_msg host port ++ rest) output k m) ≡ (
      ok (record { command = connect; address = named host (parse_ip host); port = port }),
      conn rest output k m,
    )
unfolding conn_msg
handle_request-conn_msg host port k rest output m small fits =
    reads port k rest output m small host (parse_ip host) fits

six : (octets : Bytes) (port : ℕ) → length octets ≡ 4 → length (octets ++ to_be_bytes 2 port) ≡ 6
six octets port w = omega (arith, length-append octets (to_be_bytes 2 port), port_width port, w)

eighteen :
    (octets : Bytes) (port : ℕ) → length octets ≡ 16 → length (octets ++ to_be_bytes 2 port) ≡ 18
eighteen octets port w =
    omega (arith, length-append octets (to_be_bytes 2 port), port_width port, w)

module _ (k : ℕ) (rest output : Bytes) (m : ServerMetrics) where
  -- The client accepts the server's reply of success.
  pub accepts_success :
      (addr : SocketAddr)
      → HasWidth addr.ip
      → read_reply (conn (encode_response (new_success addr) ++ rest) output k m)
        ≡ (ok tt, conn rest output k m)
  unfolding read_reply ◌>>=◌ refuse_if skip_address encode_response new_success encode_address
  accepts_success addr w = accepts addr.ip w
    where
      accepts :
          (ip : IpAddr)
          → HasWidth ip
          → read_reply (
              conn
                (encode_response
                    (record { reply = 0x00; address = ip_address ip; port = addr.port })
                  ++ rest)
                output
                k
                m)
            ≡ (ok tt, conn rest output k m)
      accepts (v4 octets) w = simp (stream_laws, read_exact_of _ 6 (six octets addr.port w))
      accepts (v6 octets) w = simp (stream_laws, read_exact_of _ 18 (eighteen octets addr.port w))

  -- The client gives up on a reply with an error.
  pub reports_error :
      (code : ℕ)
      → code ≢ 0
      → (read_reply (conn (encode_response (new_error code) ++ rest) output k m)).0
        ≡ err (lit "SOCKS5 proxy failed to connect: error code " ++ decimal code)
  unfolding read_reply ◌>>=◌ refuse_if encode_response new_error
  reports_error code nonzero =
      let other : (code == 0) ≡ false = ground arith in simp (stream_laws, other)
