-- ===== src/Socks5/Counted.antt =====
-- The SOCKS5 server side counts failures of authentication, and no connections.
use rust_socksd.Prelude.{refl, Bool, true, false, not, ◌==◌}
use rust_socksd.Text.{from_utf8}
use rust_socksd.Stream.{Conn, read_exact}
use rust_socksd.Stream.Counted.{
  Steady, Keeps, read_exact-Keeps, write_all-Keeps, refuse_if-Keeps, or_fail-Keeps, bind-Keeps,
}
use rust_socksd.Socks5.Protocol.{
  AuthMethod, no_auth, user_pass, no_acceptable, AddressType, ipv4_type, ipv6_type,
  domain_name_type, address_type, Socks5Response, encode_response,
}
use rust_socksd.Socks5.{
  Socks5Handler, byte, validate_credentials, count_auth_failure, report_auth, handle_user_pass_auth,
  finish_handshake, handle_handshake, read_domain, read_address, handle_request, send_response,
}

count_auth_failure-Steady : (counted : Bool) (c : Conn) → Steady c (count_auth_failure counted c)
count_auth_failure-Steady true c = (refl, refl)
count_auth_failure-Steady false c = (refl, refl)

report_auth-Keeps : (counted valid : Bool) → Keeps (report_auth counted valid)
unfolding report_auth
report_auth-Keeps counted true c = (refl, refl)
report_auth-Keeps counted false c = count_auth_failure-Steady counted c

handle_user_pass_auth-Keeps : (h : Socks5Handler) → Keeps (handle_user_pass_auth h)
unfolding handle_user_pass_auth
handle_user_pass_auth-Keeps h = bind-Keeps (read_exact 2) _ (read_exact-Keeps 2) λ head.
    bind-Keeps _ _ (refuse_if-Keeps (not (byte head 0 == 0x01)) _) λ u.
      bind-Keeps (read_exact (byte head 1)) _ (read_exact-Keeps _) λ raw_username.
        bind-Keeps _ _ (or_fail-Keeps (from_utf8 raw_username) _) λ username.
          bind-Keeps (read_exact 1) _ (read_exact-Keeps 1) λ plen.
            bind-Keeps (read_exact (byte plen 0)) _ (read_exact-Keeps _) λ raw_password.
              bind-Keeps _ _ (or_fail-Keeps (from_utf8 raw_password) _) λ password.
                bind-Keeps _ _ (write_all-Keeps _)
                  λ u. report_auth-Keeps h.metrics (validate_credentials h username password)

finish_handshake-Keeps : (h : Socks5Handler) (m : AuthMethod) → Keeps (finish_handshake h m)
unfolding finish_handshake
finish_handshake-Keeps h no_auth c = (refl, refl)
finish_handshake-Keeps h user_pass c = handle_user_pass_auth-Keeps h c
finish_handshake-Keeps h no_acceptable c = (refl, refl)

-- A handshake leaves the numbers of active and of all connections as they are, however it ends.
handle_handshake-Keeps :
    (h : Socks5Handler) (auth_required : Bool) → Keeps (handle_handshake h auth_required)
unfolding handle_handshake
handle_handshake-Keeps h auth_required = bind-Keeps (read_exact 2) _ (read_exact-Keeps 2) λ head.
    bind-Keeps _ _ (refuse_if-Keeps (not (byte head 0 == 0x05)) _) λ u.
      bind-Keeps _ _ (refuse_if-Keeps (byte head 1 == 0) _) λ u.
        bind-Keeps (read_exact (byte head 1)) _ (read_exact-Keeps _)
          λ raw. bind-Keeps _ _ (write_all-Keeps _) λ u. finish_handshake-Keeps h _

read_domain-Keeps : Keeps read_domain
unfolding read_domain
read_domain-Keeps = bind-Keeps (read_exact 1) _ (read_exact-Keeps 1) λ len_buf.
    bind-Keeps (read_exact (byte len_buf 0)) _ (read_exact-Keeps _)
      λ domain_buf. bind-Keeps _ _ (or_fail-Keeps (from_utf8 domain_buf) _) λ domain c. (refl, refl)

read_address-Keeps : (t : AddressType) → Keeps (read_address t)
unfolding read_address
read_address-Keeps ipv4_type =
    bind-Keeps (read_exact 4) _ (read_exact-Keeps 4) λ octets c. (refl, refl)
read_address-Keeps ipv6_type =
    bind-Keeps (read_exact 16) _ (read_exact-Keeps 16) λ octets c. (refl, refl)
read_address-Keeps domain_name_type = read_domain-Keeps

-- So does a request,
handle_request-Keeps : Keeps handle_request
unfolding handle_request
handle_request-Keeps = bind-Keeps (read_exact 4) _ (read_exact-Keeps 4) λ head.
    bind-Keeps _ _ (refuse_if-Keeps (not (byte head 0 == 0x05)) _) λ u.
      bind-Keeps _ _ (read_address-Keeps (address_type (byte head 3)))
        λ address. bind-Keeps (read_exact 2) _ (read_exact-Keeps 2) λ port_buf c. (refl, refl)

-- and so does a response.
send_response-Keeps : (r : Socks5Response) → Keeps (send_response r)
unfolding send_response
send_response-Keeps r = write_all-Keeps (encode_response r)
