-- ===== src/Config/Bind.antt =====
-- The addresses that the server listens on, src/config.rs: `socks5_bind_addr`, `http_bind_addr`,
-- `admin_bind_addr`.
use rust_socksd.Prelude.{ℕ, ◌<◌, ◌≡◌, refl, ◌∷◌, ◌++◌, some, Bytes, lit, Result, ok, or_err}
use rust_socksd.Text.{decimal}
use rust_socksd.Net.{v4, SocketAddr, parse_ip, parse_socket_addr, parse_socket_addr-v4}
use rust_socksd.Config.{Config}

-- `format!("{}:{}", address, port).parse()`
unfoldable pub bind_addr : Bytes → Bytes → ℕ → Result SocketAddr
bind_addr name address port =
    or_err (parse_socket_addr (address ++ b':' ∷ decimal port))
      (lit "Failed to parse " ++ name ++ lit " bind address: invalid socket address syntax")

unfoldable pub socks5_bind_addr : Config → Result SocketAddr
unfolding bind_addr
socks5_bind_addr c = bind_addr (lit "SOCKS5") c.server.bind_address c.server.socks5_port

unfoldable pub http_bind_addr : Config → Result SocketAddr
unfolding bind_addr
http_bind_addr c = bind_addr (lit "HTTP") c.server.bind_address c.server.http_port

unfoldable pub admin_bind_addr : Config → Result SocketAddr
unfolding bind_addr
admin_bind_addr c = bind_addr (lit "Admin") c.admin.bind_address c.admin.port

-- An IPv4 address can be listened on.
pub bind_addr-v4 :
    (name address octets : Bytes) (port : ℕ)
    → parse_ip address ≡ some (v4 octets)
    → port < 65_536
    → bind_addr name address port ≡ ok (record { ip = v4 octets; port = port })
unfolding bind_addr
bind_addr-v4 name address octets port h le =
    rw (bind_addr, parse_socket_addr-v4 address octets port h le) refl
