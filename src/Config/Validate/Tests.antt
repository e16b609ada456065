-- ===== src/Config/Validate/Tests.antt =====
-- `validate` at the default configuration and at changes of it.
use rust_socksd.Prelude.{
  ◌≡◌, refl, true, [], ◌∷◌, none, some, arith, Bytes, lit, ok, err, In, any, eq_bytes, is_empty,
}
use rust_socksd.Text.{contains_byte, split, split_once, parse_uint, parse_digits, decimal}
use rust_socksd.Net.{v4, v6, parse_ip, parse_socket_addr}
use rust_socksd.Config.{Config, default_config, http}
use rust_socksd.Config.Bind.{socks5_bind_addr, http_bind_addr, admin_bind_addr}
use rust_socksd.Config.Validate.{validate}
use rust_socksd.Config.Validate.Sound.{IsServer, IsAdmin, Readable}
use rust_socksd.Config.Validate.Whole.{Usable, Listens, validate_sound}

abbrev config : Config
config = record default_config {
  security = record (default_config.security) {
    blocked_egress_networks = lit "127.0.0.0/8" ∷ lit "::1" ∷ [];
  };
  upstream = record (default_config.upstream) {
    enabled = true;
    protocol = some http;
    address = some (lit "proxy");
    port = some 3128;
  };
  admin = record (default_config.admin) { enabled = true };
}

accepts : validate config ≡ ok tt
unfolding validate parse_ip contains_byte split parse_uint any eq_bytes is_empty
accepts = refl

abbrev same_ports : Config
same_ports = record config { server = record (config.server) { http_port = 1080 } }

abbrev bad_prefix : Config
bad_prefix = record config {
  security = record (config.security) { blocked_egress_networks = lit "127.0.0.0/8/8" ∷ [] };
}

rejects :
    (validate same_ports ≡ err (lit "SOCKS5 and HTTP ports cannot be the same"))
    × (validate bad_prefix ≡ err (lit "Invalid CIDR in blocked_egress_networks: 127.0.0.0/8/8"))
unfolding validate parse_ip contains_byte split parse_uint any eq_bytes is_empty
rejects = (refl, refl)

validate_sound_example :
    IsServer config.server
    × (config.admin.enabled ≡ true → IsAdmin config.server config.admin)
    × ((network : Bytes) → In network config.security.allowed_egress_networks → Readable network)
    × ((network : Bytes) → In network config.security.blocked_egress_networks → Readable network)
    × (config.upstream.enabled ≡ true → Usable config.upstream)
    × Listens config.server.bind_address 1080 (socks5_bind_addr config)
    × Listens config.server.bind_address 8080 (http_bind_addr config)
    × (config.admin.enabled ≡ true
        → Listens config.admin.bind_address config.admin.port (admin_bind_addr config))
validate_sound_example = validate_sound config (omega arith) (omega arith) (omega arith) accepts

-- An IPv6 address is accepted, but cannot be listened on.
abbrev loopback6 : Config
loopback6 = record config { server = record (config.server) { bind_address = lit "::1" } }

accepted_unbound :
    (validate loopback6 ≡ ok tt)
    × (socks5_bind_addr loopback6
        ≡ err (lit "Failed to parse SOCKS5 bind address: invalid socket address syntax"))
unfolding validate parse_ip contains_byte split parse_uint any eq_bytes is_empty socks5_bind_addr
    parse_socket_addr decimal
accepted_unbound = (refl, refl)

reads_sockets :
    (parse_socket_addr (lit "127.0.0.1:1080")
      ≡ some (record { ip = v4 (127 ∷ 0 ∷ 0 ∷ 1 ∷ []); port = 1080 }))
    × (parse_socket_addr (lit "[::]:80")
        ≡ some (record {
          ip = v6 (0 ∷ 0 ∷ 0 ∷ 0 ∷ 0 ∷ 0 ∷ 0 ∷ 0 ∷ 0 ∷ 0 ∷ 0 ∷ 0 ∷ 0 ∷ 0 ∷ 0 ∷ 0 ∷ []);
          port = 80;
        }))
    × (parse_socket_addr (lit "127.0.0.1:65536") ≡ none)
unfolding parse_socket_addr parse_digits split_once parse_ip
reads_sockets = (refl, refl, refl)
