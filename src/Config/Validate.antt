-- ===== src/Config/Validate.antt =====
-- `Config::validate`, one function per part of the configuration. A loop that stops at the first
-- entry with an error is `check_each`.
pub mod Sound
pub mod Whole
mod Tests
use rust_socksd.Prelude.{
  ℕ, Bool, true, false, not, ◌&&◌, ◌||◌, List, [], ◌∷◌, ◌++◌, Option, none, some, Bytes, lit,
  Result, ok, err, ◌>>=◌, ◌>>◌, refuse_if, ◌==◌, ltb, any, eq_bytes, is_empty,
}
use rust_socksd.Text.{decimal, contains_byte, split, parse_uint}
use rust_socksd.Net.{parse_ip}
use rust_socksd.Config.{
  Config, ServerConfig, AuthConfig, AuthBackendConfig, simple, pam, ldap, database, no_backend,
  LoggingConfig, UpstreamConfig, UpstreamProtocol, AdminConfig,
}

abbrev pub is_some {ℓ} : {A : Type ℓ} → Option A → Bool
is_some none = false
is_some (some a) = true

unfoldable pub validate_server : ServerConfig → Result (Unit {0})
validate_server s = do
  refuse_if (s.socks5_port == 0) (lit "Invalid SOCKS5 port: " ++ decimal s.socks5_port)
  refuse_if (s.http_port == 0) (lit "Invalid HTTP port: " ++ decimal s.http_port)
  refuse_if (s.socks5_port == s.http_port) (lit "SOCKS5 and HTTP ports cannot be the same")
  refuse_if (not (is_some (parse_ip s.bind_address)))
      (lit "Invalid bind address: " ++ s.bind_address)
  refuse_if (s.max_connections == 0) (lit "Max connections must be greater than 0")
  refuse_if (ltb s.buffer_size 1024) (lit "Buffer size must be at least 1024 bytes")

unfoldable pub validate_backend : AuthBackendConfig → Result (Unit {0})
validate_backend (simple user_config_file) =
    refuse_if (is_empty user_config_file)
      (lit "Authentication enabled (simple) but no user config file specified")
validate_backend (pam service) =
    refuse_if (is_empty service) (lit "PAM service name cannot be empty")
validate_backend (ldap l) =
    refuse_if (is_empty l.url) (lit "LDAP URL cannot be empty")
    >> refuse_if (is_empty l.base_dn) (lit "LDAP Base DN cannot be empty")
    >> refuse_if (is_empty l.user_filter) (lit "LDAP User Filter cannot be empty")
validate_backend (database d) =
    refuse_if (is_empty d.url) (lit "Database URL cannot be empty")
    >> refuse_if (is_empty d.query) (lit "Database query cannot be empty")
validate_backend no_backend = err (lit "Authentication enabled but backend is configured as None")

unfoldable pub validate_auth : AuthConfig → Result (Unit {0})
unfolding validate_backend
validate_auth a = elim a.enabled [ true ↦ validate_backend a.backend | false ↦ ok tt ]

unfoldable pub check_each : (Bytes → Result (Unit {0})) → List Bytes → Result (Unit {0})
check_each check [] = ok tt
check_each check (network ∷ networks) = check network >> check_each check networks

-- An entry of `allowed_networks`: one with a slash is not looked at.
abbrev pub check_client_network : Bytes → Result (Unit {0})
check_client_network network =
    refuse_if (not (contains_byte b'/' network) && not (is_some (parse_ip network)))
      (lit "Invalid network address: " ++ network)

-- `parts.len() != 2 || parts[0].parse().is_err() || parts[1].parse().is_err()`
abbrev pub bad_parts : List Bytes → Bool
bad_parts (address ∷ prefix ∷ []) =
    not (is_some (parse_ip address)) || not (is_some (parse_uint 255 prefix))
bad_parts parts = true

-- An entry of `allowed_egress_networks` or `blocked_egress_networks`.
unfoldable pub check_egress_network : Bytes → Bytes → Result (Unit {0})
check_egress_network field network = elim (contains_byte b'/' network) [
  | false ↦
      refuse_if (not (is_some (parse_ip network)))
        (lit "Invalid IP address in " ++ field ++ lit ": " ++ network)
  | true ↦
      refuse_if (bad_parts (split b'/' network))
        (lit "Invalid CIDR in " ++ field ++ lit ": " ++ network)
]

abbrev pub levels : List Bytes
levels = lit "trace" ∷ lit "debug" ∷ lit "info" ∷ lit "warn" ∷ lit "error" ∷ []

unfoldable pub validate_logging : LoggingConfig → Result (Unit {0})
validate_logging l =
    refuse_if (not (any (λ level. eq_bytes level l.level) levels))
      (lit "Invalid log level: " ++ l.level)

-- `unwrap_or("")`
abbrev pub or_empty : Option Bytes → Bytes
or_empty none = []
or_empty (some s) = s

-- `is_none() || == Some(0)`
abbrev pub none_or_zero : Option ℕ → Bool
none_or_zero none = true
none_or_zero (some port) = port == 0

unfoldable pub validate_protocol :
    Option UpstreamProtocol → Option Bytes → Option ℕ → Result (Unit {0})
validate_protocol none address port = err (lit "Upstream proxy enabled but protocol is not set")
validate_protocol (some protocol) address port =
    refuse_if (is_empty (or_empty address)) (lit "Upstream proxy enabled but address is empty")
    >> refuse_if (none_or_zero port) (lit "Upstream proxy enabled but port is missing or 0")

unfoldable pub validate_upstream : UpstreamConfig → Result (Unit {0})
unfolding validate_protocol
validate_upstream u = elim u.enabled [
  | true ↦ validate_protocol u.protocol u.address u.port
  | false ↦ ok tt
]

abbrev pub check_exclude_network : Bytes → Result (Unit {0})
check_exclude_network network =
    refuse_if
      (not (eq_bytes network (lit "*"))
        && (not (contains_byte b'/' network) && not (is_some (parse_ip network))))
      (lit "Invalid IP address in exclude_networks: " ++ network)

unfoldable pub validate_enabled_admin : ServerConfig → AdminConfig → Result (Unit {0})
validate_enabled_admin s a = do
  refuse_if (a.port == 0) (lit "Invalid admin port: " ++ decimal a.port)
  refuse_if (a.port == s.socks5_port || a.port == s.http_port)
      (lit "Admin port cannot conflict with SOCKS5 or HTTP ports")
  refuse_if (not (is_some (parse_ip a.bind_address)))
      (lit "Invalid admin bind address: " ++ a.bind_address)

unfoldable pub validate_admin : ServerConfig → AdminConfig → Result (Unit {0})
unfolding validate_enabled_admin
validate_admin s a = elim a.enabled [ true ↦ validate_enabled_admin s a | false ↦ ok tt ]

unfoldable pub validate : Config → Result (Unit {0})
unfolding validate_server validate_auth check_each check_egress_network validate_logging
    validate_upstream validate_admin
validate c = do
  validate_server c.server
  validate_auth c.auth
  check_each check_client_network c.security.allowed_networks
  check_each (check_egress_network (lit "allowed_egress_networks"))
      c.security.allowed_egress_networks
  check_each (check_egress_network (lit "blocked_egress_networks"))
      c.security.blocked_egress_networks
  validate_logging c.logging
  validate_upstream c.upstream
  check_each check_exclude_network c.upstream.exclude_networks
  validate_admin c.server c.admin
