-- ===== src/Config.antt =====
-- The configuration, src/config.rs: its records and the defaults.
pub mod Bind
pub mod Validate
use rust_socksd.Prelude.{ℕ, ◌*◌, Bool, true, false, List, [], ◌∷◌, Option, none, Bytes, lit}
use rust_socksd.RateLimit.{RateLimitConfig}

pub record AdminConfig : Type 0 where
  pub enabled : Bool
  pub bind_address : Bytes
  pub port : ℕ
  pub token : Option Bytes
  pub admin_users : List Bytes
  pub token_ttl : ℕ

pub data UpstreamProtocol : Type 0 where
  socks5 http : UpstreamProtocol

pub record UpstreamConfig : Type 0 where
  pub enabled : Bool
  pub protocol : Option UpstreamProtocol
  pub address : Option Bytes
  pub port : Option ℕ
  pub username : Option Bytes
  pub password : Option Bytes
  pub exclude_networks : List Bytes
  pub exclude_domains : List Bytes
  pub prefer_env : Bool

pub record ServerConfig : Type 0 where
  pub bind_address : Bytes
  pub socks5_port : ℕ
  pub http_port : ℕ
  pub max_connections : ℕ
  pub connection_timeout : ℕ
  pub buffer_size : ℕ

pub data HashType : Type 0 where
  argon2 bcrypt scrypt : HashType

pub record LdapConfig : Type 0 where
  pub url : Bytes
  pub base_dn : Bytes
  pub bind_dn : Option Bytes
  pub bind_password : Option Bytes
  pub user_filter : Bytes

pub record DatabaseConfig : Type 0 where
  pub db_type : Bytes
  pub url : Bytes
  pub query : Bytes
  pub hash_type : HashType

-- With the feature `pam-auth`, which is on by default.
pub data AuthBackendConfig : Type 0 where
  simple pam : Bytes → AuthBackendConfig
  ldap : LdapConfig → AuthBackendConfig
  database : DatabaseConfig → AuthBackendConfig
  no_backend : AuthBackendConfig

pub record AuthConfig : Type 0 where
  pub enabled : Bool
  pub backend : AuthBackendConfig

pub record LoggingConfig : Type 0 where
  pub level : Bytes
  pub file : Option Bytes
  pub console : Bool
  pub journald : Bool

pub record SecurityConfig : Type 0 where
  pub allowed_networks : List Bytes
  pub blocked_domains : List Bytes
  pub allowed_egress_networks : List Bytes
  pub blocked_egress_networks : List Bytes
  pub max_request_size : ℕ
  pub rate_limit : Option RateLimitConfig

pub record Config : Type 0 where
  pub server : ServerConfig
  pub auth : AuthConfig
  pub logging : LoggingConfig
  pub security : SecurityConfig
  pub upstream : UpstreamConfig
  pub admin : AdminConfig

-- `AdminConfig::default`
abbrev pub default_admin : AdminConfig
default_admin = record {
  enabled = false;
  bind_address = lit "127.0.0.1";
  port = 8081;
  token = none;
  admin_users = [];
  token_ttl = 3600;
}

-- `UpstreamConfig::default`
abbrev pub default_upstream : UpstreamConfig
default_upstream = record {
  enabled = false;
  protocol = none;
  address = none;
  port = none;
  username = none;
  password = none;
  exclude_networks = [];
  exclude_domains = [];
  prefer_env = true;
}

-- `Config::default`
abbrev pub default_config : Config
default_config = record {
  server = record {
    bind_address = lit "127.0.0.1";
    socks5_port = 1080;
    http_port = 8080;
    max_connections = 1000;
    connection_timeout = 300;
    buffer_size = 64 * 1024;
  };
  auth = record { enabled = false; backend = no_backend };
  logging = record { level = lit "info"; file = none; console = true; journald = false };
  security = record {
    allowed_networks = lit "0.0.0.0/0" ∷ [];
    blocked_domains = [];
    allowed_egress_networks = [];
    blocked_egress_networks = [];
    max_request_size = 1024 * 1024;
    rate_limit = none;
  };
  upstream = default_upstream;
  admin = default_admin;
}
