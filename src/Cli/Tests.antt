-- ===== src/Cli/Tests.antt =====
-- Options, variables and a file that disagree.
use rust_socksd.Prelude.{
  any, is_empty, ok, err, [], ◌∷◌, ◌≡◌, refl, true, false, none, some, lit, eq_bytes, if◌then◌else◌,
}
use rust_socksd.Text.{Unicode, parse_uint, from_utf8, contains_byte}
use rust_socksd.Config.{Config, default_config}
use rust_socksd.Config.Validate
use rust_socksd.Metrics
use rust_socksd.Map.{lookup}
use rust_socksd.Net.{parse_ip}
use rust_socksd.Files.{Disk, read_to_string, load_config}
use rust_socksd.Backend.{Backends, create_authenticator}
use rust_socksd.Server
use rust_socksd.Server.{ProxyServer}
use rust_socksd.Cli.Start.{Guards, launch_fails_closed}
use rust_socksd.Cli.{
  exists, file_config, launch, Options, Environment, debug_level, apply_overrides, flag_override,
  parse_bool, log_level,
}

instance abbrev unicode : Unicode
unicode = record { lower = λ s. s; upper = λ s. s }

abbrev options : Options
options = record {
  config = lit "config.yml";
  bind = none;
  http_port = some (lit "x80");
  socks5_port = some (lit "1090");
  loglevel = none;
  admin_port = none;
  admin_enabled = false;
  quiet = false;
  verbose = 1;
}

-- The port that cannot be read hides the variable.
abbrev env : Environment
env name =
    if eq_bytes name (lit "RUST_SOCKSD_HTTP_PORT")
    then some (lit "3128")
    else if eq_bytes name (lit "RUST_SOCKSD_BIND_ADDRESS")
    then some (lit "::1")
    else if eq_bytes name (lit "RUST_SOCKSD_ADMIN_ENABLED")
    then some (lit "true")
    else none

overrides : apply_overrides options env default_config ≡ record default_config {
  server = record (default_config.server) { bind_address = lit "::1"; socks5_port = 1090 };
  admin = record (default_config.admin) { enabled = true };
}
unfolding apply_overrides eq_bytes parse_uint flag_override parse_bool
overrides = refl

logs : log_level options default_config ≡ debug_level
unfolding log_level
logs = refl

abbrev backends : Backends
backends = record {
  yaml = record {
    config_from_str = λ s. ok default_config;
    users_from_str = λ s. err [];
    users_to_string = λ users. err [];
  };
  hashing = record { hash = λ seed t password. err []; verify = λ t password hash. false };
  directory = record {
    connect = λ url. err [];
    simple_bind = λ log dn password. err [];
    search = λ log base filter. err [];
  };
  drivers = record { mysql_connect = λ url. err []; postgres_connect = λ url. err [] };
  pam_library = record { with_password = λ service. err []; spawn_blocking = λ r. ok r };
}

abbrev disk : Disk
disk = record {
  files = (lit "config.yml", lit "x") ∷ [];
  visible = λ path. true;
  readable = λ path. true;
  writable = λ path. false;
  room = λ path. 0;
}

abbrev server : ProxyServer
server = record {
  state = record {
    config = record default_config {
      server = record (default_config.server) { bind_address = lit "::1"; socks5_port = 1090 };
      admin = record (default_config.admin) { enabled = true };
    };
    authenticator = none;
  };
  permits = 1000;
  metrics = Metrics.create;
  rate_limiter = none;
  config_path = lit "config.yml";
}

there : exists options.config disk ≡ true
unfolding lookup eq_bytes
there = refl

launches : launch backends options env disk ≡ ok server
unfolding launch file_config load_config read_to_string lookup eq_bytes from_utf8 Validate.validate
    parse_ip any is_empty contains_byte Server.create create_authenticator apply_overrides
    parse_uint flag_override parse_bool
launches = refl

launch_fails_closed_example :
    (config : Config) × (load_config backends.yaml options.config disk ≡ ok config)
    × (Validate.validate config ≡ ok tt)
    × Guards config server.state.config
    × (create_authenticator backends (apply_overrides options env config) disk ≡ ok none)
launch_fails_closed_example = launch_fails_closed backends options env disk there launches
