-- ===== src/Cli.antt =====
-- The command line, src/main.rs: where the configuration of the server comes from, the level of
-- logging, and the check of the files. What is printed is left out but for the text of a command's
-- success; clap's matches are a record.
pub mod Accounts
pub mod Start
mod Tests
use rust_socksd.Prelude.{
  ℕ, zero, suc, Bool, true, false, ◌&&◌, ◌||◌, Option, none, some, Bytes, lit, Result, ok, err,
  ◌>>=◌, eq_bytes, if◌then◌else◌,
}
use rust_socksd.Text.{Unicode, parse_uint}
use rust_socksd.Map.{lookup, bytes_key}
use rust_socksd.Config.{Config, default_config}
use rust_socksd.Files.{Disk, Yaml, load_config, load_users}
use rust_socksd.Backend.{Backends}
use rust_socksd.Server
use rust_socksd.Server.{ProxyServer}

-- The options of the server; `verbose` is how often it was given.
pub record Options : Type 0 where
  pub config : Bytes
  pub bind : Option Bytes
  pub http_port : Option Bytes
  pub socks5_port : Option Bytes
  pub loglevel : Option Bytes
  pub admin_port : Option Bytes
  pub admin_enabled : Bool
  pub quiet : Bool
  pub verbose : ℕ

abbrev pub Environment : Type 0
Environment = Bytes → Option Bytes

-- An option, else the variable, else what the file says.
abbrev pub text_override : Option Bytes → Option Bytes → Bytes → Bytes
text_override (some option) var old = option
text_override none (some var) old = var
text_override none none old = old

abbrev pub or_old {ℓ} : {A : Type ℓ} → Option A → A → A
or_old none old = old
or_old (some new) old = new

-- A text that is not a port changes nothing, and an option hides the variable even then.
abbrev pub port_override : Option Bytes → Option Bytes → ℕ → ℕ
port_override (some option) var old = or_old (parse_uint 65535 option) old
port_override none (some var) old = or_old (parse_uint 65535 var) old
port_override none none old = old

-- `parse::<bool>()`
unfoldable pub parse_bool : Bytes → Option Bool
parse_bool s =
    if eq_bytes s (lit "true")
    then some true
    else if eq_bytes s (lit "false")
    then some false
    else none

unfoldable pub flag_override : Bool → Option Bytes → Bool → Bool
flag_override true var old = true
flag_override false none old = old
flag_override false (some var) old = or_old (parse_bool var) old

unfoldable pub apply_overrides : Options → Environment → Config → Config
apply_overrides o env config = record config {
  server = record (config.server) {
    bind_address =
        text_override o.bind (env (lit "RUST_SOCKSD_BIND_ADDRESS")) config.server.bind_address;
    http_port =
        port_override o.http_port (env (lit "RUST_SOCKSD_HTTP_PORT")) config.server.http_port;
    socks5_port =
        port_override o.socks5_port (env (lit "RUST_SOCKSD_SOCKS5_PORT")) config.server.socks5_port;
  };
  logging = record (config.logging) {
    level = text_override o.loglevel (env (lit "RUST_SOCKSD_LOG_LEVEL")) config.logging.level;
  };
  admin = record (config.admin) {
    port = port_override o.admin_port (env (lit "RUST_SOCKSD_ADMIN_PORT")) config.admin.port;
    enabled =
        flag_override o.admin_enabled (env (lit "RUST_SOCKSD_ADMIN_ENABLED")) config.admin.enabled;
  };
}

pub data Level : Type 0 where
  error_level warn_level info_level debug_level trace_level : Level

abbrev pub named_level : Bytes → Level
named_level level =
    if eq_bytes level (lit "trace")
    then trace_level
    else if eq_bytes level (lit "debug")
    then debug_level
    else if eq_bytes level (lit "info")
    then info_level
    else if eq_bytes level (lit "warn")
    then warn_level
    else if eq_bytes level (lit "error")
    then error_level
    else info_level

abbrev pub verbose_level : ℕ → Bytes → Level
verbose_level zero level = named_level level
verbose_level (suc zero) level = debug_level
verbose_level (suc (suc n)) level = trace_level

-- `setup_logging`, the level
unfoldable pub log_level : Options → Config → Level
log_level o config = if o.quiet then error_level else verbose_level o.verbose config.logging.level

abbrev is_some {ℓ} : {A : Type ℓ} → Option A → Bool
is_some none = false
is_some (some a) = true

-- `Path::exists`, which is false as well if the file cannot be looked at
abbrev pub exists : Bytes → Disk → Bool
exists path disk = disk.visible path && is_some (lookup path disk.files)

-- The configuration of the file, or the defaults where there is none. A file that cannot be loaded
-- ends the program.
unfoldable pub file_config : Yaml → Bytes → Disk → Result Config
file_config yaml path disk = elim (exists path disk) [
  | true ↦ load_config yaml path disk
  | false ↦ ok default_config
]

-- `main`, up to the start of the server
unfoldable pub launch : ⦃u : Unicode⦄ → Backends → Options → Environment → Disk → Result ProxyServer
unfolding apply_overrides
launch b o env disk = file_config b.yaml o.config disk >>= λ config.
    Server.create b (apply_overrides o env config) o.config disk

abbrev failed {ℓ} : {A : Type ℓ} → Result A → Bool
failed (ok a) = false
failed (err e) = true

abbrev pub users_invalid : Yaml → Option Bytes → Disk → Bool
users_invalid yaml none disk = false
users_invalid yaml (some path) disk =
    if exists path disk then failed (load_users yaml path disk) else false

-- `handle_validate_command`: whether it exits with an error. A missing file is none.
unfoldable pub handle_validate_command : Yaml → Bytes → Option Bytes → Disk → Bool
handle_validate_command yaml config_path user_config_path disk =
    (if exists config_path disk then failed (load_config yaml config_path disk) else false)
    || users_invalid yaml user_config_path disk
