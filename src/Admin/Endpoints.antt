-- ===== src/Admin/Endpoints.antt =====
-- The endpoints of the admin interface: what `handle_admin_connection` does for each. The state is
-- the server's, which `/config/reload` replaces, with the token store. The 32 characters of a new
-- token and the time are arguments.
use rust_socksd.Prelude.{
  ℕ, Bool, true, false, not, ◌||◌, List, [], ◌∷◌, ◌++◌, Option, none, some, Bytes, lit, Result, ok,
  err, ◌==◌, any, eq_bytes,
}
use rust_socksd.Text.{Unicode, decimal, from_utf8}
use rust_socksd.Map.{bytes_key}
use rust_socksd.Auth.{Authenticator}
use rust_socksd.Config.{Config}
use rust_socksd.Config.Validate
use rust_socksd.Metrics.{ServerMetrics}
use rust_socksd.Stream.{Conn}
use rust_socksd.Socks5.{count_auth_failure}
use rust_socksd.Files.{Disk}
use rust_socksd.Backend.{Backends, create_authenticator}
use rust_socksd.Server.{ServerState}
use rust_socksd.Admin.{send_response, parse_basic_auth}
use rust_socksd.Admin.Tokens.{TokenStore, generate_token}
use rust_socksd.Admin.Mask.{Value, text, boolean, object, member, end}

-- `serde_json`, Base64, and what `from_utf8_lossy` makes of bytes that are not UTF-8.
pub record Formats : Type 0 where
  pub to_value : Config → Result Value
  pub to_string : Value → Bytes
  pub to_string_pretty : Value → Result Bytes
  pub decode : Bytes → Option Bytes
  pub lossy : Bytes → Bytes

-- What a connection finds and what it is given.
pub record Setting : Type 0 where
  pub backends : Backends
  pub formats : Formats
  pub disk : Disk
  pub config_path : Bytes
  pub new_token : Bytes
  pub now : ℕ

pub record AdminState : Type 0 where
  pub server : ServerState
  pub store : TokenStore

abbrev pub Outcome : Type 0
Outcome = Result (Unit {0}) × AdminState × Conn

-- A response is the last that is done.
unfoldable pub respond :
    ℕ → Bytes → Bytes → Bytes → List (Bytes × Bytes) → AdminState → Conn → Outcome
unfolding send_response
respond status status_text content_type body extra s c =
    let (r, c') = send_response status status_text content_type body extra c in (r, s, c')

abbrev pub plain : Bytes
plain = lit "text/plain"

abbrev pub json : Bytes
json = lit "application/json"

abbrev pub basic_realm : List (Bytes × Bytes)
basic_realm = (lit "WWW-Authenticate", lit "Basic realm=\"Admin API\"") ∷ []

-- The same error after a response.
abbrev pub then_fail : Bytes → Outcome → Outcome
then_fail e (ok done, s, c) = (err e, s, c)
then_fail e (err e', s, c) = (err e', s, c)

abbrev pub login_accepted : Option Authenticator → Bytes → Bytes → Bool
login_accepted none username password = false
login_accepted (some auth) username password = elim (auth.authenticate username password) [
  | ok valid ↦ valid
  | err e ↦ false
]

-- `GET /metrics`
unfoldable pub metrics_body : ServerMetrics → Bytes
metrics_body m =
    lit "# HELP rust_socksd_active_connections Number of active connections\n"
    ++ lit "# TYPE rust_socksd_active_connections gauge\nrust_socksd_active_connections "
    ++ decimal m.active_connections
    ++ lit "\n# HELP rust_socksd_total_connections Total connections accepted\n"
    ++ lit "# TYPE rust_socksd_total_connections counter\nrust_socksd_total_connections "
    ++ decimal m.total_connections
    ++ lit "\n# HELP rust_socksd_bytes_tx Total bytes transmitted (client to target)\n"
    ++ lit "# TYPE rust_socksd_bytes_tx counter\nrust_socksd_bytes_tx "
    ++ decimal m.bytes_tx
    ++ lit "\n# HELP rust_socksd_bytes_rx Total bytes received (target to client)\n"
    ++ lit "# TYPE rust_socksd_bytes_rx counter\nrust_socksd_bytes_rx "
    ++ decimal m.bytes_rx
    ++ lit "\n# HELP rust_socksd_auth_failures Total authentication failures\n"
    ++ lit "# TYPE rust_socksd_auth_failures counter\nrust_socksd_auth_failures "
    ++ decimal m.auth_failures
    ++ lit "\n"

-- What cannot change while the server runs.
abbrev pub moves_listeners : Config → Config → Bool
moves_listeners new old =
    not (new.server.socks5_port == old.server.socks5_port)
    || (not (new.server.http_port == old.server.http_port)
        || (not (eq_bytes new.server.bind_address old.server.bind_address)
            || (not (new.admin.port == old.admin.port)
                || not (eq_bytes new.admin.bind_address old.admin.bind_address))))

module _ ⦃u : Unicode⦄ (x : Setting) where
  unfoldable pub json_error : Bool → Bytes → Bytes
  json_error valid error =
      x.formats.to_string
        (object (member (lit "valid") (boolean valid) (member (lit "error") (text error) end)))

  unfoldable pub json_failed : Bytes → Bytes
  json_failed error =
      x.formats.to_string (
        object
          (member (lit "status") (text (lit "failed")) (member (lit "error") (text error) end)))

  -- The response with a token; a panic ends the connection without one.
  unfoldable pub answer_token : ℕ → Result Bytes × TokenStore → AdminState → Conn → Outcome
  unfolding respond
  answer_token ttl (ok token, store) s c =
      let body =
        lit "{\"token\":\"" ++ token ++ lit "\",\"expires_in\":" ++ decimal ttl ++ lit "}" in
      respond 200 (lit "OK") json body [] (record s { store = store }) c
  answer_token ttl (err e, store) s c = (err e, record s { store = store }, c)

  unfoldable pub grant_token : Bool → Bytes → ℕ → AdminState → Conn → Outcome
  unfolding answer_token respond
  grant_token true username ttl s c =
      answer_token ttl (generate_token x.new_token x.now username s.store) s c
  grant_token false username ttl s c =
      respond 403 (lit "Forbidden") plain (lit "Forbidden: User is not an admin") [] s c

  unfoldable pub judge_login : Bool → Bytes → AdminState → Conn → Outcome
  unfolding grant_token
  judge_login true username s c =
      grant_token (any (eq_bytes username) s.server.config.admin.admin_users) username
        s.server.config.admin.token_ttl s c
  judge_login false username s c =
      respond 401 (lit "Unauthorized") plain (lit "Invalid username or password") basic_realm s
        (count_auth_failure true c)

  unfoldable pub login_as : Option (Bytes × Bytes) → AdminState → Conn → Outcome
  unfolding judge_login respond
  login_as none s c = respond 400 (lit "Bad Request") plain (lit "Invalid Basic Auth format") [] s c
  login_as (some (username, password)) s c =
      judge_login (login_accepted s.server.authenticator username password) username s c

  -- `POST /login`
  unfoldable pub handle_login : Option Bytes → AdminState → Conn → Outcome
  unfolding login_as respond
  handle_login none s c =
      respond 401 (lit "Unauthorized") plain (lit "Authorization header required") basic_realm s c
  handle_login (some auth_header) s c = login_as (parse_basic_auth x.formats.decode auth_header) s c

  -- `GET /config`
  unfoldable pub show_config : Result Bytes → AdminState → Conn → Outcome
  unfolding respond
  show_config (ok body) s c = respond 200 (lit "OK") json body [] s c
  show_config (err e) s c =
      respond 500 (lit "Internal Server Error") plain (lit "Failed to serialize config: " ++ e) [] s
        c

  unfoldable pub from_utf8_lossy : Bytes → Bytes
  from_utf8_lossy bytes = elim (from_utf8 bytes) [ some s ↦ s | none ↦ x.formats.lossy bytes ]

  unfoldable pub answer_valid : Result (Unit {0}) → AdminState → Conn → Outcome
  unfolding respond json_error
  answer_valid (ok done) s c = respond 200 (lit "OK") json (lit "{\"valid\":true}") [] s c
  answer_valid (err e) s c = respond 400 (lit "Bad Request") json (json_error false e) [] s c

  -- `POST /config/validate`
  unfoldable pub validate_config : Result Config → AdminState → Conn → Outcome
  unfolding answer_valid respond json_error
  validate_config (ok config) s c = answer_valid (Validate.validate config) s c
  validate_config (err e) s c =
      respond 400 (lit "Bad Request") json (json_error false (lit "YAML parsing failed: " ++ e)) []
        s c

  -- The state is replaced before the response.
  unfoldable pub replace_state :
      Config → Result (Option Authenticator) → AdminState → Conn → Outcome
  unfolding respond json_failed
  replace_state new_config (ok new_auth) s c =
      respond 200 (lit "OK") json (lit "{\"status\":\"reloaded\"}") []
        (record s { server = record { config = new_config; authenticator = new_auth } }) c
  replace_state new_config (err e) s c =
      respond 500 (lit "Internal Server Error") json
        (json_failed (lit "Failed to recreate authenticator: " ++ e)) [] s c

  -- `POST /config/reload`
  unfoldable pub reload : Result Config → AdminState → Conn → Outcome
  unfolding respond json_failed replace_state
  reload (err e) s c =
      respond 400 (lit "Bad Request") json
        (json_failed (lit "Failed to load/validate config: " ++ e)) [] s c
  reload (ok new_config) s c = elim (moves_listeners new_config s.server.config) [
    | true ↦
        respond 400 (lit "Bad Request") json
          (lit "{\"status\":\"failed\",\"error\":\"Cannot change bind addresses or ports at "
            ++ lit "runtime. Please restart the service.\"}")
          [] s c
    | false ↦ replace_state new_config (create_authenticator x.backends new_config x.disk) s c
  ]
