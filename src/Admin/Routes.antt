-- ===== src/Admin/Routes.antt =====
-- One admin connection, `handle_admin_connection`: the routes, in the order of the source.
pub mod Reload
pub mod Grants
pub mod Logins
mod Tests
use rust_socksd.Prelude.{
  ℕ, Bool, true, false, not, ◌&&◌, ◌||◌, List, [], ◌∷◌, ◌++◌, Option, none, some, Bytes, lit,
  Result, ok, err, ◌==◌, any, eq_bytes,
}
use rust_socksd.Text.{Unicode, decimal, from_utf8}
use rust_socksd.Map.{lookup, bytes_key}
use rust_socksd.Auth.{Authenticator}
use rust_socksd.Config.{Config}
use rust_socksd.Config.Validate
use rust_socksd.Metrics.{ServerMetrics}
use rust_socksd.Stream.{Conn}
use rust_socksd.Socks5.{count_auth_failure}
use rust_socksd.Files.{Disk, load_config}
use rust_socksd.Backend.{Backends, create_authenticator}
use rust_socksd.Server.{ServerState}
use rust_socksd.Admin.{
  AdminRequest, read_request, send_response, authenticate_request, parse_basic_auth,
}
use rust_socksd.Admin.Tokens.{TokenStore, generate_token}
use rust_socksd.Admin.Mask.{Value, text, boolean, object, member, end, get_masked_config}
use rust_socksd.Admin.Endpoints.{
  Formats, Setting, AdminState, Outcome, respond, plain, json, basic_realm, then_fail,
  login_accepted, metrics_body, moves_listeners, json_error, json_failed, grant_token, judge_login,
  login_as, handle_login, show_config, from_utf8_lossy, answer_valid, validate_config,
  replace_state, reload,
}

abbrev pub is_route : Bytes → Bytes → AdminRequest → Bool
is_route method path req = eq_bytes req.method method && eq_bytes req.path path

-- `>>=` on the masked value and its printing
abbrev pub print_config : Formats → Config → Result Bytes
print_config f config = f.to_string_pretty (get_masked_config (f.to_value config))

module _ ⦃u : Unicode⦄ (x : Setting) where
  -- The endpoints behind the token.
  unfoldable pub serve_authenticated : AdminRequest → AdminState → Conn → Outcome
  unfolding show_config validate_config reload respond from_utf8_lossy metrics_body
  serve_authenticated req s c = elim (is_route (lit "GET") (lit "/metrics") req) [
    | true ↦
        respond 200 (lit "OK") (lit "text/plain; version=0.0.4") (metrics_body c.metrics) [] s c
    | false ↦ elim (is_route (lit "GET") (lit "/config") req) [
      | true ↦ show_config x (print_config x.formats s.server.config) s c
      | false ↦ elim (is_route (lit "POST") (lit "/config/validate") req) [
        | true ↦
            validate_config x (x.backends.yaml.config_from_str (from_utf8_lossy x req.body)) s c
        | false ↦ elim (is_route (lit "POST") (lit "/config/reload") req) [
          | true ↦ reload x (load_config x.backends.yaml x.config_path x.disk) s c
          | false ↦ respond 404 (lit "Not Found") plain (lit "Not Found") [] s c
        ]
      ]
    ]
  ]

  check_bearer : AdminRequest → Result Bool × TokenStore → AdminState → Conn → Outcome
  unfolding serve_authenticated respond
  check_bearer req (ok true, store) s c = serve_authenticated req (record s { store = store }) c
  check_bearer req (ok false, store) s c =
      respond 401 (lit "Unauthorized") plain (lit "Unauthorized: Valid Bearer token required") []
        (record s { store = store }) c
  check_bearer req (err e, store) s c = (err e, record s { store = store }, c)

  unfoldable pub route : AdminRequest → AdminState → Conn → Outcome
  unfolding handle_login check_bearer respond
  route req s c = elim (is_route (lit "GET") (lit "/health") req) [
    | true ↦ respond 200 (lit "OK") json (lit "{\"status\":\"ok\"}") [] s c
    | false ↦ elim (is_route (lit "POST") (lit "/login") req) [
      | true ↦ handle_login x (lookup (lit "authorization") req.headers) s c
      | false ↦ check_bearer req (authenticate_request req s.server.config x.now s.store) s c
    ]
  ]

  handle_read : Result AdminRequest × Conn → AdminState → Outcome
  unfolding route respond
  handle_read (ok req, c) s = route req s c
  handle_read (err e, c) s =
      then_fail e
        (respond 400 (lit "Bad Request") plain (lit "Failed to parse request: " ++ e) [] s c)

  unfoldable pub handle_admin_connection : AdminState → Conn → Outcome
  unfolding handle_read
  handle_admin_connection s c = handle_read (read_request c) s
