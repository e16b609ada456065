-- ===== src/Admin/Routes/Reload.antt =====
-- What may replace the configuration and the backend while the server runs.
use rust_socksd.Prelude.{
  ℕ, Bool, true, false, ◌≡◌, ◌≢◌, refl, ap, Option, none, some, Bytes, lit, Result, ok, err,
}
use rust_socksd.Text.{Unicode}
use rust_socksd.Map.{bytes_key}
use rust_socksd.Auth.{Authenticator}
use rust_socksd.Config.{Config}
use rust_socksd.Config.Validate
use rust_socksd.Stream.{Conn}
use rust_socksd.Files.{load_config}
use rust_socksd.Files.Kept.{load_config-Valid}
use rust_socksd.Backend.{create_authenticator}
use rust_socksd.Server.{ServerState}
use rust_socksd.Admin.{AdminRequest, read_request, authenticate_request}
use rust_socksd.Admin.Tokens.{TokenStore, generate_token}
use rust_socksd.Admin.Endpoints.{
  Setting, AdminState, Outcome, respond, then_fail, moves_listeners, answer_token, grant_token,
  judge_login, login_as, handle_login, show_config, answer_valid, validate_config, replace_state,
  reload,
}
use rust_socksd.Admin.Routes.{
  is_route, serve_authenticated, check_bearer, route, handle_read, handle_admin_connection,
}

-- By the outcome of a test.
pub by_test {ℓ} :
    (P : Outcome → Type ℓ) (b : Bool) (x y : Outcome)
    → (b ≡ true → P x)
    → (b ≡ false → P y)
    → P (elim b [ true ↦ x | false ↦ y ])
by_test P true x y f g = f refl
by_test P false x y f g = g refl

pub then_fail-state : (e : Bytes) (o : Outcome) → (then_fail e o).1 ≡ o.1
then_fail-state e (ok done, s, c) = refl
then_fail-state e (err e', s, c) = refl

module _ ⦃u : Unicode⦄ (x : Setting) (s : AdminState) where
  -- The state of the server is the same, or another as `Goal` says.
  abbrev Moved : (ServerState → Type 0) → Outcome → Type 0
  Moved Goal o = o.1.server ≢ s.server → Goal o.1.server

  -- The configuration file was loaded, is valid and keeps the listeners, and is the new state with
  -- the backend that it names.
  abbrev pub Reloaded : ServerState → Type 0
  Reloaded server =
      (config : Config) × (load_config x.backends.yaml x.config_path x.disk ≡ ok config)
      × (Validate.validate config ≡ ok tt)
      × (moves_listeners config s.server.config ≡ false)
      × (create_authenticator x.backends config x.disk ≡ ok server.authenticator)
      × (server.config ≡ config)

  replace_state-Moved :
      (store : TokenStore) (c : Conn) (config : Config) (r : Result (Option Authenticator))
      → load_config x.backends.yaml x.config_path x.disk ≡ ok config
      → moves_listeners config s.server.config ≡ false
      → create_authenticator x.backends config x.disk ≡ r
      → Moved Reloaded (replace_state x config r (record s { store = store }) c)
  unfolding replace_state respond
  replace_state-Moved store c config (ok auth) loaded kept made h = (
    config,
    loaded,
    load_config-Valid x.backends.yaml x.config_path x.disk loaded,
    kept,
    made,
    refl,
  )
  replace_state-Moved store c config (err e) loaded kept made h = absurd (h refl)

  reload-Moved :
      (store : TokenStore) (c : Conn) (r : Result Config)
      → load_config x.backends.yaml x.config_path x.disk ≡ r
      → Moved Reloaded (reload x r (record s { store = store }) c)
  unfolding reload respond
  reload-Moved store c (err e) loaded = λ h. absurd (h refl)
  reload-Moved store c (ok config) loaded =
      by_test (Moved Reloaded) (moves_listeners config s.server.config) _ _
        (λ moves h. absurd (h refl)) λ kept. replace_state-Moved store c config _ loaded kept refl

  pub show_config-server :
      (store : TokenStore) (r : Result Bytes) (c : Conn)
      → (show_config x r (record s { store = store }) c).1 ≡ record s { store = store }
  unfolding show_config respond
  show_config-server store (ok body) c = refl
  show_config-server store (err e) c = refl

  answer_valid-server :
      (store : TokenStore) (r : Result (Unit {0})) (c : Conn)
      → (answer_valid x r (record s { store = store }) c).1 ≡ record s { store = store }
  unfolding answer_valid respond
  answer_valid-server store (ok done) c = refl
  answer_valid-server store (err e) c = refl

  pub validate_config-server :
      (store : TokenStore) (r : Result Config) (c : Conn)
      → (validate_config x r (record s { store = store }) c).1 ≡ record s { store = store }
  unfolding validate_config respond
  validate_config-server store (ok config) c =
      answer_valid-server store (Validate.validate config) c
  validate_config-server store (err e) c = refl

  answer_token-server :
      (ttl : ℕ) (r : Result Bytes × TokenStore) (c : Conn)
      → (answer_token x ttl r s c).1.server ≡ s.server
  unfolding answer_token respond
  answer_token-server ttl (ok token, store) c = refl
  answer_token-server ttl (err e, store) c = refl

  grant_token-server :
      (b : Bool) (username : Bytes) (ttl : ℕ) (c : Conn)
      → (grant_token x b username ttl s c).1.server ≡ s.server
  unfolding grant_token respond
  grant_token-server true username ttl c =
      answer_token-server ttl (generate_token x.new_token x.now username s.store) c
  grant_token-server false username ttl c = refl

  judge_login-server :
      (b : Bool) (username : Bytes) (c : Conn) → (judge_login x b username s c).1.server ≡ s.server
  unfolding judge_login respond
  judge_login-server true username c = grant_token-server _ username _ c
  judge_login-server false username c = refl

  login_as-server : (o : Option (Bytes × Bytes)) (c : Conn) → (login_as x o s c).1.server ≡ s.server
  unfolding login_as respond
  login_as-server none c = refl
  login_as-server (some (username, password)) c = judge_login-server _ username c

  handle_login-server : (o : Option Bytes) (c : Conn) → (handle_login x o s c).1.server ≡ s.server
  unfolding handle_login respond
  handle_login-server none c = refl
  handle_login-server (some auth_header) c = login_as-server _ c

  -- The request asked for it with a token that is accepted.
  abbrev pub Asked : AdminRequest → ServerState → Type 0
  Asked req server = (is_route (lit "POST") (lit "/config/reload") req ≡ true) × Reloaded server

  unmoved :
      (Goal : ServerState → Type 0) (server : ServerState)
      → server ≡ s.server
      → server ≢ s.server
      → Goal server
  unmoved Goal server same h = absurd (h same)

  serve_authenticated-Moved :
      (store : TokenStore) (c : Conn) (req : AdminRequest)
      → Moved (Asked req) (serve_authenticated x req (record s { store = store }) c)
  unfolding serve_authenticated respond
  serve_authenticated-Moved store c req =
      let P = Moved (Asked req) in
      by_test P (is_route (lit "GET") (lit "/metrics") req) _ _ (λ m. unmoved (Asked req) _ refl)
        λ m.
          by_test P (is_route (lit "GET") (lit "/config") req) _ _
            (λ m. unmoved (Asked req) _ (ap (λ s. s.server) (show_config-server store _ c)))
            λ m.
              by_test P (is_route (lit "POST") (lit "/config/validate") req) _ _
                (λ m. unmoved (Asked req) _ (ap (λ s. s.server) (validate_config-server store _ c)))
                λ m.
                  by_test P (is_route (lit "POST") (lit "/config/reload") req) _ _
                    (λ m h. (m, reload-Moved store c _ refl h)) (λ m. unmoved (Asked req) _ refl)

  abbrev pub Authorised : AdminRequest → ServerState → Type 0
  Authorised req server =
      ((authenticate_request req s.server.config x.now s.store).0 ≡ ok true) × Asked req server

  check_bearer-Moved :
      (req : AdminRequest) (verdict : Result Bool × TokenStore) (c : Conn)
      → Moved (λ server. (verdict.0 ≡ ok true) × Asked req server) (check_bearer x req verdict s c)
  unfolding check_bearer respond
  check_bearer-Moved req (ok true, store) c h = (refl, serve_authenticated-Moved store c req h)
  check_bearer-Moved req (ok false, store) c h = absurd (h refl)
  check_bearer-Moved req (err e, store) c h = absurd (h refl)

  route-Moved : (req : AdminRequest) (c : Conn) → Moved (Authorised req) (route x req s c)
  unfolding route respond
  route-Moved req c =
      let P = Moved (Authorised req) in
      by_test P (is_route (lit "GET") (lit "/health") req) _ _
        (λ m. unmoved (Authorised req) _ refl)
        λ m.
          by_test P (is_route (lit "POST") (lit "/login") req) _ _
            (λ m. unmoved (Authorised req) _ (handle_login-server _ c))
            λ m. check_bearer-Moved req _ c

  handle_read-Moved :
      (read : Result AdminRequest × Conn)
      → Moved
          (λ server. (req : AdminRequest) × (read.0 ≡ ok req) × Authorised req server)
          (handle_read x read s)
  unfolding handle_read respond
  handle_read-Moved (ok req, c) h = (req, refl, route-Moved req c h)
  handle_read-Moved (err e, c) h = absurd (h (ap (λ s. s.server) (then_fail-state e _)))

  -- The configuration and the backend of the running server are replaced by an admin connection
  -- only for a `POST /config/reload` with a token that is accepted, and only by a configuration
  -- that was loaded from the configuration file, is valid and keeps the ports and addresses of the
  -- listeners, together with the backend that this configuration names.
  pub reload_sound :
      (c : Conn)
      → let (r, s', c') = handle_admin_connection x s c in
        s'.server ≢ s.server
        → (req : AdminRequest) × ((read_request c).0 ≡ ok req) × Authorised req s'.server
  unfolding handle_admin_connection
  reload_sound c h = handle_read-Moved (read_request c) h
