-- ===== src/Admin/Routes/Logins.antt =====
-- Who gets a token.
use rust_socksd.Prelude.{
  Bool, true, false, ◌≡◌, ◌⊎◌, inl, inr, refl, ap, subst, Option, some, Bytes, lit, Result, ok, err,
}
use rust_socksd.Text.{Unicode}
use rust_socksd.Map.{lookup, IsMap, bytes_key}
use rust_socksd.Auth.{Authenticator}
use rust_socksd.Config.{Config}
use rust_socksd.Stream.{Conn}
use rust_socksd.Admin.{AdminRequest, read_request, bearer, authenticate_request}
use rust_socksd.Admin.Tokens.{TokenInfo, TokenStore}
use rust_socksd.Admin.Endpoints.{
  Setting, AdminState, Outcome, respond, moves_listeners, replace_state, reload,
}
use rust_socksd.Admin.Routes.{
  is_route, serve_authenticated, check_bearer, route, handle_read, handle_admin_connection,
}
use rust_socksd.Admin.Routes.Reload.{
  by_test, show_config-server, validate_config-server, then_fail-state,
}
use rust_socksd.Admin.Routes.Grants.{LoggedIn, Earned, handle_login-Earned, check_token-Fewer}

module _ ⦃u : Unicode⦄ (x : Setting) (s : AdminState) where
  replace_state-store :
      (store : TokenStore) (c : Conn) (config : Config) (r : Result (Option Authenticator))
      → (replace_state x config r (record s { store = store }) c).1.store ≡ store
  unfolding replace_state respond
  replace_state-store store c config (ok auth) = refl
  replace_state-store store c config (err e) = refl

  reload-store :
      (store : TokenStore) (c : Conn) (r : Result Config)
      → (reload x r (record s { store = store }) c).1.store ≡ store
  unfolding reload respond
  reload-store store c (err e) = refl
  reload-store store c (ok config) =
      by_test (λ o. o.1.store ≡ store) (moves_listeners config s.server.config) _ _ (λ m. refl)
        λ m. replace_state-store store c config _

  serve_authenticated-store :
      (store : TokenStore) (c : Conn) (req : AdminRequest)
      → (serve_authenticated x req (record s { store = store }) c).1.store ≡ store
  unfolding serve_authenticated respond
  serve_authenticated-store store c req =
      let P = λ (o : Outcome). o.1.store ≡ store in
      by_test P (is_route (lit "GET") (lit "/metrics") req) _ _ (λ m. refl)
        λ m.
          by_test P (is_route (lit "GET") (lit "/config") req) _ _
            (λ m. ap (λ s. s.store) (show_config-server x s store _ c))
            λ m.
              by_test P (is_route (lit "POST") (lit "/config/validate") req) _ _
                (λ m. ap (λ s. s.store) (validate_config-server x s store _ c))
                λ m.
                  by_test P (is_route (lit "POST") (lit "/config/reload") req) _ _
                    (λ m. reload-store store c _) (λ m. refl)

  check_bearer-store :
      (req : AdminRequest) (verdict : Result Bool × TokenStore) (c : Conn)
      → (check_bearer x req verdict s c).1.store ≡ verdict.1
  unfolding check_bearer respond
  check_bearer-store req (ok true, store) c = serve_authenticated-store store c req
  check_bearer-store req (ok false, store) c = refl
  check_bearer-store req (err e, store) c = refl

  route-Earned :
      (req : AdminRequest) (c : Conn)
      → IsMap s.store.tokens
      → Earned x s (LoggedIn x s req) (route x req s c).1.store
  unfolding route respond authenticate_request
  route-Earned req c map =
      let P = λ (o : Outcome). Earned x s (LoggedIn x s req) o.1.store in
      by_test P (is_route (lit "GET") (lit "/health") req) _ _ (λ m token info h. inl h)
        λ m.
          by_test P (is_route (lit "POST") (lit "/login") req) _ _
            (λ posted. handle_login-Earned x s req _ c posted refl)
            λ m token info h. inl (
              check_token-Fewer x s s.server.config (bearer req) map token info (
                subst (λ store. lookup token store.tokens ≡ some info) (check_bearer-store req _ c)
                  h))

  handle_read-Earned :
      (read : Result AdminRequest × Conn)
      → IsMap s.store.tokens
      → Earned x s
          (λ token info. (req : AdminRequest) × (read.0 ≡ ok req) × LoggedIn x s req token info)
          (handle_read x read s).1.store
  unfolding handle_read respond
  handle_read-Earned (err e, c) map token info h =
      inl (subst (λ s. lookup token s.store.tokens ≡ some info) (then_fail-state e _) h)
  handle_read-Earned (ok req, c) map token info h = elim (route-Earned req c map token info h) [
    | inl old ↦ inl old
    | inr logged_in ↦ inr (req, refl, logged_in)
  ]

  -- A token is in the store after an admin connection only if it was there before, with the same
  -- user and time, or if the connection was a `POST /login` with a username and password that the
  -- backend accepts, of one of the `admin_users`; then it is the token that was drawn, for that
  -- user, and expires when the time to live is over.
  pub token_earned :
      (c : Conn) (token : Bytes) (info : TokenInfo)
      → IsMap s.store.tokens
      → lookup token (handle_admin_connection x s c).1.store.tokens ≡ some info
      → (lookup token s.store.tokens ≡ some info)
        ⊎ ((req : AdminRequest) × ((read_request c).0 ≡ ok req) × LoggedIn x s req token info)
  unfolding handle_admin_connection
  token_earned c token info map = handle_read-Earned (read_request c) map token info
