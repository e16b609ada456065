-- ===== src/Server/Web/Gate.antt =====
-- What an HTTP connection has passed before anything is done to the network.
use rust_socksd.Prelude.{Bool, true, false, ◌≡◌, ◌≢◌, refl, subst, Option, some, Bytes, ok}
use rust_socksd.Text.{Unicode}
use rust_socksd.Auth.{Authenticator}
use rust_socksd.Config.{Config}
use rust_socksd.Stream.{Conn}
use rust_socksd.Relay.{Sockets}
use rust_socksd.Upstream.Connect.{Trace, Resolver, Network}
use rust_socksd.HttpProxy.{HttpRequest, credentials, handle_request, send_error_response}
use rust_socksd.HttpProxy.Secrets.{validate_auth_sound}
use rust_socksd.Server.Session.Gate.{proceed-moved, proceed-trace}
use rust_socksd.Server.Web.{challenge, serve, handle_http_connection}

module _ (sockets : Sockets) ⦃u : Unicode⦄ (net : Network) (decode : Bytes → Option Bytes)
    (config : Config) (authenticator : Option Authenticator) (resolver : Resolver) where
  serve-moved :
      (request : HttpRequest) (verdict : Bool × Conn) (trace : Trace)
      → (serve sockets net decode config authenticator resolver request verdict trace).1.1 ≢ trace
      → verdict.0 ≡ true
  unfolding serve
  serve-moved request (true, client) trace h = refl
  serve-moved request (false, client) trace h =
      absurd (h (proceed-trace (send_error_response 407 challenge client) trace _ (λ a c. refl)))

  -- With authentication enabled nothing is done to the network for a client whose request does not
  -- carry a username and password that the backend accepts.
  pub web_gate :
      (client : Conn) (trace : Trace)
      → config.auth.enabled ≡ true
      → let (r, (client', trace')) =
          handle_http_connection sockets net decode config authenticator resolver (client, trace) in
        trace' ≢ trace
        → (request : HttpRequest) × (c : Conn) × (username : Bytes) × (password : Bytes)
          × (auth : Authenticator) × (handle_request config client ≡ (ok request, c))
          × (credentials decode request ≡ some (username, password))
          × (authenticator ≡ some auth)
          × (auth.authenticate username password ≡ ok true)
  unfolding handle_http_connection
  web_gate client trace on h =
      let (request, c, read, same) = proceed-moved (handle_request config client) trace _ h in
      let let_in = serve-moved request _ trace (subst (λ r. r.1.1 ≢ trace) same h) in
      let (auth, username, password, given, found, accepted) =
        validate_auth_sound decode config authenticator true request c on let_in in
      (request, c, username, password, auth, read, found, given, accepted)
