-- ===== src/Server.antt =====
-- The server, src/server.rs: admission of clients, one connection of either protocol, and the
-- connections that run at once.
pub mod Session
pub mod Web
pub mod Slots
use rust_socksd.Prelude.{
  ℕ, Bool, true, false, Option, none, some, Bytes, Result, ok, ◌>>=◌, if◌then◌else◌,
}
use rust_socksd.Text.{Unicode}
use rust_socksd.Net.{IpAddr}
use rust_socksd.Metrics.{ServerMetrics}
use rust_socksd.Metrics
use rust_socksd.Auth.{Authenticator}
use rust_socksd.Config.{Config}
use rust_socksd.RateLimit.{RateLimitConfig, RateLimiter, check}
use rust_socksd.RateLimit
use rust_socksd.Files.{Disk}
use rust_socksd.Backend.{Backends, create_authenticator}
use rust_socksd.Upstream.Policy.{check_client_allowed}

pub record ServerState : Type 0 where
  pub config : Config
  pub authenticator : Option Authenticator

-- `ProxyServer`; of the semaphore its free permits. The resolver is an argument of the handlers.
pub record ProxyServer : Type 0 where
  pub state : ServerState
  pub permits : ℕ
  pub metrics : ServerMetrics
  pub rate_limiter : Option RateLimiter
  pub config_path : Bytes

abbrev limiter_of : Option RateLimitConfig → Option RateLimiter
limiter_of none = none
limiter_of (some config) = some (RateLimit.create config)

-- `ProxyServer::create`
unfoldable pub create : ⦃u : Unicode⦄ → Backends → Config → Bytes → Disk → Result ProxyServer
create b config config_path disk = create_authenticator b config disk >>= λ authenticator.
    ok (record {
      state = record { config = config; authenticator = authenticator };
      permits = config.server.max_connections;
      metrics = Metrics.create;
      rate_limiter = limiter_of config.security.rate_limit;
      config_path = config_path;
    })

-- The limiter's part of `admit_client`.
unfoldable pub admit_by_rate : Option RateLimiter → IpAddr → ℕ → Bool × Option RateLimiter
admit_by_rate none ip now = (true, none)
admit_by_rate (some limiter) ip now =
    let (allowed, limiter') = check ip now limiter in (allowed, some limiter')

-- A client that the networks refuse does not reach the limiter.
unfoldable pub admit_client : IpAddr → ℕ → ProxyServer → Bool × ProxyServer
unfolding admit_by_rate
admit_client ip now s = elim (check_client_allowed s.state.config ip) [
  | false ↦ (false, s)
  | true ↦
      let (allowed, limiter) = admit_by_rate s.rate_limiter ip now in
      (allowed, record s { rate_limiter = limiter })
]
