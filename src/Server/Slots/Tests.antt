-- ===== src/Server/Slots/Tests.antt =====
-- A server with two permits: one connection is served, another ends, a third client waits.
use rust_socksd.Prelude.{
  ◌+◌, ◌≤◌, ◌≡◌, ◌⊎◌, refl, arith, true, false, List, [], ◌∷◌, none, some, lit, ok, err, length,
  is_empty,
}
use rust_socksd.Text.{Unicode}
use rust_socksd.Net.{IpAddr, v4}
use rust_socksd.Metrics
use rust_socksd.Config.{Config, default_config}
use rust_socksd.Files.{Disk}
use rust_socksd.Backend.{Backends, create_authenticator}
use rust_socksd.Upstream.Policy.{check_client_allowed}
use rust_socksd.Server
use rust_socksd.Server.{ServerState, ProxyServer, admit_client}
use rust_socksd.Server.Slots.{
  listening, acquired, socks5_listener, http_listener, Running, Event, accepts, acquires,
  counts_total, counts_active, finishes, releases, step, Reachable, at_start, after,
}
use rust_socksd.Server.Slots.Bounded.{held, running_bounded}
use rust_socksd.Server.Slots.Drains.{work_left, IsQuiet, Next, run, server_drains}

instance abbrev unicode : Unicode
unicode = record { lower = λ s. s; upper = λ s. s }

abbrev config : Config
config = record default_config {
  server = record (default_config.server) { max_connections = 2 };
  security = record (default_config.security) { allowed_networks = [] };
}

abbrev backends : Backends
backends = record {
  yaml = record {
    config_from_str = λ s. err [];
    users_from_str = λ s. err [];
    users_to_string = λ users. err [];
  };
  hashing = record { hash = λ seed t password. err []; verify = λ t password hash. false };
  directory = record {
    connect = λ url. err [];
    simple_bind = λ log dn password. err [];
    search = λ log base filter. err [];
  };
  drivers = record { mysql_connect = λ url. err []; postgres_connect = λ url. err [] };
  pam_library = record { with_password = λ service. err []; spawn_blocking = λ r. ok r };
}

abbrev disk : Disk
disk = record {
  files = [];
  visible = λ path. true;
  readable = λ path. true;
  writable = λ path. false;
  room = λ path. 0;
}

abbrev server : ProxyServer
server = record {
  state = record { config = config; authenticator = none };
  permits = 2;
  metrics = Metrics.create;
  rate_limiter = none;
  config_path = lit "config.yml";
}

creates : Server.create backends config (lit "config.yml") disk ≡ ok server
unfolding Server.create create_authenticator
creates = refl

abbrev home : IpAddr
home = v4 (127 ∷ 0 ∷ 0 ∷ 1 ∷ [])

-- A SOCKS5 client is served; an HTTP client has a permit.
abbrev busy : Running
busy = record {
  server = record server {
    permits = 0;
    metrics = record Metrics.create { active_connections = 1; total_connections = 1 };
  };
  socks5_loop = listening;
  http_loop = acquired;
  serving = 1;
  ending = 0;
}

reaches : Reachable server busy
unfolding step admit_client check_client_allowed is_empty
reaches =
    after (acquires http_listener)
      (after (accepts http_listener home 7)
        (after (counts_active socks5_listener)
          (after (counts_total socks5_listener)
            (after (acquires socks5_listener) (after (accepts socks5_listener home 5) at_start refl)
              refl)
            refl)
          refl)
        refl)
      refl

running_bounded_example :
    (0 + held listening + held acquired + 1 + 0 ≡ 2)
    × (busy.server.metrics.active_connections ≡ 1)
    × (busy.server.metrics.active_connections ≤ 2)
running_bounded_example =
    running_bounded backends config (lit "config.yml") disk server busy (omega arith) creates
      reaches

-- Both connections get on until they are over.
abbrev rest : List Event
rest =
    finishes
    ∷ counts_total http_listener
    ∷ releases
    ∷ counts_active http_listener
    ∷ finishes
    ∷ releases
    ∷ []

abbrev quiet : Running
quiet = record {
  server = record server {
    metrics = record Metrics.create { active_connections = 0; total_connections = 2 };
  };
  socks5_loop = listening;
  http_loop = listening;
  serving = 0;
  ending = 0;
}

comes_to_rest : run rest busy ≡ some quiet
unfolding run step
comes_to_rest = refl

server_drains_example :
    (length rest ≤ work_left busy)
    × (Next quiet
        ⊎ (IsQuiet quiet
            × (quiet.server.permits ≡ 2)
            × (quiet.server.metrics.active_connections ≡ 0)))
server_drains_example =
    server_drains backends config (lit "config.yml") disk server busy quiet rest (omega arith)
      (omega arith) creates reaches (tt, (tt, (tt, (tt, (tt, (tt, tt)))))) comes_to_rest
