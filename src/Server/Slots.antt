-- ===== src/Server/Slots.antt =====
-- The connections that run at once: `run_socks5_server` and `run_http_server`, which share the
-- semaphore, the limiter and the counters. An event is one atomic step of one of the two loops or
-- of a connection's task, so that a list of events is an interleaving. Every handler runs under a
-- timeout, so a connection that is served may end at any time.
pub mod Bounded
pub mod Drains
mod Tests
use rust_socksd.Prelude.{
  ℕ, zero, suc, ◌+◌, ◌<◌, ◌≡◌, Bool, true, false, List, [], ◌∷◌, Option, none, some, if◌then◌else◌,
}
use rust_socksd.Net.{IpAddr}
use rust_socksd.Metrics.{ServerMetrics, fetch_add, fetch_sub}
use rust_socksd.Server.{ServerState, ProxyServer, admit_client}

-- Where an accept loop stands: before `accept`, before `acquire_owned` with a client that was
-- admitted, with the permit, with `total_connections` counted.
pub data Loop : Type 0 where
  listening acquiring acquired counted : Loop

pub data Listener : Type 0 where
  socks5_listener http_listener : Listener

-- Connections that are served are counted as active; an ending one is not any more, but has its
-- permit yet.
pub record Running : Type 0 where
  pub server : ProxyServer
  pub socks5_loop : Loop
  pub http_loop : Loop
  pub serving : ℕ
  pub ending : ℕ

pub data Event : Type 0 where
  accepts : Listener → IpAddr → ℕ → Event
  accept_fails acquires counts_total counts_active : Listener → Event
  works : ℕ → ℕ → ℕ → Event
  finishes releases : Event
  reloads : ServerState → Event

abbrev pub loop_of : Listener → Running → Loop
loop_of socks5_listener r = r.socks5_loop
loop_of http_listener r = r.http_loop

abbrev pub at_loop : Listener → Loop → Running → Running
at_loop socks5_listener loop r = record r { socks5_loop = loop }
at_loop http_listener loop r = record r { http_loop = loop }

abbrev pub with_metrics : ServerMetrics → Running → Running
with_metrics metrics r = record r { server = record (r.server) { metrics = metrics } }

abbrev pub with_permits : ℕ → Running → Running
with_permits permits r = record r { server = record (r.server) { permits = permits } }

-- `continue` for a client that is not admitted.
unfoldable pub accept : Listener → Loop → IpAddr → ℕ → Running → Option Running
accept l listening ip now r =
    let (admitted, server) = admit_client ip now r.server in
    some (at_loop l (if admitted then acquiring else listening) (record r { server = server }))
accept l loop ip now r = none

unfoldable pub acquire : Listener → Loop → ℕ → Running → Option Running
acquire l acquiring (suc permits) r = some (with_permits permits (at_loop l acquired r))
acquire l loop permits r = none

unfoldable pub count_total : Listener → Loop → Running → Option Running
count_total l acquired r =
    let m = r.server.metrics in
    some (
      at_loop l counted
        (with_metrics (record m { total_connections = fetch_add m.total_connections 1 }) r))
count_total l loop r = none

-- The connection is counted as active and its task is spawned.
unfoldable pub count_active : Listener → Loop → Running → Option Running
count_active l counted r =
    let m = r.server.metrics in
    let metrics = record m { active_connections = fetch_add m.active_connections 1 } in
    some (at_loop l listening (with_metrics metrics (record r { serving = suc r.serving })))
count_active l loop r = none

-- What the handler of a connection adds to the counters.
unfoldable pub work : ℕ → ℕ → ℕ → ℕ → Running → Option Running
work tx rx failures zero r = none
work tx rx failures (suc serving) r =
    let m = r.server.metrics in
    some (
      with_metrics
        (record m {
          bytes_tx = fetch_add m.bytes_tx tx;
          bytes_rx = fetch_add m.bytes_rx rx;
          auth_failures = fetch_add m.auth_failures failures;
        })
        r)

-- The handler has returned or timed out.
unfoldable pub finish : ℕ → Running → Option Running
finish zero r = none
finish (suc serving) r =
    let m = r.server.metrics in
    let metrics = record m { active_connections = fetch_sub m.active_connections 1 } in
    some (with_metrics metrics (record r { serving = serving; ending = suc r.ending }))

-- The task ends and drops its permit.
unfoldable pub release : ℕ → Running → Option Running
release zero r = none
release (suc ending) r = some (with_permits (suc r.server.permits) (record r { ending = ending }))

-- `none` where the event is not possible.
unfoldable pub step : Event → Running → Option Running
unfolding accept acquire count_total count_active work finish release
step (accepts l ip now) r = accept l (loop_of l r) ip now r
step (accept_fails l) r = some r
step (acquires l) r = acquire l (loop_of l r) r.server.permits r
step (counts_total l) r = count_total l (loop_of l r) r
step (counts_active l) r = count_active l (loop_of l r) r
step (works tx rx failures) r = work tx rx failures r.serving r
step finishes r = finish r.serving r
step releases r = release r.ending r
step (reloads state) r = some (record r { server = record (r.server) { state = state } })

-- The server as it starts.
abbrev pub started : ProxyServer → Running
started server = record {
  server = server;
  socks5_loop = listening;
  http_loop = listening;
  serving = 0;
  ending = 0;
}

-- The states that some interleaving leads to.
pub data Reachable (s : ProxyServer) : Running → Type 0 where
  at_start : Reachable s (started s)
  after : {r r' : Running} (e : Event) → Reachable s r → step e r ≡ some r' → Reachable s r'
