-- ===== src/Server/Slots/Bounded.antt =====
-- The permits, and the counter of active connections.
use rust_socksd.Prelude.{
  ℕ, zero, suc, ◌+◌, ◌<◌, ◌≤◌, ◌≡◌, ◌∙◌, refl, ap, subst, if◌then◌else◌, Bool, true, false, Option,
  none, some, Bytes, ok, err, >>=-eq-ok, arith, Bool-cases, inl, inr,
}
use rust_socksd.Text.{Unicode}
use rust_socksd.Net.{IpAddr}
use rust_socksd.Config.{Config}
use rust_socksd.Metrics.{u64_mod}
use rust_socksd.Upstream.Policy.{check_client_allowed}
use rust_socksd.Files.{Disk}
use rust_socksd.Backend.{Backends, create_authenticator}
use rust_socksd.Server
use rust_socksd.Server.{ServerState, ProxyServer, admit_client}
use rust_socksd.Server.Slots.{
  Loop, listening, acquiring, acquired, counted, Listener, socks5_listener, http_listener, Running,
  Event, accepts, accept_fails, acquires, counts_total, counts_active, works, finishes, releases,
  reloads, loop_of, accept, acquire, count_total, count_active, work, finish, release, step,
  started, Reachable, at_start, after,
}

-- The permits that a loop holds.
abbrev pub held : Loop → ℕ
held listening = 0
held acquiring = 0
held acquired = 1
held counted = 1

-- Every permit is free, held by a loop or by a connection, and the counter of active connections is
-- their number.
pub record Bounded (max : ℕ) (r : Running) : Type 0 where
  pub permits :
      r.server.permits + held r.socks5_loop + held r.http_loop + r.serving + r.ending ≡ max
  pub active : r.server.metrics.active_connections ≡ r.serving

admit_client-keeps :
    (ip : IpAddr) (now : ℕ) (s : ProxyServer)
    → ((admit_client ip now s).1.permits ≡ s.permits)
      × ((admit_client ip now s).1.metrics ≡ s.metrics)
unfolding admit_client
admit_client-keeps ip now s = elim (Bool-cases (check_client_allowed s.state.config ip)) [
  | inl allowed ↦ rw (allowed, admit_client) (refl, refl)
  | inr refused ↦ rw (refused, admit_client) (refl, refl)
]

-- Of the state that an event leads to, if it is possible.
abbrev pub After : (Running → Type 0) → Option Running → Type 0
After P none = Unit {0}
After P (some r) = P r

held_next : (admitted : Bool) → held (if admitted then acquiring else listening) ≡ 0
held_next true = refl
held_next false = refl

module _ (max : ℕ) (small : max < u64_mod) (r : Running) (b : Bounded max r) where
  accept-Bounded :
      (l : Listener) (loop : Loop) (ip : IpAddr) (now : ℕ)
      → loop_of l r ≡ loop
      → After (Bounded max) (accept l loop ip now r)
  unfolding accept
  accept-Bounded socks5_listener listening ip now h =
      let (same, counters) = admit_client-keeps ip now r.server in
      let next = held_next (admit_client ip now r.server).0 in
      record {
        permits = omega (arith, b.permits, same, next, ap held h);
        active = ap (λ m. m.active_connections) counters ∙ b.active;
      }
  accept-Bounded http_listener listening ip now h =
      let (same, counters) = admit_client-keeps ip now r.server in
      let next = held_next (admit_client ip now r.server).0 in
      record {
        permits = omega (arith, b.permits, same, next, ap held h);
        active = ap (λ m. m.active_connections) counters ∙ b.active;
      }
  accept-Bounded l acquiring ip now h = tt
  accept-Bounded l acquired ip now h = tt
  accept-Bounded l counted ip now h = tt

  acquire-Bounded :
      (l : Listener) (loop : Loop) (permits : ℕ)
      → loop_of l r ≡ loop
      → r.server.permits ≡ permits
      → After (Bounded max) (acquire l loop permits r)
  unfolding acquire
  acquire-Bounded socks5_listener acquiring (suc n) h p = record {
    permits = omega (arith, b.permits, p, ap held h);
    active = b.active;
  }
  acquire-Bounded http_listener acquiring (suc n) h p = record {
    permits = omega (arith, b.permits, p, ap held h);
    active = b.active;
  }
  acquire-Bounded l acquiring zero h p = tt
  acquire-Bounded l listening n h p = tt
  acquire-Bounded l acquired n h p = tt
  acquire-Bounded l counted n h p = tt

  count_total-Bounded :
      (l : Listener) (loop : Loop) → loop_of l r ≡ loop → After (Bounded max) (count_total l loop r)
  unfolding count_total
  count_total-Bounded socks5_listener acquired h = record {
    permits = omega (arith, b.permits, ap held h);
    active = b.active;
  }
  count_total-Bounded http_listener acquired h = record {
    permits = omega (arith, b.permits, ap held h);
    active = b.active;
  }
  count_total-Bounded l acquiring h = tt
  count_total-Bounded l listening h = tt
  count_total-Bounded l counted h = tt

  count_active-Bounded :
      (l : Listener) (loop : Loop)
      → loop_of l r ≡ loop
      → After (Bounded max) (count_active l loop r)
  unfolding count_active
  count_active-Bounded socks5_listener counted h = record {
    permits = omega (arith, b.permits, ap held h);
    active = omega (arith, b.permits, b.active, ap held h, small);
  }
  count_active-Bounded http_listener counted h = record {
    permits = omega (arith, b.permits, ap held h);
    active = omega (arith, b.permits, b.active, ap held h, small);
  }
  count_active-Bounded l acquiring h = tt
  count_active-Bounded l listening h = tt
  count_active-Bounded l acquired h = tt

  work-Bounded : (tx rx failures serving : ℕ) → After (Bounded max) (work tx rx failures serving r)
  unfolding work
  work-Bounded tx rx failures zero = tt
  work-Bounded tx rx failures (suc n) = record { permits = b.permits; active = b.active }

  finish-Bounded : (serving : ℕ) → r.serving ≡ serving → After (Bounded max) (finish serving r)
  unfolding finish
  finish-Bounded zero h = tt
  finish-Bounded (suc n) h = record {
    permits = omega (arith, b.permits, h);
    active = omega (arith, b.permits, b.active, h, small);
  }

  release-Bounded : (ending : ℕ) → r.ending ≡ ending → After (Bounded max) (release ending r)
  unfolding release
  release-Bounded zero h = tt
  release-Bounded (suc n) h = record { permits = omega (arith, b.permits, h); active = b.active }

  pub step-Bounded : (e : Event) → After (Bounded max) (step e r)
  unfolding step
  step-Bounded (accepts l ip now) = accept-Bounded l (loop_of l r) ip now refl
  step-Bounded (accept_fails l) = b
  step-Bounded (acquires l) = acquire-Bounded l (loop_of l r) r.server.permits refl refl
  step-Bounded (counts_total l) = count_total-Bounded l (loop_of l r) refl
  step-Bounded (counts_active l) = count_active-Bounded l (loop_of l r) refl
  step-Bounded (works tx rx failures) = work-Bounded tx rx failures r.serving
  step-Bounded finishes = finish-Bounded r.serving refl
  step-Bounded releases = release-Bounded r.ending refl
  step-Bounded (reloads state) = record { permits = b.permits; active = b.active }

create-fresh :
    ⦃u : Unicode⦄ (b : Backends) (config : Config) (path : Bytes) (disk : Disk) (s : ProxyServer)
    → Server.create b config path disk ≡ ok s
    → (s.permits ≡ config.server.max_connections) × (s.metrics.active_connections ≡ 0)
unfolding Server.create
create-fresh b config path disk s h =
    let (authenticator, made, same) = >>=-eq-ok (create_authenticator b config disk) _ h in
    subst
      (λ r. elim r [
        | ok s ↦ (s.permits ≡ config.server.max_connections) × (s.metrics.active_connections ≡ 0)
        | err e ↦ Unit {0}
      ])
      same (refl, refl)

started-Bounded :
    (s : ProxyServer) → s.metrics.active_connections ≡ 0 → Bounded s.permits (started s)
started-Bounded s h = record { permits = omega arith; active = h }

reachable-Bounded :
    (s : ProxyServer) (r : Running)
    → s.permits < u64_mod
    → s.metrics.active_connections ≡ 0
    → Reachable s r
    → Bounded s.permits r
reachable-Bounded s _ small h at_start = started-Bounded s h
reachable-Bounded s r' small h (after {r} e reached same) =
    subst (After (Bounded s.permits)) same
      (step-Bounded s.permits small r (reachable-Bounded s r small h reached) e)

pub created-Bounded :
    ⦃u : Unicode⦄ (b : Backends) (config : Config) (path : Bytes) (disk : Disk) (s : ProxyServer)
    (r : Running)
    → config.server.max_connections < u64_mod
    → Server.create b config path disk ≡ ok s
    → Reachable s r
    → Bounded config.server.max_connections r
created-Bounded b config path disk s r small made reached =
    let (permits, active) = create-fresh b config path disk s made in
    subst (λ max. Bounded max r) permits
      (reachable-Bounded s r (omega (arith, permits, small)) active reached)

-- Whatever the two loops, the connections and the administrator do, and in whatever order, the
-- permits are as many as `max_connections`: each is free, held by a loop with an admitted client,
-- or held by a connection. The counter of active connections is the number of the connections that
-- are served, so it is never above `max_connections` and never wraps.
pub running_bounded :
    ⦃u : Unicode⦄ (b : Backends) (config : Config) (path : Bytes) (disk : Disk) (s : ProxyServer)
    (r : Running)
    → config.server.max_connections < u64_mod
    → Server.create b config path disk ≡ ok s
    → Reachable s r
    → (r.server.permits + held r.socks5_loop + held r.http_loop + r.serving + r.ending
        ≡ config.server.max_connections)
      × (r.server.metrics.active_connections ≡ r.serving)
      × (r.server.metrics.active_connections ≤ config.server.max_connections)
running_bounded b config path disk s r small made reached =
    let bounded = created-Bounded b config path disk s r small made reached in
    (bounded.permits, bounded.active, omega (arith, bounded.permits, bounded.active))
