-- ===== src/Server/Slots/Drains.antt =====
-- Every loop and every connection gets on: without new clients the server comes to rest.
use rust_socksd.Prelude.{
  ℕ, zero, suc, ◌+◌, ◌*◌, ◌<◌, ◌≤◌, ◌≡◌, ◌⊎◌, inl, inr, ◌∙◌, refl, ap, List, [], ◌∷◌, length,
  Option-cases, subst, Option, none, some, Bytes, ok, arith,
}
use rust_socksd.Text.{Unicode}
use rust_socksd.Metrics.{u64_mod}
use rust_socksd.Config.{Config}
use rust_socksd.Files.{Disk}
use rust_socksd.Backend.{Backends}
use rust_socksd.Server
use rust_socksd.Server.{ProxyServer}
use rust_socksd.Server.Slots.{
  Loop, listening, acquiring, acquired, counted, Listener, socks5_listener, http_listener, Running,
  Event, accepts, accept_fails, acquires, counts_total, counts_active, works, finishes, releases,
  reloads, loop_of, acquire, count_total, count_active, finish, release, step, Reachable,
}
use rust_socksd.Server.Slots.Bounded.{held, After, Bounded, step-Bounded, created-Bounded}

-- The events by which a loop or a connection that has started gets on.
abbrev pub IsProgress : Event → Type 0
IsProgress (acquires l) = Unit {0}
IsProgress (counts_total l) = Unit {0}
IsProgress (counts_active l) = Unit {0}
IsProgress finishes = Unit {0}
IsProgress releases = Unit {0}
IsProgress e = ⊥

-- How far a loop's client is from being released.
abbrev pub ahead : Loop → ℕ
ahead listening = 0
ahead acquiring = 5
ahead acquired = 4
ahead counted = 3

abbrev pub work_left : Running → ℕ
work_left r = ahead r.socks5_loop + ahead r.http_loop + 2 * r.serving + r.ending

abbrev pub IsQuiet : Running → Type 0
IsQuiet r =
    (r.socks5_loop ≡ listening) × (r.http_loop ≡ listening) × (r.serving ≡ 0) × (r.ending ≡ 0)

-- One of the work that is left is done.
abbrev Done : Running → Option Running → Type 0
Done r = After (λ r'. suc (work_left r') ≡ work_left r)

module _ (r : Running) where
  acquire-Done :
      (l : Listener) (loop : Loop) (permits : ℕ)
      → loop_of l r ≡ loop
      → Done r (acquire l loop permits r)
  unfolding acquire
  acquire-Done socks5_listener acquiring (suc n) h = omega (arith, ap ahead h)
  acquire-Done http_listener acquiring (suc n) h = omega (arith, ap ahead h)
  acquire-Done l acquiring zero h = tt
  acquire-Done l listening n h = tt
  acquire-Done l acquired n h = tt
  acquire-Done l counted n h = tt

  count_total-Done :
      (l : Listener) (loop : Loop) → loop_of l r ≡ loop → Done r (count_total l loop r)
  unfolding count_total
  count_total-Done socks5_listener acquired h = omega (arith, ap ahead h)
  count_total-Done http_listener acquired h = omega (arith, ap ahead h)
  count_total-Done l listening h = tt
  count_total-Done l acquiring h = tt
  count_total-Done l counted h = tt

  count_active-Done :
      (l : Listener) (loop : Loop) → loop_of l r ≡ loop → Done r (count_active l loop r)
  unfolding count_active
  count_active-Done socks5_listener counted h = omega (arith, ap ahead h)
  count_active-Done http_listener counted h = omega (arith, ap ahead h)
  count_active-Done l listening h = tt
  count_active-Done l acquiring h = tt
  count_active-Done l acquired h = tt

  finish-Done : (serving : ℕ) → r.serving ≡ serving → Done r (finish serving r)
  unfolding finish
  finish-Done zero h = tt
  finish-Done (suc n) h = omega (arith, h)

  release-Done : (ending : ℕ) → r.ending ≡ ending → Done r (release ending r)
  unfolding release
  release-Done zero h = tt
  release-Done (suc n) h = omega (arith, h)

  -- An event that gets on takes one from the work that is left.
  step-Done : (e : Event) → IsProgress e → Done r (step e r)
  unfolding step
  step-Done (acquires l) p = acquire-Done l (loop_of l r) r.server.permits refl
  step-Done (counts_total l) p = count_total-Done l (loop_of l r) refl
  step-Done (counts_active l) p = count_active-Done l (loop_of l r) refl
  step-Done finishes p = finish-Done r.serving refl
  step-Done releases p = release-Done r.ending refl
  step-Done (accepts l ip now) p = elim p [ ]
  step-Done (accept_fails l) p = elim p [ ]
  step-Done (works tx rx failures) p = elim p [ ]
  step-Done (reloads state) p = elim p [ ]

abbrev pub IsSome {ℓ} : {A : Type ℓ} → Option A → Type 0
IsSome none = ⊥
IsSome (some a) = Unit {0}

-- An event that gets on, and is possible.
abbrev pub Next : Running → Type 0
Next r = (e : Event) × IsProgress e × IsSome (step e r)

module _ (r : Running) where
  acquire-Next :
      (l : Listener) (n : ℕ) → loop_of l r ≡ acquiring → r.server.permits ≡ suc n → Next r
  unfolding step acquire
  acquire-Next l n h p = (acquires l, tt, rw (h, p, acquire) tt)

  total-Next : (l : Listener) → loop_of l r ≡ acquired → Next r
  unfolding step count_total
  total-Next l h = (counts_total l, tt, rw (h, count_total) tt)

  active-Next : (l : Listener) → loop_of l r ≡ counted → Next r
  unfolding step count_active
  active-Next l h = (counts_active l, tt, rw (h, count_active) tt)

  finish-Next : (n : ℕ) → r.serving ≡ suc n → Next r
  unfolding step finish
  finish-Next n h = (finishes, tt, rw (h, finish) tt)

  release-Next : (n : ℕ) → r.ending ≡ suc n → Next r
  unfolding step release
  release-Next n h = (releases, tt, rw (h, release) tt)

  loops-Next :
      (a b : Loop) (permits serving ending : ℕ)
      → r.socks5_loop ≡ a
      → r.http_loop ≡ b
      → r.server.permits ≡ permits
      → r.serving ≡ serving
      → r.ending ≡ ending
      → 0 < permits + held a + held b + serving + ending
      → IsQuiet r ⊎ Next r
  loops-Next a b p (suc n) e ha hb hp hs he some_permit = inr (finish-Next n hs)
  loops-Next a b p zero (suc n) ha hb hp hs he some_permit = inr (release-Next n he)
  loops-Next counted b p zero zero ha hb hp hs he some_permit = inr (active-Next socks5_listener ha)
  loops-Next acquired b p zero zero ha hb hp hs he some_permit = inr (total-Next socks5_listener ha)
  loops-Next acquiring counted p zero zero ha hb hp hs he some_permit =
      inr (active-Next http_listener hb)
  loops-Next listening counted p zero zero ha hb hp hs he some_permit =
      inr (active-Next http_listener hb)
  loops-Next acquiring acquired p zero zero ha hb hp hs he some_permit =
      inr (total-Next http_listener hb)
  loops-Next listening acquired p zero zero ha hb hp hs he some_permit =
      inr (total-Next http_listener hb)
  loops-Next acquiring acquiring (suc n) zero zero ha hb hp hs he some_permit =
      inr (acquire-Next socks5_listener n ha hp)
  loops-Next acquiring listening (suc n) zero zero ha hb hp hs he some_permit =
      inr (acquire-Next socks5_listener n ha hp)
  loops-Next listening acquiring (suc n) zero zero ha hb hp hs he some_permit =
      inr (acquire-Next http_listener n hb hp)
  loops-Next acquiring acquiring zero zero zero ha hb hp hs he some_permit = absurd (omega arith)
  loops-Next acquiring listening zero zero zero ha hb hp hs he some_permit = absurd (omega arith)
  loops-Next listening acquiring zero zero zero ha hb hp hs he some_permit = absurd (omega arith)
  loops-Next listening listening p zero zero ha hb hp hs he some_permit = inl (ha, hb, hs, he)

  -- Unless all is quiet some event gets on.
  some_progress : (max : ℕ) → 0 < max → Bounded max r → IsQuiet r ⊎ Next r
  some_progress max positive bounded =
      loops-Next r.socks5_loop r.http_loop r.server.permits r.serving r.ending refl refl refl refl
        refl (omega (arith, bounded.permits, positive))

-- The state behind a list of events, if each is possible.
unfoldable pub run : List Event → Running → Option Running
run [] r = some r
run (e ∷ es) r = elim (step e r) [ none ↦ none | some r' ↦ run es r' ]

abbrev pub AllProgress : List Event → Type 0
AllProgress [] = Unit {0}
AllProgress (e ∷ es) = IsProgress e × AllProgress es

run_shortens :
    (max : ℕ) (es : List Event) (r r' : Running)
    → max < u64_mod
    → Bounded max r
    → AllProgress es
    → run es r ≡ some r'
    → (length es + work_left r' ≡ work_left r) × Bounded max r'
unfolding run
run_shortens max [] r r' small bounded p h =
    subst (λ o. After (λ r'. (0 + work_left r' ≡ work_left r) × Bounded max r') o) h
      (omega arith, bounded)
run_shortens max (e ∷ es) r r' small bounded (p, ps) h = elim (Option-cases (step e r)) [
  | inl stuck ↦ cc (rw (stuck, run) at h)
  | inr (next, same) ↦
      let done = subst (λ o. Done r o) same (step-Done r e p) in
      let bounded' = subst (λ o. After (Bounded max) o) same (step-Bounded max small r bounded e) in
      let (count, last) = run_shortens max es next r' small bounded' ps (rw (same, run) at h) in
      (omega (arith, count, done), last)
]

-- Without new clients the server comes to rest: from every state that it can reach, and for every
-- order in which the loops and the connections get on, there are at most as many such events as
-- `work_left` says, and whenever no further one is possible both loops are listening, every permit
-- is free and no connection is counted as active. A loop with an admitted client is never stuck.
pub server_drains :
    ⦃u : Unicode⦄ (b : Backends) (config : Config) (path : Bytes) (disk : Disk) (s : ProxyServer)
    (r r' : Running) (es : List Event)
    → 0 < config.server.max_connections
    → config.server.max_connections < u64_mod
    → Server.create b config path disk ≡ ok s
    → Reachable s r
    → AllProgress es
    → run es r ≡ some r'
    → (length es ≤ work_left r)
      × (Next r'
          ⊎ (IsQuiet r'
              × (r'.server.permits ≡ config.server.max_connections)
              × (r'.server.metrics.active_connections ≡ 0)))
server_drains b config path disk s r r' es positive small made reached progress h =
    let bounded = created-Bounded b config path disk s r small made reached in
    let (count, last) =
      run_shortens config.server.max_connections es r r' small bounded progress h in
    (
      omega (arith, count),
      elim (some_progress r' config.server.max_connections positive last) [
        | inr next ↦ inl next
        | inl (a, c, serving, ending) ↦ inr (
          (a, c, serving, ending),
          omega (arith, last.permits, ap held a, ap held c, serving, ending),
          last.active ∙ serving,
        )
      ],
    )
