-- ===== src/Upstream/Connect/Checked.antt =====
-- What a connection to a target has passed.
use rust_socksd.Prelude.{
  ℕ, Bool, true, false, ◌&&◌, ◌≡◌, ◌≢◌, ◌⊎◌, inl, inr, refl, sym, List, [], ◌∷◌, Option, none, some,
  Bytes, Result, ok, err, is_empty, In, Bool-cases, Option-cases, if◌then◌else◌,
}
use rust_socksd.Text.{Unicode}
use rust_socksd.Net.{IpAddr}
use rust_socksd.Config.{Config}
use rust_socksd.Stream.{Conn}
use rust_socksd.Upstream.Policy.{is_domain_blocked, check_egress_rules}
use rust_socksd.Upstream.Route.{UpstreamProxy, resolve_upstream}
use rust_socksd.Upstream.Connect.{
  Trace, Resolver, Network, first, has_egress_rules, first_refused, connect_stream_ip,
  connect_stream, resolve_target, connect_via, connect_direct, route, checked_route,
  connect_to_target,
}

-- Every address passes the rules.
abbrev pub Pass : Config → List IpAddr → Type 0
Pass config ips = (ip : IpAddr) → In ip ips → check_egress_rules config ip ≡ true

first_refused-Pass :
    (config : Config) (ips : List IpAddr) → first_refused config ips ≡ none → Pass config ips
unfolding first_refused
first_refused-Pass config [] h ip m = absurd m
first_refused-Pass config (x ∷ ips) h ip m = elim (Bool-cases (check_egress_rules config x)) [
  | inr bad ↦ cc (rw (bad, first_refused) at h)
  | inl good ↦ elim m [
    | inl same ↦ rw same good
    | inr later ↦ first_refused-Pass config ips (rw (good, first_refused) at h) ip later
  ]
]

non_empty {ℓ} : {A : Type ℓ} (xs : List A) → is_empty xs ≡ false → xs ≢ []
unfolding is_empty
non_empty [] h = λ e. cc
non_empty (x ∷ xs) h = λ e. cc

-- Under egress rules: the addresses are known and every one passes.
abbrev pub Checked : Config → List IpAddr → Type 0
Checked config ips = (ips ≢ []) × Pass config ips

-- What has happened when a route behind the two checks succeeds.
guards :
    {c : Conn} {t' : Trace} (t : Trace) (e : Bytes) (e' : IpAddr → Bytes) {k : Result Conn × Trace}
    (rules empty : Bool) (refused : Option IpAddr)
    → (if rules && empty
        then (err e, t)
        else elim (if rules then refused else none) [ some ip ↦ (err (e' ip), t) | none ↦ k ])
      ≡ (ok c, t')
    → (rules ≡ true → (empty ≡ false) × (refused ≡ none)) × (k ≡ (ok c, t'))
guards t e e' false empty refused h = (λ r. cc, h)
guards t e e' true true refused h = cc
guards t e e' true false none h = (λ r. (refl, refl), h)
guards t e e' true false (some ip) h = cc

direct_guards :
    {c : Conn} {t' : Trace} (t : Trace) (e : Bytes) (dial : IpAddr → Result Conn × Trace)
    (other : Result Conn × Trace) (rules : Bool) (target : Option IpAddr)
    → (if rules then elim target [ some ip ↦ dial ip | none ↦ (err e, t) ] else other) ≡ (ok c, t')
    → if rules
      then ((ip : IpAddr) × (target ≡ some ip) × ((ok c, t') ≡ dial ip))
      else ((ok c, t') ≡ other)
direct_guards t e dial other true none h = cc
direct_guards t e dial other true (some ip) h = (ip, refl, sym h)
direct_guards t e dial other false target h = sym h

module _ ⦃u : Unicode⦄ (net : Network) (config : Config) (resolver : Option Resolver) (host : Bytes)
    (port : ℕ) (socks : Bool) where
  -- A direct connection: under egress rules to the first of the addresses, and to nothing else.
  abbrev pub Direct : List IpAddr → Trace → Result Conn × Trace → Type 0
  Direct ips trace result =
      (resolve_upstream net.env config host port (first ips) socks ≡ none)
      × (if has_egress_rules config
          then ((ip : IpAddr) × (first ips ≡ some ip)
              × (result ≡ connect_stream_ip net ip port trace))
          else result ≡ connect_stream net resolver host port trace)

  abbrev pub Proxied : List IpAddr → Trace → Result Conn × Trace → Type 0
  Proxied ips trace result =
      (proxy : UpstreamProxy) × (resolve_upstream net.env config host port (first ips) socks
        ≡ some proxy)
      × (result ≡ connect_via net resolver proxy host port trace)

  checked_route_sound :
      (ips : List IpAddr) (trace : Trace) {c : Conn} {trace' : Trace}
      → checked_route net config resolver host port socks (ips, trace) ≡ (ok c, trace')
      → (has_egress_rules config ≡ true → Checked config ips)
        × (route net config resolver host port socks ips trace ≡ (ok c, trace'))
  unfolding checked_route
  checked_route_sound ips trace h =
      let (facts, k) =
        guards trace _ _ (has_egress_rules config) (is_empty ips) (first_refused config ips) h in
      (
        λ rules.
            let (some_ip, fine) = facts rules in
            (non_empty ips some_ip, first_refused-Pass config ips fine),
        k,
      )

  direct_sound :
      (ips : List IpAddr) (trace : Trace) {c : Conn} {trace' : Trace}
      → connect_direct net config resolver host port (first ips) trace ≡ (ok c, trace')
      → if has_egress_rules config
        then ((ip : IpAddr) × (first ips ≡ some ip)
            × ((ok c, trace') ≡ connect_stream_ip net ip port trace))
        else (ok c, trace') ≡ connect_stream net resolver host port trace
  unfolding connect_direct
  direct_sound ips trace h =
      direct_guards trace _ (λ ip. connect_stream_ip net ip port trace) _ (has_egress_rules config)
        (first ips) h

  route_sound :
      (ips : List IpAddr) (trace : Trace) {c : Conn} {trace' : Trace}
      → route net config resolver host port socks ips trace ≡ (ok c, trace')
      → Direct ips trace (ok c, trace') ⊎ Proxied ips trace (ok c, trace')
  unfolding route connect_direct
  route_sound ips trace h =
      elim (Option-cases (resolve_upstream net.env config host port (first ips) socks)) [
        | inr (proxy, via) ↦ inr (proxy, via, sym (rw (via, route) at h))
        | inl none_for ↦ inl (none_for, direct_sound ips trace (rw (none_for, route) at h))
      ]

  -- A connection that is made is to a name that is not blocked. Under egress rules the addresses of
  -- the target are known and all pass, and a direct connection is dialed to the first of those same
  -- addresses: nothing is asked again in between.
  pub connect_to_target_sound :
      (trace : Trace) {c : Conn} {trace' : Trace}
      → connect_to_target net config resolver host port socks trace ≡ (ok c, trace')
      → let (ips, asked_trace) = resolve_target net config resolver host port trace in
        (is_domain_blocked config host ≡ false)
        × (has_egress_rules config ≡ true → Checked config ips)
        × (Direct ips asked_trace (ok c, trace') ⊎ Proxied ips asked_trace (ok c, trace'))
  unfolding connect_to_target
  connect_to_target_sound trace h = elim (Bool-cases (is_domain_blocked config host)) [
    | inl blocked ↦ cc (rw (blocked, connect_to_target) at h)
    | inr clear ↦
        let (ips, asked_trace) = resolve_target net config resolver host port trace in
        let (checked, k) =
          checked_route_sound ips asked_trace (rw (clear, connect_to_target) at h) in
        (clear, checked, route_sound ips asked_trace k)
  ]
