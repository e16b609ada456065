-- ===== src/Config/Validate/Whole.antt =====
-- A configuration that `validate` accepts, as a whole.
use rust_socksd.Prelude.{
  ℕ, ◌≡◌, ◌≢◌, ◌<◌, ◌==◌, ◌∙◌, sym, ap, if◌then◌else◌, Bool, true, false, refl, [], ◌∷◌, Option,
  none, some, Bytes, lit, Result, ok, In, arith, is_empty, Option-cases, inl, inr,
}
use rust_socksd.Config.{Config, UpstreamConfig, UpstreamProtocol}
use rust_socksd.Net.{IpAddr, v4, SocketAddr, parse_ip}
use rust_socksd.Config.Bind.{
  bind_addr, bind_addr-v4, socks5_bind_addr, http_bind_addr, admin_bind_addr,
}
use rust_socksd.Config.Validate.{
  is_some, validate_server, validate_auth, check_each, check_client_network, check_egress_network,
  validate_logging, validate_upstream, check_exclude_network, validate, validate_protocol,
}
use rust_socksd.Config.Validate.Sound.{
  IsServer, IsAdmin, Readable, validate_server-IsServer, validate_admin-IsAdmin, egress_sound,
  check_each_iff, seq_iff, refuse_if_iff,
}
use rust_socksd.Upstream.Route.{UpstreamProxy, with_parts, configured_proxy}

-- An enabled upstream proxy has every part that a connection needs.
abbrev pub Usable : UpstreamConfig → Type 0
Usable u =
    (proxy : UpstreamProxy) × (configured_proxy u ≡ some proxy)
    × (proxy.address ≢ [])
    × (proxy.port ≢ 0)

parts_sound :
    (u : UpstreamConfig) (protocol : Option UpstreamProtocol) (address : Option Bytes)
    (port : Option ℕ)
    → validate_protocol protocol address port ≡ ok tt
    → (proxy : UpstreamProxy) × (with_parts u protocol address port ≡ some proxy)
      × (proxy.address ≢ [])
      × (proxy.port ≢ 0)
unfolding validate_protocol is_empty
parts_sound u none address port h = cc
parts_sound u (some protocol) none port h = cc
parts_sound u (some protocol) (some []) port h = cc
parts_sound u (some protocol) (some (x ∷ address)) none h = cc
parts_sound u (some protocol) (some (x ∷ address)) (some port) h =
    let set = (refuse_if_iff (port == 0) _).0 h in (_, refl, λ e. cc, ground (arith, set))

when_on : (b : Bool) (o : Option UpstreamProxy) → b ≡ true → (if b then o else none) ≡ o
when_on true o h = refl
when_on false o h = cc

upstream_sound : (u : UpstreamConfig) → u.enabled ≡ true → validate_upstream u ≡ ok tt → Usable u
unfolding validate_upstream configured_proxy
upstream_sound u on h =
    let (proxy, e, address, port) =
      parts_sound u u.protocol u.address u.port (rw (on, validate_upstream) at h) in
    (proxy, when_on u.enabled _ on ∙ e, address, port)

-- The text is an IP address, and if it is one of IPv4, what is listened on is that with the port.
abbrev pub Listens : Bytes → ℕ → Result SocketAddr → Type 0
Listens address port listener =
    (ip : IpAddr) × (parse_ip address ≡ some ip)
    × ((octets : Bytes) → ip ≡ v4 octets → listener ≡ ok (record { ip = ip; port = port }))

listens :
    (name address : Bytes) (port : ℕ)
    → is_some (parse_ip address) ≡ true
    → port < 65_536
    → Listens address port (bind_addr name address port)
listens name address port readable fits = elim (Option-cases (parse_ip address)) [
  | inl none_of ↦ cc (rw none_of at readable)
  | inr (ip, read) ↦ (
    ip,
    read,
    λ octets is_v4.
        bind_addr-v4 name address octets port (read ∙ ap some is_v4) fits
        ∙ ap (λ i. ok (record { ip = i; port = port })) (sym is_v4),
  )
]

-- A configuration that is accepted has two ports that are set and differ, an IP address to bind to,
-- at least one connection and a buffer of 1024 bytes, an admin interface, if enabled, with a port of
-- its own and an IP address, egress rules that can all be read, and, if it enables an upstream proxy,
-- one that `resolve_upstream` can return, with an address and a port. The addresses that the server
-- listens on, and the admin interface if enabled, are then the IP address with each port, if ports
-- have 16 bits and the IP address is one of IPv4.
pub validate_sound :
    (c : Config)
    → c.server.socks5_port < 65_536
    → c.server.http_port < 65_536
    → c.admin.port < 65_536
    → validate c ≡ ok tt
    → IsServer c.server
      × (c.admin.enabled ≡ true → IsAdmin c.server c.admin)
      × ((network : Bytes) → In network c.security.allowed_egress_networks → Readable network)
      × ((network : Bytes) → In network c.security.blocked_egress_networks → Readable network)
      × (c.upstream.enabled ≡ true → Usable c.upstream)
      × Listens c.server.bind_address c.server.socks5_port (socks5_bind_addr c)
      × Listens c.server.bind_address c.server.http_port (http_bind_addr c)
      × (c.admin.enabled ≡ true → Listens c.admin.bind_address c.admin.port (admin_bind_addr c))
unfolding validate socks5_bind_addr http_bind_addr admin_bind_addr
validate_sound c socks5_fits http_fits admin_fits h =
    let (server, h₁) = (seq_iff (validate_server c.server) _).0 h in
    let (auth, h₂) = (seq_iff (validate_auth c.auth) _).0 h₁ in
    let (clients, h₃) =
      (seq_iff (check_each check_client_network c.security.allowed_networks) _).0 h₂ in
    let (allowed, h₄) =
      (seq_iff
          (check_each (check_egress_network (lit "allowed_egress_networks"))
            c.security.allowed_egress_networks)
          _).0
        h₃ in
    let (blocked, h₅) =
      (seq_iff
          (check_each (check_egress_network (lit "blocked_egress_networks"))
            c.security.blocked_egress_networks)
          _).0
        h₄ in
    let (logging, h₆) = (seq_iff (validate_logging c.logging) _).0 h₅ in
    let (upstream, h₇) = (seq_iff (validate_upstream c.upstream) _).0 h₆ in
    let (exclude, admin) =
      (seq_iff (check_each check_exclude_network c.upstream.exclude_networks) _).0 h₇ in
    let is_server = validate_server-IsServer c.server server in
    (
      is_server,
      λ on. validate_admin-IsAdmin c.server c.admin on admin,
      λ n m.
          egress_sound (lit "allowed_egress_networks") n
            ((check_each_iff _ c.security.allowed_egress_networks).0 allowed n m),
      λ n m.
          egress_sound (lit "blocked_egress_networks") n
            ((check_each_iff _ c.security.blocked_egress_networks).0 blocked n m),
      λ on. upstream_sound c.upstream on upstream,
      listens (lit "SOCKS5") c.server.bind_address c.server.socks5_port is_server.address
          socks5_fits,
      listens (lit "HTTP") c.server.bind_address c.server.http_port is_server.address http_fits,
      λ on.
          let is_admin = validate_admin-IsAdmin c.server c.admin on admin in
          listens (lit "Admin") c.admin.bind_address c.admin.port is_admin.address admin_fits,
    )
