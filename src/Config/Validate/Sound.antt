-- ===== src/Config/Validate/Sound.antt =====
-- What a configuration that `validate` accepts is like.
use rust_socksd.Prelude.{
  ◌≡◌, ◌≢◌, ◌≤◌, ◌↔◌, Bool, true, false, not, ◌||◌, if◌then◌else◌, refl, List, [], ◌∷◌, Bytes,
  Result, ok, err, ◌>>◌, refuse_if, ◌==◌, ltb, In, inl, inr, arith,
}
use rust_socksd.Text.{contains_byte, split}
use rust_socksd.Net.{parse_ip}
use rust_socksd.Config.{ServerConfig, AdminConfig}
use rust_socksd.Config.Validate.{
  is_some, bad_parts, validate_server, check_each, check_egress_network, validate_admin,
  validate_enabled_admin,
}

pub seq_iff : (m n : Result (Unit {0})) → ((m >> n) ≡ ok tt) ↔ ((m ≡ ok tt) × (n ≡ ok tt))
seq_iff (ok tt) n = (λ h. (refl, h), λ p. p.1)
seq_iff (err e) n = (λ h. cc, λ p. cc p.0)

pub refuse_if_iff : (b : Bool) (e : Bytes) → (refuse_if b e ≡ ok tt) ↔ (b ≡ false)
refuse_if_iff true e = (λ h. cc, λ h. cc)
refuse_if_iff false e = (λ h. refl, λ h. refl)

pub refused :
    (b : Bool) (e : Bytes) (k : Result (Unit {0}))
    → (refuse_if b e >> k) ≡ ok tt
    → (b ≡ false) × (k ≡ ok tt)
refused true e k h = cc
refused false e k h = (refl, h)

not-false : (b : Bool) → not b ≡ false → b ≡ true
not-false true h = refl
not-false false h = cc

pub check_each_iff :
    (check : Bytes → Result (Unit {0})) (xs : List Bytes)
    → (check_each check xs ≡ ok tt) ↔ ((x : Bytes) → In x xs → check x ≡ ok tt)
unfolding check_each
check_each_iff check [] = (λ h x m. absurd m, λ h. refl)
check_each_iff check (y ∷ ys) = (
  λ h x.
      let (now, later) = (seq_iff (check y) (check_each check ys)).0 h in
      elim [ inl same ↦ rw same now | inr m ↦ (check_each_iff check ys).0 later x m ],
  λ h.
      (seq_iff (check y) (check_each check ys)).1
        (h y (inl refl), (check_each_iff check ys).1 (λ x m. h x (inr m))),
)

-- The ports are set and differ, the address can be read, and the limits are not too small.
pub record IsServer (s : ServerConfig) : Type 0 where
  pub socks5 : s.socks5_port ≢ 0
  pub http : s.http_port ≢ 0
  pub apart : s.socks5_port ≢ s.http_port
  pub address : is_some (parse_ip s.bind_address) ≡ true
  pub connections : 1 ≤ s.max_connections
  pub buffer : 1024 ≤ s.buffer_size

pub validate_server-IsServer : (s : ServerConfig) → validate_server s ≡ ok tt → IsServer s
unfolding validate_server
validate_server-IsServer s h =
    let (socks5, h₁) = refused (s.socks5_port == 0) _ _ h in
    let (http, h₂) = refused (s.http_port == 0) _ _ h₁ in
    let (apart, h₃) = refused (s.socks5_port == s.http_port) _ _ h₂ in
    let (address, h₄) = refused (not (is_some (parse_ip s.bind_address))) _ _ h₃ in
    let (connections, h₅) = refused (s.max_connections == 0) _ _ h₄ in
    let buffer = (refuse_if_iff (ltb s.buffer_size 1024) _).0 h₅ in
    record {
      socks5 = ground (arith, socks5);
      http = ground (arith, http);
      apart = ground (arith, apart);
      address = not-false _ address;
      connections = ground (arith, connections);
      buffer = ground (arith, buffer);
    }

pub IsServer-validate_server : (s : ServerConfig) → IsServer s → validate_server s ≡ ok tt
unfolding validate_server
IsServer-validate_server s i =
    let socks5 : (s.socks5_port == 0) ≡ false = ground (arith, i.socks5) in
    let http : (s.http_port == 0) ≡ false = ground (arith, i.http) in
    let apart : (s.socks5_port == s.http_port) ≡ false = ground (arith, i.apart) in
    let connections : (s.max_connections == 0) ≡ false = ground (arith, i.connections) in
    let buffer : ltb s.buffer_size 1024 ≡ false = ground (arith, i.buffer) in
    rw (socks5, http, apart, i.address, connections, buffer) refl

-- An entry that `match_cidr` can read: an address, or an address and a number below 256.
abbrev pub Readable : Bytes → Type 0
Readable network =
    if contains_byte b'/' network
    then bad_parts (split b'/' network) ≡ false
    else is_some (parse_ip network) ≡ true

pub egress_sound :
    (field network : Bytes) → check_egress_network field network ≡ ok tt → Readable network
unfolding check_egress_network
egress_sound field network h = readable _ _ (contains_byte b'/' network) h
  where
    readable :
        (e e' : Bytes) (slash : Bool)
        → elim slash [
          | false ↦ refuse_if (not (is_some (parse_ip network))) e
          | true ↦ refuse_if (bad_parts (split b'/' network)) e'
        ]
          ≡ ok tt
        → if slash
          then bad_parts (split b'/' network) ≡ false
          else is_some (parse_ip network) ≡ true
    readable e e' false h = not-false _ ((refuse_if_iff (not (is_some (parse_ip network))) e).0 h)
    readable e e' true h = (refuse_if_iff (bad_parts (split b'/' network)) e').0 h

-- An enabled admin interface has a port of its own and an address that can be read.
pub record IsAdmin (s : ServerConfig) (a : AdminConfig) : Type 0 where
  pub port : a.port ≢ 0
  pub not_socks5 : a.port ≢ s.socks5_port
  pub not_http : a.port ≢ s.http_port
  pub address : is_some (parse_ip a.bind_address) ≡ true

pub validate_admin-IsAdmin :
    (s : ServerConfig) (a : AdminConfig)
    → a.enabled ≡ true
    → validate_admin s a ≡ ok tt
    → IsAdmin s a
unfolding validate_admin validate_enabled_admin
validate_admin-IsAdmin s a on h =
    let (port, h₁) = refused (a.port == 0) _ _ (rw (on, validate_admin) at h) in
    let (apart, h₂) = refused (a.port == s.socks5_port || a.port == s.http_port) _ _ h₁ in
    let address = (refuse_if_iff (not (is_some (parse_ip a.bind_address))) _).0 h₂ in
    record {
      port = ground (arith, port);
      not_socks5 = ground (arith, apart);
      not_http = ground (arith, apart);
      address = not-false _ address;
    }
