-- ===== src/Upstream/Route.antt =====
-- Which upstream proxy a target goes through: `parse_proxy_url`, `get_no_proxy_list`,
-- `lookup_env_proxy` and `resolve_upstream` of src/upstream.rs. The environment is a function from
-- the names of variables.
pub mod Environment
pub mod Choice
mod Tests
use rust_socksd.Prelude.{
  ℕ, Bool, true, false, not, ◌&&◌, ◌||◌, List, [], ◌∷◌, Option, none, some, Bytes, lit, is_empty,
  if◌then◌else◌, ◌==◌,
}
use rust_socksd.Text.{
  Unicode, split_once, rsplit_once, split_on, split_first, strip_prefix, starts_with, parse_uint,
  trim,
}
use rust_socksd.Net.{IpAddr}
use rust_socksd.Config.{Config, UpstreamConfig, UpstreamProtocol, socks5, http}
use rust_socksd.Upstream.Policy.{is_excluded}

-- `UpstreamProxy`; also the tuple that `parse_proxy_url` returns, whose fields it takes over.
pub record UpstreamProxy : Type 0 where
  pub protocol : UpstreamProtocol
  pub address : Bytes
  pub port : ℕ
  pub username : Option Bytes
  pub password : Option Bytes

-- `&rest[rest.find("://").unwrap() + 3..]`
unfoldable pub after_scheme : Bytes → Bytes
after_scheme [] = []
after_scheme (x ∷ s) =
    let later = after_scheme s in
    elim (strip_prefix (lit "://") (x ∷ s)) [ some rest ↦ rest | none ↦ later ]

abbrev scheme : Bytes → UpstreamProtocol × Bytes
scheme url =
    if starts_with (lit "socks5://") url || starts_with (lit "socks5h://") url
    then (socks5, after_scheme url)
    else if starts_with (lit "http://") url || starts_with (lit "https://") url
    then (http, after_scheme url)
    else (http, url)

-- `username, password, host_port`
abbrev split_credentials : Bytes → Option Bytes × Option Bytes × Bytes
split_credentials rest = elim (split_once b'@' rest) [
  | none ↦ (none, none, rest)
  | some (creds, host_port) ↦ elim (split_once b':' creds) [
    | some (username, password) ↦ (some username, some password, host_port)
    | none ↦ (some creds, none, host_port)
  ]
]

abbrev port_behind : Bytes → Bytes
port_behind [] = []
port_behind (x ∷ s) = if x == b':' then s else []

abbrev split_bare : Bytes → Bytes × Bytes
split_bare host_port = elim (rsplit_once b':' host_port) [
  | some parts ↦ parts
  | none ↦ (host_port, [])
]

-- `host, port_str`; nothing when a bracket is not closed
abbrev split_host_port : Bytes → Option (Bytes × Bytes)
split_host_port [] = some ([], [])
split_host_port (x ∷ s) =
    if x == b'['
    then elim (split_once b']' s) [
      | none ↦ none
      | some (host, rest_port) ↦ some (host, port_behind rest_port)
    ]
    else some (split_bare (x ∷ s))

abbrev pub default_port : UpstreamProtocol → ℕ
default_port socks5 = 1080
default_port http = 8080

abbrev proxy_port : UpstreamProtocol → Bytes → Option ℕ
proxy_port protocol port_str =
    if is_empty port_str then some (default_port protocol) else parse_uint 65535 port_str

abbrev with_port :
    UpstreamProtocol → Option Bytes → Option Bytes → Bytes → Option ℕ → Option UpstreamProxy
with_port protocol username password host none = none
with_port protocol username password host (some port) = some (record {
  protocol = protocol;
  address = host;
  port = port;
  username = username;
  password = password;
})

abbrev with_host :
    UpstreamProtocol → Option Bytes → Option Bytes → Option (Bytes × Bytes) → Option UpstreamProxy
with_host protocol username password none = none
with_host protocol username password (some (host, port_str)) =
    with_port protocol username password (split_first b'/' host)
      (proxy_port protocol (split_first b'/' port_str))

unfoldable pub parse_proxy_url : Bytes → Option UpstreamProxy
unfolding after_scheme
parse_proxy_url url =
    let (protocol, rest) = scheme url in
    let (username, password, host_port) = split_credentials rest in
    with_host protocol username password (split_host_port host_port)

-- The entries without the space around them, those left empty dropped.
clean_entries : List Bytes → List Bytes
clean_entries [] = []
clean_entries (e ∷ es) =
    let rest = clean_entries es in if is_empty (trim e) then rest else trim e ∷ rest

entries : Option Bytes → List Bytes
unfolding clean_entries
entries none = []
entries (some no_proxy) = clean_entries (split_on (λ c. c == b',' || c == b' ') no_proxy)

abbrev or_else : Option Bytes → Option Bytes → Option Bytes
or_else none other = other
or_else (some v) other = some v

-- `env_var_keys`
unfoldable pub env_var_keys : ℕ → Bool → List Bytes
env_var_keys target_port is_socks5_request =
    if is_socks5_request
    then lit "ALL_PROXY"
      ∷ lit "all_proxy"
      ∷ lit "HTTPS_PROXY"
      ∷ lit "https_proxy"
      ∷ lit "HTTP_PROXY"
      ∷ lit "http_proxy"
      ∷ []
    else if target_port == 443
    then lit "HTTPS_PROXY"
      ∷ lit "https_proxy"
      ∷ lit "ALL_PROXY"
      ∷ lit "all_proxy"
      ∷ lit "HTTP_PROXY"
      ∷ lit "http_proxy"
      ∷ []
    else lit "HTTP_PROXY" ∷ lit "http_proxy" ∷ lit "ALL_PROXY" ∷ lit "all_proxy" ∷ []

-- What a variable gives: a proxy, if it is set, not blank and can be parsed.
unfoldable pub proxy_of_var : Option Bytes → Option UpstreamProxy
unfolding parse_proxy_url
proxy_of_var none = none
proxy_of_var (some val) = if is_empty (trim val) then none else parse_proxy_url (trim val)

abbrev pub with_parts :
    UpstreamConfig → Option UpstreamProtocol → Option Bytes → Option ℕ → Option UpstreamProxy
with_parts upstream (some protocol) (some address) (some port) = some (record {
  protocol = protocol;
  address = address;
  port = port;
  username = upstream.username;
  password = upstream.password;
})
with_parts upstream protocol address port = none

-- The proxy of the configuration, if it is enabled and complete.
unfoldable pub configured_proxy : UpstreamConfig → Option UpstreamProxy
configured_proxy upstream =
    if upstream.enabled
    then with_parts upstream upstream.protocol upstream.address upstream.port
    else none

abbrev pub or_proxy : Option UpstreamProxy → Option UpstreamProxy → Option UpstreamProxy
or_proxy none other = other
or_proxy (some proxy) other = some proxy

module _ (env : Bytes → Option Bytes) where
  unfoldable pub get_no_proxy_list : List Bytes
  unfolding entries
  get_no_proxy_list = entries (or_else (env (lit "NO_PROXY")) (env (lit "no_proxy")))

  -- The loop over the keys.
  unfoldable pub first_proxy : List Bytes → Option UpstreamProxy
  unfolding proxy_of_var
  first_proxy [] = none
  first_proxy (key ∷ keys) = elim (proxy_of_var (env key)) [
    | some proxy ↦ some proxy
    | none ↦ first_proxy keys
  ]

  unfoldable pub lookup_env_proxy : ℕ → Bool → Option UpstreamProxy
  unfolding first_proxy env_var_keys
  lookup_env_proxy target_port is_socks5_request =
      first_proxy (env_var_keys target_port is_socks5_request)

  module _ ⦃u : Unicode⦄ where
    unfoldable pub resolve_upstream :
        Config → Bytes → ℕ → Option IpAddr → Bool → Option UpstreamProxy
    unfolding get_no_proxy_list lookup_env_proxy configured_proxy
    resolve_upstream config target_host target_port target_ip is_socks5_request =
        if is_excluded target_host target_ip config.upstream.exclude_networks
          config.upstream.exclude_domains get_no_proxy_list
        then none
        else or_proxy
            (if config.upstream.prefer_env
              then lookup_env_proxy target_port is_socks5_request
              else none)
            (or_proxy (configured_proxy config.upstream) (
              if not config.upstream.prefer_env
              then lookup_env_proxy target_port is_socks5_request
              else none))
