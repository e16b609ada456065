-- ===== src/Net/Parse/Socket.antt =====
-- `parse::<SocketAddr>()`, after the standard library's parser: an IPv4 address, or an IPv6 address in
-- brackets with an optional scope, then a colon and the port.
use rust_socksd.Prelude.{ℕ, [], ◌∷◌, Bytes, Option, none, some, ◌==◌, if◌then◌else◌}
use rust_socksd.Text.{parse_digits, split_once}
use rust_socksd.Net.Addr.{IpAddr, v4, v6, SocketAddr}
use rust_socksd.Net.Parse.{ipv4, ipv6}

abbrev at_port : IpAddr → Option ℕ → Option SocketAddr
at_port ip none = none
at_port ip (some port) = some (record { ip = ip; port = port })

-- The port is the rest of the text.
unfoldable pub port_behind : IpAddr → Bytes → Option SocketAddr
port_behind ip [] = none
port_behind ip (c ∷ s) = if c == b':' then at_port ip (parse_digits 65_535 s) else none

-- What follows the address within the brackets: nothing, or a scope.
scoped : IpAddr → Bytes → Option SocketAddr
unfolding port_behind
scoped ip [] = none
scoped ip (c ∷ s) =
    if c == b']'
    then port_behind ip s
    else if c == b'%'
    then elim (split_once b']' s) [
      | none ↦ none
      | some (scope, rest) ↦ elim (parse_digits 4_294_967_295 scope) [
        | none ↦ none
        | some id ↦ port_behind ip rest
      ]
    ]
    else none

bracketed : Bytes → Option SocketAddr
unfolding scoped
bracketed [] = none
bracketed (c ∷ s) =
    if c == b'['
    then elim (ipv6 s) [ none ↦ none | some (octets, rest) ↦ scoped (v6 octets) rest ]
    else none

unfoldable pub parse_socket_addr : Bytes → Option SocketAddr
unfolding bracketed port_behind
parse_socket_addr s = elim (ipv4 s) [
  | some (octets, rest) ↦ port_behind (v4 octets) rest
  | none ↦ bracketed s
]
