-- ===== src/Upstream/Cidr.antt =====
-- `match_cidr`: an address against `address` or `address/prefix_len`.
mod Mask
pub mod Prefix
mod Tests
use Prim.Native.Nat.{bit_and}
use rust_socksd.Prelude.{
  ℕ, ◌-◌, ◌*◌, ◌%◌, ◌^◌, Bool, false, List, [], ◌∷◌, Option, none, some, ltb, ◌==◌, if◌then◌else◌,
  Bytes,
}
use rust_socksd.Text.{split, parse_uint}
use rust_socksd.Net.{IpAddr, v4, v6, eq_ip, from_be_bytes, parse_ip}

-- `MAX << (width - prefix_len)`, or 0 for an empty prefix
unfoldable pub mask : ℕ → ℕ → ℕ
mask width prefix_len =
    if prefix_len == 0 then 0 else ((2 ^ width - 1) * 2 ^ (width - prefix_len)) % 2 ^ width

masked_eq : ℕ → ℕ → Bytes → Bytes → Bool
unfolding mask
masked_eq width prefix_len ip base =
    bit_and (from_be_bytes ip) (mask width prefix_len)
    == bit_and (from_be_bytes base) (mask width prefix_len)

unfoldable pub in_network : ℕ → IpAddr → IpAddr → Bool
unfolding masked_eq from_be_bytes
in_network prefix_len (v4 ip) (v4 base) =
    if ltb 32 prefix_len then false else masked_eq 32 prefix_len ip base
in_network prefix_len (v6 ip) (v6 base) =
    if ltb 128 prefix_len then false else masked_eq 128 prefix_len ip base
in_network prefix_len (v4 ip) (v6 base) = false
in_network prefix_len (v6 ip) (v4 base) = false

match_prefix : IpAddr → Option IpAddr → Option ℕ → Bool
unfolding in_network
match_prefix ip none prefix_len = false
match_prefix ip (some base) none = false
match_prefix ip (some base) (some prefix_len) = in_network prefix_len ip base

match_exact : IpAddr → Option IpAddr → Bool
unfolding eq_ip
match_exact ip none = false
match_exact ip (some base) = eq_ip ip base

-- Parts behind the second are not looked at.
match_parts : IpAddr → List Bytes → Bool
unfolding match_prefix match_exact parse_ip parse_uint
match_parts ip [] = false
match_parts ip (address ∷ []) = match_exact ip (parse_ip address)
match_parts ip (address ∷ prefix ∷ rest) =
    match_prefix ip (parse_ip address) (parse_uint 255 prefix)

unfoldable pub match_cidr : IpAddr → Bytes → Bool
unfolding match_parts split
match_cidr ip cidr = match_parts ip (split b'/' cidr)
