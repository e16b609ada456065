-- ===== src/Upstream/Cidr/Tests.antt =====
-- `match_cidr` at concrete networks, after the tests of src/upstream.rs.
use rust_socksd.Prelude.{
  true, false, ◌≡◌, ◌↔◌, refl, [], ◌∷◌, ◌++◌, some, Bytes, lit, eq_bytes, all,
}
use rust_socksd.Text.{split_first, parse_uint, contains_byte}
use rust_socksd.Net.{v4, v6, parse_ip, Octets, are_bytes}
use rust_socksd.Upstream.Cidr.{match_cidr}
use rust_socksd.Upstream.Cidr.Prefix.{
  SamePrefix, match_cidr_v4, match_cidr_v6, match_cidr_other_family,
}

abbrev lan : Bytes
lan = 192 ∷ 168 ∷ 1 ∷ 0 ∷ []

abbrev host : Bytes
host = 192 ∷ 168 ∷ 1 ∷ 5 ∷ []

abbrev documentation : Bytes
documentation = 0x20 ∷ 0x01 ∷ 0x0d ∷ 0xb8 ∷ 0 ∷ 0 ∷ 0 ∷ 0 ∷ 0 ∷ 0 ∷ 0 ∷ 0 ∷ 0 ∷ 0 ∷ 0 ∷ 0 ∷ []

abbrev mapped : Bytes
mapped = 0 ∷ 0 ∷ 0 ∷ 0 ∷ 0 ∷ 0 ∷ 0 ∷ 0 ∷ 0 ∷ 0 ∷ 0xff ∷ 0xff ∷ 127 ∷ 0 ∷ 0 ∷ 1 ∷ []

matches :
    (match_cidr (v4 host) (lit "192.168.1.0/24") ≡ true)
    × (match_cidr (v4 (192 ∷ 168 ∷ 2 ∷ 1 ∷ [])) (lit "192.168.1.0/24") ≡ false)
    × (match_cidr (v4 host) (lit "192.168.1.5") ≡ true)
    × (match_cidr (v4 host) (lit "0.0.0.0/0") ≡ true)
    × (match_cidr (v4 host) (lit "192.168.1.0/33") ≡ false)
    × (match_cidr (v6 documentation) (lit "2001:db8::/32") ≡ true)
    × (match_cidr (v4 host) (lit "::/0") ≡ false)
    × (match_cidr (v4 host) (lit "*") ≡ false)
unfolding match_cidr eq_bytes
matches = (refl, refl, refl, refl, refl, refl, refl, refl)

reads_length : parse_uint 255 (lit "24") ≡ some 24
unfolding parse_uint
reads_length = refl

reads_length_v6 : parse_uint 255 (lit "32") ≡ some 32
unfolding parse_uint
reads_length_v6 = refl

reads_lan : parse_ip (lit "192.168.1.0") ≡ some (v4 lan)
unfolding parse_ip
reads_lan = refl

reads_v6 : parse_ip (lit "2001:db8::") ≡ some (v6 documentation)
unfolding parse_ip
reads_v6 = refl

reads_loopback : parse_ip (split_first b'/' (lit "127.0.0.0/8")) ≡ some (v4 (127 ∷ 0 ∷ 0 ∷ 0 ∷ []))
unfolding parse_ip split_first
reads_loopback = refl

no_slash :
    (contains_byte b'/' (lit "192.168.1.0") ≡ false)
    × (contains_byte b'/' (lit "24") ≡ false)
    × (contains_byte b'/' (lit "2001:db8::") ≡ false)
    × (contains_byte b'/' (lit "32") ≡ false)
unfolding contains_byte
no_slash = (refl, refl, refl, refl)

lan-Octets : Octets 4 lan
unfolding all
lan-Octets = record { count = refl; below = are_bytes lan refl }

host-Octets : Octets 4 host
unfolding all
host-Octets = record { count = refl; below = are_bytes host refl }

documentation-Octets : Octets 16 documentation
unfolding all
documentation-Octets = record { count = refl; below = are_bytes documentation refl }

match_cidr_v4_example :
    (match_cidr (v4 host) (lit "192.168.1.0" ++ b'/' ∷ lit "24") ≡ true) ↔ SamePrefix 32 24 host lan
match_cidr_v4_example =
    match_cidr_v4 (lit "192.168.1.0") (lit "24") 24 no_slash.0 no_slash.1 reads_length host lan
      reads_lan host-Octets lan-Octets

match_cidr_v6_example :
    (match_cidr (v6 documentation) (lit "2001:db8::" ++ b'/' ∷ lit "32") ≡ true)
    ↔ SamePrefix 128 32 documentation documentation
match_cidr_v6_example =
    match_cidr_v6 (lit "2001:db8::") (lit "32") 32 no_slash.2 no_slash.3 reads_length_v6
      documentation documentation reads_v6 documentation-Octets documentation-Octets

match_cidr_other_family_example : match_cidr (v6 mapped) (lit "127.0.0.0/8") ≡ false
match_cidr_other_family_example =
    match_cidr_other_family mapped (127 ∷ 0 ∷ 0 ∷ 0 ∷ []) (lit "127.0.0.0/8") reads_loopback
