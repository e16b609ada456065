-- ===== src/Upstream/Cidr/Prefix.antt =====
-- `match_cidr` compares leading bits.
use native.Mathlib.Nat.{mul-div_cancel, one-le-pow}
use rust_socksd.Prelude.{
  ℕ, ◌-◌, ◌*◌, ◌/◌, ◌^◌, ◌≤◌, ◌<◌, Bool, true, false, ◌≡◌, ◌↔◌, refl, sym, ap, ◌∙◌, List, [], ◌∷◌,
  ◌++◌, Option, none, some, Bytes, arith, ltb, ◌==◌, ==_iff, if◌then◌else◌, Bool-cases, inl, inr,
}
use rust_socksd.Text.{split_first, parse_uint, contains_byte}
use rust_socksd.Text.Pieces.{split_whole, split-append, split-split_first}
use rust_socksd.Net.{IpAddr, v4, v6, eq_ip_iff, from_be_bytes, from_be-lt, Octets, parse_ip}
use rust_socksd.Upstream.Cidr.{masked_eq, in_network, match_prefix, match_parts, match_cidr}
use rust_socksd.Upstream.Cidr.Mask.{bit_and-mask}

-- The addresses agree in their first `prefix_len` bits.
abbrev pub SamePrefix : ℕ → ℕ → Bytes → Bytes → Type 0
SamePrefix width prefix_len ip base =
    (prefix_len ≤ width)
    × (from_be_bytes ip / 2 ^ (width - prefix_len) ≡ from_be_bytes base / 2 ^ (width - prefix_len))

cancel : (a b q : ℕ) → 0 < q → ((a * q == b * q) ≡ true) ↔ (a ≡ b)
cancel a b q h = (
  λ e.
      sym (mul-div_cancel a h)
      ∙ ap (λ (t : ℕ). t / q) ((==_iff (a * q) (b * q)).0 e)
      ∙ mul-div_cancel b h,
  λ e. (==_iff (a * q) (b * q)).1 (ap (λ (t : ℕ). t * q) e),
)

masked_eq_iff :
    (width n : ℕ) (ip base : Bytes)
    → n ≤ width
    → from_be_bytes ip < 2 ^ width
    → from_be_bytes base < 2 ^ width
    → (masked_eq width n ip base ≡ true)
      ↔ (from_be_bytes ip / 2 ^ (width - n) ≡ from_be_bytes base / 2 ^ (width - n))
unfolding masked_eq
masked_eq_iff width n ip base h lt lt' =
    rw
      (
        bit_and-mask width n (from_be_bytes ip) h lt,
        bit_and-mask width n (from_be_bytes base) h lt',
      )
      (cancel _ _ (2 ^ (width - n)) (one-le-pow (width - n) 2 (omega arith)))

-- A test on the length of the prefix in front.
guarded :
    {P : Type 0} (n width : ℕ) (b : Bool)
    → (n ≤ width → (b ≡ true) ↔ P)
    → ((if ltb width n then false else b) ≡ true) ↔ ((n ≤ width) × P)
guarded n width b h = elim (Bool-cases (ltb width n)) [
  | inl over ↦ rw over (λ e. cc, λ p. absurd (ground (arith, p.0)))
  | inr fits ↦
      let le : n ≤ width = ground arith in rw fits (λ e. (le, (h le).0 e), λ p. (h le).1 p.1)
]

in_network_v4 :
    (n : ℕ) (ip base : Bytes)
    → Octets 4 ip
    → Octets 4 base
    → (in_network n (v4 ip) (v4 base) ≡ true) ↔ SamePrefix 32 n ip base
unfolding in_network
in_network_v4 n ip base o o' =
    guarded n 32 (masked_eq 32 n ip base)
      (λ le. masked_eq_iff 32 n ip base le (from_be-lt 4 ip o) (from_be-lt 4 base o'))

in_network_v6 :
    (n : ℕ) (ip base : Bytes)
    → Octets 16 ip
    → Octets 16 base
    → (in_network n (v6 ip) (v6 base) ≡ true) ↔ SamePrefix 128 n ip base
unfolding in_network
in_network_v6 n ip base o o' =
    guarded n 128 (masked_eq 128 n ip base)
      (λ le. masked_eq_iff 128 n ip base le (from_be-lt 16 ip o) (from_be-lt 16 base o'))

-- `address/prefix` is read at its slash.
match_cidr-append :
    (ip base : IpAddr) (address prefix : Bytes) (n : ℕ)
    → contains_byte b'/' address ≡ false
    → contains_byte b'/' prefix ≡ false
    → parse_ip address ≡ some base
    → parse_uint 255 prefix ≡ some n
    → match_cidr ip (address ++ b'/' ∷ prefix) ≡ in_network n ip base
match_cidr-append ip base address prefix n ca cp pa pp =
    unfold match_cidr in
    rw (split-append b'/' address prefix ca, split_whole b'/' prefix cp, pa, pp)

module _ (address prefix : Bytes) (n : ℕ) (no_slash : contains_byte b'/' address ≡ false)
    (no_slash' : contains_byte b'/' prefix ≡ false)
    (length_read : parse_uint 255 prefix ≡ some n) where
  -- For IPv4 `address/n` matches exactly the addresses that agree with it in the first n bits, for
  -- n up to 32.
  pub match_cidr_v4 :
      (ip base : Bytes)
      → parse_ip address ≡ some (v4 base)
      → Octets 4 ip
      → Octets 4 base
      → (match_cidr (v4 ip) (address ++ b'/' ∷ prefix) ≡ true) ↔ SamePrefix 32 n ip base
  match_cidr_v4 ip base e o o' =
      rw (match_cidr-append (v4 ip) (v4 base) address prefix n no_slash no_slash' e length_read)
        (in_network_v4 n ip base o o')

  -- Likewise for IPv6, with 128 bits.
  pub match_cidr_v6 :
      (ip base : Bytes)
      → parse_ip address ≡ some (v6 base)
      → Octets 16 ip
      → Octets 16 base
      → (match_cidr (v6 ip) (address ++ b'/' ∷ prefix) ≡ true) ↔ SamePrefix 128 n ip base
  match_cidr_v6 ip base e o o' =
      rw (match_cidr-append (v6 ip) (v6 base) address prefix n no_slash no_slash' e length_read)
        (in_network_v6 n ip base o o')

-- An entry with no slash matches its own address only.
pub match_cidr_exact :
    (ip base : IpAddr) (address : Bytes)
    → contains_byte b'/' address ≡ false
    → parse_ip address ≡ some base
    → (match_cidr ip address ≡ true) ↔ (ip ≡ base)
match_cidr_exact ip base address c e =
    unfold match_cidr in rw (split_whole b'/' address c, e) (eq_ip_iff ip base)

other_family :
    (ip base : Bytes) (parts : List Bytes) (address : Bytes)
    → parse_ip address ≡ some (v4 base)
    → match_parts (v6 ip) (address ∷ parts) ≡ false
unfolding match_parts
other_family ip base [] address e = rw e
other_family ip base (prefix ∷ parts) address e = rw e (none_match (parse_uint 255 prefix))
  where
    none_match : (o : Option ℕ) → match_prefix (v6 ip) (some (v4 base)) o ≡ false
    none_match none = refl
    none_match (some n) = refl

-- An IPv4 entry matches no IPv6 address, an IPv4-mapped one (::ffff:a.b.c.d) included.
pub match_cidr_other_family :
    (ip base cidr : Bytes)
    → parse_ip (split_first b'/' cidr) ≡ some (v4 base)
    → match_cidr (v6 ip) cidr ≡ false
match_cidr_other_family ip base cidr e =
    let (rest, s) = split-split_first b'/' cidr in
    unfold match_cidr in rw s (other_family ip base rest (split_first b'/' cidr) e)
