-- ===== src/Net/Parse.antt =====
-- `parse::<IpAddr>()`, after the standard library's parser.
pub mod Socket
pub mod Extends
use rust_socksd.Prelude.{
  ℕ, zero, suc, ◌+◌, ◌-◌, ◌*◌, ◌/◌, Bool, true, false, ◌&&◌, [], ◌∷◌, ◌++◌, leb, ltb, ◌==◌,
  if◌then◌else◌, Bytes, Option, none, some, length,
}
use rust_socksd.Text.{digit_value}
use rust_socksd.Net.Addr.{IpAddr, v4, v6, to_be_bytes}

-- A parser gives what it read and the rest of the text.
abbrev Parser {ℓ} : Type ℓ → Type ℓ
Parser A = Bytes → Option (A × Bytes)

infixl 5 ◌>>=◌
abbrev ◌>>=◌ {ℓ κ} : {A : Type ℓ} {B : Type κ} → Parser A → (A → Parser B) → Parser B
◌>>=◌ m f s = elim (m s) [ none ↦ none | some (a, rest) ↦ f a rest ]

given : ℕ → Parser (Unit {0})
given c [] = none
given c (x ∷ s) = if x == c then some (tt, s) else none

give {ℓ} : {A : Type ℓ} → A → Parser A
give a s = some (a, s)

-- Up to three digits, no leading zero, a value below 256.
octet_more : ℕ → ℕ → Parser ℕ
octet_more zero n s = if ltb n 256 then some (n, s) else none
octet_more (suc more) n [] = if ltb n 256 then some (n, []) else none
octet_more (suc more) n (c ∷ s) = elim (digit_value c) [
  | none ↦ if ltb n 256 then some (n, c ∷ s) else none
  | some d ↦ if n == 0 then none else octet_more more (n * 10 + d) s
]

-- A fourth digit is refused with the value that it makes, which is above 255.
octet : Parser ℕ
unfolding octet_more digit_value
octet [] = none
octet (c ∷ s) = elim (digit_value c) [ none ↦ none | some d ↦ octet_more 3 d s ]

unfoldable pub ipv4 : Parser Bytes
unfolding octet given give
ipv4 = octet >>= λ a. given b'.' >>= λ _. octet >>= λ b.
    given b'.' >>= λ _. octet >>= λ c. given b'.' >>= λ _. octet >>= λ d. give (a ∷ b ∷ c ∷ d ∷ [])

hex_value : ℕ → Option ℕ
unfolding digit_value
hex_value c =
    if leb b'a' c && leb c b'f'
    then some (c - b'a' + 10)
    else if leb b'A' c && leb c b'F'
    then some (c - b'A' + 10)
    else digit_value c

-- Up to so many hexadecimal digits behind a number read so far.
hex_more : ℕ → ℕ → Parser ℕ
unfolding hex_value
hex_more zero n s = some (n, s)
hex_more (suc more) n [] = some (n, [])
hex_more (suc more) n (c ∷ s) = elim (hex_value c) [
  | none ↦ some (n, c ∷ s)
  | some d ↦ hex_more more (n * 16 + d) s
]

-- One to four hexadecimal digits; a fifth is refused.
group_end : ℕ → Parser ℕ
unfolding hex_value
group_end n [] = some (n, [])
group_end n (c ∷ s) = elim (hex_value c) [ none ↦ some (n, c ∷ s) | some d ↦ none ]

group : Parser ℕ
unfolding hex_more group_end
group [] = none
group (c ∷ s) = elim (hex_value c) [ none ↦ none | some d ↦ (hex_more 3 d >>= λ n. group_end n) s ]

-- Behind the first item a colon stands in front.
separated {ℓ} : {A : Type ℓ} → Bool → Parser A → Parser A
unfolding given
separated true p = p
separated false p = given b':' >>= λ _. p

-- `read_groups`: octets read, and whether they end in an embedded IPv4 address. The first argument
-- counts the groups that may still come.
groups : ℕ → Bool → Bytes → (Bytes × Bool) × Bytes
unfolding ipv4 group separated to_be_bytes
groups zero first s = (([], false), s)
groups (suc room) first s = elim (if room == 0 then none else separated first ipv4 s) [
  | some (quad, rest) ↦ ((quad, true), rest)
  | none ↦ elim (separated first group s) [
    | none ↦ (([], false), s)
    | some (g, rest) ↦ let r = groups room false rest in ((to_be_bytes 2 g ++ r.0.0, r.0.1), r.1)
  ]
]

zeros : ℕ → Bytes
zeros zero = []
zeros (suc n) = 0 ∷ zeros n

-- What follows the head of an address that has fewer than eight groups.
back : Bytes → Bytes → Option (Bytes × Bytes)
unfolding groups given zeros
back head s = elim ((given b':' >>= λ _. given b':') s) [
  | none ↦ none
  | some (_, rest) ↦
      let r = groups (7 - length head / 2) true rest in
      some (head ++ (zeros (16 - length head - length r.0.0) ++ r.0.0), r.1)
]

unfoldable pub ipv6 : Parser Bytes
unfolding groups back
ipv6 s =
    let r = groups 8 true s in
    if length r.0.0 == 16 then some (r.0.0, r.1) else if r.0.1 then none else back r.0.0 r.1

-- The whole text must be read.
complete : (Bytes → IpAddr) → Option (Bytes × Bytes) → Option IpAddr
complete f none = none
complete f (some (octets, [])) = some (f octets)
complete f (some (octets, c ∷ s)) = none

pick_v6 : Bytes → Option (Bytes × Bytes) → Option IpAddr
unfolding ipv6 complete
pick_v6 s none = complete v6 (ipv6 s)
pick_v6 s (some r) = complete v4 (some r)

unfoldable pub parse_ip : Bytes → Option IpAddr
unfolding ipv4 pick_v6
parse_ip s = pick_v6 s (ipv4 s)
