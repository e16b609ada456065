-- ===== src/Net/Display.antt =====
-- `Ipv4Addr::to_string` and `Ipv6Addr::to_string`.
use rust_socksd.Prelude.{
  ℕ, zero, suc, ◌+◌, ◌-◌, ◌*◌, ◌/◌, ◌%◌, List, [], ◌∷◌, ◌++◌, ltb, ◌==◌, if◌then◌else◌, Bytes, lit,
  none, some,
}
use rust_socksd.Text.{decimal, strip_prefix}
use rust_socksd.Net.Addr.{IpAddr, v4, v6}

-- Decimal octets with dots between.
dotted : Bytes → Bytes
dotted [] = []
dotted (a ∷ []) = decimal a
dotted (a ∷ b ∷ bs) = decimal a ++ (b'.' ∷ dotted (b ∷ bs))

hex_digit : ℕ → ℕ
hex_digit d = if ltb d 10 then b'0' + d else b'a' + (d - 10)

-- `{:x}`, of a number below 65536
hex : ℕ → Bytes
unfolding hex_digit
hex n =
    if ltb n 16
    then hex_digit n ∷ []
    else if ltb n 256
    then hex_digit (n / 16) ∷ hex_digit (n % 16) ∷ []
    else if ltb n 4096
    then hex_digit (n / 256) ∷ hex_digit (n / 16 % 16) ∷ hex_digit (n % 16) ∷ []
    else hex_digit (n / 4096)
      ∷ hex_digit (n / 256 % 16)
      ∷ hex_digit (n / 16 % 16)
      ∷ hex_digit (n % 16)
      ∷ []

segments : Bytes → List ℕ
segments [] = []
segments (a ∷ []) = []
segments (a ∷ b ∷ bs) = (a * 256 + b) ∷ segments bs

-- Groups in hexadecimal with colons between.
colons : List ℕ → Bytes
unfolding hex
colons [] = []
colons (g ∷ []) = hex g
colons (g ∷ h ∷ gs) = hex g ++ (b':' ∷ colons (h ∷ gs))

-- The length of the run of zeros in front.
run_of_zeros : List ℕ → ℕ
run_of_zeros [] = 0
run_of_zeros (g ∷ gs) = let more = run_of_zeros gs in if g == 0 then suc more else 0

record Span : Type 0 where
  start : ℕ
  len : ℕ

-- The first of the longest runs of zeros; `i` is the position.
longest : ℕ → List ℕ → Span → Span
unfolding run_of_zeros
longest i [] best = best
longest i (g ∷ gs) best = longest (i + 1) gs (
    if ltb best.len (run_of_zeros (g ∷ gs))
    then record { start = i; len = run_of_zeros (g ∷ gs) }
    else best)

take : ℕ → List ℕ → List ℕ
take zero gs = []
take (suc n) [] = []
take (suc n) (g ∷ gs) = g ∷ take n gs

drop : ℕ → List ℕ → List ℕ
drop zero gs = gs
drop (suc n) [] = []
drop (suc n) (g ∷ gs) = drop n gs

compressed : List ℕ → Span → Bytes
unfolding colons take drop
compressed gs z =
    if ltb 1 z.len
    then colons (take z.start gs) ++ (lit "::" ++ colons (drop (z.start + z.len) gs))
    else colons gs

-- An IPv4-mapped address is shown as `::ffff:` and dotted octets.
mapped_prefix : Bytes
mapped_prefix = 0 ∷ 0 ∷ 0 ∷ 0 ∷ 0 ∷ 0 ∷ 0 ∷ 0 ∷ 0 ∷ 0 ∷ 0xff ∷ 0xff ∷ []

display_v6 : Bytes → Bytes
unfolding compressed longest segments dotted mapped_prefix strip_prefix
display_v6 bs = elim (strip_prefix mapped_prefix bs) [
  | some quad ↦ lit "::ffff:" ++ dotted quad
  | none ↦ compressed (segments bs) (longest 0 (segments bs) (record { start = 0; len = 0 }))
]

unfoldable pub display_ip : IpAddr → Bytes
unfolding dotted display_v6
display_ip (v4 octets) = dotted octets
display_ip (v6 octets) = display_v6 octets
