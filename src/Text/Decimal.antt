-- ===== src/Text/Decimal.antt =====
-- Unsigned integers: `parse::<u8>()`, `parse::<u16>()`, `parse::<usize>()`, and `Display`.
use rust_socksd.Prelude.{
  ℕ, zero, suc, ◌+◌, ◌-◌, ◌*◌, ◌/◌, ◌%◌, ◌&&◌, [], ◌∷◌, leb, ltb, ◌==◌, if◌then◌else◌, Bytes,
  Option, none, some,
}

unfoldable pub digit_value : ℕ → Option ℕ
digit_value c = if leb b'0' c && leb c b'9' then some (c - b'0') else none

-- The value of decimal digits, behind a number that has been read.
unfoldable pub digits : ℕ → Bytes → Option ℕ
unfolding digit_value
digits n [] = some n
digits n (c ∷ s) = elim (digit_value c) [ none ↦ none | some d ↦ digits (n * 10 + d) s ]

abbrev at_most : ℕ → Option ℕ → Option ℕ
at_most bound none = none
at_most bound (some n) = if leb n bound then some n else none

unfoldable pub parse_digits : ℕ → Bytes → Option ℕ
unfolding digits
parse_digits bound [] = none
parse_digits bound (c ∷ s) = at_most bound (digits 0 (c ∷ s))

-- An optional plus sign, then digits, with a value up to the type's largest.
unfoldable pub parse_uint : ℕ → Bytes → Option ℕ
unfolding parse_digits
parse_uint bound [] = none
parse_uint bound (c ∷ s) = if c == b'+' then parse_digits bound s else parse_digits bound (c ∷ s)

-- The digits of a number in front of a text; `fuel` above the number is enough.
unfoldable pub decimal_onto : ℕ → ℕ → Bytes → Bytes
decimal_onto zero n rest = rest
decimal_onto (suc fuel) n rest =
    let more = decimal_onto fuel (n / 10) ((b'0' + n % 10) ∷ rest) in
    if ltb n 10 then (b'0' + n) ∷ rest else more

unfoldable pub decimal : ℕ → Bytes
unfolding decimal_onto
decimal n = decimal_onto (suc n) n []
