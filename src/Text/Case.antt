-- ===== src/Text/Case.antt =====
-- Letter case. ASCII text is mapped byte by byte; for other text the tables of the standard
-- library are an argument.
use rust_socksd.Prelude.{ℕ, ◌+◌, ◌-◌, Bool, ◌&&◌, map, leb, ltb, if◌then◌else◌, Bytes, all}

-- The Unicode case tables, on text that is not ASCII.
pub record Unicode : Type 0 where
  pub lower : Bytes → Bytes
  pub upper : Bytes → Bytes

unfoldable pub is_ascii : Bytes → Bool
unfolding all
is_ascii s = all (λ c. ltb c 128) s

unfoldable pub lower_byte : ℕ → ℕ
lower_byte c = if leb b'A' c && leb c b'Z' then c + 32 else c

upper_byte : ℕ → ℕ
upper_byte c = if leb b'a' c && leb c b'z' then c - 32 else c

-- `str::to_lowercase`, `str::to_uppercase`
module _ ⦃u : Unicode⦄ where
  unfoldable pub to_lowercase : Bytes → Bytes
  unfolding is_ascii lower_byte
  to_lowercase s = if is_ascii s then map lower_byte s else u.lower s

  unfoldable pub to_uppercase : Bytes → Bytes
  unfolding is_ascii upper_byte
  to_uppercase s = if is_ascii s then map upper_byte s else u.upper s
