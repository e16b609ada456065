-- ===== src/Text/Space.antt =====
-- Unicode white space in UTF-8 text: `trim`, `trim_start`, `trim_end`, `split_whitespace`.
use rust_socksd.Prelude.{
  ℕ, zero, suc, Bool, ◌&&◌, ◌||◌, List, [], ◌∷◌, ◌++◌, leb, ◌==◌, if◌then◌else◌, Bytes, is_empty,
}

-- U+1680, U+2000 to U+200A, U+2028, U+2029, U+202F, U+205F, U+3000
three_byte_space : ℕ → ℕ → ℕ → Bool
three_byte_space a b c =
    (a == 0xE1 && b == 0x9A && c == 0x80)
    || (a == 0xE2
        && b == 0x80
        && ((leb 0x80 c && leb c 0x8A) || c == 0xA8 || c == 0xA9 || c == 0xAF))
    || (a == 0xE2 && b == 0x81 && c == 0x9F)
    || (a == 0xE3 && b == 0x80 && c == 0x80)

space_three : ℕ → ℕ → Bytes → ℕ
unfolding three_byte_space
space_three a b [] = 0
space_three a b (c ∷ s) = if three_byte_space a b c then 3 else 0

-- U+0085, U+00A0
space_two : ℕ → Bytes → ℕ
unfolding space_three
space_two a [] = 0
space_two a (b ∷ s) = if a == 0xC2 && (b == 0x85 || b == 0xA0) then 2 else space_three a b s

-- The number of bytes of the white space character that the text begins with, or 0.
unfoldable pub space_at : Bytes → ℕ
unfolding space_two
space_at [] = 0
space_at (a ∷ s) = if (leb 9 a && leb a 13) || a == 32 then 1 else space_two a s

-- Skip what is left of a character, then white space.
skip_space : ℕ → Bytes → Bytes
unfolding space_at
skip_space k [] = []
skip_space (suc k) (c ∷ s) = skip_space k s
skip_space zero (c ∷ s) = elim (space_at (c ∷ s)) [ zero ↦ c ∷ s | suc k ↦ skip_space k s ]

unfoldable pub trim_start : Bytes → Bytes
unfolding skip_space
trim_start s = skip_space 0 s

unfoldable pub trim_end : Bytes → Bytes
unfolding trim_start is_empty
trim_end [] = []
trim_end (c ∷ s) = if is_empty (trim_start (c ∷ s)) then [] else c ∷ trim_end s

unfoldable pub trim : Bytes → Bytes
unfolding trim_start trim_end
trim s = trim_end (trim_start s)

-- A word that has ended, if it is not empty.
push_word : Bytes → List Bytes → List Bytes
push_word [] ws = ws
push_word (c ∷ w) ws = (c ∷ w) ∷ ws

words_from : ℕ → Bytes → Bytes → List Bytes
unfolding space_at push_word
words_from k w [] = push_word w []
words_from (suc k) w (c ∷ s) = words_from k w s
words_from zero w (c ∷ s) = elim (space_at (c ∷ s)) [
  | zero ↦ words_from zero (w ++ c ∷ []) s
  | suc k ↦ push_word w (words_from k [] s)
]

unfoldable pub split_whitespace : Bytes → List Bytes
unfolding words_from
split_whitespace s = words_from 0 [] s
