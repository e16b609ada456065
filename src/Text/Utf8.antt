-- ===== src/Text/Utf8.antt =====
-- `String::from_utf8`: the bytes themselves if they are valid UTF-8.
use rust_socksd.Prelude.{
  ℕ, zero, suc, Bool, false, ◌&&◌, [], ◌∷◌, leb, ltb, ◌==◌, if◌then◌else◌, Bytes, Option, none,
  some,
}

-- The number of bytes that the character still wants, and the range of the next.
pub record Pending : Type 0 where
  pub want : ℕ
  pub lo : ℕ
  pub hi : ℕ

abbrev pending : ℕ → ℕ → ℕ → Option Pending
pending n lo hi = some (record { want = n; lo = lo; hi = hi })

lead : ℕ → Option Pending
lead c =
    if ltb c 0x80
    then pending 0 0 0
    else if leb 0xC2 c && leb c 0xDF
    then pending 1 0x80 0xBF
    else if c == 0xE0
    then pending 2 0xA0 0xBF
    else if c == 0xED
    then pending 2 0x80 0x9F
    else if leb 0xE1 c && leb c 0xEF
    then pending 2 0x80 0xBF
    else if c == 0xF0
    then pending 3 0x90 0xBF
    else if leb 0xF1 c && leb c 0xF3
    then pending 3 0x80 0xBF
    else if c == 0xF4
    then pending 3 0x80 0x8F
    else none

continue : ℕ → ℕ → ℕ → ℕ → Option Pending
unfolding lead
continue zero lo hi c = lead c
continue (suc n) lo hi c = if leb lo c && leb c hi then pending n 0x80 0xBF else none

unfoldable pub utf8_next : Pending → ℕ → Option Pending
unfolding continue
utf8_next p c = continue p.want p.lo p.hi c

unfoldable pub utf8_run : Pending → Bytes → Bool
unfolding utf8_next
utf8_run p [] = p.want == 0
utf8_run p (c ∷ s) = elim (utf8_next p c) [ none ↦ false | some q ↦ utf8_run q s ]

unfoldable pub from_utf8 : Bytes → Option Bytes
unfolding utf8_run
from_utf8 s = if utf8_run (record { want = 0; lo = 0; hi = 0 }) s then some s else none
