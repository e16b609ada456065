-- ===== src/Text/Pieces.antt =====
-- What splitting a text at a byte gives.
use rust_socksd.Prelude.{
  ℕ, false, ◌≡◌, refl, List, [], ◌∷◌, ◌++◌, Bytes, arith, ◌==◌, Bool-cases, inl, inr,
}
use rust_socksd.Text.Split.{split, split_first, contains_byte}

-- A text without the byte is one piece.
pub split_whole : (c : ℕ) (s : Bytes) → contains_byte c s ≡ false → split c s ≡ s ∷ []
unfolding split contains_byte
split_whole c [] h = refl
split_whole c (x ∷ s) h = ground (arith, split_whole c s)

-- The first piece ends at the first such byte.
pub split-append :
    (c : ℕ) (a b : Bytes) → contains_byte c a ≡ false → split c (a ++ c ∷ b) ≡ a ∷ split c b
unfolding split contains_byte
split-append c [] b h = ground arith
split-append c (x ∷ a) b h = ground (arith, split-append c a b)

-- The first piece is what stands before the first such byte.
pub split-split_first :
    (c : ℕ) (s : Bytes) → (rest : List Bytes) × (split c s ≡ split_first c s ∷ rest)
unfolding split split_first
split-split_first c [] = ([], refl)
split-split_first c (x ∷ s) = elim (Bool-cases (x == c)) [
  | inl here ↦ (split c s, rw here)
  | inr later ↦ let (rest, e) = split-split_first c s in (rest, rw (later, e))
]
