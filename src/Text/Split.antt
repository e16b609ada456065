-- ===== src/Text/Split.antt =====
-- Searching and splitting text at bytes, prefixes and suffixes. A byte below 128 is a character.
use rust_socksd.Prelude.{
  ℕ, Bool, true, false, ◌||◌, List, [], ◌∷◌, ◌==◌, if◌then◌else◌, Bytes, eq_bytes, Option, none,
  some,
}

-- `find(c)` with the text before and behind the first `c`
unfoldable pub split_once : ℕ → Bytes → Option (Bytes × Bytes)
split_once c [] = none
split_once c (x ∷ s) =
    let later = split_once c s in
    if x == c
    then some ([], s)
    else elim later [ none ↦ none | some (before, behind) ↦ some (x ∷ before, behind) ]

-- `rfind(c)`, likewise at the last `c`
unfoldable pub rsplit_once : ℕ → Bytes → Option (Bytes × Bytes)
rsplit_once c [] = none
rsplit_once c (x ∷ s) = elim (rsplit_once c s) [
  | some (before, behind) ↦ some (x ∷ before, behind)
  | none ↦ if x == c then some ([], s) else none
]

-- Put a byte in front of the first piece.
onto_first : ℕ → List Bytes → List Bytes
onto_first x [] = (x ∷ []) ∷ []
onto_first x (p ∷ ps) = (x ∷ p) ∷ ps

-- `split` at the bytes that a test accepts; there is always a first piece.
unfoldable pub split_on : (ℕ → Bool) → Bytes → List Bytes
unfolding onto_first
split_on p [] = [] ∷ []
split_on p (x ∷ s) = let pieces = split_on p s in if p x then [] ∷ pieces else onto_first x pieces

unfoldable pub split : ℕ → Bytes → List Bytes
unfolding split_on
split c s = split_on (λ x. x == c) s

-- The first piece, `split(c).next()`.
unfoldable pub split_first : ℕ → Bytes → Bytes
split_first c [] = []
split_first c (x ∷ s) = if x == c then [] else x ∷ split_first c s

unfoldable pub strip_prefix : Bytes → Bytes → Option Bytes
strip_prefix [] s = some s
strip_prefix (p ∷ ps) [] = none
strip_prefix (p ∷ ps) (x ∷ s) = if x == p then strip_prefix ps s else none

unfoldable pub starts_with : Bytes → Bytes → Bool
unfolding strip_prefix
starts_with p s = elim (strip_prefix p s) [ none ↦ false | some rest ↦ true ]

-- Whether the second text ends with the first.
unfoldable pub ends_with : Bytes → Bytes → Bool
unfolding eq_bytes
ends_with p [] = eq_bytes p []
ends_with p (x ∷ s) = eq_bytes p (x ∷ s) || ends_with p s

-- Whether the first text stands somewhere in the second.
unfoldable pub contains : Bytes → Bytes → Bool
unfolding starts_with
contains p [] = starts_with p []
contains p (x ∷ s) = starts_with p (x ∷ s) || contains p s

unfoldable pub contains_byte : ℕ → Bytes → Bool
contains_byte c [] = false
contains_byte c (x ∷ s) = x == c || contains_byte c s

unfoldable pub trim_start_matches : ℕ → Bytes → Bytes
trim_start_matches c [] = []
trim_start_matches c (x ∷ s) = let rest = trim_start_matches c s in if x == c then rest else x ∷ s
