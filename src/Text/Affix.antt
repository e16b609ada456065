-- ===== src/Text/Affix.antt =====
-- Suffixes of texts, and the ASCII case mapping over a text put together.
use mathlib.Core.List.{map-append}
use rust_socksd.Prelude.{
  ℕ, Bool, true, ◌&&◌, ◌≡◌, ◌↔◌, refl, ap, sym, ◌∙◌, [], ◌∷◌, ◌++◌, map, Bytes, eq_bytes,
  eq_bytes_iff, Bool-cases, inl, inr, arith, ltb, all,
}
use rust_socksd.Text.Split.{ends_with}
use rust_socksd.Text.Case.{Unicode, is_ascii, lower_byte, to_lowercase}

suffix : (p s : Bytes) → ends_with p s ≡ true → (front : Bytes) × (s ≡ front ++ p)
unfolding ends_with
suffix p [] h = ([], sym ((eq_bytes_iff p []).0 h))
suffix p (x ∷ s) h = elim (Bool-cases (eq_bytes p (x ∷ s))) [
  | inl whole ↦ ([], sym ((eq_bytes_iff p (x ∷ s)).0 whole))
  | inr part ↦ let (front, e) = suffix p s (rw part at h) in (x ∷ front, ap (◌∷◌ x) e)
]

ends_with_self : (p : Bytes) → ends_with p p ≡ true
unfolding ends_with
ends_with_self [] = (eq_bytes_iff [] []).1 refl
ends_with_self (x ∷ p) = rw ((eq_bytes_iff (x ∷ p) (x ∷ p)).1 refl)

pub ends_with-append : (front p : Bytes) → ends_with p (front ++ p) ≡ true
unfolding ends_with
ends_with-append [] p = ends_with_self p
ends_with-append (x ∷ front) p = ground (arith, ends_with-append front p)

pub ends_with_iff : (p s : Bytes) → (ends_with p s ≡ true) ↔ ((front : Bytes) × (s ≡ front ++ p))
ends_with_iff p s = (suffix p s, λ (front, e). rw e (ends_with-append front p))

-- The last byte of a text that is not empty.
unfoldable pub last_or : ℕ → Bytes → ℕ
last_or d [] = d
last_or d (x ∷ s) = last_or x s

pub last_or-append : (d c : ℕ) (s : Bytes) → last_or d (s ++ c ∷ []) ≡ c
unfolding last_or
last_or-append d c [] = refl
last_or-append d c (x ∷ s) = last_or-append x c s

pub last_or-suffix : (d x : ℕ) (front s : Bytes) → last_or d (front ++ x ∷ s) ≡ last_or x s
unfolding last_or
last_or-suffix d x [] s = refl
last_or-suffix d x (y ∷ front) s = last_or-suffix y x front s

all-append : (p : ℕ → Bool) (s t : Bytes) → all p (s ++ t) ≡ all p s && all p t
unfolding all
all-append p [] t = refl
all-append p (x ∷ s) t = ground (arith, all-append p s t)

lower_plain : (c : ℕ) → ltb c 65 ≡ true → lower_byte c ≡ c
unfolding lower_byte
lower_plain c h = ground arith

ascii-append :
    (s : Bytes) (c : ℕ) → is_ascii s ≡ true → ltb c 65 ≡ true → is_ascii (s ++ c ∷ []) ≡ true
unfolding is_ascii all
ascii-append s c h k = rw (all-append (λ x. ltb x 128) s (c ∷ [])) (ground arith)

-- Lower case of ASCII text with an ASCII byte, not a letter, behind.
pub to_lowercase-append :
    ⦃u : Unicode⦄ (s : Bytes) (c : ℕ)
    → is_ascii s ≡ true
    → ltb c 65 ≡ true
    → to_lowercase (s ++ c ∷ []) ≡ to_lowercase s ++ c ∷ []
to_lowercase-append s c h k =
    unfold to_lowercase in
    rw (h, ascii-append s c h k)
      (map-append lower_byte s (c ∷ []) ∙ ap (λ x. map lower_byte s ++ x ∷ []) (lower_plain c k))
