-- ===== src/Ldap/Safe.antt =====
-- A username cannot change the structure of the filter.
use rust_socksd.Prelude.{ℕ, ◌≡◌, refl, false, [], ◌∷◌, ◌++◌, Bytes, lit, ◌==◌, Bool-cases, inl, inr}
use rust_socksd.Text.{contains_byte}
use rust_socksd.Ldap.{replace, escape_filter_value}

contains_byte-append :
    (c : ℕ) (s t : Bytes)
    → contains_byte c s ≡ false
    → contains_byte c t ≡ false
    → contains_byte c (s ++ t) ≡ false
unfolding contains_byte
contains_byte-append c [] t h h' = h'
contains_byte-append c (x ∷ s) t h h' = elim (Bool-cases (x == c)) [
  | inl e ↦ cc (rw (e, contains_byte) at h)
  | inr e ↦ rw (e, contains_byte) (contains_byte-append c s t (rw (e, contains_byte) at h) h')
]

-- The byte that is replaced is gone.
replaced :
    (c : ℕ) (text s : Bytes)
    → contains_byte c text ≡ false
    → contains_byte c (replace c text s) ≡ false
unfolding replace contains_byte
replaced c text [] h = refl
replaced c text (x ∷ s) h = elim (Bool-cases (x == c)) [
  | inl e ↦ rw (e, replace) (contains_byte-append c text _ h (replaced c text s h))
  | inr e ↦ rw (e, replace) (rw e (replaced c text s h))
]

-- A byte that is absent stays absent.
absent :
    (c d : ℕ) (text s : Bytes)
    → contains_byte c text ≡ false
    → contains_byte c s ≡ false
    → contains_byte c (replace d text s) ≡ false
unfolding replace contains_byte
absent c d text [] h h' = refl
absent c d text (x ∷ s) h h' = elim (Bool-cases (x == c)) [
  | inl e ↦ cc (rw (e, contains_byte) at h')
  | inr other ↦ elim (Bool-cases (x == d)) [
    | inl e ↦
        rw (e, replace)
          (contains_byte-append c text _ h (absent c d text s h (rw (other, contains_byte) at h')))
    | inr e ↦ rw (e, replace) (rw other (absent c d text s h (rw (other, contains_byte) at h')))
  ]
]

-- Whatever the username, the text that goes into the filter has no asterisk, no parenthesis and no
-- NUL.
pub escape_filter_value_safe :
    (value : Bytes)
    → (contains_byte b'*' (escape_filter_value value) ≡ false)
      × (contains_byte b'(' (escape_filter_value value) ≡ false)
      × (contains_byte b')' (escape_filter_value value) ≡ false)
      × (contains_byte 0x00 (escape_filter_value value) ≡ false)
unfolding escape_filter_value contains_byte
escape_filter_value_safe value =
    let star = replace b'*' (lit "\\2a") (replace b'\\' (lit "\\5c") value) in
    let left = replace b'(' (lit "\\28") star in
    let right = replace b')' (lit "\\29") left in
    (
      absent b'*' 0x00 (lit "\\00") right refl (
          absent b'*' b')' (lit "\\29") left refl (
            absent b'*' b'(' (lit "\\28") star refl
              (replaced b'*' (lit "\\2a") (replace b'\\' (lit "\\5c") value) refl))),
      absent b'(' 0x00 (lit "\\00") right refl
          (absent b'(' b')' (lit "\\29") left refl (replaced b'(' (lit "\\28") star refl)),
      absent b')' 0x00 (lit "\\00") right refl (replaced b')' (lit "\\29") left refl),
      replaced 0x00 (lit "\\00") right refl,
    )
