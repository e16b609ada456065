-- ===== src/Admin/Fuel.antt =====
-- The loop over the headers of an admin request ends: the limit is fuel enough.
use rust_socksd.Prelude.{
  ℕ, zero, suc, ◌-◌, ◌<◌, ◌≡◌, refl, subst, false, List, [], ◌∷◌, Bytes, ok, length, take, is_empty,
  arith, Bool-cases, inl, inr,
}
use rust_socksd.Text.{Unicode, trim}
use rust_socksd.Stream.{Conn}
use rust_socksd.Upstream.HttpConnect.{take_line}
use rust_socksd.HttpProxy.{Reading, next_line, read_limited, add_header}
use rust_socksd.HttpProxy.Limits.{Result-cases}
use rust_socksd.HttpProxy.Fuel.{text_of_line, decoded_same}
use rust_socksd.Admin.{read_headers}

some_byte : (line : Bytes) → is_empty line ≡ false → 0 < length line
unfolding is_empty
some_byte [] h = cc
some_byte (x ∷ line) h = omega arith

shrinks :
    (r : Reading) (line : Bytes)
    → (read_limited r).0 ≡ ok line
    → is_empty line ≡ false
    → (read_limited r).1.0 < r.0
unfolding read_limited
shrinks (left, c) line text given =
    let same = decoded_same (next_line (left, c)) (text_of_line _ text) in
    less left (next_line (left, c)) (nothing_left left c)
      (subst (λ s. 0 < length s) same (some_byte line given))
  where
    nothing_left : (left : ℕ) (c : Conn) → left ≡ 0 → length (next_line (left, c)) ≡ 0
    nothing_left zero c h = unfold next_line take take_line in refl
    nothing_left (suc n) c h = absurd (omega (arith, h))

    less :
        (left : ℕ) (s : Bytes) → (left ≡ 0 → length s ≡ 0) → 0 < length s → left - length s < left
    less zero s none_of h = absurd (omega (arith, none_of refl, h))
    less (suc n) s none_of h = omega (arith, h)

module _ ⦃u : Unicode⦄ where
  -- Reading the headers of an admin request does not run out of fuel: any two amounts above what may
  -- still be read give the same result.
  pub read_headers_ends :
      (n m : ℕ) (headers : List (Bytes × Bytes)) (r : Reading)
      → r.0 < n
      → r.0 < m
      → read_headers n headers r ≡ read_headers m headers r
  unfolding read_headers
  read_headers_ends zero m headers r h h' = absurd (omega (arith, h))
  read_headers_ends (suc n) zero headers r h h' = absurd (omega (arith, h'))
  read_headers_ends (suc n) (suc m) headers r h h' = elim (Result-cases (read_limited r).0) [
    | inl (e, bad) ↦ rw (bad, read_headers) refl
    | inr (line, text) ↦ elim (Bool-cases (is_empty line)) [
      | inl none_left ↦ rw (text, none_left, read_headers) refl
      | inr given ↦ elim (Bool-cases (is_empty (trim line))) [
        | inl blank ↦ rw (text, given, blank, read_headers) refl
        | inr header ↦
            let less = shrinks r line text given in
            rw (text, given, header, read_headers)
              (read_headers_ends n m (add_header line headers) (read_limited r).1
                (omega (arith, less, h)) (omega (arith, less, h')))
      ]
    ]
  ]
