-- ===== src/HttpProxy/Fuel.antt =====
-- The loop over the headers ends: the limit is fuel enough.
use rust_socksd.Prelude.{
  ℕ, zero, suc, ◌-◌, ◌<◌, ◌≡◌, refl, subst, sym, ap, ◌∙◌, ◌≢◌, Bool, false, ◌||◌, List, [], ◌∷◌,
  Option, none, some, Bytes, Result, ok, err, ◌==◌, length, is_empty, lit, eq_bytes, eq_bytes_iff,
  arith, Bool-cases, inl, inr,
}
use rust_socksd.Text.{Unicode, from_utf8, trim}
use rust_socksd.HttpProxy.{
  Reading, too_long, line_text, next_line, read_limited, add_header, read_headers,
}
use rust_socksd.HttpProxy.Limits.{Result-cases}

pub text_of_line : (o : Option Bytes) {line : Bytes} → line_text o ≡ ok line → o ≡ some line
text_of_line none h = cc
text_of_line (some text) h = ap value h
  where
    value : Result Bytes → Option Bytes
    value (ok t) = some t
    value (err e) = none

pub decoded_same : (s : Bytes) {t : Bytes} → from_utf8 s ≡ some t → t ≡ s
unfolding from_utf8
decoded_same s h = ground arith

some_byte : (line : Bytes) (b : Bool) → (is_empty line || b) ≡ false → 0 < length line
unfolding is_empty
some_byte [] b h = cc
some_byte (x ∷ line) b h = omega arith

smaller : (left n : ℕ) → 0 < n → (left - n == 0) ≡ false → left - n < left
smaller left n some_bytes within = ground (arith, some_bytes, within)

shrinks :
    (r : Reading) (line : Bytes) (b : Bool)
    → (read_limited r).0 ≡ ok line
    → (is_empty line || b) ≡ false
    → ((read_limited r).1.0 == 0) ≡ false
    → (read_limited r).1.0 < r.0
unfolding read_limited
shrinks (left, c) line b text header within =
    let same = decoded_same (next_line (left, c)) (text_of_line _ text) in
    smaller left (length (next_line (left, c)))
      (subst (λ s. 0 < length s) same (some_byte line b header)) within

abbrev pub out_of_fuel : Bytes
out_of_fuel = lit "out of fuel"

text_of {ℓ} : {A : Type ℓ} → Result A → Bytes
text_of (ok a) = []
text_of (err e) = e

other_error {ℓ} :
    {A : Type ℓ} (r : Result A) {e : Bytes}
    → r ≡ err e
    → eq_bytes e out_of_fuel ≡ false
    → r ≢ err out_of_fuel
unfolding text_of
other_error r {e} failed differs h =
    cc (sym ((eq_bytes_iff e out_of_fuel).1 (ap text_of (sym failed ∙ h))) ∙ differs)

-- A line that cannot be read is another error.
bad_line : (r : Reading) {e : Bytes} → (read_limited r).0 ≡ err e → eq_bytes e out_of_fuel ≡ false
unfolding read_limited text_of eq_bytes
bad_line (left, c) h = bad (from_utf8 (next_line (left, c))) h
  where
    bad : (o : Option Bytes) {e : Bytes} → line_text o ≡ err e → eq_bytes e out_of_fuel ≡ false
    bad none h = subst (λ e. eq_bytes e out_of_fuel ≡ false) (ap text_of h) refl
    bad (some text) h = cc h

too_long-differs : eq_bytes too_long out_of_fuel ≡ false
unfolding too_long eq_bytes
too_long-differs = refl

module _ ⦃u : Unicode⦄ where
  -- The loop on more than what may be read does not end for lack of fuel, and on all such amounts
  -- it does the same.
  abbrev pub Settled :
      List (Bytes × Bytes) → Reading → Result (List (Bytes × Bytes)) × Reading → Type 0
  Settled headers r result =
      (result.0 ≢ err out_of_fuel) × ((m : ℕ) → r.0 < m → result ≡ read_headers m headers r)

  -- Above a bound there are only successors.
  more :
      (headers : List (Bytes × Bytes)) (r : Reading)
      {result : Result (List (Bytes × Bytes)) × Reading}
      → ((m : ℕ) → result ≡ read_headers (suc m) headers r)
      → (m : ℕ) → r.0 < m
      → result ≡ read_headers m headers r
  more headers r f zero h = absurd (omega (arith, h))
  more headers r f (suc m) h = f m

  -- Reading the headers does not run out of fuel: with any amount above what may still be read, the
  -- result is not the error of the fuel, and it is the same as with any other such amount.
  pub read_headers_enough :
      (n : ℕ) (headers : List (Bytes × Bytes)) (r : Reading)
      → r.0 < n
      → Settled headers r (read_headers n headers r)
  unfolding read_headers
  read_headers_enough zero headers r h = absurd (omega (arith, h))
  read_headers_enough (suc n) headers r h = elim (Result-cases (read_limited r).0) [
    | inl (e, bad) ↦
        rw (bad, read_headers)
          (other_error _ refl (bad_line r bad), more headers r λ m. rw (bad, read_headers) refl)
    | inr (line, text) ↦ elim (Bool-cases ((read_limited r).1.0 == 0)) [
      | inl over ↦
          rw (text, over, read_headers)
            (
              other_error _ refl too_long-differs,
              more headers r λ m. rw (text, over, read_headers) refl,
            )
      | inr within ↦ elim (Bool-cases (is_empty line || is_empty (trim line))) [
        | inl blank ↦
            rw (text, within, blank, read_headers)
              (λ e. cc e, more headers r λ m. rw (text, within, blank, read_headers) refl)
        | inr header ↦
            let less = shrinks r line (is_empty (trim line)) text header within in
            let (ends, same) =
              read_headers_enough n (add_header (trim line) headers) (read_limited r).1
                (omega (arith, less, h)) in
            rw (text, within, header, read_headers)
              (
                ends,
                elim [
                  | zero ↦ λ h'. absurd (omega (arith, h'))
                  | suc m ↦ λ h'.
                      rw (text, within, header, read_headers) (same m (omega (arith, less, h')))
                ],
              )
      ]
    ]
  ]
