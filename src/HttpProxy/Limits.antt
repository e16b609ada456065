-- ===== src/HttpProxy/Limits.antt =====
-- How much of the input a request takes.
use rust_socksd.Prelude.{
  ℕ, zero, suc, ◌+◌, ◌≤◌, ◌≡◌, refl, subst, sym, ap, ◌∙◌, ◌||◌, List, [], ◌∷◌, ◌++◌, Bytes, Result,
  ok, err, ◌==◌, length, take, length-append, append_assoc, is_empty, arith, Bool-cases, inl, inr,
  ◌⊎◌,
}
use rust_socksd.Text.{Unicode, trim, split_whitespace}
use rust_socksd.Config.{Config}
use rust_socksd.Stream.{Conn}
use rust_socksd.Upstream.HttpConnect.{take_line, drop_bytes}
use rust_socksd.HttpProxy.{
  Reading, next_line, read_limited, add_header, read_headers, finish_request, read_parts,
  read_request, handle_request,
}

-- The line stands in front of the input, within the limit.
front :
    (n : ℕ) (s : Bytes)
    → let line = (take_line (take n s)).0 in
      (s ≡ line ++ drop_bytes (length line) s) × (length line ≤ n)
unfolding take_line take drop_bytes
front zero s = (refl, omega arith)
front (suc n) [] = (refl, omega arith)
front (suc n) (x ∷ s) = elim (Bool-cases (x == 0x0A)) [
  | inl e ↦ rw e (refl, omega arith)
  | inr e ↦ let (q, le) = front n s in rw e (ap (λ t. x ∷ t) q, omega (arith, le))
]

-- What is read between two states of the reader counts against the limit.
abbrev pub Spends : Reading → Reading → Type 0
Spends r r' = (taken : Bytes) × (r.1.input ≡ taken ++ r'.1.input) × (length taken + r'.0 ≡ r.0)

Spends-nothing : (r : Reading) → Spends r r
Spends-nothing r = ([], refl, omega arith)

Spends-both : (r r' r'' : Reading) → Spends r r' → Spends r' r'' → Spends r r''
Spends-both r r' r'' (a, e, l) (b, e', l') = (
  a ++ b,
  e ∙ (ap (λ t. a ++ t) e' ∙ sym (append_assoc a b r''.1.input)),
  omega (arith, length-append a b, l, l'),
)

read_limited-Spends : (r : Reading) → Spends r (read_limited r).1
unfolding read_limited next_line
read_limited-Spends (left, c) =
    let (e, le) = front left c.input in ((take_line (take left c.input)).0, e, omega (arith, le))

pub Result-cases {ℓ} :
    {A : Type ℓ} (r : Result A) → ((e : Bytes) × (r ≡ err e)) ⊎ ((a : A) × (r ≡ ok a))
Result-cases (err e) = inl (e, refl)
Result-cases (ok a) = inr (a, refl)

module _ ⦃u : Unicode⦄ where
  read_headers-Spends :
      (fuel : ℕ) (headers : List (Bytes × Bytes)) (r : Reading)
      → Spends r (read_headers fuel headers r).1
  unfolding read_headers
  read_headers-Spends zero headers r = Spends-nothing r
  read_headers-Spends (suc fuel) headers r =
      let first = read_limited-Spends r in
      elim (Result-cases (read_limited r).0) [
        | inl (e, bad) ↦ rw (bad, read_headers) first
        | inr (line, text) ↦ elim (Bool-cases ((read_limited r).1.0 == 0)) [
          | inl over ↦ rw (text, over, read_headers) first
          | inr within ↦ elim (Bool-cases (is_empty line || is_empty (trim line))) [
            | inl blank ↦ rw (text, within, blank, read_headers) first
            | inr header ↦
                rw (text, within, header, read_headers)
                  (Spends-both r (read_limited r).1
                    (read_headers fuel (add_header (trim line) headers) (read_limited r).1).1 first
                    (read_headers-Spends fuel (add_header (trim line) headers) (read_limited r).1))
          ]
        ]
      ]

  finish_keeps :
      (method uri version : Bytes) (p : Result (List (Bytes × Bytes)) × Reading)
      → (finish_request method uri version p).1 ≡ p.1
  unfolding finish_request
  finish_keeps method uri version (err e, r) = refl
  finish_keeps method uri version (ok headers, r) = refl

  read_parts-Spends : (parts : List Bytes) (r : Reading) → Spends r (read_parts parts r).1
  unfolding read_parts
  read_parts-Spends (method ∷ uri ∷ version ∷ []) r =
      subst (λ q. Spends r q) (sym (finish_keeps method uri version (read_headers (suc r.0) [] r)))
        (read_headers-Spends (suc r.0) [] r)
  read_parts-Spends [] r = Spends-nothing r
  read_parts-Spends (a ∷ []) r = Spends-nothing r
  read_parts-Spends (a ∷ b ∷ []) r = Spends-nothing r
  read_parts-Spends (a ∷ b ∷ d ∷ e ∷ parts) r = Spends-nothing r

  read_request-Spends : (r : Reading) → Spends r (read_request r).1
  unfolding read_request
  read_request-Spends r =
      let first = read_limited-Spends r in
      elim (Result-cases (read_limited r).0) [
        | inl (e, bad) ↦ rw (bad, read_request) first
        | inr (line, text) ↦ elim (Bool-cases (is_empty line)) [
          | inl ends ↦ rw (text, ends, read_request) first
          | inr some_line ↦ elim (Bool-cases ((read_limited r).1.0 == 0)) [
            | inl over ↦ rw (text, some_line, over, read_request) first
            | inr within ↦
                rw (text, some_line, within, read_request)
                  (Spends-both r (read_limited r).1
                    (read_parts (split_whitespace (trim line)) (read_limited r).1).1 first
                    (read_parts-Spends (split_whitespace (trim line)) (read_limited r).1))
          ]
        ]
      ]

  -- Whatever the client sends, and whether the request is accepted or not, reading it takes at most
  -- `max_request_size` bytes from the front of the input.
  pub handle_request_bounded :
      (config : Config) (c : Conn)
      → (taken : Bytes) × (c.input ≡ taken ++ (handle_request config c).1.input)
        × (length taken ≤ config.security.max_request_size)
  unfolding handle_request
  handle_request_bounded config c =
      let (taken, e, l) = read_request-Spends (config.security.max_request_size, c) in
      (taken, e, omega (arith, l))
