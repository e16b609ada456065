-- ===== src/Net/Parse/Extends.antt =====
-- An IPv4 address is read as well in front of more text, with a port for example.
use rust_socksd.Prelude.{
  ℕ, zero, suc, ◌+◌, ◌*◌, ◌/◌, ◌%◌, ◌<◌, ◌≤◌, ◌≡◌, ◌≢◌, ◌∙◌, refl, ap, true, [], ◌∷◌, ◌++◌, leb,
  ltb, ◌==◌, Bytes, Option, none, some, arith, Bool-cases, Option-cases, inl, inr,
}
use rust_socksd.Text.{digit_value, digits, parse_digits, decimal, decimal_onto}
use rust_socksd.Net.Addr.{IpAddr, v4, v6}
use rust_socksd.Net.Parse.{
  Parser, ◌>>=◌, given, give, octet_more, octet, ipv4, complete, pick_v6, parse_ip,
}
use rust_socksd.Net.Parse.Socket.{port_behind, parse_socket_addr}

module _ (x : ℕ) (t : Bytes) (no_digit : digit_value x ≡ none) where
  -- What a parser reads it reads in front of the text, too.
  abbrev Extends {ℓ} : {A : Type ℓ} → Parser A → Type ℓ
  Extends {A} p =
      (s : Bytes) (a : A) (rest : Bytes)
      → p s ≡ some (a, rest)
      → p (s ++ x ∷ t) ≡ some (a, rest ++ x ∷ t)

  abbrev onto {ℓ} : {A : Type ℓ} → Option (A × Bytes) → Option (A × Bytes)
  onto none = none
  onto (some (a, rest)) = some (a, rest ++ x ∷ t)

  >>=-Extends {ℓ κ} :
      {A : Type ℓ} {B : Type κ} (p : Parser A) (f : A → Parser B)
      → Extends p
      → ((a : A) → Extends (f a))
      → Extends (p >>= f)
  >>=-Extends p f h k s b rest e = elim (Option-cases (p s)) [
    | inl failed ↦ cc (rw (failed, ◌>>=◌) at e)
    | inr ((a, middle), read) ↦
        rw (h s a middle read, ◌>>=◌) (k a middle b rest (rw (read, ◌>>=◌) at e))
  ]

  give-Extends {ℓ} : {A : Type ℓ} (a : A) → Extends (give a)
  unfolding give
  give-Extends a s b rest e = ap onto e

  given-Extends : (c : ℕ) → Extends (given c)
  unfolding given
  given-Extends c [] a rest e = cc e
  given-Extends c (y ∷ s) a rest e = elim (Bool-cases (y == c)) [
    | inl same ↦ rw same (ap onto (rw same at e))
    | inr other ↦ cc (rw other at e)
  ]

  octet_more-Extends : (more n : ℕ) → Extends (octet_more more n)
  unfolding octet_more
  octet_more-Extends zero n s a rest e = elim (Bool-cases (ltb n 256)) [
    | inl small ↦ rw small (ap onto (rw small at e))
    | inr large ↦ cc (rw large at e)
  ]
  octet_more-Extends (suc more) n [] a rest e = elim (Bool-cases (ltb n 256)) [
    | inl small ↦ rw (no_digit, small, octet_more, ◌++◌) (ap onto (rw small at e))
    | inr large ↦ cc (rw large at e)
  ]
  octet_more-Extends (suc more) n (c ∷ s) a rest e = elim (Option-cases (digit_value c)) [
    | inl ends ↦ elim (Bool-cases (ltb n 256)) [
      | inl small ↦ rw (ends, small, octet_more) (ap onto (rw (ends, small, octet_more) at e))
      | inr large ↦ cc (rw (ends, large, octet_more) at e)
    ]
    | inr (d, digit) ↦ elim (Bool-cases (n == 0)) [
      | inl leading ↦ cc (rw (digit, leading, octet_more) at e)
      | inr behind ↦
          rw (digit, behind, octet_more)
            (octet_more-Extends more (n * 10 + d) s a rest (rw (digit, behind, octet_more) at e))
    ]
  ]

  octet-Extends : Extends octet
  unfolding octet
  octet-Extends [] a rest e = cc e
  octet-Extends (c ∷ s) a rest e = elim (Option-cases (digit_value c)) [
    | inl ends ↦ cc (rw (ends, octet) at e)
    | inr (d, digit) ↦ rw (digit, octet) (octet_more-Extends 3 d s a rest (rw (digit, octet) at e))
  ]

  pub ipv4-Extends : Extends ipv4
  unfolding ipv4
  ipv4-Extends =
      let dot = given-Extends b'.' in
      >>=-Extends octet _ octet-Extends λ a. >>=-Extends _ _ dot λ u.
        >>=-Extends octet _ octet-Extends λ b. >>=-Extends _ _ dot λ u.
          >>=-Extends octet _ octet-Extends
            λ c. >>=-Extends _ _ dot λ u. >>=-Extends octet _ octet-Extends λ d. give-Extends _

-- An address that is read as one of IPv4 is read whole.
parse_ip-v4 : (s octets : Bytes) → parse_ip s ≡ some (v4 octets) → ipv4 s ≡ some (octets, [])
unfolding parse_ip pick_v6 complete
parse_ip-v4 s octets h = picked (ipv4 s) h
  where
    octets_of : Option IpAddr → Bytes
    octets_of (some (v4 octets)) = octets
    octets_of o = []

    version_six : (o : Option (Bytes × Bytes)) → complete v6 o ≢ some (v4 octets)
    version_six none e = cc e
    version_six (some (q, [])) e = cc e
    version_six (some (q, c ∷ rest)) e = cc e

    picked : (o : Option (Bytes × Bytes)) → pick_v6 s o ≡ some (v4 octets) → o ≡ some (octets, [])
    picked none e = absurd (version_six _ e)
    picked (some (q, [])) e = ap (λ o. some (octets_of o, [])) e
    picked (some (q, c ∷ rest)) e = cc e

-- The digits that are written for a number are read as that number.
digits-decimal_onto :
    (fuel n : ℕ) (rest : Bytes) → n < fuel → digits 0 (decimal_onto fuel n rest) ≡ digits n rest
unfolding decimal_onto digits digit_value
digits-decimal_onto zero n rest h = absurd (omega (arith, h))
digits-decimal_onto (suc fuel) n rest h = elim (Bool-cases (ltb n 10)) [
  | inl small ↦ rw small (one n rest (ground (arith, small)))
  | inr large ↦
      let big : 10 ≤ n = ground (arith, large) in
      rw large (
        digits-decimal_onto fuel (n / 10) ((b'0' + n % 10) ∷ rest) (omega (arith, h, big))
        ∙ next n rest)
]
  where
    value : (d : ℕ) → d < 10 → digit_value (b'0' + d) ≡ some d
    value d h = ground (arith, h)

    one : (n : ℕ) (rest : Bytes) → n < 10 → digits 0 ((b'0' + n) ∷ rest) ≡ digits n rest
    one n rest h =
        let same : 0 * 10 + n ≡ n = omega arith in
        rw (value n h, digits) (ap (λ (m : ℕ). digits m rest) same)

    next : (n : ℕ) (rest : Bytes) → digits (n / 10) ((b'0' + n % 10) ∷ rest) ≡ digits n rest
    next n rest =
        let same : n / 10 * 10 + n % 10 ≡ n = omega arith in
        rw (value (n % 10) (omega arith), digits) (ap (λ (m : ℕ). digits m rest) same)

-- There is a digit, or something behind.
some_digit : (fuel n : ℕ) (rest : Bytes) → 0 < fuel → decimal_onto fuel n rest ≢ []
unfolding decimal_onto
some_digit zero n rest h = absurd (omega (arith, h))
some_digit (suc zero) n rest h = elim (Bool-cases (ltb n 10)) [
  | inl small ↦ rw small (λ e. cc e)
  | inr large ↦ rw large (λ e. cc e)
]
some_digit (suc (suc fuel)) n rest h = elim (Bool-cases (ltb n 10)) [
  | inl small ↦ rw small (λ e. cc e)
  | inr large ↦ rw large (some_digit (suc fuel) (n / 10) ((b'0' + n % 10) ∷ rest) (omega arith))
]

parse_digits-decimal : (n : ℕ) → n ≤ 65_535 → parse_digits 65_535 (decimal n) ≡ some n
unfolding parse_digits decimal
parse_digits-decimal n h =
    read (decimal_onto (suc n) n []) (digits-decimal_onto (suc n) n [] (omega arith))
      (some_digit (suc n) n [] (omega arith))
  where
    read : (s : Bytes) → digits 0 s ≡ some n → s ≢ [] → parse_digits 65_535 s ≡ some n
    read [] e some_of = absurd (some_of refl)
    read (c ∷ s) e some_of =
        let within : leb n 65_535 ≡ true = ground (arith, h) in rw (e, parse_digits, within) refl

-- The text of an IPv4 address with a port is read as both.
pub parse_socket_addr-v4 :
    (s octets : Bytes) (port : ℕ)
    → parse_ip s ≡ some (v4 octets)
    → port < 65_536
    → parse_socket_addr (s ++ b':' ∷ decimal port) ≡ some (record { ip = v4 octets; port = port })
unfolding parse_socket_addr port_behind digit_value
parse_socket_addr-v4 s octets port h le =
    rw
      (
        ipv4-Extends b':' (decimal port) colon s octets [] (parse_ip-v4 s octets h),
        parse_digits-decimal port (omega (arith, le)),
        parse_socket_addr,
        port_behind,
      )
      refl
  where
    colon : digit_value b':' ≡ none
    colon = refl
