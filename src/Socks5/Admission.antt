-- ===== src/Socks5/Admission.antt =====
-- Whom `handle_handshake` lets in.
use rust_socksd.Prelude.{
  ℕ, suc, ◌<◌, ◌≡◌, refl, ◌∙◌, Bool, true, false, not, List, [], ◌∷◌, ◌++◌, map, some, Bytes, lit,
  ok, err, ◌==◌, if◌then◌else◌, arith, length, append_assoc, any, ◌⊎◌, inl, inr,
}
use rust_socksd.Text.{from_utf8}
use rust_socksd.Metrics.{ServerMetrics}
use rust_socksd.Stream.{Conn, conn}
use rust_socksd.Stream.Sound.{read-bind-eq-ok, refuse_if-bind-eq-ok, write-bind-eq-ok}
use rust_socksd.Socks5.Protocol.{
  AuthMethod, user_pass, no_acceptable, auth_method, method_code, select_method, is_user_pass,
  is_no_auth,
}
use rust_socksd.Socks5.{
  Socks5Handler, byte, validate_credentials, count_auth_failure, report_auth, handle_user_pass_auth,
  finish_handshake, handle_handshake,
}
use rust_socksd.Socks5.Handshake.{
  greeting, auth_message, handshake_answer, user_pass_verdict, user_pass_sound,
}

select_with_auth :
    (ms : List AuthMethod)
    → (select_method true ms ≡ user_pass) ⊎ (select_method true ms ≡ no_acceptable)
unfolding select_method
select_with_auth ms = ground arith

finish_with_auth :
    (h : Socks5Handler) (ms : List AuthMethod) (c : Conn) {b : Bool} {c' : Conn}
    → finish_handshake h (select_method true ms) c ≡ (ok b, c')
    → (handle_user_pass_auth h c ≡ (ok b, c')) × (select_method true ms ≡ user_pass)
unfolding finish_handshake
finish_with_auth h ms c e = elim (select_with_auth ms) [
  | inl found ↦ (rw (found, finish_handshake) at e, found)
  | inr missing ↦ cc (rw (missing, finish_handshake) at e)
]

greeting_of_pieces :
    (head methods i₀ i₁ i₂ : Bytes)
    → i₀ ≡ head ++ i₁
    → length head ≡ 2
    → not (byte head 0 == 0x05) ≡ false
    → i₁ ≡ methods ++ i₂
    → length methods ≡ byte head 1
    → i₀ ≡ greeting methods ++ i₂
greeting_of_pieces (v ∷ n ∷ []) methods i₀ i₁ i₂ e₀ l₀ ver e₁ l₁ =
    let version : v ≡ 0x05 = ground arith in rw (e₀, e₁, l₁, version) refl
greeting_of_pieces _ methods i₀ i₁ i₂ e₀ l₀ ver e₁ l₁ = absurd (ground arith)

join_input :
    (i i₁ i₂ methods message rest : Bytes)
    → i ≡ greeting methods ++ i₁
    → i₂ ≡ i₁
    → i₂ ≡ message ++ rest
    → i ≡ greeting methods ++ (message ++ rest)
join_input i i₁ i₂ methods message rest e e₁ e₂ = rw (e, ← e₁, e₂)

join_output :
    (o o₁ o₂ o₃ o₄ : Bytes) (s : AuthMethod)
    → o₁ ≡ o
    → o₂ ≡ o₁
    → o₃ ≡ o₂ ++ 0x05 ∷ method_code s ∷ []
    → s ≡ user_pass
    → o₄ ≡ o₃ ++ 0x01 ∷ 0x00 ∷ []
    → o₄ ≡ o ++ 0x05 ∷ 0x02 ∷ 0x01 ∷ 0x00 ∷ []
join_output o o₁ o₂ o₃ o₄ s e₁ e₂ e₃ es e₄ = rw (e₄, e₃, es, e₂, e₁) (append_assoc o _ _)

-- With authentication required, a handshake that succeeds has read a greeting and a username and
-- password that the backend accepts, and has answered that it selects the password method and
-- that the password is right.
pub handshake_sound :
    (h : Socks5Handler) (c : Conn) {b : Bool} {c' : Conn}
    → handle_handshake h true c ≡ (ok b, c')
    → (methods : Bytes) × (username : Bytes) × (password : Bytes) × (c.input
        ≡ greeting methods ++ (auth_message username password ++ c'.input))
      × (validate_credentials h username password ≡ true)
      × (c'.output ≡ c.output ++ 0x05 ∷ 0x02 ∷ 0x01 ∷ 0x00 ∷ [])
      × (b ≡ true)
unfolding handle_handshake
handshake_sound h c {b} {c'} e =
    let (head, c₁, i₁, l₁, o₁, e₁) = read-bind-eq-ok 2 _ c e in
    let (version, e₂) = refuse_if-bind-eq-ok (not (byte head 0 == 0x05)) _ _ c₁ e₁ in
    let (some_method, e₃) = refuse_if-bind-eq-ok (byte head 1 == 0) _ _ c₁ e₂ in
    let (methods, c₂, i₂, l₂, o₂, e₄) = read-bind-eq-ok _ _ c₁ e₃ in
    let (c₃, i₃, o₃, e₅) = write-bind-eq-ok _ _ c₂ e₄ in
    let (e₆, chosen) = finish_with_auth h (map auth_method methods) c₃ e₅ in
    let (u, p, i₄, valid, o₄, eb) = user_pass_sound h c₃ e₆ in
    (
      methods,
      u,
      p,
      join_input _ _ _ methods (auth_message u p) c'.input
          (greeting_of_pieces head methods _ _ _ i₁ l₁ version i₂ l₂) i₃ i₄,
      valid,
      join_output _ _ _ _ _ _ o₁ o₂ o₃ chosen o₄,
      eb,
    )

chosen_user_pass :
    (ms : List AuthMethod) → any is_user_pass ms ≡ true → select_method true ms ≡ user_pass
unfolding select_method
chosen_user_pass ms h = ground arith

reported :
    (valid counted : Bool) (c : Conn)
    → report_auth counted valid
        (record c { output = c.output ++ 0x01 ∷ (if valid then 0x00 else 0x01) ∷ [] })
      ≡ (if valid then (ok true, record c { output = c.output ++ 0x01 ∷ 0x00 ∷ [] }) else (
        err (lit "Authentication failed"),
        count_auth_failure counted (record c { output = c.output ++ 0x01 ∷ 0x01 ∷ [] }),
      ))
unfolding report_auth
reported true counted c = refl
reported false counted c = refl

-- A client that offers the password method and sends a well-formed message gets the verdict on its
-- credentials; a refusal is answered, counted and ends in an error.
pub handshake_verdict :
    (h : Socks5Handler) (methods username password rest output : Bytes) (k : ℕ) (m : ServerMetrics)
    → 0 < length methods
    → any is_user_pass (map auth_method methods) ≡ true
    → from_utf8 username ≡ some username
    → from_utf8 password ≡ some password
    → let c = conn rest (output ++ 0x05 ∷ 0x02 ∷ []) k m in
      let input = greeting methods ++ (auth_message username password ++ rest) in
      handle_handshake h true (conn input output (suc (suc k)) m) ≡ (
        if validate_credentials h username password
        then (ok true, record c { output = c.output ++ 0x01 ∷ 0x00 ∷ [] })
        else (
          err (lit "Authentication failed"),
          count_auth_failure h.metrics (record c { output = c.output ++ 0x01 ∷ 0x01 ∷ [] }),
        ))
unfolding finish_handshake
handshake_verdict h methods username password rest output k m some_method offered u p =
    handshake_answer h true methods (auth_message username password ++ rest) output (suc k) m
      some_method
    ∙ rw (chosen_user_pass (map auth_method methods) offered, finish_handshake)
        (user_pass_verdict h username password rest (output ++ 0x05 ∷ 0x02 ∷ []) k m u p
          ∙ reported (validate_credentials h username password) h.metrics
              (conn rest (output ++ 0x05 ∷ 0x02 ∷ []) k m))

-- Without a method that it can use the server answers 0xFF and gives up.
pub handshake_unacceptable :
    (h : Socks5Handler) (auth_required : Bool) (methods rest output : Bytes) (k : ℕ)
    (m : ServerMetrics)
    → 0 < length methods
    → any (if auth_required then is_user_pass else is_no_auth) (map auth_method methods) ≡ false
    → handle_handshake h auth_required (conn (greeting methods ++ rest) output (suc k) m) ≡ (
      err (lit "No acceptable authentication method"),
      conn rest (output ++ 0x05 ∷ 0xFF ∷ []) k m,
    )
unfolding finish_handshake
handshake_unacceptable h auth_required methods rest output k m some_method offered =
    handshake_answer h auth_required methods rest output k m some_method
    ∙ rw (chosen auth_required (map auth_method methods) offered, finish_handshake)
  where
    chosen :
        (required : Bool) (ms : List AuthMethod)
        → any (if required then is_user_pass else is_no_auth) ms ≡ false
        → select_method required ms ≡ no_acceptable
    chosen true ms e = unfold select_method in rw e
    chosen false ms e = unfold select_method in rw e
