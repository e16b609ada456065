-- ===== src/Socks5/Handshake.antt =====
-- The handshake lets in those whom it should, and what it answers.
use rust_socksd.Prelude.{
  ℕ, suc, ◌<◌, ◌≡◌, Bool, true, false, not, [], ◌∷◌, ◌++◌, map, some, Bytes, ok, ◌==◌,
  if◌then◌else◌, arith, length, append_assoc,
}
use rust_socksd.Text.{from_utf8}
use rust_socksd.Stream.{Conn, stream_laws, refuse_if, or_fail, conn, ◌>>=◌}
use rust_socksd.Stream.Sound.{
  refuse_if-bind-eq-ok, read-bind-eq-ok, write-bind-eq-ok, or_fail-bind-eq-ok,
}
use rust_socksd.Metrics.{ServerMetrics}
use rust_socksd.Socks5.Protocol.{auth_method, method_code, select_method}
use rust_socksd.Socks5.{
  Socks5Handler, byte, validate_credentials, report_auth, handle_user_pass_auth, finish_handshake,
  handle_handshake,
}

-- The messages of RFC 1928 and RFC 1929 that a client sends.
abbrev pub greeting : Bytes → Bytes
greeting methods = 0x05 ∷ length methods ∷ methods

abbrev pub auth_message : Bytes → Bytes → Bytes
auth_message username password = 0x01 ∷ length username ∷ (username ++ (length password ∷ password))

from_utf8_sound : (s : Bytes) {t : Bytes} → from_utf8 s ≡ some t → t ≡ s
unfolding from_utf8
from_utf8_sound s h = ground arith

-- The sub-negotiation answers a well-formed message with the verdict on its credentials: success,
-- or a refusal that is counted.
pub user_pass_verdict :
    (h : Socks5Handler) (username password rest output : Bytes) (k : ℕ) (m : ServerMetrics)
    → from_utf8 username ≡ some username
    → from_utf8 password ≡ some password
    → let valid = validate_credentials h username password in
      handle_user_pass_auth h (conn (auth_message username password ++ rest) output (suc k) m)
      ≡ report_auth h.metrics valid
          (conn rest (output ++ 0x01 ∷ (if valid then 0x00 else 0x01) ∷ []) k m)
unfolding handle_user_pass_auth ◌>>=◌ refuse_if or_fail
user_pass_verdict h username password rest output k m u p = simp (stream_laws, append_assoc, u, p)

-- The pieces that were read, put together.
auth_message_of_pieces :
    (head u plen p i₀ i₁ i₂ i₃ i₄ : Bytes)
    → i₀ ≡ head ++ i₁
    → length head ≡ 2
    → not (byte head 0 == 0x01) ≡ false
    → i₁ ≡ u ++ i₂
    → length u ≡ byte head 1
    → i₂ ≡ plen ++ i₃
    → length plen ≡ 1
    → i₃ ≡ p ++ i₄
    → length p ≡ byte plen 0
    → i₀ ≡ auth_message u p ++ i₄
auth_message_of_pieces (v ∷ ulen ∷ []) u (n ∷ []) p i₀ i₁ i₂ i₃ i₄ e₀ l₀ ver e₁ l₁ e₂ l₂ e₃ l₃ =
    let version : v ≡ 0x01 = ground arith in
    rw (e₀, e₁, e₂, e₃, l₁, l₃, version) (simp append_assoc)
auth_message_of_pieces _ u _ p i₀ i₁ i₂ i₃ i₄ e₀ l₀ ver e₁ l₁ e₂ l₂ e₃ l₃ = absurd (ground arith)

input_of_pieces :
    (i u p raw_u raw_p i₄ : Bytes) (c₅ c' : Conn)
    → i ≡ auth_message raw_u raw_p ++ i₄
    → u ≡ raw_u
    → p ≡ raw_p
    → c₅.input ≡ i₄
    → c₅ ≡ c'
    → i ≡ auth_message u p ++ c'.input
input_of_pieces i u p raw_u raw_p i₄ c₅ c' e eu ep e₅ ec = rw (eu, ep, ← ec, e₅) e

output_of_pieces :
    (o₀ o₁ o₂ o₃ o₄ : Bytes) (valid : Bool) (c₅ c' : Conn)
    → o₁ ≡ o₀
    → o₂ ≡ o₁
    → o₃ ≡ o₂
    → o₄ ≡ o₃
    → c₅.output ≡ o₄ ++ 0x01 ∷ (if valid then 0x00 else 0x01) ∷ []
    → valid ≡ true
    → c₅ ≡ c'
    → c'.output ≡ o₀ ++ 0x01 ∷ 0x00 ∷ []
output_of_pieces o₀ o₁ o₂ o₃ o₄ valid c₅ c' e₁ e₂ e₃ e₄ e₅ v ec = ground arith

report-eq-ok :
    (counted v : Bool) (c : Conn) {b : Bool} {c' : Conn}
    → report_auth counted v c ≡ (ok b, c')
    → (v ≡ true) × (b ≡ true) × (c ≡ c')
unfolding report_auth
report-eq-ok counted true c h = ground arith
report-eq-ok counted false c h = cc

-- The sub-negotiation succeeds only on a well-formed message whose credentials are valid.
pub user_pass_sound :
    (h : Socks5Handler) (c : Conn) {b : Bool} {c' : Conn}
    → handle_user_pass_auth h c ≡ (ok b, c')
    → (username : Bytes) × (password : Bytes) × (c.input
        ≡ auth_message username password ++ c'.input)
      × (validate_credentials h username password ≡ true)
      × (c'.output ≡ c.output ++ 0x01 ∷ 0x00 ∷ [])
      × (b ≡ true)
unfolding handle_user_pass_auth
user_pass_sound h c {b} {c'} e =
    let (head, c₁, i₁, l₁, o₁, e₁) = read-bind-eq-ok 2 _ c e in
    let (version, e₂) = refuse_if-bind-eq-ok (not (byte head 0 == 0x01)) _ _ c₁ e₁ in
    let (raw_u, c₂, i₂, l₂, o₂, e₃) = read-bind-eq-ok _ _ c₁ e₂ in
    let (u, eu, e₄) = or_fail-bind-eq-ok _ _ _ c₂ e₃ in
    let (plen, c₃, i₃, l₃, o₃, e₅) = read-bind-eq-ok 1 _ c₂ e₄ in
    let (raw_p, c₄, i₄, l₄, o₄, e₆) = read-bind-eq-ok _ _ c₃ e₅ in
    let (p, ep, e₇) = or_fail-bind-eq-ok _ _ _ c₄ e₆ in
    let (c₅, i₅, o₅, e₈) = write-bind-eq-ok _ _ c₄ e₇ in
    let (valid, eb, ec) = report-eq-ok _ _ c₅ e₈ in
    let pieces =
      auth_message_of_pieces head raw_u plen raw_p _ _ _ _ _ i₁ l₁ version i₂ l₂ i₃ l₃ i₄ l₄ in
    (
      u,
      p,
      input_of_pieces _ u p raw_u raw_p _ c₅ c' pieces (from_utf8_sound raw_u eu)
          (from_utf8_sound raw_p ep) i₅ ec,
      valid,
      output_of_pieces _ _ _ _ _ _ c₅ c' o₁ o₂ o₃ o₄ o₅ valid ec,
      eb,
    )

-- The handshake answers a greeting with the method that it selects, and goes on with that method.
pub handshake_answer :
    (h : Socks5Handler) (auth_required : Bool) (methods rest output : Bytes) (k : ℕ)
    (m : ServerMetrics)
    → 0 < length methods
    → let selected = select_method auth_required (map auth_method methods) in
      handle_handshake h auth_required (conn (greeting methods ++ rest) output (suc k) m)
      ≡ finish_handshake h selected (conn rest (output ++ 0x05 ∷ method_code selected ∷ []) k m)
unfolding handle_handshake ◌>>=◌ refuse_if
handshake_answer h auth_required methods rest output k m some_method =
    let nonzero : (length methods == 0) ≡ false = ground arith in simp (stream_laws, nonzero)
