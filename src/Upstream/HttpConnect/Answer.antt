-- ===== src/Upstream/HttpConnect/Answer.antt =====
-- The client against a proxy that accepts.
use rust_socksd.Prelude.{
  ℕ, zero, suc, ◌+◌, ◌<◌, ◌≡◌, refl, true, false, List, [], ◌∷◌, ◌++◌, Option, some, Bytes, lit, ok,
  length, length-append, is_empty, arith, ◌==◌, Bool-cases, inl, inr,
}
use rust_socksd.Text.{from_utf8, starts_with, split_whitespace, parse_uint, trim, contains_byte}
use rust_socksd.Metrics.{ServerMetrics}
use rust_socksd.Stream.{conn, refuse_if, or_fail, ◌>>=◌, write_all-suc}
use rust_socksd.Upstream.Handshake.{both}
use rust_socksd.Upstream.HttpConnect.{
  take_line, read_line, skip_headers, skip_all_headers, drop_bytes, into_inner, connect_message,
  http_connect_handshake,
}

-- A header as the client can read it: text on one line that is not blank.
pub record IsHeader (line : Bytes) : Type 0 where
  pub one_line : contains_byte 0x0A line ≡ false
  pub text : from_utf8 (line ++ 0x0A ∷ []) ≡ some (line ++ 0x0A ∷ [])
  pub not_blank : is_empty (trim (line ++ 0x0A ∷ [])) ≡ false

abbrev pub AreHeaders : List Bytes → Type 0
AreHeaders [] = Unit {0}
AreHeaders (l ∷ ls) = IsHeader l × AreHeaders ls

-- The lines, each with its newline, in front of a text.
abbrev pub lines_onto : List Bytes → Bytes → Bytes
lines_onto [] rest = rest
lines_onto (l ∷ ls) rest = l ++ 0x0A ∷ lines_onto ls rest

take_line-append :
    (line rest : Bytes)
    → contains_byte 0x0A line ≡ false
    → take_line (line ++ 0x0A ∷ rest) ≡ (line ++ 0x0A ∷ [], rest)
unfolding take_line contains_byte
take_line-append [] rest h = refl
take_line-append (x ∷ line) rest h = elim (Bool-cases (x == 0x0A)) [
  | inl e ↦ cc (rw (e, contains_byte) at h)
  | inr e ↦ rw (e, take_line, take_line-append line rest (rw (e, contains_byte) at h)) refl
]

enough :
    (lines : List Bytes) (n : ℕ) (behind : Bytes)
    → n < length behind + 1
    → length lines + n < length (lines_onto lines behind) + 1
enough [] n behind le = omega (arith, le)
enough (l ∷ ls) n behind le =
    omega (arith, enough ls n behind le, length-append l (0x0A ∷ lines_onto ls behind))

module _ (output : Bytes) (k : ℕ) (m : ServerMetrics) where
  read_header :
      (line behind : Bytes)
      → IsHeader line
      → read_line (conn (line ++ 0x0A ∷ behind) output k m)
        ≡ (ok (line ++ 0x0A ∷ []), conn behind output k m)
  unfolding read_line
  read_header line behind h = rw (read_line, take_line-append line behind h.one_line, h.text) refl

  module _ (rest : Bytes) where
    skip_lines :
        (lines : List Bytes) (fuel : ℕ)
        → AreHeaders lines
        → length lines < fuel
        → skip_headers fuel (conn (lines_onto lines (0x0D ∷ 0x0A ∷ rest)) output k m)
          ≡ (ok tt, conn rest output k m)
    unfolding skip_headers ◌>>=◌ read_line trim from_utf8
    skip_lines lines zero hs le = absurd (omega (arith, le))
    skip_lines [] (suc fuel) hs le = refl
    skip_lines (l ∷ ls) (suc fuel) hs le =
        let (h, hs') = hs in
        simp (
          read_header l (lines_onto ls (0x0D ∷ 0x0A ∷ rest)) h,
          h.not_blank,
          skip_lines ls fuel hs' (omega (arith, le)),
        )

-- A status line that accepts: of any version of HTTP, with status 200 and any reason.
pub record Accepts (line : Bytes) : Type 0 where
  pub readable : IsHeader line
  pub http : starts_with (lit "HTTP/") (line ++ 0x0A ∷ []) ≡ true
  pub version : Bytes
  pub code : Bytes
  pub reason : List Bytes
  pub words : split_whitespace (line ++ 0x0A ∷ []) ≡ version ∷ code ∷ reason
  pub status : parse_uint 65535 code ≡ some 200

module _ (encode : Bytes → Bytes) (buffered : ℕ) (host : Bytes) (port : ℕ)
    (username password : Option Bytes) (status_line : Bytes) (lines : List Bytes)
    (rest output : Bytes) (k : ℕ) (m : ServerMetrics) where
  -- A proxy that accepts, by a status line of HTTP with status 200 and any reason and with any
  -- headers: the handshake succeeds after one message, the headers are passed over, and of what the
  -- proxy sends next the bytes that the reader holds are lost.
  pub connect_accepted :
      Accepts status_line
      → AreHeaders lines
      → http_connect_handshake encode buffered host port username password
          (conn (status_line ++ 0x0A ∷ lines_onto lines (0x0D ∷ 0x0A ∷ rest)) output (suc k) m)
        ≡ (
          ok tt,
          conn
              (drop_bytes buffered rest)
              (output ++ connect_message encode host port (both username password))
              k
              m,
        )
  unfolding http_connect_handshake ◌>>=◌ refuse_if or_fail skip_all_headers into_inner
  connect_accepted a hs =
      let behind = lines_onto lines (0x0D ∷ 0x0A ∷ rest) in
      let sent = output ++ connect_message encode host port (both username password) in
      let fuel : length lines < suc (length behind) =
        omega (arith, enough lines 0 (0x0D ∷ 0x0A ∷ rest) (omega arith)) in
      simp (
        write_all-suc,
        read_header sent k m status_line behind a.readable,
        a.http,
        a.words,
        a.status,
        skip_lines sent k m rest lines (suc (length behind)) hs fuel,
      )
