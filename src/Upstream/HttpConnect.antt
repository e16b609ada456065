-- ===== src/Upstream/HttpConnect.antt =====
-- `http_connect_handshake`: CONNECT through an HTTP proxy. Base64 is a parameter, and so is the
-- number of bytes that the `BufReader` holds when `into_inner` drops it, which depends on how the
-- proxy's bytes arrive.
pub mod Answer
mod Tests
use rust_socksd.Prelude.{
  ℕ, zero, suc, Bool, true, false, not, List, [], ◌∷◌, ◌++◌, Option, none, some, Bytes, lit, ◌==◌,
  if◌then◌else◌, length, ok, err, is_empty,
}
use rust_socksd.Text.{decimal, from_utf8, starts_with, split_whitespace, parse_uint, trim}
use rust_socksd.Stream.{Conn, Io, pure, fail, refuse_if, or_fail, write_all, ◌>>=◌, ◌>>◌}
use rust_socksd.Upstream.Handshake.{both}

-- A line with its newline, or what is left, and what follows.
unfoldable pub take_line : Bytes → Bytes × Bytes
take_line [] = ([], [])
take_line (x ∷ s) =
    let later = take_line s in if x == 0x0A then (x ∷ [], s) else (x ∷ later.0, later.1)

abbrev pub as_text : Option Bytes → Bytes → Io Bytes
as_text none rest c = (err (lit "stream did not contain valid UTF-8"), record c { input = rest })
as_text (some text) rest c = (ok text, record c { input = rest })

-- `read_line` into an empty string
unfoldable pub read_line : Io Bytes
unfolding take_line
read_line c = as_text (from_utf8 (take_line c.input).0) (take_line c.input).1 c

-- The loop over the header lines up to a blank one, on fuel.
unfoldable pub skip_headers : ℕ → Io (Unit {0})
skip_headers zero = fail (lit "out of fuel")
skip_headers (suc fuel) =
    read_line >>= λ header. if is_empty (trim header) then pure tt else skip_headers fuel

-- Each line that is not blank takes a byte of the input.
unfoldable pub skip_all_headers : Io (Unit {0})
unfolding skip_headers
skip_all_headers c = skip_headers (suc (length c.input)) c

abbrev second : List Bytes → Option Bytes
second [] = none
second (a ∷ []) = none
second (a ∷ b ∷ rest) = some b

unfoldable pub drop_bytes : ℕ → Bytes → Bytes
drop_bytes zero s = s
drop_bytes (suc n) [] = []
drop_bytes (suc n) (x ∷ s) = drop_bytes n s

-- `reader.into_inner()`
unfoldable pub into_inner : ℕ → Io (Unit {0})
unfolding drop_bytes
into_inner buffered c = (ok tt, record c { input = drop_bytes buffered c.input })

module _ (encode : Bytes → Bytes) where
  abbrev auth_header : Option (Bytes × Bytes) → Bytes
  auth_header none = []
  auth_header (some (u, p)) =
      lit "Proxy-Authorization: Basic " ++ encode (u ++ b':' ∷ p) ++ lit "\r\n"

  unfoldable pub connect_message : Bytes → ℕ → Option (Bytes × Bytes) → Bytes
  connect_message target_host target_port creds =
      let target = target_host ++ b':' ∷ decimal target_port in
      lit "CONNECT "
      ++ target
      ++ lit " HTTP/1.1\r\nHost: "
      ++ target
      ++ lit "\r\n"
      ++ auth_header creds
      ++ lit "\r\n"

  unfoldable pub http_connect_handshake :
      ℕ → Bytes → ℕ → Option Bytes → Option Bytes → Io (Unit {0})
  unfolding connect_message skip_all_headers into_inner
  http_connect_handshake buffered target_host target_port username password = do
    write_all (connect_message target_host target_port (both username password))
    response_line ← read_line
    refuse_if (not (starts_with (lit "HTTP/") response_line))
        (lit "Invalid HTTP proxy response: " ++ response_line)
    status ←
        or_fail (second (split_whitespace response_line)) (lit "Invalid HTTP response status line")
    status_code ← or_fail (parse_uint 65535 status) (lit "invalid digit found in string")
    refuse_if (not (status_code == 200))
        (lit "HTTP proxy returned status code: " ++ decimal status_code)
    skip_all_headers
    into_inner buffered
