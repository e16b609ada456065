-- ===== src/HttpProxy.antt =====
-- The HTTP server side, src/http_proxy.rs: reading a request, its target, and its credentials.
-- Base64 is a parameter. Of a reader that is limited (`take`) the model keeps how much it may still
-- read.
pub mod Limits
pub mod Secrets
pub mod Fuel
pub mod Forward
mod Tests
use rust_socksd.Prelude.{
  ℕ, zero, suc, ◌+◌, ◌-◌, Bool, true, false, not, ◌&&◌, ◌||◌, List, [], ◌∷◌, ◌++◌, Option, none,
  some, Bytes, lit, Result, ok, err, ◌==◌, if◌then◌else◌, length, take, is_empty, eq_bytes,
}
use rust_socksd.Text.{
  Unicode, decimal, from_utf8, split, split_first, split_once, split_whitespace, strip_prefix,
  starts_with, parse_uint, trim, to_lowercase, to_uppercase,
}
use rust_socksd.Map.{lookup, insert, bytes_key}
use rust_socksd.Auth.{Authenticator}
use rust_socksd.Config.{Config}
use rust_socksd.Stream.{Conn, Io, write_all}
use rust_socksd.Socks5.{count_auth_failure}
use rust_socksd.Upstream.HttpConnect.{take_line, drop_bytes}

pub record HttpRequest : Type 0 where
  pub method : Bytes
  pub uri : Bytes
  pub version : Bytes
  pub headers : List (Bytes × Bytes)

abbrev pub Reading : Type 0
Reading = ℕ × Conn

abbrev pub line_text : Option Bytes → Result Bytes
line_text none = err (lit "stream did not contain valid UTF-8")
line_text (some text) = ok text

-- The line that stands in front within the limit.
unfoldable pub next_line : Reading → Bytes
unfolding take_line take
next_line (left, c) = (take_line (take left c.input)).0

-- `limited.read_line`
unfoldable pub read_limited : Reading → Result Bytes × Reading
unfolding next_line drop_bytes
read_limited (left, c) =
    let line = next_line (left, c) in
    (
      line_text (from_utf8 line),
      (left - length line, record c { input = drop_bytes (length line) c.input }),
    )

unfoldable pub too_long : Bytes
too_long = lit "Request size exceeds limit"

module _ ⦃u : Unicode⦄ where
  unfoldable pub is_connect : HttpRequest → Bool
  is_connect r = eq_bytes (to_uppercase r.method) (lit "CONNECT")

  -- A header line of the map; one without a colon is dropped.
  unfoldable pub add_header : Bytes → List (Bytes × Bytes) → List (Bytes × Bytes)
  add_header line headers = elim (split_once b':' line) [
    | none ↦ headers
    | some (name, value) ↦ insert (to_lowercase (trim name)) (trim value) headers
  ]

  -- The loop over the headers, on fuel; a line of no bytes is the end of the input.
  unfoldable pub read_headers :
      ℕ → List (Bytes × Bytes) → Reading → Result (List (Bytes × Bytes)) × Reading
  unfolding read_limited too_long
  read_headers zero headers r = (err (lit "out of fuel"), r)
  read_headers (suc fuel) headers r =
      let (text, r') = read_limited r in
      elim text [
        | err e ↦ (err e, r')
        | ok line ↦ elim (r'.0 == 0) [
          | true ↦ (err too_long, r')
          | false ↦ elim (is_empty line || is_empty (trim line)) [
            | true ↦ (ok headers, r')
            | false ↦ read_headers fuel (add_header (trim line) headers) r'
          ]
        ]
      ]

  finish_request :
      Bytes → Bytes → Bytes → Result (List (Bytes × Bytes)) × Reading → Result HttpRequest × Reading
  finish_request method uri version (err e, r) = (err e, r)
  finish_request method uri version (ok headers, r) =
      (ok (record { method = method; uri = uri; version = version; headers = headers }), r)

  -- The three parts of the request line, then the headers. Each header line but the last takes a
  -- byte of the limit.
  read_parts : List Bytes → Reading → Result HttpRequest × Reading
  unfolding finish_request read_headers
  read_parts (method ∷ uri ∷ version ∷ []) r =
      finish_request method uri version (read_headers (suc r.0) [] r)
  read_parts parts r = (err (lit "Invalid HTTP request line format"), r)

  unfoldable pub read_request : Reading → Result HttpRequest × Reading
  unfolding read_parts read_limited too_long
  read_request r =
      let (text, r') = read_limited r in
      elim text [
        | err e ↦ (err e, r')
        | ok line ↦
            if is_empty line
            then (err (lit "Empty HTTP request line"), r')
            else if r'.0 == 0
            then (err too_long, r')
            else read_parts (split_whitespace (trim line)) r'
      ]

  unfoldable pub handle_request : Config → Conn → Result HttpRequest × Conn
  unfolding read_request
  handle_request config c =
      let (request, r) = read_request (config.security.max_request_size, c) in (request, r.1)

abbrev with_port : Bytes → Option ℕ → Bytes → Result (Bytes × ℕ)
with_port host (some port) message = ok (host, port)
with_port host none message = err message

connect_parts : Bytes → List Bytes → Result (Bytes × ℕ)
connect_parts uri (host ∷ port ∷ []) =
    with_port host (parse_uint 65535 port) (lit "Invalid port in CONNECT URI: " ++ port)
connect_parts uri parts = err (lit "Invalid CONNECT URI format: " ++ uri)

unfoldable pub parse_connect_uri : HttpRequest → Result (Bytes × ℕ)
unfolding connect_parts
parse_connect_uri r = connect_parts r.uri (split b':' r.uri)

abbrev without_scheme : Bytes → Bytes
without_scheme uri = elim (strip_prefix (lit "http://") uri) [
  | some rest ↦ rest
  | none ↦ elim (strip_prefix (lit "https://") uri) [ some rest ↦ rest | none ↦ uri ]
]

proxy_parts : Bytes → List Bytes → Result (Bytes × ℕ)
proxy_parts uri [] = err (lit "Invalid proxy URI format: " ++ uri)
proxy_parts uri ([] ∷ parts) = err (lit "Invalid proxy URI format: " ++ uri)
proxy_parts uri ((x ∷ host) ∷ []) =
    ok (x ∷ host, if starts_with (lit "https://") uri then 443 else 80)
proxy_parts uri ((x ∷ host) ∷ port ∷ parts) =
    with_port (x ∷ host) (parse_uint 65535 port) (lit "Invalid port in proxy URI: " ++ port)

unfoldable pub parse_proxy_uri : HttpRequest → Result (Bytes × ℕ)
unfolding proxy_parts
parse_proxy_uri r = proxy_parts r.uri (split b':' (split_first b'/' (without_scheme r.uri)))

unfoldable pub get_host_port : ⦃u : Unicode⦄ → HttpRequest → Result (Bytes × ℕ)
unfolding is_connect parse_connect_uri parse_proxy_uri
get_host_port r = if is_connect r then parse_connect_uri r else parse_proxy_uri r

-- `username:password`, once decoded
unfoldable pub credentials : (Bytes → Option Bytes) → HttpRequest → Option (Bytes × Bytes)
credentials decode request = elim (lookup (lit "proxy-authorization") request.headers) [
  | none ↦ none
  | some auth_header ↦ elim (strip_prefix (lit "Basic ") auth_header) [
    | none ↦ none
    | some encoded ↦ elim (decode encoded) [
      | none ↦ none
      | some decoded ↦ elim (from_utf8 decoded) [ none ↦ none | some text ↦ split_once b':' text ]
    ]
  ]
]

-- The verdict of the backend; what is not accepted is counted.
judge : Bool → Result Bool → Conn → Bool × Conn
judge counted (ok true) c = (true, c)
judge counted (ok false) c = (false, count_auth_failure counted c)
judge counted (err e) c = (false, count_auth_failure counted c)

ask_backend : Option Authenticator → Bool → Bytes × Bytes → Conn → Bool × Conn
unfolding judge
ask_backend none counted creds c = (false, c)
ask_backend (some auth) counted (username, password) c =
    judge counted (auth.authenticate username password) c

unfoldable pub validate_auth :
    (Bytes → Option Bytes) → Config → Option Authenticator → Bool → HttpRequest → Conn → Bool × Conn
unfolding ask_backend credentials
validate_auth decode config authenticator counted request c =
    if not config.auth.enabled then (true, c) else elim (credentials decode request) [
      | none ↦ (false, c)
      | some creds ↦ ask_backend authenticator counted creds c
    ]

-- `handle_regular_proxy`, the headers that go on to the target
unfoldable pub forwarded : List (Bytes × Bytes) → Bytes
forwarded [] = []
forwarded ((name, value) ∷ headers) =
    (if not (eq_bytes name (lit "proxy-connection"))
        && not (eq_bytes name (lit "proxy-authorization"))
      then name ++ lit ": " ++ value ++ lit "\r\n"
      else [])
    ++ forwarded headers

unfoldable pub request_data : HttpRequest → Bytes
unfolding forwarded
request_data r =
    r.method
    ++ b' ' ∷ (r.uri ++ b' ' ∷ (r.version ++ lit "\r\n" ++ forwarded r.headers ++ lit "\r\n"))

unfoldable pub error_text : ℕ → Bytes → Bytes
error_text status_code message =
    lit "HTTP/1.1 "
    ++ decimal status_code
    ++ lit " "
    ++ message
    ++ lit "\r\nContent-Length: "
    ++ decimal (length message)
    ++ lit "\r\nConnection: close\r\n\r\n"
    ++ message

unfoldable pub send_error_response : ℕ → Bytes → Io (Unit {0})
unfolding error_text
send_error_response status_code message = write_all (error_text status_code message)
