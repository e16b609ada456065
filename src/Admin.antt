-- ===== src/Admin.antt =====
-- The admin interface, src/admin.rs: requests, responses and who is let in. JSON and Base64 are
-- parameters.
pub mod Tokens
pub mod Endpoints
pub mod Routes
pub mod Mask
pub mod Fuel
use rust_socksd.Prelude.{
  ℕ, zero, suc, ◌*◌, Bool, true, false, List, [], ◌∷◌, ◌++◌, Option, none, some, Bytes, lit, Result,
  ok, err, ltb, length, is_empty, eq_bytes,
}
use rust_socksd.Text.{
  Unicode, decimal, from_utf8, split_once, split_whitespace, strip_prefix, parse_uint, trim,
  to_uppercase,
}
use rust_socksd.Map.{lookup, bytes_key}
use rust_socksd.Config.{Config}
use rust_socksd.Stream.{Conn, Io, write_all, read_exact}
use rust_socksd.HttpProxy.{Reading, read_limited, add_header}
use Tokens.{TokenStore, validate_token}

pub record AdminRequest : Type 0 where
  pub method : Bytes
  pub path : Bytes
  pub headers : List (Bytes × Bytes)
  pub body : Bytes

abbrev pub max_admin_request_size : ℕ
max_admin_request_size = 1024 * 1024

-- The body, whose limit is its own length.
read_body_of : Option ℕ → Conn → Result Bytes × Conn
read_body_of none c = (ok [], c)
read_body_of (some cl) c = elim (ltb max_admin_request_size cl) [
  | true ↦ (err (lit "Request body exceeds limit (" ++ decimal cl ++ lit " bytes)"), c)
  | false ↦ read_exact cl c
]

-- A length that is not a number is taken for none.
abbrev content_length : List (Bytes × Bytes) → Option ℕ
content_length headers = elim (lookup (lit "content-length") headers) [
  | none ↦ none
  | some cl_str ↦ parse_uint 18_446_744_073_709_551_615 cl_str
]

unfoldable pub read_body : List (Bytes × Bytes) → Conn → Result Bytes × Conn
unfolding read_body_of
read_body headers c = read_body_of (content_length headers) c

module _ ⦃u : Unicode⦄ where
  -- The loop over the headers, on fuel. A line of no bytes, at the end of the input or of the limit,
  -- ends it like a blank line.
  unfoldable pub read_headers :
      ℕ → List (Bytes × Bytes) → Reading → Result (List (Bytes × Bytes)) × Reading
  unfolding read_limited add_header
  read_headers zero headers r = (err (lit "out of fuel"), r)
  read_headers (suc fuel) headers r =
      let (text, r') = read_limited r in
      elim text [
        | err e ↦ (err e, r')
        | ok line ↦ elim (is_empty line) [
          | true ↦ (ok headers, r')
          | false ↦ elim (is_empty (trim line)) [
            | true ↦ (ok headers, r')
            | false ↦ read_headers fuel (add_header line headers) r'
          ]
        ]
      ]

  with_body :
      Bytes → Bytes → List (Bytes × Bytes) → Result Bytes × Conn → Result AdminRequest × Conn
  with_body method path headers (err e, c) = (err e, c)
  with_body method path headers (ok body, c) =
      (ok (record { method = method; path = path; headers = headers; body = body }), c)

  with_headers :
      Bytes → Bytes → Result (List (Bytes × Bytes)) × Reading → Result AdminRequest × Conn
  unfolding with_body read_body
  with_headers method path (err e, (left, c)) = (err e, c)
  with_headers method path (ok headers, (left, c)) =
      with_body method path headers (read_body headers c)

  -- Three parts or more.
  unfoldable pub read_parts : Bytes → List Bytes → Reading → Result AdminRequest × Conn
  unfolding with_headers read_headers
  read_parts line (method ∷ path ∷ version ∷ more) r =
      with_headers (to_uppercase method) path (read_headers (suc r.0) [] r)
  read_parts line (method ∷ path ∷ []) r = (err (lit "Invalid request line: " ++ line), r.1)
  read_parts line (method ∷ []) r = (err (lit "Invalid request line: " ++ line), r.1)
  read_parts line [] r = (err (lit "Invalid request line: " ++ line), r.1)

  unfoldable pub read_request : Conn → Result AdminRequest × Conn
  unfolding read_parts read_limited
  read_request c =
      let (text, r) = read_limited (max_admin_request_size, c) in
      elim text [
        | err e ↦ (err e, r.1)
        | ok line ↦ read_parts line (split_whitespace (trim line)) r
      ]

unfoldable pub extra_text : List (Bytes × Bytes) → Bytes
extra_text [] = []
extra_text ((k, v) ∷ headers) = k ++ lit ": " ++ v ++ lit "\r\n" ++ extra_text headers

-- What `send_response` writes.
unfoldable pub response_text : ℕ → Bytes → Bytes → Bytes → List (Bytes × Bytes) → Bytes
unfolding extra_text
response_text status status_text content_type body extra_headers =
    lit "HTTP/1.1 "
    ++ decimal status
    ++ lit " "
    ++ status_text
    ++ lit "\r\nContent-Type: "
    ++ content_type
    ++ lit "\r\nContent-Length: "
    ++ decimal (length body)
    ++ lit "\r\nConnection: close\r\n"
    ++ extra_text extra_headers
    ++ lit "\r\n"
    ++ body

unfoldable pub send_response : ℕ → Bytes → Bytes → Bytes → List (Bytes × Bytes) → Io (Unit {0})
unfolding response_text
send_response status status_text content_type body extra_headers =
    write_all (response_text status status_text content_type body extra_headers)

-- The token of a request.
abbrev pub bearer : AdminRequest → Option Bytes
bearer req = elim (lookup (lit "authorization") req.headers) [
  | none ↦ none
  | some auth_header ↦ strip_prefix (lit "Bearer ") auth_header
]

abbrev pub is_static : Config → Bytes → Bool
is_static config token = elim config.admin.token [
  | none ↦ false
  | some static_token ↦ eq_bytes token static_token
]

abbrev pub is_some {ℓ} : {A : Type ℓ} → Option A → Bool
is_some none = false
is_some (some a) = true

-- Whether a user was found, unless the check panicked.
abbrev pub is_named : Result (Option Bytes) → Result Bool
is_named (ok username) = ok (is_some username)
is_named (err e) = err e

unfoldable pub check_token : Config → ℕ → Option Bytes → TokenStore → Result Bool × TokenStore
unfolding validate_token
check_token config now none store = (ok false, store)
check_token config now (some token) store = elim (is_static config token) [
  | true ↦ (ok true, store)
  | false ↦ let (username, store') = validate_token token now store in (is_named username, store')
]

unfoldable pub authenticate_request :
    AdminRequest → Config → ℕ → TokenStore → Result Bool × TokenStore
unfolding check_token
authenticate_request req config now store = check_token config now (bearer req) store

unfoldable pub parse_basic_auth : (Bytes → Option Bytes) → Bytes → Option (Bytes × Bytes)
parse_basic_auth decode auth_header = elim (strip_prefix (lit "Basic ") auth_header) [
  | none ↦ none
  | some encoded ↦ elim (decode encoded) [
    | none ↦ none
    | some decoded ↦ elim (from_utf8 decoded) [ none ↦ none | some text ↦ split_once b':' text ]
  ]
]
