-- ===== src/HttpProxy/Secrets.antt =====
-- Credentials at the HTTP side: who is let in, and that they do not reach the target.
use rust_socksd.Prelude.{
  ◌≡◌, refl, ap, sym, ◌∙◌, Bool, true, false, not, ◌&&◌, List, [], ◌∷◌, ◌++◌, Option, none, some,
  Bytes, lit, Result, ok, err, eq_bytes, if◌then◌else◌, Bool-cases, Option-cases, inl, inr,
}
use rust_socksd.Map.{remove, bytes_key}
use rust_socksd.Auth.{Authenticator}
use rust_socksd.Config.{Config}
use rust_socksd.Stream.{Conn}
use rust_socksd.HttpProxy.{
  HttpRequest, credentials, judge, ask_backend, validate_auth, forwarded, request_data,
}

abbrev secret : Bytes
secret = lit "proxy-authorization"

dropped :
    (a : Bool) (name : Bytes) (shown rest : Bytes)
    → eq_bytes name secret ≡ true
    → (if a && not (eq_bytes name secret) then shown else []) ++ rest ≡ rest
dropped true name shown rest e = rw e refl
dropped false name shown rest e = refl

taken : (b : Bool) (x y : List (Bytes × Bytes)) → b ≡ true → (if b then x else y) ≡ x
taken true x y h = refl
taken false x y h = cc

left : (b : Bool) (x y : List (Bytes × Bytes)) → b ≡ false → (if b then x else y) ≡ y
left true x y h = cc
left false x y h = refl

forwarded-remove :
    (headers : List (Bytes × Bytes)) → forwarded (remove secret headers) ≡ forwarded headers
unfolding forwarded remove
forwarded-remove [] = refl
forwarded-remove ((name, value) ∷ headers) = elim (Bool-cases (eq_bytes name secret)) [
  | inl same ↦
      ap forwarded (taken _ _ _ same)
      ∙ (forwarded-remove headers
          ∙ sym (
              dropped (not (eq_bytes name (lit "proxy-connection"))) name
                (name ++ lit ": " ++ value ++ lit "\r\n") (forwarded headers) same))
  | inr other ↦
      ap forwarded (left _ _ _ other)
      ∙ ap
          (λ t.
            (if not (eq_bytes name (lit "proxy-connection")) && not (eq_bytes name secret)
              then name ++ lit ": " ++ value ++ lit "\r\n"
              else [])
            ++ t)
          (forwarded-remove headers)
]

-- What is sent to the target does not depend on the client's credentials for the proxy: it is the
-- same with that header left out.
pub request_data_secret :
    (r : HttpRequest)
    → request_data r
      ≡ request_data (record r { headers = remove (lit "proxy-authorization") r.headers })
unfolding request_data
request_data_secret r = rw (forwarded-remove r.headers) refl

judged : (counted : Bool) (r : Result Bool) (c : Conn) → (judge counted r c).0 ≡ true → r ≡ ok true
unfolding judge
judged counted (ok true) c h = refl
judged counted (ok false) c h = cc
judged counted (err e) c h = cc

asked :
    (authenticator : Option Authenticator) (counted : Bool) (username password : Bytes) (c : Conn)
    → (ask_backend authenticator counted (username, password) c).0 ≡ true
    → (auth : Authenticator) × (authenticator ≡ some auth)
      × (auth.authenticate username password ≡ ok true)
unfolding ask_backend
asked none counted username password c h = cc
asked (some auth) counted username password c h =
    (auth, refl, judged counted (auth.authenticate username password) c h)

-- With authentication enabled a request is let in only if it carries credentials that the backend
-- accepts.
pub validate_auth_sound :
    (decode : Bytes → Option Bytes) (config : Config) (authenticator : Option Authenticator)
    (counted : Bool) (request : HttpRequest) (c : Conn)
    → config.auth.enabled ≡ true
    → (validate_auth decode config authenticator counted request c).0 ≡ true
    → (auth : Authenticator) × (username : Bytes) × (password : Bytes) × (authenticator ≡ some auth)
      × (credentials decode request ≡ some (username, password))
      × (auth.authenticate username password ≡ ok true)
unfolding validate_auth
validate_auth_sound decode config authenticator counted request c on h =
    elim (Option-cases (credentials decode request)) [
      | inl missing ↦ cc (rw (on, missing, validate_auth) at h)
      | inr ((username, password), found) ↦
          let (auth, given, accepted) =
            asked authenticator counted username password c (rw (on, found, validate_auth) at h) in
          (auth, username, password, given, found, accepted)
    ]
