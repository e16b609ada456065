-- ===== src/Pam.antt =====
-- The PAM backend, src/auth/pam.rs. The library and the thread that calls it are a parameter: a
-- service is opened and then asked, and the thread may panic.
use rust_socksd.Prelude.{Bool, true, false, ◌++◌, Bytes, lit, Result, ok, err}
use rust_socksd.Auth.{Authenticator}

pub record PamLibrary : Type 0 where
  pub with_password : Bytes → Result (Bytes → Bytes → Result (Unit {0}))
  pub spawn_blocking : Result Bool → Result (Result Bool)

abbrev is_ok {ℓ} : {A : Type ℓ} → Result A → Bool
is_ok (ok a) = true
is_ok (err e) = false

unfoldable pub ask_service :
    Bytes → Result (Bytes → Bytes → Result (Unit {0})) → Bytes → Bytes → Result Bool
ask_service service (err e) username password =
    err (lit "Failed to initialize PAM for service '" ++ service ++ lit "': " ++ e)
ask_service service (ok auth) username password = ok (is_ok (auth username password))

unfoldable pub joined : Result (Result Bool) → Result Bool
joined (ok auth_result) = auth_result
joined (err join_err) = err (lit "PAM task panicked: " ++ join_err)

-- `PamAuthenticator`
abbrev pub pam_authenticator : PamLibrary → Bytes → Authenticator
pam_authenticator p service = record {
  authenticate = λ username password.
      joined (p.spawn_blocking (ask_service service (p.with_password service) username password));
}
