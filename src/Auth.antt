-- ===== src/Auth.antt =====
-- The interface of the authentication backends, src/auth/mod.rs.
use rust_socksd.Prelude.{Bool, Bytes, Result}

-- `ok true` if the password is right, `ok false` if it is not, an error if that cannot be told.
pub record Authenticator : Type 0 where
  pub authenticate : Bytes → Bytes → Result Bool
