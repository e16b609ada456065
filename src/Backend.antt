-- ===== src/Backend.antt =====
-- The backend that a configuration names: `create_authenticator` of src/admin.rs, which
-- `ProxyServer::create` of src/server.rs repeats.
use rust_socksd.Prelude.{true, false, Option, none, some, Result, ok, ◌>>=◌}
use rust_socksd.Text.{Unicode}
use rust_socksd.Auth.{Authenticator}
use rust_socksd.Config.{Config, AuthBackendConfig, simple, pam, ldap, database, no_backend}
use rust_socksd.Users.{Hashing, simple_authenticator}
use rust_socksd.Files.{Disk, Yaml, load_users}
use rust_socksd.Ldap.Login.{Directory, ldap_authenticator}
use rust_socksd.Sql.{Drivers, sql_authenticator}
use rust_socksd.Sql
use rust_socksd.Pam.{PamLibrary, pam_authenticator}

-- The code that is not the program's.
pub record Backends : Type 0 where
  pub yaml : Yaml
  pub hashing : Hashing
  pub directory : Directory
  pub drivers : Drivers
  pub pam_library : PamLibrary

module _ ⦃u : Unicode⦄ (b : Backends) where
  unfoldable pub create_backend : AuthBackendConfig → Disk → Result (Option Authenticator)
  create_backend (simple user_config_file) disk =
      load_users b.yaml user_config_file disk >>= λ users.
      ok (some (simple_authenticator b.hashing users))
  create_backend (pam service) disk = ok (some (pam_authenticator b.pam_library service))
  create_backend (ldap config) disk = ok (some (ldap_authenticator b.directory config))
  create_backend (database config) disk =
      Sql.create b.drivers config.db_type config.url config.query config.hash_type >>= λ a.
      ok (some (sql_authenticator b.hashing a))
  create_backend no_backend disk = ok none

  unfoldable pub create_authenticator : Config → Disk → Result (Option Authenticator)
  unfolding create_backend
  create_authenticator config disk = elim config.auth.enabled [
    | true ↦ create_backend config.auth.backend disk
    | false ↦ ok none
  ]
