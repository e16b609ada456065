-- ===== src/Sql.antt =====
-- The SQL backend, src/auth/sql.rs: the choice of the driver and the check of the hash that the
-- query finds. The drivers are a parameter: a pool answers a query with a username.
mod Tests
use rust_socksd.Prelude.{
  Bool, true, false, ◌||◌, List, [], ◌∷◌, ◌++◌, Option, none, some, Bytes, lit, Result, ok, err,
  ◌>>=◌, eq_bytes,
}
use rust_socksd.Text.{Unicode, to_lowercase}
use rust_socksd.Auth.{Authenticator}
use rust_socksd.Config.{HashType}
use rust_socksd.Users.{Hashing}

abbrev pub Pool : Type 0
Pool = Bytes → Bytes → Result (Option Bytes)

pub record Drivers : Type 0 where
  pub mysql_connect : Bytes → Result Pool
  pub postgres_connect : Bytes → Result Pool

pub data DatabaseBackend : Type 0 where
  mysql postgres : Pool → DatabaseBackend

pub record SqlAuthenticator : Type 0 where
  pub backend : DatabaseBackend
  pub query : Bytes
  pub hash_type : HashType

-- `map_err`
abbrev pub with_context {ℓ} : {A : Type ℓ} → Bytes → Result A → Result A
with_context message (ok a) = ok a
with_context message (err e) = err (message ++ e)

-- The name of a driver, in lower case.
unfoldable pub connect_backend : Drivers → Bytes → Bytes → Bytes → Result DatabaseBackend
connect_backend drivers db_type kind url = elim (eq_bytes kind (lit "mysql")) [
  | true ↦
      with_context (lit "Failed to connect to MySQL database: ") (drivers.mysql_connect url)
      >>= λ pool. ok (mysql pool)
  | false ↦
      elim (eq_bytes kind (lit "postgres")
        || (eq_bytes kind (lit "pgsql") || eq_bytes kind (lit "postgresql"))) [
          | true ↦
              with_context (lit "Failed to connect to Postgres database: ")
                (drivers.postgres_connect url)
              >>= λ pool. ok (postgres pool)
          | false ↦ err (lit "Unsupported database type: " ++ db_type)
        ]
]

-- `SqlAuthenticator::new`
unfoldable pub create :
    ⦃u : Unicode⦄ → Drivers → Bytes → Bytes → Bytes → HashType → Result SqlAuthenticator
create drivers db_type url query hash_type =
    connect_backend drivers db_type (to_lowercase db_type) url >>= λ backend.
    ok (record { backend = backend; query = query; hash_type = hash_type })

unfoldable pub run_query : DatabaseBackend → Bytes → Bytes → Result (Option Bytes)
run_query (mysql pool) query username = pool query username
run_query (postgres pool) query username = pool query username

unfoldable pub check_hash : Hashing → HashType → Result (Option Bytes) → Bytes → Result Bool
check_hash h t (ok (some hash)) password = ok (h.verify t password hash)
check_hash h t (ok none) password = ok false
check_hash h t (err e) password = ok false

unfoldable pub authenticate : Hashing → SqlAuthenticator → Bytes → Bytes → Result Bool
unfolding run_query check_hash
authenticate h a username password =
    check_hash h a.hash_type (run_query a.backend a.query username) password

abbrev pub sql_authenticator : Hashing → SqlAuthenticator → Authenticator
sql_authenticator h a = record { authenticate = authenticate h a }
