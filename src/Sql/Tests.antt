-- ===== src/Sql/Tests.antt =====
-- A database with one user.
use rust_socksd.Prelude.{
  ◌≡◌, refl, true, false, none, some, lit, ok, err, eq_bytes, [], ◌∷◌, if◌then◌else◌,
}
use rust_socksd.Text.{Unicode, to_lowercase}
use rust_socksd.Config.{bcrypt}
use rust_socksd.Users.{Hashing}
use rust_socksd.Sql.{Pool, Drivers, SqlAuthenticator, mysql, connect_backend, create, authenticate}

instance abbrev unicode : Unicode
unicode = record { lower = λ s. s; upper = λ s. s }

abbrev pool : Pool
pool query username = if eq_bytes username (lit "al") then ok (some (lit "$pw")) else ok none

abbrev drivers : Drivers
drivers = record { mysql_connect = λ url. ok pool; postgres_connect = λ url. err (lit "refused") }

abbrev hashing : Hashing
hashing = record {
  hash = λ seed t password. err [];
  verify = λ t password hash. eq_bytes (b'$' ∷ password) hash;
}

abbrev backend : SqlAuthenticator
backend = record { backend = mysql pool; query = lit "q"; hash_type = bcrypt }

connects : create drivers (lit "MySQL") (lit "u") (lit "q") bcrypt ≡ ok backend
unfolding create to_lowercase eq_bytes connect_backend
connects = refl

no_driver :
    create drivers (lit "sqlite") (lit "u") (lit "q") bcrypt
    ≡ err (lit "Unsupported database type: sqlite")
unfolding create to_lowercase eq_bytes connect_backend
no_driver = refl

lets_in : authenticate hashing backend (lit "al") (lit "pw") ≡ ok true
unfolding authenticate eq_bytes
lets_in = refl

refuses : authenticate hashing backend (lit "bo") (lit "pw") ≡ ok false
unfolding authenticate eq_bytes
refuses = refl
