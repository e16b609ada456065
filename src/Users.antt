-- ===== src/Users.antt =====
-- The user file, src/config/user_config.rs, and the backend on it, src/auth/simple.rs. The password
-- hashes are a parameter: what `argon2`, `bcrypt` and `scrypt` make of a password and a source of
-- salt, and whether a password fits a hash. The time is a text that the caller gives.
pub mod Access
pub mod Validity
mod Tests
use rust_socksd.Prelude.{
  ℕ, Bool, true, false, not, List, [], ◌∷◌, ◌++◌, Option, none, some, Bytes, lit, Result, ok, err,
  ◌>>=◌, ◌>>◌, refuse_if, is_empty,
}
use rust_socksd.Map.{lookup, insert, remove, bytes_key}
use rust_socksd.Auth.{Authenticator}
use rust_socksd.Config.{HashType, argon2}

pub record UserEntry : Type 0 where
  pub password_hash : Bytes
  pub salt : Option Bytes
  pub created_at : Bytes
  pub last_modified : Bytes
  pub enabled : Bool

pub record UserConfig : Type 0 where
  pub hash_type : HashType
  pub users : List (Bytes × UserEntry)

-- The hashing libraries. A hash draws its salt from a seed.
pub record Hashing : Type 0 where
  pub hash : ℕ → HashType → Bytes → Result (Bytes × Option Bytes)
  pub verify : HashType → Bytes → Bytes → Bool

-- `UserConfig::default`
abbrev pub empty_config : UserConfig
empty_config = record { hash_type = argon2; users = [] }

-- The loop of `validate`, in some order of the map.
unfoldable pub validate_users : List (Bytes × UserEntry) → Result (Unit {0})
validate_users [] = ok tt
validate_users ((username, user) ∷ rest) =
    refuse_if (is_empty username) (lit "Username cannot be empty") >>= λ _.
    refuse_if (is_empty user.password_hash)
      (lit "Password hash cannot be empty for user: " ++ username)
    >>= λ _. validate_users rest

unfoldable pub validate : UserConfig → Result (Unit {0})
unfolding validate_users
validate c = validate_users c.users

user_exists : Bytes → Bytes
user_exists username = lit "User already exists: " ++ username

user_not_found : Bytes → Bytes
user_not_found username = lit "User not found: " ++ username

module _ (h : Hashing) where
  store_new :
      Bytes → Bytes → Result (Bytes × Option Bytes) → UserConfig → Result (Unit {0}) × UserConfig
  store_new now username (err e) c = (err e, c)
  store_new now username (ok (password_hash, salt)) c = (
    ok tt,
    record c {
      users =
          insert username
            (record {
              password_hash = password_hash;
              salt = salt;
              created_at = now;
              last_modified = now;
              enabled = true;
            })
            c.users;
    },
  )

  unfoldable pub add_user : ℕ → Bytes → Bytes → Bytes → UserConfig → Result (Unit {0}) × UserConfig
  unfolding store_new user_exists
  add_user seed now username password c = elim (lookup username c.users) [
    | some user ↦ (err (user_exists username), c)
    | none ↦ store_new now username (h.hash seed c.hash_type password) c
  ]

  store_password :
      Bytes
      → Bytes
      → Bytes × Option Bytes
      → Option UserEntry
      → UserConfig
      → Result (Unit {0}) × UserConfig
  unfolding user_not_found
  store_password now username hashed none c = (err (user_not_found username), c)
  store_password now username (password_hash, salt) (some user) c = (
    ok tt,
    record c {
      users =
          insert username
            (record user { password_hash = password_hash; salt = salt; last_modified = now })
            c.users;
    },
  )

  store_hashed :
      Bytes → Bytes → Result (Bytes × Option Bytes) → UserConfig → Result (Unit {0}) × UserConfig
  unfolding store_password
  store_hashed now username (err e) c = (err e, c)
  store_hashed now username (ok hashed) c =
      store_password now username hashed (lookup username c.users) c

  unfoldable pub update_password :
      ℕ → Bytes → Bytes → Bytes → UserConfig → Result (Unit {0}) × UserConfig
  unfolding store_hashed
  update_password seed now username new_password c =
      store_hashed now username (h.hash seed c.hash_type new_password) c

  -- Whether an entry takes a password.
  unfoldable pub entry_takes : HashType → Option UserEntry → Bytes → Bool
  entry_takes t none password = false
  entry_takes t (some user) password = elim user.enabled [
    | true ↦ h.verify t password user.password_hash
    | false ↦ false
  ]

  unfoldable pub verify_password : UserConfig → Bytes → Bytes → Bool
  unfolding entry_takes
  verify_password c username password = entry_takes c.hash_type (lookup username c.users) password

  -- `SimpleAuthenticator`
  abbrev pub simple_authenticator : UserConfig → Authenticator
  simple_authenticator c = record {
    authenticate = λ username password. ok (verify_password c username password);
  }

unfoldable pub remove_user : Bytes → UserConfig → Result (Unit {0}) × UserConfig
unfolding user_not_found
remove_user username c = elim (lookup username c.users) [
  | none ↦ (err (user_not_found username), c)
  | some user ↦ (ok tt, record c { users = remove username c.users })
]

unfoldable pub enable_user : Bytes → Bytes → Bool → UserConfig → Result (Unit {0}) × UserConfig
unfolding user_not_found
enable_user now username enabled c = elim (lookup username c.users) [
  | none ↦ (err (user_not_found username), c)
  | some user ↦ (
    ok tt,
    record c {
      users = insert username (record user { enabled = enabled; last_modified = now }) c.users;
    },
  )
]
