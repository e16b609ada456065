-- ===== src/Cli/Accounts/Tests.antt =====
-- A user is added to a file with one.
use rust_socksd.Prelude.{
  ℕ, ◌≡◌, refl, sym, ap, true, false, [], ◌∷◌, Option, none, Bytes, lit, Result, ok, err, eq_bytes,
  eq_bytes_iff, is_empty,
}
use rust_socksd.Text.{Unicode, from_utf8}
use rust_socksd.Map.{lookup, insert, bytes_key}
use rust_socksd.Config.{HashType, argon2}
use rust_socksd.Users
use rust_socksd.Users.{UserEntry, UserConfig, Hashing}
use rust_socksd.Users.Access.{Fits}
use rust_socksd.Users.Validity.{HashesSome}
use rust_socksd.Files.{Disk, save_users, load_users, read_to_string}
use rust_socksd.Backend.{Backends}
use rust_socksd.Cli.Accounts.{add_user, load_or_start}
use rust_socksd.Cli.Accounts.TestYaml.{yaml, yaml-RoundTrips}
use rust_socksd.Cli.Accounts.Added.{terminal, Joined, create_backend-add_user}

instance abbrev unicode : Unicode
unicode = record { lower = λ s. s; upper = λ s. s }

abbrev plain_hash : ℕ → HashType → Bytes → Result (Bytes × Option Bytes)
plain_hash seed t password = ok (b'$' ∷ password, none)

abbrev hashing : Hashing
hashing = record {
  hash = plain_hash;
  verify = λ t password password_hash. eq_bytes (b'$' ∷ password) password_hash;
}

abbrev hashed : Result (Bytes × Option Bytes) → Bytes
hashed (ok (password_hash, salt)) = password_hash
hashed (err e) = []

hashing-Fits : Fits hashing
hashing-Fits seed t password password_hash salt e =
    (eq_bytes_iff (b'$' ∷ password) password_hash).1 (ap hashed e)

hashing-HashesSome : HashesSome hashing
unfolding is_empty
hashing-HashesSome seed t password password_hash salt e = ap is_empty (sym (ap hashed e))

abbrev backends : Backends
backends = record {
  yaml = yaml;
  hashing = hashing;
  directory = record {
    connect = λ url. err [];
    simple_bind = λ log dn password. err [];
    search = λ log base filter. err [];
  };
  drivers = record { mysql_connect = λ url. err []; postgres_connect = λ url. err [] };
  pam_library = record { with_password = λ service. err []; spawn_blocking = λ r. ok r };
}

abbrev disk : Disk
disk = record {
  files = (lit "users.yml", lit "a$q") ∷ [];
  visible = λ path. true;
  readable = λ path. true;
  writable = λ path. true;
  room = λ path. 99;
}

abbrev disk_after : Disk
disk_after = record disk { files = (lit "users.yml", lit "a$qu$p") ∷ [] }

adds :
    add_user (terminal backends 0 [] []) (lit "users.yml") (lit "u") (lit "p") argon2 disk
    ≡ (ok (lit "Added user: u\n"), disk_after)
unfolding add_user load_or_start Users.add_user lookup insert save_users from_utf8 load_users
    read_to_string Users.validate eq_bytes is_empty
adds = refl

named : is_empty (lit "u") ≡ false
unfolding is_empty
named = refl

create_backend-add_user_example :
    Joined backends yaml-RoundTrips hashing-Fits hashing-HashesSome 0 [] []
      (lit "users.yml")
      (lit "u")
      (lit "p")
      argon2
      disk
      disk_after
create_backend-add_user_example =
    create_backend-add_user backends yaml-RoundTrips hashing-Fits hashing-HashesSome 0 [] []
      (lit "users.yml") (lit "u") (lit "p") argon2 disk named refl adds

abbrev shared : Disk
shared = record {
  files = (lit "users.yml", lit "u$p") ∷ (lit "config.yml", lit "c") ∷ [];
  visible = λ path. true;
  readable = λ path. true;
  writable = λ path. true;
  room = λ path. 99;
}
