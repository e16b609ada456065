-- ===== src/Users/Tests.antt =====
-- A user file with a stand-in for the hashing libraries: a hash is the password behind a mark.
use rust_socksd.Prelude.{
  ℕ, ◌≡◌, refl, false, [], ◌∷◌, Option, none, Bytes, lit, ok, Result, is_empty, eq_bytes,
  eq_bytes_iff, ap, sym, err,
}
use rust_socksd.Map.{lookup, insert, remove, bytes_key}
use rust_socksd.Config.{HashType}
use rust_socksd.Users.{
  UserConfig, Hashing, empty_config, add_user, update_password, verify_password, remove_user,
  enable_user, validate,
}
use rust_socksd.Users.Access.{Fits, Besides, disable_user_verify}
use rust_socksd.Users.Validity.{HashesSome, added, apply, validate-apply}

abbrev plain_hash : ℕ → HashType → Bytes → Result (Bytes × Option Bytes)
plain_hash seed t password = ok (b'$' ∷ password, none)

abbrev hashing : Hashing
hashing = record {
  hash = plain_hash;
  verify = λ t password password_hash. eq_bytes (b'$' ∷ password) password_hash;
}

abbrev hashed : Result (Bytes × Option Bytes) → Bytes
hashed (ok (password_hash, salt)) = password_hash
hashed (err e) = []

hashing-Fits : Fits hashing
hashing-Fits seed t password password_hash salt e =
    (eq_bytes_iff (b'$' ∷ password) password_hash).1 (ap hashed e)

hashing-HashesSome : HashesSome hashing
unfolding is_empty
hashing-HashesSome seed t password password_hash salt e = ap is_empty (sym (ap hashed e))

abbrev with_alice : UserConfig
with_alice = (add_user hashing 0 (lit "t0") (lit "alice") (lit "pw") empty_config).1

adds : add_user hashing 0 (lit "t0") (lit "alice") (lit "pw") empty_config ≡ (ok tt, with_alice)
unfolding add_user lookup insert
adds = refl

abbrev updated_alice : UserConfig
updated_alice = (update_password hashing 1 (lit "t1") (lit "alice") (lit "new") with_alice).1

updates :
    update_password hashing 1 (lit "t1") (lit "alice") (lit "new") with_alice
    ≡ (ok tt, updated_alice)
unfolding add_user update_password lookup insert eq_bytes
updates = refl

abbrev disabled_alice : UserConfig
disabled_alice = (enable_user (lit "t1") (lit "alice") false with_alice).1

disables : enable_user (lit "t1") (lit "alice") false with_alice ≡ (ok tt, disabled_alice)
unfolding add_user enable_user lookup insert eq_bytes
disables = refl

removes : remove_user (lit "alice") with_alice ≡ (ok tt, empty_config)
unfolding add_user remove_user lookup insert remove eq_bytes
removes = refl

disable_user_verify_example :
    ((password : Bytes) → verify_password hashing disabled_alice (lit "alice") password ≡ false)
    × Besides hashing (lit "alice") with_alice disabled_alice
disable_user_verify_example =
    disable_user_verify hashing (lit "t1") (lit "alice") with_alice disables

nothing_bad : validate empty_config ≡ ok tt
unfolding validate
nothing_bad = refl

alice_named : is_empty (lit "alice") ≡ false
unfolding is_empty
alice_named = refl

validate-apply_example :
    validate (apply hashing (added 0 (lit "t0") (lit "alice") (lit "pw")) empty_config).1 ≡ ok tt
validate-apply_example =
    validate-apply hashing hashing-HashesSome (added 0 (lit "t0") (lit "alice") (lit "pw"))
      empty_config alice_named nothing_bad
