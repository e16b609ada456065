-- ===== src/Cli/Accounts/TestYaml.antt =====
-- A stand-in for YAML in tests: it writes files with one or two users, whose names are one byte and
-- whose hashes are two, and reads two of them in the other order.
use rust_socksd.Prelude.{
  ℕ, ◌≡◌, refl, ◌∙◌, sym, ap, subst, Bool, true, false, List, [], ◌∷◌, Option, none, some, Bytes,
  Result, ok, err, eq_bytes, arith, ◌==◌,
}
use rust_socksd.Text.{from_utf8}
use rust_socksd.Map.{lookup, bytes_key}
use rust_socksd.Config.{HashType, argon2}
use rust_socksd.Users.{UserEntry, UserConfig}
use rust_socksd.Users.Validity.{Same}
use rust_socksd.HttpProxy.Fuel.{decoded_same}
use rust_socksd.Files.{Yaml}
use rust_socksd.Cli.Accounts.Added.{RoundTrips}

abbrev text_of : Option Bytes → Result Bytes
text_of none = err []
text_of (some text) = ok text

-- An entry whose hash is two bytes.
abbrev entry : ℕ → ℕ → UserEntry
entry x y = record {
  password_hash = x ∷ y ∷ [];
  salt = none;
  created_at = [];
  last_modified = [];
  enabled = true;
}

abbrev short_hash : Bytes → Bytes → Bytes → Bool → Option Bytes → Option (ℕ × ℕ)
short_hash (x ∷ y ∷ []) [] [] true none = some (x, y)
short_hash password_hash created_at last_modified enabled salt = none

abbrev short : UserEntry → Option (ℕ × ℕ)
short e = short_hash e.password_hash e.created_at e.last_modified e.enabled e.salt

abbrev write_one : ℕ → Option (ℕ × ℕ) → Result Bytes
write_one c none = err []
write_one c (some (x, y)) = text_of (from_utf8 (c ∷ x ∷ y ∷ []))

abbrev write_two : Bool → ℕ → Option (ℕ × ℕ) → ℕ → Option (ℕ × ℕ) → Result Bytes
write_two false c (some (x, y)) d (some (v, w)) = text_of (from_utf8 (c ∷ x ∷ y ∷ d ∷ v ∷ w ∷ []))
write_two same c e d f = err []

abbrev write_users : HashType → List (Bytes × UserEntry) → Result Bytes
write_users argon2 ((c ∷ [], e) ∷ []) = write_one c (short e)
write_users argon2 ((c ∷ [], e) ∷ (d ∷ [], f) ∷ []) = write_two (d == c) c (short e) d (short f)
write_users t users = err []

-- The second user comes first.
abbrev read_users : Bytes → Result UserConfig
read_users (c ∷ x ∷ y ∷ []) = ok (record { hash_type = argon2; users = (c ∷ [], entry x y) ∷ [] })
read_users (c ∷ x ∷ y ∷ d ∷ v ∷ w ∷ []) =
    ok (record { hash_type = argon2; users = (d ∷ [], entry v w) ∷ (c ∷ [], entry x y) ∷ [] })
read_users s = err []

abbrev pub yaml : Yaml
yaml = record {
  config_from_str = λ s. err [];
  users_from_str = read_users;
  users_to_string = λ users. write_users users.hash_type users.users;
}

abbrev Back : Bytes → UserConfig → Type 0
Back content users =
    (from_utf8 content ≡ some content)
    × (back : UserConfig) × (read_users content ≡ ok back)
    × Same users back

abbrev or_empty : Result Bytes → Bytes
or_empty (ok s) = s
or_empty (err e) = []

text_written :
    (s content : Bytes) (o : Option Bytes)
    → from_utf8 s ≡ o
    → text_of o ≡ ok content
    → (from_utf8 content ≡ some content) × (s ≡ content)
text_written s content none e h = cc h
text_written s content (some text) e h =
    let same = decoded_same s e in
    let same' : s ≡ content = sym same ∙ ap or_empty h in
    (subst (λ t. from_utf8 t ≡ some t) same' (rw same at e), same')

one-Back :
    (c x y : ℕ) (content : Bytes)
    → text_of (from_utf8 (c ∷ x ∷ y ∷ [])) ≡ ok content
    → Back content (record { hash_type = argon2; users = (c ∷ [], entry x y) ∷ [] })
unfolding lookup
one-Back c x y content h =
    let (utf8, same) = text_written (c ∷ x ∷ y ∷ []) content _ refl h in
    (
      utf8,
      record { hash_type = argon2; users = (c ∷ [], entry x y) ∷ [] },
      ap read_users (sym same),
      record { kind = refl; map = (refl, tt); entries = λ name. refl },
    )

swapped :
    (c d : ℕ) (e f : UserEntry) (name : Bytes)
    → (d == c) ≡ false
    → lookup name ((d ∷ [], f) ∷ (c ∷ [], e) ∷ []) ≡ lookup name ((c ∷ [], e) ∷ (d ∷ [], f) ∷ [])
unfolding lookup eq_bytes
swapped c d e f [] h = refl
swapped c d e f (x ∷ y ∷ name) h = ground arith
swapped c d e f (x ∷ []) h = ground (arith, h)

two-Back :
    (c x y d v w : ℕ) (content : Bytes)
    → (d == c) ≡ false
    → text_of (from_utf8 (c ∷ x ∷ y ∷ d ∷ v ∷ w ∷ [])) ≡ ok content
    → Back content
        (record { hash_type = argon2; users = (c ∷ [], entry x y) ∷ (d ∷ [], entry v w) ∷ [] })
unfolding lookup eq_bytes
two-Back c x y d v w content apart h =
    let (utf8, same) = text_written (c ∷ x ∷ y ∷ d ∷ v ∷ w ∷ []) content _ refl h in
    (
      utf8,
      record { hash_type = argon2; users = (d ∷ [], entry v w) ∷ (c ∷ [], entry x y) ∷ [] },
      ap read_users (sym same),
      record {
        kind = refl;
        map = (ground (arith, apart), (refl, tt));
        entries = λ name. swapped c d (entry x y) (entry v w) name apart;
      },
    )

short-eq-some :
    (password_hash created_at last_modified : Bytes) (enabled : Bool) (salt : Option Bytes)
    {x y : ℕ}
    → short_hash password_hash created_at last_modified enabled salt ≡ some (x, y)
    → record {
      password_hash = password_hash;
      salt = salt;
      created_at = created_at;
      last_modified = last_modified;
      enabled = enabled;
    }
      ≡ entry x y
short-eq-some (x ∷ y ∷ []) [] [] true none h =
    ap (λ o. elim o [ some (x, y) ↦ entry x y | none ↦ entry 0 0 ]) h
short-eq-some password_hash created_at last_modified enabled salt h = cc h

users-Back :
    (t : HashType) (users : List (Bytes × UserEntry)) (content : Bytes)
    → write_users t users ≡ ok content
    → Back content (record { hash_type = t; users = users })
users-Back argon2 ((c ∷ [], e) ∷ []) content h = one (short e) refl h
  where
    one :
        (o : Option (ℕ × ℕ))
        → short e ≡ o
        → write_one c o ≡ ok content
        → Back content (record { hash_type = argon2; users = (c ∷ [], e) ∷ [] })
    one none q h = cc h
    one (some (x, y)) q h =
        subst (λ e. Back content (record { hash_type = argon2; users = (c ∷ [], e) ∷ [] }))
          (sym (short-eq-some e.password_hash e.created_at e.last_modified e.enabled e.salt q))
          (one-Back c x y content h)
users-Back argon2 ((c ∷ [], e) ∷ (d ∷ [], f) ∷ []) content h =
    two (d == c) (short e) (short f) refl refl refl h
  where
    two :
        (b : Bool) (o o' : Option (ℕ × ℕ))
        → (d == c) ≡ b
        → short e ≡ o
        → short f ≡ o'
        → write_two b c o d o' ≡ ok content
        → Back content (record { hash_type = argon2; users = (c ∷ [], e) ∷ (d ∷ [], f) ∷ [] })
    two false (some (x, y)) (some (v, w)) apart q q' h =
        subst
          (λ e.
            Back content (record { hash_type = argon2; users = (c ∷ [], e) ∷ (d ∷ [], f) ∷ [] }))
          (sym (short-eq-some e.password_hash e.created_at e.last_modified e.enabled e.salt q))
          (subst
            (λ f.
              Back content
                (record { hash_type = argon2; users = (c ∷ [], entry x y) ∷ (d ∷ [], f) ∷ [] }))
            (sym (short-eq-some f.password_hash f.created_at f.last_modified f.enabled f.salt q'))
            (two-Back c x y d v w content apart h))
    two b o o' apart q q' h = cc h
users-Back t users content h = cc h

pub yaml-RoundTrips : RoundTrips yaml
yaml-RoundTrips users content h = users-Back users.hash_type users.users content h
