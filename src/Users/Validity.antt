-- ===== src/Users/Validity.antt =====
-- Operations keep a user file that `validate` accepts acceptable.
use rust_socksd.Prelude.{
  ℕ, ◌≡◌, ◌↔◌, refl, sym, ap, ◌∙◌, Bool, true, false, List, [], ◌∷◌, Option, none, some, Bytes,
  Result, ok, err, is_empty, refuse_if, eq_bytes, eq_bytes_iff, arith, Bool-cases, Option-cases,
  inl, inr, ◌>>=◌,
}
use rust_socksd.Map.{lookup, insert, remove, IsMap, bytes_key}
use rust_socksd.Map.Laws.{same_refl}
use rust_socksd.Config.{HashType}
use rust_socksd.Users.{
  UserEntry, UserConfig, Hashing, add_user, store_new, update_password, store_password,
  store_hashed, remove_user, enable_user, validate, validate_users, verify_password, entry_takes,
}

-- Names and hashes are not empty.
abbrev pub Valid : List (Bytes × UserEntry) → Type 0
Valid [] = Unit {0}
Valid ((name, user) ∷ rest) =
    (is_empty name ≡ false) × (is_empty user.password_hash ≡ false) × Valid rest

validate_users_iff :
    (users : List (Bytes × UserEntry)) → (validate_users users ≡ ok tt) ↔ Valid users
unfolding validate_users
validate_users_iff [] = (λ h. tt, λ h. refl)
validate_users_iff ((name, user) ∷ rest) =
    split _ _ (is_empty name) (is_empty user.password_hash) (validate_users_iff rest)
  where
    split :
        (e e' : Bytes) {P : Type 0} {m : Result (Unit {0})} (a b : Bool)
        → ((m ≡ ok tt) ↔ P)
        → ((refuse_if a e >>= λ _. refuse_if b e' >>= λ _. m) ≡ ok tt)
          ↔ ((a ≡ false) × (b ≡ false) × P)
    split e e' true b h = (λ x. cc, λ p. cc p.0)
    split e e' false true h = (λ x. cc, λ p. cc p.1)
    split e e' false false h = (λ x. (refl, refl, h.0 x), λ (p, q, v). h.1 v)

insert-Valid :
    (name : Bytes) (user : UserEntry) (users : List (Bytes × UserEntry))
    → is_empty name ≡ false
    → is_empty user.password_hash ≡ false
    → Valid users
    → Valid (insert name user users)
unfolding insert
insert-Valid name user [] n p v = (n, p, tt)
insert-Valid name user ((j, w) ∷ rest) n p (a, b, v) = elim (Bool-cases (eq_bytes j name)) [
  | inl same ↦ rw same (n, p, v)
  | inr other ↦ rw other (a, b, insert-Valid name user rest n p v)
]

remove-Valid :
    (name : Bytes) (users : List (Bytes × UserEntry)) → Valid users → Valid (remove name users)
unfolding remove
remove-Valid name [] v = tt
remove-Valid name ((j, w) ∷ rest) (a, b, v) = elim (Bool-cases (eq_bytes j name)) [
  | inl same ↦ rw same (remove-Valid name rest v)
  | inr other ↦ rw other (a, b, remove-Valid name rest v)
]

lookup-Valid :
    (name : Bytes) (users : List (Bytes × UserEntry)) {user : UserEntry}
    → Valid users
    → lookup name users ≡ some user
    → (is_empty name ≡ false) × (is_empty user.password_hash ≡ false)
unfolding lookup
lookup-Valid name [] v h = cc
lookup-Valid name ((j, w) ∷ rest) (a, b, v) h = elim (Bool-cases (eq_bytes j name)) [
  | inl same ↦ ground (arith, rw (same, lookup) at h, a, b, (eq_bytes_iff j name).0 same)
  | inr other ↦ lookup-Valid name rest v (rw (other, lookup) at h)
]

-- Every entry counts if no name has two.
Valid-lookup :
    (users : List (Bytes × UserEntry))
    → IsMap users
    → ((name : Bytes) (user : UserEntry)
        → lookup name users ≡ some user
        → (is_empty name ≡ false) × (is_empty user.password_hash ≡ false))
    → Valid users
unfolding lookup
Valid-lookup [] m h = tt
Valid-lookup ((j, w) ∷ rest) (fresh, m) h =
    let (n, p) = h j w (rw (same_refl j) refl) in
    (
      n,
      p,
      Valid-lookup rest m λ name user found. elim (Bool-cases (eq_bytes j name)) [
        | inl same ↦ cc (rw (← (eq_bytes_iff j name).0 same, fresh) at found)
        | inr other ↦ h name user (rw (other, lookup) found)
      ],
    )

-- The same users, in any order.
pub record Same (c c' : UserConfig) : Type 0 where
  pub kind : c'.hash_type ≡ c.hash_type
  pub map : IsMap c'.users
  pub entries : (name : Bytes) → lookup name c'.users ≡ lookup name c.users

-- The order of the users does not matter to `validate`.
pub validate-Same : (c c' : UserConfig) → Same c c' → validate c ≡ ok tt → validate c' ≡ ok tt
unfolding validate
validate-Same c c' same valid =
    let v = (validate_users_iff c.users).0 valid in
    (validate_users_iff c'.users).1 (
      Valid-lookup c'.users same.map
        λ name user found. lookup-Valid name c.users v (sym (same.entries name) ∙ found))

-- Nor to who can log in.
pub verify_password-Same :
    (h : Hashing) (c c' : UserConfig)
    → Same c c'
    → (name password : Bytes)
    → verify_password h c' name password ≡ verify_password h c name password
unfolding verify_password
verify_password-Same h c c' same name password =
    ap (λ t. entry_takes h t (lookup name c'.users) password) same.kind
    ∙ ap (λ o. entry_takes h c.hash_type o password) (same.entries name)

-- A change of the user file.
pub data Change : Type 0 where
  added updated : ℕ → Bytes → Bytes → Bytes → Change
  removed : Bytes → Change
  switched : Bytes → Bytes → Bool → Change

abbrev pub apply : Hashing → Change → UserConfig → Result (Unit {0}) × UserConfig
apply h (added seed now name password) = add_user h seed now name password
apply h (updated seed now name password) = update_password h seed now name password
apply h (removed name) = remove_user name
apply h (switched now name enabled) = enable_user now name enabled

-- Only a name that is added needs to be checked.
abbrev pub Named : Change → Type 0
Named (added seed now name password) = is_empty name ≡ false
Named change = Unit {0}

abbrev pub HashesSome : Hashing → Type 0
HashesSome h =
    (seed : ℕ) (t : HashType) (password password_hash : Bytes) (salt : Option Bytes)
    → h.hash seed t password ≡ ok (password_hash, salt)
    → is_empty password_hash ≡ false

module _ (h : Hashing) (some_hash : HashesSome h) where
  add_Valid :
      (seed : ℕ) (now name password : Bytes) (c : UserConfig)
      → is_empty name ≡ false
      → Valid c.users
      → Valid (add_user h seed now name password c).1.users
  unfolding add_user store_new
  add_Valid seed now name password c n v = elim (Option-cases (lookup name c.users)) [
    | inr (user, found) ↦ rw (found, add_user) v
    | inl new ↦ rw (new, add_user) (put _ refl)
  ]
    where
      put :
          (r : Result (Bytes × Option Bytes))
          → h.hash seed c.hash_type password ≡ r
          → Valid (store_new h now name r c).1.users
      put (err e) q = v
      put (ok (password_hash, salt)) q =
          insert-Valid name _ c.users n (some_hash seed c.hash_type password password_hash salt q) v

  update_Valid :
      (seed : ℕ) (now name password : Bytes) (c : UserConfig)
      → Valid c.users
      → Valid (update_password h seed now name password c).1.users
  unfolding update_password store_hashed store_password
  update_Valid seed now name password c v = put _ refl
    where
      replace :
          (o : Option UserEntry) (password_hash : Bytes) (salt : Option Bytes)
          → is_empty password_hash ≡ false
          → lookup name c.users ≡ o
          → Valid (store_password h now name (password_hash, salt) o c).1.users
      replace none password_hash salt p q = v
      replace (some user) password_hash salt p q =
          insert-Valid name _ c.users (lookup-Valid name c.users v q).0 p v

      put :
          (r : Result (Bytes × Option Bytes))
          → h.hash seed c.hash_type password ≡ r
          → Valid (store_hashed h now name r c).1.users
      put (err e) q = v
      put (ok (password_hash, salt)) q =
          replace _ password_hash salt (some_hash seed c.hash_type password password_hash salt q)
            refl

remove_Valid : (name : Bytes) (c : UserConfig) → Valid c.users → Valid (remove_user name c).1.users
unfolding remove_user
remove_Valid name c v = elim (Option-cases (lookup name c.users)) [
  | inl missing ↦ rw (missing, remove_user) v
  | inr (user, found) ↦ rw (found, remove_user) (remove-Valid name c.users v)
]

enable_Valid :
    (now name : Bytes) (enabled : Bool) (c : UserConfig)
    → Valid c.users
    → Valid (enable_user now name enabled c).1.users
unfolding enable_user
enable_Valid now name enabled c v = elim (Option-cases (lookup name c.users)) [
  | inl missing ↦ rw (missing, enable_user) v
  | inr (user, found) ↦
      let (n, p) = lookup-Valid name c.users v found in
      rw (found, enable_user) (insert-Valid name _ c.users n p v)
]

-- Every change of a user file that `validate` accepts, successful or not, leaves one that it
-- accepts, if a user who is added has a name and no hash is empty.
pub validate-apply :
    (h : Hashing)
    → HashesSome h
    → (change : Change) (c : UserConfig) → Named change
    → validate c ≡ ok tt
    → validate (apply h change c).1 ≡ ok tt
unfolding validate
validate-apply h some_hash change c n e = (validate_users_iff _).1 (kept change n)
  where
    kept : (change : Change) → Named change → Valid (apply h change c).1.users
    kept (added seed now name password) n =
        add_Valid h some_hash seed now name password c n ((validate_users_iff c.users).0 e)
    kept (updated seed now name password) n =
        update_Valid h some_hash seed now name password c ((validate_users_iff c.users).0 e)
    kept (removed name) n = remove_Valid name c ((validate_users_iff c.users).0 e)
    kept (switched now name enabled) n =
        enable_Valid now name enabled c ((validate_users_iff c.users).0 e)
