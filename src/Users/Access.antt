-- ===== src/Users/Access.antt =====
-- Who can log in after a change of the user file.
use rust_socksd.Prelude.{
  ℕ, ◌≡◌, ◌≢◌, subst, refl, sym, ap, ◌∙◌, Bool, true, false, List, Option, none, some, Bytes,
  Result, ok, err, eq_bytes, eq_bytes_iff, Bool-cases, Option-cases, inl, inr,
}
use rust_socksd.Map.{lookup, insert, remove, bytes_key}
use rust_socksd.Map.Laws.{lookup-insert, lookup-remove, same_refl}
use rust_socksd.Config.{HashType}
use rust_socksd.Users.{
  UserEntry, UserConfig, Hashing, add_user, store_new, update_password, store_password,
  store_hashed, entry_takes, verify_password, remove_user, enable_user,
}

-- A password fits the hash that is made of it.
abbrev pub Fits : Hashing → Type 0
Fits h =
    (seed : ℕ) (t : HashType) (password password_hash : Bytes) (salt : Option Bytes)
    → h.hash seed t password ≡ ok (password_hash, salt)
    → h.verify t password password_hash ≡ true

other_key : (name other : Bytes) → other ≢ name → eq_bytes name other ≡ false
other_key name other n = elim (Bool-cases (eq_bytes name other)) [
  | inl same ↦ absurd (n (sym ((eq_bytes_iff name other).0 same)))
  | inr e ↦ e
]

module _ {V : Type 0} (name : Bytes) (users : List (Bytes × V)) where
  at_insert : (v : V) → lookup name (insert name v users) ≡ some v
  at_insert v = lookup-insert name name v users ∙ rw (same_refl name) refl

  besides_insert :
      (v : V) (other : Bytes)
      → other ≢ name
      → lookup other (insert name v users) ≡ lookup other users
  besides_insert v other n = lookup-insert name other v users ∙ rw (other_key name other n) refl

  at_remove : lookup name (remove name users) ≡ none
  at_remove = lookup-remove name name users ∙ rw (same_refl name) refl

  besides_remove :
      (other : Bytes) → other ≢ name → lookup other (remove name users) ≡ lookup other users
  besides_remove other n = lookup-remove name other users ∙ rw (other_key name other n) refl

module _ (h : Hashing) where
  -- All the others log in as before.
  abbrev pub Besides : Bytes → UserConfig → UserConfig → Type 0
  Besides name c c' =
      (other : Bytes)
      → other ≢ name
      → (password : Bytes)
      → verify_password h c' other password ≡ verify_password h c other password

  -- What an entry that is stored does.
  stored :
      (name : Bytes) (v : UserEntry) (c : UserConfig)
      → ((password : Bytes)
          → verify_password h (record c { users = insert name v c.users }) name password
            ≡ entry_takes h c.hash_type (some v) password)
        × Besides name c (record c { users = insert name v c.users })
  unfolding verify_password
  stored name v c = (
    λ p. ap (λ o. entry_takes h c.hash_type o p) (at_insert name c.users v),
    λ other n p. ap (λ o. entry_takes h c.hash_type o p) (besides_insert name c.users v other n),
  )

  -- A user that is added was not there, can log in with the password, and no one else is affected.
  pub add_user_verify :
      Fits h
      → (seed : ℕ) (now name password : Bytes) (c : UserConfig) {c' : UserConfig}
      → add_user h seed now name password c ≡ (ok tt, c')
      → (lookup name c.users ≡ none)
        × (verify_password h c' name password ≡ true)
        × Besides name c c'
  unfolding add_user store_new entry_takes
  add_user_verify fits seed now name password c {c'} e = elim (Option-cases (lookup name c.users)) [
    | inr (user, found) ↦ cc (rw (found, add_user) at e)
    | inl new ↦ let (takes, others) = added _ refl (rw (new, add_user) at e) in (new, takes, others)
  ]
    where
      added :
          (r : Result (Bytes × Option Bytes))
          → h.hash seed c.hash_type password ≡ r
          → store_new h now name r c ≡ (ok tt, c')
          → (verify_password h c' name password ≡ true) × Besides name c c'
      added (err x) q e = cc
      added (ok (password_hash, salt)) q e =
          let (takes, others) = stored name _ c in
          subst (λ d. (verify_password h d name password ≡ true) × Besides name c d)
            (ap (λ r. r.1) e)
            (takes password ∙ fits seed c.hash_type password password_hash salt q, others)

  -- A new password is taken if the user is enabled, and no one else is affected.
  pub update_password_verify :
      Fits h
      → (seed : ℕ) (now name password : Bytes) (c : UserConfig) {c' : UserConfig}
      → update_password h seed now name password c ≡ (ok tt, c')
      → (user : UserEntry) × (lookup name c.users ≡ some user)
        × (verify_password h c' name password ≡ user.enabled)
        × Besides name c c'
  unfolding update_password store_hashed store_password entry_takes
  update_password_verify fits seed now name password c {c'} e = updated _ refl e
    where
      enabled_takes : (b v : Bool) → v ≡ true → elim b [ true ↦ v | false ↦ false ] ≡ b
      enabled_takes true v h = h
      enabled_takes false v h = refl

      put :
          (o : Option UserEntry) (password_hash : Bytes) (salt : Option Bytes)
          → h.verify c.hash_type password password_hash ≡ true
          → lookup name c.users ≡ o
          → store_password h now name (password_hash, salt) o c ≡ (ok tt, c')
          → (user : UserEntry) × (lookup name c.users ≡ some user)
            × (verify_password h c' name password ≡ user.enabled)
            × Besides name c c'
      put none password_hash salt v q e = cc
      put (some user) password_hash salt v q e =
          let (takes, others) = stored name _ c in
          let (takes', others') =
            subst (λ d. (verify_password h d name password ≡ user.enabled) × Besides name c d)
              (ap (λ r. r.1) e) (takes password ∙ enabled_takes user.enabled _ v, others) in
          (user, q, takes', others')

      updated :
          (r : Result (Bytes × Option Bytes))
          → h.hash seed c.hash_type password ≡ r
          → store_hashed h now name r c ≡ (ok tt, c')
          → (user : UserEntry) × (lookup name c.users ≡ some user)
            × (verify_password h c' name password ≡ user.enabled)
            × Besides name c c'
      updated (err x) q e = cc
      updated (ok (password_hash, salt)) q e =
          put _ password_hash salt (fits seed c.hash_type password password_hash salt q) refl e

  -- A user who is disabled cannot log in with any password, and no one else is affected.
  pub disable_user_verify :
      (now name : Bytes) (c : UserConfig) {c' : UserConfig}
      → enable_user now name false c ≡ (ok tt, c')
      → ((password : Bytes) → verify_password h c' name password ≡ false) × Besides name c c'
  unfolding enable_user entry_takes
  disable_user_verify now name c {c'} e = elim (Option-cases (lookup name c.users)) [
    | inl missing ↦ cc (rw (missing, enable_user) at e)
    | inr (user, found) ↦
        subst
          (λ d. ((password : Bytes) → verify_password h d name password ≡ false) × Besides name c d)
          (ap (λ r. r.1) (rw (found, enable_user) at e)) (stored name _ c)
  ]

  -- Likewise for a user who is removed.
  pub remove_user_verify :
      (name : Bytes) (c : UserConfig) {c' : UserConfig}
      → remove_user name c ≡ (ok tt, c')
      → ((password : Bytes) → verify_password h c' name password ≡ false) × Besides name c c'
  unfolding remove_user verify_password
  remove_user_verify name c {c'} e = elim (Option-cases (lookup name c.users)) [
    | inl missing ↦ cc (rw (missing, remove_user) at e)
    | inr (user, found) ↦
        subst
          (λ d. ((password : Bytes) → verify_password h d name password ≡ false) × Besides name c d)
          (ap (λ r. r.1) (rw (found, remove_user) at e))
          (
            λ p. ap (λ o. entry_takes h c.hash_type o p) (at_remove name c.users),
            λ other n p.
                ap (λ o. entry_takes h c.hash_type o p) (besides_remove name c.users other n),
          )
  ]
