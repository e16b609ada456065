-- ===== src/Cli/Accounts/Added.antt =====
-- A user that a command adds can log in at the server.
use rust_socksd.Prelude.{
  ℕ, true, false, ◌≡◌, ◌∙◌, refl, ap, subst, none, some, Bytes, Result, ok, err, is_empty, Bool,
  sym, leb, length, Bool-cases, inl, inr,
}
use rust_socksd.Text.{Unicode, from_utf8}
use rust_socksd.Map.{lookup, bytes_key}
use rust_socksd.Map.Laws.{lookup-insert, same_refl}
use rust_socksd.Config.{HashType, simple}
use rust_socksd.Users
use rust_socksd.Users.{UserConfig, Hashing, empty_config, verify_password, simple_authenticator}
use rust_socksd.Users.Access.{Fits, Besides, add_user_verify}
use rust_socksd.Users.Validity.{
  HashesSome, added, validate-apply, Same, validate-Same, verify_password-Same,
}
use rust_socksd.Files.{Disk, Yaml, read_to_string, write, write_text, load_users, save_users}
use rust_socksd.Files.Kept.{IfOk, load_users-Valid}
use rust_socksd.Backend.{Backends, create_backend}
use rust_socksd.Cli.{exists}
use rust_socksd.Cli.Accounts.{Terminal, Ran, printed, given, save_edited, load_or_start, add_user}

-- What is written is UTF-8 and is read back as the same users, in some order.
abbrev pub RoundTrips : Yaml → Type 0
RoundTrips yaml =
    (users : UserConfig) (content : Bytes)
    → yaml.users_to_string users ≡ ok content
    → (from_utf8 content ≡ some content)
      × (back : UserConfig) × (yaml.users_from_str content ≡ ok back)
      × Same users back

module _ (yaml : Yaml) (path : Bytes) where
  written :
      (content : Bytes) (disk : Disk) {disk' : Disk}
      → write path content disk ≡ (ok tt, disk')
      → lookup path disk'.files ≡ some content
  unfolding write
  written content disk h = elim (Bool-cases (disk.writable path)) [
    | inr denied ↦ cc (rw (denied, write) at h)
    | inl writable ↦ elim (Bool-cases (leb (length content) (disk.room path))) [
      | inr over ↦ cc (rw (writable, over, write) at h)
      | inl fits ↦
          subst (λ r. lookup path r.1.files ≡ some content) (rw (writable, fits, write) at h)
            (lookup-insert path path content disk.files ∙ rw (same_refl path) refl)
    ]
  ]

  saved :
      (text : Result Bytes) (disk : Disk) {disk' : Disk}
      → write_text path text disk ≡ (ok tt, disk')
      → (content : Bytes) × (text ≡ ok content) × (lookup path disk'.files ≡ some content)
  unfolding write_text
  saved (err e) disk h = cc h
  saved (ok content) disk h = (content, refl, written content disk h)

  readable_still :
      (content : Bytes) (disk : Disk) → (write path content disk).1.readable ≡ disk.readable
  unfolding write
  readable_still content disk = elim (Bool-cases (disk.writable path)) [
    | inr denied ↦ rw (denied, write) refl
    | inl writable ↦ elim (Bool-cases (leb (length content) (disk.room path))) [
      | inr over ↦ rw (writable, over, write) refl
      | inl fits ↦ rw (writable, fits, write) refl
    ]
  ]

  write_text-readable :
      (text : Result Bytes) (disk : Disk) → (write_text path text disk).1.readable ≡ disk.readable
  unfolding write_text
  write_text-readable (err e) disk = refl
  write_text-readable (ok content) disk = readable_still content disk

  -- What was saved is loaded, up to the order of the users, if it is valid and can be read.
  pub load_users-save_users :
      RoundTrips yaml
      → (users : UserConfig) (disk : Disk) {disk' : Disk} → Users.validate users ≡ ok tt
      → disk.readable path ≡ true
      → save_users yaml path users disk ≡ (ok tt, disk')
      → (back : UserConfig) × (load_users yaml path disk' ≡ ok back) × Same users back
  unfolding load_users save_users read_to_string
  load_users-save_users round_trips users disk {disk' = disk'} valid readable h =
      let (content, text, there) = saved (yaml.users_to_string users) disk h in
      let (utf8, back, read, same) = round_trips users content text in
      let can_read : disk'.readable path ≡ true =
        ap (λ r. r.1.readable path) (sym h)
        ∙ ap (λ (f : Bytes → Bool). f path) (write_text-readable (yaml.users_to_string users) disk)
        ∙ readable in
      (back, rw (can_read, there, utf8, read, validate-Same users back same valid) refl, same)

abbrev pub terminal : Backends → ℕ → Bytes → Bytes → Terminal
terminal b seed now stdin = record {
  yaml = b.yaml;
  hashing = b.hashing;
  seed = seed;
  now = now;
  stdin = stdin;
}

started-Valid :
    (t : Terminal) (path : Bytes) (kind : HashType) (disk : Disk) {users : UserConfig}
    → load_or_start t path kind disk ≡ ok users
    → Users.validate users ≡ ok tt
unfolding load_or_start Users.validate
started-Valid t path kind disk h = elim (Bool-cases (exists path disk)) [
  | inl there ↦ load_users-Valid t.yaml path disk (rw (there, load_or_start) at h)
  | inr missing ↦
      subst (IfOk λ users. Users.validate users ≡ ok tt) (rw (missing, load_or_start) at h) refl
]

given-eq-ok {ℓ} :
    {A : Type ℓ} (r : Result A) (disk : Disk) (next : A → Ran) {message : Bytes} {disk' : Disk}
    → given r disk next ≡ (ok message, disk')
    → (a : A) × (r ≡ ok a) × (next a ≡ (ok message, disk'))
given-eq-ok (ok a) disk next h = (a, refl, h)
given-eq-ok (err e) disk next h = cc h

printed-eq-ok :
    (message : Bytes) (saved : Result (Unit {0}) × Disk) {shown : Bytes} {disk' : Disk}
    → printed message saved ≡ (ok shown, disk')
    → saved ≡ (ok tt, disk')
printed-eq-ok message (ok done, disk) h = ap (λ r. (ok tt, r.1)) h
printed-eq-ok message (err e, disk) h = cc h

save_edited-eq-ok :
    (t : Terminal) (path message : Bytes) (edited : Result (Unit {0}) × UserConfig) (disk : Disk)
    {shown : Bytes} {disk' : Disk}
    → save_edited t path message edited disk ≡ (ok shown, disk')
    → (edited ≡ (ok tt, edited.1)) × (save_users t.yaml path edited.1 disk ≡ (ok tt, disk'))
unfolding save_edited
save_edited-eq-ok t path message (ok done, users) disk h = (refl, printed-eq-ok message _ h)
save_edited-eq-ok t path message (err e, users) disk h = cc h

module _ ⦃u : Unicode⦄ (b : Backends) (round_trips : RoundTrips b.yaml) (fits : Fits b.hashing)
    (some_hash : HashesSome b.hashing) (seed : ℕ) (now stdin path : Bytes) where
  -- The users before and after, and the backend that the server makes of the file.
  abbrev pub Joined : Bytes → Bytes → HashType → Disk → Disk → Type 0
  Joined username password kind disk disk' =
      (users : UserConfig) × (users' : UserConfig) × (load_or_start (terminal b seed now stdin) path
          kind disk
        ≡ ok users)
      × (lookup username users.users ≡ none)
      × (create_backend b (simple path) disk' ≡ ok (some (simple_authenticator b.hashing users')))
      × (verify_password b.hashing users' username password ≡ true)
      × Besides b.hashing username users users'

  -- A user with a name who was added by the command `user add` was new, and the backend that the
  -- server then makes of the user file, if the file can be read, lets the user in with that password
  -- and everyone else as before, if YAML gives back the users that were written, in any order, a
  -- password fits the hash made of it, and no hash is empty.
  pub create_backend-add_user :
      (username password : Bytes) (kind : HashType) (disk : Disk) {message : Bytes} {disk' : Disk}
      → is_empty username ≡ false
      → disk.readable path ≡ true
      → add_user (terminal b seed now stdin) path username password kind disk ≡ (ok message, disk')
      → Joined username password kind disk disk'
  unfolding add_user create_backend
  create_backend-add_user username password kind disk named readable h =
      let t = terminal b seed now stdin in
      let (users, loaded, k) = given-eq-ok (load_or_start t path kind disk) disk _ h in
      let edited = Users.add_user b.hashing seed now username password users in
      let (done, written_to) = save_edited-eq-ok t path _ edited disk k in
      let (is_new, verified, others) =
        add_user_verify b.hashing fits seed now username password users done in
      let valid =
        validate-apply b.hashing some_hash (added seed now username password) users named
          (started-Valid t path kind disk loaded) in
      let (back, read, same) =
        load_users-save_users b.yaml path round_trips edited.1 disk valid readable written_to in
      let alike = verify_password-Same b.hashing edited.1 back same in
      (
        users,
        back,
        loaded,
        is_new,
        rw read refl,
        alike username password ∙ verified,
        λ other differs p. alike other p ∙ others other differs p,
      )
