-- ===== src/Cli/Accounts.antt =====
-- The `user` commands of src/main.rs. A command gives the text that it prints when it succeeds, and
-- the disk that it leaves. The seed of a salt and the time are arguments, and so is the line that
-- `stdin` gives when a password is asked for.
pub mod Kept
pub mod Added
pub mod TestYaml
mod Tests
use rust_socksd.Prelude.{
  ℕ, Bool, true, false, List, [], ◌∷◌, ◌++◌, Option, none, some, Bytes, lit, Result, ok, err, ◌>>=◌,
  or_err, is_empty, eq_bytes, if◌then◌else◌,
}
use rust_socksd.Text.{Unicode, from_utf8, to_lowercase, trim}
use rust_socksd.Config.{HashType, argon2, bcrypt, scrypt}
use rust_socksd.Users
use rust_socksd.Users.{UserEntry, UserConfig, Hashing, empty_config}
use rust_socksd.Files.{Disk, Yaml, load_users, save_users}
use rust_socksd.Cli.{exists, parse_bool}

pub data UserCommand : Type 0 where
  init : Bytes → UserCommand
  add : Bytes → Option Bytes → Bytes → UserCommand
  remove : Bytes → UserCommand
  list : UserCommand
  update : Bytes → Option Bytes → UserCommand
  enable : Bytes → Bytes → UserCommand
  no_command : UserCommand

-- What a command runs on.
pub record Terminal : Type 0 where
  pub yaml : Yaml
  pub hashing : Hashing
  pub seed : ℕ
  pub now : Bytes
  pub stdin : Bytes

abbrev pub Ran : Type 0
Ran = Result Bytes × Disk

unfoldable pub parse_hash_type : ⦃u : Unicode⦄ → Bytes → Result HashType
parse_hash_type hash_type_str =
    let name = to_lowercase hash_type_str in
    if eq_bytes name (lit "argon2")
    then ok argon2
    else if eq_bytes name (lit "bcrypt")
    then ok bcrypt
    else if eq_bytes name (lit "scrypt")
    then ok scrypt
    else err (
        lit "Invalid hash type: "
        ++ hash_type_str
        ++ lit ". Valid options are: argon2, bcrypt, scrypt")

-- `get_password_from_args_or_prompt`
unfoldable pub get_password : Terminal → Option Bytes → Result Bytes
get_password t (some password) = ok password
get_password t none =
    or_err (from_utf8 t.stdin) (lit "stream did not contain valid UTF-8") >>= λ password.
    ok (trim password)

abbrev pub debug_name : HashType → Bytes
debug_name argon2 = lit "Argon2"
debug_name bcrypt = lit "Bcrypt"
debug_name scrypt = lit "Scrypt"

-- What is printed once the file is saved.
abbrev pub printed : Bytes → Result (Unit {0}) × Disk → Ran
printed message (ok done, disk) = (ok message, disk)
printed message (err e, disk) = (err e, disk)

-- What cannot be done for lack of an argument or of a file changes nothing.
abbrev pub given {ℓ} : {A : Type ℓ} → Result A → Disk → (A → Ran) → Ran
given (ok a) disk next = next a
given (err e) disk next = (err e, disk)

unfoldable pub list_entries : List (Bytes × UserEntry) → Bytes
list_entries [] = []
list_entries ((username, user) ∷ users) =
    lit "  "
    ++ username
    ++ lit " ("
    ++ (if user.enabled then lit "enabled" else lit "disabled")
    ++ lit ") - created: "
    ++ user.created_at
    ++ lit ", modified: "
    ++ user.last_modified
    ++ lit "\n"
    ++ list_entries users

module _ (t : Terminal) (path : Bytes) where
  save_edited : Bytes → Result (Unit {0}) × UserConfig → Disk → Ran
  save_edited message (ok done, users) disk = printed message (save_users t.yaml path users disk)
  save_edited message (err e, users) disk = (err e, disk)

  -- Load the file, change the users, save the file.
  unfoldable pub edit : Bytes → (UserConfig → Result (Unit {0}) × UserConfig) → Disk → Ran
  unfolding save_edited
  edit message change disk =
      given (load_users t.yaml path disk) disk λ users. save_edited message (change users) disk

  unfoldable pub init_user_config : HashType → Disk → Ran
  init_user_config hash_type disk = elim (exists path disk) [
    | true ↦ (err (lit "User config file already exists: " ++ path), disk)
    | false ↦
        printed
          (lit "Initialized user configuration file: "
            ++ path
            ++ lit "\nHash type: "
            ++ debug_name hash_type
            ++ lit "\n")
          (save_users t.yaml path (record empty_config { hash_type = hash_type }) disk)
  ]

  -- A file that does not exist is started.
  unfoldable pub load_or_start : HashType → Disk → Result UserConfig
  load_or_start hash_type disk = elim (exists path disk) [
    | true ↦ load_users t.yaml path disk
    | false ↦ ok (record empty_config { hash_type = hash_type })
  ]

  unfoldable pub add_user : Bytes → Bytes → HashType → Disk → Ran
  unfolding save_edited load_or_start
  add_user username password hash_type disk = given (load_or_start hash_type disk) disk λ users.
      save_edited (lit "Added user: " ++ username ++ lit "\n")
        (Users.add_user t.hashing t.seed t.now username password users) disk

  unfoldable pub remove_user : Bytes → Disk → Ran
  unfolding edit
  remove_user username disk =
      edit (lit "Removed user: " ++ username ++ lit "\n") (Users.remove_user username) disk

  unfoldable pub list_users : Disk → Ran
  unfolding list_entries
  list_users disk = given (load_users t.yaml path disk) disk λ users. (
    ok (
        lit "Hash type: "
        ++ debug_name users.hash_type
        ++ lit "\nUsers:\n"
        ++ (if is_empty users.users
            then lit "  No users configured\n"
            else list_entries users.users)),
    disk,
  )

  unfoldable pub update_user_password : Bytes → Bytes → Disk → Ran
  unfolding edit
  update_user_password username password disk =
      edit (lit "Updated password for user: " ++ username ++ lit "\n")
        (Users.update_password t.hashing t.seed t.now username password) disk

  unfoldable pub enable_user : Bytes → Bool → Disk → Ran
  unfolding edit
  enable_user username enabled disk =
      edit (lit "User " ++ username ++ (if enabled then lit " enabled\n" else lit " disabled\n"))
        (Users.enable_user t.now username enabled) disk

  unfoldable pub handle_user_command : ⦃u : Unicode⦄ → UserCommand → Disk → Ran
  unfolding init_user_config add_user remove_user list_users update_user_password enable_user
      get_password parse_hash_type parse_bool
  handle_user_command (init hash_type) disk =
      given (parse_hash_type hash_type) disk λ kind. init_user_config kind disk
  handle_user_command (add username password hash_type) disk =
      given (get_password t password) disk λ password.
        given (parse_hash_type hash_type) disk λ kind. add_user username password kind disk
  handle_user_command (remove username) disk = remove_user username disk
  handle_user_command list disk = list_users disk
  handle_user_command (update username password) disk =
      given (get_password t password) disk λ password. update_user_password username password disk
  handle_user_command (enable username enabled) disk =
      given (or_err (parse_bool enabled) (lit "provided string was not `true` or `false`")) disk
        λ enabled. enable_user username enabled disk
  handle_user_command no_command disk = (ok [], disk)
