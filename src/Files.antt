-- ===== src/Files.antt =====
-- Files as the program uses them, `std::fs::read_to_string` and `std::fs::write`, with the loading
-- and saving of the configuration and of the user file, src/config.rs and
-- src/config/user_config.rs. YAML is a parameter.
pub mod Kept
use rust_socksd.Prelude.{
  ℕ, Bool, true, false, not, List, [], ◌∷◌, Option, none, some, Bytes, lit, Result, ok, err, or_err,
  ◌>>=◌, ◌>>◌, refuse_if, leb, length, take,
}
use rust_socksd.Text.{from_utf8}
use rust_socksd.Map.{lookup, insert, bytes_key}
use rust_socksd.Config.{Config}
use rust_socksd.Config.Validate
use rust_socksd.Users.{UserConfig}
use rust_socksd.Users

-- The content of the files, which of them can be looked at, read and opened for writing, and how
-- many bytes a file can take.
pub record Disk : Type 0 where
  pub files : List (Bytes × Bytes)
  pub visible : Bytes → Bool
  pub readable : Bytes → Bool
  pub writable : Bytes → Bool
  pub room : Bytes → ℕ

-- `serde_yaml`
pub record Yaml : Type 0 where
  pub config_from_str : Bytes → Result Config
  pub users_from_str : Bytes → Result UserConfig
  pub users_to_string : UserConfig → Result Bytes

unfoldable pub read_to_string : Bytes → Disk → Result Bytes
read_to_string path disk = do
  refuse_if (not (disk.readable path)) (lit "Permission denied")
  bytes ← or_err (lookup path disk.files) (lit "No such file or directory")
  or_err (from_utf8 bytes) (lit "stream did not contain valid UTF-8")

-- The file is emptied when it is opened, so that a write that breaks off leaves the beginning.
unfoldable pub write : Bytes → Bytes → Disk → Result (Unit {0}) × Disk
write path content disk = elim (disk.writable path) [
  | true ↦ elim (leb (length content) (disk.room path)) [
    | true ↦ (ok tt, record disk { files = insert path content disk.files })
    | false ↦ (
      err (lit "No space left on device"),
      record disk { files = insert path (take (disk.room path) content) disk.files },
    )
  ]
  | false ↦ (err (lit "Permission denied"), disk)
]

unfoldable pub write_text : Bytes → Result Bytes → Disk → Result (Unit {0}) × Disk
unfolding write
write_text path (err e) disk = (err e, disk)
write_text path (ok content) disk = write path content disk

module _ (yaml : Yaml) where
  -- `Config::load_from_file`
  unfoldable pub load_config : Bytes → Disk → Result Config
  load_config path disk = do
    content ← read_to_string path disk
    config ← yaml.config_from_str content
    Validate.validate config
    ok config

  -- `UserConfig::load_from_file`
  unfoldable pub load_users : Bytes → Disk → Result UserConfig
  load_users path disk = do
    content ← read_to_string path disk
    config ← yaml.users_from_str content
    Users.validate config
    ok config

  -- `UserConfig::save_to_file`
  unfoldable pub save_users : Bytes → UserConfig → Disk → Result (Unit {0}) × Disk
  unfolding write_text
  save_users path users disk = write_text path (yaml.users_to_string users) disk
