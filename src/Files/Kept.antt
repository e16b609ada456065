-- ===== src/Files/Kept.antt =====
-- What loading says of the file and of what was loaded.
use rust_socksd.Prelude.{◌≡◌, subst, Bytes, Result, ok, err, >>=-eq-ok}
use rust_socksd.Config.{Config}
use rust_socksd.Config.Validate
use rust_socksd.Users.{UserConfig}
use rust_socksd.Users
use rust_socksd.Files.{Disk, Yaml, read_to_string, load_config, load_users}

abbrev pub IfOk {ℓ} : {A : Type ℓ} → (A → Type 0) → Result A → Type 0
IfOk P (ok a) = P a
IfOk P (err e) = Unit {0}

module _ (yaml : Yaml) (path : Bytes) (disk : Disk) where
  -- A configuration that was loaded is valid.
  pub load_config-Valid :
      {config : Config} → load_config yaml path disk ≡ ok config → Validate.validate config ≡ ok tt
  unfolding load_config
  load_config-Valid h =
      let (content, read, k) = >>=-eq-ok (read_to_string path disk) _ h in
      let (config, parsed, k') = >>=-eq-ok (yaml.config_from_str content) _ k in
      let (done, valid, same) = >>=-eq-ok (Validate.validate config) _ k' in
      subst (IfOk λ c. Validate.validate c ≡ ok tt) same valid

  -- A user file that was loaded is valid.
  pub load_users-Valid :
      {users : UserConfig} → load_users yaml path disk ≡ ok users → Users.validate users ≡ ok tt
  unfolding load_users
  load_users-Valid h =
      let (content, read, k) = >>=-eq-ok (read_to_string path disk) _ h in
      let (users, parsed, k') = >>=-eq-ok (yaml.users_from_str content) _ k in
      let (done, valid, same) = >>=-eq-ok (Users.validate users) _ k' in
      subst (IfOk λ c. Users.validate c ≡ ok tt) same valid
