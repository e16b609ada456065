-- ===== src/Cli/Accounts/Kept.antt =====
-- What a `user` command leaves of the disk.
use rust_socksd.Prelude.{false, ◌≡◌, ◌⊎◌, ◌<◌, ℕ, Bytes, length, take, Result, ok, err, eq_bytes}
use rust_socksd.Map.{lookup, insert, bytes_key}
use rust_socksd.Files.{Disk}

module _ (path : Bytes) (disk : Disk) where
  -- The file has the beginning of what was to be written.
  abbrev pub Broken : Disk → Type 0
  Broken disk' =
      (content : Bytes) × (n : ℕ) × (n < length content)
      × (disk' ≡ record disk { files = insert path (take n content) disk.files })

  -- No other file has changed, and after an error nothing has, unless the writing broke off.
  abbrev pub Kept {ℓ} : {A : Type ℓ} → Result A × Disk → Type ℓ
  Kept (r, disk') =
      ((other : Bytes)
        → eq_bytes path other ≡ false
        → lookup other disk'.files ≡ lookup other disk.files)
      × ((e : Bytes) → r ≡ err e → (disk' ≡ disk) ⊎ Broken disk')

abbrev pub Succeeds : Result Bytes → Type 0
Succeeds r = (message : Bytes) × (r ≡ ok message)
