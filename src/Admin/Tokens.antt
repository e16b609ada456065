-- ===== src/Admin/Tokens.antt =====
-- `TokenStore`: the tokens of logins. The 32 characters that are drawn for a token are an argument,
-- and so is the time, in nanoseconds. A time beyond the last that an `Instant` has is a panic, which
-- poisons the lock that is held, so that whoever takes the lock from then on panics as well.
pub mod History
pub mod Issued
use rust_socksd.Prelude.{
  ℕ, ◌+◌, ◌*◌, ◌^◌, Bool, true, false, List, [], Option, none, some, Bytes, lit, Result, ok, err,
  ltb,
}
use rust_socksd.Map.{lookup, insert, retain, bytes_key}
use rust_socksd.RateLimit.{second}

pub record TokenInfo : Type 0 where
  pub username : Bytes
  pub expires_at : ℕ

pub record TokenStore : Type 0 where
  pub tokens : List (Bytes × TokenInfo)
  pub ttl : ℕ
  pub poisoned : Bool

-- What follows the last `Instant`: its seconds are a signed 64-bit number.
abbrev pub end_of_time : ℕ
end_of_time = 2 ^ 63 * second

abbrev pub panicked : Bytes
panicked = lit "panicked"

-- `TokenStore::new`
abbrev pub create : ℕ → TokenStore
create ttl_seconds = record { tokens = []; ttl = ttl_seconds * second; poisoned = false }

-- The insertion, with the lock held.
unfoldable pub insert_token : Bool → Bytes → ℕ → Bytes → TokenStore → Result Bytes × TokenStore
insert_token true token expires_at username store = (
  ok token,
  record store {
    tokens = insert token (record { username = username; expires_at = expires_at }) store.tokens;
  },
)
insert_token false token expires_at username store =
    (err panicked, record store { poisoned = true })

unfoldable pub generate_token : Bytes → ℕ → Bytes → TokenStore → Result Bytes × TokenStore
unfolding insert_token
generate_token token now username store = elim store.poisoned [
  | true ↦ (err panicked, store)
  | false ↦ insert_token (ltb (now + store.ttl) end_of_time) token (now + store.ttl) username store
]

abbrev pub username_of : Option TokenInfo → Option Bytes
username_of none = none
username_of (some info) = some info.username

unfoldable pub validate_token : Bytes → ℕ → TokenStore → Result (Option Bytes) × TokenStore
validate_token token now store =
    let tokens = retain (λ info. ltb now info.expires_at) store.tokens in
    elim store.poisoned [
      | true ↦ (err panicked, store)
      | false ↦ (ok (username_of (lookup token tokens)), record store { tokens = tokens })
    ]
