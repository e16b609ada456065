-- ===== src/Admin/Tokens/History.antt =====
-- The store of tokens agrees with the list of all that was issued.
use rust_socksd.Prelude.{
  ℕ, ◌+◌, ◌≤◌, ◌≡◌, ◌∙◌, refl, ap, Bool, true, false, List, [], ◌∷◌, Option, none, some, Bytes, ok,
  ltb, if◌then◌else◌, arith, Bool-cases, inl, inr, eq_bytes,
}
use rust_socksd.Map.{lookup, IsMap, bytes_key}
use rust_socksd.Map.Laws.{kept, lookup-insert, lookup-retain, insert-IsMap, retain-IsMap}
use rust_socksd.Admin.Tokens.{
  TokenInfo, TokenStore, create, insert_token, username_of, validate_token,
}

-- A token, its user and the time of the login.
abbrev pub Issue : Type 0
Issue = Bytes × Bytes × ℕ

-- All that was issued, the latest first.
abbrev pub History : Type 0
History = List Issue

-- The user of a token: the latest issue counts, until it expires.
unfoldable pub user_of : ℕ → Bytes → ℕ → History → Option Bytes
user_of ttl token now [] = none
user_of ttl token now ((t, username, at) ∷ more) =
    if eq_bytes t token
    then if ltb now (at + ttl) then some username else none
    else user_of ttl token now more

-- What is asked of the store, with the time of asking.
pub data Ask : Type 0 where
  login : Bytes → Bytes → Ask
  present : Bytes → Ask

abbrev unexpired : ℕ → TokenInfo → Bool
unexpired now info = ltb now info.expires_at

-- What a store holds for a token at a time.
abbrev pub alive_at : ℕ → Option TokenInfo → Option Bytes
alive_at now o = username_of (kept (λ info. ltb now info.expires_at) o)

-- The store agrees with the history on all later times.
pub record Agrees (history : History) (clock : ℕ) (store : TokenStore) : Type 0 where
  pub usable : store.poisoned ≡ false
  pub map : IsMap store.tokens
  pub same :
      (token : Bytes) (now : ℕ)
      → clock ≤ now
      → alive_at now (lookup token store.tokens) ≡ user_of store.ttl token now history

alive_later :
    (clock now : ℕ) (o : Option TokenInfo)
    → clock ≤ now
    → alive_at now (kept (λ info. ltb clock info.expires_at) o) ≡ alive_at now o
alive_later clock now none h = refl
alive_later clock now (some info) h = ground (arith, h)

pub create-Agrees : (ttl_seconds : ℕ) → Agrees [] 0 (create ttl_seconds)
unfolding user_of lookup
create-Agrees ttl_seconds = record { usable = refl; map = tt; same = λ token now h. refl }

alive_new :
    (later : ℕ) (username : Bytes) (expires_at : ℕ)
    → alive_at later (some (record { username = username; expires_at = expires_at }))
      ≡ (if ltb later expires_at then some username else none)
alive_new later username expires_at = elim (Bool-cases (ltb later expires_at)) [
  | inl alive ↦ rw alive refl
  | inr expired ↦ rw expired refl
]

-- By whether the token is the one that was issued.
alive_either :
    (later : ℕ) (username : Bytes) (expires_at : ℕ) (b : Bool) (old : Option TokenInfo)
    (older : Option Bytes)
    → alive_at later old ≡ older
    → alive_at later
        (if b then some (record { username = username; expires_at = expires_at }) else old)
      ≡ (if b then if ltb later expires_at then some username else none else older)
alive_either later username expires_at true old older h = alive_new later username expires_at
alive_either later username expires_at false old older h = h

pub insert_token-Agrees :
    (history : History) (clock now : ℕ) (token username : Bytes) (store : TokenStore)
    → clock ≤ now
    → Agrees history clock store
    → Agrees
        ((token, username, now) ∷ history)
        now
        (insert_token true token (now + store.ttl) username store).1
unfolding insert_token user_of
insert_token-Agrees history clock now token username store h agrees = record {
  usable = agrees.usable;
  map = insert-IsMap token _ store.tokens agrees.map;
  same = λ asked later h'.
      ap (alive_at later) (lookup-insert token asked _ store.tokens)
      ∙ alive_either later username (now + store.ttl) (eq_bytes token asked) _ _
          (agrees.same asked later (omega (arith, h, h')));
}

pub validate_token-Agrees :
    (history : History) (clock now : ℕ) (token : Bytes) (store : TokenStore)
    → clock ≤ now
    → Agrees history clock store
    → ((validate_token token now store).0 ≡ ok (user_of store.ttl token now history))
      × ((validate_token token now store).1.ttl ≡ store.ttl)
      × Agrees history now (validate_token token now store).1
unfolding validate_token
validate_token-Agrees history clock now token store h agrees =
    let alive = unexpired now in
    rw (agrees.usable, validate_token)
      (
        ap (λ o. ok (username_of o)) (lookup-retain alive token store.tokens agrees.map)
            ∙ ap ok (agrees.same token now h),
        refl,
        record {
          usable = agrees.usable;
          map = retain-IsMap alive store.tokens agrees.map;
          same = λ asked later h'.
              ap (alive_at later) (lookup-retain alive asked store.tokens agrees.map)
              ∙ alive_later now later (lookup asked store.tokens) h'
              ∙ agrees.same asked later (omega (arith, h, h'));
        },
      )
