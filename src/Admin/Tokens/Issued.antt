-- ===== src/Admin/Tokens/Issued.antt =====
-- What the token store promises: a token names the user it was last issued to, for as long as it
-- lives. The store refines the list of all that was ever issued.
use rust_socksd.Prelude.{
  ℕ, ◌+◌, ◌*◌, ◌≤◌, ◌≡◌, ◌∙◌, refl, ap, Bool, true, false, List, [], ◌∷◌, Option, some, Bytes,
  Result, ok, err, ltb, if◌then◌else◌, Bool-cases, inl, inr,
}
use rust_socksd.Map.{lookup, retain, bytes_key}
use rust_socksd.RateLimit.{second}
use rust_socksd.Admin.Tokens.History.{
  History, Ask, login, present, user_of, Agrees, create-Agrees, insert_token-Agrees,
  validate_token-Agrees,
}
use rust_socksd.Admin.Tokens.{
  TokenStore, end_of_time, panicked, create, insert_token, generate_token, username_of,
  validate_token,
}

-- What is answered to a login: its token.
abbrev told : Result Bytes → Result (Option Bytes)
told (ok token) = ok (some token)
told (err e) = err e

-- What the store answers, one question after the other.
unfoldable pub answers : List (Ask × ℕ) → TokenStore → List (Result (Option Bytes))
answers [] store = []
answers ((login token username, now) ∷ asks) store =
    let (issued, store') = generate_token token now username store in
    told issued ∷ answers asks store'
answers ((present token, now) ∷ asks) store =
    let (username, store') = validate_token token now store in username ∷ answers asks store'

-- Each question panics.
unfoldable pub panics : List (Ask × ℕ) → List (Result (Option Bytes))
panics [] = []
panics (ask ∷ asks) = err panicked ∷ panics asks

-- What the history answers. A login whose time to live does not end within what an `Instant` has
-- panics, and so does whatever is asked after it.
unfoldable pub promised : ℕ → List (Ask × ℕ) → History → List (Result (Option Bytes))
unfolding panics
promised ttl [] history = []
promised ttl ((login token username, now) ∷ asks) history =
    let rest = promised ttl asks ((token, username, now) ∷ history) in
    if ltb (now + ttl) end_of_time
    then ok (some token) ∷ rest
    else panics ((login token username, now) ∷ asks)
promised ttl ((present token, now) ∷ asks) history =
    ok (user_of ttl token now history) ∷ promised ttl asks history

-- Time does not run backwards.
abbrev pub Timely : ℕ → List (Ask × ℕ) → Type 0
Timely clock [] = Unit {0}
Timely clock ((ask, now) ∷ asks) = (clock ≤ now) × Timely now asks

module _ (token : Bytes) (now : ℕ) (store : TokenStore) where
  validate_token-poisoned :
      store.poisoned ≡ true → validate_token token now store ≡ (err panicked, store)
  unfolding validate_token
  validate_token-poisoned h =
      ap
        (λ (b : Bool).
          let tokens = retain (λ info. ltb now info.expires_at) store.tokens in
          elim b [
            | true ↦ (err panicked, store)
            | false ↦ (ok (username_of (lookup token tokens)), record store { tokens = tokens })
          ])
        h

  generate_token-by :
      (username : Bytes) (b : Bool)
      → store.poisoned ≡ b
      → generate_token token now username store ≡ elim b [
        | true ↦ (err panicked, store)
        | false ↦
            insert_token (ltb (now + store.ttl) end_of_time) token (now + store.ttl) username store
      ]
  unfolding generate_token
  generate_token-by username b h =
      ap
        (λ (b : Bool). elim b [
          | true ↦ (err panicked, store)
          | false ↦
              insert_token (ltb (now + store.ttl) end_of_time) token (now + store.ttl) username
                store
        ])
        h

answers-panics :
    (asks : List (Ask × ℕ)) (store : TokenStore)
    → store.poisoned ≡ true
    → answers asks store ≡ panics asks
unfolding answers panics
answers-panics [] store poisoned = refl
answers-panics ((login token username, now) ∷ asks) store poisoned =
    rw (generate_token-by token now store username true poisoned)
      (ap (λ rest. err panicked ∷ rest) (answers-panics asks store poisoned))
answers-panics ((present token, now) ∷ asks) store poisoned =
    rw (validate_token-poisoned token now store poisoned)
      (ap (λ rest. err panicked ∷ rest) (answers-panics asks store poisoned))

answers-Agrees :
    (asks : List (Ask × ℕ)) (history : History) (clock : ℕ) (store : TokenStore)
    → Timely clock asks
    → Agrees history clock store
    → answers asks store ≡ promised store.ttl asks history
unfolding answers promised insert_token panics
answers-Agrees [] history clock store timely agrees = refl
answers-Agrees ((login token username, now) ∷ asks) history clock store (h, timely) agrees =
    elim (Bool-cases (ltb (now + store.ttl) end_of_time)) [
      | inl fits ↦
          rw (generate_token-by token now store username false agrees.usable, fits)
            (ap (λ rest. ok (some token) ∷ rest)
              (answers-Agrees asks ((token, username, now) ∷ history) now
                (insert_token true token (now + store.ttl) username store).1 timely
                (insert_token-Agrees history clock now token username store h agrees)))
      | inr over ↦
          rw (generate_token-by token now store username false agrees.usable, over)
            (ap (λ rest. err panicked ∷ rest)
              (answers-panics asks (record store { poisoned = true }) refl))
    ]
answers-Agrees ((present token, now) ∷ asks) history clock store (h, timely) agrees =
    let (same, lives, agrees') = validate_token-Agrees history clock now token store h agrees in
    let store' = (validate_token token now store).1 in
    ap (λ a. a ∷ answers asks store') same
    ∙ ap (λ rest. ok (user_of store.ttl token now history) ∷ rest)
        (answers-Agrees asks history now store' timely agrees'
          ∙ ap (λ (ttl : ℕ). promised ttl asks history) lives)

-- The token store refines the list of all that was issued: whatever logins and checks are made, in
-- the order of their times, a check is answered with the user to whom the token was last issued if
-- that is less than the time to live ago, and with nothing otherwise. That a check drops the
-- expired tokens is never seen. Once a login's time to live does not end before the last `Instant`,
-- that login and all that follows panics.
pub answers-promised :
    (ttl_seconds : ℕ) (asks : List (Ask × ℕ))
    → Timely 0 asks
    → answers asks (create ttl_seconds) ≡ promised (ttl_seconds * second) asks []
answers-promised ttl_seconds asks timely =
    answers-Agrees asks [] 0 (create ttl_seconds) timely (create-Agrees ttl_seconds)
