-- ===== src/Admin/Routes/Grants.antt =====
-- When an endpoint puts a token into the store.
use rust_socksd.Prelude.{
  ℕ, ◌+◌, Bool, true, false, ◌≡◌, ◌⊎◌, inl, inr, ◌∙◌, refl, sym, ap, subst, Option, none, some,
  Bytes, lit, Result, ok, err, eq_bytes, eq_bytes_iff, In, any-eq-true, if◌then◌else◌, ltb,
  Bool-cases,
}
use rust_socksd.Text.{Unicode}
use rust_socksd.Map.{lookup, IsMap, bytes_key}
use rust_socksd.Map.Laws.{kept, lookup-insert, lookup-retain}
use rust_socksd.Config.{Config}
use rust_socksd.Stream.{Conn}
use rust_socksd.Admin.{AdminRequest, is_static, check_token, parse_basic_auth}
use rust_socksd.Admin.Tokens.{
  TokenInfo, TokenStore, end_of_time, insert_token, generate_token, validate_token,
}
use rust_socksd.Admin.Endpoints.{
  Setting, AdminState, respond, login_accepted, answer_token, grant_token, judge_login, login_as,
  handle_login,
}
use rust_socksd.Admin.Routes.{is_route}

module _ ⦃u : Unicode⦄ (x : Setting) (s : AdminState) where
  -- A login with a username and password that the backend accepts, of one of the admin users, for
  -- the token that was drawn, from now on for the time to live.
  abbrev pub LoggedIn : AdminRequest → Bytes → TokenInfo → Type 0
  LoggedIn req token info =
      (auth_header : Bytes) × (username : Bytes) × (password : Bytes) × (is_route (lit "POST")
          (lit "/login") req
        ≡ true)
      × (lookup (lit "authorization") req.headers ≡ some auth_header)
      × (parse_basic_auth x.formats.decode auth_header ≡ some (username, password))
      × (login_accepted s.server.authenticator username password ≡ true)
      × In username s.server.config.admin.admin_users
      × (token ≡ x.new_token)
      × (info.username ≡ username)
      × (info.expires_at ≡ x.now + s.store.ttl)

  -- A token of the store is an old one or `Goal` says why it is there.
  abbrev pub Earned : (Bytes → TokenInfo → Type 0) → TokenStore → Type 0
  Earned Goal store =
      (token : Bytes) (info : TokenInfo)
      → lookup token store.tokens ≡ some info
      → (lookup token s.store.tokens ≡ some info) ⊎ Goal token info

  same_store :
      (Goal : Bytes → TokenInfo → Type 0) (store : TokenStore) → store ≡ s.store → Earned Goal store
  same_store Goal store same token info h =
      inl (subst (λ store. lookup token store.tokens ≡ some info) same h)

  -- A new entry.
  abbrev Granted : Bytes → Bytes → TokenInfo → Type 0
  Granted username token info =
      (token ≡ x.new_token) × (info.username ≡ username) × (info.expires_at ≡ x.now + s.store.ttl)

  abbrev value_of {ℓ} : {A : Type ℓ} → A → Option A → A
  value_of d none = d
  value_of d (some a) = a

  either_entry :
      (b : Bool) (username token : Bytes) (old : Option TokenInfo) (info : TokenInfo)
      → (b ≡ true → x.new_token ≡ token)
      → (if b then some (record { username = username; expires_at = x.now + s.store.ttl }) else old)
        ≡ some info
      → (old ≡ some info) ⊎ Granted username token info
  either_entry false username token old info is_new h = inl h
  either_entry true username token old info is_new h =
      let same = ap (value_of info) h in
      inr (sym (is_new refl), sym (ap (λ i. i.username) same), sym (ap (λ i. i.expires_at) same))

  insert_token-Earned :
      (fits : Bool) (username : Bytes)
      → Earned
          (Granted username)
          (insert_token fits x.new_token (x.now + s.store.ttl) username s.store).1
  unfolding insert_token
  insert_token-Earned false username token info h = inl h
  insert_token-Earned true username token info h =
      either_entry (eq_bytes x.new_token token) username token (lookup token s.store.tokens) info
        (eq_bytes_iff x.new_token token).0
        (sym (lookup-insert x.new_token token _ s.store.tokens) ∙ h)

  generate_token-Earned :
      (username : Bytes)
      → Earned (Granted username) (generate_token x.new_token x.now username s.store).1
  unfolding generate_token
  generate_token-Earned username token info h = elim (Bool-cases s.store.poisoned) [
    | inl poisoned ↦ inl (rw (poisoned, generate_token) at h)
    | inr usable ↦
        insert_token-Earned (ltb (x.now + s.store.ttl) end_of_time) username token info
          (rw (usable, generate_token) at h)
  ]

  answer_token-store :
      (ttl : ℕ) (r : Result Bytes × TokenStore) (c : Conn)
      → (answer_token x ttl r s c).1.store ≡ r.1
  unfolding answer_token respond
  answer_token-store ttl (ok token, store) c = refl
  answer_token-store ttl (err e, store) c = refl

  grant_token-Earned :
      (b : Bool) (username : Bytes) (ttl : ℕ) (c : Conn)
      → Earned
          (λ token info. (b ≡ true) × Granted username token info)
          (grant_token x b username ttl s c).1.store
  unfolding grant_token respond
  grant_token-Earned false username ttl c token info h = inl h
  grant_token-Earned true username ttl c token info h =
      elim (generate_token-Earned username token info (
        subst (λ store. lookup token store.tokens ≡ some info)
          (answer_token-store ttl (generate_token x.new_token x.now username s.store) c) h)) [
            | inl old ↦ inl old
            | inr new ↦ inr (refl, new)
          ]

  judge_login-Earned :
      (b : Bool) (username : Bytes) (c : Conn)
      → Earned
          (λ token info.
            (b ≡ true)
            × In username s.server.config.admin.admin_users
            × Granted username token info)
          (judge_login x b username s c).1.store
  unfolding judge_login respond
  judge_login-Earned false username c token info h = inl h
  judge_login-Earned true username c token info h =
      elim (grant_token-Earned _ username s.server.config.admin.token_ttl c token info h) [
        | inl old ↦ inl old
        | inr (listed, granted) ↦
            let (user, member, same) =
              any-eq-true (eq_bytes username) s.server.config.admin.admin_users listed in
            inr (
              refl,
              subst (λ n. In n s.server.config.admin.admin_users)
                  (sym ((eq_bytes_iff username user).0 same)) member,
              granted,
            )
      ]

  login_as-Earned :
      (o : Option (Bytes × Bytes)) (c : Conn)
      → Earned
          (λ token info.
            (username : Bytes) × (password : Bytes) × (o ≡ some (username, password))
            × (login_accepted s.server.authenticator username password ≡ true)
            × In username s.server.config.admin.admin_users
            × Granted username token info)
          (login_as x o s c).1.store
  unfolding login_as respond
  login_as-Earned none c token info h = inl h
  login_as-Earned (some (username, password)) c token info h =
      elim (judge_login-Earned _ username c token info h) [
        | inl old ↦ inl old
        | inr (accepted, member, granted) ↦
            inr (username, password, refl, accepted, member, granted)
      ]

  pub handle_login-Earned :
      (req : AdminRequest) (o : Option Bytes) (c : Conn)
      → is_route (lit "POST") (lit "/login") req ≡ true
      → lookup (lit "authorization") req.headers ≡ o
      → Earned (LoggedIn req) (handle_login x o s c).1.store
  unfolding handle_login respond
  handle_login-Earned req none c posted header token info h = inl h
  handle_login-Earned req (some auth_header) c posted header token info h =
      elim (login_as-Earned (parse_basic_auth x.formats.decode auth_header) c token info h) [
        | inl old ↦ inl old
        | inr (username, password, parsed, accepted, member, (is_new, named, until)) ↦ inr (
          auth_header, username, password, posted, header, parsed, accepted, member, is_new, named,
          until,
        )
      ]

  kept-eq-some :
      (p : TokenInfo → Bool) (o : Option TokenInfo) {info : TokenInfo}
      → kept p o ≡ some info
      → o ≡ some info
  kept-eq-some p none h = h
  kept-eq-some p (some i) h = elim (Bool-cases (p i)) [
    | inl alive ↦ rw alive at h
    | inr expired ↦ cc (rw expired at h)
  ]

  -- A store that lost some tokens.
  abbrev pub Fewer : TokenStore → Type 0
  Fewer store =
      (token : Bytes) (info : TokenInfo)
      → lookup token store.tokens ≡ some info
      → lookup token s.store.tokens ≡ some info

  pub check_token-Fewer :
      (config : Config) (o : Option Bytes)
      → IsMap s.store.tokens
      → Fewer (check_token config x.now o s.store).1
  unfolding check_token validate_token
  check_token-Fewer config none m token info h = h
  check_token-Fewer config (some given) m token info h =
      elim (Bool-cases (is_static config given)) [
        | inl static ↦ rw (static, check_token) at h
        | inr dynamic ↦ elim (Bool-cases s.store.poisoned) [
          | inl poisoned ↦ rw (dynamic, poisoned, check_token, validate_token) at h
          | inr usable ↦
              kept-eq-some (λ i. ltb x.now i.expires_at) (lookup token s.store.tokens)
                (sym (lookup-retain (λ i. ltb x.now i.expires_at) token s.store.tokens m)
                  ∙ (rw (dynamic, usable, check_token, validate_token) at h))
        ]
      ]
