-- ===== src/Ldap/Login/Sound.antt =====
-- Whom the LDAP backend lets in.
use rust_socksd.Prelude.{
  true, false, ◌≡◌, refl, sym, ap, List, [], ◌∷◌, Bytes, Result, ok, err, is_empty, Bool-cases, inl,
  inr,
}
use rust_socksd.Config.{LdapConfig}
use rust_socksd.Ldap.Login.{
  connected, bound, searched, LdapLog, Answer, Directory, search_identity, search_filter, verdict,
  verify, check_entries, find_user, bind_to_search, authenticate,
}

verdict-eq-ok : (answer : Answer (Unit {0})) → verdict answer ≡ ok true → answer ≡ ok (ok tt)
unfolding verdict
verdict-eq-ok (ok (ok tt)) h = refl
verdict-eq-ok (ok (err e)) h = cc
verdict-eq-ok (err e) h = cc

module _ (d : Directory) (a : LdapConfig) where
  check_entries_sound :
      (answer : Answer (List Bytes)) (password : Bytes) (log : LdapLog) {log' : LdapLog}
      → check_entries d a answer password log ≡ (ok true, log')
      → (user_dn : Bytes) × (answer ≡ ok (ok (user_dn ∷ [])))
        × (d.simple_bind log user_dn password ≡ ok (ok tt))
        × (log' ≡ bound user_dn password ∷ log)
  unfolding check_entries verify
  check_entries_sound (err e) password log h = cc
  check_entries_sound (ok (err e)) password log h = cc
  check_entries_sound (ok (ok [])) password log h = cc
  check_entries_sound (ok (ok (dn ∷ dn' ∷ more))) password log h = cc
  check_entries_sound (ok (ok (dn ∷ []))) password log h =
      (dn, refl, verdict-eq-ok _ (ap (λ r. r.0) h), sym (ap (λ r. r.1) h))

  -- What a login that succeeds has asked: one search, with the escaped name, that found one entry,
  -- and a bind as that entry with the password.
  abbrev pub LoggedIn : Bytes → Bytes → LdapLog → Type 0
  LoggedIn username password log =
      let (bind_dn, bind_pw) = search_identity a in
      let filter = search_filter a username in
      let bind_log = bound bind_dn bind_pw ∷ connected a.url ∷ [] in
      (user_dn : Bytes) × (d.search bind_log a.base_dn filter ≡ ok (ok (user_dn ∷ [])))
      × (d.simple_bind (searched a.base_dn filter ∷ bind_log) user_dn password ≡ ok (ok tt))
      × (log ≡ bound user_dn password ∷ searched a.base_dn filter ∷ bind_log)

  find_user_sound :
      (answer : Answer (Unit {0})) (username password : Bytes) {log : LdapLog}
      → let (bind_dn, bind_pw) = search_identity a in
        find_user d a answer username password (bound bind_dn bind_pw ∷ connected a.url ∷ [])
          ≡ (ok true, log)
        → LoggedIn username password log
  unfolding find_user
  find_user_sound (err e) username password h = cc
  find_user_sound (ok (err e)) username password h = cc
  find_user_sound (ok (ok done)) username password h = check_entries_sound _ password _ h

  bind_to_search_sound :
      (connection : Result (Unit {0})) (username password : Bytes) {log : LdapLog}
      → bind_to_search d a connection username password (connected a.url ∷ []) ≡ (ok true, log)
      → LoggedIn username password log
  unfolding bind_to_search
  bind_to_search_sound (err e) username password h = cc
  bind_to_search_sound (ok done) username password h = find_user_sound _ username password h

  -- A login that succeeds has a password that is not empty, has found exactly one entry by the
  -- filter with the escaped name, and has bound as that entry with that password; no other bind
  -- has used the password.
  pub ldap_login_sound :
      (username password : Bytes) {log : LdapLog}
      → authenticate d a username password ≡ (ok true, log)
      → (is_empty password ≡ false) × LoggedIn username password log
  unfolding authenticate
  ldap_login_sound username password h = elim (Bool-cases (is_empty password)) [
    | inl empty ↦ cc (rw (empty, authenticate) at h)
    | inr given ↦ (given, bind_to_search_sound _ username password (rw (given, authenticate) at h))
  ]

  -- An empty password is refused before the directory is asked anything.
  pub ldap_login_empty : (username : Bytes) → authenticate d a username [] ≡ (ok false, [])
  unfolding authenticate is_empty
  ldap_login_empty username = refl
