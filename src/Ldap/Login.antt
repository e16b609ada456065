-- ===== src/Ldap/Login.antt =====
-- `LdapAuthenticator::authenticate`: bind, search for the user, bind as the user. The directory is
-- a parameter, whose answers may depend on what the connection was used for before. An answer is an
-- error of the connection, an error of the operation, or a value; an entry that the search finds is
-- its name.
pub mod Sound
mod Tests
use rust_socksd.Prelude.{
  ℕ, Bool, true, false, ◌&&◌, List, [], ◌∷◌, ◌++◌, Option, none, some, Bytes, lit, Result, ok, err,
  ◌==◌, is_empty,
}
use rust_socksd.Auth.{Authenticator}
use rust_socksd.Config.{LdapConfig}
use rust_socksd.Ldap.{escape_filter_value}

pub data LdapEvent : Type 0 where
  connected : Bytes → LdapEvent
  bound searched : Bytes → Bytes → LdapEvent

-- What was asked over a connection, the latest first.
abbrev pub LdapLog : Type 0
LdapLog = List LdapEvent

abbrev pub Answer : Type 0 → Type 0
Answer A = Result (Result A)

pub record Directory : Type 0 where
  pub connect : Bytes → Result (Unit {0})
  pub simple_bind : LdapLog → Bytes → Bytes → Answer (Unit {0})
  pub search : LdapLog → Bytes → Bytes → Answer (List Bytes)

-- `user_filter.replace("{}", &safe_username)`
unfoldable pub fill_filter : Bytes → Bytes → Bytes
fill_filter text [] = []
fill_filter text (x ∷ []) = x ∷ []
fill_filter text (x ∷ y ∷ s) = elim ((x == b'{') && (y == b'}')) [
  | true ↦ text ++ fill_filter text s
  | false ↦ x ∷ fill_filter text (y ∷ s)
]

abbrev or_empty : Option Bytes → Bytes
or_empty none = []
or_empty (some s) = s

-- The name and the password of the first bind.
abbrev pub search_identity : LdapConfig → Bytes × Bytes
search_identity a = elim a.bind_dn [
  | some bind_dn ↦ (bind_dn, or_empty a.bind_password)
  | none ↦ ([], [])
]

abbrev pub search_filter : LdapConfig → Bytes → Bytes
search_filter a username = fill_filter (escape_filter_value username) a.user_filter

verdict : Answer (Unit {0}) → Result Bool
verdict (ok (ok done)) = ok true
verdict (ok (err e)) = ok false
verdict (err e) = ok false

module _ (d : Directory) (a : LdapConfig) where
  verify : Bytes → Bytes → LdapLog → Result Bool × LdapLog
  unfolding verdict
  verify user_dn password log =
      (verdict (d.simple_bind log user_dn password), bound user_dn password ∷ log)

  unfoldable pub check_entries : Answer (List Bytes) → Bytes → LdapLog → Result Bool × LdapLog
  unfolding verify
  check_entries (err e) password log = (err (lit "LDAP search failed: " ++ e), log)
  check_entries (ok (err e)) password log = (err (lit "LDAP search error: " ++ e), log)
  check_entries (ok (ok [])) password log = (ok false, log)
  check_entries (ok (ok (user_dn ∷ []))) password log = verify user_dn password log
  check_entries (ok (ok (user_dn ∷ other ∷ more))) password log = (ok false, log)

  unfoldable pub find_user : Answer (Unit {0}) → Bytes → Bytes → LdapLog → Result Bool × LdapLog
  unfolding check_entries
  find_user (err e) username password log = (err (lit "LDAP bind failed: " ++ e), log)
  find_user (ok (err e)) username password log = (err (lit "LDAP bind error: " ++ e), log)
  find_user (ok (ok done)) username password log =
      let filter = search_filter a username in
      check_entries (d.search log a.base_dn filter) password (searched a.base_dn filter ∷ log)

  unfoldable pub bind_to_search :
      Result (Unit {0}) → Bytes → Bytes → LdapLog → Result Bool × LdapLog
  unfolding find_user
  bind_to_search (err e) username password log =
      (err (lit "Failed to connect to LDAP server: " ++ e), log)
  bind_to_search (ok done) username password log =
      let (bind_dn, bind_pw) = search_identity a in
      find_user (d.simple_bind log bind_dn bind_pw) username password (bound bind_dn bind_pw ∷ log)

  unfoldable pub authenticate : Bytes → Bytes → Result Bool × LdapLog
  unfolding bind_to_search
  authenticate username password = elim (is_empty password) [
    | true ↦ (ok false, [])
    | false ↦ bind_to_search (d.connect a.url) username password (connected a.url ∷ [])
  ]

  -- `LdapAuthenticator`
  abbrev pub ldap_authenticator : Authenticator
  ldap_authenticator = record {
    authenticate = λ username password. (authenticate username password).0;
  }
