-- ===== src/Ldap/Login/Tests.antt =====
-- A directory with one user.
use rust_socksd.Prelude.{
  ◌≡◌, refl, true, false, [], ◌∷◌, none, Bytes, lit, ok, err, eq_bytes, is_empty, if◌then◌else◌,
}
use rust_socksd.Config.{LdapConfig}
use rust_socksd.Ldap.{escape_filter_value, replace}
use rust_socksd.Ldap.Login.{
  connected, bound, searched, LdapLog, Directory, fill_filter, authenticate,
}
use rust_socksd.Ldap.Login.Sound.{LoggedIn, ldap_login_sound}

abbrev user_dn : Bytes
user_dn = lit "uid=al,dc=x"

-- It takes unauthenticated binds, as RFC 4513 lets it.
abbrev directory : Directory
directory = record {
  connect = λ url. ok tt;
  simple_bind = λ log dn password.
      if is_empty password
      then ok (ok tt)
      else if eq_bytes password (lit "pw")
      then ok (ok tt)
      else ok (err (lit "rc=49"));
  search = λ log base filter.
      if eq_bytes filter (lit "(uid=al)") then ok (ok (user_dn ∷ [])) else ok (ok []);
}

abbrev config : LdapConfig
config = record {
  url = lit "ldap://d";
  base_dn = lit "dc=x";
  bind_dn = none;
  bind_password = none;
  user_filter = lit "(uid={})";
}

abbrev log : LdapLog
log =
    bound user_dn (lit "pw")
    ∷ searched (lit "dc=x") (lit "(uid=al)")
    ∷ bound [] []
    ∷ connected (lit "ldap://d")
    ∷ []

lets_in : authenticate directory config (lit "al") (lit "pw") ≡ (ok true, log)
unfolding authenticate is_empty eq_bytes fill_filter escape_filter_value replace
lets_in = refl

refuses : (authenticate directory config (lit "a*") (lit "pw")).0 ≡ ok false
unfolding authenticate is_empty eq_bytes fill_filter escape_filter_value replace
refuses = refl

ldap_login_sound_example :
    (is_empty (lit "pw") ≡ false) × LoggedIn directory config (lit "al") (lit "pw") log
ldap_login_sound_example = ldap_login_sound directory config (lit "al") (lit "pw") lets_in
