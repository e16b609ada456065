-- ===== src/Ldap.antt =====
-- The LDAP backend, src/auth/ldap.rs: what stands in a search filter for the username.
pub mod Login
pub mod Safe
mod Tests
use rust_socksd.Prelude.{ℕ, Bool, List, [], ◌∷◌, ◌++◌, Bytes, lit, ◌==◌, if◌then◌else◌}

-- `str::replace` of a character by a text
unfoldable pub replace : ℕ → Bytes → Bytes → Bytes
replace c text [] = []
replace c text (x ∷ s) = (if x == c then text else x ∷ []) ++ replace c text s

unfoldable pub escape_filter_value : Bytes → Bytes
unfolding replace
escape_filter_value value = replace 0x00 (lit "\\00") (
    replace b')' (lit "\\29")
      (replace b'(' (lit "\\28") (replace b'*' (lit "\\2a") (replace b'\\' (lit "\\5c") value))))
