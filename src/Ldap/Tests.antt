-- ===== src/Ldap/Tests.antt =====
-- A username that would otherwise open a filter.
use rust_socksd.Prelude.{◌≡◌, refl, false, Bytes, lit}
use rust_socksd.Text.{contains_byte}
use rust_socksd.Ldap.{escape_filter_value}
use rust_socksd.Ldap.Safe.{escape_filter_value_safe}

abbrev name : Bytes
name = lit "a*)(uid=\\"

escaped : escape_filter_value name ≡ lit "a\\2a\\29\\28uid=\\5c"
unfolding escape_filter_value
escaped = refl

escape_filter_value_safe_example :
    (contains_byte b'*' (escape_filter_value name) ≡ false)
    × (contains_byte b'(' (escape_filter_value name) ≡ false)
    × (contains_byte b')' (escape_filter_value name) ≡ false)
    × (contains_byte 0x00 (escape_filter_value name) ≡ false)
escape_filter_value_safe_example = escape_filter_value_safe name
