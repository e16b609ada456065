-- ===== src/Admin/Mask.antt =====
-- `get_masked_config`: what of the configuration is shown. A JSON object is its members in some
-- order, whose names differ.
pub mod Hidden
use rust_socksd.Prelude.{ℕ, Bool, true, false, Bytes, lit, Result, ok, err, eq_bytes}

mutual
  pub data Value : Type 0 where
    null : Value
    boolean : Bool → Value
    number : ℕ → Value
    text : Bytes → Value
    array : Items → Value
    object : Members → Value

  pub data Items : Type 0 where
    no_more : Items
    item : Value → Items → Items

  pub data Members : Type 0 where
    end : Members
    member : Bytes → Value → Members → Members

-- `get_mut(name)` and what is done to the value that it finds.
unfoldable pub update : Bytes → (Value → Value) → Members → Members
update name f end = end
update name f (member key value more) = elim (eq_bytes key name) [
  | true ↦ member key (f value) more
  | false ↦ member key value (update name f more)
]

-- `as_object_mut`
abbrev pub in_object : (Members → Members) → Value → Value
in_object f (object members) = object (f members)
in_object f null = null
in_object f (boolean b) = boolean b
in_object f (number n) = number n
in_object f (text s) = text s
in_object f (array items) = array items

abbrev pub stars : Value
stars = text (lit "******")

-- A secret that is not null.
abbrev pub hide : Value → Value
hide null = null
hide v = stars

abbrev pub hide_field : Bytes → Members → Members
hide_field name = update name hide

-- `auth.backend`
abbrev pub hide_backend : Members → Members
hide_backend members = hide_field (lit "url") (hide_field (lit "bind_password") members)

abbrev pub hide_secrets : Members → Members
hide_secrets members =
    let no_token = update (lit "admin") (in_object (hide_field (lit "token"))) members in
    let no_password = update (lit "upstream") (in_object (hide_field (lit "password"))) no_token in
    update (lit "auth") (in_object (update (lit "backend") (in_object hide_backend))) no_password

-- Of the configuration as a JSON value, if it has one.
unfoldable pub get_masked_config : Result Value → Value
unfolding update
get_masked_config (ok value) = in_object hide_secrets value
get_masked_config (err e) = null
