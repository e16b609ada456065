-- ===== src/Admin/Mask/Hidden.antt =====
-- What the masked configuration shows.
use rust_socksd.Prelude.{
  Bool, true, false, ◌≡◌, inl, inr, ◌∙◌, refl, ap, Option, none, some, Bytes, lit, eq_bytes,
  eq_bytes_iff, Bool-cases,
}
use rust_socksd.Admin.Mask.{
  Value, null, boolean, number, text, array, object, Members, end, member, update, in_object, hide,
  hide_backend, hide_secrets,
}

-- The value of a name.
unfoldable pub find : Bytes → Members → Option Value
find name end = none
find name (member key value more) = elim (eq_bytes key name) [
  | true ↦ some value
  | false ↦ find name more
]

abbrev pub mapped : (Value → Value) → Option Value → Option Value
mapped f none = none
mapped f (some v) = some (f v)

module _ (name : Bytes) (f : Value → Value) where
  updated_at :
      (b : Bool) (key : Bytes) (value : Value) (more : Members)
      → eq_bytes key name ≡ b
      → find name (update name f more) ≡ mapped f (find name more)
      → find name (elim b [
        | true ↦ member key (f value) more
        | false ↦ member key value (update name f more)
      ])
        ≡ mapped f (elim b [ true ↦ some value | false ↦ find name more ])
  unfolding find
  updated_at true key value more h rest = rw (h, find) refl
  updated_at false key value more h rest = rw (h, find) rest

  find-update :
      (members : Members) → find name (update name f members) ≡ mapped f (find name members)
  unfolding find update
  find-update end = refl
  find-update (member key value more) =
      updated_at (eq_bytes key name) key value more refl (find-update more)

  -- Another name.
  module _ (other : Bytes) (differs : eq_bytes name other ≡ false) where
    other_at :
        (b : Bool) (key : Bytes) (value : Value) (more : Members)
        → eq_bytes key name ≡ b
        → find other (update name f more) ≡ find other more
        → find other (elim b [
          | true ↦ member key (f value) more
          | false ↦ member key value (update name f more)
        ])
          ≡ find other (member key value more)
    unfolding find
    other_at true key value more h rest = rw ((eq_bytes_iff key name).0 h, differs, find) refl
    other_at false key value more h rest = elim (Bool-cases (eq_bytes key other)) [
      | inl here ↦ rw (here, find) refl
      | inr elsewhere ↦ rw (elsewhere, find) rest
    ]

    find-other : (members : Members) → find other (update name f members) ≡ find other members
    unfolding find update
    find-other end = refl
    find-other (member key value more) =
        other_at (eq_bytes key name) key value more refl (find-other more)

-- The value under a name of an object.
abbrev pub field : Bytes → Value → Option Value
field name (object members) = find name members
field name null = none
field name (boolean b) = none
field name (number n) = none
field name (text s) = none
field name (array items) = none

abbrev pub field_of : Bytes → Option Value → Option Value
field_of name none = none
field_of name (some v) = field name v

-- What is shown of a secret.
abbrev pub hidden : Option Value → Option Value
hidden o = mapped hide o

field-in_object :
    (name : Bytes) (f : Value → Value) (o : Option Value)
    → field_of name (mapped (in_object (update name f)) o) ≡ mapped f (field_of name o)
field-in_object name f none = refl
field-in_object name f (some (object members)) = find-update name f members
field-in_object name f (some null) = refl
field-in_object name f (some (boolean b)) = refl
field-in_object name f (some (number n)) = refl
field-in_object name f (some (text s)) = refl
field-in_object name f (some (array items)) = refl

abbrev pub admin : Bytes
admin = lit "admin"

abbrev pub upstream : Bytes
upstream = lit "upstream"

abbrev pub auth : Bytes
auth = lit "auth"

abbrev pub backend : Bytes
backend = lit "backend"

abbrev hide_in_backend : Value → Value
hide_in_backend = in_object (update backend (in_object hide_backend))

no_field :
    (name : Bytes) (f : Value → Value) (members : Members)
    → find name members ≡ none
    → update name f members ≡ members
unfolding find update
no_field name f end h = refl
no_field name f (member key value more) h = elim (Bool-cases (eq_bytes key name)) [
  | inl here ↦ cc (rw (here, find) at h)
  | inr elsewhere ↦
      rw (elsewhere, update)
        (ap (member key value) (no_field name f more (rw (elsewhere, find) at h)))
]

-- Of the members of a configuration: the token of the admin interface and the password of the
-- upstream proxy are shown as stars if they are set; what stands in `auth` is shown as it is if it
-- has no member `backend`, and so are its passwords.
pub hide_secrets-find :
    (members : Members)
    → (field_of (lit "token") (find admin (hide_secrets members))
        ≡ hidden (field_of (lit "token") (find admin members)))
      × (field_of (lit "password") (find upstream (hide_secrets members))
          ≡ hidden (field_of (lit "password") (find upstream members)))
      × ((shown : Members)
          → find auth members ≡ some (object shown)
          → find backend shown ≡ none
          → find auth (hide_secrets members) ≡ some (object shown))
unfolding eq_bytes
hide_secrets-find members =
    let hide_token : Value → Value = in_object (update (lit "token") hide) in
    let hide_password : Value → Value = in_object (update (lit "password") hide) in
    let first = update admin hide_token members in
    let second = update upstream hide_password first in
    (
      ap (field_of (lit "token")) (
            find-other auth hide_in_backend admin refl second
            ∙ find-other upstream hide_password admin refl first
            ∙ find-update admin hide_token members)
          ∙ field-in_object (lit "token") hide (find admin members),
      ap (field_of (lit "password")) (
            find-other auth hide_in_backend upstream refl second
            ∙ find-update upstream hide_password first
            ∙ ap (mapped hide_password) (find-other admin hide_token upstream refl members))
          ∙ field-in_object (lit "password") hide (find upstream members),
      λ shown h none_there.
          find-update auth hide_in_backend second
          ∙ ap (mapped hide_in_backend) (
              find-other upstream hide_password auth refl first
              ∙ find-other admin hide_token auth refl members
              ∙ h)
          ∙ ap (λ m. some (object m)) (no_field backend (in_object hide_backend) shown none_there),
    )
