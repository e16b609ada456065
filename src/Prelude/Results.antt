-- ===== src/Prelude/Results.antt =====
-- `anyhow::Result`: an error is its message, since the program inspects nothing else of one.
use mathlib.Core.Path.{◌≡◌, refl}
use mathlib.Core.Bool.{Bool, true, false}
use mathlib.Core.Option.{Option, none, some}
use rust_socksd.Prelude.Lists.{Bytes}

pub data Result {ℓ} (T : Type ℓ) : Type ℓ where
  err : Bytes → Result T
  ok : T → Result T

-- `ok_or_else`
abbrev pub or_err {ℓ} : {T : Type ℓ} → Option T → Bytes → Result T
or_err (some value) message = ok value
or_err none message = err message

-- `if bad { return Err(e) }`
abbrev pub refuse_if : Bool → Bytes → Result (Unit {0})
refuse_if bad message = elim bad [ true ↦ err message | false ↦ ok tt ]

-- `?`
infixl 5 ◌>>=◌
abbrev pub ◌>>=◌ {ℓ κ} : {T : Type ℓ} {U : Type κ} → Result T → (T → Result U) → Result U
◌>>=◌ r next = elim r [ err message ↦ err message | ok value ↦ next value ]

pub >>=-eq-ok {ℓ κ} :
    {T : Type ℓ} {U : Type κ} (r : Result T) (next : T → Result U) {u : U}
    → (r >>= next) ≡ ok u
    → (value : T) × (r ≡ ok value) × (next value ≡ ok u)
>>=-eq-ok (err message) next h = cc
>>=-eq-ok (ok value) next h = (value, refl, h)

infixl 5 ◌>>◌
abbrev pub ◌>>◌ {κ} : {U : Type κ} → Result (Unit {0}) → Result U → Result U
first >> next = first >>= λ done. next
