-- ===== src/Map.antt =====
-- `HashMap` as an association list. The order of the entries stands for the unspecified order of
-- iteration; `IsMap` says that no key has two entries.
pub mod Laws
use rust_socksd.Prelude.{
  ℕ, Bool, true, ◌≡◌, ◌↔◌, List, [], ◌∷◌, Option, none, some, if◌then◌else◌, Bytes, eq_bytes,
  eq_bytes_iff,
}
use rust_socksd.Net.{IpAddr, eq_ip, eq_ip_iff}

-- `Eq` of a key type
pub record Key (K : Type 0) : Type 0 where
  pub same : K → K → Bool
  pub same_iff : (a b : K) → (same a b ≡ true) ↔ (a ≡ b)

instance abbrev pub bytes_key : Key Bytes
bytes_key = record { same = eq_bytes; same_iff = eq_bytes_iff }

instance abbrev pub ip_key : Key IpAddr
ip_key = record { same = eq_ip; same_iff = eq_ip_iff }

-- `retain` by a test on the values
unfoldable pub retain : {K V : Type 0} → (V → Bool) → List (K × V) → List (K × V)
retain p [] = []
retain p ((j, w) ∷ m) = let rest = retain p m in if p w then (j, w) ∷ rest else rest

module _ {K V : Type 0} ⦃e : Key K⦄ where
  -- `get`, and `contains_key` where only its form is looked at
  unfoldable pub lookup : K → List (K × V) → Option V
  lookup k [] = none
  lookup k ((j, v) ∷ m) = if e.same j k then some v else lookup k m

  unfoldable pub insert : K → V → List (K × V) → List (K × V)
  insert k v [] = (k, v) ∷ []
  insert k v ((j, w) ∷ m) = if e.same j k then (k, v) ∷ m else (j, w) ∷ insert k v m

  unfoldable pub remove : K → List (K × V) → List (K × V)
  remove k [] = []
  remove k ((j, w) ∷ m) = let rest = remove k m in if e.same j k then rest else (j, w) ∷ rest

  abbrev pub IsMap : List (K × V) → Type 0
  IsMap [] = Unit {0}
  IsMap ((j, w) ∷ m) = (lookup j m ≡ none) × IsMap m
