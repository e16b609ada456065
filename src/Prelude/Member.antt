-- ===== src/Prelude/Member.antt =====
-- Membership by recursion, and what `any` says about it.
use mathlib.Core.Path.{◌≡◌, refl}
use mathlib.Core.Logic.{◌⊎◌, inl, inr}
use mathlib.Core.Bool.{Bool, true, false}
use mathlib.Core.List.{List, [], ◌∷◌}
use native.Mathlib.Omega.{arith}
use rust_socksd.Prelude.Lists.{any, all}
use rust_socksd.Prelude.Tests.{Bool-cases}

module _ {A : Type 0} where
  abbrev pub In : A → List A → Type 0
  In a [] = ⊥
  In a (x ∷ xs) = (a ≡ x) ⊎ In a xs

  pub any-eq-true :
      (p : A → Bool) (xs : List A) → any p xs ≡ true → (x : A) × In x xs × (p x ≡ true)
  unfolding any
  any-eq-true p [] h = cc
  any-eq-true p (x ∷ xs) h = elim (Bool-cases (p x)) [
    | inl hit ↦ (x, inl refl, hit)
    | inr miss ↦ let (y, m, e) = any-eq-true p xs (rw miss at h) in (y, inr m, e)
  ]

  pub any_of_In : (p : A → Bool) (xs : List A) (x : A) → In x xs → p x ≡ true → any p xs ≡ true
  unfolding any
  any_of_In p [] x m e = elim m [ ]
  any_of_In p (y ∷ xs) x (inl h) e = ground (arith, rw h at e)
  any_of_In p (y ∷ xs) x (inr m) e = ground (arith, any_of_In p xs x m e)

  pub any_none : (p : A → Bool) (xs : List A) → any p xs ≡ false → (x : A) → In x xs → p x ≡ false
  any_none p xs h x m = elim (Bool-cases (p x)) [
    | inl hit ↦ cc (any_of_In p xs x m hit)
    | inr miss ↦ miss
  ]

  pub any-eq-false :
      (p : A → Bool) (xs : List A) → ((x : A) → In x xs → p x ≡ false) → any p xs ≡ false
  any-eq-false p xs h = elim (Bool-cases (any p xs)) [
    | inl hit ↦ let (x, m, e) = any-eq-true p xs hit in cc (h x m)
    | inr miss ↦ miss
  ]

  pub all_of_In : (p : A → Bool) (xs : List A) → all p xs ≡ true → (x : A) → In x xs → p x ≡ true
  unfolding all
  all_of_In p [] h x m = elim m [ ]
  all_of_In p (y ∷ xs) h x (inl e) = ground (arith, e)
  all_of_In p (y ∷ xs) h x (inr m) = all_of_In p xs (ground arith) x m

  pub all_intro : (p : A → Bool) (xs : List A) → ((x : A) → In x xs → p x ≡ true) → all p xs ≡ true
  unfolding all
  all_intro p [] h = refl
  all_intro p (x ∷ xs) h = ground (arith, h x (inl refl), all_intro p xs (λ y m. h y (inr m)))
