-- ===== src/Stream/Sound.antt =====
-- What follows when an action, or a chain of them, has succeeded.
use rust_socksd.Prelude.{
  ℕ, ◌≡◌, ap, refl, Bool, true, false, ◌++◌, Option, none, some, Bytes, Result, ok, err, split_at,
  split_at_sound, Option-cases, inl, inr, length, arith,
}
use rust_socksd.Stream.{
  Conn, Io, continue, read_exact, take_input, write_all, write_some, refuse_if, or_fail, ◌>>=◌,
}

-- What a successful read says.
pub read_exact_sound :
    (n : ℕ) (c c' : Conn) (bytes : Bytes)
    → read_exact n c ≡ (ok bytes, c')
    → (c.input ≡ bytes ++ c'.input)
      × (length bytes ≡ n)
      × (c'.output ≡ c.output)
      × (c'.writes_left ≡ c.writes_left)
      × (c'.metrics ≡ c.metrics)
unfolding read_exact
read_exact_sound n c c' bytes h = elim (Option-cases (split_at n c.input)) [
  | inl short ↦ cc (rw (short, take_input) at h)
  | inr ((front, rest), e) ↦ ground (arith, rw (e, take_input) at h, split_at_sound c.input n e)
]

-- What a successful write says.
pub write_all_sound :
    (bs : Bytes) (c c' : Conn) (u : Unit {0})
    → write_all bs c ≡ (ok u, c')
    → (c'.input ≡ c.input) × (c'.output ≡ c.output ++ bs) × (c'.metrics ≡ c.metrics)
unfolding write_all write_some
write_all_sound bs c c' u h = ground arith

continue-eq-ok {ℓ κ} :
    {A : Type ℓ} {B : Type κ} (r : Result A) (f : A → Io B) {c c' : Conn} {b : B}
    → continue r f c ≡ (ok b, c')
    → (a : A) × (r ≡ ok a) × (f a c ≡ (ok b, c'))
continue-eq-ok (ok a) f h = (a, refl, h)
continue-eq-ok (err e) f h = cc

-- The parts of a successful chain.
pub bind-eq-ok {ℓ κ} :
    {A : Type ℓ} {B : Type κ} (m : Io A) (f : A → Io B) {c c' : Conn} {b : B}
    → (m >>= f) c ≡ (ok b, c')
    → (a : A) × (c₁ : Conn) × (m c ≡ (ok a, c₁)) × (f a c₁ ≡ (ok b, c'))
unfolding ◌>>=◌
bind-eq-ok m f {c} h =
    let (a, e, k) = continue-eq-ok (m c).0 f h in (a, (m c).1, ap (λ r. (r, (m c).1)) e, k)

-- The parts of a successful read and of what is done with the bytes.
pub read-bind-eq-ok {ℓ} :
    {B : Type ℓ} (n : ℕ) (f : Bytes → Io B) (c : Conn) {c' : Conn} {b : B}
    → (read_exact n >>= f) c ≡ (ok b, c')
    → (bytes : Bytes) × (c₁ : Conn) × (c.input ≡ bytes ++ c₁.input)
      × (length bytes ≡ n)
      × (c₁.output ≡ c.output)
      × (f bytes c₁ ≡ (ok b, c'))
read-bind-eq-ok n f c h =
    let (bytes, c₁, e, k) = bind-eq-ok (read_exact n) f h in
    let s = read_exact_sound n c c₁ bytes e in (bytes, c₁, s.0, s.1, s.2, k)

-- A guard that let the action pass.
pub refuse_if-bind-eq-ok {ℓ} :
    {B : Type ℓ} (bad : Bool) (e : Bytes) (f : Unit {0} → Io B) (c : Conn) {c' : Conn} {b : B}
    → (refuse_if bad e >>= f) c ≡ (ok b, c')
    → (bad ≡ false) × (f tt c ≡ (ok b, c'))
unfolding ◌>>=◌ refuse_if
refuse_if-bind-eq-ok true e f c h = cc
refuse_if-bind-eq-ok false e f c h = (refl, h)

-- A value that was there.
pub or_fail-bind-eq-ok {ℓ κ} :
    {A : Type ℓ} {B : Type κ} (o : Option A) (e : Bytes) (f : A → Io B) (c : Conn) {c' : Conn}
    {b : B}
    → (or_fail o e >>= f) c ≡ (ok b, c')
    → (a : A) × (o ≡ some a) × (f a c ≡ (ok b, c'))
unfolding ◌>>=◌ or_fail
or_fail-bind-eq-ok none e f c h = cc
or_fail-bind-eq-ok (some a) e f c h = (a, refl, h)

pub write-bind-eq-ok {ℓ} :
    {B : Type ℓ} (bs : Bytes) (f : Unit {0} → Io B) (c : Conn) {c' : Conn} {b : B}
    → (write_all bs >>= f) c ≡ (ok b, c')
    → (c₁ : Conn) × (c₁.input ≡ c.input) × (c₁.output ≡ c.output ++ bs) × (f tt c₁ ≡ (ok b, c'))
write-bind-eq-ok bs f c h =
    let (u, c₁, e, k) = bind-eq-ok (write_all bs) f h in
    let s = write_all_sound bs c c₁ u e in (c₁, s.0, s.1, k)
