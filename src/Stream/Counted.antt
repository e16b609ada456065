-- ===== src/Stream/Counted.antt =====
-- Actions on a connection leave the numbers of connections as they are.
use rust_socksd.Prelude.{
  ℕ, ◌≡◌, ◌∙◌, refl, Bool, true, false, Option, none, some, Bytes, Result, ok, err, split_at, zero,
  suc,
}
use rust_socksd.Stream.{
  Conn, Io, continue, read_exact, take_input, write_all, write_some, refuse_if, or_fail, ◌>>=◌,
}

-- The counters of connections are the same.
abbrev pub Steady : Conn → Conn → Type 0
Steady c c' =
    (c'.metrics.active_connections ≡ c.metrics.active_connections)
    × (c'.metrics.total_connections ≡ c.metrics.total_connections)

abbrev pub Keeps {ℓ} : {A : Type ℓ} → Io A → Type 0
Keeps m = (c : Conn) → Steady c (m c).1

Steady-trans : (c c' c'' : Conn) → Steady c c' → Steady c' c'' → Steady c c''
Steady-trans c c' c'' (a, t) (a', t') = (a' ∙ a, t' ∙ t)

pub read_exact-Keeps : (n : ℕ) → Keeps (read_exact n)
unfolding read_exact
read_exact-Keeps n c = taken (split_at n c.input)
  where
    taken : (o : Option (Bytes × Bytes)) → Steady c (take_input o c).1
    taken none = unfold take_input in (refl, refl)
    taken (some (bytes, rest)) = unfold take_input in (refl, refl)

pub write_all-Keeps : (bs : Bytes) → Keeps (write_all bs)
unfolding write_all
write_all-Keeps bs c = written c.writes_left
  where
    written : (k : ℕ) → Steady c (write_some k bs c).1
    written zero = unfold write_some in (refl, refl)
    written (suc k) = unfold write_some in (refl, refl)

pub refuse_if-Keeps : (bad : Bool) (e : Bytes) → Keeps (refuse_if bad e)
unfolding refuse_if
refuse_if-Keeps true e c = (refl, refl)
refuse_if-Keeps false e c = (refl, refl)

pub or_fail-Keeps {ℓ} : {A : Type ℓ} (o : Option A) (e : Bytes) → Keeps (or_fail o e)
unfolding or_fail
or_fail-Keeps none e c = (refl, refl)
or_fail-Keeps (some a) e c = (refl, refl)

continue-Keeps {ℓ κ} :
    {A : Type ℓ} {B : Type κ} (r : Result A) (f : A → Io B) (c : Conn)
    → ((a : A) → Keeps (f a))
    → Steady c (continue r f c).1
continue-Keeps (ok a) f c k = k a c
continue-Keeps (err e) f c k = (refl, refl)

pub bind-Keeps {ℓ κ} :
    {A : Type ℓ} {B : Type κ} (m : Io A) (f : A → Io B)
    → Keeps m
    → ((a : A) → Keeps (f a))
    → Keeps (m >>= f)
unfolding ◌>>=◌
bind-Keeps m f k k' c =
    Steady-trans c (m c).1 (continue (m c).0 f (m c).1).1 (k c)
      (continue-Keeps (m c).0 f (m c).1 k')
