-- ===== src/Stream.antt =====
-- A connection as the handlers see it: the bytes that the peer will have sent when it stops
-- sending, the bytes written so far, how many more writes the peer takes before it is gone, and
-- the counters that the handlers share. An action keeps what it has read and written when it fails.
pub mod Sound
pub mod Counted
use rust_socksd.Prelude.{
  ℕ, zero, suc, ◌≡◌, ◌∙◌, ap, refl, Bool, true, false, List, [], ◌∷◌, ◌++◌, Option, none, some,
  Bytes, lit, Result, ok, err, split_at, split_at-append, split_at_sound, Option-cases, inl, inr,
  length, length-append, arith, append-nil,
}
use rust_socksd.Metrics.{ServerMetrics}

pub record Conn : Type 0 where
  pub input : Bytes
  pub output : Bytes
  pub writes_left : ℕ
  pub metrics : ServerMetrics

abbrev pub Io {ℓ} : Type ℓ → Type ℓ
Io A = Conn → Result A × Conn

abbrev pub continue {ℓ κ} : {A : Type ℓ} {B : Type κ} → Result A → (A → Io B) → Io B
continue (ok a) f c = f a c
continue (err e) f c = (err e, c)

infixl 5 ◌>>=◌ ◌>>◌
unfoldable pub ◌>>=◌ {ℓ κ} : {A : Type ℓ} {B : Type κ} → Io A → (A → Io B) → Io B
◌>>=◌ m f c = continue (m c).0 f (m c).1

abbrev pub ◌>>◌ {ℓ κ} : {A : Type ℓ} {B : Type κ} → Io A → Io B → Io B
m >> k = m >>= λ _. k

abbrev pub pure {ℓ} : {A : Type ℓ} → A → Io A
pure a c = (ok a, c)

abbrev pub fail {ℓ} : {A : Type ℓ} → Bytes → Io A
fail e c = (err e, c)

-- `if bad { return Err(e) }`
unfoldable pub refuse_if : Bool → Bytes → Io (Unit {0})
refuse_if true e = fail e
refuse_if false e = pure tt

-- `ok_or_else`
unfoldable pub or_fail {ℓ} : {A : Type ℓ} → Option A → Bytes → Io A
or_fail none e = fail e
or_fail (some a) e = pure a

take_input : Option (Bytes × Bytes) → Io Bytes
take_input none c = (err (lit "early eof"), record c { input = [] })
take_input (some (bytes, rest)) c = (ok bytes, record c { input = rest })

-- `read_exact` into a buffer of `n` bytes
unfoldable pub read_exact : ℕ → Io Bytes
unfolding take_input split_at
read_exact n c = take_input (split_at n c.input) c

write_some : ℕ → Bytes → Io (Unit {0})
write_some zero bs c = (err (lit "broken pipe"), c)
write_some (suc k) bs c = (ok tt, record c { output = c.output ++ bs; writes_left = k })

-- `write_all`
unfoldable pub write_all : Bytes → Io (Unit {0})
unfolding write_some
write_all bs c = write_some c.writes_left bs c

abbrev pub conn : Bytes → Bytes → ℕ → ServerMetrics → Conn
conn input output writes_left metrics = record {
  input = input;
  output = output;
  writes_left = writes_left;
  metrics = metrics;
}

-- Reading as many bytes as stand in front of the input.
pub read_exact-append :
    (bytes rest output : Bytes) (k : ℕ) (m : ServerMetrics)
    → read_exact (length bytes) (conn (bytes ++ rest) output k m) ≡ (ok bytes, conn rest output k m)
unfolding read_exact
read_exact-append bytes rest output k m =
    ap (λ o. take_input o (conn (bytes ++ rest) output k m))
      (split_at-append bytes rest (length bytes) refl)

-- Reading bytes of a known number.
pub read_exact_of :
    (bytes : Bytes) (n : ℕ)
    → length bytes ≡ n
    → (rest output : Bytes) (k : ℕ) (m : ServerMetrics)
    → read_exact n (conn (bytes ++ rest) output k m) ≡ (ok bytes, conn rest output k m)
unfolding read_exact
read_exact_of bytes n e rest output k m =
    ap (λ o. take_input o (conn (bytes ++ rest) output k m)) (split_at-append bytes rest n e)

module _ (output : Bytes) (m : ServerMetrics) where
  pub read_exact_one :
      (a : ℕ) (rest : Bytes) (k : ℕ)
      → read_exact 1 (conn (a ∷ rest) output k m) ≡ (ok (a ∷ []), conn rest output k m)
  unfolding read_exact
  read_exact_one a rest k = refl

  pub read_exact_two :
      (a b : ℕ) (rest : Bytes) (k : ℕ)
      → read_exact 2 (conn (a ∷ b ∷ rest) output k m) ≡ (ok (a ∷ b ∷ []), conn rest output k m)
  unfolding read_exact
  read_exact_two a b rest k = refl

  pub read_exact_four :
      (a b d e : ℕ) (rest : Bytes) (k : ℕ)
      → read_exact 4 (conn (a ∷ b ∷ d ∷ e ∷ rest) output k m)
        ≡ (ok (a ∷ b ∷ d ∷ e ∷ []), conn rest output k m)
  unfolding read_exact
  read_exact_four a b d e rest k = refl

  -- A write that the peer takes.
  pub write_all-suc :
      (bs rest : Bytes) (k : ℕ)
      → write_all bs (conn rest output (suc k) m) ≡ (ok tt, conn rest (output ++ bs) k m)
  unfolding write_all
  write_all-suc bs rest k = refl

pub ruleset stream_laws =
    (read_exact-append, read_exact_one, read_exact_two, read_exact_four, write_all-suc)
