-- ===== src/Text/Within.antt =====
-- A text that stands inside another.
use rust_socksd.Prelude.{true, ◌≡◌, [], ◌∷◌, ◌++◌, Bytes, arith}
use rust_socksd.Text.Split.{contains}

pub contains_behind : (p front s : Bytes) → contains p s ≡ true → contains p (front ++ s) ≡ true
unfolding contains
contains_behind p [] s h = h
contains_behind p (x ∷ front) s h = ground (arith, contains_behind p front s h)
