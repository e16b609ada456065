-- ===== src/Net/Addr.antt =====
-- Addresses as octets, and the big-endian reading of octets.
use native.Mathlib.Nat.{pow-suc}
use rust_socksd.Prelude.{
  ℕ, zero, suc, ◌+◌, ◌*◌, ◌/◌, ◌%◌, ◌≡◌, ◌↔◌, Bool, true, false, [], ◌∷◌, ◌++◌, Bytes, eq_bytes,
  eq_bytes_iff, arith, ap, subst, ◌<◌, ◌≤◌, ◌^◌, length, all, ltb, ltb→lt, &&_iff,
}

-- `v4` holds four octets, `v6` holds sixteen.
pub data IpAddr : Type 0 where
  v4 v6 : Bytes → IpAddr

pub record SocketAddr : Type 0 where
  pub ip : IpAddr
  pub port : ℕ

unfoldable pub eq_ip : IpAddr → IpAddr → Bool
eq_ip (v4 a) (v4 b) = eq_bytes a b
eq_ip (v6 a) (v6 b) = eq_bytes a b
eq_ip (v4 a) (v6 b) = false
eq_ip (v6 a) (v4 b) = false

pub eq_ip_iff : (a b : IpAddr) → (eq_ip a b ≡ true) ↔ (a ≡ b)
unfolding eq_ip
eq_ip_iff (v4 a) (v4 b) = ground (arith, eq_bytes_iff a b)
eq_ip_iff (v6 a) (v6 b) = ground (arith, eq_bytes_iff a b)
eq_ip_iff (v4 a) (v6 b) = ground arith
eq_ip_iff (v6 a) (v4 b) = ground arith

-- Every item is a byte.
abbrev pub AreBytes : Bytes → Type 0
AreBytes [] = Unit {0}
AreBytes (b ∷ bs) = (b < 256) × AreBytes bs

-- `u16::from_be_bytes`, `u32::from_be_bytes`, `u128::from_be_bytes`, behind a number read so far
from_be_onto : ℕ → Bytes → ℕ
from_be_onto n [] = n
from_be_onto n (b ∷ bs) = from_be_onto (n * 256 + b) bs

unfoldable pub from_be_bytes : Bytes → ℕ
unfolding from_be_onto
from_be_bytes bs = from_be_onto 0 bs

-- So many octets.
pub record Octets (n : ℕ) (bs : Bytes) : Type 0 where
  pub count : length bs ≡ n
  pub below : AreBytes bs

pub are_bytes : (bs : Bytes) → all (λ b. ltb b 256) bs ≡ true → AreBytes bs
unfolding all
are_bytes [] h = tt
are_bytes (b ∷ bs) h =
    let parts = (&&_iff (ltb b 256) (all (λ c. ltb c 256) bs)).0 h in
    (ltb→lt b 256 parts.0, are_bytes bs parts.1)

from_be_onto-lt :
    (n : ℕ) (bs : Bytes) → AreBytes bs → from_be_onto n bs + 1 ≤ (n + 1) * 256 ^ length bs
unfolding from_be_onto
from_be_onto-lt n [] h = omega arith
from_be_onto-lt n (b ∷ bs) h = omega (
  arith,
  from_be_onto-lt (n * 256 + b) bs h.1,
  mul_mono (n * 256 + b + 1) ((n + 1) * 256) (256 ^ length bs) (omega (arith, h.0)),
  ap (λ (t : ℕ). (n + 1) * t) (pow-suc 256 (length bs)),
)
  where
    mul_mono : (x y r : ℕ) → x ≤ y → x * r ≤ y * r
    mul_mono x y r le = grind arith

pub from_be-lt : (n : ℕ) (bs : Bytes) → Octets n bs → from_be_bytes bs < 256 ^ n
unfolding from_be_bytes
from_be-lt n bs o =
    subst (λ w. from_be_onto 0 bs < 256 ^ w) o.count (omega (arith, from_be_onto-lt 0 bs o.below))

-- `to_be_bytes`, of so many bytes
unfoldable pub to_be_bytes : ℕ → ℕ → Bytes
to_be_bytes zero n = []
to_be_bytes (suc w) n = to_be_bytes w (n / 256) ++ (n % 256) ∷ []
