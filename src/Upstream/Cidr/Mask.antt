-- ===== src/Upstream/Cidr/Mask.antt =====
-- What the mask keeps: the leading bits.
use Prim.Native.Nat.{bit_and, digits, bit_and-bitwise}
use native.Mathlib.Nat.{
  pow-suc, pow-succ', div-div-eq-div-mul, div-lt_iff_lt-mul, div-eq_of_lt, one-le-pow,
  add-mul-mod_self_left, mod-eq_of_lt,
}
use rust_socksd.Prelude.{
  ℕ, zero, suc, ◌+◌, ◌-◌, ◌*◌, ◌/◌, ◌%◌, ◌^◌, ◌≤◌, ◌<◌, min, ◌≡◌, refl, sym, ap, ◌∙◌, arith, ◌==◌,
  false,
}
use rust_socksd.Upstream.Cidr.{mask}

-- `bit_and` by its digits, with enough fuel.
abbrev and_digits : ℕ → ℕ → ℕ → ℕ
and_digits fuel a b = digits (λ _. 0) min fuel a b

and_digits_enough : (f g a b : ℕ) → a ≤ f → a ≤ g → and_digits f a b ≡ and_digits g a b
and_digits_enough zero zero a b p q = refl
and_digits_enough zero (suc g) zero b p q = refl
and_digits_enough zero (suc g) (suc a) b p q = absurd (omega arith)
and_digits_enough (suc f) zero zero b p q = refl
and_digits_enough (suc f) zero (suc a) b p q = absurd (omega arith)
and_digits_enough (suc f) (suc g) zero b p q = refl
and_digits_enough (suc f) (suc g) (suc a) b p q =
    omega (arith, and_digits_enough f g (suc a / 2) (b / 2) (omega arith) (omega arith))

zero-bit_and : (b : ℕ) → bit_and 0 b ≡ 0
zero-bit_and b = bit_and-bitwise 0 b

-- The last bit, and the others.
bit_and-halves : (a b : ℕ) → bit_and a b ≡ bit_and (a / 2) (b / 2) * 2 + min (a % 2) (b % 2)
bit_and-halves zero b = omega (arith, zero-bit_and b, zero-bit_and (b / 2))
bit_and-halves (suc a) b = omega (
  arith,
  bit_and-bitwise (suc a) b,
  bit_and-bitwise (suc a / 2) (b / 2),
  and_digits_enough a (suc a / 2) (suc a / 2) (b / 2) (omega arith) (omega arith),
)

bit_and-zero_upto : (n a : ℕ) → a ≤ n → bit_and a 0 ≡ 0
bit_and-zero_upto n zero h = refl
bit_and-zero_upto zero (suc a) h = absurd (omega arith)
bit_and-zero_upto (suc n) (suc a) h =
    omega (arith, bit_and-halves (suc a) 0, bit_and-zero_upto n (suc a / 2) (omega arith))

bit_and-zero : (a : ℕ) → bit_and a 0 ≡ 0
bit_and-zero a = bit_and-zero_upto a a (omega arith)

double : (m k : ℕ) → m * 2 ^ suc k ≡ m * 2 ^ k * 2
double m k = omega (arith, ap (λ (t : ℕ). m * t) (pow-suc 2 k))

halve_twice : (x k : ℕ) → x / 2 / 2 ^ k ≡ x / 2 ^ suc k
halve_twice x k = div-div-eq-div-mul x 2 (2 ^ k) ∙ ap (◌/◌ x) (sym (pow-succ' 2 k))

-- A mask that ends in k zeros keeps what the shorter mask keeps of the bits above.
bit_and-shift : (k m x : ℕ) → bit_and x (m * 2 ^ k) ≡ bit_and (x / 2 ^ k) m * 2 ^ k
bit_and-shift zero m x =
    let times_one : m * 1 ≡ m = omega arith in
    let over_one : x / 1 ≡ x = omega arith in rw (times_one, over_one) (omega arith)
bit_and-shift (suc k) m x = rw (double m k) (
    bit_and-halves x (m * 2 ^ k * 2)
    ∙ rw (even (m * 2 ^ k), odd (m * 2 ^ k), bit_and-shift k m (x / 2), halve_twice x k)
        (omega (arith, double (bit_and (x / 2 ^ suc k) m) k)))
  where
    even : (n : ℕ) → n * 2 / 2 ≡ n
    even n = omega arith

    odd : (n : ℕ) → n * 2 % 2 ≡ 0
    odd n = omega arith

-- A mask of n ones keeps a number of n bits.
bit_and-ones : (n x : ℕ) → x < 2 ^ n → bit_and x (2 ^ n - 1) ≡ x
bit_and-ones zero x h = bit_and-zero x ∙ omega arith
bit_and-ones (suc n) x h =
    bit_and-halves x (2 ^ suc n - 1)
    ∙ rw (rest, last, bit_and-ones n (x / 2) (omega (arith, pow-suc 2 n))) (omega arith)
  where
    positive : 0 < 2 ^ n
    positive = one-le-pow n 2 (omega arith)

    rest : (2 ^ suc n - 1) / 2 ≡ 2 ^ n - 1
    rest = omega (arith, pow-suc 2 n, positive)

    last : (2 ^ suc n - 1) % 2 ≡ 1
    last = omega (arith, pow-suc 2 n, positive)

pow_split : (n k : ℕ) → 2 ^ (n + k) ≡ 2 ^ n * 2 ^ k
pow_split n zero = ap (λ (i : ℕ). 2 ^ i) (let e : n + 0 ≡ n = omega arith in e) ∙ omega arith
pow_split n (suc k) =
    ap (λ (i : ℕ). 2 ^ i) (let e : n + suc k ≡ suc (n + k) = omega arith in e)
    ∙ omega (
      arith,
      pow-suc 2 (n + k),
      pow-suc 2 k,
      ap (λ (t : ℕ). t * 2) (pow_split n k),
      ap (λ (t : ℕ). 2 ^ n * t) (pow-suc 2 k),
    )

-- The shift that overflows leaves p * 2^k, for p ones.
wrapped : (p q : ℕ) → (((p + 1) * (q + 1) - 1) * (q + 1)) % ((p + 1) * (q + 1)) ≡ p * (q + 1)
wrapped p q =
    ap (λ (t : ℕ). t % ((p + 1) * (q + 1))) regrouped
    ∙ add-mul-mod_self_left (p * (q + 1)) ((p + 1) * (q + 1)) q
    ∙ mod-eq_of_lt (omega arith)
  where
    less : (p + 1) * (q + 1) - 1 ≡ p * q + p + q
    less = grind arith

    regrouped : ((p + 1) * (q + 1) - 1) * (q + 1) ≡ p * (q + 1) + (p + 1) * (q + 1) * q
    regrouped = rw less (grind arith)

pred_suc : (n : ℕ) → 1 ≤ n → n ≡ (n - 1) + 1
pred_suc n h = omega arith

mask_form : (n k : ℕ) → 0 < n → mask (n + k) n ≡ (2 ^ n - 1) * 2 ^ k
unfolding mask
mask_form n k h =
    let nonzero : (n == 0) ≡ false = ground arith in
    let rest : n + k - n ≡ k = omega arith in
    rw (nonzero, rest, pow_split n k)
      (rw
        (
          pred_suc (2 ^ n) (one-le-pow n 2 (omega arith)),
          pred_suc (2 ^ k) (one-le-pow k 2 (omega arith)),
        )
        (wrapped (2 ^ n - 1) (2 ^ k - 1)
          ∙ ap (λ (t : ℕ). t * (2 ^ k - 1 + 1)) (suc_pred (2 ^ n - 1))))
  where
    suc_pred : (m : ℕ) → m ≡ m + 1 - 1
    suc_pred m = omega arith

bit_and-mask_split :
    (n k x : ℕ) → 0 < n → x < 2 ^ (n + k) → bit_and x (mask (n + k) n) ≡ x / 2 ^ k * 2 ^ k
bit_and-mask_split n k x h lt = rw (mask_form n k h) (
    bit_and-shift k (2 ^ n - 1) x
    ∙ ap (λ (t : ℕ). t * 2 ^ k)
        (bit_and-ones n (x / 2 ^ k)
          ((div-lt_iff_lt-mul (one-le-pow k 2 (omega arith))).1 (rw (pow_split n k) at lt))))

-- Masking a number of `width` bits clears the bits behind the prefix.
pub bit_and-mask :
    (width n x : ℕ)
    → n ≤ width
    → x < 2 ^ width
    → bit_and x (mask width n) ≡ x / 2 ^ (width - n) * 2 ^ (width - n)
bit_and-mask width zero x h lt =
    rw (mask_zero width, all_bits width, div-eq_of_lt lt) (bit_and-zero x ∙ omega arith)
  where
    all_bits : (w : ℕ) → w - 0 ≡ w
    all_bits w = omega arith

    mask_zero : (w : ℕ) → mask w 0 ≡ 0
    mask_zero w = unfold mask in refl
bit_and-mask width (suc n) x h lt =
    let split : suc n + (width - suc n) ≡ width = omega arith in
    rw split at (bit_and-mask_split (suc n) (width - suc n) x (omega arith) (rw split lt))
