-- ===== src/Prelude/Bits.antt =====
-- Bits of machine words: what `|`, `&`, `<<` and truncation do to each bit, at every width.
use Prim.Native.Nat.{
  ℕ, zero, suc, ◌+◌, ◌*◌, ◌/◌, ◌%◌, ◌^◌, ◌≤◌, ◌<◌, min, max, bit_and, bit_or, bitwise, digits,
  bit_and-bitwise, bit_or-bitwise, bit_xor, bit_xor-bitwise, differ,
}
use mathlib.Core.Path.{◌≡◌, refl, ap, ◌∙◌, sym}
use native.Mathlib.Nat.{pow-suc, div-add-mod, mod-eq_of_lt, add-mul-mod_self_left}
use native.Mathlib.Nat.{pow-le-pow_right, one-le-pow}
use native.Mathlib.Omega.{arith}
use comrade.Prelude.Tests.{◌==◌}

-- The recursion that the native operations stand for takes fuel; any that suffices gives the same.
module _ (z : ℕ → ℕ) (f : ℕ → ℕ → ℕ) where
  digits-enough : (n m a b : ℕ) → a ≤ n → a ≤ m → digits z f n a b ≡ digits z f m a b
  digits-enough zero zero a b p q = refl
  digits-enough zero (suc m) zero b p q = refl
  digits-enough zero (suc m) (suc a) b p q = absurd (omega arith)
  digits-enough (suc n) zero zero b p q = refl
  digits-enough (suc n) zero (suc a) b p q = absurd (omega arith)
  digits-enough (suc n) (suc m) zero b p q = refl
  digits-enough (suc n) (suc m) (suc a) b p q =
      rw (digits-enough n m (suc a / 2) (b / 2) (omega arith) (omega arith))

  bitwise_halve :
      (a b : ℕ)
      → bitwise z f (suc a) b ≡ bitwise z f (suc a / 2) (b / 2) * 2 + f (suc a % 2) (b % 2)
  bitwise_halve a b =
      omega (arith, digits-enough a (suc a / 2) (suc a / 2) (b / 2) (omega arith) (omega arith))

pub bit_or_halve : (a b : ℕ) → bit_or a b ≡ bit_or (a / 2) (b / 2) * 2 + max (a % 2) (b % 2)
bit_or_halve zero b = simp bit_or-bitwise (omega arith)
bit_or_halve (suc a) b = simp bit_or-bitwise (bitwise_halve (λ y. y) max a b)

pub bit_and_halve : (a b : ℕ) → bit_and a b ≡ bit_and (a / 2) (b / 2) * 2 + min (a % 2) (b % 2)
bit_and_halve zero b = simp bit_and-bitwise (omega arith)
bit_and_halve (suc a) b = simp bit_and-bitwise (bitwise_halve (λ y. 0) min a b)

bit_xor_halve : (a b : ℕ) → bit_xor a b ≡ bit_xor (a / 2) (b / 2) * 2 + differ (a % 2) (b % 2)
bit_xor_halve zero b = simp bit_xor-bitwise (omega (arith, differ_zero (b % 2)))
  where
    differ_zero : (y : ℕ) → differ 0 y ≡ y
    differ_zero y = refl
bit_xor_halve (suc a) b = simp bit_xor-bitwise (bitwise_halve (λ y. y) differ a b)

differ-zero : (x y : ℕ) → differ x y ≡ 0 → x ≡ y
differ-zero zero y e = sym e
differ-zero (suc x) zero e = e
differ-zero (suc x) (suc y) e = ap suc (differ-zero x y e)

differ_self : (x : ℕ) → differ x x ≡ 0
differ_self zero = refl
differ_self (suc x) = differ_self x

xor-zero_up_to : (n a b : ℕ) → a ≤ n → b ≤ n → bit_xor a b ≡ 0 → a ≡ b
xor-zero_up_to zero a b h k e = omega arith
xor-zero_up_to (suc n) a b h k e =
    let halves = bit_xor_halve a b in
    let high =
      xor-zero_up_to n (a / 2) (b / 2) (omega arith) (omega arith) (omega (arith, halves, e)) in
    let low = differ-zero (a % 2) (b % 2) (omega (arith, halves, e)) in omega (arith, high, low)

-- Two numbers that differ in no bit are equal, and a number differs from itself in none.
pub bit_xor-zero : (a b : ℕ) → bit_xor a b ≡ 0 → a ≡ b
bit_xor-zero a b e = xor-zero_up_to (a + b) a b (omega arith) (omega arith) e

xor_self_up_to : (n a : ℕ) → a ≤ n → bit_xor a a ≡ 0
xor_self_up_to n zero h = simp bit_xor-bitwise refl
xor_self_up_to zero (suc a) h = absurd (omega arith)
xor_self_up_to (suc n) (suc a) h = omega (
  arith,
  bit_xor_halve (suc a) (suc a),
  xor_self_up_to n (suc a / 2) (omega arith),
  differ_self (suc a % 2),
)

pub bit_xor_self : (a : ℕ) → bit_xor a a ≡ 0
bit_xor_self a = xor_self_up_to a a (omega arith)

-- The bit of weight `2 ^ k`, as 0 or 1.
abbrev pub bit : ℕ → ℕ → ℕ
bit x zero = x % 2
bit x (suc k) = bit (x / 2) k

pub bit-le : (x k : ℕ) → bit x k ≤ 1
bit-le x zero = omega arith
bit-le x (suc k) = bit-le (x / 2) k

pub bit-zero : (k : ℕ) → bit 0 k ≡ 0
bit-zero zero = refl
bit-zero (suc k) = bit-zero k

pub bit-or : (a b k : ℕ) → bit (bit_or a b) k ≡ max (bit a k) (bit b k)
bit-or a b zero = omega (arith, bit_or_halve a b)
bit-or a b (suc k) =
    let halved : bit_or a b / 2 ≡ bit_or (a / 2) (b / 2) = omega (arith, bit_or_halve a b) in
    ap (λ x. bit x k) halved ∙ bit-or (a / 2) (b / 2) k

double-half : (x : ℕ) → (x * 2) / 2 ≡ x
double-half x = omega arith

pow_double : (x s : ℕ) → x * 2 ^ suc s ≡ x * 2 ^ s * 2
pow_double x s = omega (arith, ap (λ (t : ℕ). x * t) (pow-suc 2 s))

-- A left shift moves each bit up, and leaves zeros below.
pub bit-shift_low : (x s k : ℕ) → k < s → bit (x * 2 ^ s) k ≡ 0
bit-shift_low x zero k h = elim h [ ]
bit-shift_low x (suc s) zero h = omega (arith, pow_double x s)
bit-shift_low x (suc s) (suc k) h =
    ap (λ y. bit (y / 2) k) (pow_double x s)
    ∙ ap (λ y. bit y k) (double-half (x * 2 ^ s))
    ∙ bit-shift_low x s k (omega arith)

pub bit-shift_high : (x s k : ℕ) → bit (x * 2 ^ s) (s + k) ≡ bit x k
bit-shift_high x zero k = ap (λ y. bit y (0 + k)) one ∙ ap (bit x) none_below
  where
    one : x * 2 ^ 0 ≡ x
    one = omega arith

    none_below : 0 + k ≡ k
    none_below = omega arith
bit-shift_high x (suc s) k =
    ap (bit (x * 2 ^ suc s)) index
    ∙ ap (λ y. bit (y / 2) (s + k)) (pow_double x s)
    ∙ ap (λ y. bit y (s + k)) (double-half (x * 2 ^ s))
    ∙ bit-shift_high x s k
  where
    index : suc s + k ≡ suc (s + k)
    index = omega arith

half-mod_pos : (x m : ℕ) → 0 < m → (x % (m * 2)) / 2 ≡ (x / 2) % m
half-mod_pos x m h =
    sym (mod-eq_of_lt small)
    ∙ sym (add-mul-mod_self_left (x % (m * 2) / 2) m (x / (m * 2)))
    ∙ ap (λ y. y % m) parts
  where
    small : x % (m * 2) / 2 < m
    small = omega arith

    parts : x % (m * 2) / 2 + m * (x / (m * 2)) ≡ x / 2
    parts = omega (arith, div-add-mod x (m * 2))

half-mod : (x m : ℕ) → (x % (m * 2)) / 2 ≡ (x / 2) % m
half-mod x zero = omega arith
half-mod x (suc m) = half-mod_pos x (suc m) (omega arith)

even-mod : (x m : ℕ) → (x % (m * 2)) % 2 ≡ x % 2
even-mod x m = omega (arith, div-add-mod x (m * 2))

-- Truncation to `w` bits keeps the bits below `w`.
pub bit-mod : (w x k : ℕ) → k < w → bit (x % 2 ^ w) k ≡ bit x k
bit-mod zero x k h = elim h [ ]
bit-mod (suc w) x zero h = ap (λ m. x % m % 2) (pow-suc 2 w) ∙ even-mod x (2 ^ w)
bit-mod (suc w) x (suc k) h =
    ap (λ m. bit (x % m / 2) k) (pow-suc 2 w)
    ∙ ap (λ y. bit y k) (half-mod x (2 ^ w))
    ∙ bit-mod w (x / 2) k (omega arith)

pow-half : (s : ℕ) → 2 ^ suc s / 2 ≡ 2 ^ s
pow-half s = omega (arith, pow-suc 2 s)

-- A power of two has one bit.
pub bit-pow_self : (s : ℕ) → bit (2 ^ s) s ≡ 1
bit-pow_self zero = refl
bit-pow_self (suc s) = ap (λ y. bit y s) (pow-half s) ∙ bit-pow_self s

pub bit-pow_ne : (s k : ℕ) → (s ≡ k → ⊥) → bit (2 ^ s) k ≡ 0
bit-pow_ne zero zero h = absurd (h refl)
bit-pow_ne zero (suc k) h = bit-zero k
bit-pow_ne (suc s) zero h = omega (arith, pow-suc 2 s)
bit-pow_ne (suc s) (suc k) h = ap (λ y. bit y k) (pow-half s) ∙ bit-pow_ne s k (λ e. h (ap suc e))

bit_and-zero_below : (n x : ℕ) → x ≤ n → bit_and x 0 ≡ 0
bit_and-zero_below zero zero h = refl
bit_and-zero_below zero (suc x) h = absurd (omega arith)
bit_and-zero_below (suc n) zero h = refl
bit_and-zero_below (suc n) (suc x) h =
    omega (arith, bit_and_halve (suc x) 0, bit_and-zero_below n (suc x / 2) (omega arith))

-- `x & (1 << k)` is the bit, at its weight.
pub bit_and-pow : (x k : ℕ) → bit_and x (2 ^ k) ≡ bit x k * 2 ^ k
bit_and-pow x zero = omega (arith, bit_and_halve x 1, bit_and-zero_below (x / 2) (x / 2))
bit_and-pow x (suc k) =
    bit_and_halve x (2 ^ suc k)
    ∙ ap (λ p. bit_and (x / 2) p * 2 + min (x % 2) (2 ^ suc k % 2)) (pow-half k)
    ∙ omega
        (arith, bit_and-pow (x / 2) k, pow-suc 2 k, ap (λ (t : ℕ). bit (x / 2) k * t) (pow-suc 2 k))

scaled : (b p : ℕ) → b ≤ 1 → 1 ≤ p → (b * p == 0) ≡ (b == 0)
scaled zero p h k = ground arith
scaled (suc zero) p h k = ground arith
scaled (suc (suc b)) p h k = absurd (omega arith)

-- The test of one bit, as C writes it.
pub bit-test : (x k : ℕ) → (bit_and x (2 ^ k) == 0) ≡ (bit x k == 0)
bit-test x k =
    ap (λ b. b == 0) (bit_and-pow x k)
    ∙ scaled (bit x k) (2 ^ k) (bit-le x k) (one-le-pow k 2 (omega arith))

-- A mask of one bit below the width is not truncated.
pub pow-mod : (w k : ℕ) → k < w → (2 ^ k) % 2 ^ w ≡ 2 ^ k
pow-mod w k h = mod-eq_of_lt (omega (arith, pow-suc 2 k, one-le-pow k 2 (omega arith), grown))
  where
    grown : 2 ^ suc k ≤ 2 ^ w
    grown = pow-le-pow_right {n = 2} (omega arith) h
