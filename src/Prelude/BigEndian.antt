-- ===== src/Prelude/BigEndian.antt =====
-- Numbers as big-endian byte strings: how the sources write and read words of 16, 32 and 64 bits.
use Prim.Native.Nat.{ℕ, zero, suc, ◌+◌, ◌*◌, ◌/◌, ◌%◌, ◌^◌, ◌<◌, ◌≤◌}
use mathlib.Core.Path.{◌≡◌, refl, sym, ap, ◌∙◌, subst}
use mathlib.Core.List.{List, [], ◌∷◌}
use native.Mathlib.Nat.{
  div-add-mod, mul-add-mod_self_left, mod-eq_of_lt, mod-lt, mul-add, mul_comm, mul_assoc, pow-suc,
  pow-zero, mul-le-mul_right, le-mul_of_pos_right, add-mul,
}
use native.Mathlib.Omega.{arith}
use comrade.Prelude.Lists.{length}

-- The n lowest bytes of a number, the highest first.
abbrev pub be_bytes : ℕ → ℕ → List ℕ
be_bytes zero v = []
be_bytes (suc n) v = v / 256 ^ n % 256 ∷ be_bytes n v

-- `v = (v << 8) | byte`, from the first byte to the last, in a word of `m` values.
abbrev pub be_value : ℕ → ℕ → List ℕ → ℕ
be_value m acc [] = acc
be_value m acc (b ∷ bs) = be_value m (acc * 256 % m + b) bs

pub length-be_bytes : (n v : ℕ) → length (be_bytes n v) ≡ n
length-be_bytes zero v = refl
length-be_bytes (suc n) v = ap suc (length-be_bytes n v)

pow-pos : (n : ℕ) → 0 < 256 ^ n
pow-pos zero = omega (arith, pow-zero 256)
pow-pos (suc n) = omega (arith, pow-pos n, pow-suc 256 n)

-- One byte and the rest.
mod_split : (p v : ℕ) → 0 < p → v % (p * 256) ≡ (v / p % 256) * p + v % p
mod_split p v pos =
    let q = v / p in
    let low : v % p < p = mod-lt v pos in
    let top : q % 256 < 256 = omega arith in
    let at_most : (q % 256) * p ≤ 255 * p = mul-le-mul_right p (omega arith) in
    let small : (q % 256) * p + v % p < p * 256 = omega arith in
    let parts : (p * 256) * (q / 256) + ((q % 256) * p + v % p) ≡ v = omega (
      arith,
      div-add-mod v p,
      mul_assoc p 256 (q / 256),
      ap (λ x. p * x) (div-add-mod q 256),
      mul-add p (256 * (q / 256)) (q % 256),
      mul_comm p (q % 256),
    ) in
    ap (λ x. x % (p * 256)) (sym parts)
    ∙ mul-add-mod_self_left (p * 256) (q / 256) ((q % 256) * p + v % p)
    ∙ mod-eq_of_lt small

-- Where nothing is shifted out of the word, the bytes are read back as they were written.
pub be_value-be_bytes :
    (m n acc v : ℕ)
    → acc * 256 ^ n + v % 256 ^ n < m
    → be_value m acc (be_bytes n v) ≡ acc * 256 ^ n + v % 256 ^ n
be_value-be_bytes m zero acc v fits = omega arith
be_value-be_bytes m (suc n) acc v fits =
    let p = 256 ^ n in
    let d = v / 256 ^ n % 256 in
    let powers : acc * 256 ^ suc n ≡ (acc * 256) * p = omega (
      arith,
      ap (λ x. acc * x) (pow-suc 256 n),
      mul_assoc acc 256 p,
      ap (λ x. acc * x) (mul_comm p 256),
    ) in
    let splits : v % 256 ^ suc n ≡ d * p + v % p =
      ap (λ x. v % x) (pow-suc 256 n) ∙ mod_split p v (pow-pos n) in
    let shifts : acc * 256 % m ≡ acc * 256 =
      mod-eq_of_lt (omega (arith, powers, le-mul_of_pos_right (acc * 256) (pow-pos n))) in
    let sums : (acc * 256 + d) * p ≡ (acc * 256) * p + d * p = add-mul (acc * 256) d p in
    let whole : (acc * 256 + d) * p + v % p ≡ acc * 256 ^ suc n + v % 256 ^ suc n =
      omega (arith, powers, splits, sums) in
    let rest = be_value-be_bytes m n (acc * 256 + d) v (subst (λ x. x < m) (sym whole) fits) in
    ap (λ a. be_value m (a + d) (be_bytes n v)) shifts ∙ rest ∙ whole
