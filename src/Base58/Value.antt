-- ===== src/Base58/Value.antt =====
-- The digits that the loops of src/base58.c leave stand for the number that they read.
use comrade.Prelude.{
  ℕ, suc, ◌+◌, ◌*◌, ◌/◌, ◌%◌, ◌^◌, ◌<◌, ◌≤◌, ◌≡◌, refl, sym, ap, ap₂, subst, ◌∙◌, List, [], ◌∷◌,
  arith, length, All,
}
use native.Mathlib.Nat.{
  div-add-mod, mul_assoc, mul_comm, mul-add, add-mul, pow-suc, pow-zero, mul-one, mul-zero, suc-mul,
  mul-le-mul_right, mod-lt, mod-eq_of_lt, mul-add-mod_self_left, mul_left_comm,
}
use comrade.Base58.{mul_add, convert}

-- The number that digits stand for, the highest first.
unfoldable pub value : ℕ → List ℕ → ℕ
value b [] = 0
value b (d ∷ ds) = d * b ^ length ds + value b ds

-- The number that is read digit by digit in base `m`, from the number `acc` on.
abbrev pub number : ℕ → ℕ → List ℕ → ℕ
number m acc [] = acc
number m acc (v ∷ vs) = number m (m * acc + v) vs

length-mul_add : (b m : ℕ) (ds : List ℕ) (carry : ℕ) → length (mul_add b m ds carry).0 ≡ length ds
unfolding mul_add
length-mul_add b m [] carry = refl
length-mul_add b m (d ∷ ds) carry = ap suc (length-mul_add b m ds carry)

assoc : (q p b : ℕ) → q * (p * b) ≡ (b * q) * p
assoc q p b = sym (mul_assoc q p b) ∙ mul_comm (q * p) b ∙ sym (mul_assoc b q p)

-- One pass loses nothing but the carry that it ends with.
value-mul_add :
    (b m : ℕ) (ds : List ℕ) (carry : ℕ)
    → (mul_add b m ds carry).1 * b ^ length ds + value b (mul_add b m ds carry).0
      ≡ m * value b ds + carry
unfolding mul_add value
value-mul_add b m [] carry =
    omega (arith, ap (λ x. carry * x) (pow-zero b), mul-one carry, mul-zero m)
value-mul_add b m (d ∷ ds) carry =
    let p = b ^ length ds in
    let low = mul_add b m ds carry in
    let t = low.1 + m * d in
    let rest = value-mul_add b m ds carry in
    let same : t % b * b ^ length low.0 ≡ t % b * p =
      ap (λ n. t % b * b ^ n) (length-mul_add b m ds carry) in
    let up : t / b * b ^ suc (length ds) ≡ (b * (t / b)) * p =
      ap (λ x. t / b * x) (pow-suc b (length ds)) ∙ assoc (t / b) p b in
    let whole : (b * (t / b)) * p + t % b * p ≡ t * p =
      sym (add-mul (b * (t / b)) (t % b) p) ∙ ap (λ x. x * p) (div-add-mod t b) in
    let parts : t * p ≡ low.1 * p + (m * d) * p = add-mul low.1 (m * d) p in
    let goal : m * (d * p + value b ds) ≡ (m * d) * p + m * value b ds =
      mul-add m (d * p) (value b ds) ∙ ap (λ x. x + m * value b ds) (sym (mul_assoc m d p)) in
    omega (arith, rest, same, up, whole, parts, goal)

value-lt : (b : ℕ) (ds : List ℕ) → 0 < b → All (λ d. d < b) ds → value b ds < b ^ length ds
unfolding value
value-lt b [] pos ok = omega (arith, pow-zero b)
value-lt b (d ∷ ds) pos ok =
    let more : suc d * b ^ length ds ≤ b * b ^ length ds =
      mul-le-mul_right (b ^ length ds) (omega (arith, ok.0)) in
    omega (
      arith,
      value-lt b ds pos ok.1,
      more,
      suc-mul d (b ^ length ds),
      pow-suc b (length ds),
      mul_comm (b ^ length ds) b,
    )

digits-mul_add :
    (b m : ℕ) (ds : List ℕ) (carry : ℕ) → 0 < b → All (λ d. d < b) (mul_add b m ds carry).0
unfolding mul_add
digits-mul_add b m [] carry pos = tt
digits-mul_add b m (d ∷ ds) carry pos =
    (mod-lt ((mul_add b m ds carry).1 + m * d) pos, digits-mul_add b m ds carry pos)

-- Reduced before or after a step, a number leaves the same remainder.
reduce_first : (n m acc v : ℕ) → (m * (acc % n) + v) % n ≡ (m * acc + v) % n
reduce_first n m acc v =
    let parts : n * (m * (acc / n)) + (m * (acc % n) + v) ≡ m * acc + v = omega (
      arith,
      mul_left_comm n m (acc / n),
      mul-add m (n * (acc / n)) (acc % n),
      ap (λ x. m * x) (div-add-mod acc n),
    ) in
    sym (mul-add-mod_self_left n (m * (acc / n)) (m * (acc % n) + v)) ∙ ap (λ x. x % n) parts

value-pass :
    (b m : ℕ) (ds : List ℕ) (carry : ℕ)
    → 0 < b
    → value b (mul_add b m ds carry).0 ≡ (m * value b ds + carry) % b ^ length ds
value-pass b m ds carry pos =
    let low = mul_add b m ds carry in
    let n = b ^ length ds in
    let small : value b low.0 < n =
      subst (λ k. value b low.0 < b ^ k) (length-mul_add b m ds carry)
        (value-lt b low.0 pos (digits-mul_add b m ds carry pos)) in
    sym (mod-eq_of_lt small)
    ∙ sym (mul-add-mod_self_left n low.1 (value b low.0))
    ∙ ap (λ x. (x + value b low.0) % n) (mul_comm n low.1)
    ∙ ap (λ x. x % n) (value-mul_add b m ds carry)

-- The loops of both directions convert between bases: read digit by digit in base `m` into an array of
-- digits in base `b`, a number is what the array then stands for, reduced only where it does not fit
-- the array; `acc` is a number that the array stood for so before.
pub value-convert :
    (b m n acc : ℕ) (buf vs : List ℕ)
    → 0 < b
    → length buf ≡ n
    → value b buf ≡ acc % b ^ n
    → value b (convert b m buf vs) ≡ number m acc vs % b ^ n
unfolding convert
value-convert b m n acc buf [] pos long e = e
value-convert b m n acc buf (v ∷ vs) pos long e =
    value-convert b m n (m * acc + v) (mul_add b m buf v).0 vs pos (length-mul_add b m buf v ∙ long)
      (value-pass b m buf v pos
        ∙ ap₂ (λ x k. (m * x + v) % b ^ k) e long
        ∙ reduce_first (b ^ n) m acc v)
