-- ===== src/Prelude/Bytes.antt =====
-- Bytes and byte strings: the order of `memcmp`, its laws, and bytes of a word.
use Prim.Native.Nat.{ℕ, ◌%◌, ◌<◌, compare, Ordering, lt, eq, gt}
use mathlib.Core.Path.{◌≡◌, refl}
use mathlib.Core.Bool.{Bool, true, false}
use mathlib.Core.List.{List, [], ◌∷◌}
use native.Mathlib.Omega.{arith}

-- `(uint8_t)x`
abbrev pub byte : ℕ → ℕ
byte x = x % 256

abbrev pub IsByte : ℕ → Type 0
IsByte b = b < 256

-- The sign of `memcmp` on strings of one length; a proper prefix comes first.
abbrev pub memcmp : List ℕ → List ℕ → Ordering
memcmp [] [] = eq
memcmp [] (b ∷ bs) = lt
memcmp (a ∷ as') [] = gt
memcmp (a ∷ as') (b ∷ bs) = elim (compare a b) [ lt ↦ lt | eq ↦ memcmp as' bs | gt ↦ gt ]

abbrev pub is_lt : Ordering → Bool
is_lt lt = true
is_lt eq = false
is_lt gt = false

abbrev pub is_eq : Ordering → Bool
is_eq lt = false
is_eq eq = true
is_eq gt = false

abbrev pub flip : Ordering → Ordering
flip lt = gt
flip eq = eq
flip gt = lt

-- `!memcmp(a, b, n)`
abbrev pub bytes_eq : List ℕ → List ℕ → Bool
bytes_eq a b = is_eq (memcmp a b)

pub memcmp-flip : (a b : List ℕ) → memcmp b a ≡ flip (memcmp a b)
memcmp-flip [] [] = refl
memcmp-flip [] (y ∷ b) = refl
memcmp-flip (x ∷ a) [] = refl
memcmp-flip (x ∷ a) (y ∷ b) = ground (arith, memcmp-flip a b)

pub memcmp_self : (a : List ℕ) → memcmp a a ≡ eq
memcmp_self [] = refl
memcmp_self (x ∷ a) = ground (arith, memcmp_self a)

pub memcmp→eq : (a b : List ℕ) → memcmp a b ≡ eq → a ≡ b
memcmp→eq [] [] h = refl
memcmp→eq [] (y ∷ b) h = cc
memcmp→eq (x ∷ a) [] h = cc
memcmp→eq (x ∷ a) (y ∷ b) h = ground (arith, memcmp→eq a b)

-- What does not come before `b`, with `b` not before `c`, does not come before `c`.
pub memcmp_trans :
    (a b c : List ℕ)
    → is_lt (memcmp a b) ≡ false
    → is_lt (memcmp b c) ≡ false
    → is_lt (memcmp a c) ≡ false
memcmp_trans [] [] c h k = k
memcmp_trans [] (y ∷ b) c h k = cc
memcmp_trans (x ∷ a) b [] h k = refl
memcmp_trans (x ∷ a) [] (z ∷ c) h k = cc
memcmp_trans (x ∷ a) (y ∷ b) (z ∷ c) h k = ground (arith, memcmp_trans a b c)
