-- ===== src/Base58.antt =====
-- Base58 (src/base58.c). The arrays of digits stand with the highest digit first, as in the source; a
-- text is the list of its characters without the NUL. A result 0 or -1 is `none`.
pub mod Value
mod Tests
use comrade.Prelude.{
  ℕ, suc, ◌+◌, ◌-◌, ◌*◌, ◌/◌, ◌%◌, Option, none, some, List, [], ◌∷◌, ◌++◌, map, ltb, ◌==◌,
  if◌then◌else◌, length, get_or, drop, replicate,
}

-- BASE58_MAX_IN, BASE58_MAX_STR
abbrev pub base58_max_in : ℕ
base58_max_in = 160

abbrev pub base58_max_str : ℕ
base58_max_str = 200

-- B58_BUF and B256_BUF
abbrev pub b58_buf : ℕ
b58_buf = 222

abbrev pub b256_buf : ℕ
b256_buf = 148

abbrev pub b58_alphabet : List ℕ
b58_alphabet =
    49 ∷ 50 ∷ 51 ∷ 52 ∷ 53 ∷ 54 ∷ 55 ∷ 56 ∷ 57 ∷ 65 ∷ 66 ∷ 67 ∷ 68 ∷ 69 ∷ 70 ∷ 71 ∷ 72 ∷ 74 ∷ 75
    ∷ 76 ∷ 77 ∷ 78 ∷ 80 ∷ 81 ∷ 82 ∷ 83 ∷ 84 ∷ 85 ∷ 86 ∷ 87 ∷ 88 ∷ 89 ∷ 90 ∷ 97 ∷ 98 ∷ 99 ∷ 100 ∷ 101
    ∷ 102 ∷ 103 ∷ 104 ∷ 105 ∷ 106 ∷ 107 ∷ 109 ∷ 110 ∷ 111 ∷ 112 ∷ 113 ∷ 114 ∷ 115 ∷ 116 ∷ 117 ∷ 118
    ∷ 119 ∷ 120 ∷ 121 ∷ 122 ∷ []

-- `strchr` in the alphabet, from index `i` on.
unfoldable pub index_in : List ℕ → ℕ → ℕ → Option ℕ
index_in [] c i = none
index_in (x ∷ xs) c i = let rest = index_in xs c (suc i) in if x == c then some i else rest

unfoldable pub b58_value : ℕ → Option ℕ
unfolding index_in
b58_value c = if c == 0 then none else index_in b58_alphabet c 0

-- The inner loops, from the last digit to the first: the digits in base `b` times `m` plus `carry`,
-- with the carry that is left at the end, which the source drops.
unfoldable pub mul_add : (b m : ℕ) → List ℕ → (carry : ℕ) → List ℕ × ℕ
mul_add b m [] carry = ([], carry)
mul_add b m (d ∷ ds) carry =
    let (low, c) = mul_add b m ds carry in ((c + m * d) % b ∷ low, (c + m * d) / b)

-- The outer loops over the digits that are read.
unfoldable pub convert : (b m : ℕ) → List ℕ → List ℕ → List ℕ
unfolding mul_add
convert b m buf [] = buf
convert b m buf (v ∷ vs) = convert b m (mul_add b m buf v).0 vs

unfoldable pub leading_zeros : List ℕ → ℕ
leading_zeros [] = 0
leading_zeros (x ∷ xs) = let rest = leading_zeros xs in if x == 0 then suc rest else 0

unfoldable pub base58_encode : (src : List ℕ) (dst_len : ℕ) → Option (List ℕ)
unfolding convert leading_zeros
base58_encode src dst_len =
    let zeros = leading_zeros src in
    let b58 = convert 58 256 (replicate b58_buf 0) (drop zeros src) in
    let digits = drop (leading_zeros b58) b58 in
    if ltb base58_max_in (length src)
    then none
    else if ltb dst_len (zeros + length digits + 1)
    then none
    else some (replicate zeros 49 ++ map (λ d. get_or b58_alphabet d 0) digits)

-- The values of the characters; `none` where one has none.
unfoldable pub values : List ℕ → Option (List ℕ)
unfolding b58_value
values [] = some []
values (c ∷ cs) = elim (b58_value c) [
  | none ↦ none
  | some v ↦ elim (values cs) [ none ↦ none | some vs ↦ some (v ∷ vs) ]
]

-- The array of `dst_len` bytes that is filled.
unfoldable pub base58_decode : (src : List ℕ) (dst_len : ℕ) → Option (List ℕ)
unfolding values convert leading_zeros
base58_decode src dst_len = if ltb base58_max_str (length src) then none else elim (values src) [
  | none ↦ none
  | some vs ↦
      let b256 = convert 256 58 (replicate b256_buf 0) vs in
      let bytes = drop (leading_zeros b256) b256 in
      if ltb dst_len (length bytes)
      then none
      else some (replicate (dst_len - length bytes) 0 ++ bytes)
]
