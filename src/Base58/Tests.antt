-- ===== src/Base58/Tests.antt =====
-- A short string through base58 (src/base58.c).
use comrade.Prelude.{◌%◌, ◌^◌, ◌≡◌, refl, some, none, [], ◌∷◌, arith}
use comrade.Base58.{convert, mul_add, base58_decode, leading_zeros, values, b58_value, index_in}
use comrade.Base58.Value.{value, number, value-convert}

-- 258 in two digits of base 58.
value-convert_example :
    value 58 (convert 58 256 (0 ∷ 0 ∷ []) (1 ∷ 2 ∷ [])) ≡ number 256 0 (1 ∷ 2 ∷ []) % 58 ^ 2
unfolding value
value-convert_example = value-convert 58 256 2 0 (0 ∷ 0 ∷ []) (1 ∷ 2 ∷ []) (omega arith) refl refl

digits : convert 58 256 (0 ∷ 0 ∷ []) (1 ∷ 2 ∷ []) ≡ 4 ∷ 26 ∷ []
unfolding convert mul_add
digits = refl

-- "5T" in an array of three bytes, and a character outside of the alphabet.
decoded : base58_decode (53 ∷ 84 ∷ []) 3 ≡ some (0 ∷ 1 ∷ 2 ∷ [])
unfolding base58_decode values b58_value index_in convert mul_add leading_zeros
decoded = refl

refused : base58_decode (48 ∷ []) 3 ≡ none
unfolding base58_decode values b58_value index_in
refused = refl
