-- ===== src/Base64/Tests.antt =====
-- Short strings through base64 (src/base64.c).
use comrade.Prelude.{ℕ, ◌≡◌, refl, none, some, List, [], ◌∷◌, arith}
use comrade.Base64.{
  base64_encode, base64url_encode, base64url_decode, url_chars, padded_chars, b64url_char, b64_char,
  b64url_value, decode_from,
}
use comrade.Base64.RoundTrip.{base64url_decode-encode}

-- "hi" and its texts.
abbrev hi : List ℕ
hi = 104 ∷ 105 ∷ []

padded : base64_encode hi 8 ≡ some (97 ∷ 71 ∷ 107 ∷ 61 ∷ [])
unfolding base64_encode padded_chars b64_char
padded = refl

-- A last character whose low bits are not zero is refused.
not_canonical : base64url_decode (97 ∷ 71 ∷ 108 ∷ []) 8 ≡ none
unfolding base64url_decode decode_from b64url_value
not_canonical = refl

base64url_decode-encode_example : base64url_decode (97 ∷ 71 ∷ 107 ∷ []) 2 ≡ some hi
unfolding base64url_encode url_chars b64url_char
base64url_decode-encode_example =
    base64url_decode-encode hi (97 ∷ 71 ∷ 107 ∷ []) 4 2 (omega arith, (omega arith, tt))
      (omega arith) refl
