-- ===== src/Base64.antt =====
-- Base64 of two alphabets (src/base64.c). A text is the list of its characters, without the NUL that
-- the source writes behind it; the result 0 of an encoder and -1 of the decoder are `none`.
pub mod RoundTrip
mod Tests
use comrade.Prelude.{
  ℕ, suc, ◌+◌, ◌-◌, ◌*◌, ◌/◌, ◌%◌, ◌^◌, Bool, true, false, ◌&&◌, Option, none, some, List, [], ◌∷◌,
  ltb, leb, ◌==◌, if◌then◌else◌, length, get_or, byte,
}

abbrev pub b64url_alphabet : List ℕ
b64url_alphabet =
    65 ∷ 66 ∷ 67 ∷ 68 ∷ 69 ∷ 70 ∷ 71 ∷ 72 ∷ 73 ∷ 74 ∷ 75 ∷ 76 ∷ 77 ∷ 78 ∷ 79 ∷ 80 ∷ 81 ∷ 82 ∷ 83
    ∷ 84 ∷ 85 ∷ 86 ∷ 87 ∷ 88 ∷ 89 ∷ 90 ∷ 97 ∷ 98 ∷ 99 ∷ 100 ∷ 101 ∷ 102 ∷ 103 ∷ 104 ∷ 105 ∷ 106
    ∷ 107 ∷ 108 ∷ 109 ∷ 110 ∷ 111 ∷ 112 ∷ 113 ∷ 114 ∷ 115 ∷ 116 ∷ 117 ∷ 118 ∷ 119 ∷ 120 ∷ 121 ∷ 122
    ∷ 48 ∷ 49 ∷ 50 ∷ 51 ∷ 52 ∷ 53 ∷ 54 ∷ 55 ∷ 56 ∷ 57 ∷ 45 ∷ 95 ∷ []

abbrev pub b64_alphabet : List ℕ
b64_alphabet =
    65 ∷ 66 ∷ 67 ∷ 68 ∷ 69 ∷ 70 ∷ 71 ∷ 72 ∷ 73 ∷ 74 ∷ 75 ∷ 76 ∷ 77 ∷ 78 ∷ 79 ∷ 80 ∷ 81 ∷ 82 ∷ 83
    ∷ 84 ∷ 85 ∷ 86 ∷ 87 ∷ 88 ∷ 89 ∷ 90 ∷ 97 ∷ 98 ∷ 99 ∷ 100 ∷ 101 ∷ 102 ∷ 103 ∷ 104 ∷ 105 ∷ 106
    ∷ 107 ∷ 108 ∷ 109 ∷ 110 ∷ 111 ∷ 112 ∷ 113 ∷ 114 ∷ 115 ∷ 116 ∷ 117 ∷ 118 ∷ 119 ∷ 120 ∷ 121 ∷ 122
    ∷ 48 ∷ 49 ∷ 50 ∷ 51 ∷ 52 ∷ 53 ∷ 54 ∷ 55 ∷ 56 ∷ 57 ∷ 43 ∷ 47 ∷ []

unfoldable pub b64url_char : ℕ → ℕ
b64url_char n = get_or b64url_alphabet n 0

unfoldable pub b64_char : ℕ → ℕ
b64_char n = get_or b64_alphabet n 0

-- Three bytes as a word: they are disjoint fields, so `|` is a sum.
abbrev pub word24 : ℕ → ℕ → ℕ → ℕ
word24 a b c = a * 2 ^ 16 + b * 2 ^ 8 + c

-- The loop of `base64url_encode` and what it does with the bytes that remain.
unfoldable pub url_chars : List ℕ → List ℕ
url_chars [] = []
url_chars (a ∷ []) =
    let v = word24 a 0 0 in b64url_char (v / 2 ^ 18) ∷ b64url_char (v / 2 ^ 12 % 64) ∷ []
url_chars (a ∷ b ∷ []) =
    let v = word24 a b 0 in
    b64url_char (v / 2 ^ 18) ∷ b64url_char (v / 2 ^ 12 % 64) ∷ b64url_char (v / 2 ^ 6 % 64) ∷ []
url_chars (a ∷ b ∷ c ∷ rest) =
    let v = word24 a b c in
    b64url_char (v / 2 ^ 18)
    ∷ b64url_char (v / 2 ^ 12 % 64)
    ∷ b64url_char (v / 2 ^ 6 % 64)
    ∷ b64url_char (v % 64)
    ∷ url_chars rest

unfoldable pub base64url_encode : (src : List ℕ) (dest_len : ℕ) → Option (List ℕ)
unfolding url_chars
base64url_encode src dest_len =
    let rem = length src % 3 in
    let need = length src / 3 * 4 + (if rem == 0 then 0 else rem + 1) + 1 in
    if ltb dest_len need then none else some (url_chars src)

-- The same for `base64_encode`, which pads with `=`.
unfoldable pub padded_chars : List ℕ → List ℕ
padded_chars [] = []
padded_chars (a ∷ []) =
    let v = word24 a 0 0 in b64_char (v / 2 ^ 18) ∷ b64_char (v / 2 ^ 12 % 64) ∷ 61 ∷ 61 ∷ []
padded_chars (a ∷ b ∷ []) =
    let v = word24 a b 0 in
    b64_char (v / 2 ^ 18) ∷ b64_char (v / 2 ^ 12 % 64) ∷ b64_char (v / 2 ^ 6 % 64) ∷ 61 ∷ []
padded_chars (a ∷ b ∷ c ∷ rest) =
    let v = word24 a b c in
    b64_char (v / 2 ^ 18)
    ∷ b64_char (v / 2 ^ 12 % 64)
    ∷ b64_char (v / 2 ^ 6 % 64)
    ∷ b64_char (v % 64)
    ∷ padded_chars rest

unfoldable pub base64_encode : (src : List ℕ) (dest_len : ℕ) → Option (List ℕ)
unfolding padded_chars
base64_encode src dest_len =
    if ltb dest_len ((length src + 2) / 3 * 4 + 1) then none else some (padded_chars src)

unfoldable pub b64url_value : ℕ → Option ℕ
b64url_value c =
    if leb 65 c && leb c 90
    then some (c - 65)
    else if leb 97 c && leb c 122
    then some (c - 97 + 26)
    else if leb 48 c && leb c 57
    then some (c - 48 + 52)
    else if c == 45
    then some 62
    else if c == 95
    then some 63
    else none

abbrev pub push : ℕ → Option (List ℕ) → Option (List ℕ)
push b none = none
push b (some bs) = some (b ∷ bs)

-- The loop of `base64url_decode`: `v` is a word of 32 bits, and `room` what is left of the array.
unfoldable pub decode_from : List ℕ → (v bits room : ℕ) → Option (List ℕ)
decode_from [] v bits room = if v % 2 ^ bits == 0 then some [] else none
decode_from (c ∷ cs) v bits room = elim (b64url_value c) [
  | none ↦ none
  | some d ↦
      let v' = v * 2 ^ 6 % 2 ^ 32 + d in
      let bits' = bits + 6 in
      if ltb bits' 8
      then decode_from cs v' bits' room
      else if room == 0
      then none
      else push (byte (v' / 2 ^ (bits' - 8))) (decode_from cs v' (bits' - 8) (room - 1))
]

unfoldable pub base64url_decode : (src : List ℕ) (dest_len : ℕ) → Option (List ℕ)
unfolding decode_from
base64url_decode src dest_len = if length src % 4 == 1 then none else decode_from src 0 0 dest_len
