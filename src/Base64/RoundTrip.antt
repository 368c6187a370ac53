-- ===== src/Base64/RoundTrip.antt =====
-- What is encoded for a URL decodes again (src/base64.c).
use comrade.Prelude.{
  ℕ, zero, suc, ◌+◌, ◌-◌, ◌*◌, ◌/◌, ◌%◌, ◌^◌, ◌<◌, ◌≤◌, ◌≡◌, refl, sym, ap, ap₂, subst, ◌∙◌, Bool,
  true, false, ◌&&◌, Option, none, some, List, [], ◌∷◌, arith, All, IsByte, ltb, ◌==◌, ==_iff,
  if◌then◌else◌, length, byte, Bool-cases, inl, inr,
}
use mathlib.Core.Option.{some-injective}
use comrade.Base64.{
  b64url_char, b64url_value, url_chars, base64url_encode, base64url_decode, decode_from, push,
  word24,
}

abbrev is_value : Option ℕ → ℕ → Bool
is_value none n = false
is_value (some m) n = m == n

is_value-some : (o : Option ℕ) (n : ℕ) → is_value o n ≡ true → o ≡ some n
is_value-some none n e = cc
is_value-some (some m) n e = ap some ((==_iff m n).0 e)

-- Whether the digits below n have their characters' values.
agree : ℕ → Bool
unfolding b64url_value b64url_char
agree zero = true
agree (suc n) = is_value (b64url_value (b64url_char n)) n && agree n

agree_all : agree 64 ≡ true
unfolding agree b64url_value b64url_char
agree_all = refl

and-split : (a b : Bool) → (a && b) ≡ true → (a ≡ true) × (b ≡ true)
and-split true b e = (refl, e)
and-split false b e = cc

below : (k n : ℕ) → k < suc n → (k == n) ≡ false → k < n
below k n h e = ground arith

agree-at : (n k : ℕ) → agree n ≡ true → k < n → b64url_value (b64url_char k) ≡ some k
unfolding agree
agree-at zero k e h = absurd (omega (arith, h))
agree-at (suc n) k e h =
    let both = and-split (is_value (b64url_value (b64url_char n)) n) (agree n) e in
    elim (Bool-cases (k == n)) [
      | inl same ↦
          subst (λ m. b64url_value (b64url_char m) ≡ some m) (sym ((==_iff k n).0 same))
            (is_value-some (b64url_value (b64url_char n)) n both.0)
      | inr other ↦ agree-at n k both.1 (below k n h other)
    ]

value-char : (k : ℕ) → k < 64 → b64url_value (b64url_char k) ≡ some k
value-char k h = agree-at 64 k agree_all h

-- The steps of the loop, by the bits that wait, on a character with a value.
step_0 :
    (c k v room : ℕ) (cs : List ℕ)
    → b64url_value c ≡ some k
    → decode_from (c ∷ cs) v 0 room ≡ decode_from cs (v * 2 ^ 6 % 2 ^ 32 + k) 6 room
unfolding decode_from
step_0 c k v room cs e = rw (e, decode_from)

step_6 :
    (c k v room : ℕ) (cs : List ℕ)
    → b64url_value c ≡ some k
    → decode_from (c ∷ cs) v 6 (suc room)
      ≡ push (byte ((v * 2 ^ 6 % 2 ^ 32 + k) / 16)) (decode_from cs (v * 2 ^ 6 % 2 ^ 32 + k) 4 room)
unfolding decode_from
step_6 c k v room cs e =
    let g : (suc room == 0) ≡ false = ground arith in
    let h : suc room - 1 ≡ room = omega arith in rw (e, g, h, decode_from)

step_4 :
    (c k v room : ℕ) (cs : List ℕ)
    → b64url_value c ≡ some k
    → decode_from (c ∷ cs) v 4 (suc room)
      ≡ push (byte ((v * 2 ^ 6 % 2 ^ 32 + k) / 4)) (decode_from cs (v * 2 ^ 6 % 2 ^ 32 + k) 2 room)
unfolding decode_from
step_4 c k v room cs e =
    let g : (suc room == 0) ≡ false = ground arith in
    let h : suc room - 1 ≡ room = omega arith in rw (e, g, h, decode_from)

step_2 :
    (c k v room : ℕ) (cs : List ℕ)
    → b64url_value c ≡ some k
    → decode_from (c ∷ cs) v 2 (suc room)
      ≡ push (byte (v * 2 ^ 6 % 2 ^ 32 + k)) (decode_from cs (v * 2 ^ 6 % 2 ^ 32 + k) 0 room)
unfolding decode_from
step_2 c k v room cs e =
    let g : (suc room == 0) ≡ false = ground arith in
    let h : suc room - 1 ≡ room = omega arith in
    let one : (v * 2 ^ 6 % 2 ^ 32 + k) / 1 ≡ v * 2 ^ 6 % 2 ^ 32 + k = omega arith in
    rw (e, g, h, decode_from)
      (ap (λ x. push (byte x) (decode_from cs (v * 2 ^ 6 % 2 ^ 32 + k) 0 room)) one)

-- The word after one more character.
abbrev next : ℕ → ℕ → ℕ
next v k = v * 2 ^ 6 % 2 ^ 32 + k

first_byte :
    (v a b c : ℕ)
    → a < 256
    → b < 256
    → c < 256
    → byte (next (next v (word24 a b c / 2 ^ 18)) (word24 a b c / 2 ^ 12 % 64) / 16) ≡ a
first_byte v a b c h k l = omega arith

second_byte :
    (v a b x : ℕ)
    → a < 256
    → b < 256
    → x < 2 ^ 8
    → byte (
        next
          (next v ((a * 2 ^ 16 + b * 2 ^ 8 + x) / 2 ^ 12 % 64))
          ((a * 2 ^ 16 + b * 2 ^ 8 + x) / 2 ^ 6 % 64)
        / 4)
      ≡ b
second_byte v a b x h k l = omega arith

third_byte :
    (v a b c : ℕ)
    → a < 256
    → b < 256
    → c < 256
    → byte (next (next v (word24 a b c / 2 ^ 6 % 64)) (word24 a b c % 64)) ≡ c
third_byte v a b c h k l = omega arith

-- The text ends where the bits that wait are zero.
ends_at : (v bits room : ℕ) → v % 2 ^ bits ≡ 0 → decode_from [] v bits room ≡ some []
unfolding decode_from
ends_at v bits room e = rw e

decode-url_chars :
    (bs : List ℕ) (v room : ℕ)
    → All IsByte bs
    → length bs ≤ room
    → decode_from (url_chars bs) v 0 room ≡ some bs
unfolding url_chars
decode-url_chars [] v room ok fits = ends_at v 0 room (omega arith)
decode-url_chars (a ∷ []) v zero ok fits = absurd (omega (arith, fits))
decode-url_chars (a ∷ []) v (suc room) ok fits =
    let w = word24 a 0 0 in
    let d0 = w / 2 ^ 18 in
    let d1 = w / 2 ^ 12 % 64 in
    let b0 : byte (next (next v d0) d1 / 16) ≡ a =
      first_byte v a 0 0 ok.0 (omega arith) (omega arith) in
    let zeros : next (next v d0) d1 % 2 ^ 4 ≡ 0 = omega arith in
    step_0 (b64url_char d0) d0 v (suc room) (b64url_char d1 ∷ [])
      (value-char d0 (omega (arith, ok.0)))
    ∙ step_6 (b64url_char d1) d1 (next v d0) room [] (value-char d1 (omega arith))
    ∙ ap (push (byte (next (next v d0) d1 / 16))) (ends_at (next (next v d0) d1) 4 room zeros)
    ∙ ap (λ x. some (x ∷ [])) b0
decode-url_chars (a ∷ b ∷ []) v zero ok fits = absurd (omega (arith, fits))
decode-url_chars (a ∷ b ∷ []) v (suc zero) ok fits = absurd (omega (arith, fits))
decode-url_chars (a ∷ b ∷ []) v (suc (suc room)) ok fits =
    let w = word24 a b 0 in
    let d0 = w / 2 ^ 18 in
    let d1 = w / 2 ^ 12 % 64 in
    let d2 = w / 2 ^ 6 % 64 in
    let v1 = next v d0 in
    let v2 = next v1 d1 in
    let v3 = next v2 d2 in
    let b0 : byte (v2 / 16) ≡ a = first_byte v a b 0 ok.0 ok.1.0 (omega arith) in
    let b1 : byte (v3 / 4) ≡ b = second_byte v1 a b 0 ok.0 ok.1.0 (omega arith) in
    let zeros : v3 % 2 ^ 2 ≡ 0 = omega arith in
    step_0 (b64url_char d0) d0 v (suc (suc room)) (b64url_char d1 ∷ b64url_char d2 ∷ [])
      (value-char d0 (omega (arith, ok.0, ok.1.0)))
    ∙ step_6 (b64url_char d1) d1 v1 (suc room) (b64url_char d2 ∷ []) (value-char d1 (omega arith))
    ∙ ap (push (byte (v2 / 16))) (
        step_4 (b64url_char d2) d2 v2 room [] (value-char d2 (omega arith))
        ∙ ap (push (byte (v3 / 4))) (ends_at v3 2 room zeros))
    ∙ ap₂ (λ x y. some (x ∷ y ∷ [])) b0 b1
decode-url_chars (a ∷ b ∷ c ∷ rest) v zero ok fits = absurd (omega (arith, fits))
decode-url_chars (a ∷ b ∷ c ∷ rest) v (suc zero) ok fits = absurd (omega (arith, fits))
decode-url_chars (a ∷ b ∷ c ∷ rest) v (suc (suc zero)) ok fits = absurd (omega (arith, fits))
decode-url_chars (a ∷ b ∷ c ∷ rest) v (suc (suc (suc room))) ok fits =
    let w = word24 a b c in
    let d0 = w / 2 ^ 18 in
    let d1 = w / 2 ^ 12 % 64 in
    let d2 = w / 2 ^ 6 % 64 in
    let d3 = w % 64 in
    let v1 = next v d0 in
    let v2 = next v1 d1 in
    let v3 = next v2 d2 in
    let v4 = next v3 d3 in
    let cs = url_chars rest in
    let b0 : byte (v2 / 16) ≡ a = first_byte v a b c ok.0 ok.1.0 ok.1.1.0 in
    let b1 : byte (v3 / 4) ≡ b = second_byte v1 a b c ok.0 ok.1.0 ok.1.1.0 in
    let b2 : byte v4 ≡ c = third_byte v2 a b c ok.0 ok.1.0 ok.1.1.0 in
    step_0 (b64url_char d0) d0 v (suc (suc (suc room)))
      (b64url_char d1 ∷ b64url_char d2 ∷ b64url_char d3 ∷ cs)
      (value-char d0 (omega (arith, ok.0, ok.1.0, ok.1.1.0)))
    ∙ step_6 (b64url_char d1) d1 v1 (suc (suc room)) (b64url_char d2 ∷ b64url_char d3 ∷ cs)
        (value-char d1 (omega arith))
    ∙ ap (push (byte (v2 / 16))) (
        step_4 (b64url_char d2) d2 v2 (suc room) (b64url_char d3 ∷ cs) (value-char d2 (omega arith))
        ∙ ap (push (byte (v3 / 4))) (
            step_2 (b64url_char d3) d3 v3 room cs (value-char d3 (omega arith))
            ∙ ap (push (byte v4)) (decode-url_chars rest v4 room ok.1.1.1 (omega (arith, fits)))))
    ∙ ap₂ (λ x y. some (x ∷ y)) b0 (ap₂ (λ x y. x ∷ y ∷ rest) b1 b2)

url_chars-rem : (bs : List ℕ) → (length (url_chars bs) % 4 == 1) ≡ false
unfolding url_chars
url_chars-rem [] = refl
url_chars-rem (a ∷ []) = refl
url_chars-rem (a ∷ b ∷ []) = refl
url_chars-rem (a ∷ b ∷ c ∷ rest) = ground (arith, url_chars-rem rest)

encoded :
    (bs text : List ℕ) (text_len : ℕ)
    → base64url_encode bs text_len ≡ some text
    → text ≡ url_chars bs
unfolding base64url_encode
encoded bs text text_len e =
    let need = length bs / 3 * 4 + (if length bs % 3 == 0 then 0 else length bs % 3 + 1) + 1 in
    elim (Bool-cases (ltb text_len need)) [
      | inl short ↦ cc
      | inr room ↦ sym (some-injective _ _ (sym (rw room) ∙ e))
    ]

-- What `base64url_encode` makes of a string of bytes, `base64url_decode` turns back into that string,
-- in any array that has room for it.
pub base64url_decode-encode :
    (bs text : List ℕ) (text_len dest_len : ℕ)
    → All IsByte bs
    → length bs ≤ dest_len
    → base64url_encode bs text_len ≡ some text
    → base64url_decode text dest_len ≡ some bs
unfolding base64url_encode base64url_decode
base64url_decode-encode bs text text_len dest_len ok fits e =
    let is : text ≡ url_chars bs = encoded bs text text_len e in
    rw (is, url_chars-rem bs) (decode-url_chars bs 0 dest_len ok fits)
