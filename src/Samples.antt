-- ===== src/Samples.antt =====
-- Outside code for the tests: a cipher that hides nothing, a digest that sums, a curve on which every
-- secret agrees with every other.
use mathlib.Core.Option.{some-injective}
use comrade.Prelude.{
  ℕ, zero, suc, ◌+◌, ◌*◌, ◌%◌, ◌≡◌, refl, sym, ap, none, some, List, [], ◌∷◌, ◌++◌, length,
  replicate,
}
use comrade.Paths.Ep.{Os}
use comrade.Seal.{Aead}
use comrade.Seal.RoundTrip.{IsAead}
use comrade.DataAuth.Laws.{IsDigest}
use comrade.Keys.{Curve}
use comrade.Keys.Laws.{IsCurve}

-- Sixteen zeros for a tag, and the plaintext as it is.
abbrev pub clear : Aead
clear = record {
  lock = λ key nonce ad plain. some (replicate 16 0, plain);
  unlock = λ key tag nonce ad cipher. some cipher;
}

pub clear-IsAead : IsAead clear
clear-IsAead = record {
  tag_size = λ key nonce ad plain tag cipher e. ap (λ c. length c.0) (sym (some-injective _ _ e));
  cipher_size =
      λ key nonce ad plain tag cipher e. ap (λ c. length c.1) (sym (some-injective _ _ e));
  unlocks = λ key nonce ad plain tag cipher e. ap (λ c. some c.1) (sym (some-injective _ _ e));
}

abbrev total : List ℕ → ℕ
total [] = 0
total (x ∷ xs) = x + 3 * total xs

-- A digest that says the weighted sum of the key and the message, as often as it is asked for.
abbrev pub summing : Os
summing = record {
  inet_ntop = λ f bs. none;
  blake2b_keyed = λ n key msg. replicate n (total (key ++ msg) % 256);
}

length-replicate : (n x : ℕ) → length (replicate n x) ≡ n
length-replicate zero x = refl
length-replicate (suc n) x = ap suc (length-replicate n x)

pub summing-IsDigest : IsDigest summing
summing-IsDigest = record { size = λ n key msg. length-replicate n (total (key ++ msg) % 256) }

-- Every secret has one public key, and any two share one secret.
abbrev pub plain_curve : Curve
plain_curve = record {
  public = λ secret. some (replicate 32 7);
  shared = λ secret public. some (replicate 32 5);
}

pub plain_curve-IsCurve : IsCurve plain_curve
plain_curve-IsCurve = record {
  size = λ s p e. ap length (sym (some-injective _ _ e));
  agrees = λ s t p q shared e f g. g;
}

-- The body, the number 258 and the tag.
abbrev pub key : List ℕ
key = 1 ∷ 2 ∷ []

abbrev pub body : List ℕ
body = 10 ∷ 20 ∷ []

abbrev signed : List ℕ
signed = 10 ∷ 20 ∷ 0 ∷ 0 ∷ 0 ∷ 0 ∷ 0 ∷ 0 ∷ 1 ∷ 2 ∷ []

abbrev pub wire : List ℕ
wire = signed ++ replicate 16 28
