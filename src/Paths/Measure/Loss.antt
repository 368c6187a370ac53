-- ===== src/Paths/Measure/Loss.antt =====
-- The loss register of src/path.c against the list of probe outcomes that it stands for.
use comrade.Prelude.{
  ℕ, zero, suc, ◌+◌, ◌*◌, ◌/◌, ◌%◌, ◌^◌, ◌≤◌, ◌<◌, min, max, bit_or, ◌≡◌, refl, ap, ap₂, ◌∙◌, Bool,
  false, List, [], ◌∷◌, ltb, ◌==◌, if◌then◌else◌, arith, length, length-take, take, get_or,
}
use comrade.Prelude.Bits.{bit, bit-or, bit-zero, bit-mod, bit-test, pow-mod}
use native.Mathlib.Nat.{zero-min, min-zero, suc-min-suc}
use comrade.Paths.Types.{NetPath, zero_path}
use comrade.Paths.Measure.{loss_record, loss_ppt, lost_below}

abbrev pub flag : Bool → ℕ
flag b = if b then 1 else 0

-- How many of the outcomes are losses.
unfoldable pub losses : List Bool → ℕ
losses [] = 0
losses (lost ∷ rest) = flag lost + losses rest

-- Newest first.
abbrev pub reverse_onto : List Bool → List Bool → List Bool
reverse_onto acc [] = acc
reverse_onto acc (x ∷ xs) = reverse_onto (x ∷ acc) xs

-- The register holds the newest 16 outcomes, newest first.
record Holds (p : NetPath) (outcomes : List Bool) : Type 0 where
  count : p.loss_n ≡ min 16 (length outcomes)
  bits : (k : ℕ) → k < p.loss_n → bit p.loss_reg k ≡ flag (get_or outcomes k false)

-- Shifting an outcome in moves the others up by one.
bit-shift_in :
    (reg : ℕ) (lost : Bool) (k : ℕ)
    → suc k < 16
    → bit (bit_or (reg * 2) (flag lost) % 2 ^ 16) (suc k) ≡ bit reg k
bit-shift_in reg lost k h =
    bit-mod 16 (bit_or (reg * 2) (flag lost)) (suc k) h
    ∙ bit-or (reg * 2) (flag lost) (suc k)
    ∙ ap₂ max (ap (λ x. bit x k) doubled) (ap (λ x. bit x k) none_left ∙ bit-zero k)
    ∙ omega arith
  where
    doubled : reg * 2 / 2 ≡ reg
    doubled = omega arith

    none_left : flag lost / 2 ≡ 0
    none_left = ground arith

pub bit-newest : (reg : ℕ) (lost : Bool) → bit (bit_or (reg * 2) (flag lost) % 2 ^ 16) 0 ≡ flag lost
bit-newest reg lost =
    bit-mod 16 (bit_or (reg * 2) (flag lost)) 0 (omega arith)
    ∙ bit-or (reg * 2) (flag lost) 0
    ∙ ground arith

loss_record-Holds :
    (p : NetPath) (outcomes : List Bool) (lost : Bool)
    → Holds p outcomes
    → Holds (loss_record p lost) (lost ∷ outcomes)
unfolding loss_record
loss_record-Holds p outcomes lost h = record { count = ground (arith, h.count); bits = shifted }
  where
    shifted :
        (k : ℕ)
        → k < (if ltb p.loss_n 16 then p.loss_n + 1 else p.loss_n)
        → bit (bit_or (p.loss_reg * 2) (flag lost) % 2 ^ 16) k
          ≡ flag (get_or (lost ∷ outcomes) k false)
    shifted zero below = bit-newest p.loss_reg lost
    shifted (suc k) below =
        bit-shift_in p.loss_reg lost k (ground (arith, h.count))
        ∙ h.bits k (ground (arith, h.count))

losses-take-suc :
    (xs : List Bool) (i : ℕ)
    → losses (take (suc i) xs) ≡ losses (take i xs) + flag (get_or xs i false)
unfolding losses
losses-take-suc [] zero = refl
losses-take-suc [] (suc i) = refl
losses-take-suc (x ∷ xs) zero = omega arith
losses-take-suc (x ∷ xs) (suc i) = omega (arith, losses-take-suc xs i)

lost_below-losses :
    (p : NetPath) (outcomes : List Bool) (n : ℕ)
    → Holds p outcomes
    → n ≤ p.loss_n
    → lost_below p.loss_reg n ≡ losses (take n outcomes)
unfolding lost_below losses
lost_below-losses p outcomes zero h le = refl
lost_below-losses p outcomes (suc i) h le = ground (
  arith,
  pow-mod 16 i (omega (arith, h.count)),
  bit-test p.loss_reg i,
  h.bits i (omega arith),
  lost_below-losses p outcomes i h (omega arith),
  losses-take-suc outcomes i,
)

-- The register after a series of outcomes, oldest first.
unfoldable pub record_all : NetPath → List Bool → NetPath
record_all p [] = p
record_all p (lost ∷ rest) = record_all (loss_record p lost) rest

record_all-Holds :
    (outcomes : List Bool) (p : NetPath) (before : List Bool)
    → Holds p before
    → Holds (record_all p outcomes) (reverse_onto before outcomes)
unfolding record_all
record_all-Holds [] p before h = h
record_all-Holds (lost ∷ rest) p before h =
    record_all-Holds rest (loss_record p lost) (lost ∷ before) (loss_record-Holds p before lost h)

lost_below-le : (reg n : ℕ) → lost_below reg n ≤ n
unfolding lost_below
lost_below-le reg zero = omega arith
lost_below-le reg (suc n) = ground (arith, lost_below-le reg n)

take-min : (n : ℕ) (xs : List Bool) → take (min n (length xs)) xs ≡ take n xs
take-min zero xs = ap (λ k. take k xs) (zero-min (length xs))
take-min (suc n) [] = ap (λ k. take {A = Bool} k []) (min-zero (suc n))
take-min (suc n) (x ∷ xs) =
    ap (λ k. take k (x ∷ xs)) (suc-min-suc n (length xs)) ∙ ap (◌∷◌ x) (take-min n xs)

share : (a n : ℕ) → a ≤ n → 0 < n → a * 1000 / n ≤ 1000
share a n h pos = grind arith

-- The loss ratio is a proportion: at most 1000 thousandths, whatever the register holds.
pub loss_ppt-le : (p : NetPath) → loss_ppt p ≤ 1000
unfolding loss_ppt
loss_ppt-le p =
    ground
      (arith, lost_below-le p.loss_reg p.loss_n, share (lost_below p.loss_reg p.loss_n) p.loss_n)

-- After any series of probe outcomes on a fresh path, the loss ratio is the share of losses, in
-- thousandths and rounded down, among the newest 16 outcomes (all of them while there are fewer),
-- and 0 before the first.
pub loss_ppt-window :
    (outcomes : List Bool)
    → let newest = take 16 (reverse_onto [] outcomes) in
      loss_ppt (record_all zero_path outcomes)
      ≡ (if length newest == 0 then 0 else (losses newest * 1000) / length newest)
unfolding loss_ppt
loss_ppt-window outcomes = ground (
  arith,
  fresh-Holds.count,
  length-take 16 (reverse_onto [] outcomes),
  lost_below-losses (record_all zero_path outcomes) (reverse_onto [] outcomes)
      (record_all zero_path outcomes).loss_n fresh-Holds (omega arith),
  take-min 16 (reverse_onto [] outcomes),
)
  where
    fresh-Holds : Holds (record_all zero_path outcomes) (reverse_onto [] outcomes)
    fresh-Holds =
        record_all-Holds outcomes zero_path []
          (record { count = refl; bits = λ k h. absurd (omega arith) })
