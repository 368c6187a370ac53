-- ===== src/Replay/Window.antt =====
-- `replay_ok` of src/replay.c against the history of every sequence that it accepted.
use comrade.Prelude.{
  ℕ, zero, suc, ◌+◌, ◌-◌, ◌*◌, ◌%◌, ◌^◌, ◌≤◌, ◌<◌, max, bit_and, bit_or, ◌≡◌, refl, sym, ap, ◌∙◌,
  Bool, true, false, List, [], ◌∷◌, ◌==◌, if◌then◌else◌, arith, Bool-cases, inl, inr, ap₂,
}
use comrade.Prelude.Bits.{
  bit, bit-le, bit-or, bit-zero, bit-shift_low, bit-shift_high, bit-mod, bit-pow_self, bit-pow_ne,
  bit_and-pow,
}
use native.Mathlib.Decide.{dec_lt, ℕ_discrete}
use native.Mathlib.Nat.{mod-eq_of_lt, pow-le-pow_right, one-le-pow}
use comrade.Replay.History.{
  mem, highest, fresh, spec_verdicts, spec_after, mem-le, mem-highest, spec_after-mem, fresh_of_mem,
}
use comrade.Replay.Defs.{ReplayWin, shl64, advance, replay_ok, verdicts, zeroed}

abbrev flag : Bool → ℕ
flag b = if b then 1 else 0

-- The window holds what the history says of the 63 sequences below the highest.
record Tracks (w : ReplayWin) (taken : List ℕ) : Type 0 where
  top : w.hi ≡ highest taken
  below : (k : ℕ) → k < 63 → suc k < w.hi → bit w.seen k ≡ flag (mem (w.hi - suc k) taken)

pow-lt : (k : ℕ) → k < 63 → 2 ^ k < 2 ^ 64
pow-lt k h = omega (arith, pow-le-pow_right {n = 2} (omega arith) {i = k} {j = 63} (omega arith))

one-mul : (n : ℕ) → 1 * n ≡ n
one-mul n = omega arith

bit-one_shift : (s k : ℕ) → k < 63 → bit (shl64 1 s) k ≡ (if s == k then 1 else 0)
bit-one_shift s k h =
    bit-mod 64 (1 * 2 ^ s) k (omega arith)
    ∙ ap (λ x. bit x k) (one-mul (2 ^ s))
    ∙ elim (ℕ_discrete s k) [
      | yes e ↦ ground (arith, bit-pow_self s)
      | no ne ↦ ground (arith, bit-pow_ne s k)
    ]

bit-shl64_low : (x s k : ℕ) → k < 63 → k < s → bit (shl64 x s) k ≡ 0
bit-shl64_low x s k h lt = bit-mod 64 (x * 2 ^ s) k (omega arith) ∙ bit-shift_low x s k lt

bit-shl64_high : (x s j : ℕ) → s + j < 63 → bit (shl64 x s) (s + j) ≡ bit x j
bit-shl64_high x s j h = bit-mod 64 (x * 2 ^ s) (s + j) (omega arith) ∙ bit-shift_high x s j

scaled : (b p : ℕ) → b ≤ 1 → 1 ≤ p → (b * p == 0) ≡ (b == 0)
scaled zero p h k = ground arith
scaled (suc zero) p h k = ground arith
scaled (suc (suc b)) p h k = absurd (omega arith)

module _ (w : ReplayWin) (taken : List ℕ) (t : Tracks w taken) (seq : ℕ) where
  above : (a : ℕ) → w.hi < a → mem a taken ≡ false
  above a h = ground (arith, t.top, mem-le a taken)

  -- What stands where after the window moved up: nothing above the old highest, then the old
  -- highest itself, then the old window.
  advance-shifted :
      (k : ℕ)
      → w.hi < seq
      → seq - w.hi < 64
      → k < 63
      → suc k < seq
      → max
          (bit (shl64 w.seen (seq - w.hi)) k)
          (bit (if w.hi == 0 then 0 else shl64 1 (seq - w.hi - 1)) k)
        ≡ flag (mem (seq - suc k) taken)
  advance-shifted k up near small in_range = elim (dec_lt k (seq - w.hi)) [
    | yes new ↦ ground (
      arith,
      t.top,
      bit-shl64_low w.seen (seq - w.hi) k small new,
      bit-one_shift (seq - w.hi - 1) k small,
      bit-zero k,
      above (seq - suc k),
      mem-highest taken,
    )
    | no old ↦ ground (
      arith,
      bit-shl64_high w.seen (seq - w.hi) (k - (seq - w.hi)) (omega arith),
      bit-one_shift (seq - w.hi - 1) k small,
      bit-zero k,
      t.below (k - (seq - w.hi)) (omega arith) (omega arith),
    )
  ]

  advance-below :
      (k : ℕ)
      → w.hi < seq
      → k < 63
      → suc k < seq
      → bit (advance w seq).seen k ≡ flag (mem (seq - suc k) (seq ∷ taken))
  unfolding advance
  advance-below k up small in_range = elim (dec_lt (seq - w.hi) 64) [
    | yes near ↦ ground (
      arith,
      advance-shifted k up near small in_range,
      bit-or (shl64 w.seen (seq - w.hi)) (if w.hi == 0 then 0 else shl64 1 (seq - w.hi - 1)) k,
    )
    | no far ↦ ground (arith, bit-zero k, above (seq - suc k))
  ]

  shl64-one : (k : ℕ) → k < 63 → shl64 1 k ≡ 2 ^ k
  shl64-one k h = ap (λ x. x % 2 ^ 64) (one-mul (2 ^ k)) ∙ mod-eq_of_lt (grind (arith, pow-lt k))

  test-bit : (k : ℕ) → k < 63 → (bit_and w.seen (shl64 1 k) == 0) ≡ (bit w.seen k == 0)
  test-bit k h =
      ap (λ m. bit_and w.seen m == 0) (shl64-one k h)
      ∙ ap (λ b. b == 0) (bit_and-pow w.seen k)
      ∙ scaled (bit w.seen k) (2 ^ k) (bit-le w.seen k) (one-le-pow k 2 (omega arith))

  replay_ok-fresh : (replay_ok w seq).0 ≡ fresh taken seq
  unfolding replay_ok
  replay_ok-fresh = ground (
    arith,
    t.top,
    mem-le seq taken,
    mem-highest taken,
    test-bit (w.hi - seq - 1),
    t.below (w.hi - seq - 1),
  )

  marked-below :
      (k : ℕ)
      → seq < w.hi
      → w.hi - seq < 64
      → k < 63
      → suc k < w.hi
      → bit (bit_or w.seen (shl64 1 (w.hi - seq - 1))) k ≡ flag (mem (w.hi - suc k) (seq ∷ taken))
  marked-below k back near small in_range = ground (
    arith,
    bit-or w.seen (shl64 1 (w.hi - seq - 1)) k,
    bit-one_shift (w.hi - seq - 1) k small,
    t.below k small in_range,
  )

  top-next : (replay_ok w seq).1.hi ≡ highest (if fresh taken seq then seq ∷ taken else taken)
  unfolding replay_ok advance
  top-next = ground (
    arith,
    t.top,
    mem-le seq taken,
    mem-highest taken,
    test-bit (w.hi - seq - 1),
    t.below (w.hi - seq - 1),
  )

  hi-advance : (advance w seq).hi ≡ seq
  unfolding advance
  hi-advance = refl

  accepted-below :
      (k : ℕ)
      → k < 63
      → (replay_ok w seq).0 ≡ true
      → suc k < (replay_ok w seq).1.hi
      → bit (replay_ok w seq).1.seen k ≡ flag (mem ((replay_ok w seq).1.hi - suc k) (seq ∷ taken))
  unfolding replay_ok
  accepted-below k small e h = ground (arith, hi-advance, marked-below k, advance-below k)

  refused-below :
      (k : ℕ)
      → k < 63
      → (replay_ok w seq).0 ≡ false
      → suc k < (replay_ok w seq).1.hi
      → bit (replay_ok w seq).1.seen k ≡ flag (mem ((replay_ok w seq).1.hi - suc k) taken)
  unfolding replay_ok
  refused-below k small e h = ground (arith, t.below k small)

  replay_ok-Tracks : Tracks (replay_ok w seq).1 (if fresh taken seq then seq ∷ taken else taken)
  replay_ok-Tracks = record {
    top = top-next;
    below = λ k small h. elim (Bool-cases (fresh taken seq)) [
      | inl now ↦ rw now (accepted-below k small (replay_ok-fresh ∙ now) h)
      | inr refused ↦ rw refused (refused-below k small (replay_ok-fresh ∙ refused) h)
    ];
  }

verdicts-refines :
    (seqs : List ℕ) (w : ReplayWin) (taken : List ℕ)
    → Tracks w taken
    → verdicts w seqs ≡ spec_verdicts taken seqs
unfolding verdicts spec_verdicts
verdicts-refines [] w taken t = refl
verdicts-refines (seq ∷ rest) w taken t =
    ap₂ ◌∷◌ (replay_ok-fresh w taken t seq)
      (verdicts-refines rest _ _ (replay_ok-Tracks w taken t seq))

zeroed-Tracks : Tracks zeroed []
zeroed-Tracks = record { top = refl; below = λ k small h. absurd (omega arith) }

-- From a zeroed window, `replay_ok` answers every stream of sequence numbers as the specification
-- does that remembers all it accepted: a number is taken when it is not zero, was not taken
-- before, and lies fewer than 64 below the highest one taken.
pub replay-refines : (seqs : List ℕ) → verdicts zeroed seqs ≡ spec_verdicts [] seqs
replay-refines seqs = verdicts-refines seqs zeroed [] zeroed-Tracks

-- The window after a stream, whatever was accepted of it.
unfoldable pub after : ReplayWin → List ℕ → ReplayWin
after w [] = w
after w (seq ∷ rest) = after (replay_ok w seq).1 rest

after-Tracks :
    (seqs : List ℕ) (w : ReplayWin) (taken : List ℕ)
    → Tracks w taken
    → Tracks (after w seqs) (spec_after taken seqs)
unfolding after spec_after
after-Tracks [] w taken t = t
after-Tracks (seq ∷ rest) w taken t = after-Tracks rest _ _ (replay_ok-Tracks w taken t seq)

-- A sequence that the window accepts, after any stream, is refused ever after: whatever
-- arrives in between, a second copy of the frame is not acted on.
pub replay_once :
    (before between : List ℕ) (seq : ℕ)
    → (replay_ok (after zeroed before) seq).0 ≡ true
    → (replay_ok (after (replay_ok (after zeroed before) seq).1 between) seq).0 ≡ false
replay_once before between seq ok =
    replay_ok-fresh _ _ later seq
    ∙ fresh_of_mem _ seq (spec_after-mem between _ seq (rw taken (ground (arith))))
  where
    first : Tracks (after zeroed before) (spec_after [] before)
    first = after-Tracks before zeroed [] zeroed-Tracks

    taken : fresh (spec_after [] before) seq ≡ true
    taken = sym (replay_ok-fresh _ _ first seq) ∙ ok

    later : Tracks (after (replay_ok (after zeroed before) seq).1 between) (
        spec_after
          (if fresh (spec_after [] before) seq
            then seq ∷ spec_after [] before
            else spec_after [] before)
          between)
    later = after-Tracks between _ _ (replay_ok-Tracks _ _ first seq)
