-- ===== src/Replay/History.antt =====
-- What src/replay.h promises, as a history that forgets nothing.
use comrade.Prelude.{
  ℕ, ◌+◌, ◌≤◌, ◌<◌, max, ◌≡◌, Bool, true, false, ◌||◌, List, [], ◌∷◌, ltb, ◌==◌, if◌then◌else◌,
  arith,
}
use comrade.Replay.Defs.{replay_window}

-- Whether a sequence stands in the history.
abbrev pub mem : ℕ → List ℕ → Bool
mem a [] = false
mem a (x ∷ xs) = a == x || mem a xs

abbrev pub highest : List ℕ → ℕ
highest [] = 0
highest (x ∷ xs) = max x (highest xs)

-- The specification: a sequence is taken unless it is zero, stands in the history, or lies
-- REPLAY_WINDOW or more below the highest one taken.
abbrev pub fresh : List ℕ → ℕ → Bool
fresh taken seq =
    if seq == 0
    then false
    else if mem seq taken
    then false
    else ltb (highest taken) (seq + replay_window)

unfoldable pub spec_verdicts : List ℕ → List ℕ → List Bool
spec_verdicts taken [] = []
spec_verdicts taken (seq ∷ rest) =
    fresh taken seq ∷ spec_verdicts (if fresh taken seq then seq ∷ taken else taken) rest

pub mem-le : (a : ℕ) (xs : List ℕ) → mem a xs ≡ true → a ≤ highest xs
mem-le a [] h = ground arith
mem-le a (x ∷ xs) h = ground (arith, mem-le a xs)

pub mem-highest : (xs : List ℕ) → 0 < highest xs → mem (highest xs) xs ≡ true
mem-highest [] h = elim h [ ]
mem-highest (x ∷ xs) h = ground (arith, mem-highest xs)

unfoldable pub spec_after : List ℕ → List ℕ → List ℕ
spec_after taken [] = taken
spec_after taken (seq ∷ rest) = spec_after (if fresh taken seq then seq ∷ taken else taken) rest

pub spec_after-mem :
    (seqs taken : List ℕ) (a : ℕ) → mem a taken ≡ true → mem a (spec_after taken seqs) ≡ true
unfolding spec_after
spec_after-mem [] taken a h = h
spec_after-mem (seq ∷ rest) taken a h = spec_after-mem rest _ a (ground arith)

pub fresh_of_mem : (taken : List ℕ) (seq : ℕ) → mem seq taken ≡ true → fresh taken seq ≡ false
fresh_of_mem taken seq h = ground arith
