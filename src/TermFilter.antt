-- ===== src/TermFilter.antt =====
-- The filter between a terminal and tmux (src/termfilter.c): the terminal's answer about its size says
-- fewer rows. `scan` is the sscanf of an answer, `print` the snprintf of one, which writes nothing when
-- it fails.
pub mod Pieces
pub mod Rewrites
mod Tests
use comrade.Prelude.{
  ℕ, ◌-◌, Bool, ◌&&◌, Option, none, some, List, [], ◌∷◌, ◌++◌, ltb, leb, ◌==◌, if◌then◌else◌,
  length, get_or,
}
use comrade.Prelude.Int.{ℤ, pos, negsuc}

-- sizeof(f->pend)
abbrev pub pend_max : ℕ
pend_max = 32

-- `struct termfilter`; `npend` is the length of `pend`.
pub record TermFilter : Type 0 where
  pub reserve : ℤ
  pub pend : List ℕ

unfoldable pub init : ℤ → TermFilter
init reserve = record { reserve = reserve; pend = [] }

unfoldable pub flush_pend : TermFilter → List ℕ × TermFilter
flush_pend f = (f.pend, record f { pend = [] })

-- The size that tmux is told, where the answer is taken up.
unfoldable pub resized : (reserve : ℤ) → Option (ℤ × ℤ) → Option (ℕ × ℤ)
resized (pos reserve) (some (pos rows, cols)) =
    if ltb 0 reserve && ltb reserve rows then some (rows - reserve, cols) else none
resized (pos reserve) (some (negsuc rows, cols)) = none
resized (pos reserve) none = none
resized (negsuc reserve) scanned = none

-- A byte that starts anew after what was held.
unfoldable pub restart : TermFilter → (c : ℕ) → List ℕ × TermFilter
restart f c =
    if c == 27
    then (f.pend, record f { pend = c ∷ [] })
    else (f.pend ++ (c ∷ []), record f { pend = [] })

abbrev pub hold_byte : TermFilter → (c : ℕ) → TermFilter
hold_byte f c = record f { pend = f.pend ++ (c ∷ []) }

module _ (scan : List ℕ → Option (ℤ × ℤ)) (print : (rows : ℕ) (cols : ℤ) → List ℕ) where
  unfoldable pub emit_size : TermFilter → Option (ℕ × ℤ) → List ℕ × TermFilter
  emit_size f none = flush_pend f
  emit_size f (some (rows, cols)) = (print rows cols, record f { pend = [] })

  unfoldable pub emit_seq : TermFilter → List ℕ × TermFilter
  emit_seq f =
      if get_or f.pend (length f.pend - 1) 0 == 116
      then emit_size f (resized f.reserve (scan f.pend))
      else flush_pend f

  -- One round of the loop of termfilter_run.
  unfoldable pub feed : TermFilter → (c : ℕ) → List ℕ × TermFilter
  feed f c =
      if length f.pend == 0
      then if c == 27 then ([], hold_byte f c) else (c ∷ [], f)
      else if length f.pend == 1
      then if c == 91 then ([], hold_byte f c) else restart f c
      else if leb (pend_max - 1) (length f.pend)
      then restart f c
      else if leb 0x40 c && leb c 0x7e
      then emit_seq (hold_byte f c)
      else ([], hold_byte f c)

  unfoldable pub run : TermFilter → List ℕ → List ℕ × TermFilter
  run f [] = ([], f)
  run f (c ∷ cs) = let here = feed f c in let rest = run here.1 cs in (here.0 ++ rest.0, rest.1)
