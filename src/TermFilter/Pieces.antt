-- ===== src/TermFilter/Pieces.antt =====
-- How much the filter of src/termfilter.c holds.
use comrade.Prelude.{
  ℕ, ◌<◌, ◌-◌, ◌==◌, leb, Option, none, some, get_or, ◌&&◌, List, [], ◌∷◌, if-keeps, length,
  length-append, arith,
}
use comrade.Prelude.Int.{ℤ}
use comrade.TermFilter.{
  TermFilter, pend_max, flush_pend, restart, hold_byte, emit_size, emit_seq, feed, run, resized,
}

-- What is held leaves room in the buffer for the NUL.
unfoldable pub Fits : List ℕ × TermFilter → Type 0
Fits r = length r.1.pend < pend_max

module _ (scan : List ℕ → Option (ℤ × ℤ)) (print : (rows : ℕ) (cols : ℤ) → List ℕ) where
  emit_size-Fits : (f : TermFilter) (size : Option (ℕ × ℤ)) → Fits (emit_size scan print f size)
  unfolding emit_size flush_pend Fits
  emit_size-Fits f none = omega arith
  emit_size-Fits f (some (rows, cols)) = omega arith

  emit_seq-Fits : (f : TermFilter) → Fits (emit_seq scan print f)
  unfolding emit_seq flush_pend Fits
  emit_seq-Fits f =
      if-keeps Fits (get_or f.pend (length f.pend - 1) 0 == 116)
        (λ _. emit_size-Fits f (resized f.reserve (scan f.pend))) (λ _. omega arith)

  restart-Fits : (f : TermFilter) (c : ℕ) → Fits (restart f c)
  unfolding restart Fits
  restart-Fits f c = if-keeps Fits (c == 27) (λ _. omega arith) (λ _. omega arith)

  held-Fits : (f : TermFilter) (c : ℕ) → length f.pend < pend_max - 1 → Fits ([], hold_byte f c)
  unfolding Fits
  held-Fits f c h = omega (arith, length-append f.pend (c ∷ []))

  feed-Fits : (f : TermFilter) (c : ℕ) → Fits ([], f) → Fits (feed scan print f c)
  unfolding feed Fits
  feed-Fits f c h =
      if-keeps Fits (length f.pend == 0)
        (λ z. if-keeps Fits (c == 27) (λ _. held-Fits f c (grind arith)) (λ _. h))
        (λ _.
          if-keeps Fits (length f.pend == 1)
            (λ z.
              if-keeps Fits (c == 91) (λ _. held-Fits f c (grind arith)) (λ _. restart-Fits f c))
            (λ _.
              if-keeps Fits (leb (pend_max - 1) (length f.pend)) (λ _. restart-Fits f c)
                (λ z.
                  if-keeps Fits (leb 0x40 c && leb c 0x7e) (λ _. emit_seq-Fits (hold_byte f c))
                    (λ _. held-Fits f c (grind arith)))))

  -- From a buffer with room left, the filter never holds more than its buffer takes, the NUL included,
  -- whatever the terminal sends.
  pub run-Fits :
      (f : TermFilter) (cs : List ℕ) → length f.pend < pend_max → Fits (run scan print f cs)
  unfolding run Fits
  run-Fits f [] h = h
  run-Fits f (c ∷ cs) h = run-Fits (feed scan print f c).1 cs (feed-Fits f c h)
