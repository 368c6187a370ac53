-- ===== src/TermFilter/Tests.antt =====
-- An answer about the size that two reads cut, through the filter of src/termfilter.c.
use comrade.Prelude.{
  ℕ, ◌+◌, Option, none, some, List, [], ◌∷◌, ◌≡◌, refl, length, ◌==◌, if◌then◌else◌, arith,
}
use comrade.Prelude.Int.{ℤ, pos}
use comrade.TermFilter.{TermFilter, init, run, feed, emit_seq, emit_size, resized, flush_pend}
use comrade.TermFilter.Pieces.{run-Fits, Fits}
use comrade.TermFilter.Rewrites.{Rewrites, Params, params, run-Rewrites}

-- ESC [ 8 ; 9 ; 7 t is the only answer there is, and one digit each is what is printed.
abbrev size_answer : List ℕ
size_answer = 27 ∷ 91 ∷ 56 ∷ 59 ∷ 57 ∷ 59 ∷ 55 ∷ 116 ∷ []

abbrev scan_one : List ℕ → Option (ℤ × ℤ)
scan_one text = if length text == 8 then some (pos 9, pos 7) else none

abbrev print_one : ℕ → ℤ → List ℕ
print_one rows cols = 27 ∷ 91 ∷ 56 ∷ 59 ∷ (48 + rows) ∷ 59 ∷ 55 ∷ 116 ∷ []

abbrev begun : TermFilter
begun = record { reserve = pos 1; pend = 27 ∷ 91 ∷ 56 ∷ [] }

abbrev remainder : List ℕ
remainder = 59 ∷ 57 ∷ 59 ∷ 55 ∷ 116 ∷ 120 ∷ []

-- One row fewer, and the text behind the answer unchanged.
one_row_fewer :
    (run scan_one print_one (init (pos 1)) size_answer).0
    ≡ 27 ∷ 91 ∷ 56 ∷ 59 ∷ 56 ∷ 59 ∷ 55 ∷ 116 ∷ []
unfolding run feed emit_seq emit_size resized init
one_row_fewer = refl

-- An arrow key is let through.
arrow_key :
    (run scan_one print_one (init (pos 1)) (27 ∷ 91 ∷ 65 ∷ 97 ∷ [])).0 ≡ 27 ∷ 91 ∷ 65 ∷ 97 ∷ []
unfolding run feed emit_seq flush_pend init
arrow_key = refl

-- ESC [ 8 is held.
eight : Params (56 ∷ [])
eight = record { none_final = (refl, tt); short = omega arith }

run-Rewrites_example :
    let r = run scan_one print_one begun remainder in
    Rewrites scan_one print_one (pos 1) (27 ∷ 91 ∷ 56 ∷ remainder) r.0 r.1.pend
run-Rewrites_example = run-Rewrites scan_one print_one (pos 1) (params (56 ∷ []) eight) remainder

run-Fits_example : Fits (run scan_one print_one begun remainder)
run-Fits_example = run-Fits scan_one print_one begun remainder (omega arith)
