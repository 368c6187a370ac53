-- ===== src/TermFilter/Rewrites.antt =====
-- What the filter of src/termfilter.c makes of a text.
use comrade.Prelude.{
  ℕ, ◌+◌, ◌-◌, ◌<◌, ◌≤◌, Bool, true, false, ◌&&◌, Option, none, some, List, [], ◌∷◌, ◌++◌, ◌≡◌, ◌≢◌,
  refl, sym, ap, ◌∙◌, subst, length, get_or, ltb, leb, ◌==◌, if◌then◌else◌, length-append, arith,
  append_assoc, append-nil, All, Bool-cases, inl, inr, if-keeps,
}
use comrade.Prelude.Int.{ℤ, pos, negsuc}
use comrade.TermFilter.{
  TermFilter, pend_max, resized, flush_pend, restart, emit_size, emit_seq, feed, run,
}

-- A byte that ends a control sequence.
abbrev pub is_final : ℕ → Bool
is_final c = leb 0x40 c && leb c 0x7e

-- The bytes of a control sequence before its last, as many as are held at most.
pub record Params (ps : List ℕ) : Type 0 where
  pub none_final : All (λ c. is_final c ≡ false) ps
  pub short : length ps ≤ 29

module _ (scan : List ℕ → Option (ℤ × ℤ)) (print : (rows : ℕ) (cols : ℤ) → List ℕ) where
  -- An answer about the size, by what `scan` reads of it: with rows held back, and more of them on the
  -- terminal, it is printed with those taken off, and else it is as it was.
  abbrev pub told : (reserve : ℤ) → Option (ℤ × ℤ) → (s : List ℕ) → List ℕ
  told (pos back) (some (pos rows, cols)) s =
      if leb 1 back && leb (back + 1) rows then print (rows - back) cols else s
  told (pos back) (some (negsuc rows, cols)) s = s
  told (pos back) none s = s
  told (negsuc back) scanned s = s

  -- What a whole control sequence becomes, by its last byte.
  abbrev pub rewritten : (reserve : ℤ) (s : List ℕ) (final : ℕ) → List ℕ
  rewritten reserve s final = if final == 116 then told reserve (scan s) s else s

  -- How a text is read, what comes out, and what is held at its end: a byte outside of a sequence; an
  -- ESC that no bracket follows; ESC [ and parameters to a last byte, rewritten as a whole; and
  -- ESC [ with 29 parameters that more follows, which is longer than any sequence that is
  -- rewritten.
  pub data Rewrites (reserve : ℤ) : (text out held : List ℕ) → Type 0 where
    end : Rewrites reserve [] [] []
    end_escape : Rewrites reserve (27 ∷ []) [] (27 ∷ [])
    end_params : (ps : List ℕ) → Params ps → Rewrites reserve (27 ∷ 91 ∷ ps) [] (27 ∷ 91 ∷ ps)
    plain :
        (c : ℕ) {xs ys held : List ℕ}
        → c ≢ 27
        → Rewrites reserve xs ys held
        → Rewrites reserve (c ∷ xs) (c ∷ ys) held
    lone :
        (c : ℕ) {xs ys held : List ℕ}
        → c ≢ 91
        → Rewrites reserve (c ∷ xs) ys held
        → Rewrites reserve (27 ∷ c ∷ xs) (27 ∷ ys) held
    whole :
        (ps : List ℕ) (final : ℕ) {xs ys held : List ℕ}
        → Params ps
        → length ps < 29
        → is_final final ≡ true
        → Rewrites reserve xs ys held
        → Rewrites reserve
            ((27 ∷ 91 ∷ ps) ++ (final ∷ xs))
            (rewritten reserve ((27 ∷ 91 ∷ ps) ++ (final ∷ [])) final ++ ys)
            held
    long :
        (ps : List ℕ) (c : ℕ) {xs ys held : List ℕ}
        → Params ps
        → length ps ≡ 29
        → Rewrites reserve (c ∷ xs) ys held
        → Rewrites reserve ((27 ∷ 91 ∷ ps) ++ (c ∷ xs)) ((27 ∷ 91 ∷ ps) ++ ys) held

  -- What the filter holds: nothing, ESC, or ESC [ and parameters.
  pub data Held : Type 0 where
    idle escape : Held
    params : (ps : List ℕ) → Params ps → Held

  abbrev pub held_text : Held → List ℕ
  held_text idle = []
  held_text escape = 27 ∷ []
  held_text (params ps h) = 27 ∷ 91 ∷ ps

  abbrev filter_of : ℤ → List ℕ → TermFilter
  filter_of reserve pend = record { reserve = reserve; pend = pend }

  -- A filter that holds `pend`, fed the bytes, reads the text so.
  Passes : ℤ → (pend cs text : List ℕ) → Type 0
  Passes reserve pend cs text =
      Rewrites reserve text (run scan print (filter_of reserve pend) cs).0
        (run scan print (filter_of reserve pend) cs).1.pend

  -- The same of a text whose first bytes were fed, with this result.
  Then : (reserve : ℤ) (text cs : List ℕ) → List ℕ × TermFilter → Type 0
  Then reserve text cs here =
      Rewrites reserve text (here.0 ++ (run scan print here.1 cs).0)
        (run scan print here.1 cs).1.pend

  is_byte : (c d : ℕ) → (c == d) ≡ true → d ≡ c
  is_byte c d e = ground arith

  is_other : (c d : ℕ) → (c == d) ≡ false → c ≢ d
  is_other c d e z = absurd (ground arith)

  nothing_read : Params []
  nothing_read = record { none_final = tt; short = omega arith }

  All-append :
      (ps qs : List ℕ)
      → All (λ c. is_final c ≡ false) ps
      → All (λ c. is_final c ≡ false) qs
      → All (λ c. is_final c ≡ false) (ps ++ qs)
  All-append [] qs h k = k
  All-append (p ∷ ps) qs h k = (h.0, All-append ps qs h.1 k)

  one_more :
      (ps : List ℕ) (c : ℕ)
      → Params ps
      → length ps < 29
      → is_final c ≡ false
      → Params (ps ++ (c ∷ []))
  one_more ps c h room e = record {
    none_final = All-append ps (c ∷ []) h.none_final (e, tt);
    short = omega (arith, length-append ps (c ∷ []));
  }

  last-append : (s : List ℕ) (c : ℕ) → get_or (s ++ (c ∷ [])) (length (s ++ (c ∷ [])) - 1) 0 ≡ c
  last-append s c =
      let at_end : length (s ++ (c ∷ [])) - 1 ≡ length s =
        omega (arith, length-append s (c ∷ [])) in
      ap (λ n. get_or (s ++ (c ∷ [])) n 0) at_end ∙ here s
    where
      here : (t : List ℕ) → get_or (t ++ (c ∷ [])) (length t) 0 ≡ c
      here [] = refl
      here (x ∷ t) = here t

  emit_size-told :
      (reserve : ℤ) (s : List ℕ) (scanned : Option (ℤ × ℤ))
      → emit_size scan print (filter_of reserve s) (resized reserve scanned)
        ≡ (told reserve scanned s, filter_of reserve [])
  unfolding emit_size flush_pend resized
  emit_size-told (pos back) s (some (pos rows, cols)) =
      elim (Bool-cases (leb 1 back && leb (back + 1) rows)) [
        | inl e ↦
            let taken_up : (ltb 0 back && ltb back rows) ≡ true = ground arith in
            simp (e, taken_up) refl
        | inr e ↦
            let left : (ltb 0 back && ltb back rows) ≡ false = ground arith in simp (e, left) refl
      ]
  emit_size-told (pos back) s (some (negsuc rows, cols)) = refl
  emit_size-told (pos back) s none = refl
  emit_size-told (negsuc back) s scanned = refl

  emit_seq-rewritten :
      (reserve : ℤ) (s : List ℕ) (c : ℕ)
      → emit_seq scan print (filter_of reserve (s ++ (c ∷ [])))
        ≡ (rewritten reserve (s ++ (c ∷ [])) c, filter_of reserve [])
  unfolding emit_seq flush_pend
  emit_seq-rewritten reserve s c = rw (last-append s c) (elim (Bool-cases (c == 116)) [
    | inl e ↦ simp e (emit_size-told reserve (s ++ (c ∷ [])) _)
    | inr e ↦ simp e refl
  ])

  module _ (reserve : ℤ) (c : ℕ) (cs : List ℕ)
      (ih : (h : Held) → Passes reserve (held_text h) cs (held_text h ++ cs)) where
    -- An ESC that starts to be held.
    started : (c == 27) ≡ true → Passes reserve (c ∷ []) cs (c ∷ cs)
    started e = subst (λ b. Passes reserve (b ∷ []) cs (b ∷ cs)) (is_byte c 27 e) (ih escape)

    idle-Then : Then reserve (c ∷ cs) cs (feed scan print (filter_of reserve []) c)
    unfolding feed Then Passes
    idle-Then =
        if-keeps (Then reserve (c ∷ cs) cs) (c == 27) (λ e. started e)
          (λ e. plain c (is_other c 27 e) (ih idle))

    restart-Then :
        (text pend : List ℕ)
        → ((ys held : List ℕ)
            → Rewrites reserve (c ∷ cs) ys held
            → Rewrites reserve text (pend ++ ys) held)
        → Then reserve text cs (restart (filter_of reserve pend) c)
    unfolding restart Then Passes
    restart-Then text pend wrap =
        let rest = run scan print (filter_of reserve []) cs in
        if-keeps (Then reserve text cs) (c == 27) (λ e. wrap _ _ (started e))
          (λ e.
            subst (λ ys. Rewrites reserve text ys rest.1.pend)
              (sym (append_assoc pend (c ∷ []) rest.0))
              (wrap _ _ (plain c (is_other c 27 e) (ih idle))))

    escape-Then : Then reserve (27 ∷ c ∷ cs) cs (feed scan print (filter_of reserve (27 ∷ [])) c)
    unfolding feed Then Passes
    escape-Then =
        if-keeps (Then reserve (27 ∷ c ∷ cs) cs) (c == 91)
          (λ e.
            subst (λ b. Passes reserve (27 ∷ b ∷ []) cs (27 ∷ b ∷ cs)) (is_byte c 91 e)
              (ih (params [] nothing_read)))
          (λ e. restart-Then (27 ∷ c ∷ cs) (27 ∷ []) (λ ys held r. lone c (is_other c 91 e) r))

    sequence-Then :
        (ps : List ℕ)
        → Params ps
        → Then reserve
            (27 ∷ 91 ∷ (ps ++ (c ∷ cs)))
            cs
            (feed scan print (filter_of reserve (27 ∷ 91 ∷ ps)) c)
    unfolding feed Then Passes
    sequence-Then ps h =
        let text = 27 ∷ 91 ∷ (ps ++ (c ∷ cs)) in
        let Q = Then reserve text cs in
        if-keeps Q (length (27 ∷ 91 ∷ ps) == 0) (λ z. absurd (ground arith))
          λ _.
            if-keeps Q (length (27 ∷ 91 ∷ ps) == 1) (λ z. absurd (ground arith))
              λ _.
                if-keeps Q (leb (pend_max - 1) (length (27 ∷ 91 ∷ ps)))
                  (λ full.
                    restart-Then text (27 ∷ 91 ∷ ps)
                      (λ ys held r. long ps c h (grind (arith, h.short)) r))
                  (λ room.
                    if-keeps Q (is_final c)
                      (λ e.
                        subst Q (sym (emit_seq-rewritten reserve (27 ∷ 91 ∷ ps) c))
                          (whole ps c h (grind arith) e (ih idle)))
                      (λ e.
                        subst (λ t. Passes reserve (27 ∷ 91 ∷ (ps ++ (c ∷ []))) cs (27 ∷ 91 ∷ t))
                          (append_assoc ps (c ∷ []) cs)
                          (ih (params (ps ++ (c ∷ [])) (one_more ps c h (grind arith) e)))))

  pass_all :
      (reserve : ℤ) (h : Held) (cs : List ℕ) → Passes reserve (held_text h) cs (held_text h ++ cs)
  unfolding Passes run Then
  pass_all reserve idle [] = end
  pass_all reserve escape [] = end_escape
  pass_all reserve (params ps h) [] =
      subst (λ t. Rewrites reserve (27 ∷ 91 ∷ t) [] (27 ∷ 91 ∷ ps)) (sym (append-nil ps))
        (end_params ps h)
  pass_all reserve idle (c ∷ cs) = idle-Then reserve c cs (λ h. pass_all reserve h cs)
  pass_all reserve escape (c ∷ cs) = escape-Then reserve c cs (λ h. pass_all reserve h cs)
  pass_all reserve (params ps h) (c ∷ cs) =
      sequence-Then reserve c cs (λ k. pass_all reserve k cs) ps h

  -- Whatever the terminal sends on top of what the filter holds (nothing, an ESC, or ESC [ and at most
  -- 29 parameters): the bytes that come out and those held afterwards are what `Rewrites` makes of
  -- what was held and what came. Each whole control sequence of up to 31 bytes comes out once it
  -- is whole, and exactly one that ends in t and that `scan` reads as a size of more rows than are
  -- held back, if any are, comes out as `print` prints it with those rows taken off; every
  -- other byte comes out unchanged and in order.
  pub run-Rewrites :
      (reserve : ℤ) (h : Held) (cs : List ℕ)
      → let r = run scan print (record { reserve = reserve; pend = held_text h }) cs in
        Rewrites reserve (held_text h ++ cs) r.0 r.1.pend
  unfolding Passes
  run-Rewrites reserve h cs = pass_all reserve h cs
