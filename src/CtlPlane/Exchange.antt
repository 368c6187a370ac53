-- ===== src/CtlPlane/Exchange.antt =====
-- A statement and its answer, from one end to the other and back (src/ctlplane.c over src/ctlproto.c).
use comrade.Prelude.{
  ℕ, ◌+◌, ◌%◌, ◌^◌, ◌≤◌, ◌<◌, true, some, List, [], ◌∷◌, ◌++◌, ◌≡◌, refl, arith, ap, ◌∙◌, length,
  length-append, take, length-take,
}
use comrade.Prelude.BigEndian.{be_bytes, length-be_bytes}
use comrade.Paths.Ep.{Os}
use comrade.CtlProto.{txsel_encode}
use comrade.CtlProto.Payloads.{txsel_decode-encode}
use comrade.CtlPlane.{Ctl, Sinks, send, ctlm_txsel, ctlm_txack}
use comrade.CtlPlane.Say.{tell_txsel, tell_txack, take_txsel, take_txack, is_ready}
use comrade.CtlPlane.Hear.{on_msg, on_txsel, on_txack, hold_txsel, hold_txack}

length-txsel_encode :
    (seq : ℕ) (id : List ℕ) (flags : ℕ) → length id ≡ 8 → length (txsel_encode seq id flags) ≡ 13
unfolding txsel_encode
length-txsel_encode seq id flags wide = omega (
  arith,
  length-append (be_bytes 4 seq) (take 8 id ++ (flags % 256 ∷ [])),
  length-append (take 8 id) (flags % 256 ∷ []),
  length-be_bytes 4 seq,
  length-take 8 id,
)

-- The plane after a message.
abbrev pub hears : Os → Ctl → Sinks → (type : ℕ) (pl : List ℕ) (netgen now : ℕ) → Ctl
hears os c k type pl netgen now = (on_msg os c k type pl netgen now).1.1

module _ (os : Os) (c : Ctl) (k : Sinks) (pl : List ℕ) (netgen now : ℕ) where
  on_msg-txsel : length pl ≡ 13 → hears os c k ctlm_txsel pl netgen now ≡ on_txsel c pl
  unfolding on_msg
  on_msg-txsel long = ground arith

  on_msg-txack : length pl ≡ 13 → hears os c k ctlm_txack pl netgen now ≡ on_txack c pl
  unfolding on_msg
  on_msg-txack long = ground arith

take-hold_txsel :
    (c : Ctl) (seq : ℕ) (id : List ℕ) (flags : ℕ)
    → c.txsel_seq_in < seq
    → (take_txsel (hold_txsel c (some (seq, id, flags)))).0 ≡ some (seq, id, flags)
unfolding take_txsel hold_txsel
take-hold_txsel c seq id flags up = ground arith

take-hold_txack :
    (c : Ctl) (seq : ℕ) (id : List ℕ) (flags : ℕ)
    → c.txsel_wait ≡ seq
    → 0 < seq
    → (take_txack (hold_txack c (some (seq, id, flags)))).0 ≡ some (seq, id, flags)
unfolding take_txack hold_txack
take-hold_txack c seq id flags waits up = ground arith

-- A statement of an end whose channel is there reaches the other end as it was made and is taken
-- there, unless that end holds one as high; its answer, under the number that it came with, is
-- taken at the first end. (Ids of 8 bytes, flags of one byte, a counter short of its last value.)
pub statement-answered :
    (os : Os) (a b : Ctl) (ka kb : Sinks) (id id' : List ℕ) (flags flags' netgen now : ℕ)
    → is_ready ka ≡ true
    → is_ready kb ≡ true
    → length id ≡ 8
    → length id' ≡ 8
    → flags < 256
    → flags' < 256
    → a.txsel_seq_out + 1 < 2 ^ 32
    → b.txsel_seq_in ≤ a.txsel_seq_out
    → ((tell_txsel a ka id flags).1
        ≡ send ctlm_txsel (txsel_encode (a.txsel_seq_out + 1) id flags) ∷ [])
      × ((take_txsel
            (hears os b kb ctlm_txsel (txsel_encode (a.txsel_seq_out + 1) id flags) netgen now)).0
          ≡ some (a.txsel_seq_out + 1, id, flags))
      × (tell_txack kb (a.txsel_seq_out + 1) id' flags'
          ≡ send ctlm_txack (txsel_encode (a.txsel_seq_out + 1) id' flags') ∷ [])
      × ((take_txack (
            hears os
              (tell_txsel a ka id flags).2
              ka
              ctlm_txack
              (txsel_encode (a.txsel_seq_out + 1) id' flags')
              netgen
              now)).0
          ≡ some (a.txsel_seq_out + 1, id', flags'))
unfolding tell_txsel tell_txack on_txsel on_txack
statement-answered os a b ka kb id id' flags flags' netgen now ra rb wide wide' tiny tiny' room
      below =
    let n = a.txsel_seq_out + 1 in
    let fits : n % 2 ^ 32 ≡ n = omega arith in
    let told : Ctl = (tell_txsel a ka id flags).2 in
    let waits : told.txsel_wait ≡ n = ground arith in
    let to_b =
      on_msg-txsel os b kb (txsel_encode n id flags) netgen now
        (length-txsel_encode n id flags wide) in
    let to_a =
      on_msg-txack os told ka (txsel_encode n id' flags') netgen now
        (length-txsel_encode n id' flags' wide') in
    (
      simp (ra, fits) refl,
      ap (λ c. (take_txsel c).0)
            (to_b ∙ ap (hold_txsel b) (txsel_decode-encode n id flags room wide tiny))
          ∙ take-hold_txsel b n id flags (omega arith),
      simp rb refl,
      ap (λ c. (take_txack c).0)
            (to_a ∙ ap (hold_txack told) (txsel_decode-encode n id' flags' room wide' tiny'))
          ∙ take-hold_txack told n id' flags' waits (omega arith),
    )
