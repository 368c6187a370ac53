-- ===== src/Paths/Probe.antt =====
-- A probe on the wire (`path_put32` to `path_probe_parse` of src/path.c): a magic number, then the
-- sealed plaintext (type, nonce, sequence number, the name fragment and, from a peer that has one,
-- the tail). A length of 0 from `path_probe_build` and a -1 from `path_probe_parse` are `none`.
pub mod RoundTrip
use comrade.Prelude.{
  true, false, ℕ, ◌+◌, ◌-◌, ◌^◌, min, Bool, ◌&&◌, ◌||◌, Option, none, some, List, [], ◌∷◌, ◌++◌,
  ltb, leb, ◌==◌, if◌then◌else◌, length, take, drop, byte,
}
use comrade.Prelude.BigEndian.{be_bytes, be_value}
use comrade.Prelude.Int.{ℤ, pos, clamp_zero}
use comrade.Paths.Ep.{Ep, zero_ep, octet, pack, unpack}
use comrade.Paths.Observe.{Probe}
use comrade.Seal.{Aead, msg_seal, msg_open, or_fail}

-- PROBE_UFRAG_MAX, PROBE_TAIL_LEN, PROBE_HEAD_FIXED, PROBE_PLAIN_MAX, PROBE_MAX
abbrev pub ufrag_max : ℕ
ufrag_max = 40

abbrev pub tail_len : ℕ
tail_len = 24

abbrev pub head_fixed : ℕ
head_fixed = 18

abbrev pub plain_max : ℕ
plain_max = 82

abbrev pub probe_max : ℕ
probe_max = 126

unfoldable pub put32 : ℕ → List ℕ
put32 v = be_bytes 4 v

unfoldable pub get32 : List ℕ → ℕ
get32 bs = be_value (2 ^ 32) 0 (take 4 bs)

unfoldable pub put16 : ℤ → List ℕ
put16 v = be_bytes 2 (min 0xffff (clamp_zero v))

unfoldable pub get16 : List ℕ → ℤ
get16 bs = pos (be_value (2 ^ 32) 0 (take 2 bs))

unfoldable pub probe_is : ℕ → List ℕ → Bool
unfolding get32
probe_is magic wire = leb 4 (length wire) && get32 wire == magic

unfoldable pub build_tail : Probe → List ℕ
unfolding pack put16
build_tail pr =
    if pr.have_tail
    then pack pr.echo ++ (put16 pr.srtt_ms ++ (put16 pr.loss_ppt ++ put16 pr.base_srtt_ms))
    else []

-- The plaintext; its length is `pl`.
unfoldable pub build_plain : Probe → List ℕ
unfolding build_tail
build_plain pr =
    byte pr.type
    ∷ (be_bytes 8 pr.nonce
        ++ (be_bytes 8 pr.seq ++ (byte (length pr.ufrag) ∷ (pr.ufrag ++ build_tail pr))))

-- A C string ends at its first zero.
abbrev pub c_string : List ℕ → List ℕ
c_string [] = []
c_string (c ∷ cs) = if c == 0 then [] else c ∷ c_string cs

unfoldable pub parse_tail : Probe → List ℕ → Probe
unfolding unpack get16
parse_tail pr t = record pr {
  echo = unpack t;
  srtt_ms = get16 (drop 18 t);
  loss_ppt = get16 (drop 20 t);
  base_srtt_ms = get16 (drop 22 t);
  have_tail = true;
}

unfoldable pub parse_plain : List ℕ → Option Probe
unfolding parse_tail
parse_plain plain =
    let ul = octet plain 17 in
    let rest = drop head_fixed plain in
    let head : Probe = record {
      type = octet plain 0;
      nonce = be_value (2 ^ 64) 0 (take 8 (drop 1 plain));
      seq = be_value (2 ^ 64) 0 (take 8 (drop 9 plain));
      ufrag = c_string (take ul rest);
      have_tail = false;
      echo = zero_ep;
      srtt_ms = pos 0;
      loss_ppt = pos 0;
      base_srtt_ms = pos 0;
    } in
    if ltb (length plain) head_fixed
    then none
    else if ltb ufrag_max ul || ltb (length plain) (head_fixed + ul)
    then none
    else some (
        if leb (head_fixed + ul + tail_len) (length plain)
        then parse_tail head (drop ul rest)
        else head)

module _ (aead : Aead) where
  unfoldable pub build :
      (out_len magic : ℕ) (sig_key : List ℕ) → Probe → (random : Option (List ℕ)) → Option (List ℕ)
  unfolding build_plain put32
  build out_len magic sig_key pr random =
      if ltb ufrag_max (length pr.ufrag) || ltb out_len probe_max
      then none
      else or_fail (msg_seal aead (out_len - 4) sig_key (build_plain pr) random)
          λ sealed. some (put32 magic ++ sealed)

  unfoldable pub parse : (magic : ℕ) (sig_key wire : List ℕ) → Option Probe
  unfolding probe_is parse_plain
  parse magic sig_key wire =
      if probe_is magic wire
      then or_fail (msg_open aead (plain_max + 1) sig_key (drop 4 wire)) parse_plain
      else none
