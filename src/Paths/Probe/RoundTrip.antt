-- ===== src/Paths/Probe/RoundTrip.antt =====
-- A probe that one end builds, the other end parses (src/path.c).
use comrade.Prelude.{
  ◌-◌, ◌||◌, ==_refl, ℕ, ◌+◌, ◌/◌, ◌^◌, ◌<◌, ◌≤◌, ◌≡◌, ◌≢◌, refl, sym, ap, ◌∙◌, subst, true, false,
  some, List, [], ◌∷◌, ◌++◌, arith, ltb, leb, ◌==◌, if◌then◌else◌, length, take, drop, All, byte,
  min, take_append, drop_append, drop_append_more, length-append, Bool-cases, Option-cases, inl,
  inr, IsByte,
}
use comrade.Prelude.BigEndian.{be_bytes, be_value, be_value-be_bytes}
use comrade.Prelude.Int.{ℤ, pos, clamp_zero}
use comrade.Paths.Ep.{Ep, IsEp, zero_ep, octet, pack}
use comrade.Paths.Ep.Laws.{unpack-pack_more}
use comrade.Paths.Observe.{Probe}
use mathlib.Core.Option.{some-injective}
use comrade.Seal.{Aead, msg_seal, msg_seal_ad, msg_open}
use comrade.Seal.RoundTrip.{IsAead, open-seal}
use comrade.Paths.Probe.{
  build, parse, probe_is, put16, get16, put32, get32, build_tail, build_plain, parse_tail,
  parse_plain, c_string,
}

-- What a probe may hold: a type of one byte, words of 64 bits, a name fragment without a zero byte
-- and an endpoint.
pub record IsProbe (pr : Probe) : Type 0 where
  pub type : IsByte pr.type
  pub nonce : pr.nonce < 2 ^ 64
  pub seq : pr.seq < 2 ^ 64
  pub ufrag : All (λ c. c ≢ 0) pr.ufrag
  pub echo : IsEp pr.echo

-- A reading as 16 bits carry it.
abbrev pub saturated : ℤ → ℤ
saturated v = pos (min 0xffff (clamp_zero v))

-- What arrives of a probe: its tail saturated, and zeros where it has none.
abbrev pub received : Probe → Probe
received pr = record pr {
  echo = if pr.have_tail then pr.echo else zero_ep;
  srtt_ms = if pr.have_tail then saturated pr.srtt_ms else pos 0;
  loss_ppt = if pr.have_tail then saturated pr.loss_ppt else pos 0;
  base_srtt_ms = if pr.have_tail then saturated pr.base_srtt_ms else pos 0;
}

get16-put16 : (v : ℤ) (more : List ℕ) → get16 (put16 v ++ more) ≡ saturated v
unfolding get16 put16
get16-put16 v more =
    let n = min 0xffff (clamp_zero v) in
    let whole = be_value-be_bytes (2 ^ 32) 2 0 n (omega arith) in ap pos (omega (arith, whole))

c_string-id : (cs : List ℕ) → All (λ c. c ≢ 0) cs → c_string cs ≡ cs
c_string-id [] h = refl
c_string-id (c ∷ cs) h =
    let more : (c == 0) ≡ false = ground (arith, h.0) in rw (more, c_string-id cs h.1)

length-pack : (e : Ep) → IsEp e → length (pack e) ≡ 18
unfolding pack
length-pack e v =
    omega (arith, v.wide, length-append e.addr (byte (e.port / 2 ^ 8) ∷ byte e.port ∷ []))

readings : Probe → List ℕ
readings pr = put16 pr.srtt_ms ++ (put16 pr.loss_ppt ++ put16 pr.base_srtt_ms)

build_tail-parts : (pr : Probe) → pr.have_tail ≡ true → build_tail pr ≡ pack pr.echo ++ readings pr
unfolding build_tail readings
build_tail-parts pr t = rw t

build_tail-none : (pr : Probe) → pr.have_tail ≡ false → build_tail pr ≡ []
unfolding build_tail
build_tail-none pr t = rw t

drop-pack : (e : Ep) (k : ℕ) (more : List ℕ) → IsEp e → drop (18 + k) (pack e ++ more) ≡ drop k more
drop-pack e k more v =
    subst (λ n. drop (n + k) (pack e ++ more) ≡ drop k more) (length-pack e v)
      (drop_append_more k (pack e) more)

length-build_tail : (pr : Probe) → IsProbe pr → pr.have_tail ≡ true → length (build_tail pr) ≡ 24
unfolding readings put16
length-build_tail pr v t =
    ap length (build_tail-parts pr t)
    ∙ omega (arith, length-append (pack pr.echo) (readings pr), length-pack pr.echo v.echo)

parse_tail-build :
    (head pr : Probe)
    → IsProbe pr
    → pr.have_tail ≡ true
    → parse_tail head (build_tail pr) ≡ record head {
      echo = pr.echo;
      srtt_ms = saturated pr.srtt_ms;
      loss_ppt = saturated pr.loss_ppt;
      base_srtt_ms = saturated pr.base_srtt_ms;
      have_tail = true;
    }
unfolding parse_tail readings put16
parse_tail-build head pr v t =
    let more = put16 pr.loss_ppt ++ put16 pr.base_srtt_ms in
    rw (
      build_tail-parts pr t,
      unpack-pack_more pr.echo (readings pr) v.echo,
      drop-pack pr.echo 0 (readings pr) v.echo,
      drop-pack pr.echo 2 (readings pr) v.echo,
      drop-pack pr.echo 4 (readings pr) v.echo,
      get16-put16 pr.srtt_ms more,
      get16-put16 pr.loss_ppt (put16 pr.base_srtt_ms),
      get16-put16 pr.base_srtt_ms [],
    )

word : (v : ℕ) → v < 2 ^ 64 → be_value (2 ^ 64) 0 (be_bytes 8 v) ≡ v
word v small = omega (arith, be_value-be_bytes (2 ^ 64) 8 0 v (omega arith))

-- The head of a probe that was parsed.
head_of : (type nonce seq : ℕ) (ufrag : List ℕ) → Probe
head_of type nonce seq ufrag = record {
  type = type;
  nonce = nonce;
  seq = seq;
  ufrag = ufrag;
  have_tail = false;
  echo = zero_ep;
  srtt_ms = pos 0;
  loss_ppt = pos 0;
  base_srtt_ms = pos 0;
}

-- What parses, by the fields that stand in the plaintext.
parse_plain-fields :
    (plain name tail : List ℕ) (type nonce seq : ℕ)
    → octet plain 0 ≡ type
    → be_value (2 ^ 64) 0 (take 8 (drop 1 plain)) ≡ nonce
    → be_value (2 ^ 64) 0 (take 8 (drop 9 plain)) ≡ seq
    → octet plain 17 ≡ length name
    → drop 18 plain ≡ name ++ tail
    → length plain ≡ 18 + (length name + length tail)
    → length name ≤ 40
    → c_string name ≡ name
    → parse_plain plain
      ≡ some (
          if leb 24 (length tail)
          then parse_tail (head_of type nonce seq name) tail
          else head_of type nonce seq name)
unfolding parse_plain head_of
parse_plain-fields plain name tail type nonce seq is_type is_nonce is_seq is_ul is_rest long fits
      clean =
    let t1 : ltb (length plain) 18 ≡ false = ground arith in
    let t2 : ltb 40 (length name) ≡ false = ground arith in
    let t3 : ltb (length plain) (18 + length name) ≡ false = ground arith in
    let t4 : leb (18 + length name + 24) (length plain) ≡ leb 24 (length tail) = ground arith in
    rw (
      t1,
      is_ul,
      t2,
      t3,
      t4,
      is_rest,
      take_append name tail,
      drop_append name tail,
      clean,
      is_type,
      is_nonce,
      is_seq,
    )

-- The tail, or its absence, is what the sender filled in.
settled :
    (pr : Probe)
    → IsProbe pr
    → (if leb 24 (length (build_tail pr))
        then parse_tail (head_of pr.type pr.nonce pr.seq pr.ufrag) (build_tail pr)
        else head_of pr.type pr.nonce pr.seq pr.ufrag)
      ≡ received pr
unfolding head_of
settled pr v = elim (Bool-cases pr.have_tail) [
  | inl with_tail ↦ rw (
    length-build_tail pr v with_tail,
    parse_tail-build (head_of pr.type pr.nonce pr.seq pr.ufrag) pr v with_tail,
    with_tail,
  )
  | inr without ↦ rw (build_tail-none pr without, without)
]

pub parse_plain-build :
    (pr : Probe)
    → IsProbe pr
    → length pr.ufrag ≤ 40
    → parse_plain (build_plain pr) ≡ some (received pr)
unfolding build_plain head_of
parse_plain-build pr v fits =
    let tail = build_tail pr in
    let parsed =
      parse_plain-fields (build_plain pr) pr.ufrag tail pr.type pr.nonce pr.seq
        (omega (arith, v.type)) (word pr.nonce v.nonce) (word pr.seq v.seq) (omega arith) refl
        (omega (arith, length-append pr.ufrag tail)) fits (c_string-id pr.ufrag v.ufrag) in
    parsed ∙ ap some (settled pr v)

length-build_plain : (pr : Probe) → IsProbe pr → length pr.ufrag ≤ 40 → length (build_plain pr) ≤ 82
unfolding build_plain
length-build_plain pr v fits =
    let long = length-append pr.ufrag (build_tail pr) in
    elim (Bool-cases pr.have_tail) [
      | inl with_tail ↦ omega (arith, long, length-build_tail pr v with_tail)
      | inr without ↦ omega (arith, long, ap length (build_tail-none pr without))
    ]

module _ (aead : Aead) (law : IsAead aead) (magic : ℕ) (sig_key nonce : List ℕ) (pr : Probe) where
  build-parts :
      (out_len : ℕ) (wire : List ℕ)
      → build aead out_len magic sig_key pr (some nonce) ≡ some wire
      → (sealed : List ℕ) × (msg_seal_ad aead (out_len - 4) sig_key [] (build_plain pr) (some nonce)
          ≡ some sealed)
        × (wire ≡ put32 magic ++ sealed)
        × (length pr.ufrag ≤ 40)
  unfolding build msg_seal
  build-parts out_len wire e = elim (Bool-cases (ltb 40 (length pr.ufrag) || ltb out_len 126)) [
    | inl refused ↦ cc
    | inr room ↦
        elim (Option-cases
          (msg_seal_ad aead (out_len - 4) sig_key [] (build_plain pr) (some nonce))) [
            | inl failed ↦ cc
            | inr (sealed, locked) ↦ (
              sealed,
              locked,
              sym (some-injective _ _ (sym (rw (room, locked)) ∙ e)),
              ground (arith, room),
            )
          ]
  ]

  -- Under a cipher that opens what it locks, a nonce of 24 bytes and a magic number of 32 bits, a
  -- probe that fits its fields and that `path_probe_build` puts on the wire is parsed by the
  -- holder of the same keys to that probe, its tail saturated at 16 bits and zeroed where it has
  -- none.
  pub parse-build :
      (out_len : ℕ) (wire : List ℕ)
      → length nonce ≡ 24
      → magic < 2 ^ 32
      → IsProbe pr
      → build aead out_len magic sig_key pr (some nonce) ≡ some wire
      → parse aead magic sig_key wire ≡ some (received pr)
  unfolding parse probe_is get32 put32 msg_open
  parse-build out_len wire wide small v e =
      let (sealed, locked, is, fits) = build-parts out_len wire e in
      let opens =
        open-seal aead law sig_key [] (build_plain pr) nonce (out_len - 4) 83 sealed wide
          (omega (arith, length-build_plain pr v fits)) locked in
      let word32 = be_value-be_bytes (2 ^ 32) 4 0 magic (omega arith) in
      let again : be_value (2 ^ 32) 0 (be_bytes 4 magic) ≡ magic = omega (arith, word32) in
      let long : leb 4 (length (put32 magic ++ sealed)) ≡ true = ground arith in
      rw (is, long, again, ==_refl magic, opens, parse_plain-build pr v fits)
