-- ===== src/CtlProto/Payloads.antt =====
-- The payloads of src/ctlproto.c: what is encoded decodes again.
use comrade.Prelude.{
  get_or-append_right, ℕ, ◌%◌, ◌^◌, ◌<◌, ◌≤◌, ◌≡◌, refl, sym, ap, subst, ◌∙◌, true, false, ◌||◌,
  some, List, [], ◌∷◌, ◌++◌, arith, ◌==◌, if◌then◌else◌, length, take_append_at, take_all, byte,
  replicate, length-append, Bool-cases, inl, inr, ==_iff,
}
use comrade.Prelude.BigEndian.{be_bytes, be_value, be_value-be_bytes}
use comrade.Paths.Ep.{in4, in6, octet}
use comrade.CtlProto.{
  put_u64, get_u64, rdv_encode, rdv_decode, txsel_encode, txsel_decode, reach_encode, reach_decode,
  reach_up, reach_pending, reach_down,
}

u16 : (m v : ℕ) → v < 2 ^ 16 → 2 ^ 16 ≤ m → be_value m 0 (be_bytes 2 v) ≡ v
u16 m v small le = omega (arith, be_value-be_bytes m 2 0 v (omega arith))

u32 : (v : ℕ) → v < 2 ^ 32 → be_value (2 ^ 32) 0 (be_bytes 4 v) ≡ v
u32 v small = omega (arith, be_value-be_bytes (2 ^ 32) 4 0 v (omega arith))

u64 : (v : ℕ) → v < 2 ^ 64 → be_value (2 ^ 64) 0 (be_bytes 8 v) ≡ v
u64 v small = omega (arith, be_value-be_bytes (2 ^ 64) 8 0 v (omega arith))

-- A timestamp of 64 bits is read back from the payload that carries it, whatever follows.
pub get_u64-put_u64 : (v : ℕ) (more : List ℕ) → v < 2 ^ 64 → get_u64 (put_u64 v ++ more) ≡ v
unfolding get_u64 put_u64
get_u64-put_u64 v more small = u64 v small

rdv-v6 :
    (port : ℕ) (addr : List ℕ)
    → port < 2 ^ 16
    → length addr ≡ 16
    → rdv_decode (rdv_encode 6 port addr) ≡ some (in6 addr port 0)
unfolding rdv_encode rdv_decode
rdv-v6 port addr small wide =
    let whole = take_all 16 addr wide in
    rw (whole, wide, u16 (2 ^ 32) port small (omega arith), whole)

rdv-v4 :
    (family port : ℕ) (addr : List ℕ)
    → (family == 6) ≡ false
    → port < 2 ^ 16
    → length addr ≡ 4
    → rdv_decode (rdv_encode family port addr) ≡ some (in4 addr port)
unfolding rdv_encode rdv_decode
rdv-v4 family port addr other small wide =
    let whole = take_all 4 addr wide in
    let room : length (addr ++ replicate 12 0) ≡ 16 =
      omega (arith, wide, length-append addr (replicate 12 0)) in
    rw (
      other,
      whole,
      room,
      u16 (2 ^ 32) port small (omega arith),
      take_append_at 4 addr (replicate 12 0) wide,
    )

-- A rendezvous address of either family, with a port of 16 bits, decodes to itself: 16 bytes for
-- family 6, and 4 for any other, which is sent as family 4.
pub rdv_decode-encode :
    (family port : ℕ) (addr : List ℕ)
    → port < 2 ^ 16
    → length addr ≡ (if family == 6 then 16 else 4)
    → rdv_decode (rdv_encode family port addr)
      ≡ some (if family == 6 then in6 addr port 0 else in4 addr port)
rdv_decode-encode family port addr small wide = elim (Bool-cases (family == 6)) [
  | inl six ↦ rw six (
      subst (λ f. rdv_decode (rdv_encode f port addr) ≡ some (in6 addr port 0))
        (sym ((==_iff family 6).0 six))
        (rdv-v6 port addr small (wide ∙ ap (λ b. if b then 16 else 4) six)))
  | inr other ↦
      rw other (rdv-v4 family port addr other small (wide ∙ ap (λ b. if b then 16 else 4) other))
]

-- A transmit selection with a sequence number of 32 bits, an id of 8 bytes and one byte of flags
-- decodes to its parts.
pub txsel_decode-encode :
    (seq : ℕ) (id : List ℕ) (flags : ℕ)
    → seq < 2 ^ 32
    → length id ≡ 8
    → flags < 256
    → txsel_decode (txsel_encode seq id flags) ≡ some (seq, id, flags)
unfolding txsel_encode txsel_decode
txsel_decode-encode seq id flags small wide tiny =
    let whole = take_all 8 id wide in
    let long : length (id ++ (byte flags ∷ [])) ≡ 9 =
      omega (arith, wide, length-append id (byte flags ∷ [])) in
    let last : octet (id ++ (byte flags ∷ [])) 8 ≡ byte flags =
      get_or-append_right id (byte flags ∷ []) 0 8 0 (omega (arith, wide)) in
    let fits : byte flags ≡ flags = omega arith in
    rw (whole, long, u32 seq small, take_append_at 8 id (byte flags ∷ []) wide, last, fits)

-- What a state means to this build: up and pending, and anything else is down.
abbrev pub meaning : ℕ → ℕ
meaning st = if st == reach_pending || st == reach_up then st else reach_down

-- Reachability (a state and flags of one byte each) written for a family, slot 0 or 1 of a whole
-- payload, is read back for that family, a state without a meaning as down, and the other
-- family's reading does not change.
pub reach_decode-encode :
    (a b c d state flags : ℕ)
    → state < 256
    → flags < 256
    → (reach_decode (reach_encode (a ∷ b ∷ c ∷ d ∷ []) 0 state flags) 0
        ≡ (true, meaning state, flags))
      × (reach_decode (reach_encode (a ∷ b ∷ c ∷ d ∷ []) 0 state flags) 1
          ≡ reach_decode (a ∷ b ∷ c ∷ d ∷ []) 1)
      × (reach_decode (reach_encode (a ∷ b ∷ c ∷ d ∷ []) 1 state flags) 1
          ≡ (true, meaning state, flags))
      × (reach_decode (reach_encode (a ∷ b ∷ c ∷ d ∷ []) 1 state flags) 0
          ≡ reach_decode (a ∷ b ∷ c ∷ d ∷ []) 0)
unfolding reach_encode reach_decode
reach_decode-encode a b c d state flags st fl =
    let s : state % 256 ≡ state = omega arith in
    let f : flags % 256 ≡ flags = omega arith in (rw (s, f), refl, rw (s, f), refl)
