-- ===== src/CtlProto.antt =====
-- The control channel's framing and payloads (src/ctlproto.c and src/ctlproto.h). A buffer is the
-- list of the bytes that are filled; a frame that is handed to the callback is its type and payload.
pub mod Reframe
pub mod Payloads
mod Tests
use comrade.Prelude.{
  ℕ, zero, suc, ◌+◌, ◌-◌, ◌*◌, ◌^◌, Bool, true, false, ◌&&◌, ◌||◌, not, Option, none, some, List,
  [], ◌∷◌, ◌++◌, ltb, leb, ◌==◌, if◌then◌else◌, length, take, drop, get_or, set, replicate, byte,
}
use comrade.Prelude.BigEndian.{be_bytes, be_value}
use comrade.Paths.Ep.{Sockaddr, in4, in6, octet}

-- CTL_HDR, CTL_FRAME_MAX, the size of `buf` in `struct ctl_reframer`
abbrev pub hdr : ℕ
hdr = 2

abbrev pub frame_max : ℕ
frame_max = 34

abbrev pub buf_size : ℕ
buf_size = 128

unfoldable pub put_u64 : ℕ → List ℕ
put_u64 v = be_bytes 8 v

unfoldable pub get_u64 : List ℕ → ℕ
get_u64 bs = be_value (2 ^ 64) 0 (take 8 bs)

-- The bytes written; none where the result is 0.
unfoldable pub frame : (type : ℕ) (payload : List ℕ) → List ℕ
frame type payload =
    if ltb (frame_max - hdr) (length payload)
    then []
    else byte type ∷ byte (length payload) ∷ payload

-- The loop of `ctl_reframer_feed` over the bytes from `off` on: the frames it hands on, and the
-- bytes that are left. Each round takes two bytes at least, so the length is fuel enough.
unfoldable pub drain : (fuel : ℕ) (buf : List ℕ) → List (ℕ × List ℕ) × List ℕ
drain zero buf = ([], buf)
drain (suc fuel) buf =
    let plen = octet buf 1 in
    let rest = drain fuel (drop (hdr + plen) buf) in
    if ltb (length buf) hdr
    then ([], buf)
    else if ltb frame_max (hdr + plen)
    then ([], [])
    else if ltb (length buf) (hdr + plen)
    then ([], buf)
    else ((octet buf 0, take plen (drop hdr buf)) ∷ rest.0, rest.1)

unfoldable pub feed : (held chunk : List ℕ) → List (ℕ × List ℕ) × List ℕ
unfolding drain
feed held chunk =
    let kept = if ltb buf_size (length held + length chunk) then [] else held in
    if ltb buf_size (length chunk)
    then ([], held)
    else drain (length (kept ++ chunk)) (kept ++ chunk)

-- CTL_RDV_PLEN
abbrev pub rdv_plen : ℕ
rdv_plen = 19

-- `port` and `addr` are what the socket address holds where the family's structure has them; a port
-- is in host order.
unfoldable pub rdv_encode : (family port : ℕ) (addr : List ℕ) → List ℕ
rdv_encode family port addr =
    (if family == 6 then 6 else 4)
    ∷ (be_bytes 2 port ++ (if family == 6 then take 16 addr else take 4 addr ++ replicate 12 0))

-- The address, of family 6 or 4; `none` is the result 0.
unfoldable pub rdv_decode : List ℕ → Option Sockaddr
rdv_decode pl =
    let port = be_value (2 ^ 32) 0 (take 2 (drop 1 pl)) in
    if ltb (length pl) rdv_plen
    then none
    else if octet pl 0 == 6
    then some (in6 (take 16 (drop 3 pl)) port 0)
    else if octet pl 0 == 4
    then some (in4 (take 4 (drop 3 pl)) port)
    else none

-- CTL_TXSEL_PLEN and CTL_TXSEL_ID_LEN
abbrev pub txsel_plen : ℕ
txsel_plen = 13

abbrev pub txsel_id_len : ℕ
txsel_id_len = 8

unfoldable pub txsel_encode : (seq : ℕ) (id : List ℕ) (flags : ℕ) → List ℕ
txsel_encode seq id flags = be_bytes 4 seq ++ (take txsel_id_len id ++ (byte flags ∷ []))

-- The sequence number, the path's id and the flags.
unfoldable pub txsel_decode : List ℕ → Option (ℕ × List ℕ × ℕ)
txsel_decode pl =
    if ltb (length pl) txsel_plen
    then none
    else some (
      be_value (2 ^ 32) 0 (take 4 pl),
      take txsel_id_len (drop 4 pl),
      octet pl (4 + txsel_id_len),
    )

-- CTL_REACH_PLEN, CTL_REACH_DOWN, CTL_REACH_PENDING, CTL_REACH_UP
abbrev pub reach_plen : ℕ
reach_plen = 4

abbrev pub reach_down : ℕ
reach_down = 0

abbrev pub reach_pending : ℕ
reach_pending = 1

abbrev pub reach_up : ℕ
reach_up = 2

-- `slot` is 0 or 1; any other is refused, so a negative one needs no case of its own.
unfoldable pub reach_encode : (pl : List ℕ) (slot state flags : ℕ) → List ℕ
reach_encode pl slot state flags =
    if not (slot == 0) && not (slot == 1)
    then pl
    else set (set pl (slot * 2) (byte state)) (slot * 2 + 1) (byte flags)

-- The result, `*state` and `*flags`.
unfoldable pub reach_decode : (pl : List ℕ) (slot : ℕ) → Bool × ℕ × ℕ
reach_decode pl slot =
    let st = octet pl (slot * 2) in
    if ltb (length pl) reach_plen || not (slot == 0) && not (slot == 1)
    then (false, reach_down, 0)
    else (
      true,
      (if st == reach_pending || st == reach_up then st else reach_down),
      octet pl (slot * 2 + 1),
    )
