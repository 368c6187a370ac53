-- ===== src/Paths/Tests/Wire.antt =====
-- A probe and endpoints on the wire, with a cipher that hides nothing (src/path.c, src/keys.c).
use comrade.Prelude.{ℕ, ◌≡◌, refl, true, some, List, [], ◌∷◌, ◌++◌, arith, replicate}
use comrade.Prelude.Int.{pos, negsuc}
use comrade.Paths.Ep.{IsEp, pack}
use comrade.Paths.Observe.{Probe}
use comrade.Paths.Probe.{build, build_plain, build_tail, parse, put16, put32}
use comrade.Paths.Probe.RoundTrip.{IsProbe, received, parse-build}
use comrade.Samples.{clear, clear-IsAead}
use comrade.Seal.{msg_seal, msg_seal_ad, msg_open_ad}
use comrade.Seal.RoundTrip.{open-seal}
use comrade.Paths.Tests.{home}

abbrev nonce : List ℕ
nonce = replicate 24 9

abbrev key : List ℕ
key = replicate 32 1

abbrev letter : List ℕ
letter = 104 ∷ 105 ∷ []

open-seal_example :
    msg_open_ad clear 2 key (5 ∷ []) (nonce ++ (replicate 16 0 ++ letter)) ≡ some letter
unfolding msg_seal_ad
open-seal_example =
    open-seal clear clear-IsAead key (5 ∷ []) letter nonce 64 2
      (nonce ++ (replicate 16 0 ++ letter)) refl (omega arith) refl

home-IsEp : IsEp home
home-IsEp = record { wide = refl; bytes = ground arith; small = omega arith }

-- A ping with a tail; its loss is out of range and its base is negative.
abbrev ping : Probe
ping = record {
  type = 1;
  nonce = 0x0102030405060708;
  seq = 3;
  ufrag = 97 ∷ 98 ∷ [];
  have_tail = true;
  echo = home;
  srtt_ms = pos 40;
  loss_ppt = pos 70000;
  base_srtt_ms = negsuc 0;
}

ping-IsProbe : IsProbe ping
ping-IsProbe = record {
  type = omega arith;
  nonce = omega arith;
  seq = omega arith;
  ufrag = (ground arith, (ground arith, tt));
  echo = home-IsEp;
}

abbrev ping_wire : List ℕ
ping_wire =
    0xc0
    ∷ 0x3d
    ∷ 0
    ∷ 1
    ∷ (nonce
        ++ (replicate 16 0
            ++ (1
                ∷ 1
                ∷ 2
                ∷ 3
                ∷ 4
                ∷ 5
                ∷ 6
                ∷ 7
                ∷ 8
                ∷ 0
                ∷ 0
                ∷ 0
                ∷ 0
                ∷ 0
                ∷ 0
                ∷ 0
                ∷ 3
                ∷ 2
                ∷ 97
                ∷ 98
                ∷ (home.addr ++ (16 ∷ 146 ∷ 0 ∷ 40 ∷ 255 ∷ 255 ∷ 0 ∷ 0 ∷ [])))))

parse-build_example : parse clear 0xc03d0001 key ping_wire ≡ some (received ping)
unfolding build build_plain build_tail put16 put32 pack msg_seal msg_seal_ad
parse-build_example =
    parse-build clear clear-IsAead 0xc03d0001 key nonce ping 126 ping_wire refl (omega arith)
      ping-IsProbe refl
