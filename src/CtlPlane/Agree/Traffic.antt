-- ===== src/CtlPlane/Agree/Traffic.antt =====
-- Frames that are sealed and opened leave the keys as they are (src/probeplane.c).
use comrade.Prelude.{ℕ, Bool, false, Option, none, some, List, ◌≡◌, refl, arith}
use comrade.Paths.Ep.{Os}
use comrade.Seal.{Aead}
use comrade.Paths.Observe.{Probe}
use comrade.Paths.Probe.{parse}
use comrade.DataAuth.{open_body}
use comrade.ProbePlane.{
  keys_take, Plane, Call, call_reset, call_bind, call_tx_ready, call_seal, call_open, call_wrap,
  call_unwrap, call_fresh, plane_seal, plane_open, plane_wrap, unwrap, unwrap_base, fresh,
  open_base, admit, admit_or, paired_or, saw_pair,
}
use comrade.CtlPlane.{Ctl}
use comrade.CtlPlane.Agree.{agrees_keys}
use comrade.CtlPlane.Agree.Keying.{keying}

-- What a call of the probe plane leaves of the keys.
abbrev keys_of : Plane → Bool × Bool × List ℕ × List ℕ
keys_of p = (p.pair_ready, p.pair_tx, p.base, p.pair)

saw_pair-keys : (p : Plane) → keys_of (saw_pair p) ≡ keys_of p
unfolding saw_pair
saw_pair-keys p = ground arith

admit_or-keys :
    (p q : Plane) (tried : Option (ℕ × ℕ)) (other : Option ℕ × Plane)
    → keys_of q ≡ keys_of p
    → keys_of other.1 ≡ keys_of p
    → keys_of (admit_or q tried other).1 ≡ keys_of p
unfolding admit_or admit
admit_or-keys p q none other e h = h
admit_or-keys p q (some opened) other e h = e

paired_or-keys :
    (p : Plane) (tried : Option Probe) (other : Option Probe × Plane)
    → keys_of other.1 ≡ keys_of p
    → keys_of (paired_or p tried other).1 ≡ keys_of p
unfolding paired_or
paired_or-keys p none other h = h
paired_or-keys p (some pr) other h = saw_pair-keys p

module _ (os : Os) (aead : Aead) where
  unwrap_base-keys :
      (p : Plane) (wire : List ℕ) → keys_of (unwrap_base os (keys_take p) p wire).1 ≡ keys_of p
  unfolding unwrap_base
  unwrap_base-keys p wire =
      ground (arith, admit_or-keys p p (open_body os p.base wire) (none, p) refl refl)

  unwrap-keys : (p : Plane) (wire : List ℕ) → keys_of (unwrap os p wire).1 ≡ keys_of p
  unfolding unwrap
  unwrap-keys p wire = ground (
    arith,
    unwrap_base-keys p wire,
    admit_or-keys p (saw_pair p) (open_body os p.pair wire) (unwrap_base os (keys_take p) p wire)
        (saw_pair-keys p) (unwrap_base-keys p wire),
  )

  open-keys : (p : Plane) (wire : List ℕ) → keys_of (plane_open aead p wire).1 ≡ keys_of p
  unfolding plane_open open_base
  open-keys p wire = ground (
    arith,
    paired_or-keys p (parse aead p.magic p.pair wire) (open_base aead (keys_take p) p wire) refl,
  )

  traffic-keys :
      (p : Plane) (call : Call)
      → agrees_keys call ≡ false
      → keys_of (comrade.ProbePlane.step os aead p call) ≡ keys_of p
  unfolding comrade.ProbePlane.step plane_seal plane_wrap fresh
  traffic-keys p call_reset h = absurd cc
  traffic-keys p (call_bind half_out half_in) h = absurd cc
  traffic-keys p call_tx_ready h = absurd cc
  traffic-keys p (call_seal pr ufrag out_len random) h = refl
  traffic-keys p (call_open wire) h = open-keys p wire
  traffic-keys p (call_wrap out_max body) h = refl
  traffic-keys p (call_unwrap wire) h = unwrap-keys p wire
  traffic-keys p (call_fresh pr) h = refl

  pub keying-traffic :
      (c : Ctl) (call : Call)
      → agrees_keys call ≡ false
      → keying (record c { pp = comrade.ProbePlane.step os aead c.pp call }) ≡ keying c
  unfolding keying
  keying-traffic c call h = ground (arith, traffic-keys c.pp call h)
