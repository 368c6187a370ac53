-- ===== src/ProbePlane.antt =====
-- The keys that open and seal the probes and datagrams of one connection (src/probeplane.c). A
-- `Call` is a call that runs through with no other thread's stretch under the lock inside it; Stretches
-- takes the calls apart where they let go of the lock.
pub mod Once
pub mod Paired
pub mod Stretches
mod Tests
use comrade.Prelude.{
  ℕ, ◌+◌, ◌%◌, ◌^◌, Bool, true, false, ◌&&◌, not, Option, none, some, List, [], ◌∷◌, ◌==◌,
  if◌then◌else◌, take,
}
use comrade.Replay.Defs.{ReplayWin, zeroed, replay_ok}
use comrade.Paths.Ep.{Os}
use comrade.Paths.Observe.{Probe}
use comrade.Paths.Probe.{build, parse, ufrag_max}
use comrade.Seal.{Aead}
use comrade.Keys.{conn_key}
use comrade.DataAuth.{wrap, open_body}

-- PROBE_FRESH
abbrev pub probe_fresh : ℕ
probe_fresh = 3

-- `struct probeplane`
pub record Plane : Type 0 where
  pub magic : ℕ
  pub base : List ℕ
  pub pair : List ℕ
  pub pair_ready : Bool
  pub pair_tx : Bool
  pub base_ok : Bool
  pub seq : ℕ
  pub rx : ReplayWin
  pub data_seq : ℕ
  pub data_rx : ReplayWin

unfoldable pub init : (magic : ℕ) (base : List ℕ) (seq0 : ℕ) → Plane
init magic base seq0 = record {
  magic = magic;
  base = base;
  pair = [];
  pair_ready = false;
  pair_tx = false;
  base_ok = true;
  seq = seq0;
  rx = zeroed;
  data_seq = seq0;
  data_rx = zeroed;
}

unfoldable pub reset : Plane → Plane
reset p = record p { pair_ready = false; pair_tx = false; base_ok = true }

unfoldable pub tx_ready : Plane → Bool × Plane
tx_ready p =
    if p.pair_ready && not p.pair_tx then (true, record p { pair_tx = true }) else (false, p)

-- `struct keys_now`: the keys in force, as `keys_take` reads them in one stretch under the lock.
pub record KeysNow : Type 0 where
  pub tx : List ℕ
  pub rx : List ℕ
  pub have_rx : Bool
  pub base_ok : Bool

-- The key that seals.
abbrev pub tx_key : Plane → List ℕ
tx_key p = if p.pair_tx then p.pair else p.base

abbrev pub keys_take : Plane → KeysNow
keys_take p = record { tx = tx_key p; rx = p.pair; have_rx = p.pair_ready; base_ok = p.base_ok }

unfoldable pub saw_pair : Plane → Plane
saw_pair p = if p.base_ok then record p { base_ok = false } else p

unfoldable pub fresh : Plane → Probe → Bool × Plane
fresh p pr = let (ok, w) = replay_ok p.rx pr.seq in (ok, record p { rx = w })

-- The window's verdict on what opened; the new `*len` is the length of the body.
unfoldable pub admit : Plane → (opened : ℕ × ℕ) → Option ℕ × Plane
admit p opened =
    let (ok, w) = replay_ok p.data_rx opened.1 in
    ((if ok then some opened.0 else none), record p { data_rx = w })

-- Under the key that was tried, or what is made of it otherwise.
unfoldable pub admit_or :
    Plane → (tried : Option (ℕ × ℕ)) (other : Option ℕ × Plane) → Option ℕ × Plane
admit_or p none other = other
admit_or p (some opened) other = admit p opened

module _ (os : Os) where
  unfoldable pub bind : Plane → (half_out half_in : List ℕ) → Plane
  bind p half_out half_in = record p {
    pair = conn_key os p.base half_out half_in;
    pair_ready = true;
  }

  -- What follows `keys_take`, on the plane as it is by then.
  abbrev pub wrap_with : KeysNow → Plane → (out_max : ℕ) (body : List ℕ) → Option (List ℕ) × Plane
  wrap_with k p out_max body =
      let seq = (p.data_seq + 1) % 2 ^ 64 in
      (wrap os out_max k.tx body seq, record p { data_seq = seq })

  unfoldable pub plane_wrap : Plane → (out_max : ℕ) (body : List ℕ) → Option (List ℕ) × Plane
  plane_wrap p out_max body = wrap_with (keys_take p) p out_max body

  unfoldable pub unwrap_base : KeysNow → Plane → List ℕ → Option ℕ × Plane
  unwrap_base k p wire =
      if k.base_ok then admit_or p (open_body os p.base wire) (none, p) else (none, p)

  -- What follows `keys_take`, on the plane as it is by then.
  abbrev pub unwrap_with : KeysNow → Plane → List ℕ → Option ℕ × Plane
  unwrap_with k p wire =
      if k.have_rx
      then admit_or (saw_pair p) (open_body os k.rx wire) (unwrap_base k p wire)
      else unwrap_base k p wire

  unfoldable pub unwrap : Plane → List ℕ → Option ℕ × Plane
  unwrap p wire = unwrap_with (keys_take p) p wire

-- A probe that opened under the pair key, or what is made of it otherwise.
unfoldable pub paired_or :
    Plane → (tried : Option Probe) (other : Option Probe × Plane) → Option Probe × Plane
paired_or p none other = other
paired_or p (some pr) other = (some pr, saw_pair p)

-- A probe that opened under the base key: once that is spent, only PROBE_FRESH.
unfoldable pub base_allows : KeysNow → Option Probe → Option Probe
base_allows k none = none
base_allows k (some pr) =
    if k.base_ok then some pr else if pr.type == probe_fresh then some pr else none

module _ (aead : Aead) where
  -- The name fragment is cut to what its array holds; `none` is a length of 0.
  unfoldable pub plane_seal :
      Plane
      → Probe
      → (ufrag : List ℕ) (out_len : ℕ) (random : Option (List ℕ)) → Option (List ℕ) × Plane
  plane_seal p pr ufrag out_len random =
      let seq = (p.seq + 1) % 2 ^ 64 in
      (
        build aead out_len p.magic (tx_key p)
            (record pr { ufrag = take ufrag_max ufrag; seq = seq }) random,
        record p { seq = seq },
      )

  unfoldable pub open_base : KeysNow → Plane → List ℕ → Option Probe × Plane
  open_base k p wire = (base_allows k (parse aead p.magic p.base wire), p)

  -- What follows `keys_take`, on the plane as it is by then.
  abbrev pub open_with : KeysNow → Plane → List ℕ → Option Probe × Plane
  open_with k p wire =
      if k.have_rx
      then paired_or p (parse aead p.magic k.rx wire) (open_base k p wire)
      else open_base k p wire

  unfoldable pub plane_open : Plane → List ℕ → Option Probe × Plane
  plane_open p wire = open_with (keys_take p) p wire

-- The calls, in the order that they are made, each one whole.
pub data Call : Type 0 where
  call_reset : Call
  call_bind : (half_out half_in : List ℕ) → Call
  call_tx_ready : Call
  call_seal : Probe → (ufrag : List ℕ) (out_len : ℕ) (random : Option (List ℕ)) → Call
  call_open : List ℕ → Call
  call_wrap : (out_max : ℕ) (body : List ℕ) → Call
  call_unwrap : List ℕ → Call
  call_fresh : Probe → Call

module _ (os : Os) (aead : Aead) where
  unfoldable pub step : Plane → Call → Plane
  step p call_reset = reset p
  step p (call_bind half_out half_in) = bind os p half_out half_in
  step p call_tx_ready = (tx_ready p).1
  step p (call_seal pr ufrag out_len random) = (plane_seal aead p pr ufrag out_len random).1
  step p (call_open wire) = (plane_open aead p wire).1
  step p (call_wrap out_max body) = (plane_wrap os p out_max body).1
  step p (call_unwrap wire) = (unwrap os p wire).1
  step p (call_fresh pr) = (fresh p pr).1

  unfoldable pub run : Plane → List Call → Plane
  run p [] = p
  run p (c ∷ cs) = run (step p c) cs
