-- ===== src/CtlPlane.antt =====
-- What a pair tell each other over their control channel (src/ctlplane.c): the state of one end and
-- the messages, here; what an end says in `Say`, what it hears in `Hear`, the link's verdict in
-- `Live`. The lock makes each stretch one step; the callbacks are effects, in order.
pub mod Live
pub mod Say
pub mod Hear
pub mod Ops
pub mod Numbering
pub mod Statements
pub mod Answers
pub mod Exchange
pub mod Agree
mod Tests
use comrade.Prelude.{
  ℕ, ◌-◌, ◌%◌, ◌^◌, Bool, true, false, Option, none, some, List, [], ltb, if◌then◌else◌, replicate,
}
use comrade.Prelude.Int.{ℤ, pos, negsuc}
use comrade.Paths.Ep.{Sockaddr, unspec}
use comrade.ProbePlane.{Plane}

-- CTLM_PING to CTLM_TXACK
abbrev pub ctlm_ping : ℕ
ctlm_ping = 0

abbrev pub ctlm_pong : ℕ
ctlm_pong = 1

abbrev pub ctlm_rdv : ℕ
ctlm_rdv = 2

abbrev pub ctlm_cand : ℕ
ctlm_cand = 3

abbrev pub ctlm_reach : ℕ
ctlm_reach = 4

abbrev pub ctlm_rdvask : ℕ
ctlm_rdvask = 5

abbrev pub ctlm_key : ℕ
ctlm_key = 6

abbrev pub ctlm_keyok : ℕ
ctlm_keyok = 7

abbrev pub ctlm_txsel : ℕ
ctlm_txsel = 10

abbrev pub ctlm_txack : ℕ
ctlm_txack = 11

-- CTL_KEY_PLEN, CTL_TS_LEN, CTL_RDVST_PLEN, CTL_RDVASK_PLEN
abbrev pub key_plen : ℕ
key_plen = 32

abbrev pub ts_len : ℕ
ts_len = 8

abbrev pub rdvst_plen : ℕ
rdvst_plen = 20

abbrev pub rdvask_plen : ℕ
rdvask_plen = 1

-- `struct ctlplane_node`
pub record Node : Type 0 where
  pub sa : Sockaddr
  pub have : Bool
  pub status : ℕ

-- `struct ctlplane_live`
pub record LiveState : Type 0 where
  pub last_pong_ms : ℕ
  pub last_heard_ms : ℕ
  pub lost_since_ms : ℕ
  pub rtt_ms : ℤ
  pub pong_seen : Bool
  pub live_gen : ℕ

-- `struct ctlplane`; `pp` is the probe plane that it points to, `rdv_in4` and `rdv_in6` the two
-- entries of `rdv_in`.
pub record Ctl : Type 0 where
  pub pp : Plane
  pub half_out : List ℕ
  pub half_in : List ℕ
  pub half_sent : Bool
  pub half_seen : Bool
  pub rdv_in4 : Node
  pub rdv_in6 : Node
  pub rdv_in_dirty : Bool
  pub reach_in : List ℕ
  pub reach_in_seen : Bool
  pub reach_in_dirty : Bool
  pub rdvask_in : ℕ
  pub rdvask_out : ℕ
  pub txsel_seq_out : ℕ
  pub txsel_seq_in : ℕ
  pub txsel_wait : ℕ
  pub txsel_in_pending : Bool
  pub txack_in_pending : Bool
  pub txsel_in_id : List ℕ
  pub txack_in_id : List ℕ
  pub txsel_in_flags : ℕ
  pub txack_in_flags : ℕ
  pub live : LiveState

-- `struct ctlplane_sinks`: which callbacks there are, and what those answer that are asked.
pub record Sinks : Type 0 where
  pub offer_path : Bool
  pub answer_ping : Option Bool
  pub pong : Bool
  pub ready : Option Bool
  pub other : Bool

-- The calls of the callbacks.
pub data Effect : Type 0 where
  send : (type : ℕ) (payload : List ℕ) → Effect
  offered : Sockaddr → Effect
  ponged : Effect
  others : (type : ℕ) (payload : List ℕ) → Effect

abbrev pub no_node : Node
no_node = record { sa = unspec; have = false; status = 0 }

abbrev pub zero_live : LiveState
zero_live = record {
  last_pong_ms = 0;
  last_heard_ms = 0;
  lost_since_ms = 0;
  rtt_ms = pos 0;
  pong_seen = false;
  live_gen = 0;
}

unfoldable pub init : Plane → Ctl
init pp = record {
  pp = pp;
  half_out = replicate 32 0;
  half_in = replicate 32 0;
  half_sent = false;
  half_seen = false;
  rdv_in4 = no_node;
  rdv_in6 = no_node;
  rdv_in_dirty = false;
  reach_in = replicate 4 0;
  reach_in_seen = false;
  reach_in_dirty = false;
  rdvask_in = 0;
  rdvask_out = 0;
  txsel_seq_out = 0;
  txsel_seq_in = 0;
  txsel_wait = 0;
  txsel_in_pending = false;
  txack_in_pending = false;
  txsel_in_id = replicate 8 0;
  txack_in_id = replicate 8 0;
  txsel_in_flags = 0;
  txack_in_flags = 0;
  live = zero_live;
}

unfoldable pub ctl_reset : Ctl → Ctl
ctl_reset c = record c {
  half_sent = false;
  half_seen = false;
  txsel_seq_out = 0;
  txsel_seq_in = 0;
  txsel_wait = 0;
  txsel_in_pending = false;
  txack_in_pending = false;
}

-- The cast of a uint64_t to int, which keeps the low 32 bits.
abbrev pub to_int : ℕ → ℤ
to_int v = let low = v % 2 ^ 32 in if ltb low (2 ^ 31) then pos low else negsuc (2 ^ 32 - 1 - low)
