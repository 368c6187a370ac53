-- ===== src/Paths/Types.antt =====
-- `struct path` of src/path.h, its enums and constants.
--
-- An `int` that holds a duration is a number: `(int)(now - sent_ms)` and `rtt * 8` are exact for
-- round trips below 2 ^ 28 ms, three days, beyond which the source's own arithmetic has no
-- defined value. A uint64_t sum is taken mod 2 ^ 64, a uint16_t register mod 2 ^ 16.
use comrade.Prelude.{ℕ, Bool, false, Option, none, List, [], replicate}
use comrade.Paths.Ep.{Ep, Sockaddr, unspec, zero_ep}

-- `enum path_kind`
pub data PathKind : Type 0 where
  segment routed ice : PathKind

-- `enum path_warmth`
pub data Warmth : Type 0 where
  warm cold unqualified dead : Warmth

-- The numeric order of `enum path_warmth` is the preference order, best first.
abbrev pub warmth_rank : Warmth → ℕ
warmth_rank warm = 0
warmth_rank cold = 1
warmth_rank unqualified = 2
warmth_rank dead = 3

abbrev pub probe_every_ms : ℕ
probe_every_ms = 200

abbrev pub path_keep_ms : ℕ
path_keep_ms = 1000

abbrev pub path_warm_ms : ℕ
path_warm_ms = 3000

abbrev pub path_dead_ms : ℕ
path_dead_ms = 8000

abbrev pub path_loss_penalty_ms : ℕ
path_loss_penalty_ms = 200

abbrev pub path_peer_srtt_max : ℕ
path_peer_srtt_max = 2000

abbrev pub path_peer_srtt_ratio : ℕ
path_peer_srtt_ratio = 4

abbrev pub path_cost_quantum_ms : ℕ
path_cost_quantum_ms = 5

abbrev pub path_loss_wait_ms : ℕ
path_loss_wait_ms = 1000

abbrev pub path_loss_window : ℕ
path_loss_window = 16

-- PATH_LABEL_MAX
abbrev pub path_label_max : ℕ
path_label_max = 80

-- PATH_TABLE_MAX
abbrev pub path_table_max : ℕ
path_table_max = 8

-- `struct path`. `agent` is the identity of a borrowed agent; `label` is the text up to its NUL.
pub record NetPath : Type 0 where
  pub used : Bool
  pub usable : Bool
  pub kind : PathKind
  pub remote : Sockaddr
  pub agent : Option ℕ
  pub peer_ep : Ep
  pub self_ep : Ep
  pub have_self_ep : Bool
  pub in_src : Ep
  pub id : List ℕ
  pub nonce : ℕ
  pub sent_ms : ℕ
  pub outstanding : Bool
  pub srtt8 : ℕ
  pub peer_srtt_ms : ℕ
  pub peer_loss_ppt : ℕ
  pub peer_base_srtt_ms : ℕ
  pub loss_reg : ℕ
  pub loss_n : ℕ
  pub rtt : List ℕ
  pub rtt_n : ℕ
  pub rtt_i : ℕ
  pub last_pong_ms : ℕ
  pub created_ms : ℕ
  pub trying_since_ms : ℕ
  pub next_probe_ms : ℕ
  pub qualified : Bool
  pub warmth_noted : Warmth
  pub label : List ℕ

-- `memset(p, 0, sizeof(*p))`
abbrev pub zero_path : NetPath
zero_path = record {
  used = false;
  usable = false;
  kind = segment;
  remote = unspec;
  agent = none;
  peer_ep = zero_ep;
  self_ep = zero_ep;
  have_self_ep = false;
  in_src = zero_ep;
  id = replicate 8 0;
  nonce = 0;
  sent_ms = 0;
  outstanding = false;
  srtt8 = 0;
  peer_srtt_ms = 0;
  peer_loss_ppt = 0;
  peer_base_srtt_ms = 0;
  loss_reg = 0;
  loss_n = 0;
  rtt = replicate 16 0;
  rtt_n = 0;
  rtt_i = 0;
  last_pong_ms = 0;
  created_ms = 0;
  trying_since_ms = 0;
  next_probe_ms = 0;
  qualified = false;
  warmth_noted = warm;
  label = [];
}
