-- ===== src/CtlPlane/Tests.antt =====
-- The control plane on small inputs (src/ctlplane.c): what is said and heard; the exchange of keys
-- in `Keys`.
mod Keys
use comrade.Prelude.{
  ℕ, ◌≡◌, refl, inl, inr, true, false, none, some, List, [], ◌∷◌, ◌++◌, arith, replicate, length,
}
use comrade.Prelude.Int.{pos}
use comrade.Samples.{summing}
use comrade.CtlProto.{txsel_encode, txsel_decode}
use comrade.Claims.{hb_lost_ms}
use comrade.CtlPlane.{Ctl, LiveState, Sinks, send, ctlm_txsel, ctlm_txack, init, ctl_reset}
use comrade.CtlPlane.Live.{judge, heard, latch, lost, last_sign}
use comrade.CtlPlane.Live.Verdict.{judge-lost, judge_all, judge-outage}
use comrade.CtlPlane.Say.{tell_txsel, tell_txack, take_txsel, take_txack}
use comrade.CtlPlane.Hear.{on_msg, on_txsel, hold_txsel}
use comrade.CtlPlane.Ops.{Op, op_reset, op_hear, op_tell_txsel, op_take_txsel}
use comrade.CtlPlane.Statements.{Ascending, number, anew, statements, statements-Ascending}
use comrade.CtlPlane.Exchange.{hears, statement-answered}

abbrev pub all_ready : Sinks
all_ready = record {
  offer_path = true;
  answer_ping = none;
  pong = true;
  ready = some true;
  other = false;
}

abbrev fresh_end : Ctl
fresh_end = init (comrade.ProbePlane.init 7 (1 ∷ 2 ∷ []) 100)

abbrev id : List ℕ
id = replicate 8 5

abbrev hear_statement : ℕ → Op
hear_statement n = op_hear all_ready ctlm_txsel (txsel_encode n id 1) 0 0

abbrev ops : List Op
ops =
    hear_statement 4
    ∷ op_take_txsel
    ∷ hear_statement 4
    ∷ hear_statement 3
    ∷ op_take_txsel
    ∷ hear_statement 9
    ∷ op_take_txsel
    ∷ op_reset
    ∷ hear_statement 1
    ∷ op_take_txsel
    ∷ []

statements-Ascending_example : Ascending 0 (statements summing fresh_end ops)
statements-Ascending_example =
    statements-Ascending summing (comrade.ProbePlane.init 7 (1 ∷ 2 ∷ []) 100) ops

statements_run : statements summing fresh_end ops ≡ number 4 ∷ number 9 ∷ anew ∷ number 1 ∷ []
unfolding statements ctl_reset init comrade.ProbePlane.init comrade.CtlPlane.Statements.taken_by
    take_txsel on_msg on_txsel hold_txsel txsel_encode txsel_decode
statements_run = refl

abbrev asked : List Op
asked =
    op_tell_txsel all_ready id 1
    ∷ op_hear all_ready ctlm_txack (txsel_encode 2 id 0) 0 0
    ∷ op_tell_txsel all_ready id 1
    ∷ op_hear all_ready ctlm_txack (txsel_encode 1 id 0) 0 0
    ∷ op_hear all_ready ctlm_txack (txsel_encode 2 id 4) 0 0
    ∷ []

abbrev two : ℕ
two = 2

statement-answered_example :
    ((tell_txsel fresh_end all_ready id 1).1 ≡ send ctlm_txsel (txsel_encode 1 id 1) ∷ [])
    × ((take_txsel (hears summing fresh_end all_ready ctlm_txsel (txsel_encode 1 id 1) 0 0)).0
        ≡ some (1, id, 1))
    × (tell_txack all_ready 1 id 4 ≡ send ctlm_txack (txsel_encode 1 id 4) ∷ [])
    × ((take_txack (
          hears summing
            (tell_txsel fresh_end all_ready id 1).2
            all_ready
            ctlm_txack
            (txsel_encode 1 id 4)
            0
            0)).0
        ≡ some (1, id, 4))
unfolding init comrade.ProbePlane.init
statement-answered_example =
    statement-answered summing fresh_end fresh_end all_ready all_ready id id 1 4 0 0 refl refl refl
      refl (omega arith) (omega arith) (omega arith) (omega arith)

abbrev answered : Ctl
answered = record fresh_end {
  live = record {
    last_pong_ms = 1000;
    last_heard_ms = 1200;
    lost_since_ms = 0;
    rtt_ms = pos 50;
    pong_seen = true;
    live_gen = 0;
  };
}

judge-outage_example :
    ((judge_all (judge answered 3351).2 (4000 ∷ 9000 ∷ [])).live.lost_since_ms ≡ 3351)
    × ((judge (heard (judge_all (judge answered 3351).2 (4000 ∷ 9000 ∷ [])) 9000) 10000).0 ≡ false)
unfolding last_sign judge latch hb_lost_ms
judge-outage_example =
    judge-outage answered 3351 (4000 ∷ 9000 ∷ []) 9000 10000 refl refl (omega arith) (omega arith)
      (omega arith) (ground arith) (omega arith) (omega arith) (omega arith) (omega arith) refl
