-- ===== src/NsFacts.antt =====
-- The facts that the network monitors post and the event loop takes (src/nsfacts.c).
pub mod Queue
mod Tests
use comrade.Prelude.{
  ℕ, suc, ◌+◌, Bool, true, false, not, ◌&&◌, ◌||◌, List, [], ◌∷◌, ◌++◌, leb, ◌==◌, if◌then◌else◌,
  length, take, drop, bytes_eq,
}

-- The kinds of facts (NSF_ROUNDTRIP, NSF_PROBE_DONE, NSF_SERVERS, NSF_ADDR).
pub data FactKind : Type 0 where
  roundtrip probe_done servers address : FactKind

-- NSFACTS_MAX
abbrev pub nsfacts_max : ℕ
nsfacts_max = 16

-- `struct nsfact`. `addr` is what was copied in; the zeros behind it are left out.
pub record Fact : Type 0 where
  pub kind : FactKind
  pub family : ℕ
  pub epoch : ℕ
  pub addr : List ℕ

-- A flag and its epoch for each family: `[0]` is IPv4, `[1]` is IPv6.
pub record Slots : Type 0 where
  pub v4 : Bool
  pub v4_epoch : ℕ
  pub v6 : Bool
  pub v6_epoch : ℕ

-- `struct nsfacts`; `q` is the filled part of its array.
pub record Facts : Type 0 where
  pub rt : Slots
  pub done : Slots
  pub more : Slots
  pub q : List Fact

abbrev pub no_slots : Slots
no_slots = record { v4 = false; v4_epoch = 0; v6 = false; v6_epoch = 0 }

unfoldable pub init : Facts
init = record { rt = no_slots; done = no_slots; more = no_slots; q = [] }

abbrev pub addr_len : ℕ → ℕ
addr_len family = if family == 6 then 16 else 4

abbrev pub mark : Slots → ℕ → ℕ → Slots
mark s family epoch =
    if family == 6
    then record s { v6 = true; v6_epoch = epoch }
    else record s { v4 = true; v4_epoch = epoch }

unfoldable pub post : Facts → FactKind → (family epoch : ℕ) → Facts
post f roundtrip family epoch = record f { rt = mark f.rt family epoch }
post f probe_done family epoch = record f { done = mark f.done family epoch }
post f servers family epoch = record f { more = mark f.more family epoch }
post f address family epoch = f

-- Whether the queue already holds the address.
unfoldable pub holds_addr : (family epoch : ℕ) (addr : List ℕ) → List Fact → Bool
holds_addr family epoch addr [] = false
holds_addr family epoch addr (e ∷ es) =
    let rest = holds_addr family epoch addr es in
    if e.family == family && (e.epoch == epoch && bytes_eq e.addr addr) then true else rest

unfoldable pub post_addr : Facts → (family epoch : ℕ) (addr : List ℕ) → Facts
unfolding holds_addr
post_addr f family epoch addr =
    let a = take (addr_len family) addr in
    if holds_addr family epoch a f.q
    then f
    else if leb nsfacts_max (length f.q)
    then f
    else record f {
      q = f.q ++ (record { kind = address; family = family; epoch = epoch; addr = a } ∷ []);
    }

abbrev pub slot_fact : FactKind → ℕ → ℕ → Fact
slot_fact kind family epoch = record { kind = kind; family = family; epoch = epoch; addr = [] }

-- One round of the loops over the families: what stands in `out`, and the flag left.
unfoldable pub emit : (max : ℕ) (out : List Fact) (flag : Bool) → Fact → List Fact × Bool
emit max out flag fact =
    if not flag || leb max (length out) then (out, flag) else (out ++ (fact ∷ []), false)

unfoldable pub emit_slots : (max : ℕ) (out : List Fact) → FactKind → Slots → List Fact × Slots
unfolding emit
emit_slots max out kind s =
    let a = emit max out s.v4 (slot_fact kind 4 s.v4_epoch) in
    let b = emit max a.0 s.v6 (slot_fact kind 6 s.v6_epoch) in
    (b.0, record s { v4 = a.1; v6 = b.1 })

-- The loop over the queue: what it copies, and what is moved to the front.
unfoldable pub emit_queue : (max : ℕ) (out q : List Fact) → List Fact × List Fact
emit_queue max out [] = (out, [])
emit_queue max out (e ∷ es) =
    let rest = emit_queue max (out ++ (e ∷ [])) es in
    if leb max (length out) then (out, e ∷ es) else rest

-- `nsfacts_take`: the facts that stand in the caller's array.
unfoldable pub take_facts : Facts → (max : ℕ) → List Fact × Facts
unfolding emit_slots emit_queue
take_facts f max =
    let a = emit_slots max [] roundtrip f.rt in
    let b = emit_slots max a.0 servers f.more in
    let c = emit_queue max b.0 f.q in
    let d = emit_slots max c.0 probe_done f.done in
    (d.0, record { rt = a.1; more = b.1; q = c.1; done = d.1 })
