-- ===== src/Paths/Table.antt =====
-- The table of paths of src/path.c. A `struct path *` into the table is the index of its slot, and
-- NULL or -1 is `none`.
use comrade.Prelude.{
  ℕ, suc, ◌+◌, Bool, true, false, not, ◌&&◌, ◌||◌, Option, none, some, List, [], ◌∷◌, ltb, ◌==◌,
  if◌then◌else◌, get_or, replicate,
}
use comrade.Prelude.Pick.{pick}
use comrade.Paths.Ep.{Ep, ep_eq}
use comrade.Paths.Types.{
  NetPath, PathKind, segment, routed, ice, Warmth, dead, warmth_rank, zero_path, path_table_max,
}
use comrade.Paths.Measure.{warmth_of}

-- `struct path_table`
pub record Table : Type 0 where
  pub p : List NetPath
  pub sel : Option ℕ

unfoldable pub init : Table
init = record { p = replicate path_table_max zero_path; sel = none }

-- `t->p[i]`; an index out of range reads a zeroed slot.
abbrev pub slot : Table → ℕ → NetPath
slot t i = get_or t.p i zero_path

unfoldable pub count_used : List NetPath → ℕ
count_used [] = 0
count_used (p ∷ ps) = (if p.used then 1 else 0) + count_used ps

unfoldable pub count : Table → ℕ
unfolding count_used
count t = count_used t.p

abbrev pub same_kind : PathKind → PathKind → Bool
same_kind segment segment = true
same_kind routed routed = true
same_kind ice ice = true
same_kind _ _ = false

abbrev pub is_lanlink : PathKind → Bool
is_lanlink segment = true
is_lanlink routed = true
is_lanlink ice = false

abbrev pub same_agent : Option ℕ → ℕ → Bool
same_agent none a = false
same_agent (some b) a = b == a

abbrev pub is_dead : Warmth → Bool
is_dead dead = true
is_dead _ = false

-- `t->sel == i`
abbrev pub is_sel : Option ℕ → ℕ → Bool
is_sel none i = false
is_sel (some s) i = s == i

-- The loops that return the first slot that passes a test.
unfoldable pub first : (NetPath → Bool) → ℕ → List NetPath → Option ℕ
first test i [] = none
first test i (p ∷ ps) = let rest = first test (suc i) ps in if test p then some i else rest

unfoldable pub find : Table → PathKind → Ep → Option ℕ
unfolding first
find t kind e = first (λ p. p.used && (same_kind p.kind kind && ep_eq p.peer_ep e)) 0 t.p

unfoldable pub find_ep : Table → Ep → Option ℕ
unfolding first
find_ep t e = first (λ p. p.used && (is_lanlink p.kind && ep_eq p.peer_ep e)) 0 t.p

unfoldable pub find_port : Table → ℕ → Option ℕ
unfolding first
find_port t port = first (λ p. p.used && (is_lanlink p.kind && p.peer_ep.port == port)) 0 t.p

unfoldable pub find_agent : Table → Option ℕ → Option ℕ
unfolding first
find_agent t none = none
find_agent t (some a) = first (λ p. p.used && same_agent p.agent a) 0 t.p

-- `path_table_sel`
unfoldable pub selected : Table → Option ℕ
selected t = elim t.sel [ none ↦ none | some i ↦ if not (slot t i).used then none else some i ]

-- Whether `p` makes a worse path to keep than `worst`: a worse warmth, or the same and older.
abbrev pub worse : ℕ → NetPath → NetPath → Bool
worse now p worst =
    let w = warmth_rank (warmth_of p now) in
    let ww = warmth_rank (warmth_of worst now) in
    ltb ww w || (w == ww && ltb p.created_ms worst.created_ms)

abbrev pub index_of : Option (ℕ × NetPath) → Option ℕ
index_of none = none
index_of (some (i, p)) = some i

unfoldable pub worst_slot : Table → ℕ → Option ℕ
worst_slot t now = index_of (pick (λ i p. not (is_sel t.sel i)) (worse now) 0 t.p none)

unfoldable pub evict : Table → ℕ → Option ℕ
unfolding first worst_slot
evict t now = elim (first (λ p. not p.used) 0 t.p) [ some i ↦ some i | none ↦ worst_slot t now ]

abbrev pub is_none : Option ℕ → Bool
is_none none = true
is_none (some a) = false
