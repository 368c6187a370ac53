-- ===== src/Paths/Reclaim/Laws.antt =====
-- What dropping and resetting paths leaves of the table of src/path.c.
use comrade.Prelude.{
  ℕ, zero, suc, ◌≡◌, refl, Bool, true, false, ◌&&◌, Option, none, some, List, [], ◌∷◌, arith,
  get_elem?, get_or, map, Bool-cases, inl, inr, ◌⊎◌, if◌then◌else◌,
}
use comrade.Paths.Types.{NetPath, PathKind, zero_path}
use comrade.Paths.Measure.{warmth_of}
use comrade.Paths.Table.{Table, slot, same_kind, same_agent, is_dead}
use comrade.Paths.Reclaim.{
  drop_from, drop_kind, drop_agent, reset_path, reset_stats, any_qualified, any_qualified_of,
  all_dead, all_dead_of,
}

get_or-drop_from :
    (test : NetPath → Bool) (i : ℕ) (ps : List NetPath) (sel : Option ℕ) (j : ℕ)
    → test zero_path ≡ false
    → get_or (drop_from test i ps sel).0 j zero_path
      ≡ (if test (get_or ps j zero_path) then zero_path else get_or ps j zero_path)
unfolding drop_from
get_or-drop_from test i [] sel j h = ground arith
get_or-drop_from test i (p ∷ ps) sel zero h = refl
get_or-drop_from test i (p ∷ ps) sel (suc j) h = get_or-drop_from test (suc i) ps _ j h

-- Dropping a kind frees exactly the slots of that kind, and leaves every other path as it was.
pub slot-drop_kind :
    (t : Table) (kind : PathKind) (j : ℕ)
    → slot (drop_kind t kind) j
      ≡ (if (slot t j).used && same_kind (slot t j).kind kind then zero_path else slot t j)
unfolding drop_kind
slot-drop_kind t kind j = get_or-drop_from _ 0 t.p t.sel j refl

-- Whether `path_table_drop_agent` takes a path: it borrows the agent. No agent takes none.
abbrev pub borrows : Option ℕ → NetPath → Bool
borrows none p = false
borrows (some a) p = p.used && same_agent p.agent a

-- Dropping an agent frees exactly the slots that borrow it; with no agent nothing is dropped,
-- not even the paths that have none.
pub slot-drop_agent :
    (t : Table) (agent : Option ℕ) (j : ℕ)
    → slot (drop_agent t agent) j ≡ (if borrows agent (slot t j) then zero_path else slot t j)
unfolding drop_agent
slot-drop_agent t none j = refl
slot-drop_agent t (some a) j = get_or-drop_from _ 0 t.p t.sel j refl

reset_path-unproven :
    (now : ℕ) (p : NetPath) → ((reset_path now p).used && (reset_path now p).qualified) ≡ false
unfolding reset_path
reset_path-unproven now p = ground arith

reset-none_qualified :
    (now : ℕ) (ps : List NetPath) → any_qualified_of (map (reset_path now) ps) ≡ false
unfolding any_qualified_of
reset-none_qualified now [] = refl
reset-none_qualified now (p ∷ ps) =
    ground (arith, reset_path-unproven now p, reset-none_qualified now ps)

all_dead_of-seen :
    (now : ℕ) (seen : Bool) (ps : List NetPath)
    → all_dead_of now seen ps ≡ true
    → (seen ≡ true) ⊎ (any_qualified_of ps ≡ true)
unfolding all_dead_of any_qualified_of
all_dead_of-seen now seen [] e = inl e
all_dead_of-seen now seen (p ∷ ps) e = ground (arith, all_dead_of-seen now seen ps)

-- After a reset nothing is proven: no path counts as qualified, and the death of all paths is not
-- reported, however late.
pub reset_stats-unproven :
    (t : Table) (now later : ℕ)
    → (any_qualified (reset_stats t now) ≡ false) × (all_dead (reset_stats t now) later ≡ false)
unfolding any_qualified all_dead reset_stats
reset_stats-unproven t now later =
    (reset-none_qualified now t.p, not_reported (Bool-cases (all_dead (reset_stats t now) later)))
  where
    not_reported :
        (all_dead (reset_stats t now) later ≡ true) ⊎ (all_dead (reset_stats t now) later ≡ false)
        → all_dead (reset_stats t now) later ≡ false
    not_reported (inr silent) = silent
    not_reported (inl reported) =
        elim (all_dead_of-seen later false (map (reset_path now) t.p) reported) [
          | inl never ↦ cc
          | inr some_proven ↦ cc (reset-none_qualified now t.p)
        ]

all_dead_of-dead :
    (now : ℕ) (seen : Bool) (ps : List NetPath) (j : ℕ) (p : NetPath)
    → all_dead_of now seen ps ≡ true
    → get_elem? ps j ≡ some p
    → (p.used && p.qualified) ≡ true
    → is_dead (warmth_of p now) ≡ true
unfolding all_dead_of
all_dead_of-dead now seen [] j p e at proven = cc
all_dead_of-dead now seen (q ∷ ps) zero p e at proven = ground arith
all_dead_of-dead now seen (q ∷ ps) (suc j) p e at proven =
    ground (arith, all_dead_of-dead now seen ps j p, all_dead_of-dead now true ps j p)

-- When all paths are reported dead, every path in use that has ever answered is dead.
pub all_dead-dead :
    (t : Table) (now j : ℕ) (p : NetPath)
    → all_dead t now ≡ true
    → get_elem? t.p j ≡ some p
    → p.used ≡ true
    → p.qualified ≡ true
    → is_dead (warmth_of p now) ≡ true
unfolding all_dead
all_dead-dead t now j p e at used proven = all_dead_of-dead now false t.p j p e at (ground arith)
