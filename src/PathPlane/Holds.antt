-- ===== src/PathPlane/Holds.antt =====
-- The carriers that are set aside (`pathplane_free_agent` to `pathplane_holds_settle` of
-- src/pathplane.c).
pub mod Kept
use comrade.Prelude.{
  ℕ, zero, suc, Bool, true, false, not, ◌&&◌, ◌||◌, Option, none, some, List, [], ◌∷◌, ◌++◌, ◌==◌,
  ltb, leb, if◌then◌else◌, set, get_or, take, length,
}
use comrade.Paths.Ep.{any, same_addr}
use comrade.Paths.Types.{NetPath, ice}
use comrade.Paths.Table.{Table, slot, same_kind, is_sel, is_none}
use comrade.Paths.Reclaim.{drop_agent}
use comrade.PathPlane.{PathPlane, Sinks, Hold, no_hold, Effect, freed, hold_max, plane_drop_agent}

abbrev pub same_id : Option ℕ → Option ℕ → Bool
same_id none none = true
same_id (some a) (some b) = a == b
same_id _ _ = false

-- The call of `agent_free`, and the plane without the agent's paths.
unfoldable pub free_agent : PathPlane → Sinks → (agent ctx : Option ℕ) → List Effect × PathPlane
free_agent pl k agent ctx =
    ((if k.agent_free then freed agent ctx ∷ [] else []), plane_drop_agent pl agent)

abbrev pub hold_at : PathPlane → ℕ → Hold
hold_at pl i = get_or pl.holds i no_hold

unfoldable pub hold_clear : PathPlane → Sinks → ℕ → List Effect × PathPlane
hold_clear pl k i =
    free_agent (record pl { holds = set pl.holds i no_hold }) k (hold_at pl i).agent
      (hold_at pl i).ctx

-- The holds with one put into the first free slot; none where all are taken.
unfoldable pub put_hold : List Hold → Hold → Option (List Hold)
put_hold [] h = none
put_hold (x ∷ xs) h =
    let rest = put_hold xs h in
    if is_none x.agent then some (h ∷ xs) else elim rest [ none ↦ none | some ys ↦ some (x ∷ ys) ]

unfoldable pub hold_add :
    PathPlane → Sinks → (agent ctx : Option ℕ) (until_ms : ℕ) → List Effect × PathPlane
hold_add pl k agent ctx until_ms =
    elim (put_hold pl.holds (record { agent = agent; ctx = ctx; until_ms = until_ms }))
      as (λ r. List Effect × PathPlane) [
        | none ↦ free_agent pl k agent ctx
        | some holds ↦ ([], record pl { holds = holds })
      ]

unfoldable pub any_held : List Hold → Bool
any_held [] = false
any_held (h ∷ hs) = let rest = any_held hs in if not (is_none h.agent) then true else rest

unfoldable pub has_hold : PathPlane → Bool
has_hold pl = any_held pl.holds

-- The first hold of an agent, at or after `i`.
unfoldable pub held_from : (agent : Option ℕ) (i : ℕ) → List Hold → Option ℕ
held_from agent i [] = none
held_from agent i (h ∷ hs) =
    let rest = held_from agent (suc i) hs in if same_id h.agent agent then some i else rest

unfoldable pub hold_of_path : PathPlane → NetPath → Option ℕ
hold_of_path pl p = if p.used && not (is_none p.agent) then held_from p.agent 0 pl.holds else none

unfoldable pub hold_carrying : PathPlane → Option ℕ
hold_carrying pl = elim pl.t.sel [ none ↦ none | some i ↦ hold_of_path pl (slot pl.t i) ]

unfoldable pub agents_of : List Hold → List (Option ℕ)
agents_of [] = []
agents_of (h ∷ hs) = if is_none h.agent then agents_of hs else h.agent ∷ agents_of hs

unfoldable pub holds_agents : PathPlane → (max : ℕ) → List (Option ℕ)
holds_agents pl max = take max (agents_of pl.holds)

-- The loops over the holds that clear those which a test picks; `left` slots from `i` on.
unfoldable pub clear_where :
    (PathPlane → ℕ → Bool) → PathPlane → Sinks → (left i : ℕ) → List Effect × PathPlane
clear_where test pl k zero i = ([], pl)
clear_where test pl k (suc left) i =
    let cleared = hold_clear pl k i in
    let after = clear_where test cleared.1 k left (suc i) in
    let kept = clear_where test pl k left (suc i) in
    if test pl i then (cleared.0 ++ after.0, after.1) else kept

unfoldable pub holds_free_all : PathPlane → Sinks → List Effect × PathPlane
holds_free_all pl k = clear_where (λ q i. not (is_none (hold_at q i).agent)) pl k hold_max 0

abbrev pub has_failed : Sinks → Option ℕ → Bool
has_failed k none = false
has_failed k (some a) = elim k.agent_failed [ none ↦ false | some f ↦ f a ]

-- What the reaper takes: a carrier that does not carry, past its deadline or failed.
abbrev pub reaps : Sinks → (carrying : Option ℕ) (now : ℕ) → PathPlane → ℕ → Bool
reaps k carrying now q i =
    let h = hold_at q i in
    not (is_none h.agent || is_sel carrying i) && (leb h.until_ms now || has_failed k h.agent)

unfoldable pub holds_reap : PathPlane → Sinks → (now : ℕ) → List Effect × PathPlane
holds_reap pl k now = clear_where (reaps k (hold_carrying pl) now) pl k hold_max 0

-- The agent and its context.
unfoldable pub hold_take : PathPlane → (i : ℕ) → (Option ℕ × Option ℕ) × PathPlane
hold_take pl i =
    if ltb i hold_max
    then (((hold_at pl i).agent, (hold_at pl i).ctx), record pl { holds = set pl.holds i no_hold })
    else ((none, none), pl)

-- What came of it: a carrier that was set aside took over (1), all were let go (-1), nothing (0).
pub data Settled : Type 0 where
  took_over let_go nothing : Settled

-- The result, the carrier in use and its context, the effects, and the plane.
unfoldable pub holds_settle :
    PathPlane
    → Sinks
    → (live live_ctx : Option ℕ) → Settled × ((Option ℕ × Option ℕ) × (List Effect × PathPlane))
holds_settle pl k live live_ctx =
    elim (hold_carrying pl)
      as (λ r. Settled × ((Option ℕ × Option ℕ) × (List Effect × PathPlane))) [
        | some i ↦
            let (now_live, pl') = hold_take pl i in
            (took_over, (now_live, free_agent pl' k live live_ctx))
        | none ↦
            if has_hold pl
            then (let_go, ((live, live_ctx), holds_free_all pl k))
            else (nothing, ((live, live_ctx), ([], pl)))
      ]
