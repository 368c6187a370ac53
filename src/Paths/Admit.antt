-- ===== src/Paths/Admit.antt =====
-- How a path enters the table of src/path.c: `path_table_add` and `path_table_offer`.
pub mod Evict
use comrade.Prelude.{
  ℕ, suc, Bool, true, false, not, ◌&&◌, Option, none, some, List, [], ◌∷◌, if◌then◌else◌, set,
}
use comrade.Paths.Ep.{Ep, Os, Sockaddr, unspec, zero_ep, any, from_sockaddr, ep_str}
use comrade.Paths.Types.{NetPath, PathKind, zero_path, path_label_max}
use comrade.Paths.Measure.{warmth_of}
use comrade.Paths.Table.{Table, is_dead, is_sel, is_none, first, find, find_ep, find_agent, evict}

-- The remote as the path keeps it.
abbrev pub or_unspec : Option Sockaddr → Sockaddr
or_unspec none = unspec
or_unspec (some sa) = sa

-- The endpoint that `remote` names: all-zero for none, and a failure for another family.
unfoldable pub remote_ep : Option Sockaddr → Option Ep
remote_ep none = some zero_ep
remote_ep (some sa) = from_sockaddr sa 28

-- The path that `path_table_add` returns without adding one.
unfoldable pub known : Table → PathKind → Ep → Option ℕ → Option ℕ
known t kind e none = find t kind e
known t kind e (some a) = find_agent t (some a)

-- Whether there is room for a guess. The index is that of the slot under test.
unfoldable pub dead_from : Option ℕ → ℕ → ℕ → List NetPath → Bool
dead_from sel now i [] = false
dead_from sel now i (p ∷ ps) =
    let rest = dead_from sel now (suc i) ps in
    if not (is_sel sel i) && is_dead (warmth_of p now) then true else rest

unfoldable pub spare : Table → ℕ → Bool
unfolding first dead_from
spare t now = elim (first (λ p. not p.used) 0 t.p) [
  | some i ↦ true
  | none ↦ dead_from t.sel now 0 t.p
]

module _ (os : Os) where
  unfoldable pub new_path : PathKind → Ep → Option Sockaddr → Option ℕ → ℕ → NetPath
  new_path kind e remote agent now = record zero_path {
    used = true;
    usable = is_none agent;
    kind = kind;
    agent = agent;
    peer_ep = e;
    remote = or_unspec remote;
    created_ms = now;
    trying_since_ms = now;
    label = if not (any e) then ep_str os e path_label_max else [];
  }

  -- `path_table_add` once the endpoint is known.
  unfoldable pub add_ep : Table → PathKind → Ep → Option Sockaddr → Option ℕ → ℕ → Option ℕ × Table
  unfolding known evict new_path
  add_ep t kind e remote agent now = elim (known t kind e agent) [
    | some i ↦ (some i, t)
    | none ↦ elim (evict t now) [
      | none ↦ (none, t)
      | some i ↦ (some i, record t { p = set t.p i (new_path kind e remote agent now) })
    ]
  ]

  unfoldable pub add : Table → PathKind → Option Sockaddr → Option ℕ → ℕ → Option ℕ × Table
  unfolding add_ep remote_ep
  add t kind remote agent now = elim (remote_ep remote) [
    | none ↦ (none, t)
    | some e ↦ add_ep t kind e remote agent now
  ]

  unfoldable pub offer : Table → PathKind → Option Sockaddr → ℕ → Option ℕ × Table
  unfolding add spare
  offer t kind none now = (none, t)
  offer t kind (some sa) now = elim (from_sockaddr sa 28) [
    | none ↦ (none, t)
    | some e ↦ elim (find_ep t e) [
      | some i ↦ (some i, t)
      | none ↦ if not (spare t now) then (none, t) else add t kind (some sa) none now
    ]
  ]
