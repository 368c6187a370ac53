-- ===== src/Paths/Tests/Reuse.antt =====
-- Adding, offering and dropping paths, and the budget for new sources, on concrete tables
-- (src/path.c).
use comrade.Prelude.{ℕ, ◌+◌, ◌*◌, ◌-◌, ◌≤◌, ◌≡◌, ◌⊎◌, refl, false, none, some, List, [], ◌∷◌, arith}
use comrade.Paths.Types.{segment, routed, ice, dead}
use comrade.Paths.Measure.{warmth_of}
use comrade.Paths.Table.{slot, init}
use comrade.Paths.Admit.{add, offer}
use comrade.Paths.Admit.Evict.{add-keeps_choice, offer-displaces_dead}
use comrade.Paths.Invariant.{
  IsValid, Op, adds, offers, drops_agent, resets, selects, apply_all, apply_all-IsValid,
  init-IsValid,
}
use comrade.Paths.Adopt.{Adopt, zero_adopt, adopt_depth, adopt_rate}
use comrade.Paths.Adopt.Budget.{admitted, last_time, admitted-le}
use comrade.Paths.Ep.{Ep}
use comrade.Paths.Tests.{quiet, home, away, away_sa, full}

full-IsValid : IsValid full
full-IsValid = record { wide = refl; chosen = refl }

add-keeps_choice_example :
    ((add quiet full ice (some away_sa) none 10000).1.sel ≡ some 0)
    × (slot (add quiet full ice (some away_sa) none 10000).1 0 ≡ slot full 0)
add-keeps_choice_example =
    add-keeps_choice quiet full ice (some away_sa) none 10000 0 full-IsValid refl

offer-displaces_dead_example :
    (slot (offer quiet full segment (some away_sa) 10000).1 2 ≡ slot full 2)
    ⊎ (((slot full 2).used ≡ false) ⊎ (warmth_of (slot full 2) 10000 ≡ dead))
offer-displaces_dead_example = offer-displaces_dead quiet full segment (some away_sa) 10000 2

-- Two paths are added, one is chosen, its agent goes.
abbrev session : List Op
session =
    adds segment (some away_sa) (some 3) 100
    ∷ offers routed (some away_sa) 150
    ∷ selects 200
    ∷ drops_agent (some 3)
    ∷ resets 300
    ∷ []

apply_all-IsValid_example : IsValid (apply_all quiet init session)
apply_all-IsValid_example = apply_all-IsValid quiet session init init-IsValid

-- Probes from two sources within two seconds.
abbrev knocks : List (Ep × ℕ)
knocks = (home, 1000) ∷ (home, 1000) ∷ (away, 1500) ∷ (home, 3000) ∷ []

admitted-le_example :
    1000 * admitted zero_adopt knocks
    ≤ 1000 * adopt_depth + adopt_rate * (last_time 1000 knocks - 1000)
admitted-le_example = admitted-le knocks zero_adopt 1000 (omega arith) (
  omega arith,
  omega arith,
  (omega arith, omega arith, (omega arith, omega arith, (omega arith, omega arith, tt))),
)

abbrev spent : Adopt
spent = record zero_adopt { ms = 5000 }
