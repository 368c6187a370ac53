-- ===== src/Paths/Tests/Choice.antt =====
-- The choice of the path that carries the session, on concrete tables (src/path.c).
use comrade.Prelude.{◌⊎◌, ℕ, ◌≤◌, ◌<◌, ◌≡◌, ◌≢◌, refl, true, false, some, ◌∷◌, replicate, arith}
use comrade.Paths.Types.{NetPath, zero_path}
use comrade.Paths.Table.{Table, slot}
use comrade.Paths.Measure.{probe_expire, warmth_of, srtt_ms, loss_ppt}
use comrade.Paths.Cost.{base_bucket, base_srtt_ms, bucket, bucket_of, base_cost, cost}
use comrade.Paths.Rank.{
  contends, select, expire_all, can_carry, challenger, ahead, cmp, best, fully_lost,
}
use comrade.Paths.Rank.Select.{tier, select-best_tier, select-none, select-keeps, challenger-beats}
use comrade.Paths.Tests.{lively, fading_choice, lively_choice}

moved : (select fading_choice 10000).0 ≡ some 1
unfolding select best probe_expire fully_lost cmp warmth_of
moved = refl

select-best_tier_example :
    ((slot (expire_all fading_choice 10000) 1).used ≡ true)
    × ((slot (expire_all fading_choice 10000) 1).usable ≡ true)
    × ((can_carry (slot (expire_all fading_choice 10000) 0) ≡ false)
        ⊎ (tier 10000 (slot (expire_all fading_choice 10000) 1)
            ≤ tier 10000 (slot (expire_all fading_choice 10000) 0)))
unfolding select best probe_expire fully_lost cmp warmth_of
select-best_tier_example = select-best_tier fading_choice 10000 1 0 refl

-- Nothing can send once every path is unusable.
abbrev mute : NetPath
mute = record lively { usable = false }

abbrev mute_table : Table
mute_table = record { p = mute ∷ replicate 7 zero_path; sel = some 0 }

select-none_example : can_carry mute ≡ false
unfolding select best probe_expire fully_lost cmp warmth_of
select-none_example = select-none mute_table 10000 0 mute refl refl

select-keeps_example : (select lively_choice 10000).0 ≡ some 1
unfolding select best probe_expire fully_lost cmp warmth_of
select-keeps_example = select-keeps lively_choice 10000 1 refl refl (λ j q at can. omega arith)

-- Two warm paths, the other one ten times as fast.
abbrev slow : NetPath
slow = record lively { srtt8 = 3200; rtt = replicate 16 400; rtt_n = 16 }

abbrev fast : NetPath
fast = record lively { srtt8 = 320; rtt = replicate 16 40; rtt_n = 16 }

abbrev contest : Table
contest = record { p = slow ∷ fast ∷ replicate 6 zero_path; sel = some 0 }

abbrev rival : ℕ
rival = 1

challenger-beats_example :
    (rival ≢ 0)
    × (can_carry fast ≡ true)
    × (tier 10000 fast ≡ tier 10000 slow)
    × (base_bucket fast < base_bucket slow)
    × (bucket fast < bucket slow)
    × (0 < base_srtt_ms fast)
    × ((contends contest 0 10000 1 fast ≡ false) ⊎ (ahead 10000 fast fast ≡ false))
unfolding challenger fully_lost warmth_of base_srtt_ms base_bucket bucket_of base_cost bucket cost
    srtt_ms loss_ppt
challenger-beats_example = challenger-beats contest 10000 0 1 1 refl refl
