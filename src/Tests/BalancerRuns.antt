-- ===== src/Tests/BalancerRuns.antt =====
-- Runs of the balancer of src/astrameter/ct002/balancer.py on the pool of three batteries.
use astra_meter.Prelude.Int.{quot_ℤ}
use astra_meter.Prelude.Int.{abs}
use astra_meter.Prelude.Dict.{get}
use astra_meter.Balancer.State.{report_of}
use astra_meter.Balancer.Probe.{sum_power}
use astra_meter.Prelude.Int.{◌+ℤ◌}
use astra_meter.Prelude.Int.{◌*ℤ◌}
use astra_meter.Balancer.Probe.{proven}
use astra_meter.Prelude.Text.{same}
use astra_meter.Prelude.Text.{elem}
use astra_meter.Balancer.Probe.{without}
use astra_meter.Prelude.{◌≤◌, ◌≡◌, refl, true, false, [], ◌∷◌, none, some, arith}
use astra_meter.Prelude.Int.{pos, pos_part}
use astra_meter.Prelude.Dict.{keys}
use astra_meter.Prelude.Sort.{count}
use astra_meter.Prelude.Float.{milli_float, Milli, whole, nought, ◌≤F◌, ◌/F◌, ◌*F◌, Milli-HasUnit}
use astra_meter.Balancer.Saturation.{Tracker, update}
use astra_meter.Balancer.Saturation.Score.{update_frame, update-low_target-le}
use astra_meter.Balancer.Config.{efficient_power}
use astra_meter.Balancer.Order.{parked_after, active_slots, synced, force_rotation}
use astra_meter.Balancer.Order.Slots.{active_slots_bounds, active_slots_growth}
use astra_meter.Balancer.Order.Sync.{
  synced-members, IsParkedLast, synced-IsParkedLast, synced_stable, force_rotation-members,
}
use astra_meter.Balancer.Probe.{restored, resolve_probe, committed}
use astra_meter.Balancer.Probe.Outcomes.{Resolved, resolve_probe-Resolved, restored-members}
use astra_meter.Balancer.Rotation.{force_swap_saturated}
use astra_meter.Balancer.Rotation.Swap.{IsSwapped, force_swap_saturated-IsSwapped}
use astra_meter.Balancer.Active.{reselect}
use astra_meter.Balancer.Active.Standby.{IsSettled, reselect-IsSettled}
use astra_meter.Tests.Fixture.{
  a, b, c, ids, ca-IsOnce, ba-IsOnce, bac-IsOnce, ids-IsOnce, reports, pool, full, probe, config,
}

-- The second good sample commits the probe of b.
probe_commits : (resolve_probe reports (whole 50) nought pool).1 ≡ committed
unfolding resolve_probe without elem keys same proven ◌*ℤ◌ ◌+ℤ◌ sum_power report_of get abs
probe_commits = refl

resolve_probe-Resolved_example :
    let (p, outcome) = resolve_probe reports (whole 50) nought pool in
    Resolved reports (whole 50) nought pool (some probe) p outcome
resolve_probe-Resolved_example = resolve_probe-Resolved reports (whole 50) nought pool

-- a is saturated, and b takes its slot.
swap_done : (force_swap_saturated reports nought (whole 50) 1 pool).0.priority ≡ b ∷ a ∷ c ∷ []
unfolding force_swap_saturated ◌*ℤ◌ get same report_of ◌+ℤ◌ sum_power
swap_done = refl

force_swap_saturated-IsSwapped_example :
    IsSwapped reports nought 1 pool (force_swap_saturated reports nought (whole 50) 1 pool)
force_swap_saturated-IsSwapped_example =
    force_swap_saturated-IsSwapped reports nought (whole 50) 1 pool

reselect-IsSettled_example :
    let (p, result) =
      reselect reports [] nought
        (whole 50)
        (whole 90)
        (a ∷ [])
        1
        false
        (record pool { probe_state = none }) in
    IsSettled p result
reselect-IsSettled_example =
    reselect-IsSettled reports [] nought (whole 50) (whole 90) (a ∷ []) 1 false
      (record pool { probe_state = none }) (omega arith)

synced-members_example : count b (synced reports (c ∷ a ∷ [])) ≡ count b (keys reports)
unfolding keys
synced-members_example = synced-members reports (c ∷ a ∷ []) b ca-IsOnce ids-IsOnce

synced-IsParkedLast_example : IsParkedLast reports (synced reports (c ∷ a ∷ []))
synced-IsParkedLast_example = synced-IsParkedLast reports (c ∷ a ∷ [])

parked_last : IsParkedLast reports ids
unfolding parked_after report_of get same ◌*ℤ◌
parked_last = ((refl, (refl, tt)), ((refl, tt), (tt, tt)))

synced_stable_example : synced reports ids ≡ ids
unfolding keys
synced_stable_example = synced_stable reports ids ids-IsOnce ids-IsOnce (λ k. refl) parked_last

force_rotation-members_example : count c (force_rotation ids (whole 50) pool).priority ≡ count c ids
force_rotation-members_example = force_rotation-members ids (whole 50) pool c ids-IsOnce ids-IsOnce

restored-members_example : count c (restored (a ∷ []) b (b ∷ a ∷ c ∷ [])) ≡ count c (b ∷ a ∷ c ∷ [])
unfolding count
restored-members_example =
    restored-members (a ∷ []) b (b ∷ a ∷ c ∷ []) c bac-IsOnce ba-IsOnce (λ j. ground arith)

active_slots_bounds_example :
    (1 ≤ active_slots config (pos 1) (whole 200) 3 false 3)
    × (active_slots config (pos 1) (whole 200) 3 false 3 ≤ 3)
active_slots_bounds_example = active_slots_bounds config (pos 1) (whole 200) 3 false 3 (omega arith)

-- With 400 W asked for, one active battery becomes two.
active_slots_growth_example :
    active_slots config (pos 1) (whole 400) 3 true 1
    ≤ pos_part (
        milli_float.truncate
          (whole 400 /F (efficient_power config (pos 1) *F milli_float.decimal (pos 12) 1)))
unfolding active_slots efficient_power ◌*ℤ◌ quot_ℤ
active_slots_growth_example =
    active_slots_growth config (pos 1) (whole 400) 3 1 (omega arith) (omega arith) (omega arith)

abbrev judge : Tracker Milli
judge = record {
  enabled = true;
  alpha = pos 150;
  min_target = whole 20;
  decay_factor = pos 990;
  stall_timeout_seconds = whole 60;
}

update-low_target-le_example :
    (update judge full (some (whole 10)) nought (whole 5) (whole 50)).saturation_score
      ≤F full.saturation_score
    ≡ true
unfolding ◌*ℤ◌
update-low_target-le_example =
    update-low_target-le Milli-HasUnit judge full (whole 10) nought (whole 5) (whole 50) refl refl
      refl

update_frame_example :
    let s = update judge full (some (whole 200)) nought (whole 5) (whole 50) in
    s ≡ record full {
      saturation_score = s.saturation_score;
      saturation_grace_until = s.saturation_grace_until;
      saturation_grace_started_at = s.saturation_grace_started_at;
      last_saturation_update = s.last_saturation_update;
    }
update_frame_example = update_frame judge full (some (whole 200)) nought (whole 5) (whole 50)
