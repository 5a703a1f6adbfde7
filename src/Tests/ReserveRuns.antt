-- ===== src/Tests/ReserveRuns.antt =====
-- Runs of the shares, the ceilings and the standby reserve of src/astrameter/ct002/balancer.py.
use astra_meter.Balancer.Limits.{no_headroom}
use astra_meter.Balancer.Probe.{sum_power}
use astra_meter.Balancer.State.{report_of}
use astra_meter.Prelude.Dict.{keys}
use astra_meter.Balancer.Config.{efficiency_enabled}
use astra_meter.Balancer.State.{ceiling}
use astra_meter.Prelude.Int.{◌-ℤ◌}
use astra_meter.Prelude.Int.{◌+ℤ◌}
use astra_meter.Prelude.Int.{quot_ℤ}
use astra_meter.Prelude.Text.{same}
use astra_meter.Prelude.Dict.{get}
use astra_meter.Prelude.Int.{◌*ℤ◌}
use astra_meter.Prelude.{◌≡◌, refl, List, [], ◌∷◌, some, All}
use astra_meter.Prelude.Int.{pos}
use astra_meter.Prelude.Text.{Text, elem}
use astra_meter.Prelude.Float.{milli_float, Milli, whole, nought}
use astra_meter.Balancer.State.{ConsumerState, fresh_state, sign, minus_one}
use astra_meter.Balancer.Shares.{capped_weighted_share}
use astra_meter.Balancer.Shares.Capped.{IsWithin, capped_weighted_share-IsWithin}
use astra_meter.Balancer.Limits.{tracked}
use astra_meter.Balancer.Limits.Learned.{IsTracked, tracked-IsTracked}
use astra_meter.Balancer.Spill.{scanned, update_spill}
use astra_meter.Balancer.Spill.Reserve.{IsCalled, update_spill-IsCalled}
use astra_meter.Tests.Fixture.{a, b, c, ids, reports, pool}

abbrev even : List (Text × Milli)
even = (a, whole 1) ∷ (b, whole 1) ∷ (c, whole 1) ∷ []

-- 900 W across three batteries, of which a can take 100 W: b gets 400 W.
share_of_b :
    capped_weighted_share (whole 900) even ids ((a, whole 100) ∷ []) (some b) ≡ some (pos 400_000)
unfolding capped_weighted_share sign ◌*ℤ◌ get same quot_ℤ ◌+ℤ◌ elem ◌-ℤ◌
share_of_b = refl

capped_weighted_share-IsWithin_example :
    (share : Milli) × (capped_weighted_share (whole 900) even ids ((a, whole 100) ∷ []) (some a)
      ≡ some share)
    × IsWithin (whole 100) (milli_float.of_int (sign {F = Milli} (whole 900))) share
unfolding sign ◌*ℤ◌ elem same get
capped_weighted_share-IsWithin_example =
    capped_weighted_share-IsWithin (whole 900) even ids ((a, whole 100) ∷ []) a (whole 100) refl
      refl refl

-- A battery that has held 800 W for four polls since the start, though 50 W more were asked for.
abbrev holding : ConsumerState Milli
holding = record fresh_state {
  last_target = some (whole 50);
  ceiling_run_anchor = whole 800;
  ceiling_run_polls = 4;
}

learned : (tracked (whole 800) (whole 9) holding).ceiling_discharge ≡ whole 800
unfolding tracked ◌*ℤ◌ ceiling sign quot_ℤ ◌-ℤ◌
learned = refl

tracked-IsTracked_example :
    let s = tracked (whole 800) (whole 9) holding in
    IsTracked (whole 800) (whole 9) holding (pos 1) holding.ceiling_discharge s.ceiling_discharge
    × IsTracked (whole 800) (whole 9) holding minus_one holding.ceiling_charge s.ceiling_charge
tracked-IsTracked_example = tracked-IsTracked (whole 800) (whole 9) holding

-- a is saturated and 200 W are left over: b, which stands by, is called.
abbrev stands_by : List (Text × Milli)
stands_by = (b, nought) ∷ (c, nought) ∷ []

b_called : (update_spill reports (whole 200) stands_by [] (whole 50) pool).1 ≡ b ∷ []
unfolding update_spill efficiency_enabled ◌*ℤ◌ elem keys same get report_of ◌+ℤ◌ sum_power sign
    no_headroom quot_ℤ ceiling
b_called = refl

update_spill-IsCalled_example :
    All
      (IsCalled pool (scanned reports (whole 200) stands_by [] (whole 50) pool).0)
      (update_spill reports (whole 200) stands_by [] (whole 50) pool).1
update_spill-IsCalled_example =
    update_spill-IsCalled reports (whole 200) stands_by [] (whole 50) pool
