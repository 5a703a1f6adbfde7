-- ===== src/Tests/SteeringRuns.antt =====
-- Runs of the steering of src/astrameter/ct002/balancer.py.
use astra_meter.Balancer.MinPower.{is_short, threshold, was_idle, share_among, shortness, furthest}
use astra_meter.Balancer.Shares.{
  capped_weighted_share, fill, is_over, less_ceilings, total_weight, weight_of, weighted_share,
}
use astra_meter.Balancer.Steer.{start_power, min_power}
use astra_meter.Balancer.Limits.{max_power}
use astra_meter.Balancer.Correction.{capped_share}
use astra_meter.Prelude.Dict.{get, remove_first}
use astra_meter.Prelude.Text.{elem, text_lt}
use astra_meter.Prelude.Dict.{keys}
use astra_meter.Prelude.Dict.{get}
use astra_meter.Balancer.Limits.{max_power}
use astra_meter.Balancer.Steer.{is_named}
use astra_meter.Prelude.Int.{◌+ℤ◌}
use astra_meter.Prelude.Int.{quot_ℤ}
use astra_meter.Prelude.Int.{◌-ℤ◌}
use astra_meter.Prelude.Int.{◌*ℤ◌}
use astra_meter.Prelude.{refl, ◌≡◌, true, false, List, [], ◌∷◌, some, arith}
use astra_meter.Prelude.Int.{pos, neg}
use astra_meter.Prelude.Text.{Text, same, elem}
use astra_meter.Prelude.Float.{◌≤F◌, milli_float, Milli, whole, nought}
use astra_meter.Prelude.Scale.{Milli-IsScaling}
use astra_meter.Balancer.State.{ConsumerState, fresh_state, auto, report_of, sign}
use astra_meter.Balancer.Quality.{Quality, new_quality, snapshot}
use astra_meter.Balancer.Quality.Verdicts.{IsScored, snapshot-IsScored}
use astra_meter.Balancer.Config.{Config}
use astra_meter.Balancer.Control.{Control, predict_control_grid}
use astra_meter.Balancer.Control.Trust.{IsTrusting, bounded, predict_control_grid-IsTrusting}
use astra_meter.Balancer.Pool.{LoadBalancer}
use astra_meter.Balancer.Order.{Reports}
use astra_meter.Balancer.Pace.{pace_reading, damp_oscillation}
use astra_meter.Balancer.Pace.Bounds.{IsWithin, IsShortened, pace_reading-bounds}
use astra_meter.Balancer.Pace.Damping.{IsDamped, damp_oscillation-IsDamped}
use astra_meter.Balancer.Steer.{emit, plainly}
use astra_meter.Balancer.Steer.Limited.{IsAsked, emit-IsAsked}
use astra_meter.Balancer.Steer.Zero.{IsWindingDown}
use astra_meter.Balancer.MinPower.{Demand, run_out}
use astra_meter.Balancer.MinPower.Idle.{IsSettled, run_out-IsSettled}
use astra_meter.Balancer.Target.{compute_target, excluding}
use astra_meter.Balancer.Target.Modes.{compute_target-parked}
use astra_meter.Tests.Fixture.{a, b, c, ids, reports, config, control, pool, watts}

-- A battery that was asked for 100 W a second ago and has moved by 60 W is asked for 900 W.
abbrev ramping : ConsumerState Milli
ramping = record fresh_state {
  pace_cap = whole 100;
  pace_sign = pos 1;
  pace_prev_reported = some (whole 40);
  pace_last_at = whole 99;
  pace_last_sent = whole 100;
}

pace_reading-bounds_run :
    (pace_reading config false (whole 100) (whole 900) (whole 100) ramping).1 ≡ whole 200
unfolding ◌*ℤ◌ pace_reading ◌-ℤ◌ quot_ℤ
pace_reading-bounds_run = refl

pace_reading-bounds_example :
    let (s', out) = pace_reading config false (whole 100) (whole 900) (whole 100) ramping in
    IsWithin Milli-IsScaling (whole 400) out
    × IsShortened Milli-IsScaling (whole 900) out
    × (s'.pace_cap ≤F whole 400 ≡ true)
unfolding ◌*ℤ◌
pace_reading-bounds_example =
    pace_reading-bounds Milli-IsScaling config false (whole 100) (whole 900) (whole 100) ramping
      refl refl

-- The meter reads 300 W more than was predicted, for the second time.
abbrev trusting_config : Config Milli
trusting_config = record config { grid_predict_trust = pos 500 }

abbrev trusting : Control Milli
trusting = record control {
  pred_grid = some (whole 100);
  pred_pool_output = whole 600;
  pred_sample_id = some (whole 100 ∷ []);
  pred_trust = pos 500;
  pred_innov_sign = pos 1;
}

trust_run :
    (predict_control_grid trusting_config (whole 600) (whole 400) (whole 400 ∷ []) trusting).1
    ≡ whole 310
unfolding ◌*ℤ◌ predict_control_grid ◌+ℤ◌ ◌-ℤ◌ quot_ℤ
trust_run = refl

predict_control_grid-IsTrusting_example :
    IsTrusting Milli-IsScaling
      (predict_control_grid trusting_config (whole 600) (whole 400) (whole 400 ∷ []) trusting).0
unfolding quot_ℤ ◌*ℤ◌
predict_control_grid-IsTrusting_example =
    predict_control_grid-IsTrusting Milli-IsScaling trusting_config (whole 600) (whole 400)
      (whole 400 ∷ []) trusting (bounded refl refl)

-- A battery whose residual has changed its sign.
abbrev damping_config : Config Milli
damping_config = record config {
  osc_damp_max = pos 800;
  osc_damp_alpha = pos 300;
  osc_damp_decay = pos 100;
}

abbrev hunting : ConsumerState Milli
hunting = record fresh_state { osc_score = pos 500; osc_last_sign = neg (pos 1) }

damp_run : (damp_oscillation damping_config (whole 50) hunting).1 ≡ pos 18_000
unfolding damp_oscillation ◌*ℤ◌ quot_ℤ ◌-ℤ◌ neg ◌+ℤ◌
damp_run = refl

damp_oscillation-IsDamped_example :
    let (s', out) = damp_oscillation damping_config (whole 50) hunting in
    IsDamped Milli-IsScaling (whole 50) s'.osc_score out
unfolding ◌*ℤ◌
damp_oscillation-IsDamped_example =
    damp_oscillation-IsDamped Milli-IsScaling damping_config (whole 50) hunting
      (record { least = refl; most = refl }) (record { least = refl; most = refl })
      (record { least = refl; most = refl }) (record { least = refl; most = refl })

-- Battery a may discharge at 250 W and shall discharge at 800 W.
abbrev limited_pool : LoadBalancer Milli
limited_pool = record pool { cfg = record config { max_discharge_power = some (whole 250) } }

emit-IsAsked_example :
    IsAsked Milli-IsScaling a
      (whole 1)
      (whole 250)
      (emit a
        (whole 800)
        (whole 300)
        reports
        (record plainly { pace = true })
        (whole 100)
        limited_pool).0
unfolding is_named max_power sign ◌*ℤ◌ report_of get same
emit-IsAsked_example =
    emit-IsAsked Milli-IsScaling a (whole 800) (whole 300) reports (record plainly { pace = true })
      (whole 100) limited_pool (whole 250) refl refl refl

-- Battery b discharges at 300 W and has been parked.
abbrev parked_reports : Reports Milli
parked_reports = (a, watts (pos 300)) ∷ (b, record (watts (pos 300)) { weight = nought }) ∷ []

compute_target-parked_example :
    IsWindingDown Milli-IsScaling b (excluding [] (excluding [] parked_reports)) pool (
      compute_target b auto nought parked_reports
        (whole 500)
        []
        []
        (whole 500 ∷ [])
        false
        (whole 100)
        pool)
unfolding is_named ◌*ℤ◌ elem keys excluding same report_of get
compute_target-parked_example =
    compute_target-parked Milli-IsScaling b nought parked_reports (whole 500) [] [] (whole 500 ∷ [])
      false (whole 100) pool refl refl refl (record { member = refl; weight = refl })

-- Three batteries that may run at 200 W or more share 250 W.
abbrev sleepy : LoadBalancer Milli
sleepy = record pool { cfg = record config { min_discharge_power = whole 200 }; consumers = [] }

abbrev shares : List (Text × Milli)
shares = (a, whole 1) ∷ (b, whole 1) ∷ (c, whole 1) ∷ []

abbrev little : Demand Milli
little = record { total = whole 250; dir = pos 1; weights = shares; tops = [] }

run_out_run : run_out 2 sleepy reports little (b ∷ c ∷ []) ≡ c ∷ []
unfolding run_out is_short threshold was_idle get min_power report_of same ◌*ℤ◌ share_among quot_ℤ
    capped_share sign ◌+ℤ◌ remove_first furthest shortness max_power capped_weighted_share fill
    is_over less_ceilings total_weight weight_of weighted_share start_power elem text_lt
run_out_run = refl

run_out-IsSettled_example :
    IsSettled sleepy reports little ids (run_out 3 sleepy reports little ids)
run_out-IsSettled_example = run_out-IsSettled 3 sleepy reports little ids (omega arith)

-- The loop has been 90 W off for a quarter of a minute.
abbrev judged : Quality Milli
judged = record (new_quality (whole 15)) {
  error_ema = whole 90;
  limited_ema = pos 200;
  samples = 15;
  observed = whole 15;
  last_update = whole 100;
  steering = true;
}

snapshot-IsScored_example :
    IsScored Milli-IsScaling
      (snapshot (whole 101) judged).verdict
      (snapshot (whole 101) judged).score
unfolding ◌*ℤ◌ quot_ℤ new_quality
snapshot-IsScored_example = snapshot-IsScored Milli-IsScaling (whole 101) judged refl
