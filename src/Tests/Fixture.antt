-- ===== src/Tests/Fixture.antt =====
-- A pool of three batteries for the runs, after src/astrameter/ct002/balancer.py.
use astra_meter.Prelude.{refl, ◌≡◌, Bool, true, ◌&&◌, not, List, [], ◌∷◌, none, some, arith}
use astra_meter.Prelude.Int.{ℤ, pos}
use astra_meter.Prelude.Text.{same, Text, text, same_iff, elem}
use astra_meter.Prelude.Sort.{count, elem-eq-count}
use astra_meter.Prelude.Float.{milli_float, Milli, whole, nought}
use astra_meter.Balancer.State.{ConsumerReport, ConsumerState, no_report, fresh_state}
use astra_meter.Balancer.Config.{Config}
use astra_meter.Balancer.Quality.{new_quality}
use astra_meter.Balancer.Saturation.{tracker}
use astra_meter.Balancer.Control.{Control}
use astra_meter.Balancer.Pool.{LoadBalancer, ProbeState}
use astra_meter.Balancer.Order.{Reports}
use astra_meter.Balancer.Order.Sync.{IsOnce}

unfoldable pub is_once : List Text → Bool
is_once [] = true
is_once (x ∷ xs) = not (elem x xs) && is_once xs

pub is_once-IsOnce : (l : List Text) → is_once l ≡ true → IsOnce l
unfolding is_once count
is_once-IsOnce [] h k = omega arith
is_once-IsOnce (x ∷ xs) h k =
    ground (
      arith,
      is_once-IsOnce xs,
      same_iff x k,
      elem-eq-count x xs,
      is_once-IsOnce xs (ground arith) k,
    )

abbrev pub a : Text
a = text "a"

abbrev pub b : Text
b = text "b"

abbrev pub c : Text
c = text "c"

abbrev pub ids : List Text
ids = a ∷ b ∷ c ∷ []

abbrev pub watts : ℤ → ConsumerReport Milli
watts power = record no_report { power = power }

-- Two batteries at 300 W and one at rest; the third is parked.
abbrev pub reports : Reports Milli
reports =
    (a, watts (pos 300))
    ∷ (b, watts (pos 300))
    ∷ (c, record (watts (pos 0)) { efficiency_window_weight = nought })
    ∷ []

abbrev pub config : Config Milli
config = record {
  fair_distribution = true;
  balance_gain = whole 1;
  balance_deadband = whole 15;
  error_boost_threshold = whole 150;
  error_boost_max = whole 1;
  error_reduce_threshold = whole 20;
  max_correction_per_step = whole 80;
  max_target_step = nought;
  min_efficient_power = whole 150;
  min_efficient_charge_power = none;
  min_efficient_discharge_power = none;
  probe_min_power = whole 80;
  efficiency_rotation_interval = whole 900;
  efficiency_fade_alpha = pos 150;
  efficiency_saturation_threshold = pos 400;
  efficiency_demand_alpha = pos 200;
  min_dc_output = nought;
  min_charge_power = nought;
  min_discharge_power = nought;
  min_power_hysteresis = none;
  max_charge_power = none;
  max_discharge_power = none;
  pace_base_step = whole 100;
  pace_max_step = whole 400;
  osc_damp_max = nought;
  osc_damp_alpha = nought;
  osc_damp_decay = nought;
  osc_damp_threshold = nought;
  grid_predict_trust = nought;
  concentrate_deadband = nought;
  import_trim_w = nought;
}

-- Battery a is saturated; a probe of b, with a as its backup, has one good sample.
abbrev pub full : ConsumerState Milli
full = record fresh_state { saturation_score = whole 1 }

abbrev pub probe : ProbeState Milli
probe = record {
  candidate_id = b;
  active_ids = b ∷ [];
  backup_ids = a ∷ [];
  restore_active_ids = a ∷ [];
  deadline = whole 100;
  started_at = whole 40;
  proof_samples = 1;
  requested_power_abs = whole 20;
}

abbrev pub control : Control Milli
control = record {
  pred_grid = none;
  pred_pool_output = nought;
  pred_sample_id = none;
  pred_trust = nought;
  pred_innov_sign = pos 0;
  trim_sample_id = [];
  steady_import_dwell = 0;
  quality = new_quality (whole 15);
}

abbrev pub pool : LoadBalancer Milli
pool = record {
  cfg = config;
  saturation_grace_seconds = whole 90;
  probe_timeout_seconds = whole 60;
  probe_success_threshold = whole 80;
  consumers = (a, full) ∷ (b, fresh_state) ∷ [];
  deprioritized = b ∷ c ∷ [];
  spilling = [];
  spill_dir = pos 0;
  spill_caps = [];
  spill_scale = [];
  spill_free_since = none;
  priority = ids;
  last_rotation = nought;
  cache_sample = none;
  cache_result = none;
  probe_state = some probe;
  post_probe_fade_until = nought;
  post_probe_fade_ids = [];
  demand_ema = none;
  demand_signed_ema = none;
  demand_dir = pos 1;
  saturation = tracker true (pos 100) (whole 20) (pos 995) (whole 60);
  control = control;
}

pub ids-IsOnce : IsOnce ids
unfolding is_once elem same
ids-IsOnce = is_once-IsOnce ids refl

pub ca-IsOnce : IsOnce (c ∷ a ∷ [])
unfolding is_once elem same
ca-IsOnce = is_once-IsOnce (c ∷ a ∷ []) refl

pub ba-IsOnce : IsOnce (b ∷ a ∷ [])
unfolding is_once elem same
ba-IsOnce = is_once-IsOnce (b ∷ a ∷ []) refl

pub bac-IsOnce : IsOnce (b ∷ a ∷ c ∷ [])
unfolding is_once elem same
bac-IsOnce = is_once-IsOnce (b ∷ a ∷ c ∷ []) refl
