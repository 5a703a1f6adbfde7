-- ===== src/Balancer/Config.antt =====
-- `BalancerConfig` of src/astrameter/ct002/balancer.py.
use astra_meter.Prelude.{Bool, ◌||◌, Option, none, some, if◌then◌else◌}
use astra_meter.Prelude.Int.{ℤ, pos, ltb_ℤ}
use astra_meter.Prelude.Float.{Float, ◌<F◌, nought, whole, fmax, fmin}
use astra_meter.Balancer.State.{minus_one}

pub record Config (F : Type 0) : Type 0 where
  pub fair_distribution : Bool
  pub balance_gain : F
  pub balance_deadband : F
  pub error_boost_threshold : F
  pub error_boost_max : F
  pub error_reduce_threshold : F
  pub max_correction_per_step : F
  pub max_target_step : F
  pub min_efficient_power : F
  pub min_efficient_charge_power : Option F
  pub min_efficient_discharge_power : Option F
  pub probe_min_power : F
  pub efficiency_rotation_interval : F
  pub efficiency_fade_alpha : F
  pub efficiency_saturation_threshold : F
  pub efficiency_demand_alpha : F
  pub min_dc_output : F
  pub min_charge_power : F
  pub min_discharge_power : F
  pub min_power_hysteresis : Option F
  pub max_charge_power : Option F
  pub max_discharge_power : Option F
  pub pace_base_step : F
  pub pace_max_step : F
  pub osc_damp_max : F
  pub osc_damp_alpha : F
  pub osc_damp_decay : F
  pub osc_damp_threshold : F
  pub grid_predict_trust : F
  pub concentrate_deadband : F
  pub import_trim_w : F

module _ {F : Type 0} ⦃fl : Float F⦄ where
  -- `BATTERY_POWER_MAX` of src/astrameter/ct002/controls.py: 3 * 230.0 * 16.0.
  abbrev pub battery_power_max : F
  battery_power_max = whole 11_040

  -- `_clamp`.
  abbrev clamp : F → F → F → F
  clamp low high v = fmax low (fmin high v)

  abbrev clamp_set : (F → F) → Option F → Option F
  clamp_set f none = none
  clamp_set f (some v) = some (f v)

  -- `__post_init__`, with `float("inf")`.
  unfoldable pub clamped : F → Config F → Config F
  clamped infinity c = record c {
    balance_gain = clamp nought (whole 1) c.balance_gain;
    balance_deadband = clamp nought infinity c.balance_deadband;
    error_boost_threshold = clamp nought infinity c.error_boost_threshold;
    error_boost_max = clamp nought infinity c.error_boost_max;
    error_reduce_threshold = clamp nought infinity c.error_reduce_threshold;
    max_correction_per_step = clamp nought infinity c.max_correction_per_step;
    max_target_step = clamp nought infinity c.max_target_step;
    min_efficient_power = clamp nought infinity c.min_efficient_power;
    probe_min_power = clamp nought infinity c.probe_min_power;
    efficiency_rotation_interval = clamp (whole 1) infinity c.efficiency_rotation_interval;
    efficiency_fade_alpha = clamp (fl.decimal (pos 1) 2) (whole 1) c.efficiency_fade_alpha;
    efficiency_saturation_threshold = clamp nought (whole 1) c.efficiency_saturation_threshold;
    efficiency_demand_alpha = clamp (fl.decimal (pos 1) 2) (whole 1) c.efficiency_demand_alpha;
    min_dc_output = clamp nought infinity c.min_dc_output;
    min_charge_power = clamp nought battery_power_max c.min_charge_power;
    min_discharge_power = clamp nought battery_power_max c.min_discharge_power;
    min_efficient_charge_power = clamp_set (clamp nought infinity) c.min_efficient_charge_power;
    min_efficient_discharge_power =
        clamp_set (clamp nought infinity) c.min_efficient_discharge_power;
    min_power_hysteresis = clamp_set (clamp nought battery_power_max) c.min_power_hysteresis;
    max_charge_power = clamp_set (clamp nought battery_power_max) c.max_charge_power;
    max_discharge_power = clamp_set (clamp nought battery_power_max) c.max_discharge_power;
    pace_base_step = clamp nought infinity c.pace_base_step;
    pace_max_step = clamp (clamp nought infinity c.pace_base_step) infinity c.pace_max_step;
    osc_damp_max = clamp nought (whole 1) c.osc_damp_max;
    osc_damp_alpha = clamp nought (whole 1) c.osc_damp_alpha;
    osc_damp_decay = clamp nought (whole 1) c.osc_damp_decay;
    osc_damp_threshold = clamp nought infinity c.osc_damp_threshold;
    grid_predict_trust = clamp nought (whole 1) c.grid_predict_trust;
    concentrate_deadband = clamp nought infinity c.concentrate_deadband;
    import_trim_w = clamp nought infinity c.import_trim_w;
  }

  unfoldable pub efficient_power : Config F → ℤ → F
  efficient_power c direction =
      let own =
        if ltb_ℤ direction (pos 0)
        then c.min_efficient_charge_power
        else c.min_efficient_discharge_power in
      elim own [ none ↦ c.min_efficient_power | some v ↦ v ]

  unfoldable pub efficiency_enabled : Config F → Bool
  unfolding efficient_power
  efficiency_enabled c =
      nought <F efficient_power c (pos 1) || nought <F efficient_power c minus_one
