-- ===== src/Balancer/State.antt =====
-- The records of src/astrameter/ct002/balancer.py: reports, the state of one battery, the
-- configuration, and what a device type can do.
use astra_meter.Prelude.{
  ℕ, Bool, true, false, ◌&&◌, not, List, [], ◌∷◌, Option, none, some, if◌then◌else◌, any,
}
use astra_meter.Prelude.Int.{ℤ, pos, negsuc, ltb_ℤ}
use astra_meter.Prelude.Text.{Text, text, upper, starts_with}
use astra_meter.Prelude.Dict.{get}
use astra_meter.Prelude.Float.{Float, ◌<F◌, nought, whole, fmax, fmin}

pub record ConsumerReport (F : Type 0) : Type 0 where
  pub power : ℤ
  pub phase : Text
  pub device_type : Text
  pub weight : F
  pub efficiency_window_weight : F
  pub min_dc_output : Option F
  pub min_charge_power : Option F
  pub min_discharge_power : Option F
  pub max_charge_power : Option F
  pub max_discharge_power : Option F

pub record ConsumerState (F : Type 0) : Type 0 where
  pub last_target : Option F
  pub last_intent : Option F
  pub last_intent_reading : Option F
  pub fade_weight : F
  pub pace_cap : F
  pub pace_sign : ℤ
  pub pace_prev_reported : Option F
  pub pace_last_at : F
  pub pace_stall_polls : ℕ
  pub pace_responded_at : F
  pub pace_last_sent : F
  pub osc_score : F
  pub osc_last_sign : ℤ
  pub saturation_score : F
  pub saturation_grace_until : F
  pub saturation_grace_started_at : F
  pub last_saturation_update : F
  pub ceiling_discharge : F
  pub ceiling_charge : F
  pub ceiling_discharge_seen : F
  pub ceiling_charge_seen : F
  pub ceiling_run_anchor : F
  pub ceiling_run_since : F
  pub ceiling_run_polls : ℕ
  pub min_power_idle : Bool

pub data Mode : Type 0 where
  auto manual inactive : Mode

pub record DeviceCapabilities : Type 0 where
  pub has_builtin_inverter : Bool
  pub has_ac_input : Bool
  pub has_dc_input : Bool
  pub min_actionable_output_w : ℕ

abbrev pub minus_one : ℤ
minus_one = negsuc 0

-- Whether `s` starts with one of the prefixes.
abbrev starts_with_any : Text → List Text → Bool
starts_with_any s ps = any (starts_with s) ps

abbrev capabilities : Bool → Bool → Bool → ℕ → DeviceCapabilities
capabilities inverter ac dc least = record {
  has_builtin_inverter = inverter;
  has_ac_input = ac;
  has_dc_input = dc;
  min_actionable_output_w = least;
}

unfoldable pub device_capabilities : Text → DeviceCapabilities
device_capabilities device_type =
    let dt = upper device_type in
    if starts_with_any dt (text "VNSA" ∷ text "VNSD" ∷ [])
    then capabilities true true true 0
    else if starts_with_any dt (text "HMG" ∷ text "VNS" ∷ [])
    then capabilities true true false 0
    else if starts_with_any dt (text "HMN" ∷ text "HMM" ∷ text "JPLS" ∷ [])
    then capabilities true false true 0
    else if starts_with_any dt (text "HMA" ∷ text "HMJ" ∷ text "HMK" ∷ [])
    then capabilities false false true 80
    else capabilities true true false 0

unfoldable pub is_ac_chargeable : Text → Bool
unfolding device_capabilities
is_ac_chargeable device_type = (device_capabilities device_type).has_ac_input

unfoldable pub needs_dc_output_floor : Text → Bool
unfolding device_capabilities
needs_dc_output_floor device_type =
    let caps = device_capabilities device_type in
    not caps.has_ac_input && not caps.has_builtin_inverter

module _ {F : Type 0} ⦃fl : Float F⦄ where
  -- `_sign`.
  unfoldable pub sign : F → ℤ
  sign value = if nought <F value then pos 1 else if value <F nought then minus_one else pos 0

  unfoldable pub at_least_zero : Option F → Option F
  at_least_zero none = none
  at_least_zero (some v) = some (fmax nought v)

  -- `ConsumerReport.__post_init__`: the report as the control path reads it.
  unfoldable pub normalized : ConsumerReport F → ConsumerReport F
  unfolding at_least_zero
  normalized r = record r {
    phase = upper (elim r.phase [ [] ↦ text "A" | _ ∷ _ ↦ r.phase ]);
    efficiency_window_weight = fmax nought (fmin (whole 1) r.efficiency_window_weight);
    min_dc_output = at_least_zero r.min_dc_output;
    min_charge_power = at_least_zero r.min_charge_power;
    min_discharge_power = at_least_zero r.min_discharge_power;
    max_charge_power = at_least_zero r.max_charge_power;
    max_discharge_power = at_least_zero r.max_discharge_power;
  }

  abbrev pub no_report : ConsumerReport F
  no_report = record {
    power = pos 0;
    phase = text "A";
    device_type = [];
    weight = whole 1;
    efficiency_window_weight = whole 1;
    min_dc_output = none;
    min_charge_power = none;
    min_discharge_power = none;
    max_charge_power = none;
    max_discharge_power = none;
  }

  -- `_report_of`.
  unfoldable pub report_of : List (Text × ConsumerReport F) → Text → ConsumerReport F
  report_of reports [] = no_report
  report_of reports (c ∷ cid) = elim (get (c ∷ cid) reports) [ none ↦ no_report | some r ↦ r ]

  -- `BalancerConsumerState()`.
  abbrev pub fresh_state : ConsumerState F
  fresh_state = record {
    last_target = none;
    last_intent = none;
    last_intent_reading = none;
    fade_weight = whole 1;
    pace_cap = nought;
    pace_sign = pos 0;
    pace_prev_reported = none;
    pace_last_at = nought;
    pace_stall_polls = 0;
    pace_responded_at = nought;
    pace_last_sent = nought;
    osc_score = nought;
    osc_last_sign = pos 0;
    saturation_score = nought;
    saturation_grace_until = nought;
    saturation_grace_started_at = nought;
    last_saturation_update = nought;
    ceiling_discharge = nought;
    ceiling_charge = nought;
    ceiling_discharge_seen = nought;
    ceiling_charge_seen = nought;
    ceiling_run_anchor = nought;
    ceiling_run_since = nought;
    ceiling_run_polls = 0;
    min_power_idle = false;
  }

  -- `BalancerConsumerState.ceiling` and `.ceiling_seen`.
  unfoldable pub ceiling : ConsumerState F → ℤ → F
  ceiling s dir =
      if ltb_ℤ (pos 0) dir
      then s.ceiling_discharge
      else if ltb_ℤ dir (pos 0)
      then s.ceiling_charge
      else nought

  unfoldable pub ceiling_seen : ConsumerState F → ℤ → F
  ceiling_seen s dir = if ltb_ℤ (pos 0) dir then s.ceiling_discharge_seen else s.ceiling_charge_seen

  unfoldable pub min_actionable_output : Text → F
  unfolding device_capabilities
  min_actionable_output device_type =
      whole (device_capabilities device_type).min_actionable_output_w

  unfoldable pub saturation_floor : ConsumerState F → ConsumerReport F → F → F
  saturation_floor state report configured_floor =
      let nominal = min_actionable_output report.device_type in
      let observed = state.pace_responded_at in
      let lowered = if nought <F observed then fmin nominal observed else nominal in
      fmax configured_floor (if nought <F nominal then lowered else nominal)
