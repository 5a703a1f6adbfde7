-- ===== src/Balancer/Steer.antt =====
-- The way out of `LoadBalancer` in src/astrameter/ct002/balancer.py: how an output that a battery
-- shall have becomes the three readings that it is sent (`_emit` and what calls it), and the floors
-- of an output. The empty text stands for no battery.
pub mod Zero
pub mod Limited
use astra_meter.Prelude.{
  ℕ, Bool, true, false, ◌&&◌, ◌||◌, not, List, [], ◌∷◌, Option, none, some, if◌then◌else◌, ◌==◌,
}
use astra_meter.Prelude.Int.{ℤ, pos, eqb_ℤ, ltb_ℤ}
use astra_meter.Prelude.Text.{Text, text, upper, same, elem}
use astra_meter.Prelude.Dict.{get, keys}
use astra_meter.Prelude.Float.{
  Float, ◌<F◌, ◌≤F◌, ◌+F◌, ◌-F◌, ◌*F◌, ◌/F◌, nought, whole, fmax, fmin, fabs,
}
use astra_meter.Prelude.Series.{fsum}
use astra_meter.Balancer.State.{
  ConsumerReport, ConsumerState, sign, report_of, needs_dc_output_floor,
}
use astra_meter.Balancer.Config.{Config}
use astra_meter.Balancer.Pool.{LoadBalancer, state_of, change}
use astra_meter.Balancer.Order.{Reports}
use astra_meter.Balancer.Limits.{max_power}
use astra_meter.Balancer.Pace.{pace_reading}

-- Whether a text names a battery.
unfoldable pub is_named : Text → Bool
is_named [] = false
is_named (_ ∷ _) = true

unfoldable pub phase_index : Text → ℕ
phase_index phase =
    if same (upper phase) (text "B") then 1 else if same (upper phase) (text "C") then 2 else 0

-- The keyword arguments of `_emit`.
pub record Emission (F : Type 0) : Type 0 where
  pub weights : List (Text × F)
  pub pace : Bool
  pub single_phase : Option Text
  pub last_target : Option F
  pub intent_reading : Option F
  pub limited : Bool

module _ {F : Type 0} ⦃fl : Float F⦄ where
  unfoldable pub to_grid_reading : F → F → F
  to_grid_reading target reported = target -F reported

  -- `x if y is None else y`.
  abbrev pub unless : Option F → F → F
  unless set x = elim set [ none ↦ x | some y ↦ y ]

  -- The reading on one phase.
  abbrev pub on_phase : ℕ → F → List F
  on_phase p reading =
      if p == 1
      then nought ∷ reading ∷ nought ∷ []
      else if p == 2
      then nought ∷ nought ∷ reading ∷ []
      else reading ∷ nought ∷ nought ∷ []

  -- The weight on the phase `p`; a phase that is neither A, B nor C counts as A.
  unfoldable pub phase_weight : ℕ → List (Text × F) → F → Reports F → F
  phase_weight p weights acc [] = acc
  phase_weight p weights acc ((cid, report) ∷ reports) =
      let own : ℕ =
        if same report.phase (text "B") then 1 else if same report.phase (text "C") then 2 else 0 in
      let mine = own == p in
      phase_weight p weights (if mine then acc +F unless (get cid weights) (whole 1) else acc)
        reports

  -- `_split_by_phase`.
  unfoldable pub split_by_phase : F → Reports F → List (Text × F) → List F
  unfolding phase_weight
  split_by_phase target reports weights =
      let a = phase_weight 0 weights nought reports in
      let b = phase_weight 1 weights nought reports in
      let c = phase_weight 2 weights nought reports in
      let total = nought +F a +F b +F c in
      if total ≤F nought
      then target ∷ nought ∷ nought ∷ []
      else target *F (a /F total) ∷ target *F (b /F total) ∷ target *F (c /F total) ∷ []

  -- The output that the maximum of a battery leaves of the desired one.
  unfoldable pub limited_output : LoadBalancer F → ConsumerReport F → F → F
  unfolding sign
  limited_output b report desired =
      let side = fl.of_int (sign desired) in
      elim (max_power b report (sign desired)) [
        | none ↦ desired
        | some cap ↦ if cap <F desired *F side then cap *F side else desired
      ]

  -- `_pace_reading` on the state of the pool.
  unfoldable pub paced : Reports F → F → Text → F → F → LoadBalancer F → LoadBalancer F × F
  unfolding pace_reading change state_of
  paced reports now cid reading reported b =
      let can_stall = needs_dc_output_floor (report_of reports cid).device_type in
      let (s, out) = pace_reading b.cfg can_stall now reading reported (state_of b cid) in
      (change (λ _. s) cid b, out)

  -- What is noted of a target.
  unfoldable pub note_intent : Emission F → F → F → F → ConsumerState F → ConsumerState F
  note_intent e asked unpaced reading s = record s {
    last_target = some (unless e.last_target reading);
    last_intent = some asked;
    last_intent_reading = some (unless e.intent_reading unpaced);
  }

  -- The output that is asked for, and the pool and the reading after the pace.
  unfoldable pub asked_of : LoadBalancer F → Reports F → Text → Bool → F → F
  asked_of b reports cid limited desired =
      if limited && is_named cid then limited_output b (report_of reports cid) desired else desired

  unfoldable pub moved_by :
      Bool → Reports F → F → Text → F → F → LoadBalancer F → LoadBalancer F × F
  moved_by pace reports now cid unpaced reported b =
      if pace && is_named cid then paced reports now cid unpaced reported b else (b, unpaced)

  -- `_emit`: the pool after it and the readings of the three phases.
  unfoldable pub emit :
      Text → F → F → Reports F → Emission F → F → LoadBalancer F → LoadBalancer F × List F
  emit cid desired reported reports e now b =
      let asked = asked_of b reports cid e.limited desired in
      let unpaced = to_grid_reading asked reported in
      let (after, reading) = moved_by e.pace reports now cid unpaced reported b in
      (
        if is_named cid then change (note_intent e asked unpaced reading) cid after else after,
        elim e.single_phase [
          | none ↦ split_by_phase reading reports e.weights
          | some p ↦ on_phase (phase_index p) reading
        ],
      )

  abbrev pub plainly : Emission F
  plainly = record {
    weights = [];
    pace = false;
    single_phase = none;
    last_target = none;
    intent_reading = none;
    limited = true;
  }

  -- `_steer_to_zero`.
  unfoldable pub steer_to_zero :
      Text → Reports F → Bool → F → LoadBalancer F → LoadBalancer F × List F
  steer_to_zero cid reports slow now b =
      let report = report_of reports cid in
      emit cid nought (fl.of_int report.power) reports
        (record plainly {
          pace = slow;
          single_phase = some report.phase;
          last_target = if slow then none else some nought;
          intent_reading = some nought;
        })
        now b

  -- `_effective_min_dc_output`.
  unfoldable pub effective_min_dc_output : LoadBalancer F → Reports F → Text → F
  effective_min_dc_output b reports cid =
      let report = report_of reports cid in
      unless report.min_dc_output
        (if needs_dc_output_floor report.device_type then b.cfg.min_dc_output else nought)

  -- `_apply_min_dc_output`.
  unfoldable pub apply_min_dc_output :
      Text → Reports F → List F → F → LoadBalancer F → LoadBalancer F × List F
  apply_min_dc_output cid reports result now b =
      let floor = effective_min_dc_output b reports cid in
      let report = report_of reports cid in
      let reported = fl.of_int report.power in
      let parked = report.weight ≤F nought && nought ≤F report.weight in
      let lifted =
        emit cid floor reported reports (record plainly { single_phase = some report.phase }) now
          b in
      if not (is_named cid) || not (elem cid (keys reports)) || floor ≤F nought
      then (b, result)
      else if parked || floor ≤F reported +F fsum nought result
      then (b, result)
      else lifted

  -- `_min_power` and `_start_power`.
  unfoldable pub min_power : LoadBalancer F → ConsumerReport F → ℤ → F
  min_power b report dir =
      if ltb_ℤ (pos 0) dir
      then unless report.min_discharge_power b.cfg.min_discharge_power
      else if ltb_ℤ dir (pos 0)
      then unless report.min_charge_power b.cfg.min_charge_power
      else nought

  unfoldable pub start_power : LoadBalancer F → ConsumerReport F → ℤ → F → F
  start_power b report dir minimum =
      let start : F = elim b.cfg.min_power_hysteresis [
        | none ↦ minimum *F fl.decimal (pos 12) 1
        | some gap ↦ minimum +F gap
      ] in
      let capped : F = elim (max_power b report dir) [
        | none ↦ start
        | some cap ↦ if minimum ≤F cap then fmin start cap else start
      ] in
      if minimum ≤F nought then nought else capped
