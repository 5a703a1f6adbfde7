-- ===== src/Balancer/Target.antt =====
-- The target of one battery: `_compute_auto_target` and `compute_target` of
-- src/astrameter/ct002/balancer.py, with `_track_saturation`. What one poll allocates by is a record;
-- the early returns of the source are the branches of `steered` and `auto_target`.
pub mod Modes
use astra_meter.Prelude.{
  Bool, true, false, ◌&&◌, ◌||◌, not, List, [], ◌∷◌, Option, none, some, if◌then◌else◌, filter, any,
  map, ltb, length,
}
use astra_meter.Prelude.Int.{ℤ, pos, ltb_ℤ}
use astra_meter.Prelude.Text.{Text, elem}
use astra_meter.Prelude.Dict.{get, put, keys}
use astra_meter.Prelude.Float.{Float, ◌<F◌, ◌≤F◌, ◌+F◌, ◌-F◌, ◌*F◌, nought, whole, fmax}
use astra_meter.Balancer.State.{
  ConsumerState, Mode, auto, manual, inactive, report_of, saturation_floor,
}
use astra_meter.Balancer.Saturation.{update}
use astra_meter.Balancer.Pool.{
  LoadBalancer, state_of, change, probe_participants, clear_probe_state,
}
use astra_meter.Balancer.Order.{Reports}
use astra_meter.Balancer.Probe.{without}
use astra_meter.Balancer.Active.{compute_efficiency_deprioritized, fade_efficiency_weights}
use astra_meter.Balancer.Limits.{is_judged, track_ceiling}
use astra_meter.Balancer.Spill.{update_spill}
use astra_meter.Balancer.Pace.{damp_oscillation}
use astra_meter.Balancer.Steer.{
  Emission, emit, steer_to_zero, apply_min_dc_output, effective_min_dc_output, plainly, is_named,
  unless,
}
use astra_meter.Balancer.Residual.{residual_share}
use astra_meter.Balancer.MinPower.{below_min_power}
use astra_meter.Balancer.Headroom.{observe, charge_blind_of}
use astra_meter.Balancer.Handoff.{probe_target, fading_target, spill_target}

-- What a poll allocates the demand by.
pub record Allocation (F : Type 0) : Type 0 where
  pub grid_total : F
  pub demand_grid : F
  pub control_grid : F
  pub charge_blind : List Text
  pub spill : List Text
  pub faded : List (Text × F)
  pub eff_part : List (Text × F)

module _ {F : Type 0} ⦃fl : Float F⦄ where
  abbrev pub is_nought : F → Bool
  is_nought w = w ≤F nought && nought ≤F w

  -- The value `w` for each of `ids`.
  unfoldable pub put_all : F → List Text → List (Text × F) → List (Text × F)
  put_all w [] parts = parts
  put_all w (cid ∷ ids) parts = put_all w ids (put cid w parts)

  -- The share weights by how well the batteries follow.
  unfoldable pub health : LoadBalancer F → Reports F → List (Text × F)
  health b reports =
      map
        (λ cid.
          let score : F = elim (get cid b.consumers) [
            | none ↦ nought
            | some s ↦ s.saturation_score
          ] in
          (cid, fmax (fl.decimal (pos 1) 2) (whole 1 -F score)))
        (keys reports)

  unfoldable pub any_fading : List (Text × F) → Bool
  any_fading weights = any (λ (_, w). nought <F w && w <F whole 1) weights

  -- The batteries that a fade has taken out and the reserve has not called.
  unfoldable pub faded_out : Allocation F → List Text
  faded_out a =
      filter
        (λ cid.
          is_nought (unless (get cid a.faded) (whole 1))
          && elem cid (keys a.eff_part)
          && not (elem cid a.spill))
        (keys a.faded)

  -- From the estimate of the grid to the shares: what the pool decides once per poll.
  unfoldable pub allocate :
      Reports F → F → List F → F → F → F → LoadBalancer F → LoadBalancer F × Allocation F
  allocate reports grid_total sample_id demand_grid control_grid now b =
      let blind = charge_blind_of reports grid_total in
      let healthy = put_all nought blind (health b reports) in
      let (chosen, raw) = compute_efficiency_deprioritized reports sample_id grid_total now b in
      let (stepped, faded) = fade_efficiency_weights raw (keys reports) now chosen in
      let (reserved, spill) = update_spill reports control_grid faded blind now stepped in
      let discharging = ltb 0 (length spill) && ltb_ℤ (pos 0) reserved.spill_dir in
      (
        reserved,
        record {
          grid_total = grid_total;
          demand_grid = demand_grid;
          control_grid = control_grid;
          charge_blind = if discharging then without blind spill else blind;
          spill = spill;
          faded = faded;
          eff_part = put_all (whole 1) spill healthy;
        },
      )

  -- The regulation loop's target of a battery that takes a share.
  unfoldable pub regulated :
      Text
      → Reports F
      → Allocation F
      → List (Text × F)
      → F
      → LoadBalancer F
      → LoadBalancer F × List F
  regulated cid reports a eff_part now b =
      let share = residual_share b cid reports a.control_grid eff_part a.charge_blind now in
      let (s, damped) = damp_oscillation b.cfg share (state_of b cid) in
      let residual = if is_named cid then damped else share in
      let reported = fl.of_int (report_of reports cid).power in
      let crosses = elem cid a.spill && (reported +F residual) *F fl.of_int b.spill_dir <F nought in
      emit cid (reported +F (if crosses then nought -F reported else residual)) reported reports
        (record plainly { weights = eff_part; pace = true }) now
        (if is_named cid then change (λ _. s) cid b else b)

  -- From the minimum power on.
  unfoldable pub shared :
      Text
      → Reports F
      → Allocation F
      → List (Text × F)
      → F
      → LoadBalancer F
      → LoadBalancer F × List F
  shared cid reports a eff_part now b =
      let (judged, idle) = below_min_power reports a.demand_grid eff_part a.spill b in
      if elem cid idle
      then steer_to_zero cid reports true now judged
      else regulated cid reports a (put_all nought idle eff_part) now judged

  -- From the charge-blind batteries on, where no probe concerns the battery.
  unfoldable pub steered :
      Text → Reports F → Allocation F → F → LoadBalancer F → LoadBalancer F × List F
  steered cid reports a now b =
      let named = is_named cid in
      let probing : Bool = elim b.probe_state [ none ↦ false | some _ ↦ true ] in
      let out = faded_out a in
      let gone = is_nought (unless (get cid a.faded) (whole 1)) in
      if named && elem cid a.charge_blind
      then steer_to_zero cid reports true now b
      else if named && elem cid a.spill && probing
      then spill_target cid reports a.grid_total true now b
      else if named && elem cid a.spill && any_fading a.faded
      then spill_target cid reports a.control_grid false now b
      else if named && any_fading a.faded
      then fading_target cid reports a.grid_total a.eff_part now b
      else if named && gone && not (elem cid a.spill)
      then steer_to_zero cid reports true now b
      else shared cid reports a (put_all nought out a.eff_part) now b

  -- A parked battery, or one that shall hold at zero, gives up its probe and winds down.
  unfoldable pub winds_down : Text → Reports F → Bool → Bool
  winds_down cid reports hold_at_zero =
      let parked = elem cid (keys reports) && is_nought (report_of reports cid).weight in
      is_named cid && (parked || hold_at_zero)

  unfoldable pub wound_down : Text → Reports F → F → LoadBalancer F → LoadBalancer F × List F
  wound_down cid reports now b =
      steer_to_zero cid reports true now
        (if elem cid (probe_participants b) then clear_probe_state b else b)

  -- `_compute_auto_target`.
  unfoldable pub auto_target :
      Text → Reports F → F → List F → Bool → F → LoadBalancer F → LoadBalancer F × List F
  auto_target cid reports grid_total sample_id hold_at_zero now b =
      let (seen, demand_grid, control_grid) = observe reports grid_total sample_id now b in
      let (ready, a) = allocate reports grid_total sample_id demand_grid control_grid now seen in
      let probed =
        if is_named cid then probe_target cid reports grid_total a.eff_part now ready else none in
      if winds_down cid reports hold_at_zero
      then wound_down cid reports now seen
      else elim probed [ some result ↦ result | none ↦ steered cid reports a now ready ]

  -- `_track_saturation`, and the score of one battery.
  unfoldable pub scored : LoadBalancer F → Reports F → Text → F → ConsumerState F → ConsumerState F
  scored b reports cid now s =
      let report = report_of reports cid in
      let floor = saturation_floor s report (effective_min_dc_output b reports cid) in
      update b.saturation s s.last_intent_reading (fl.of_int report.power) floor now

  unfoldable pub track_saturation : Text → Mode → Reports F → F → LoadBalancer F → LoadBalancer F
  track_saturation cid mode reports now b =
      if is_judged cid mode reports b then change (scored b reports cid now) cid b else b

  -- The reports of the batteries that `ids` does not hold.
  unfoldable pub excluding : List Text → Reports F → Reports F
  excluding ids reports = filter (λ (cid, _). not (elem cid ids)) reports

  -- What `compute_target` keeps of the reports of an automatic or a manual battery.
  unfoldable pub tracked_pool :
      Text → Mode → Reports F → List Text → F → LoadBalancer F → LoadBalancer F
  tracked_pool cid mode active by_hand now b =
      let known = change (λ s. s) cid b in
      if is_named cid
      then track_ceiling cid mode (excluding by_hand active) now
          (track_saturation cid mode active now known)
      else b

  -- `compute_target`, with the value of the mode and the sets of the inactive and manual batteries.
  unfoldable pub compute_target :
      Text
      → Mode
      → F
      → Reports F
      → F
      → List Text
      → List Text
      → List F
      → Bool
      → F
      → LoadBalancer F
      → LoadBalancer F × List F
  compute_target cid mode manual_value all_reports grid_total paused by_hand sample_id hold now b =
      let active = excluding paused all_reports in
      let reports = excluding by_hand active in
      let tracked = tracked_pool cid mode active by_hand now b in
      let (aimed, result) = auto_target cid reports grid_total sample_id hold now tracked in
      let automatic = apply_min_dc_output cid reports result now aimed in
      let reported = fl.of_int (report_of active cid).power in
      elim mode [
        | inactive ↦ steer_to_zero cid all_reports false now b
        | manual ↦
            if is_named cid
            then emit cid manual_value reported active (record plainly { limited = false }) now
                tracked
            else automatic
        | auto ↦ automatic
      ]
