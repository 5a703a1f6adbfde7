-- ===== src/Balancer/Handoff.antt =====
-- The targets of src/astrameter/ct002/balancer.py while a handoff is under way: of a probe
-- (`_compute_probe_target`), of a fade (`_fading_target`) and of a battery of the standby reserve
-- (`_spill_target`).
use astra_meter.Prelude.{
  Bool, true, ◌&&◌, ◌||◌, not, List, [], ◌∷◌, ◌++◌, Option, none, some, if◌then◌else◌, filter, ltb,
  map,
}
use astra_meter.Prelude.Int.{ℤ, pos, neg, abs}
use astra_meter.Prelude.Text.{Text, same, elem}
use astra_meter.Prelude.Dict.{get, put, keys}
use astra_meter.Prelude.Float.{Float, ◌<F◌, ◌≤F◌, ◌+F◌, ◌-F◌, ◌*F◌, ◌/F◌, nought, whole, fmax, fabs}
use astra_meter.Balancer.State.{report_of}
use astra_meter.Balancer.Pool.{LoadBalancer, ProbeState, state_of}
use astra_meter.Balancer.Order.{Reports}
use astra_meter.Balancer.Probe.{sum_power, next_probe_requested_abs}
use astra_meter.Balancer.Shares.{weighted_share}
use astra_meter.Balancer.Spill.{spill_takes, spill_delivery}
use astra_meter.Balancer.Steer.{emit, steer_to_zero, plainly, unless}
use astra_meter.Balancer.Correction.{balance_correction}

-- The last member.
abbrev pub last_of : List Text → Text
last_of [] = []
last_of (x ∷ []) = x
last_of (x ∷ y ∷ ys) = last_of (y ∷ ys)

module _ {F : Type 0} ⦃fl : Float F⦄ where
  -- `_compute_desired_contribution`.
  unfoldable pub desired_contribution : LoadBalancer F → Text → Reports F → List (Text × F) → F → F
  desired_contribution b cid reports weights desired_total =
      let fair = weighted_share desired_total weights (keys reports) (some cid) in
      let deadband = b.cfg.balance_deadband in
      if not b.cfg.fair_distribution
        || not (elem cid (keys reports))
        || (nought <F deadband && fabs desired_total <F deadband)
      then fair
      else balance_correction b cid reports weights fair

  -- The reports of the batteries that back a probe.
  unfoldable pub reports_of : Reports F → Reports F → List Text → Reports F
  reports_of reports acc [] = acc
  reports_of reports acc (cid ∷ ids) =
      reports_of reports
        (if elem cid (keys reports) then put cid (report_of reports cid) acc else acc) ids

  unfoldable pub support_reports : Reports F → ProbeState F → Reports F
  support_reports reports p =
      reports_of reports []
        (p.backup_ids ++ filter (λ cid. not (same cid p.candidate_id)) p.active_ids)

  -- The output that the candidate of a probe is asked for.
  unfoldable pub desired_probe : LoadBalancer F → ProbeState F → F → ℤ → F
  desired_probe b p desired_total actual =
      let top = fmax (fabs desired_total) b.cfg.probe_min_power in
      let next = next_probe_requested_abs b p.requested_power_abs top in
      let size = fmax (whole (abs actual)) next in
      if nought <F desired_total
      then size
      else if desired_total <F nought
      then nought -F size
      else if nought <F p.requested_power_abs
      then fmax nought (p.requested_power_abs -F b.probe_success_threshold)
      else nought

  -- The target of a battery that backs the probe.
  unfoldable pub backup_target :
      Text
      → Reports F
      → List (Text × F)
      → ProbeState F
      → F
      → ℤ
      → F
      → LoadBalancer F
      → LoadBalancer F × List F
  backup_target cid reports eff_part p desired_total actual now b =
      let support = support_reports reports p in
      let weights =
        map
          (λ (c, r).
            (c, fmax (fl.decimal (pos 1) 2) (unless (get c eff_part) (whole 1)) *F r.weight))
          support in
      let qualified : ℤ = if ltb 0 p.proof_samples then actual else pos 0 in
      let desired =
        desired_contribution b cid support weights (desired_total -F fl.of_int qualified) in
      emit cid desired (fl.of_int (report_of support cid).power) support
        (record plainly { weights = weights }) now b

  unfoldable pub candidate_target :
      Text → Reports F → ProbeState F → F → ℤ → F → LoadBalancer F → LoadBalancer F × List F
  candidate_target cid reports p desired_total actual now b =
      let desired = desired_probe b p desired_total actual in
      let asked = record b {
        probe_state = some (record p { requested_power_abs = fabs desired });
      } in
      emit cid desired (fl.of_int actual) ((cid, report_of reports cid) ∷ []) plainly now asked

  -- `_compute_probe_target`: nothing where no probe concerns the battery.
  unfoldable pub probe_target :
      Text → Reports F → F → List (Text × F) → F → LoadBalancer F → Option (LoadBalancer F × List F)
  probe_target cid reports grid_total eff_part now b = elim b.probe_state [
    | none ↦ none
    | some p ↦
        let total =
          fl.of_int (sum_power reports) +F grid_total -F spill_delivery b reports grid_total in
        let actual = (report_of reports p.candidate_id).power in
        if not (elem p.candidate_id (keys reports))
        then none
        else if same cid p.candidate_id
        then some (candidate_target cid reports p total actual now b)
        else if elem cid (keys (support_reports reports p))
        then some (backup_target cid reports eff_part p total actual now b)
        else none
  ]

  unfoldable pub total_fade : LoadBalancer F → F → List Text → F
  total_fade b acc [] = acc
  total_fade b acc (cid ∷ ids) = total_fade b (acc +F (state_of b cid).fade_weight) ids

  -- `_fading_target`.
  unfoldable pub fading_target :
      Text → Reports F → F → List (Text × F) → F → LoadBalancer F → LoadBalancer F × List F
  fading_target cid reports grid_total eff_part now b =
      let weight = (state_of b cid).fade_weight in
      let demand = fl.of_int (sum_power reports) +F grid_total in
      let total = total_fade b nought (keys reports) in
      let desired = if nought <F total then (demand *F weight) /F total else nought in
      if weight ≤F nought && nought ≤F weight
      then steer_to_zero cid reports true now b
      else emit cid desired (fl.of_int (report_of reports cid).power) reports
          (record plainly { weights = eff_part; pace = true }) now b

  -- `_spill_target`: what a battery of the reserve takes, and the target.
  unfoldable pub spill_take : LoadBalancer F → Text → Reports F → F → Bool → F
  spill_take b cid reports error hold =
      let against = error *F fl.of_int b.spill_dir in
      let gives = not hold || against <F fl.of_int (neg (pos 30)) in
      if against <F nought
      then (if gives then unless (get cid (spill_takes b reports error)) nought else nought)
      else if not hold && same cid (last_of b.spilling)
      then error
      else nought

  unfoldable pub spill_target :
      Text → Reports F → F → Bool → F → LoadBalancer F → LoadBalancer F × List F
  spill_target cid reports error hold now b =
      let reported = fl.of_int (report_of reports cid).power in
      let sum = reported +F spill_take b cid reports error hold in
      let desired = if sum *F fl.of_int b.spill_dir <F nought then nought else sum in
      let stays = desired ≤F reported && reported ≤F desired in
      emit cid desired reported reports (record plainly { pace = not stays }) now b
