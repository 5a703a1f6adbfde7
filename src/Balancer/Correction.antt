-- ===== src/Balancer/Correction.antt =====
-- What share of the grid's error a battery takes: the terms that `_residual_share` of
-- src/astrameter/ct002/balancer.py adds up, with the concentration of a small error on one battery.
use astra_meter.Prelude.{
  Bool, false, ◌&&◌, ◌||◌, not, List, [], ◌∷◌, Option, none, some, if◌then◌else◌, ltb, length,
  filter, map,
}
use astra_meter.Prelude.Int.{abs, ℤ, pos, ◌*ℤ◌}
use astra_meter.Prelude.Text.{Text, same, elem, text_lt}
use astra_meter.Prelude.Dict.{get, keys}
use astra_meter.Prelude.Float.{
  Float, ◌<F◌, ◌≤F◌, ◌+F◌, ◌-F◌, ◌*F◌, ◌/F◌, nought, whole, fmax, fmin, fabs,
}
use astra_meter.Balancer.State.{sign, report_of}
use astra_meter.Balancer.Config.{Config}
use astra_meter.Balancer.Pool.{LoadBalancer}
use astra_meter.Balancer.Order.{Reports}
use astra_meter.Balancer.Rotation.{sum_power_of}
use astra_meter.Balancer.Shares.{capped_weighted_share}
use astra_meter.Balancer.Limits.{ceilings}
use astra_meter.Balancer.Steer.{unless}

module _ {F : Type 0} ⦃fl : Float F⦄ where
  -- `_share_weight`.
  unfoldable pub share_weight : LoadBalancer F → Reports F → Text → F
  share_weight b reports cid =
      let weight = (report_of reports cid).weight in
      elim (get cid b.spill_scale) [ none ↦ weight | some scale ↦ weight *F scale ]

  unfoldable pub share_weights : LoadBalancer F → Reports F → List Text → List (Text × F)
  unfolding share_weight
  share_weights b reports ids = map (λ cid. (cid, share_weight b reports cid)) ids

  -- `capped_weighted_share`, which always comes to a share.
  unfoldable pub capped_share : F → List (Text × F) → List Text → List (Text × F) → Text → F
  unfolding capped_weighted_share
  capped_share total weights ids tops cid =
      unless (capped_weighted_share total weights ids tops (some cid)) nought

  -- `_pinned`.
  unfoldable pub pinned : LoadBalancer F → Reports F → List Text → ℤ → List Text
  unfolding ceilings
  pinned b reports ids dir = keys (
      filter (λ (cid, top). top -F whole 25 ≤F fl.of_int ((report_of reports cid).power *ℤ dir))
        (ceilings b reports dir ids))

  -- The values of a mapping, of the batteries that `stuck` does not hold.
  unfoldable pub sum_free : List Text → F → List (Text × F) → F
  sum_free stuck acc [] = acc
  sum_free stuck acc ((cid, v) ∷ parts) =
      sum_free stuck (if elem cid stuck then acc else acc +F v) parts

  -- `_fair_share`.
  unfoldable pub fair_share :
      LoadBalancer F → Text → Reports F → F → List (Text × F) → List Text → F
  unfolding share_weight sum_free
  fair_share b cid reports control_grid eff_part stuck =
      let parts = map (λ (c, v). (c, v *F share_weight b reports c)) eff_part in
      let total = sum_free [] nought parts in
      let free = sum_free stuck nought parts in
      let mine = unless (get cid parts) (whole 1) in
      let members = if ltb 1 (length reports) then length reports else 1 in
      if elem cid (keys reports) && nought <F total
      then (if not (elem cid stuck) && nought <F free
          then (control_grid /F free) *F mine
          else (control_grid /F total) *F mine)
      else control_grid /F whole members

  -- The correction that an error gets: the gain by its size, and the largest step.
  unfoldable pub correction : Config F → F → F
  correction cfg error =
      let size = fabs error in
      let boost = fmin (size /F cfg.error_boost_threshold) (whole 1) *F cfg.error_boost_max in
      let gain =
        if nought <F cfg.error_reduce_threshold && size <F cfg.error_reduce_threshold
        then cfg.balance_gain *F (size /F cfg.error_reduce_threshold)
        else if nought <F cfg.error_boost_threshold && nought <F cfg.error_boost_max
        then cfg.balance_gain *F (whole 1 +F boost)
        else cfg.balance_gain in
      let step = gain *F error in
      let cap = cfg.max_correction_per_step in
      if nought <F cap then fmax (nought -F cap) (fmin cap step) else step

  -- The batteries that take part.
  unfoldable pub participating : Reports F → List (Text × F) → List Text
  participating reports eff_part =
      filter (λ cid. fl.decimal (pos 1) 1 <F unless (get cid eff_part) (whole 1)) (keys reports)

  -- What a battery is short of its share of the pool's output.
  unfoldable pub imbalance : LoadBalancer F → Reports F → List Text → Text → F
  unfolding capped_share share_weights ceilings sum_power_of sign
  imbalance b reports ids cid =
      let total = fl.of_int (sum_power_of reports ids) in
      capped_share total (share_weights b reports ids) ids (ceilings b reports (sign total) ids) cid
      -F fl.of_int (report_of reports cid).power

  -- `_balance_correction`.
  unfoldable pub balance_correction : LoadBalancer F → Text → Reports F → List (Text × F) → F → F
  unfolding participating imbalance correction
  balance_correction b cid reports eff_part share =
      let cfg = b.cfg in
      let ids = participating reports eff_part in
      let actual = fl.of_int (report_of reports cid).power in
      let error = imbalance b reports ids cid in
      let target = share +F correction cfg error in
      let step = cfg.max_target_step in
      if not (ltb 0 (length ids))
      then share
      else if nought <F cfg.balance_deadband && fabs error <F cfg.balance_deadband
      then share
      else if nought <F step
      then fmax (actual -F step) (fmin (actual +F step) target)
      else target

  -- `_concentration_pool_balanced`.
  unfoldable pub concentration_pool_balanced : LoadBalancer F → Reports F → List Text → Bool
  unfolding imbalance
  concentration_pool_balanced b reports ids =
      let out = filter (λ cid. b.cfg.balance_deadband ≤F fabs (imbalance b reports ids cid)) ids in
      nought <F b.cfg.balance_deadband && not (ltb 0 (length out))

  -- The battery of the largest output; of two, the one with the larger name.
  unfoldable pub most_active : Reports F → Text → List Text → Text
  most_active reports best [] = best
  most_active reports best (cid ∷ ids) =
      let mine = abs (report_of reports cid).power in
      let top = abs (report_of reports best).power in
      let better = ltb top mine || (not (ltb mine top) && text_lt best cid) in
      most_active reports (if better then cid else best) ids

  unfoldable pub on_one_phase : Reports F → List Text → Bool
  on_one_phase reports [] = false
  on_one_phase reports (cid ∷ ids) =
      let phase = (report_of reports cid).phase in
      not (ltb 0 (length (filter (λ c. not (same (report_of reports c).phase phase)) ids)))

  unfoldable pub concentrable : Reports F → List (Text × F) → List Text → List Text → List Text
  concentrable reports eff_part charge_blind stuck =
      filter
        (λ cid.
          not (elem cid charge_blind)
          && not (elem cid stuck)
          && fl.decimal (pos 1) 1 <F unless (get cid eff_part) nought
          && nought <F (report_of reports cid).weight)
        (keys reports)

  -- `_concentrated_share`.
  unfoldable pub concentrated_share :
      LoadBalancer F → Text → Reports F → F → List (Text × F) → List Text → List Text → Option F
  unfolding concentrable on_one_phase concentration_pool_balanced most_active
  concentrated_share b cid reports control_grid eff_part charge_blind stuck =
      let ids = concentrable reports eff_part charge_blind stuck in
      let applies =
        b.cfg.fair_distribution
        && nought <F b.cfg.concentrate_deadband
        && ltb 1 (length ids)
        && elem cid ids
        && nought <F fabs control_grid
        && fabs control_grid <F b.cfg.concentrate_deadband
        && on_one_phase reports ids
        && concentration_pool_balanced b reports ids in
      let designated = most_active reports cid ids in
      if applies then some (if same cid designated then control_grid else nought) else none
