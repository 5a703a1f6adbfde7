-- ===== src/Balancer/Residual.antt =====
-- `_residual_share` of src/astrameter/ct002/balancer.py: what a battery changes its output by, with
-- the unloading of the standby reserve and the retest of a ceiling.
use astra_meter.Prelude.{
  Bool, false, ◌&&◌, ◌||◌, not, List, [], none, some, if◌then◌else◌, ltb, length, filter,
}
use astra_meter.Prelude.Int.{eqb_ℤ, ℤ, pos, neg}
use astra_meter.Prelude.Text.{Text, elem}
use astra_meter.Prelude.Dict.{get, keys, del}
use astra_meter.Prelude.Float.{Float, ◌<F◌, ◌≤F◌, ◌+F◌, ◌-F◌, ◌*F◌, nought, whole, fmax}
use astra_meter.Balancer.State.{sign, report_of, ceiling, ceiling_seen}
use astra_meter.Balancer.Pool.{LoadBalancer}
use astra_meter.Balancer.Order.{Reports}
use astra_meter.Balancer.Rotation.{sum_power_of}
use astra_meter.Balancer.Limits.{ceilings}
use astra_meter.Balancer.Spill.{spill_takes, sum_takes}
use astra_meter.Balancer.Correction.{
  share_weights, capped_share, pinned, fair_share, participating, balance_correction,
  concentrated_share,
}

module _ {F : Type 0} ⦃fl : Float F⦄ where
  -- `_unload_lifo`.
  unfoldable pub unload_lifo : LoadBalancer F → Text → Reports F → F → List (Text × F) → F
  unload_lifo b cid reports control_grid eff_part =
      let given = spill_takes b reports control_grid in
      let remaining = control_grid -F sum_takes given nought in
      let ahead = filter (λ (c, _). not (elem c (keys given))) eff_part in
      elim (get cid given) [
        | none ↦ fair_share b cid reports remaining ahead []
        | some share ↦ share
      ]

  -- `_ceiling_retest`: whether to push, in the direction of the pool.
  unfoldable pub retests : LoadBalancer F → Text → Reports F → List (Text × F) → F → F → ℤ → Bool
  retests b cid reports eff_part control_grid now dir =
      let ids = participating reports eff_part in
      let side = fl.of_int dir in
      let power = fl.of_int (report_of reports cid).power in
      let others = del cid (ceilings b reports dir ids) in
      let total = fl.of_int (sum_power_of reports ids) in
      let share = capped_share total (share_weights b reports ids) ids others cid in
      elim (get cid b.consumers) [
        | none ↦ false
        | some s ↦
            let top = ceiling s dir in
            let early =
              top ≤F nought
              || power *F side <F top -F whole 25
              || now -F ceiling_seen s dir <F whole 60
              || control_grid *F side <F fl.of_int (neg (pos 50)) in
            elem cid (keys reports)
            && elem cid ids
            && not early
            && whole 25 ≤F (share -F power) *F side
      ]

  unfoldable pub ceiling_retest : LoadBalancer F → Text → Reports F → List (Text × F) → F → F → ℤ
  ceiling_retest b cid reports eff_part control_grid now =
      let dir = sign (fl.of_int (sum_power_of reports (participating reports eff_part))) in
      if retests b cid reports eff_part control_grid now dir then dir else pos 0

  -- The share of the grid's error, which never goes against the grid.
  unfoldable pub tracking : F → F → F
  tracking control_grid share =
      if (control_grid <F nought && nought <F share) || (nought <F control_grid && share <F nought)
      then nought
      else share

  -- A retest pushes by 30 W at least.
  unfoldable pub pushed_by : ℤ → F → F
  pushed_by push out =
      let side = fl.of_int push in
      if not (eqb_ℤ push (pos 0)) then side *F fmax (out *F side) (whole 30) else out

  -- The share, from the batteries at their ceiling on.
  unfoldable pub balanced_share :
      LoadBalancer F → Text → Reports F → F → List (Text × F) → List Text → F
  balanced_share b cid reports control_grid eff_part charge_blind =
      let stuck = pinned b reports (keys eff_part) (sign control_grid) in
      let fair = fair_share b cid reports control_grid eff_part stuck in
      let corrected = balance_correction b cid reports eff_part fair in
      let takes_part =
        b.cfg.fair_distribution && elem cid (keys reports) && elem cid (keys eff_part) in
      elim (concentrated_share b cid reports control_grid eff_part charge_blind stuck) [
        | some share ↦ tracking control_grid share +F (share -F share)
        | none ↦ tracking control_grid fair +F ((if takes_part then corrected else fair) -F fair)
      ]

  -- `_residual_share`.
  unfoldable pub residual_share :
      LoadBalancer F → Text → Reports F → F → List (Text × F) → List Text → F → F
  residual_share b cid reports control_grid eff_part charge_blind now =
      let unloads =
        ltb 0 (length b.spilling)
        && control_grid *F fl.of_int b.spill_dir <F fl.of_int (neg (pos 30)) in
      let out = balanced_share b cid reports control_grid eff_part charge_blind in
      let push = ceiling_retest b cid reports eff_part control_grid now in
      if unloads then unload_lifo b cid reports control_grid eff_part else pushed_by push out
