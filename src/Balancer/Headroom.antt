-- ===== src/Balancer/Headroom.antt =====
-- What the pool can still do about the grid: `_charge_blind`, `_cannot_absorb` and
-- `_pool_out_of_headroom` of src/astrameter/ct002/balancer.py, and the poll's estimate of the grid,
-- which the control quality is judged with.
use astra_meter.Prelude.{
  Bool, true, false, ◌&&◌, ◌||◌, not, List, [], none, some, if◌then◌else◌, filter, any, length, ltb,
}
use astra_meter.Prelude.Int.{pos, ltb_ℤ}
use astra_meter.Prelude.Text.{Text}
use astra_meter.Prelude.Dict.{get, keys}
use astra_meter.Prelude.Float.{Float, ◌<F◌, ◌≤F◌, ◌+F◌, ◌-F◌, nought}
use astra_meter.Balancer.State.{is_ac_chargeable}
use astra_meter.Balancer.Quality.{update_quality}
use astra_meter.Balancer.Control.{same_floats, predict_control_grid, apply_import_trim}
use astra_meter.Balancer.Pool.{LoadBalancer}
use astra_meter.Balancer.Order.{Reports}
use astra_meter.Balancer.Probe.{sum_power}
use astra_meter.Balancer.Steer.{effective_min_dc_output}

module _ {F : Type 0} ⦃fl : Float F⦄ where
  -- Whether a battery charges from the grid.
  unfoldable pub any_chargeable : Reports F → Bool
  any_chargeable reports = any (λ (_, r). is_ac_chargeable r.device_type) reports

  -- `_charge_blind`: the batteries that cannot take the surplus.
  unfoldable pub charge_blind_of : Reports F → F → List Text
  unfolding any_chargeable
  charge_blind_of reports grid_total =
      let charging =
        any (λ (_, r). is_ac_chargeable r.device_type && ltb_ℤ r.power (pos 0)) reports in
      let balanced = grid_total ≤F nought && nought ≤F grid_total in
      let surplus = grid_total <F nought || (balanced && charging) in
      if any_chargeable reports && surplus
      then keys (filter (λ (_, r). not (is_ac_chargeable r.device_type)) reports)
      else []

  -- `_cannot_absorb`.
  unfoldable pub cannot_absorb : LoadBalancer F → Reports F → Bool
  unfolding effective_min_dc_output
  cannot_absorb b reports = not (
      any
        (λ (cid, r).
          is_ac_chargeable r.device_type
          || effective_min_dc_output b reports cid +F b.cfg.balance_deadband <F fl.of_int r.power)
        reports)

  -- `_pool_out_of_headroom`.
  unfoldable pub pool_out_of_headroom : LoadBalancer F → Reports F → F → Bool
  unfolding cannot_absorb
  pool_out_of_headroom b reports grid_total =
      let is_full : Text → Bool = λ cid. elim (get cid b.consumers) [
        | none ↦ false
        | some s ↦ fl.decimal (pos 6) 1 ≤F s.saturation_score
      ] in
      let surplus = grid_total <F nought -F b.cfg.balance_deadband in
      if not (ltb 0 (length reports))
      then false
      else if surplus && cannot_absorb b reports
      then true
      else not (any (λ (cid, _). not (is_full cid)) reports)

  -- The head of `_compute_auto_target`: the pool with the poll noted, the estimate of the grid, and
  -- the estimate with the trim.
  unfoldable pub observe : Reports F → F → List F → F → LoadBalancer F → LoadBalancer F × F × F
  unfolding update_quality pool_out_of_headroom predict_control_grid apply_import_trim
  observe reports grid_total sample_id now b =
      let fresh = not (same_floats sample_id b.control.trim_sample_id) in
      let quality =
        update_quality grid_total (ltb 0 (length reports))
          (pool_out_of_headroom b reports grid_total) now b.control.quality in
      let noted = record (b.control) { trim_sample_id = sample_id; quality = quality } in
      let (predicted, demand_grid) =
        predict_control_grid b.cfg (fl.of_int (sum_power reports)) grid_total sample_id noted in
      let (trimmed, control_grid) = apply_import_trim b.cfg demand_grid fresh predicted in
      (record b { control = trimmed }, demand_grid, control_grid)
