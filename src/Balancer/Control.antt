-- ===== src/Balancer/Control.antt =====
-- The estimate of the grid that the loop of src/astrameter/ct002/balancer.py acts on: the prediction
-- that makes up for the meter's delay (`_predict_control_grid`) and the trim of a small steady import
-- (`_apply_import_trim`). Control holds their state and that of the control quality.
pub mod Trust
use astra_meter.Prelude.{
  ℕ, zero, suc, leb, Bool, true, false, ◌&&◌, ◌||◌, not, Option, none, some, List, [], ◌∷◌,
  if◌then◌else◌,
}
use astra_meter.Prelude.Int.{ℤ, pos, eqb_ℤ}
use astra_meter.Prelude.Float.{Float, ◌<F◌, ◌≤F◌, ◌+F◌, ◌-F◌, ◌*F◌, nought, whole, fmax, fmin, fabs}
use astra_meter.Balancer.State.{sign}
use astra_meter.Balancer.Config.{Config}
use astra_meter.Balancer.Quality.{Quality}

pub record Control (F : Type 0) : Type 0 where
  pub pred_grid : Option F
  pub pred_pool_output : F
  pub pred_sample_id : Option (List F)
  pub pred_trust : F
  pub pred_innov_sign : ℤ
  pub trim_sample_id : List F
  pub steady_import_dwell : ℕ
  pub quality : Quality F

module _ {F : Type 0} ⦃fl : Float F⦄ where
  -- `PRED_TRUST_MIN` and `PRED_TRUST_MAX`.
  abbrev pub trust_min : F
  trust_min = fl.decimal (pos 15) 2

  abbrev pub trust_max : F
  trust_max = fl.decimal (pos 90) 2

  -- A sample is known by the readings that it consists of.
  unfoldable pub same_floats : List F → List F → Bool
  same_floats [] [] = true
  same_floats (a ∷ s) (b ∷ t) = a ≤F b && b ≤F a && same_floats s t
  same_floats _ _ = false

  unfoldable pub is_sample : List F → Option (List F) → Bool
  unfolding same_floats
  is_sample s none = false
  is_sample s (some t) = same_floats s t

  -- The trust after an innovation of the sign `s`.
  unfoldable pub adapted_trust : ℤ → Control F → F
  adapted_trust s c =
      if eqb_ℤ c.pred_innov_sign (pos 0) || eqb_ℤ s c.pred_innov_sign
      then fmin trust_max (c.pred_trust +F fl.decimal (pos 2) 1)
      else fmax trust_min (c.pred_trust *F fl.decimal (pos 5) 1)

  unfoldable pub adapt : F → Control F → Control F
  unfolding adapted_trust sign
  adapt innovation c =
      let s = sign innovation in
      if whole 40 ≤F fabs innovation && not (eqb_ℤ s (pos 0))
      then record c { pred_trust = adapted_trust s c; pred_innov_sign = s }
      else c

  -- The first sample of all.
  unfoldable pub start_prediction : F → F → F → List F → Control F → Control F
  start_prediction trust pool_output grid_total sample_id c = record c {
    pred_grid = some grid_total;
    pred_pool_output = pool_output;
    pred_sample_id = some sample_id;
    pred_trust = fmin trust_max (fmax trust_min trust);
  }

  -- What the pool has changed is credited to the estimate, and a fresh sample pulls it to the meter.
  unfoldable pub advance : F → F → F → List F → Control F → Control F × F
  unfolding adapt is_sample
  advance grid pool_output grid_total sample_id c =
      let estimate = grid -F (pool_output -F c.pred_pool_output) in
      let credited = record c { pred_grid = some estimate; pred_pool_output = pool_output } in
      let innovation = grid_total -F estimate in
      let adapted = adapt innovation (record credited { pred_sample_id = some sample_id }) in
      let pulled = estimate +F adapted.pred_trust *F innovation in
      if is_sample sample_id c.pred_sample_id
      then (credited, estimate)
      else (record adapted { pred_grid = some pulled }, pulled)

  -- `_predict_control_grid`, from the output of the pool on.
  unfoldable pub predict_control_grid : Config F → F → F → List F → Control F → Control F × F
  unfolding start_prediction advance
  predict_control_grid cfg pool_output grid_total sample_id c =
      if cfg.grid_predict_trust ≤F nought then (c, grid_total) else elim c.pred_grid [
        | none ↦
            (start_prediction cfg.grid_predict_trust pool_output grid_total sample_id c, grid_total)
        | some grid ↦ advance grid pool_output grid_total sample_id c
      ]

  -- `_apply_import_trim`.
  unfoldable pub apply_import_trim : Config F → F → Bool → Control F → Control F × F
  apply_import_trim cfg control_grid fresh c =
      let small = nought <F control_grid && control_grid <F whole 120 in
      let dwell : ℕ = if small then suc c.steady_import_dwell else 0 in
      if cfg.import_trim_w ≤F nought || not fresh then (c, control_grid) else (
        record c { steady_import_dwell = dwell },
        if leb 6 dwell then control_grid +F cfg.import_trim_w else control_grid,
      )
