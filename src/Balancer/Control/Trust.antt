-- ===== src/Balancer/Control/Trust.antt =====
-- The trust that the prediction has in the meter.
use astra_meter.Prelude.{
  ◌^◌, ◌*◌, Option-cases, ◌≡◌, inl, inr, true, ◌||◌, Bool-cases, List, none, some, arith,
}
use astra_meter.Prelude.Int.{ℤ, pos}
use astra_meter.Prelude.Float.{Float, ◌≤F◌, ◌+F◌, ◌-F◌, ◌*F◌, nought, whole, fmax}
use astra_meter.Prelude.Scale.{IsScaling}
use astra_meter.Prelude.Bounds.{fmax-le, le-fmin, fmin-le_left, le-fmax_left}
use astra_meter.Balancer.Config.{Config}
use astra_meter.Balancer.Control.{
  is_sample, sign, eqb_ℤ, ℕ, Control, trust_min, trust_max, predict_control_grid, adapted_trust,
  adapt, advance, start_prediction,
}

module _ {F : Type 0} ⦃fl : Float F⦄ (law : IsScaling F) where
  -- Once there is an estimate, the trust is from 0.15 to 0.9.
  pub data IsTrusting (c : Control F) : Type 0 where
    unset : c.pred_grid ≡ none → IsTrusting c
    bounded : trust_min ≤F c.pred_trust ≡ true → c.pred_trust ≤F trust_max ≡ true → IsTrusting c

  decimal_zero : (k : ℕ) → fl.decimal (pos 0) k ≡ nought
  decimal_zero k = let z : 0 * 10 ^ k ≡ 0 = omega arith in rw (z) at (law.decimal_whole 0 k)

  decimal_nonneg : (n k : ℕ) → fl.le nought (fl.decimal (pos n) k) ≡ true
  decimal_nonneg n k =
      let e : fl.decimal (pos 0) k ≡ nought = decimal_zero k in
      rw (e) at (law.decimal_mono 0 n k (omega arith))

  min_le_max : fl.le trust_min trust_max ≡ true
  min_le_max = law.decimal_mono 15 90 2 (omega arith)

  half_small : fl.le (fl.decimal (pos 5) 1) (whole 1) ≡ true
  half_small = rw (law.decimal_whole 1 1) at (law.decimal_mono 5 10 1 (omega arith))

  adapted_trust-bounds :
      (s : ℤ) (c : Control F)
      → trust_min ≤F c.pred_trust ≡ true
      → c.pred_trust ≤F trust_max ≡ true
      → (trust_min ≤F adapted_trust s c ≡ true) × (adapted_trust s c ≤F trust_max ≡ true)
  unfolding adapted_trust
  adapted_trust-bounds s c h k =
      elim (Bool-cases (eqb_ℤ c.pred_innov_sign (pos 0) || eqb_ℤ s c.pred_innov_sign)) [
        | inl e ↦
            let raised = c.pred_trust +F fl.decimal (pos 2) 1 in
            let up = law.add_nonneg c.pred_trust (fl.decimal (pos 2) 1) (decimal_nonneg 2 1) in
            rw (e) (
              le-fmin trust_min trust_max raised min_le_max
                  (law.le_trans trust_min c.pred_trust raised h up),
              fmin-le_left law.ordered trust_max raised trust_max (law.le_refl trust_max),
            )
        | inr e ↦
            let shrunk = c.pred_trust *F fl.decimal (pos 5) 1 in
            let down =
              law.mul-le c.pred_trust (fl.decimal (pos 5) 1) trust_max k (decimal_nonneg 90 2)
                (decimal_nonneg 5 1) half_small in
            rw (e) (
              le-fmax_left law.ordered trust_min trust_min shrunk (law.le_refl trust_min),
              fmax-le trust_min shrunk trust_max min_le_max down,
            )
      ]

  adapt-bounds :
      (innovation : F) (c : Control F)
      → trust_min ≤F c.pred_trust ≡ true
      → c.pred_trust ≤F trust_max ≡ true
      → let trust = (adapt innovation c).pred_trust in
        (trust_min ≤F trust ≡ true) × (trust ≤F trust_max ≡ true)
  unfolding adapt
  adapt-bounds innovation c h k = ground (arith, adapted_trust-bounds (sign innovation) c h k)

  advance-IsTrusting :
      (grid pool_output grid_total : F) (sample_id : List F) (c : Control F)
      → trust_min ≤F c.pred_trust ≡ true
      → c.pred_trust ≤F trust_max ≡ true
      → IsTrusting (advance grid pool_output grid_total sample_id c).0
  unfolding advance
  advance-IsTrusting grid pool_output grid_total sample_id c h k =
      let estimate = grid -F (pool_output -F c.pred_pool_output) in
      let credited = record c { pred_grid = some estimate; pred_pool_output = pool_output } in
      let seen = record credited { pred_sample_id = some sample_id } in
      let (low, high) = adapt-bounds (grid_total -F estimate) seen h k in
      elim (Bool-cases (is_sample sample_id c.pred_sample_id)) [
        | inl e ↦ rw (e) (bounded h k)
        | inr e ↦ rw (e) (bounded low high)
      ]

  -- The trust in the meter stays from 0.15 to 0.9 whatever the meter and the batteries report, from
  -- the first estimate on: each call keeps it so.
  pub predict_control_grid-IsTrusting :
      (cfg : Config F) (pool_output grid_total : F) (sample_id : List F) (c : Control F)
      → IsTrusting c
      → IsTrusting (predict_control_grid cfg pool_output grid_total sample_id c).0
  unfolding predict_control_grid start_prediction
  predict_control_grid-IsTrusting cfg pool_output grid_total sample_id c trusting =
      elim (Bool-cases (cfg.grid_predict_trust ≤F nought)) [
        | inl e ↦ rw (e) trusting
        | inr e ↦ elim (Option-cases c.pred_grid) [
          | inl f ↦
              rw (e, f)
                (bounded
                  (le-fmin trust_min trust_max (fmax trust_min cfg.grid_predict_trust) min_le_max (
                    le-fmax_left law.ordered trust_min trust_min cfg.grid_predict_trust
                      (law.le_refl trust_min)))
                  (fmin-le_left law.ordered trust_max (fmax trust_min cfg.grid_predict_trust)
                    trust_max (law.le_refl trust_max)))
          | inr (grid, f) ↦ elim trusting [
            | unset g ↦ absurd (cc (f, g))
            | bounded h k ↦
                rw (e, f) (advance-IsTrusting grid pool_output grid_total sample_id c h k)
          ]
        ]
      ]
