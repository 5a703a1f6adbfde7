-- ===== src/Balancer/Pace/Bounds.antt =====
-- How far the pace lets a reading go.
use astra_meter.Prelude.{◌≡◌, inl, inr, refl, true, false, Bool, Bool-cases, if◌then◌else◌, arith}
use astra_meter.Prelude.Float.{Float, ◌<F◌, ◌≤F◌, ◌-F◌, ◌*F◌, ◌/F◌, nought, whole, fmax, fmin}
use astra_meter.Prelude.Scale.{IsScaling}
use astra_meter.Prelude.Bounds.{
  fmax-le, le-fmin, fmin-le_left, fmin-le_right, le-fmax_left, le-fmax_right, neg_nonpos, not-le-le,
}
use astra_meter.Balancer.State.{ConsumerState, sign}
use astra_meter.Balancer.Config.{Config}
use astra_meter.Balancer.Pace.{pos, pace_reading, pace_limit, learned_cap, pace_cap_of, cadence}

module _ {F : Type 0} ⦃fl : Float F⦄ (law : IsScaling F) where
  -- A number within a bound on either side of zero.
  pub record IsWithin (bound value : F) : Type 0 where
    pub above : value ≤F bound ≡ true
    pub below : nought -F bound ≤F value ≡ true

  -- The paced reading lies between zero and the reading.
  pub data IsShortened (reading out : F) : Type 0 where
    raising : nought ≤F out ≡ true → out ≤F reading ≡ true → IsShortened reading out
    lowering : reading ≤F out ≡ true → out ≤F nought ≡ true → IsShortened reading out

  zero_le_one : fl.le nought (whole 1) ≡ true
  zero_le_one = law.of_int_mono (pos 0) (pos 1) refl

  interval_nonneg : (dt : F) → nought ≤F (if dt ≤F nought then whole 1 else dt) /F whole 1 ≡ true
  interval_nonneg dt = elim (Bool-cases (dt ≤F nought)) [
    | inl e ↦ rw (e, law.div_one (whole 1)) zero_le_one
    | inr e ↦ rw (e, law.div_one dt) (not-le-le law.ordered dt nought e)
  ]

  cadence-bounds :
      (now : F) (s : ConsumerState F)
      → (nought ≤F cadence now s ≡ true) × (cadence now s ≤F whole 1 ≡ true)
  unfolding cadence
  cadence-bounds now s =
      let dt : F = if nought <F s.pace_last_at then now -F s.pace_last_at else nought in
      (
        le-fmin {F = F} nought (whole 1) ((if dt ≤F nought then whole 1 else dt) /F whole 1)
            zero_le_one (interval_nonneg dt),
        fmin-le_left law.ordered (whole 1) ((if dt ≤F nought then whole 1 else dt) /F whole 1)
            (whole 1) (law.le_refl (whole 1)),
      )

  clamp-IsWithin :
      (limit bound reading : F)
      → nought ≤F limit ≡ true
      → limit ≤F bound ≡ true
      → IsWithin bound (fmax (nought -F limit) (fmin limit reading))
  clamp-IsWithin limit bound reading h k = record {
    above =
        fmax-le (nought -F limit) (fmin limit reading) bound
          (law.le_trans (nought -F limit) limit bound
            (law.le_trans (nought -F limit) nought limit (neg_nonpos law.rounded limit h) h) k)
          (fmin-le_left law.ordered limit reading bound k);
    below =
        le-fmax_left law.ordered (nought -F bound) (nought -F limit) (fmin limit reading)
          (law.sub_mono nought nought bound limit (law.le_refl nought) k);
  }

  clamp-IsShortened :
      (limit reading : F)
      → nought ≤F limit ≡ true
      → IsShortened reading (fmax (nought -F limit) (fmin limit reading))
  clamp-IsShortened limit reading h =
      let low = neg_nonpos law.rounded limit h in
      elim (law.le_total nought reading) [
        | inl up ↦
            raising
              (le-fmax_right law.ordered nought (nought -F limit) (fmin limit reading)
                (le-fmin nought limit reading h up))
              (fmax-le (nought -F limit) (fmin limit reading) reading
                (law.le_trans (nought -F limit) nought reading low up)
                (fmin-le_right law.ordered limit reading reading (law.le_refl reading)))
        | inr down ↦
            lowering
              (le-fmax_right law.ordered reading (nought -F limit) (fmin limit reading) (
                le-fmin reading limit reading (law.le_trans reading nought limit down h)
                  (law.le_refl reading)))
              (fmax-le (nought -F limit) (fmin limit reading) nought low
                (fmin-le_right law.ordered limit reading nought down))
      ]

  -- A level that the battery has responded to does not lead out of the bounds.
  floor_bounds :
      (can_stall : Bool) (limit responded most : F)
      → nought ≤F most ≡ true
      → nought ≤F limit ≡ true
      → limit ≤F most ≡ true
      → let floored = if can_stall then fmin (fmax limit responded) most else limit in
        (nought ≤F floored ≡ true) × (floored ≤F most ≡ true)
  floor_bounds false limit responded most h low high = (low, high)
  floor_bounds true limit responded most h low high = (
    le-fmin nought (fmax limit responded) most (le-fmax_left law.ordered nought limit responded low)
        h,
    fmin-le_right law.ordered (fmax limit responded) most most (law.le_refl most),
  )

  pace_limit-bounds :
      (cfg : Config F) (can_stall stalled : Bool) (cap dt_ratio responded : F)
      → nought ≤F cfg.pace_base_step ≡ true
      → cfg.pace_base_step ≤F cfg.pace_max_step ≡ true
      → cap ≤F cfg.pace_max_step ≡ true
      → nought ≤F dt_ratio ≡ true
      → dt_ratio ≤F whole 1 ≡ true
      → let limit = pace_limit cfg can_stall stalled cap dt_ratio responded in
        (nought ≤F limit ≡ true) × (limit ≤F cfg.pace_max_step ≡ true)
  unfolding pace_limit
  pace_limit-bounds cfg can_stall stalled cap dt_ratio responded hb hm hc h0 h1 =
      let most = law.le_trans nought cfg.pace_base_step cfg.pace_max_step hb hm in
      let step : F = if stalled then cap else cap *F dt_ratio in
      let limit = fmax cfg.pace_base_step step in
      let small : step ≤F cfg.pace_max_step ≡ true =
        ground (arith, hc, law.mul-le cap dt_ratio cfg.pace_max_step hc most h0 h1) in
      let low = le-fmax_left law.ordered nought cfg.pace_base_step step hb in
      floor_bounds can_stall limit responded cfg.pace_max_step most low
        (fmax-le cfg.pace_base_step step cfg.pace_max_step hm small)

  -- A paced reading, and the cap that is kept, are at most the largest step, on either side of zero;
  -- and the paced reading lies between zero and the reading. This is where pacing is on and the
  -- largest step is not below the base step.
  pub pace_reading-bounds :
      (cfg : Config F) (can_stall : Bool) (now reading reported : F) (s : ConsumerState F)
      → cfg.pace_base_step ≤F nought ≡ false
      → cfg.pace_base_step ≤F cfg.pace_max_step ≡ true
      → let (s', out) = pace_reading cfg can_stall now reading reported s in
        IsWithin cfg.pace_max_step out
        × IsShortened reading out
        × (s'.pace_cap ≤F cfg.pace_max_step ≡ true)
  unfolding pace_reading pace_cap_of
  pace_reading-bounds cfg can_stall now reading reported s on hm =
      let (h0, h1) = cadence-bounds now s in
      let hb = not-le-le law.ordered cfg.pace_base_step nought on in
      let learned =
        learned_cap cfg reading reported (sign reading) (cadence now s) can_stall
          (record s { pace_last_at = now }) in
      let step = fmin (learned.1) cfg.pace_max_step in
      let small =
        fmin-le_right law.ordered (learned.1) cfg.pace_max_step cfg.pace_max_step
          (law.le_refl cfg.pace_max_step) in
      let limit =
        pace_limit cfg can_stall (learned.2) step (cadence now s) (learned.0).pace_responded_at in
      let (low, high) =
        pace_limit-bounds cfg can_stall (learned.2) step (cadence now s)
          (learned.0).pace_responded_at hb hm small h0 h1 in
      rw (on) (
        clamp-IsWithin limit cfg.pace_max_step reading low high,
        clamp-IsShortened limit reading low,
        small,
      )
