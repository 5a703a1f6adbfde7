-- ===== src/Balancer/Steer/Limited.antt =====
-- The maximum of a battery.
use astra_meter.Prelude.{◌∙◌, ap, ◌≢◌, ◌≡◌, ◌⊎◌, inl, inr, refl, true, some, Bool-cases, arith}
use astra_meter.Prelude.Int.{ℤ, pos}
use astra_meter.Prelude.Float.{Float, ◌<F◌, ◌≤F◌, ◌*F◌, whole}
use astra_meter.Prelude.Scale.{IsScaling}
use astra_meter.Prelude.Bounds.{not-lt-le}
use astra_meter.Balancer.State.{report_of, ConsumerReport, sign, minus_one}
use astra_meter.Balancer.Pool.{state_of, LoadBalancer}
use astra_meter.Balancer.Pool.Frame.{change-state_of}
use astra_meter.Balancer.Limits.{max_power}
use astra_meter.Balancer.Steer.{
  Bool, moved_by, to_grid_reading, asked_of, note_intent, is_named, Emission, Reports, emit, Text,
  limited_output,
}

module _ {F : Type 0} ⦃fl : Float F⦄ (law : IsScaling F) where
  -- A sign that is not zero is one or minus one.
  sign_cases : (a : F) → (sign a ≡ pos 1) ⊎ (sign a ≡ minus_one) ⊎ (sign a ≡ pos 0)
  unfolding sign
  sign_cases a = ground arith

  twice_signed :
      (a cap : F) → sign a ≢ pos 0 → cap *F fl.of_int (sign a) *F fl.of_int (sign a) ≡ cap
  twice_signed a cap h = elim (sign_cases a) [
    | inl e ↦ rw (e) (ap (λ c. c *F whole 1) (law.mul_one cap) ∙ law.mul_one cap)
    | inr (inl e) ↦ rw (e) (law.mul_minus cap)
    | inr (inr e) ↦ absurd (h e)
  ]

  max_power-signed :
      (b : LoadBalancer F) (report : ConsumerReport F) (dir : ℤ) (cap : F)
      → max_power b report dir ≡ some cap
      → dir ≢ pos 0
  unfolding max_power
  max_power-signed b report dir cap h z = cc (rw (z, max_power) at h)

  limited_output-le :
      (b : LoadBalancer F) (report : ConsumerReport F) (desired cap : F)
      → max_power b report (sign desired) ≡ some cap
      → limited_output b report desired *F fl.of_int (sign desired) ≤F cap ≡ true
  unfolding limited_output
  limited_output-le b report desired cap h =
      let side = fl.of_int (sign desired) in
      elim (Bool-cases (cap <F desired *F side)) [
        | inl e ↦
            rw
              (
                h,
                e,
                twice_signed desired cap (max_power-signed b report (sign desired) cap h),
                limited_output,
              )
              (law.le_refl cap)
        | inr e ↦ rw (h, e, limited_output) (not-lt-le law.ordered cap (desired *F side) e)
      ]

  asked_limited :
      (b : LoadBalancer F) (reports : Reports F) (cid : Text) (limited : Bool) (desired : F)
      → is_named cid ≡ true
      → limited ≡ true
      → asked_of b reports cid limited desired ≡ limited_output b (report_of reports cid) desired
  unfolding asked_of
  asked_limited b reports cid limited desired named h = rw (named, h) refl

  -- The output that a battery is asked for, from what is noted of it.
  pub record IsAsked (cid : Text) (side cap : F) (b : LoadBalancer F) : Type 0 where
    pub asked : F
    pub noted : (state_of b cid).last_intent ≡ some asked
    pub within : asked *F side ≤F cap ≡ true

  -- Where a battery has a maximum in the direction that it shall run in, the output that it is asked
  -- for, as it is noted, does not pass the maximum: whatever was wanted of it and whatever the pace,
  -- unless the target is a manual one.
  pub emit-IsAsked :
      (cid : Text) (desired reported : F) (reports : Reports F) (e : Emission F) (now : F)
      (b : LoadBalancer F) (cap : F)
      → is_named cid ≡ true
      → e.limited ≡ true
      → max_power b (report_of reports cid) (sign desired) ≡ some cap
      → IsAsked cid (fl.of_int (sign desired)) cap (emit cid desired reported reports e now b).0
  unfolding emit note_intent
  emit-IsAsked cid desired reported reports e now b cap named limited h = record {
    asked = limited_output b (report_of reports cid) desired;
    noted =
        let asked = limited_output b (report_of reports cid) desired in
        let unpaced = to_grid_reading asked reported in
        let (after, reading) = moved_by e.pace reports now cid unpaced reported b in
        rw (named, asked_limited b reports cid e.limited desired named limited, emit)
          (ap (λ s. s.last_intent)
            (change-state_of (note_intent e asked unpaced reading) cid after));
    within = limited_output-le b (report_of reports cid) desired cap h;
  }
