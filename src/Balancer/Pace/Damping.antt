-- ===== src/Balancer/Pace/Damping.antt =====
-- The damping of a battery that hunts.
use astra_meter.Prelude.{◌≡◌, ◌⊎◌, inl, inr, refl, true, ◌&&◌, Bool-cases}
use astra_meter.Prelude.Int.{pos}
use astra_meter.Prelude.Float.{Float, ◌<F◌, ◌≤F◌, ◌+F◌, ◌-F◌, ◌*F◌, nought, whole, fmin, fabs}
use astra_meter.Prelude.Scale.{IsScaling}
use astra_meter.Prelude.Bounds.{le-fmin, fmin-le_left, not-lt-le}
use astra_meter.Balancer.State.{ConsumerState, sign}
use astra_meter.Balancer.Config.{Config}
use astra_meter.Balancer.Pace.{damp_oscillation, reverses}

module _ {F : Type 0} ⦃fl : Float F⦄ (law : IsScaling F) where
  pub record IsUnit (a : F) : Type 0 where
    pub least : nought ≤F a ≡ true
    pub most : a ≤F whole 1 ≡ true

  unit_zero : fl.le nought (whole 1) ≡ true
  unit_zero = law.of_int_mono (pos 0) (pos 1) refl

  complement : (a : F) → IsUnit a → IsUnit (whole 1 -F a)
  complement a u = record {
    least =
        rw (law.sub_self (whole 1)) at
          (law.sub_mono (whole 1) (whole 1) (whole 1) a (law.le_refl (whole 1)) u.most);
    most =
        rw (law.sub_zero (whole 1)) at
          (law.sub_mono (whole 1) (whole 1) a nought (law.le_refl (whole 1)) u.least);
  }

  product : (a r : F) → IsUnit a → IsUnit r → IsUnit (a *F r)
  product a r u v = record {
    least = law.mul_nonneg a r u.least v.least;
    most = law.mul-le a r (whole 1) u.most unit_zero v.least v.most;
  }

  raised : (a b : F) → IsUnit a → IsUnit b → IsUnit (fmin (whole 1) (a +F b))
  raised a b u v = record {
    least =
        le-fmin nought (whole 1) (a +F b) unit_zero
          (law.le_trans nought a (a +F b) u.least (law.add_nonneg a b v.least));
    most = fmin-le_left law.ordered (whole 1) (a +F b) (whole 1) (law.le_refl (whole 1));
  }

  -- A score from 0 to 1, and what damping leaves of a residual.
  pub record IsDamped (residual score out : F) : Type 0 where
    pub from_zero : IsUnit score
    pub shrunk : (residual <F nought ≡ true) ⊎ ((nought ≤F out ≡ true) × (out ≤F residual ≡ true))

  scaled_nonneg :
      (residual r : F)
      → IsUnit r
      → nought ≤F residual ≡ true
      → (nought ≤F residual *F r ≡ true) × (residual *F r ≤F residual ≡ true)
  scaled_nonneg residual r u h = (
    law.mul_nonneg residual r h u.least,
    law.mul-le residual r residual (law.le_refl residual) h u.least u.most,
  )

  untouched : (residual score : F) → IsUnit score → IsDamped residual score residual
  untouched residual score u = record {
    from_zero = u;
    shrunk = elim (Bool-cases (residual <F nought)) [
      | inl e ↦ inl e
      | inr e ↦ inr (not-lt-le law.ordered residual nought e, law.le_refl residual)
    ];
  }

  scaled :
      (most residual score : F)
      → IsUnit most
      → IsUnit score
      → IsDamped residual score (residual *F (whole 1 -F most *F score))
  scaled most residual score top u = record {
    from_zero = u;
    shrunk = elim (Bool-cases (residual <F nought)) [
      | inl e ↦ inl e
      | inr e ↦ inr (
          scaled_nonneg residual (whole 1 -F most *F score)
            (complement (most *F score) (product most score top u))
            (not-lt-le law.ordered residual nought e))
    ];
  }

  -- The score of a battery stays from 0 to 1, and a residual that is not negative comes out between
  -- zero and itself, where the three settings of the damping are from 0 to 1.
  pub damp_oscillation-IsDamped :
      (cfg : Config F) (residual : F) (s : ConsumerState F)
      → IsUnit cfg.osc_damp_max
      → IsUnit cfg.osc_damp_alpha
      → IsUnit cfg.osc_damp_decay
      → IsUnit s.osc_score
      → let (s', out) = damp_oscillation cfg residual s in IsDamped residual s'.osc_score out
  unfolding damp_oscillation
  damp_oscillation-IsDamped cfg residual s top alpha decay score =
      let decayed =
        product s.osc_score (whole 1 -F cfg.osc_damp_decay) score
          (complement cfg.osc_damp_decay decay) in
      let risen = raised s.osc_score cfg.osc_damp_alpha score alpha in
      elim (Bool-cases (cfg.osc_damp_max ≤F nought)) [
        | inl e ↦ rw (e) (untouched residual s.osc_score score)
        | inr e ↦
            elim (Bool-cases
              (nought <F cfg.osc_damp_threshold && cfg.osc_damp_threshold <F fabs residual)) [
                | inl f ↦ rw (e, f) (untouched residual _ decayed)
                | inr f ↦ elim (Bool-cases (reverses (sign residual) s)) [
                  | inl g ↦ rw (e, f, g) (scaled cfg.osc_damp_max residual _ top risen)
                  | inr g ↦ rw (e, f, g) (scaled cfg.osc_damp_max residual _ top decayed)
                ]
              ]
      ]
