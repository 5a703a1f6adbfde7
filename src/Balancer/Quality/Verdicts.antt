-- ===== src/Balancer/Quality/Verdicts.antt =====
-- What the verdict and the score of the control quality say.
use astra_meter.Prelude.{
  ◌≡◌, ◌∙◌, inl, inr, refl, true, false, Bool, Bool-cases, Option, none, some, arith,
}
use astra_meter.Prelude.Int.{pos}
use astra_meter.Prelude.Float.{Float, ◌<F◌, ◌≤F◌, ◌-F◌, ◌*F◌, ◌/F◌, nought, whole, fmax}
use astra_meter.Prelude.Scale.{IsScaling}
use astra_meter.Prelude.Bounds.{fmax-le, le-fmax_left}
use astra_meter.Balancer.Quality.{
  Quality, Verdict, idle, warmup, verdict_of, score_of, snapshot, has_evidence,
}

-- Whether a verdict is one on the loop.
pub is_judgement : Verdict → Bool
is_judgement idle = false
is_judgement warmup = false
is_judgement _ = true

module _ {F : Type 0} ⦃fl : Float F⦄ (law : IsScaling F) where
  -- A verdict on the loop comes with a score from 0 to 100, and no score without one.
  pub data IsScored : Verdict → Option F → Type 0 where
    silent : {v : Verdict} → is_judgement v ≡ false → IsScored v none
    graded :
        {v : Verdict} {score : F}
        → is_judgement v ≡ true
        → nought ≤F score ≡ true
        → score ≤F whole 100 ≡ true
        → IsScored v (some score)

  accuracy-bounds :
      (excess band : F)
      → nought ≤F excess ≡ true
      → nought <F band ≡ true
      → let accuracy = fmax nought (whole 1 -F excess /F band) in
        (nought ≤F whole 100 *F accuracy ≡ true) × (whole 100 *F accuracy ≤F whole 100 ≡ true)
  accuracy-bounds excess band h k =
      let part = excess /F band in
      let accuracy = fmax nought (whole 1 -F part) in
      let zero_le = law.of_int_mono (pos 0) in
      let low = le-fmax_left law.ordered nought nought (whole 1 -F part) (law.le_refl nought) in
      let below : whole 1 -F part ≤F whole 1 ≡ true = rw (law.sub_zero (whole 1)) at (
        law.sub_mono (whole 1) (whole 1) part nought (law.le_refl (whole 1))
          (law.div_nonneg excess band h k)) in
      let high = fmax-le nought (whole 1 -F part) (whole 1) (zero_le (pos 1) refl) below in
      (
        law.mul_nonneg (whole 100) accuracy (zero_le (pos 100) refl) low,
        law.mul-le (whole 100) accuracy (whole 100) (law.le_refl (whole 100))
            (zero_le (pos 100) refl) low high,
      )

  evidence-judgement :
      (now : F) (q : Quality F) → is_judgement (verdict_of now q) ≡ has_evidence now q
  unfolding is_judgement verdict_of has_evidence
  evidence-judgement now q = ground (arith, law.lt-eq-not-le q.observed (whole 10))

  -- The snapshot has a score exactly where the verdict is one on the loop (stable, limited or off target, not
  -- idle or warming up), and it is from 0 to 100, where the band is above zero.
  pub snapshot-IsScored :
      (now : F) (q : Quality F)
      → nought <F q.band *F whole 20 ≡ true
      → IsScored (snapshot now q).verdict (snapshot now q).score
  unfolding score_of snapshot
  snapshot-IsScored now q h =
      let same_as = evidence-judgement now q in
      elim (Bool-cases (has_evidence now q)) [
        | inl e ↦
            let excess = fmax nought (q.error_ema -F q.band) in
            let (low, high) =
              accuracy-bounds excess (q.band *F whole 20)
                (le-fmax_left law.ordered nought nought (q.error_ema -F q.band)
                  (law.le_refl nought))
                h in
            rw (e, score_of) (graded (same_as ∙ e) low high)
        | inr e ↦ rw (e, score_of) (silent (same_as ∙ e))
      ]
