-- ===== src/Balancer/Quality.antt =====
-- `ControlQualityTracker` of src/astrameter/ct002/balancer.py: how well the loop holds the grid. The
-- reading of the clock is an argument.
pub mod Verdicts
use astra_meter.Prelude.{
  ℕ, zero, suc, ◌==◌, Bool, true, false, ◌&&◌, ◌||◌, not, Option, none, some, if◌then◌else◌,
}
use astra_meter.Prelude.Int.{ℤ, pos, eqb_ℤ}
use astra_meter.Prelude.Float.{Float, ◌<F◌, ◌≤F◌, ◌+F◌, ◌-F◌, ◌*F◌, ◌/F◌, nought, whole, fmax, fabs}
use astra_meter.Balancer.State.{minus_one}

pub record Quality (F : Type 0) : Type 0 where
  pub band : F
  pub error_ema : F
  pub in_band_ema : F
  pub crossings_ema : F
  pub limited_ema : F
  pub last_sign : ℤ
  pub samples : ℕ
  pub observed : F
  pub last_update : F
  pub steering : Bool

-- `ControlQualityVerdict`.
pub data Verdict : Type 0 where
  idle warmup stable limited off_target : Verdict

pub record QualitySnapshot (F : Type 0) : Type 0 where
  pub verdict : Verdict
  pub score : Option F
  pub error_ema : F
  pub in_band_fraction : F
  pub crossings_per_second : F
  pub band : F
  pub samples : ℕ

module _ {F : Type 0} ⦃fl : Float F⦄ where
  -- `__init__`.
  unfoldable pub new_quality : F → Quality F
  new_quality band = record {
    band = fmax (whole 25) band;
    error_ema = nought;
    in_band_ema = nought;
    crossings_ema = nought;
    limited_ema = nought;
    last_sign = pos 0;
    samples = 0;
    observed = nought;
    last_update = nought;
    steering = false;
  }

  unfoldable pub reset_window : Quality F → Quality F
  reset_window q = record q {
    error_ema = nought;
    in_band_ema = nought;
    crossings_ema = nought;
    limited_ema = nought;
    last_sign = pos 0;
    samples = 0;
    observed = nought;
  }

  abbrev one_if : Bool → F
  one_if c = if c then whole 1 else nought

  -- `ema += alpha * (value - ema)`.
  abbrev towards : F → F → F → F
  towards alpha ema value = ema +F alpha *F (value -F ema)

  -- The averages of one sample: the first seeds them, a later one moves them.
  unfoldable pub seed : F → Bool → Quality F → Quality F
  seed grid full q = record q {
    error_ema = fabs grid;
    in_band_ema = one_if (fabs grid ≤F q.band);
    limited_ema = one_if full;
  }

  unfoldable pub blend : F → F → Bool → Quality F → Quality F
  blend dt grid full q =
      let error = fabs grid in
      let alpha = whole 1 -F fl.pow (whole 1 -F fl.decimal (pos 2) 2) (dt /F whole 1) in
      let far = q.band *F whole 4 <F error in
      let side : ℤ = if nought <F grid then pos 1 else minus_one in
      let flips =
        if far && not (eqb_ℤ q.last_sign (pos 0)) && not (eqb_ℤ side q.last_sign)
        then whole 1 /F dt
        else nought in
      record q {
        error_ema = towards alpha q.error_ema error;
        in_band_ema = towards alpha q.in_band_ema (one_if (error ≤F q.band));
        limited_ema = towards alpha q.limited_ema (one_if full);
        crossings_ema = towards alpha q.crossings_ema flips;
        last_sign = if far then side else q.last_sign;
      }

  unfoldable pub counted : F → Quality F → Quality F
  counted dt q = record q { samples = suc q.samples; observed = q.observed +F dt }

  -- `update`.
  unfoldable pub update_quality : F → Bool → Bool → F → Quality F → Quality F
  unfolding reset_window seed blend counted
  update_quality grid steering full now q =
      let prev_t = if q.last_update ≤F nought then now -F whole 1 else q.last_update in
      let dt = fmax nought (now -F prev_t) in
      let seen = record q { last_update = now; steering = steering } in
      if dt ≤F nought && nought ≤F dt
      then seen
      else if whole 60 <F dt
      then reset_window seen
      else if not steering
      then seen
      else counted dt (if q.samples == 0 then seed grid full seen else blend dt grid full seen)

  unfoldable pub is_stale : F → Quality F → Bool
  is_stale now q = if q.last_update ≤F nought then true else whole 60 <F now -F q.last_update

  unfoldable pub has_evidence : F → Quality F → Bool
  unfolding is_stale
  has_evidence now q = q.steering && not (is_stale now q) && whole 10 ≤F q.observed

  unfoldable pub verdict_of : F → Quality F → Verdict
  unfolding is_stale
  verdict_of now q =
      if not q.steering || is_stale now q
      then idle
      else if q.observed <F whole 10
      then warmup
      else if q.error_ema ≤F q.band *F whole 4
      then stable
      else if fl.decimal (pos 5) 1 ≤F q.limited_ema
      then limited
      else off_target

  unfoldable pub score_of : F → Quality F → Option F
  unfolding has_evidence
  score_of now q =
      let excess = fmax nought (q.error_ema -F q.band) in
      let accuracy = fmax nought (whole 1 -F excess /F (q.band *F whole 20)) in
      if not (has_evidence now q) then none else some (whole 100 *F accuracy)

  -- `snapshot`.
  unfoldable pub snapshot : F → Quality F → QualitySnapshot F
  unfolding verdict_of score_of
  snapshot now q = record {
    verdict = verdict_of now q;
    score = score_of now q;
    error_ema = q.error_ema;
    in_band_fraction = q.in_band_ema;
    crossings_per_second = q.crossings_ema;
    band = q.band;
    samples = q.samples;
  }
