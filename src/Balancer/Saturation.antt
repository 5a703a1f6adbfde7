-- ===== src/Balancer/Saturation.antt =====
-- `SaturationTracker` of src/astrameter/ct002/balancer.py. The reading of the clock is an argument.
pub mod Score
use astra_meter.Prelude.{ℕ, Bool, true, false, ◌&&◌, ◌||◌, not, Option, none, some, if◌then◌else◌}
use astra_meter.Prelude.Int.{ℤ, pos, eqb_ℤ}
use astra_meter.Prelude.Float.{
  Float, ◌<F◌, ◌≤F◌, ◌+F◌, ◌-F◌, ◌*F◌, ◌/F◌, nought, whole, fmax, fmin, fabs,
}
use astra_meter.Balancer.State.{ConsumerState, sign}

pub record Tracker (F : Type 0) : Type 0 where
  pub enabled : Bool
  pub alpha : F
  pub min_target : F
  pub decay_factor : F
  pub stall_timeout_seconds : F

-- What the grace period makes of an update: it goes on, or it ends there with a state.
pub data Grace (F : Type 0) : Type 0 where
  continues : ConsumerState F → Grace F
  returns : ConsumerState F → Grace F

module _ {F : Type 0} ⦃fl : Float F⦄ where
  -- `SaturationTracker.__init__`.
  unfoldable pub tracker : Bool → F → F → F → F → Tracker F
  tracker enabled alpha min_target decay_factor stall_timeout_seconds = record {
    enabled = enabled;
    alpha = fmax (fl.decimal (pos 1) 2) (fmin (whole 1) alpha);
    min_target = fmax (whole 1) min_target;
    decay_factor = fmax nought (fmin (whole 1) decay_factor);
    stall_timeout_seconds = fmax nought stall_timeout_seconds;
  }

  abbrev grace_over : ConsumerState F → ConsumerState F
  grace_over s = record s {
    saturation_grace_until = nought;
    saturation_grace_started_at = nought;
    last_saturation_update = nought;
  }

  unfoldable pub grace_step : Tracker F → ConsumerState F → F → F → F → F → Grace F
  grace_step t s now target_abs actual min_target =
      let stalled = record (grace_over s) { saturation_score = whole 1 } in
      if nought <F s.saturation_grace_until
      then (if now <F s.saturation_grace_until
          then (if t.min_target ≤F fabs actual
              then continues (grace_over s)
              else if min_target ≤F target_abs
                  && nought <F s.saturation_grace_started_at
                  && t.stall_timeout_seconds ≤F (now -F s.saturation_grace_started_at)
              then returns stalled
              else returns s)
          else continues (grace_over s))
      else continues s

  -- Whether the output still runs against the target.
  unfoldable pub reversing : F → F → Bool
  unfolding sign
  reversing last_target actual =
      not (eqb_ℤ (sign last_target) (pos 0))
      && not (eqb_ℤ (sign actual) (pos 0))
      && not (eqb_ℤ (sign last_target) (sign actual))

  -- The step of the average over `dt` seconds.
  unfoldable pub score_step : Tracker F → F → Bool → F → F → F
  score_step t prev idle actual dt =
      let ratio = dt /F whole 1 in
      let decayed = prev *F fl.pow t.decay_factor ratio in
      let instant = if fabs actual <F t.min_target then whole 1 else nought in
      let alpha_eff = whole 1 -F fl.pow (whole 1 -F t.alpha) ratio in
      if idle
      then (if nought <F prev
          then (if decayed <F fl.decimal (pos 1) 3 then nought else decayed)
          else prev)
      else alpha_eff *F instant +F (whole 1 -F alpha_eff) *F prev

  unfoldable pub average_step : Tracker F → ConsumerState F → F → F → F → F → ConsumerState F
  unfolding score_step reversing
  average_step t s now last_target actual min_target =
      let target_abs = fabs last_target in
      let prev_t =
        if s.last_saturation_update ≤F nought then now -F whole 1 else s.last_saturation_update in
      let dt = fmax nought (now -F prev_t) in
      let seen = record s { last_saturation_update = now } in
      let idle = target_abs <F min_target || reversing last_target actual in
      if dt ≤F nought && nought ≤F dt
      then seen
      else if whole 30 <F dt
      then seen
      else record seen { saturation_score = score_step t s.saturation_score idle actual dt }

  -- `update`.
  unfoldable pub update : Tracker F → ConsumerState F → Option F → F → F → F → ConsumerState F
  unfolding grace_step average_step
  update t s none actual min_actionable now = s
  update t s (some last_target) actual min_actionable now =
      let min_target = fmax t.min_target min_actionable in
      if not t.enabled then s else elim (grace_step t s now (fabs last_target) actual min_target) [
        | returns s' ↦ s'
        | continues s' ↦ average_step t s' now last_target actual min_target
      ]

  -- `set_grace` and `clear`.
  unfoldable pub set_grace : ConsumerState F → F → F → ConsumerState F
  set_grace s deadline now = record s {
    saturation_grace_until = deadline;
    saturation_grace_started_at = now;
    last_saturation_update = nought;
  }

  unfoldable pub clear : ConsumerState F → ConsumerState F
  clear s = record (grace_over s) { saturation_score = nought }
