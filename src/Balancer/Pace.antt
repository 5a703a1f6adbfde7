-- ===== src/Balancer/Pace.antt =====
-- How fast a battery may be moved: `_pace_cap`, `_pace_reading` and `_damp_oscillation` of
-- src/astrameter/ct002/balancer.py, on the state of the battery.
pub mod Bounds
pub mod Damping
use astra_meter.Prelude.{
  ℕ, zero, suc, leb, Bool, true, false, ◌&&◌, ◌||◌, not, Option, none, some, if◌then◌else◌,
}
use astra_meter.Prelude.Int.{ℤ, pos, eqb_ℤ}
use astra_meter.Prelude.Float.{
  Float, ◌<F◌, ◌≤F◌, ◌+F◌, ◌-F◌, ◌*F◌, ◌/F◌, nought, whole, fmax, fmin, fabs,
}
use astra_meter.Balancer.State.{ConsumerState, sign, needs_dc_output_floor}
use astra_meter.Balancer.Config.{Config}

module _ {F : Type 0} ⦃fl : Float F⦄ where
  -- `cap * PACE_GROWTH_FACTOR**dt_ratio`, at most the largest step.
  abbrev pub grown : Config F → F → F → F
  grown cfg cap dt_ratio = fmin (cap *F fl.pow (whole 2) dt_ratio) cfg.pace_max_step

  -- The battery moved: the command of the last poll is one that it responds to.
  unfoldable pub moved_on : ConsumerState F → ConsumerState F
  moved_on s =
      let sent = s.pace_last_sent in
      let lower = s.pace_responded_at ≤F nought || sent <F s.pace_responded_at in
      record s {
        pace_stall_polls = 0;
        pace_responded_at = if nought <F sent && lower then sent else s.pace_responded_at;
      }

  -- A clamped poll: whether the battery has followed since the last one.
  unfoldable pub clamped_poll :
      Config F → F → F → ℤ → F → Bool → ConsumerState F → ConsumerState F × F × Bool
  unfolding moved_on
  clamped_poll cfg cap reported side dt_ratio can_stall s =
      let moved : F = elim s.pace_prev_reported [
        | none ↦ nought
        | some before ↦ (reported -F before) *F fl.of_int side
      ] in
      let polls = suc s.pace_stall_polls in
      let escapes = can_stall && leb 3 polls in
      if whole 5 *F dt_ratio ≤F moved then (moved_on s, grown cfg cap dt_ratio, false) else (
        record s { pace_stall_polls = if escapes then 0 else polls },
        if escapes then grown cfg cap dt_ratio else cap,
        can_stall,
      )

  -- The cap before the largest step bounds it, by the three branches of `_pace_cap`.
  unfoldable pub learned_cap :
      Config F → F → F → ℤ → F → Bool → ConsumerState F → ConsumerState F × F × Bool
  unfolding clamped_poll
  learned_cap cfg reading reported side dt_ratio can_stall s =
      let base = cfg.pace_base_step in
      let cap = if nought <F s.pace_cap then s.pace_cap else base in
      let limit = fmax base (cap *F dt_ratio) in
      let turned = record s { pace_stall_polls = 0; pace_responded_at = nought } in
      if eqb_ℤ side (pos 0) || not (eqb_ℤ side s.pace_sign)
      then (turned, base, false)
      else if limit <F fabs reading
      then clamped_poll cfg cap reported side dt_ratio can_stall s
      else (record s { pace_stall_polls = 0 }, fmax base (fabs reading /F dt_ratio), false)

  -- `_pace_cap`.
  unfoldable pub pace_cap_of :
      Config F → F → F → ℤ → F → Bool → ConsumerState F → ConsumerState F × F × Bool
  unfolding learned_cap
  pace_cap_of cfg reading reported side dt_ratio can_stall s =
      let (learned, cap, stalled) = learned_cap cfg reading reported side dt_ratio can_stall s in
      (learned, fmin cap cfg.pace_max_step, stalled)

  -- The seconds since the last paced poll, as a share of a second.
  unfoldable pub cadence : F → ConsumerState F → F
  cadence now s =
      let dt = if nought <F s.pace_last_at then now -F s.pace_last_at else nought in
      fmin (whole 1) ((if dt ≤F nought then whole 1 else dt) /F whole 1)

  -- The largest reading that is sent.
  unfoldable pub pace_limit : Config F → Bool → Bool → F → F → F → F
  pace_limit cfg can_stall stalled cap dt_ratio responded_at =
      let limit = fmax cfg.pace_base_step (if stalled then cap else cap *F dt_ratio) in
      if can_stall then fmin (fmax limit responded_at) cfg.pace_max_step else limit

  -- `_pace_reading`: the battery after it and the reading to send.
  unfoldable pub pace_reading : Config F → Bool → F → F → F → ConsumerState F → ConsumerState F × F
  unfolding pace_cap_of cadence pace_limit sign
  pace_reading cfg can_stall now reading reported s =
      let dt_ratio = cadence now s in
      let side = sign reading in
      let paced =
        pace_cap_of cfg reading reported side dt_ratio can_stall
          (record s { pace_last_at = now }) in
      let learned = paced.0 in
      let cap = paced.1 in
      let limit = pace_limit cfg can_stall paced.2 cap dt_ratio learned.pace_responded_at in
      let out = fmax (nought -F limit) (fmin limit reading) in
      if cfg.pace_base_step ≤F nought then (s, reading) else (
        record learned {
          pace_cap = cap;
          pace_sign = side;
          pace_prev_reported = some reported;
          pace_last_sent = fabs out;
        },
        out,
      )

  -- Whether the residual goes the other way than the last one.
  unfoldable pub reverses : ℤ → ConsumerState F → Bool
  reverses side s =
      not (eqb_ℤ side (pos 0))
      && not (eqb_ℤ s.osc_last_sign (pos 0))
      && not (eqb_ℤ side s.osc_last_sign)

  -- `_damp_oscillation`: the battery after it and the residual.
  unfoldable pub damp_oscillation : Config F → F → ConsumerState F → ConsumerState F × F
  unfolding reverses sign
  damp_oscillation cfg residual s =
      let side = sign residual in
      let decayed = s.osc_score *F (whole 1 -F cfg.osc_damp_decay) in
      let last : ℤ = if eqb_ℤ side (pos 0) then s.osc_last_sign else side in
      let score =
        if reverses side s then fmin (whole 1) (s.osc_score +F cfg.osc_damp_alpha) else decayed in
      if cfg.osc_damp_max ≤F nought
      then (s, residual)
      else if nought <F cfg.osc_damp_threshold && cfg.osc_damp_threshold <F fabs residual
      then (record s { osc_score = decayed; osc_last_sign = last }, residual)
      else (
        record s { osc_score = score; osc_last_sign = last },
        residual *F (whole 1 -F cfg.osc_damp_max *F score),
      )
