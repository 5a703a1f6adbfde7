-- ===== src/Filters/Pid.antt =====
-- `PidPowermeter` of src/astrameter/powermeter/wrappers/pid.py. Its lock makes a reading one step.
pub mod Held
use astra_meter.Prelude.{
  ℕ, zero, suc, Bool, true, false, ◌&&◌, ◌||◌, not, List, [], ◌∷◌, Option, none, some,
  if◌then◌else◌, length, map,
}
use astra_meter.Prelude.Float.{
  Float, ◌<F◌, ◌≤F◌, ◌+F◌, ◌-F◌, ◌*F◌, ◌/F◌, nought, whole, fmax, fmin, fabs,
}
use astra_meter.Prelude.Series.{fsum, replicate}

pub data PidMode : Type 0 where
  bias : PidMode
  replace : PidMode

-- The error and the time of a reading are noted together.
pub record Reading (F : Type 0) : Type 0 where
  pub error : F
  pub time : F

pub record Pid (F : Type 0) : Type 0 where
  pub kp : F
  pub ki : F
  pub kd : F
  pub output_max : F
  pub mode : PidMode
  pub integral : F
  pub previous : Option (Reading F)

module _ {F : Type 0} ⦃fl : Float F⦄ where
  -- `__init__`, which raises on a limit that is not positive.
  unfoldable pub new_pid : F → F → F → F → PidMode → Option (Pid F)
  new_pid kp ki kd output_max mode =
      if output_max ≤F nought
      then none
      else some (record {
        kp = kp;
        ki = ki;
        kd = kd;
        output_max = output_max;
        mode = mode;
        integral = nought;
        previous = none;
      })

  unfoldable pub elapsed : F → Option (Reading F) → F
  elapsed now none = nought
  elapsed now (some r) = let dt = now -F r.time in if dt ≤F nought then nought else dt

  unfoldable pub derivative : F → F → F → Option (Reading F) → F
  derivative kd error dt none = nought
  derivative kd error dt (some r) = if nought <F dt then kd *F (error -F r.error) /F dt else nought

  -- The integral is taken on while the output is not saturated, or while it unwinds.
  unfoldable pub integrated : F → F → F → Pid F → F
  integrated error dt d_term p =
      let tentative = p.integral +F error *F dt in
      let output = p.kp *F error +F p.ki *F tentative +F d_term in
      let nonzero = not (p.integral ≤F nought && nought ≤F p.integral) in
      let unwinds = nonzero && p.integral *F error <F nought in
      if nought <F dt && (fabs output ≤F p.output_max || unwinds) then tentative else p.integral

  unfoldable pub saturate : F → F → F
  saturate limit output = fmax (nought -F limit) (fmin limit output)

  -- The controller after a total and its output.
  unfoldable pub regulate : F → F → Pid F → Pid F × F
  unfolding elapsed derivative integrated saturate
  regulate now total p =
      let error = nought -F total in
      let dt = elapsed now p.previous in
      let d_term = derivative p.kd error dt p.previous in
      let integral = integrated error dt d_term p in
      let after = record p {
        integral = integral;
        previous = some (record { error = error; time = now });
      } in
      (after, saturate p.output_max (p.kp *F error +F p.ki *F integral +F d_term))

  -- The share of a phase in the output.
  unfoldable pub phase_share : F → List F → F
  phase_share output [] = nought
  phase_share output (v ∷ vs) = output /F whole (length (v ∷ vs))

  unfoldable pub applied : PidMode → F → List F → List F
  applied m per_phase raw = elim m [
    | bias ↦ map (λ v. v +F per_phase) raw
    | replace ↦ replicate (length raw) per_phase
  ]

  -- `get_powermeter_watts`.
  unfoldable pub controlled : F → List F → Pid F → Pid F × List F
  unfolding regulate phase_share applied
  controlled now raw p =
      let result = regulate now (fsum nought raw) p in
      (result.0, applied p.mode (phase_share result.1 raw) raw)
