-- ===== src/Filters/Smoothing.antt =====
-- `SmoothedPowermeter` and `DeadbandPowermeter` of src/astrameter/powermeter/wrappers/smoothing.py.
use astra_meter.Prelude.{
  Bool, true, false, ◌&&◌, not, List, [], ◌∷◌, Option, none, some, if◌then◌else◌, length, map,
}
use astra_meter.Prelude.Int.{pos}
use astra_meter.Prelude.Float.{
  Float, ◌<F◌, ◌≤F◌, ◌+F◌, ◌-F◌, ◌*F◌, ◌/F◌, nought, whole, fmax, fmin, fabs,
}
use astra_meter.Prelude.Series.{fsum, replicate}

-- The sample and its total are noted together.
pub record Sample (F : Type 0) : Type 0 where
  pub phases : List F
  pub total : F

pub record Smoothed (F : Type 0) : Type 0 where
  pub alpha : F
  pub max_step : F
  pub value : Option F
  pub last_sample : Option (Sample F)

module _ {F : Type 0} ⦃fl : Float F⦄ where
  unfoldable pub new_smoothed : F → F → Smoothed F
  new_smoothed alpha max_step = record {
    alpha = alpha;
    max_step = max_step;
    value = none;
    last_sample = none;
  }

  unfoldable pub forget : Smoothed F → Smoothed F
  forget s = record s { value = none; last_sample = none }

  -- `==` of two floats, and of two tuples of them.
  abbrev pub same_float : F → F → Bool
  same_float a b = a ≤F b && b ≤F a

  unfoldable pub same_all : List F → List F → Bool
  same_all [] [] = true
  same_all [] (y ∷ ys) = false
  same_all (x ∷ xs) [] = false
  same_all (x ∷ xs) (y ∷ ys) = same_float x y && same_all xs ys

  unfoldable pub is_seen : Sample F → Option (Sample F) → Bool
  unfolding same_all
  is_seen sample none = false
  is_seen sample (some seen) =
      same_all sample.phases seen.phases && same_float sample.total seen.total

  -- The step toward a new total: faster while the two have different signs.
  unfoldable pub step_toward : F → F → F → F → F
  step_toward alpha max_step total value =
      let crossed = if nought <F total then not (nought <F value) else nought <F value in
      let catchup =
        if crossed then fmax alpha (fmin (fl.decimal (pos 5) 1) (alpha *F whole 4)) else alpha in
      let delta = catchup *F (total -F value) in
      if nought <F max_step then fmax (nought -F max_step) (fmin max_step delta) else delta

  unfoldable pub distribute : Option F → List F → F → List F
  distribute none raw total = raw
  distribute (some value) raw total =
      if same_float total nought then raw else map (λ v. v *F (value /F total)) raw

  -- The state after a sample.
  unfoldable pub smooth : Sample F → Smoothed F → Smoothed F
  unfolding is_seen step_toward
  smooth sample s = elim s.value [
    | none ↦ record s { value = some sample.total; last_sample = some sample }
    | some value ↦ if is_seen sample s.last_sample then s else record s {
      value = some (value +F step_toward s.alpha s.max_step sample.total value);
      last_sample = some sample;
    }
  ]

  -- `get_powermeter_watts` of the smoothing filter.
  unfoldable pub smoothed : List F → Smoothed F → Smoothed F × List F
  unfolding distribute smooth
  smoothed raw s =
      let total = fsum nought raw in
      let after = smooth (record { phases = raw; total = total }) s in
      (after, distribute after.value raw total)

  -- `get_powermeter_watts` of the dead band.
  unfoldable pub deadbanded : F → List F → List F
  deadbanded deadband values =
      if nought <F deadband && fabs (fsum nought values) <F deadband
      then replicate (length values) nought
      else values
