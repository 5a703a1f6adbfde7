-- ===== src/Filters/Transform.antt =====
-- `TransformedPowermeter` of src/astrameter/powermeter/wrappers/transform.py. The two flags that keep a
-- warning from repeating are left out.
use astra_meter.Prelude.{ℕ, suc, ◌%◌, List, [], ◌∷◌, Option, none, some, length}
use astra_meter.Prelude.Float.{Float, ◌+F◌, ◌*F◌}
use astra_meter.Prelude.Series.{nth}

pub record Transform (F : Type 0) : Type 0 where
  pub offsets : List F
  pub multipliers : List F

module _ {F : Type 0} ⦃fl : Float F⦄ where
  -- `__init__`, which raises on an empty list.
  unfoldable pub new_transform : List F → List F → Option (Transform F)
  new_transform [] multipliers = none
  new_transform (o ∷ os) [] = none
  new_transform (o ∷ os) (m ∷ ms) = some (record { offsets = o ∷ os; multipliers = m ∷ ms })

  -- The phases from phase i on.
  unfoldable pub apply_from : Transform F → ℕ → List F → List F
  apply_from t i [] = []
  apply_from t i (v ∷ vs) =
      let multiplier = nth t.multipliers (i % length t.multipliers) in
      let offset = nth t.offsets (i % length t.offsets) in
      (v *F multiplier +F offset) ∷ apply_from t (suc i) vs

  -- `get_powermeter_watts`.
  unfoldable pub apply_transform : Transform F → List F → List F
  unfolding apply_from
  apply_transform t values = apply_from t 0 values
