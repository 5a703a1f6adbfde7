-- ===== src/Filters/Hampel.antt =====
-- `HampelPowermeter` of src/astrameter/powermeter/wrappers/hampel.py.
pub mod Window
pub mod Follows
use astra_meter.Prelude.{
  ℕ, ◌-◌, Bool, true, false, ◌&&◌, ◌||◌, not, List, [], ◌∷◌, ◌++◌, Option, none, some, ltb,
  if◌then◌else◌, length, drop, map,
}
use astra_meter.Prelude.Int.{pos}
use astra_meter.Prelude.Float.{Float, ◌<F◌, ◌≤F◌, ◌-F◌, ◌*F◌, ◌/F◌, nought, whole, fmax, fabs}
use astra_meter.Prelude.Series.{fsum, replicate, median}

pub record Hampel (F : Type 0) : Type 0 where
  pub window : List F
  pub size : ℕ
  pub n_sigma : F
  pub min_threshold : F

module _ {F : Type 0} ⦃fl : Float F⦄ where
  -- `__init__`, which raises on the settings that it refuses.
  unfoldable pub new_hampel : ℕ → F → F → Option (Hampel F)
  new_hampel size n_sigma min_threshold =
      if ltb size 1 || n_sigma <F nought || min_threshold <F nought
      then none
      else some
          (record { window = []; size = size; n_sigma = n_sigma; min_threshold = min_threshold })

  unfoldable pub reset : Hampel F → Hampel F
  reset h = record h { window = [] }

  -- The newest entries, as a deque of at most `size` keeps them.
  unfoldable pub newest : ℕ → List F → List F
  newest size xs = drop (length xs - size) xs

  unfoldable pub threshold_of : Hampel F → F → List F → F
  unfolding median
  threshold_of h middle window =
      let mad = median (map (λ x. fabs (x -F middle)) window) in
      fmax (h.n_sigma *F fl.decimal (pos 14_826) 4 *F mad) h.min_threshold

  -- An outlier: the phases are scaled to the median, or share it evenly.
  unfoldable pub replaced : F → F → List F → List F
  replaced total middle raw =
      let few = fabs total *F whole 4 <F fabs middle in
      if few || fabs total <F fl.decimal (pos 1) 9
      then replicate (length raw) (middle /F whole (length raw))
      else map (λ v. v *F (middle /F total)) raw

  -- What a full window makes of a reading.
  unfoldable pub passed : Hampel F → List F → List F
  passed h raw =
      let total = fsum nought raw in
      let middle = median h.window in
      let threshold = threshold_of h middle h.window in
      if threshold ≤F nought || fabs (total -F middle) ≤F threshold
      then raw
      else replaced total middle raw

  -- `get_powermeter_watts`: the filter after it and the reading.
  unfoldable pub filtered : List F → Hampel F → Hampel F × List F
  filtered [] h = (h, [])
  filtered (v ∷ vs) h =
      let raw = v ∷ vs in
      let seen = record h { window = newest h.size (h.window ++ (fsum nought raw ∷ [])) } in
      (seen, if ltb (length seen.window) h.size then raw else passed seen raw)

  -- A history of readings.
  unfoldable pub replayed : List (List F) → Hampel F → Hampel F
  replayed [] h = h
  replayed (raw ∷ raws) h = replayed raws (filtered raw h).0
