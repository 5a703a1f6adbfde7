-- ===== src/Tests/FiltersRuns.antt =====
-- Runs of the filters of src/astrameter/powermeter/wrappers.
use astra_meter.Prelude.{◌++◌, refl, ◌≡◌, [], ◌∷◌, some, arith}
use astra_meter.Prelude.Int.{pos, neg, ◌+ℤ◌, ◌-ℤ◌, ◌*ℤ◌, quot_ℤ}
use astra_meter.Prelude.Float.{Milli-IsRounded, milli_float, Milli, whole, nought}
use astra_meter.Prelude.Series.{replicate}
use astra_meter.Filters.Hampel.{Hampel, filtered, newest, passed, replaced, replayed, threshold_of}
use astra_meter.Filters.Hampel.Window.{replayed-window, totals}
use astra_meter.Filters.Hampel.Follows.{Milli-IsHalving, filtered-sustained}
use astra_meter.Filters.Transform.{Transform, apply_transform}
use astra_meter.Filters.Smoothing.{smoothed, deadbanded, new_smoothed}
use astra_meter.Filters.Pid.{Pid, bias, controlled, regulate}
use astra_meter.Filters.Pid.Held.{IsHeld, regulate-IsHeld}

-- A window of three, filled by readings around 100 W.
abbrev calm : Hampel Milli
calm = record {
  window = whole 100 ∷ whole 110 ∷ whole 90 ∷ [];
  size = 3;
  n_sigma = whole 3;
  min_threshold = whole 10;
}

-- A spike of 900 W on two phases is scaled to the median of 110 W, up to rounding.
filtered_spike : (filtered (whole 450 ∷ whole 450 ∷ []) calm).1 ≡ pos 54_900 ∷ pos 54_900 ∷ []
unfolding filtered newest passed threshold_of quot_ℤ ◌*ℤ◌ ◌-ℤ◌ ◌+ℤ◌ replaced
filtered_spike = refl

replayed-window_example :
    (replayed ((whole 900 ∷ []) ∷ [] ∷ (whole 80 ∷ []) ∷ []) calm).window
    ≡ newest 3 (calm.window ++ totals ((whole 900 ∷ []) ∷ [] ∷ (whole 80 ∷ []) ∷ []))
replayed-window_example =
    replayed-window ((whole 900 ∷ []) ∷ [] ∷ (whole 80 ∷ []) ∷ []) calm (omega arith)

-- The third reading of 900 W in a row passes.
filtered-sustained_example :
    (filtered (whole 900 ∷ []) (replayed (replicate 2 (whole 900 ∷ [])) calm)).1 ≡ whole 900 ∷ []
filtered-sustained_example =
    filtered-sustained Milli-IsRounded Milli-IsHalving 2 (whole 900 ∷ []) calm (omega arith)
      (omega arith) (omega arith)

-- A fifth of the way from 100 W to 200 W, on two phases.
smoothed_run :
    (smoothed
      (whole 150 ∷ whole 50 ∷ [])
      (record (new_smoothed (quot_ℤ (whole 1) (pos 5)) nought) { value = some (whole 100) })).1
    ≡ whole 90 ∷ whole 30 ∷ []
unfolding smoothed new_smoothed ◌+ℤ◌ ◌*ℤ◌ quot_ℤ ◌-ℤ◌
smoothed_run = refl

deadbanded_run : deadbanded (whole 20) (whole 15 ∷ neg (pos 10_000) ∷ []) ≡ nought ∷ nought ∷ []
unfolding deadbanded ◌*ℤ◌ ◌+ℤ◌ neg
deadbanded_run = refl

-- A controller of the integral alone, a second after an error of -100 W.
abbrev controller : Pid Milli
controller = record {
  kp = nought;
  ki = quot_ℤ (whole 1) (pos 2);
  kd = nought;
  output_max = whole 800;
  mode = bias;
  integral = nought;
  previous = some (record { error = neg (pos 100_000); time = whole 9 });
}

-- The error of -100 W is integrated.
controlled_run :
    (controlled (whole 10) (whole 60 ∷ whole 40 ∷ []) controller).1 ≡ whole 35 ∷ whole 15 ∷ []
unfolding controlled ◌*ℤ◌ ◌+ℤ◌ quot_ℤ ◌-ℤ◌ neg
controlled_run = refl

-- An integral at the limit that unwinds goes far beyond the limit of the other side in one step.
controlled_overshoot :
    let p = record controller { integral = whole 1600 } in
    (regulate (whole 10) (whole 10_000) p).0.integral ≡ neg (whole 8400)
unfolding neg regulate ◌*ℤ◌ ◌+ℤ◌ ◌-ℤ◌ quot_ℤ
controlled_overshoot = refl

regulate-IsHeld_example :
    IsHeld controller (whole 10) (whole 10_000) (regulate (whole 10) (whole 10_000) controller)
unfolding ◌*ℤ◌
regulate-IsHeld_example = regulate-IsHeld Milli-IsRounded (whole 10) (whole 10_000) controller refl

-- One offset for all phases, and two multipliers in turn.
abbrev scaling : Transform Milli
scaling = record { offsets = whole 5 ∷ []; multipliers = whole 2 ∷ whole 1 ∷ [] }

apply_transform_run :
    apply_transform scaling (whole 10 ∷ whole 20 ∷ whole 30 ∷ [])
    ≡ whole 25 ∷ whole 25 ∷ whole 65 ∷ []
unfolding apply_transform ◌*ℤ◌ ◌+ℤ◌ quot_ℤ
apply_transform_run = refl
