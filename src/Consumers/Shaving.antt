-- ===== src/Consumers/Shaving.antt =====
-- Peak shaving of `CT002` in src/astrameter/ct002/ct002.py: `_peakshaving` and `_probe_output`.
pub mod Hold
use astra_meter.Prelude.{ℕ, Bool, true, false, ◌&&◌, not, List, [], ◌∷◌, leb, if◌then◌else◌, any}
use astra_meter.Prelude.Int.{ℤ, pos, ◌+ℤ◌, abs, ltb_ℤ}
use astra_meter.Prelude.Text.{Text}
use astra_meter.Prelude.Float.{Float, ◌<F◌, ◌≤F◌, ◌+F◌, ◌-F◌, nought, fmin}
use astra_meter.Consumers.Requests.{is_steered}
use astra_meter.Consumers.Store.{Consumer, Ct002, consumer_expired}

-- The sum, and the tests that `_peakshaving` makes of `min`, `max` and `all`.
unfoldable pub sum : List ℤ → ℤ
sum [] = pos 0
sum (p ∷ ps) = p +ℤ sum ps

abbrev pub idle_band : ℕ
idle_band = 100

unfoldable pub in_band : List ℤ → Bool
in_band ps = not (any (λ p. not (leb (abs p) idle_band)) ps)

-- `min(steered, default=0) < 0 < max(steered, default=0)`.
unfoldable pub trades : List ℤ → Bool
trades ps = any (λ p. ltb_ℤ p (pos 0)) ps && any (λ p. ltb_ℤ (pos 0) p) ps

module _ {F : Type 0} ⦃fl : Float F⦄ where
  -- The powers of the consumers that pass.
  unfoldable pub powers : (Consumer F → Bool) → List (Text × Consumer F) → List ℤ
  powers p [] = []
  powers p ((_, c) ∷ d) = let rest = powers p d in if p c then c.power ∷ rest else rest

  -- Whether the balancer steers a consumer at present.
  unfoldable pub is_driven : Ct002 F → F → Consumer F → Bool
  unfolding is_steered consumer_expired
  is_driven s now c =
      nought <F c.timestamp
      && is_steered c.phase
      && c.active
      && c.participates
      && not c.manual_enabled
      && not (consumer_expired s now c)

  -- `_peakshaving`.
  unfoldable pub peakshaving : F → Ct002 F → F → F × Bool
  unfolding powers is_driven sum in_band trades
  peakshaving total s now =
      let steered = powers (is_driven s now) s.consumers in
      let household_demand = total +F fl.of_int (sum steered) in
      let hold = household_demand ≤F s.peakshaving_threshold && in_band steered && trades steered in
      if s.peakshaving_threshold ≤F nought
      then (total, false)
      else if household_demand ≤F nought
      then (total, false)
      else (total -F fmin household_demand s.peakshaving_threshold, hold)

  -- `_probe_output`.
  unfoldable pub probe_output : Ct002 F → F → F
  unfolding powers is_steered consumer_expired sum
  probe_output s now = fl.of_int (
      sum (
        powers
          (λ c. nought <F c.timestamp && not (is_steered c.phase) && not (consumer_expired s now c))
          s.consumers))
