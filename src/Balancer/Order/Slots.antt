-- ===== src/Balancer/Order/Slots.antt =====
-- How many batteries `_active_slots` keeps active.
use astra_meter.Prelude.{ℕ, ◌≤◌, ◌<◌, Bool, true, arith}
use astra_meter.Prelude.Int.{ℤ, pos, pos_part}
use astra_meter.Prelude.Float.{Float, ◌*F◌, ◌/F◌}
use astra_meter.Balancer.Config.{Config, efficient_power}
use astra_meter.Balancer.Order.{active_slots}

module _ {F : Type 0} ⦃fl : Float F⦄ where
  -- Of one battery or more, at least one keeps an active slot, and no more than there are.
  pub active_slots_bounds :
      (cfg : Config F) (dir : ℤ) (abs_target : F) (n : ℕ) (limiting : Bool) (prev : ℕ)
      → 1 ≤ n
      → (1 ≤ active_slots cfg dir abs_target n limiting prev)
        × (active_slots cfg dir abs_target n limiting prev ≤ n)
  unfolding active_slots
  active_slots_bounds cfg dir abs_target n limiting prev h = ground arith

  -- A pool that is limited to `prev` active batteries, at least one, and grows without all becoming
  -- active, grows to no more than the whole number of times that 1.2 thresholds go into the demand.
  pub active_slots_growth :
      (cfg : Config F) (dir : ℤ) (abs_target : F) (n prev : ℕ)
      → 1 ≤ prev
      → prev < active_slots cfg dir abs_target n true prev
      → active_slots cfg dir abs_target n true prev < n
      → active_slots cfg dir abs_target n true prev
        ≤ pos_part (fl.truncate (abs_target /F (efficient_power cfg dir *F fl.decimal (pos 12) 1)))
  unfolding active_slots
  active_slots_growth cfg dir abs_target n prev one more less = ground arith
