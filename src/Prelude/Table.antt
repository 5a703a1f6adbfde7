-- ===== src/Prelude/Table.antt =====
-- Tests of all numbers below a bound, which run when the definitions are checked.
use astra_meter.Prelude.{ℕ, zero, suc, ◌<◌, ◌≡◌, Bool, true, if◌then◌else◌, arith}

module _ (passes : ℕ → Bool) where
  unfoldable pub each_below : ℕ → Bool
  each_below zero = true
  each_below (suc bound) =
      let rest = each_below bound in if passes bound then rest else passes bound

  pub passes_of_each_below :
      {bound : ℕ} (k : ℕ) → k < bound → each_below bound ≡ true → passes k ≡ true
  unfolding each_below
  passes_of_each_below {bound = zero} k small all = elim small [ ]
  passes_of_each_below {bound = suc bound} k small all =
      ground (arith, passes_of_each_below {bound = bound} k)
