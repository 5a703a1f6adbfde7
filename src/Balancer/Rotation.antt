-- ===== src/Balancer/Rotation.antt =====
-- Which batteries `LoadBalancer` of src/astrameter/ct002/balancer.py keeps active for efficiency:
-- demand, saturation swaps, the active set and the fade of the weights.
pub mod Swap
use astra_meter.Prelude.{
  ℕ, suc, Bool, true, false, ◌&&◌, ◌||◌, not, List, [], ◌∷◌, Option, none, some, leb, if◌then◌else◌,
  length, any, take, drop, get_elem?, set,
}
use astra_meter.Prelude.Int.{ℤ, pos, ◌+ℤ◌, neg}
use astra_meter.Prelude.Text.{Text}
use astra_meter.Prelude.Dict.{get}
use astra_meter.Prelude.Float.{Float, ◌<F◌, ◌≤F◌, ◌+F◌, ◌-F◌, ◌*F◌, nought, whole, fabs}
use astra_meter.Balancer.State.{report_of, is_ac_chargeable}
use astra_meter.Balancer.Pool.{LoadBalancer}
use astra_meter.Balancer.Order.{Reports, window_weight, is_parked}
use astra_meter.Balancer.Probe.{sum_power, begin_probe, without}

-- The first text that passes, with the index at which it stands, counted from i.
unfoldable pub find_from : ℕ → (Text → Bool) → List Text → Option ℕ
find_from i p [] = none
find_from i p (x ∷ xs) = let rest = find_from (suc i) p xs in if p x then some i else rest

-- `l[i], l[j] = l[j], l[i]`.
unfoldable pub swap_at : ℕ → ℕ → List Text → List Text
swap_at i j l = elim (get_elem? l i) [
  | none ↦ l
  | some a ↦ elim (get_elem? l j) [ none ↦ l | some b ↦ set (set l i b) j a ]
]

module _ {F : Type 0} ⦃fl : Float F⦄ where
  unfoldable pub sum_power_of : Reports F → List Text → ℤ
  sum_power_of reports [] = pos 0
  sum_power_of reports (cid ∷ cids) = (report_of reports cid).power +ℤ sum_power_of reports cids

  -- `_update_demand_direction`.
  unfoldable pub update_demand_direction : F → F → LoadBalancer F → LoadBalancer F
  update_demand_direction raw_target alpha b =
      let first = if raw_target <F nought then neg (pos 1) else pos 1 in
      let seeded : LoadBalancer F = elim b.demand_signed_ema [
        | none ↦ record b { demand_signed_ema = some raw_target; demand_dir = first }
        | some ema ↦
            if whole 1 ≤F alpha
            then record b { demand_signed_ema = some raw_target }
            else record b { demand_signed_ema = some (ema +F alpha *F (raw_target -F ema)) }
      ] in
      let ema : F = elim seeded.demand_signed_ema [ none ↦ nought | some v ↦ v ] in
      if ema *F fl.of_int seeded.demand_dir <F fl.of_int (neg (pos 50))
      then record seeded { demand_dir = neg seeded.demand_dir }
      else seeded

  -- `_demand_estimate`: the new state and the estimate.
  unfoldable pub demand_estimate : Reports F → F → LoadBalancer F → LoadBalancer F × F
  unfolding update_demand_direction sum_power_of
  demand_estimate reports grid_total b =
      let raw_target = fl.of_int (sum_power_of reports b.priority) +F grid_total in
      let raw_abs_target = fabs raw_target in
      let alpha = b.cfg.efficiency_demand_alpha in
      let estimate : F = elim b.demand_ema [
        | none ↦ raw_abs_target
        | some ema ↦
            if whole 1 ≤F alpha then raw_abs_target else ema +F alpha *F (raw_abs_target -F ema)
      ] in
      (update_demand_direction raw_target alpha (record b { demand_ema = some estimate }), estimate)

  -- Whether a battery is known and saturated.
  unfoldable pub is_saturated : LoadBalancer F → Text → Bool
  is_saturated b cid = elim (get cid b.consumers) [
    | none ↦ false
    | some s ↦ b.cfg.efficiency_saturation_threshold ≤F s.saturation_score
  ]

  unfoldable pub active_slot_saturated : ℕ → LoadBalancer F → Bool
  unfolding is_saturated
  active_slot_saturated slots b = elim b.cache_sample [
    | none ↦ false
    | some _ ↦
        not (b.cfg.efficiency_saturation_threshold ≤F nought)
        && any (is_saturated b) (take slots b.priority)
  ]

  -- A standby battery that may take the slot of a saturated one.
  unfoldable pub is_healthy : Reports F → Bool → Bool → LoadBalancer F → Text → Bool
  unfolding is_parked
  is_healthy reports saturated_leads surplus b cid =
      if saturated_leads && is_parked reports cid
        || surplus && not (is_ac_chargeable (report_of reports cid).device_type)
      then false
      else elim (get cid b.consumers) [
        | none ↦ true
        | some s ↦ s.saturation_score <F b.cfg.efficiency_saturation_threshold
      ]

  -- Whether the pool has power left over, and whether the battery at an index may lead.
  unfoldable pub has_surplus : Reports F → F → Bool
  has_surplus reports grid_total = fl.of_int (sum_power reports) +F grid_total <F nought

  unfoldable pub leads_at : Reports F → List Text → ℕ → Bool
  leads_at reports order i = elim (get_elem? order i) [
    | none ↦ false
    | some cid ↦ nought <F window_weight reports cid
  ]

  -- The indices that `_maybe_force_swap_saturated` swaps, where it finds both.
  unfoldable pub swap_indices : Reports F → F → ℕ → LoadBalancer F → Option (ℕ × ℕ)
  unfolding find_from is_saturated is_healthy has_surplus leads_at
  swap_indices reports grid_total slots b =
      let candidate = λ (i : ℕ).
        is_healthy reports (leads_at reports b.priority i) (has_surplus reports grid_total) b in
      if b.cfg.efficiency_saturation_threshold ≤F nought || leb (length b.priority) slots
      then none
      else elim (find_from 0 (is_saturated b) (take slots b.priority)) [
        | none ↦ none
        | some i ↦ elim (find_from slots (candidate i) (drop slots b.priority)) [
          | none ↦ none
          | some j ↦ some (i, j)
        ]
      ]

  unfoldable pub force_swap_saturated :
      Reports F → F → F → ℕ → LoadBalancer F → LoadBalancer F × Bool
  unfolding swap_indices swap_at
  force_swap_saturated reports grid_total now slots b =
      elim (swap_indices reports grid_total slots b) [
        | none ↦ (b, false)
        | some (i, j) ↦ (record b { priority = swap_at i j b.priority; last_rotation = now }, true)
      ]

  unfoldable pub fold_states :
      (Text → LoadBalancer F → LoadBalancer F) → List Text → LoadBalancer F → LoadBalancer F
  fold_states f [] b = b
  fold_states f (cid ∷ cids) b = fold_states f cids (f cid b)

  -- `_probe_active_set_change`. With no active set before, there is no battery to back the new one up.
  unfoldable pub probe_active_set_change : List Text → ℕ → F → LoadBalancer F → LoadBalancer F
  unfolding without
  probe_active_set_change previous slots now b =
      let final = take slots b.priority in
      elim (without final previous) [
        | [] ↦ b
        | candidate ∷ _ ↦ elim (without previous final) [
          | [] ↦ b
          | backup ∷ backups ↦ begin_probe candidate final (backup ∷ backups) previous now b
        ]
      ]
