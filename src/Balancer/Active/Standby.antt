-- ===== src/Balancer/Active/Standby.antt =====
-- Which batteries stand by after a poll that chooses the active set anew.
use astra_meter.Prelude.{
  List-cases, ℕ, zero, suc, ◌≤◌, ◌≡◌, refl, ap, ◌∙◌, Bool, true, false, Bool-cases, Option-cases,
  inl, inr, List, [], ◌∷◌, arith, length, map, drop, take, set, get_elem?, ltb,
}
use astra_meter.Prelude.Text.{Text}
use astra_meter.Prelude.Float.{Float, nought}
use astra_meter.Balancer.Pool.{LoadBalancer, promote_to_active, forget_saturation}
use astra_meter.Balancer.Pool.Frame.{change_all-priority}
use astra_meter.Balancer.Order.{Reports}
use astra_meter.Balancer.Order.Slots.{active_slots_bounds}
use astra_meter.Balancer.Probe.{begin_probe, without}
use astra_meter.Balancer.Rotation.{
  update_demand_direction, demand_estimate, fold_states, swap_at, force_swap_saturated,
  swap_indices, probe_active_set_change,
}
use astra_meter.Balancer.Active.{
  slots_for, rearranged, swap_saturated, join_active, settle, reselect,
}

length-set : (l : List Text) (i : ℕ) (c : Text) → length (set l i c) ≡ length l
length-set [] i c = refl
length-set (x ∷ xs) zero c = refl
length-set (x ∷ xs) (suc i) c = ap suc (length-set xs i c)

length-swap_at : (i j : ℕ) (l : List Text) → length (swap_at i j l) ≡ length l
unfolding swap_at
length-swap_at i j l = elim (Option-cases (get_elem? l i)) [
  | inl e ↦ rw (e, swap_at)
  | inr (a, ea) ↦ elim (Option-cases (get_elem? l j)) [
    | inl e ↦ rw (ea, swap_at, e)
    | inr (b, eb) ↦ rw (ea, swap_at, eb) (length-set (set l i b) j a ∙ length-set l i b)
  ]
]

module _ {F : Type 0} ⦃fl : Float F⦄ where
  update_demand_direction-priority :
      (raw alpha : F) (b : LoadBalancer F)
      → (update_demand_direction raw alpha b).priority ≡ b.priority
  unfolding update_demand_direction
  update_demand_direction-priority raw alpha b = ground arith

  demand_estimate-priority :
      (reports : Reports F) (grid_total : F) (b : LoadBalancer F)
      → (demand_estimate reports grid_total b).0.priority ≡ b.priority
  unfolding demand_estimate
  demand_estimate-priority reports grid_total b = simp update_demand_direction-priority

  promote_all-priority :
      (grace now : F) (cids : List Text) (b : LoadBalancer F)
      → (fold_states (promote_to_active grace now) cids b).priority ≡ b.priority
  unfolding fold_states promote_to_active
  promote_all-priority grace now [] b = refl
  promote_all-priority grace now (cid ∷ cids) b =
      promote_all-priority grace now cids (promote_to_active grace now cid b)

  join_active-priority :
      (grace now : F) (cids others : List Text) (b : LoadBalancer F)
      → (join_active grace now cids others b).priority ≡ b.priority
  unfolding join_active
  join_active-priority grace now cids others b =
      promote_all-priority grace now (without cids others) b

  forget_saturation-priority :
      (cid : Text) (b : LoadBalancer F) → (forget_saturation cid b).priority ≡ b.priority
  unfolding forget_saturation
  forget_saturation-priority cid b = ground arith

  forget_all-priority :
      (cids : List Text) (b : LoadBalancer F)
      → (fold_states forget_saturation cids b).priority ≡ b.priority
  unfolding fold_states
  forget_all-priority [] b = refl
  forget_all-priority (cid ∷ cids) b =
      forget_all-priority cids (forget_saturation cid b) ∙ forget_saturation-priority cid b

  begin_probe-priority :
      (candidate : Text) (active backups restore : List Text) (now : F) (b : LoadBalancer F)
      → (begin_probe candidate active backups restore now b).priority ≡ b.priority
  unfolding begin_probe
  begin_probe-priority candidate active backups restore now b = simp change_all-priority

  probe_active_set_change-priority :
      (previous : List Text) (slots : ℕ) (now : F) (b : LoadBalancer F)
      → (probe_active_set_change previous slots now b).priority ≡ b.priority
  unfolding probe_active_set_change
  probe_active_set_change-priority previous slots now b =
      elim (List-cases (without (take slots b.priority) previous)) [
        | inl e ↦ rw (e, probe_active_set_change)
        | inr (candidate, _, e) ↦ elim (List-cases (without previous (take slots b.priority))) [
          | inl e' ↦ rw (e, probe_active_set_change, e')
          | inr (backup, backups, e') ↦
              rw (e, probe_active_set_change, e')
                (begin_probe-priority candidate (take slots b.priority) (backup ∷ backups) previous
                  now b)
        ]
      ]

  force_swap_saturated-length :
      (reports : Reports F) (grid_total now : F) (slots : ℕ) (b : LoadBalancer F)
      → length (force_swap_saturated reports grid_total now slots b).0.priority ≡ length b.priority
  unfolding force_swap_saturated
  force_swap_saturated-length reports grid_total now slots b =
      elim (Option-cases (swap_indices reports grid_total slots b)) [
        | inl e ↦ rw (e, force_swap_saturated)
        | inr ((i, j), e) ↦ rw (e, force_swap_saturated) (length-swap_at i j b.priority)
      ]

  swap_saturated-length :
      (reports : Reports F) (grid_total now grace : F) (slots : ℕ) (before : List Text)
      (b : LoadBalancer F)
      → length (swap_saturated reports grid_total now grace slots before b).priority
        ≡ length b.priority
  unfolding swap_saturated
  swap_saturated-length reports grid_total now grace slots before b =
      elim (Bool-cases (force_swap_saturated reports grid_total now slots b).1) [
        | inl e ↦
            rw
              (
                e,
                swap_saturated,
                join_active-priority grace now
                    (take slots (force_swap_saturated reports grid_total now slots b).0.priority)
                    before (force_swap_saturated reports grid_total now slots b).0,
              )
              (force_swap_saturated-length reports grid_total now slots b)
        | inr e ↦
            rw (e, swap_saturated) (force_swap_saturated-length reports grid_total now slots b)
      ]

  rearranged-length :
      (reports : Reports F) (grid_total now grace : F) (previous : List Text) (slots : ℕ)
      (probing : Bool) (b : LoadBalancer F)
      → length (rearranged reports grid_total now grace previous slots probing b).priority
        ≡ length b.priority
  unfolding rearranged
  rearranged-length reports grid_total now grace previous slots true b = simp join_active-priority
  rearranged-length reports grid_total now grace previous slots false b =
      simp (probe_active_set_change-priority, swap_saturated-length, join_active-priority)

  -- The batteries that stand by are those behind the first `slots` of the order, at least one
  -- battery is active, and the result gives each that stands by the weight 0.
  pub record IsSettled (b : LoadBalancer F) (result : List (Text × F)) : Type 0 where
    pub slots : ℕ
    pub some_active : 1 ≤ slots
    pub within : slots ≤ length b.priority
    pub standby : b.deprioritized ≡ drop slots b.priority
    pub weights : result ≡ map (λ cid. (cid, nought)) b.deprioritized

  settle-IsSettled :
      (reports : Reports F) (sample_id : List F) (slots : ℕ) (b : LoadBalancer F)
      → 1 ≤ slots
      → slots ≤ length b.priority
      → let (b', result) = settle reports sample_id slots b in IsSettled b' result
  unfolding settle
  settle-IsSettled reports sample_id slots b one all =
      let same_order = forget_all-priority (without (drop slots b.priority) b.deprioritized) b in
      record {
        slots = slots;
        some_active = one;
        within = rw same_order all;
        standby = rw same_order;
        weights = refl;
      }

  slots_for-bounds :
      (abs_target : F) (prev_slots : ℕ) (b : LoadBalancer F)
      → 1 ≤ length b.priority
      → (1 ≤ slots_for abs_target prev_slots b)
        × (slots_for abs_target prev_slots b ≤ length b.priority)
  unfolding slots_for
  slots_for-bounds abs_target prev_slots b one =
      active_slots_bounds b.cfg b.demand_dir abs_target (length b.priority)
        (ltb 0 (length b.deprioritized)) prev_slots one

  -- A poll that chooses the active set anew leaves the front of the order active, at least one
  -- battery, and gives every battery behind it the weight 0, whether a probe runs or not, and whether
  -- a saturated battery is swapped or not, given an order that is not empty.
  pub reselect-IsSettled :
      (reports : Reports F) (sample_id : List F) (grid_total now grace : F) (previous : List Text)
      (prev_slots : ℕ) (probing : Bool) (b : LoadBalancer F)
      → 1 ≤ length b.priority
      → let (b', result) =
          reselect reports sample_id grid_total now grace previous prev_slots probing b in
        IsSettled b' result
  unfolding reselect
  reselect-IsSettled reports sample_id grid_total now grace previous prev_slots probing b one =
      let estimate = demand_estimate reports grid_total b in
      let same_order = demand_estimate-priority reports grid_total b in
      let slots = slots_for estimate.1 prev_slots estimate.0 in
      let bounds = slots_for-bounds estimate.1 prev_slots estimate.0 (rw same_order one) in
      let rest = rearranged reports grid_total now grace previous slots probing estimate.0 in
      settle-IsSettled reports sample_id slots rest bounds.0 (
        rw (rearranged-length reports grid_total now grace previous slots probing estimate.0)
          bounds.1)
