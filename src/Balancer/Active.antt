-- ===== src/Balancer/Active.antt =====
-- The active set of `LoadBalancer` in src/astrameter/ct002/balancer.py from one poll to the next, and
-- the fade of the weights.
pub mod Standby
use astra_meter.Prelude.{
  ℕ, ◌-◌, Bool, true, false, ◌&&◌, ◌||◌, not, List, [], ◌∷◌, none, some, ltb, if◌then◌else◌, length,
  take, drop, map,
}
use astra_meter.Prelude.Int.{pos}
use astra_meter.Prelude.Text.{Text, same, elem}
use astra_meter.Prelude.Dict.{get}
use astra_meter.Prelude.Float.{Float, ◌<F◌, ◌≤F◌, ◌+F◌, ◌-F◌, ◌*F◌, nought, whole, fmin, fabs}
use astra_meter.Balancer.Control.{same_floats}
use astra_meter.Balancer.Config.{efficiency_enabled}
use astra_meter.Balancer.Pool.{
  LoadBalancer, state_of, change, with_fade, invalidate_efficiency_cache, promote_to_active,
  forget_saturation, prune_pool, clear_post_probe_fade, probe_participants,
}
use astra_meter.Balancer.Order.{Reports, sync_pool, active_slots, rotate_priority_head}
use astra_meter.Balancer.Probe.{resolve_probe, ended, without}
use astra_meter.Balancer.Rotation.{
  demand_estimate, active_slot_saturated, force_swap_saturated, fold_states,
  probe_active_set_change,
}

same_texts : List Text → List Text → Bool
same_texts [] [] = true
same_texts (a ∷ s) (b ∷ t) = same a b && same_texts s t
same_texts _ _ = false

module _ {F : Type 0} ⦃fl : Float F⦄ where
  -- The end of `_compute_efficiency_deprioritized`: the new set, its cache entry and the result.
  unfoldable pub settle : Reports F → List F → ℕ → LoadBalancer F → LoadBalancer F × List (Text × F)
  unfolding fold_states forget_saturation without
  settle reports sample_id slots b =
      let deprioritized = drop slots b.priority in
      let result = map (λ cid. (cid, nought)) deprioritized in
      let forgotten = fold_states forget_saturation (without deprioritized b.deprioritized) b in
      (
        record forgotten {
          deprioritized = deprioritized;
          cache_sample = some (sample_id, b.priority);
          cache_result = some result;
        },
        result,
      )

  unfoldable pub is_cached : List F → LoadBalancer F → Bool
  unfolding same_floats same_texts
  is_cached sample_id b = elim b.cache_sample [
    | none ↦ false
    | some (s, order) ↦ same_floats sample_id s && same_texts b.priority order
  ]

  -- Those of `cids` that `others` does not hold return to the active set.
  unfoldable pub join_active : F → F → List Text → List Text → LoadBalancer F → LoadBalancer F
  unfolding fold_states promote_to_active without
  join_active grace now cids others b =
      fold_states (promote_to_active grace now) (without cids others) b

  -- The swap of a saturated battery, where no probe owns the active set.
  unfoldable pub swap_saturated :
      Reports F → F → F → F → ℕ → List Text → LoadBalancer F → LoadBalancer F
  unfolding force_swap_saturated join_active
  swap_saturated reports grid_total now grace slots before b =
      let (swapped, done) = force_swap_saturated reports grid_total now slots b in
      if done then join_active grace now (take slots swapped.priority) before swapped else swapped

  -- The active set of `slots` batteries, up to the new set itself: `probing` says that a probe owns
  -- the active set.
  unfoldable pub rearranged :
      Reports F → F → F → F → List Text → ℕ → Bool → LoadBalancer F → LoadBalancer F
  unfolding join_active swap_saturated probe_active_set_change
  rearranged reports grid_total now grace previous slots probing b =
      let joined = join_active grace now b.deprioritized (drop slots b.priority) b in
      if probing
      then joined
      else probe_active_set_change previous slots now
          (swap_saturated reports grid_total now grace slots (take slots b.priority) joined)

  -- `slots` of `_compute_efficiency_deprioritized`.
  unfoldable pub slots_for : F → ℕ → LoadBalancer F → ℕ
  unfolding active_slots
  slots_for abs_target prev_slots b =
      active_slots b.cfg b.demand_dir abs_target (length b.priority)
        (ltb 0 (length b.deprioritized)) prev_slots

  -- The part of `_compute_efficiency_deprioritized` behind the cache.
  unfoldable pub reselect :
      Reports F
      → List F
      → F
      → F
      → F
      → List Text
      → ℕ
      → Bool
      → LoadBalancer F
      → LoadBalancer F × List (Text × F)
  unfolding demand_estimate slots_for rearranged settle
  reselect reports sample_id grid_total now grace previous prev_slots probing b =
      let (estimated, abs_target) = demand_estimate reports grid_total b in
      let slots = slots_for abs_target prev_slots estimated in
      settle reports sample_id slots
        (rearranged reports grid_total now grace previous slots probing estimated)

  -- `_compute_efficiency_deprioritized`: the weights of the batteries that stand by.
  unfoldable pub compute_efficiency_deprioritized :
      Reports F → List F → F → F → LoadBalancer F → LoadBalancer F × List (Text × F)
  unfolding sync_pool resolve_probe rotate_priority_head active_slot_saturated is_cached reselect
      invalidate_efficiency_cache
  compute_efficiency_deprioritized reports sample_id grid_total now b =
      let off : LoadBalancer F × List (Text × F) =
        (invalidate_efficiency_cache (record b { probe_state = none; deprioritized = [] }), []) in
      let grace = now +F fmin b.saturation_grace_seconds b.cfg.efficiency_rotation_interval in
      let synced = sync_pool reports grace now b in
      let prev_slots = length synced.priority - length synced.deprioritized in
      let previous = take prev_slots synced.priority in
      let (resolved, outcome) = resolve_probe reports now grid_total synced in
      let probing = elim resolved.probe_state as (λ _. Bool) [
        | none ↦ ended outcome
        | some _ ↦ true
      ] in
      let rotated =
        if probing then resolved else rotate_priority_head reports now prev_slots resolved in
      let checked =
        if not probing && active_slot_saturated prev_slots rotated
        then invalidate_efficiency_cache rotated
        else rotated in
      let cached : List (Text × F) = elim checked.cache_result [ none ↦ [] | some r ↦ r ] in
      if not (efficiency_enabled b.cfg) || ltb (length reports) 2
      then off
      else if is_cached sample_id checked
      then (checked, cached)
      else reselect reports sample_id grid_total now grace previous prev_slots probing checked

  -- One battery of `_fade_efficiency_weights`: its new weight.
  unfoldable pub faded : LoadBalancer F → List (Text × F) → F → Text → F
  unfolding state_of probe_participants
  faded b raw now cid =
      let goal : F = elim (get cid raw) [ none ↦ whole 1 | some g ↦ g ] in
      let prev = (state_of b cid).fade_weight in
      let alpha = b.cfg.efficiency_fade_alpha in
      let effective_alpha =
        if now <F b.post_probe_fade_until && elem cid b.post_probe_fade_ids
        then fmin alpha (fl.decimal (pos 25) 2)
        else alpha in
      let new = prev +F effective_alpha *F (goal -F prev) in
      if elem cid (probe_participants b)
      then whole 1
      else if fabs (new -F goal) <F fl.decimal (pos 5) 2
      then goal
      else new

  fade_states : List (Text × F) → F → List Text → LoadBalancer F → LoadBalancer F × List (Text × F)
  unfolding faded change
  fade_states raw now [] b = (b, [])
  fade_states raw now (cid ∷ cids) b =
      let new = faded b raw now cid in
      let (last, result) = fade_states raw now cids (change (with_fade new) cid b) in
      (
        last,
        if not (elem cid (probe_participants b)) && new <F whole 1
            then (cid, new) ∷ result
            else result,
      )

  -- `_fade_efficiency_weights`.
  unfoldable pub fade_efficiency_weights :
      List (Text × F) → List Text → F → LoadBalancer F → LoadBalancer F × List (Text × F)
  unfolding fade_states clear_post_probe_fade prune_pool
  fade_efficiency_weights raw ids now b =
      let (stepped, result) = fade_states raw now ids b in
      let cleared =
        if now <F b.post_probe_fade_until then stepped else clear_post_probe_fade stepped in
      (prune_pool ids cleared, result)
