-- ===== src/Balancer/Probe.antt =====
-- The probes of `LoadBalancer` in src/astrameter/ct002/balancer.py: a battery that takes over an
-- active slot is on trial until it delivers. `reset_fn`, which the source calls where a probe is
-- committed or rejected, is not part of this state.
pub mod Outcomes
use astra_meter.Prelude.{
  Option, ℕ, ◌+◌, Bool, true, false, ◌&&◌, not, List, [], ◌∷◌, ◌++◌, none, some, leb, ltb,
  if◌then◌else◌, filter, length,
}
use astra_meter.Prelude.Int.{ℤ, pos, ◌+ℤ◌, eqb_ℤ, abs, ltb_ℤ}
use astra_meter.Prelude.Text.{Text, elem}
use astra_meter.Prelude.Dict.{keys}
use astra_meter.Prelude.Float.{Float, ◌≤F◌, ◌+F◌, ◌*F◌, ◌/F◌, nought, whole, fmax, fmin}
use astra_meter.Balancer.State.{report_of, sign, minus_one}
use astra_meter.Balancer.Saturation.{clear}
use astra_meter.Balancer.Order.{Reports}
use astra_meter.Balancer.Pool.{
  LoadBalancer, ProbeState, change, change_all, with_fade, invalidate_efficiency_cache,
  clear_probe_state, clear_post_probe_fade, set_consumer_grace, clear_consumer_grace,
}

-- The members of `xs` that `ys` does not hold.
unfoldable pub without : List Text → List Text → List Text
without xs ys = filter (λ cid. not (elem cid ys)) xs

unfoldable pub sign_ℤ : ℤ → ℤ
sign_ℤ a = if ltb_ℤ (pos 0) a then pos 1 else if ltb_ℤ a (pos 0) then minus_one else pos 0

-- The order after a rejected probe.
unfoldable pub restored : List Text → Text → List Text → List Text
unfolding without
restored restore candidate order =
    restore ++ (without order (candidate ∷ restore) ++ (candidate ∷ []))

-- How a poll leaves a probe. The state is that after it.
pub data Outcome : Type 0 where
  no_probe vanished committed rejected pending : Outcome

-- `_resolve_probe_state` returns whether the probe ended.
unfoldable pub ended : Outcome → Bool
ended no_probe = false
ended pending = false
ended _ = true

module _ {F : Type 0} ⦃fl : Float F⦄ where
  unfoldable pub next_probe_requested_abs : LoadBalancer F → F → F → F
  next_probe_requested_abs b current_requested_abs ceiling =
      let top = fmax nought ceiling in
      let base_step = fmax (whole 1) (b.probe_success_threshold *F fl.decimal (pos 25) 2) in
      if current_requested_abs ≤F nought
      then fmin top base_step
      else fmin top (
          fmax (current_requested_abs +F base_step)
            (current_requested_abs *F fl.decimal (pos 135) 2))

  unfoldable pub begin_probe :
      Text → List Text → List Text → List Text → F → LoadBalancer F → LoadBalancer F
  unfolding clear_post_probe_fade change_all change clear set_consumer_grace
      invalidate_efficiency_cache
  begin_probe candidate active backups restore now b =
      let deadline = now +F b.probe_timeout_seconds in
      let started = record b {
        probe_state = some (record {
          candidate_id = candidate;
          active_ids = active;
          backup_ids = backups;
          restore_active_ids = restore;
          deadline = deadline;
          started_at = now;
          proof_samples = 0;
          requested_power_abs = nought;
        });
      } in
      let faded =
        clear_post_probe_fade (change_all (with_fade (whole 1)) (active ++ backups) started) in
      invalidate_efficiency_cache
        (set_consumer_grace candidate deadline now (change clear candidate faded))

  unfoldable pub output : Reports F → Text → ℕ
  output reports cid = abs (report_of reports cid).power

  unfoldable pub total_output : Reports F → List Text → ℕ
  unfolding output
  total_output reports [] = 0
  total_output reports (cid ∷ cids) = output reports cid + total_output reports cids

  unfoldable pub fade_by_output : Reports F → ℕ → List Text → LoadBalancer F → LoadBalancer F
  unfolding change output
  fade_by_output reports total [] b = b
  fade_by_output reports total (cid ∷ cids) b =
      fade_by_output reports total cids
        (change (with_fade (whole (output reports cid) /F whole total)) cid b)

  unfoldable pub commit_probe : Reports F → F → ProbeState F → LoadBalancer F → LoadBalancer F
  unfolding total_output fade_by_output change_all clear_consumer_grace invalidate_efficiency_cache
  commit_probe reports now probe b =
      let participants =
        filter (λ cid. elem cid (keys reports)) (probe.active_ids ++ probe.backup_ids) in
      let total = total_output reports participants in
      let active_count = if ltb 1 (length probe.active_ids) then length probe.active_ids else 1 in
      let faded =
        if ltb 0 total
        then fade_by_output reports total participants b
        else change_all (with_fade nought) probe.backup_ids
            (change_all (with_fade (whole 1 /F whole active_count)) probe.active_ids b) in
      let cleared = clear_consumer_grace probe.candidate_id (record faded {
        post_probe_fade_until = now +F fmin (whole 5) b.probe_timeout_seconds;
        post_probe_fade_ids = participants;
      }) in
      invalidate_efficiency_cache (record cleared { probe_state = none; last_rotation = now })

  unfoldable pub reject_probe : ProbeState F → LoadBalancer F → LoadBalancer F
  unfolding restored change change_all clear_consumer_grace clear_post_probe_fade
      invalidate_efficiency_cache
  reject_probe probe b =
      let failed =
        change
          (λ s. record s {
            saturation_score = fmax s.saturation_score (whole 1);
            fade_weight = nought;
          })
          probe.candidate_id b in
      let back = clear_post_probe_fade (
        clear_consumer_grace probe.candidate_id
          (change_all (with_fade (whole 1)) probe.restore_active_ids failed)) in
      invalidate_efficiency_cache (record back {
        priority = restored probe.restore_active_ids probe.candidate_id back.priority;
        probe_state = none;
      })

  unfoldable pub sum_power : Reports F → ℤ
  sum_power [] = pos 0
  sum_power ((_, r) ∷ reports) = r.power +ℤ sum_power reports

  -- One more sample of the candidate's output, with the demand's sign and the threshold.
  unfoldable pub proven : LoadBalancer F → ProbeState F → Reports F → F → ProbeState F
  unfolding sign sign_ℤ output
  proven b probe reports grid_total =
      let actual = (report_of reports probe.candidate_id).power in
      let demand_sign = sign (fl.of_int (sum_power reports) +F grid_total) in
      let delivers =
        not (eqb_ℤ demand_sign (pos 0))
        && eqb_ℤ (sign_ℤ actual) demand_sign
        && b.probe_success_threshold ≤F whole (abs actual) in
      record probe { proof_samples = if delivers then probe.proof_samples + 1 else 0 }

  -- A poll during a probe.
  unfoldable pub resolve_running :
      Reports F → F → F → LoadBalancer F → ProbeState F → LoadBalancer F × Outcome
  unfolding clear_probe_state
  resolve_running reports now grid_total b probe =
      let missing = without (probe.active_ids ++ probe.backup_ids) (keys reports) in
      let probe' = proven b probe reports grid_total in
      let sampled = record b { probe_state = some probe' } in
      if ltb 0 (length missing)
      then (clear_probe_state b, vanished)
      else if leb 2 probe'.proof_samples
      then (commit_probe reports now probe' sampled, committed)
      else if probe'.deadline ≤F now
      then (reject_probe probe' sampled, rejected)
      else (sampled, pending)

  resolve_at : Reports F → F → F → LoadBalancer F → Option (ProbeState F) → LoadBalancer F × Outcome
  unfolding resolve_running
  resolve_at reports now grid_total b none = (b, no_probe)
  resolve_at reports now grid_total b (some probe) = resolve_running reports now grid_total b probe

  -- `_resolve_probe_state`.
  unfoldable pub resolve_probe : Reports F → F → F → LoadBalancer F → LoadBalancer F × Outcome
  unfolding resolve_at
  resolve_probe reports now grid_total b = resolve_at reports now grid_total b b.probe_state
