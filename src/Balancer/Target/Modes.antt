-- ===== src/Balancer/Target/Modes.antt =====
-- The batteries that take no share: inactive ones and those that are parked.
use astra_meter.Prelude.{
  Option-cases, ◌≡◌, inl, inr, refl, true, false, Bool, Bool-cases, if◌then◌else◌, ◌||◌, not, List,
  ap, ◌∙◌,
}
use astra_meter.Prelude.Text.{Text, same, elem}
use astra_meter.Prelude.Dict.{get, keys}
use astra_meter.Prelude.Float.{Float, ◌≤F◌, nought}
use astra_meter.Prelude.Scale.{IsScaling}
use astra_meter.Balancer.State.{ConsumerState, Mode, auto, report_of}
use astra_meter.Balancer.Pool.{
  LoadBalancer, state_of, change, clear_probe_state, probe_participants,
}
use astra_meter.Balancer.Pool.Frame.{beside_put, change-others, clear_probe_state-consumers}
use astra_meter.Balancer.Order.{Reports}
use astra_meter.Balancer.Limits.{is_judged, tracked, track_ceiling}
use astra_meter.Balancer.Steer.{
  effective_min_dc_output, is_named, apply_min_dc_output, steer_to_zero,
}
use astra_meter.Balancer.Steer.Zero.{IsWindingDown, steer_to_zero-IsWindingDown}
use astra_meter.Balancer.Headroom.{observe}
use astra_meter.Balancer.Target.{
  scored, compute_target, auto_target, tracked_pool, track_saturation, excluding, winds_down,
  wound_down, is_nought,
}

module _ {F : Type 0} ⦃fl : Float F⦄ (law : IsScaling F) where
  -- One pool against another: the settings, and the states of all batteries but one.
  record IsBeside (cid : Text) (b b' : LoadBalancer F) : Type 0 where
    settings : b'.cfg ≡ b.cfg
    others :
        (other : Text) → same cid other ≡ false → get other b'.consumers ≡ get other b.consumers

  IsBeside-change :
      (f : ConsumerState F → ConsumerState F) (cid : Text) (b : LoadBalancer F)
      → IsBeside cid b (change f cid b)
  unfolding change
  IsBeside-change f cid b = record {
    settings = refl;
    others = λ other. change-others f cid other b;
  }

  IsBeside-if :
      (c : Bool) (cid : Text) (b b' : LoadBalancer F)
      → IsBeside cid b b'
      → IsBeside cid b (if c then b' else b)
  IsBeside-if true cid b b' h = h
  IsBeside-if false cid b b' h = record { settings = refl; others = λ other e. refl }

  IsBeside-twice :
      (cid : Text) (a b c : LoadBalancer F) → IsBeside cid a b → IsBeside cid b c → IsBeside cid a c
  IsBeside-twice cid a b c g h = record {
    settings = h.settings ∙ g.settings;
    others = λ other e. h.others other e ∙ g.others other e;
  }

  track_saturation-IsBeside :
      (cid : Text) (mode : Mode) (reports : Reports F) (now : F) (b : LoadBalancer F)
      → IsBeside cid b (track_saturation cid mode reports now b)
  unfolding track_saturation
  track_saturation-IsBeside cid mode reports now b =
      let f = scored b reports cid now in
      IsBeside-if (is_judged cid mode reports b) cid b (change f cid b) (IsBeside-change f cid b)

  track_ceiling-IsBeside :
      (cid : Text) (mode : Mode) (reports : Reports F) (now : F) (b : LoadBalancer F)
      → IsBeside cid b (track_ceiling cid mode reports now b)
  unfolding track_ceiling
  track_ceiling-IsBeside cid mode reports now b =
      let f = tracked (fl.of_int (report_of reports cid).power) now in
      let judged = is_judged cid mode reports b in
      elim (Bool-cases judged) [
        | inl e ↦ rw (e) (IsBeside-change f cid b)
        | inr e ↦ rw (e) (record { settings = refl; others = λ other h. refl })
      ]

  tracked_pool-IsBeside :
      (cid : Text) (mode : Mode) (active : Reports F) (by_hand : List Text) (now : F)
      (b : LoadBalancer F)
      → IsBeside cid b (tracked_pool cid mode active by_hand now b)
  unfolding tracked_pool
  tracked_pool-IsBeside cid mode active by_hand now b =
      let known = change (λ s. s) cid b in
      let judged = track_saturation cid mode active now known in
      let after = track_ceiling cid mode (excluding by_hand active) now judged in
      IsBeside-if (is_named cid) cid b after (
        IsBeside-twice cid b known after (IsBeside-change (λ s. s) cid b) (
          IsBeside-twice cid known judged after
            (track_saturation-IsBeside cid mode active now known)
            (track_ceiling-IsBeside cid mode (excluding by_hand active) now judged)))

  clear_probe_state-cfg : (b : LoadBalancer F) → (clear_probe_state b).cfg ≡ b.cfg
  unfolding clear_probe_state
  clear_probe_state-cfg b = elim (Option-cases b.probe_state) [
    | inl e ↦ rw (e) refl
    | inr (p, e) ↦ rw (e) refl
  ]

  cleared-IsBeside : (cid : Text) (b : LoadBalancer F) → IsBeside cid b (clear_probe_state b)
  cleared-IsBeside cid b = record {
    settings = clear_probe_state-cfg b;
    others = λ other h. ap (get other) (clear_probe_state-consumers b);
  }

  -- The pool that a parked battery winds down in.
  let_go : Text → LoadBalancer F → LoadBalancer F
  let_go cid b = if elem cid (probe_participants b) then clear_probe_state b else b

  -- What the poll notes, and the end of a probe, leave the batteries as they are.
  seen_and_free :
      (cid : Text) (reports : Reports F) (grid_total : F) (sample_id : List F) (now : F)
      (b : LoadBalancer F)
      → IsBeside cid b (let_go cid (observe reports grid_total sample_id now b).0)
  unfolding observe let_go
  seen_and_free cid reports grid_total sample_id now b =
      let seen = (observe reports grid_total sample_id now b).0 in
      IsBeside-twice cid b seen (let_go cid seen)
        (record { settings = refl; others = λ other h. refl })
        (IsBeside-if (elem cid (probe_participants seen)) cid seen (clear_probe_state seen)
          (cleared-IsBeside cid seen))

  -- A battery is parked: it takes part on its own, with the weight zero.
  pub record IsParked (cid : Text) (reports : Reports F) : Type 0 where
    pub member : elem cid (keys reports) ≡ true
    pub weight : is_nought (report_of reports cid).weight ≡ true

  parked-result :
      (cid : Text) (reports : Reports F) (result : List F) (now : F) (b : LoadBalancer F)
      → IsParked cid reports
      → apply_min_dc_output cid reports result now b ≡ (b, result)
  unfolding apply_min_dc_output
  parked-result cid reports result now b parked =
      elim (Bool-cases (
        not (is_named cid)
        || not (elem cid (keys reports))
        || effective_min_dc_output b reports cid ≤F nought)) [
          | inl e ↦ rw (e) refl
          | inr e ↦ rw (e, parked.weight) refl
        ]

  parked-winds_down :
      (cid : Text) (reports : Reports F) (grid_total : F) (sample_id : List F) (hold : Bool)
      (now : F) (b : LoadBalancer F)
      → is_named cid ≡ true
      → IsParked cid reports
      → auto_target cid reports grid_total sample_id hold now b
        ≡ steer_to_zero cid reports true now
            (let_go cid (observe reports grid_total sample_id now b).0)
  unfolding auto_target winds_down wound_down let_go
  parked-winds_down cid reports grid_total sample_id hold now b named parked =
      rw (named, parked.member, parked.weight) refl

  IsWindingDown-beside :
      (cid : Text) (reports : Reports F) (b b' : LoadBalancer F) (out : LoadBalancer F × List F)
      → IsBeside cid b b'
      → IsWindingDown law cid reports b' out
      → IsWindingDown law cid reports b out
  IsWindingDown-beside cid reports b b' out beside w = record {
    reading = w.reading;
    sent = w.sent;
    shortened = w.shortened;
    intent = w.intent;
    others = λ other.
        w.others other ∙ beside_put cid other (state_of (out.0) cid) b b' (beside.others other);
  }

  -- An automatic battery that is parked winds down, whatever the grid, the probes and the rotation:
  -- a reading on its own phase alone, between zero and what brings it to zero at once, an output of
  -- zero that is noted as asked for, and no change of another battery's state. This is where pacing is
  -- on, with a largest step that is not below the base step.
  pub compute_target-parked :
      (cid : Text) (manual_value : F) (all_reports : Reports F) (grid_total : F)
      (paused by_hand : List Text) (sample_id : List F) (hold : Bool) (now : F) (b : LoadBalancer F)
      → is_named cid ≡ true
      → b.cfg.pace_base_step ≤F nought ≡ false
      → b.cfg.pace_base_step ≤F b.cfg.pace_max_step ≡ true
      → IsParked cid (excluding by_hand (excluding paused all_reports))
      → IsWindingDown law cid (excluding by_hand (excluding paused all_reports)) b (
          compute_target cid auto manual_value all_reports grid_total paused by_hand sample_id hold
            now b)
  unfolding compute_target
  compute_target-parked cid manual_value all_reports grid_total paused by_hand sample_id hold now b
        named on fits parked =
      let active = excluding paused all_reports in
      let reports = excluding by_hand active in
      let known = tracked_pool cid auto active by_hand now b in
      let free = let_go cid (observe reports grid_total sample_id now known).0 in
      let beside =
        IsBeside-twice cid b known free (tracked_pool-IsBeside cid auto active by_hand now b)
          (seen_and_free cid reports grid_total sample_id now known) in
      let down = steer_to_zero cid reports true now free in
      rw
        (
          parked-winds_down cid reports grid_total sample_id hold now known named parked,
          parked-result cid reports (down.1) now (down.0) parked,
        )
        (IsWindingDown-beside cid reports b free down beside (
          steer_to_zero-IsWindingDown law cid reports true now free named
            (ap (λ c. c.pace_base_step ≤F nought) beside.settings ∙ on)
            (ap (λ c. c.pace_base_step ≤F c.pace_max_step) beside.settings ∙ fits)))
