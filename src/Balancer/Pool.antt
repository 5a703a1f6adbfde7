-- ===== src/Balancer/Pool.antt =====
-- The state of `LoadBalancer` in src/astrameter/ct002/balancer.py that the rotation, the probes and
-- the standby reserve share, and the helpers that they share. The clock's reading is an argument.
-- A Python set is a list here; where the source goes through a set, the order is that of the list.
pub mod Frame
pub mod Removal
use astra_meter.Prelude.{ℕ, suc, ◌+◌, true, List, [], ◌∷◌, ◌++◌, Option, none, some, if◌then◌else◌}
use astra_meter.Prelude.Int.{ℤ, pos}
use astra_meter.Prelude.Text.{Text, elem}
use astra_meter.Prelude.Dict.{get, put, del, discard, keep, remove_first}
use astra_meter.Prelude.Float.{Float, ◌+F◌, nought, whole, fmin}
use astra_meter.Balancer.State.{ConsumerState, fresh_state}
use astra_meter.Balancer.Config.{Config}
use astra_meter.Balancer.Control.{Control}
use astra_meter.Balancer.Saturation.{Tracker, set_grace, clear}

pub record ProbeState (F : Type 0) : Type 0 where
  pub candidate_id : Text
  pub active_ids : List Text
  pub backup_ids : List Text
  pub restore_active_ids : List Text
  pub deadline : F
  pub started_at : F
  pub proof_samples : ℕ
  pub requested_power_abs : F

pub record LoadBalancer (F : Type 0) : Type 0 where
  pub cfg : Config F
  pub saturation_grace_seconds : F
  pub probe_timeout_seconds : F
  pub probe_success_threshold : F
  pub consumers : List (Text × ConsumerState F)
  pub deprioritized : List Text
  pub spilling : List Text
  pub spill_dir : ℤ
  pub spill_caps : List (Text × F)
  pub spill_scale : List (Text × F)
  pub spill_free_since : Option F
  pub priority : List Text
  pub last_rotation : F
  pub cache_sample : Option (List F × List Text)
  pub cache_result : Option (List (Text × F))
  pub probe_state : Option (ProbeState F)
  pub post_probe_fade_until : F
  pub post_probe_fade_ids : List Text
  pub demand_ema : Option F
  pub demand_signed_ema : Option F
  pub demand_dir : ℤ
  pub saturation : Tracker F
  pub control : Control F

module _ {F : Type 0} ⦃fl : Float F⦄ where
  -- What `_get_consumer` returns, and a change of it: a battery that is not known gets a fresh state.
  unfoldable pub state_of : LoadBalancer F → Text → ConsumerState F
  state_of b cid = elim (get cid b.consumers) [ none ↦ fresh_state | some s ↦ s ]

  unfoldable pub change :
      (ConsumerState F → ConsumerState F) → Text → LoadBalancer F → LoadBalancer F
  unfolding state_of
  change f cid b = record b { consumers = put cid (f (state_of b cid)) b.consumers }

  unfoldable pub change_all :
      (ConsumerState F → ConsumerState F) → List Text → LoadBalancer F → LoadBalancer F
  unfolding change
  change_all f [] b = b
  change_all f (cid ∷ cids) b = change_all f cids (change f cid b)

  abbrev pub with_fade : F → ConsumerState F → ConsumerState F
  with_fade w s = record s { fade_weight = w }

  unfoldable pub invalidate_efficiency_cache : LoadBalancer F → LoadBalancer F
  invalidate_efficiency_cache b = record b { cache_sample = none; cache_result = none }

  unfoldable pub probe_participants : LoadBalancer F → List Text
  probe_participants b = elim b.probe_state [ none ↦ [] | some p ↦ p.active_ids ++ p.backup_ids ]

  unfoldable pub clear_probe_state : LoadBalancer F → LoadBalancer F
  unfolding invalidate_efficiency_cache
  clear_probe_state b = elim b.probe_state [
    | none ↦ b
    | some _ ↦ invalidate_efficiency_cache (record b { probe_state = none })
  ]

  unfoldable pub clear_post_probe_fade : LoadBalancer F → LoadBalancer F
  clear_post_probe_fade b = record b { post_probe_fade_until = nought; post_probe_fade_ids = [] }

  unfoldable pub set_consumer_grace : Text → F → F → LoadBalancer F → LoadBalancer F
  unfolding change set_grace
  set_consumer_grace cid deadline now = change (λ s. set_grace s deadline now) cid

  unfoldable pub clear_consumer_grace : Text → LoadBalancer F → LoadBalancer F
  unfolding change
  clear_consumer_grace =
      change
        (λ s. record s { saturation_grace_until = nought; saturation_grace_started_at = nought })

  -- `_promote_to_active` and `_forget_saturation`.
  unfoldable pub promote_to_active : F → F → Text → LoadBalancer F → LoadBalancer F
  unfolding change set_grace clear
  promote_to_active grace now = change (λ s. set_grace (clear s) grace now)

  unfoldable pub forget_saturation : Text → LoadBalancer F → LoadBalancer F
  unfolding clear
  forget_saturation cid b = elim (get cid b.consumers) [
    | none ↦ b
    | some s ↦ record b { consumers = put cid (clear s) b.consumers }
  ]

  -- `_prune_pool`.
  unfoldable pub prune_pool : List Text → LoadBalancer F → LoadBalancer F
  prune_pool kept b = record b {
    consumers = keep (λ cid _. if elem cid kept then true else elem cid b.priority) b.consumers;
  }

  unfoldable pub clear_spill : LoadBalancer F → LoadBalancer F
  clear_spill b = record b {
    spilling = [];
    spill_dir = pos 0;
    spill_caps = [];
    spill_scale = [];
    spill_free_since = none;
  }

  -- `{cid: SPILL_WEIGHT ** (i + 1) for i, cid in enumerate(ids)}`, from the i-th on.
  unfoldable pub spill_scales : ℕ → List Text → List (Text × F)
  spill_scales i [] = []
  spill_scales i (cid ∷ cids) =
      (cid, fl.pow (fl.decimal (pos 1) 2) (whole (i + 1))) ∷ spill_scales (suc i) cids

  -- `_drop_spiller`.
  unfoldable pub drop_spiller : Text → LoadBalancer F → LoadBalancer F
  unfolding clear_spill spill_scales discard
  drop_spiller cid b =
      let capped = record b { spill_caps = del cid b.spill_caps } in
      let left = discard cid b.spilling in
      let dropped = record capped { spilling = left; spill_scale = spill_scales 0 left } in
      if elem cid b.spilling
      then elim left [ [] ↦ clear_spill dropped | _ ∷ _ ↦ dropped ]
      else capped

  unfoldable pub remove_consumer : Text → LoadBalancer F → LoadBalancer F
  unfolding drop_spiller remove_first invalidate_efficiency_cache probe_participants
      clear_probe_state discard
  remove_consumer cid b =
      let gone = drop_spiller cid (record b {
        consumers = del cid b.consumers;
        deprioritized = discard cid b.deprioritized;
      }) in
      let left =
        if elem cid gone.priority
        then invalidate_efficiency_cache (record gone { priority = remove_first cid gone.priority })
        else gone in
      if elem cid (probe_participants left) then clear_probe_state left else left

  unfoldable pub detach_from_auto_pool : Text → LoadBalancer F → LoadBalancer F
  unfolding drop_spiller invalidate_efficiency_cache probe_participants clear_probe_state discard
  detach_from_auto_pool cid b =
      let gone = invalidate_efficiency_cache (
        drop_spiller cid (record b {
          deprioritized = discard cid b.deprioritized;
          priority = discard cid b.priority;
          consumers = del cid b.consumers;
        })) in
      if elem cid (probe_participants gone) then clear_probe_state gone else gone

  unfoldable pub reset_consumer : Text → F → LoadBalancer F → LoadBalancer F
  unfolding set_grace state_of
  reset_consumer cid now b =
      let grace = now +F fmin b.saturation_grace_seconds b.cfg.efficiency_rotation_interval in
      let fresh = record fresh_state { fade_weight = (state_of b cid).fade_weight } in
      record b { consumers = put cid (set_grace fresh grace now) b.consumers }
