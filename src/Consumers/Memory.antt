-- ===== src/Consumers/Memory.antt =====
-- The settings of a consumer outlive its eviction: src/astrameter/ct002/ct002.py.
use astra_meter.Prelude.Int.{ℤ}
use astra_meter.Consumers.Events.{Event, report, configure, cleanup, step, run}
use astra_meter.Prelude.{
  ◌≡◌, refl, ◌∙◌, sym, Bool, true, false, List, [], ◌∷◌, inl, inr, Bool-cases, Option-cases,
}
use astra_meter.Prelude.Text.{Text, same, same_iff, elem}
use astra_meter.Prelude.Dict.{get, get-put}
use astra_meter.Prelude.Float.{Float}
use astra_meter.Consumers.Store.{
  known_or_created, evict, Consumer, ConsumerOverride, Ct002, fresh, apply_override, override_of,
  get_consumer, update_consumer, update_consumer_report, reported, stale, evict_all,
  consumer_expired, cleanup_consumers,
}
use astra_meter.Consumers.Settings.{
  min_dc_output, efficiency_window_weight, max_discharge_power, distribution_weight,
  max_charge_power, manual_target, min_discharge_power, active, min_charge_power, auto_target,
  Setting, set_control, set_consumer, change_of, tell_balancer, after_refusal,
}
use astra_meter.Consumers.Expiry.{evict_all-get}

module _ {F : Type 0} ⦃fl : Float F⦄ where
  -- The settings that a consumer gets when it is created.
  abbrev pub remembered : Ct002 F → Text → ConsumerOverride F
  remembered s k = override_of (apply_override (get k s.consumer_overrides) fresh)

  -- Every known consumer has the settings that it would get if it were created again.
  abbrev pub IsRemembered : Ct002 F → Type 0
  IsRemembered s = (k : Text) → override_of (get_consumer k s) ≡ remembered s k

  -- The overrides are not touched by an eviction.
  evict_all-overrides :
      (gone : List Text) (s : Ct002 F)
      → (evict_all gone s).consumer_overrides ≡ s.consumer_overrides
  unfolding evict_all
  evict_all-overrides [] s = refl
  evict_all-overrides (cid ∷ gone) s = evict_all-overrides gone (evict cid s)

  evict_all-IsRemembered :
      (gone : List Text) (s : Ct002 F) → IsRemembered s → IsRemembered (evict_all gone s)
  unfolding get_consumer known_or_created
  evict_all-IsRemembered gone s h k = elim (Bool-cases (elem k gone)) [
    | inl e ↦ rw (evict_all-get k gone s, e, evict_all-overrides gone s)
    | inr e ↦ rw (evict_all-get k gone s, e, evict_all-overrides gone s) (h k)
  ]

  cleanup_consumers-IsRemembered :
      (now : F) (s : Ct002 F) → IsRemembered s → IsRemembered (cleanup_consumers now s)
  unfolding cleanup_consumers get_consumer known_or_created
  cleanup_consumers-IsRemembered now s h k =
      evict_all-IsRemembered (stale (consumer_expired s now) s.consumers) s h k

  cleanup_consumers-remembered :
      (now : F) (k : Text) (s : Ct002 F) → remembered (cleanup_consumers now s) k ≡ remembered s k
  unfolding cleanup_consumers
  cleanup_consumers-remembered now k s =
      rw (evict_all-overrides (stale (consumer_expired s now) s.consumers) s)

  update_consumer-IsRemembered :
      (f : Consumer F → Consumer F) (cid : Text) (s : Ct002 F)
      → ((c : Consumer F) → override_of (f c) ≡ override_of c)
      → IsRemembered s
      → IsRemembered (update_consumer f cid s)
  unfolding update_consumer get_consumer known_or_created
  update_consumer-IsRemembered f cid s keeps h k = elim (Bool-cases (same cid k)) [
    | inl e ↦
        let at : cid ≡ k = (same_iff cid k).0 e in
        rw (get-put cid k (f (get_consumer cid s)) s.consumers, e)
          (keeps (get_consumer cid s) ∙ (rw at (h k)))
    | inr e ↦ rw (get-put cid k (f (get_consumer cid s)) s.consumers, e) (h k)
  ]

  set_control-IsRemembered :
      (f : Consumer F → Consumer F) (cid : Text) (s : Ct002 F)
      → IsRemembered s
      → IsRemembered (set_control f cid s)
  unfolding set_control get_consumer known_or_created
  set_control-IsRemembered f cid s h k = elim (Bool-cases (same cid k)) [
    | inl e ↦
        rw
          (
            get-put cid k (f (get_consumer cid s)) s.consumers,
            get-put cid k (override_of (f (get_consumer cid s))) s.consumer_overrides,
            e,
          )
          refl
    | inr e ↦
        rw
          (
            get-put cid k (f (get_consumer cid s)) s.consumers,
            get-put cid k (override_of (f (get_consumer cid s))) s.consumer_overrides,
            e,
          )
          (h k)
  ]

  tell_balancer-IsRemembered :
      (setting : Setting F) (cid : Text) (before : Consumer F) (now : F) (s : Ct002 F)
      → IsRemembered s
      → IsRemembered (tell_balancer setting cid before now s)
  unfolding tell_balancer get_consumer
  tell_balancer-IsRemembered (auto_target true) cid before now s h k =
      elim (Bool-cases before.manual_enabled) [
        | inl e ↦ rw (e, tell_balancer) (h k)
        | inr e ↦ rw (e, tell_balancer) (h k)
      ]
  tell_balancer-IsRemembered (auto_target false) cid before now s h k = h k
  tell_balancer-IsRemembered (active true) cid before now s h k = h k
  tell_balancer-IsRemembered (active false) cid before now s h k = h k
  tell_balancer-IsRemembered (manual_target _) cid before now s h k = h k
  tell_balancer-IsRemembered (distribution_weight _) cid before now s h k = h k
  tell_balancer-IsRemembered (efficiency_window_weight _) cid before now s h k = h k
  tell_balancer-IsRemembered (min_dc_output _) cid before now s h k = h k
  tell_balancer-IsRemembered (min_charge_power _) cid before now s h k = h k
  tell_balancer-IsRemembered (min_discharge_power _) cid before now s h k = h k
  tell_balancer-IsRemembered (max_charge_power _) cid before now s h k = h k
  tell_balancer-IsRemembered (max_discharge_power _) cid before now s h k = h k

  after_refusal-IsRemembered :
      (setting : Setting F) (cid : Text) (s : Ct002 F)
      → IsRemembered s
      → IsRemembered (after_refusal setting cid s)
  unfolding after_refusal
  after_refusal-IsRemembered (min_charge_power _) cid s h =
      update_consumer-IsRemembered (λ c. c) cid s (λ c. refl) h
  after_refusal-IsRemembered (min_discharge_power _) cid s h =
      update_consumer-IsRemembered (λ c. c) cid s (λ c. refl) h
  after_refusal-IsRemembered (max_charge_power _) cid s h =
      update_consumer-IsRemembered (λ c. c) cid s (λ c. refl) h
  after_refusal-IsRemembered (max_discharge_power _) cid s h =
      update_consumer-IsRemembered (λ c. c) cid s (λ c. refl) h
  after_refusal-IsRemembered (auto_target _) cid s h = h
  after_refusal-IsRemembered (active _) cid s h = h
  after_refusal-IsRemembered (manual_target _) cid s h = h
  after_refusal-IsRemembered (distribution_weight _) cid s h = h
  after_refusal-IsRemembered (efficiency_window_weight _) cid s h = h
  after_refusal-IsRemembered (min_dc_output _) cid s h = h

  set_consumer-IsRemembered :
      (setting : Setting F) (cid : Text) (now : F) (s : Ct002 F)
      → IsRemembered s
      → IsRemembered (set_consumer setting cid now s).0
  unfolding set_consumer
  set_consumer-IsRemembered setting cid now s h = elim (Option-cases (change_of setting)) [
    | inl e ↦ rw (e, set_consumer) (after_refusal-IsRemembered setting cid s h)
    | inr (f, e) ↦
        rw (e, set_consumer)
          (tell_balancer-IsRemembered setting cid (get_consumer cid s) now (set_control f cid s)
            (set_control-IsRemembered f cid s h))
  ]

  update_consumer_report-IsRemembered :
      (cid phase : Text) (power : ℤ) (device_type source_ip : Text) (participates : Bool) (now : F)
      (s : Ct002 F)
      → IsRemembered s
      → IsRemembered
          (update_consumer_report cid phase power device_type source_ip participates now s)
  unfolding update_consumer_report reported
  update_consumer_report-IsRemembered cid phase power device_type source_ip participates now s h =
      update_consumer-IsRemembered (reported phase power device_type source_ip participates now) cid
        s (λ c. refl) h

  step-IsRemembered : (e : Event F) (s : Ct002 F) → IsRemembered s → IsRemembered (step e s)
  unfolding step
  step-IsRemembered (report cid phase power device_type source_ip participates now) s h =
      update_consumer_report-IsRemembered cid phase power device_type source_ip participates now s h
  step-IsRemembered (configure setting cid now) s h = set_consumer-IsRemembered setting cid now s h
  step-IsRemembered (cleanup now) s h = cleanup_consumers-IsRemembered now s h

  pub run-IsRemembered :
      (es : List (Event F)) (s : Ct002 F) → IsRemembered s → IsRemembered (run es s)
  unfolding run
  run-IsRemembered [] s h = h
  run-IsRemembered (e ∷ es) s h = run-IsRemembered es (step e s) (step-IsRemembered e s h)

  -- Whatever reports, settings and clean-ups came before, a clean-up that evicts a battery does not
  -- lose its settings: when it polls again it is created with those it had, given a start at which
  -- every consumer has the settings saved for it.
  pub cleanup_consumers-keeps_settings :
      (es : List (Event F)) (now : F) (k : Text) (s : Ct002 F)
      → IsRemembered s
      → override_of (get_consumer k (cleanup_consumers now (run es s)))
        ≡ override_of (get_consumer k (run es s))
  cleanup_consumers-keeps_settings es now k s h =
      let before = run-IsRemembered es s h in
      cleanup_consumers-IsRemembered now (run es s) before k
      ∙ cleanup_consumers-remembered now k (run es s)
      ∙ sym (before k)
