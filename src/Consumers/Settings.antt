-- ===== src/Consumers/Settings.antt =====
-- The settings that a user makes for a consumer of `CT002` in src/astrameter/ct002/ct002.py. A value
-- that is not finite is `none`. The second result says whether the value was taken; else the source
-- raises a ValueError.
use mathlib.Core.Option
use astra_meter.Prelude.{Bool, true, false, ◌&&◌, not, Option, none, some, if◌then◌else◌}
use astra_meter.Prelude.Text.{Text}
use astra_meter.Prelude.Dict.{keep, keys}
use astra_meter.Prelude.Float.{Float, ◌<F◌, ◌≤F◌, nought, whole}
use astra_meter.Balancer.Pool.{reset_consumer, detach_from_auto_pool}
use astra_meter.Balancer.Order.{force_rotation}
use astra_meter.Consumers.Store.{Consumer, Ct002, get_consumer, update_consumer, snapshot_override}

-- What a user sets for one consumer.
pub data Setting (F : Type 0) : Type 0 where
  manual_target distribution_weight efficiency_window_weight min_dc_output : Option F → Setting F
  min_charge_power min_discharge_power max_charge_power max_discharge_power : Option F → Setting F
  auto_target active : Bool → Setting F

module _ {F : Type 0} ⦃fl : Float F⦄ where
  -- `_power_setting`, and the ranges of the weights.
  unfoldable pub power_setting : Option F → Option F
  power_setting none = none
  power_setting (some v) = if v <F nought then none else some v

  unfoldable pub weight_setting : F → Option F → Option F
  weight_setting top none = none
  weight_setting top (some v) = if nought ≤F v && v ≤F top then some v else none

  -- The change of the consumer that a setter makes, where it takes the value.
  unfoldable pub change_of : Setting F → Option (Consumer F → Consumer F)
  unfolding power_setting weight_setting
  change_of (manual_target v) = Option.map (λ x c. record c { manual_target = x }) v
  change_of (distribution_weight v) =
      Option.map (λ x c. record c { distribution_weight = x }) (weight_setting (whole 10) v)
  change_of (efficiency_window_weight v) =
      Option.map (λ x c. record c { efficiency_window_weight = x }) (weight_setting (whole 1) v)
  change_of (min_dc_output v) =
      Option.map (λ x c. record c { min_dc_output = some x }) (power_setting v)
  change_of (min_charge_power v) =
      Option.map (λ x c. record c { min_charge_power = some x }) (power_setting v)
  change_of (min_discharge_power v) =
      Option.map (λ x c. record c { min_discharge_power = some x }) (power_setting v)
  change_of (max_charge_power v) =
      Option.map (λ x c. record c { max_charge_power = some x }) (power_setting v)
  change_of (max_discharge_power v) =
      Option.map (λ x c. record c { max_discharge_power = some x }) (power_setting v)
  change_of (auto_target on) = some (λ c. record c { manual_enabled = not on })
  change_of (active on) = some (λ c. record c { active = on })

  -- What `set_consumer_auto_target` and `set_consumer_active` do to the balancer, `before` being the
  -- consumer as it was.
  unfoldable pub tell_balancer : Setting F → Text → Consumer F → F → Ct002 F → Ct002 F
  tell_balancer (auto_target true) cid before now s =
      if before.manual_enabled then record s { balancer = reset_consumer cid now s.balancer } else s
  tell_balancer (auto_target false) cid before now s = record s {
    balancer = detach_from_auto_pool cid s.balancer;
  }
  tell_balancer (active true) cid before now s = record s {
    balancer = reset_consumer cid now s.balancer;
  }
  tell_balancer _ cid before now s = s

  -- The change, with the snapshot that each setter ends with.
  unfoldable pub set_control : (Consumer F → Consumer F) → Text → Ct002 F → Ct002 F
  unfolding update_consumer get_consumer snapshot_override
  set_control f cid s = snapshot_override cid (f (get_consumer cid s)) (update_consumer f cid s)

  -- The state that a setter leaves behind when it raises: the limits of the power look the consumer
  -- up before they check the value.
  unfoldable pub after_refusal : Setting F → Text → Ct002 F → Ct002 F
  unfolding update_consumer
  after_refusal (min_charge_power _) cid s = update_consumer (λ c. c) cid s
  after_refusal (min_discharge_power _) cid s = update_consumer (λ c. c) cid s
  after_refusal (max_charge_power _) cid s = update_consumer (λ c. c) cid s
  after_refusal (max_discharge_power _) cid s = update_consumer (λ c. c) cid s
  after_refusal _ cid s = s

  -- The setters `set_consumer_...`.
  unfoldable pub set_consumer : Setting F → Text → F → Ct002 F → Ct002 F × Bool
  unfolding change_of tell_balancer set_control after_refusal
  set_consumer setting cid now s = elim (change_of setting) [
    | none ↦ (after_refusal setting cid s, false)
    | some f ↦ (tell_balancer setting cid (get_consumer cid s) now (set_control f cid s), true)
  ]

  -- `force_efficiency_rotation`.
  unfoldable pub force_efficiency_rotation : F → Ct002 F → Ct002 F
  force_efficiency_rotation now s =
      let current =
        keys
          (keep (λ _ c. nought <F c.timestamp && c.active && not c.manual_enabled) s.consumers) in
      record s { balancer = force_rotation current now s.balancer }

  -- `set_peakshaving_threshold`, given a finite threshold or none.
  unfoldable pub set_peakshaving_threshold : Option F → Ct002 F → Ct002 F
  set_peakshaving_threshold none s = s
  set_peakshaving_threshold (some threshold) s =
      if threshold <F nought then s else record s { peakshaving_threshold = threshold }
