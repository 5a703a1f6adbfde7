-- ===== src/Balancer/Order.antt =====
-- The rotation order of `LoadBalancer` in src/astrameter/ct002/balancer.py: how it follows the
-- reporting pool, and how it turns.
pub mod Sync
pub mod Slots
use astra_meter.Prelude.{
  ℕ, ◌-◌, Bool, true, false, ◌&&◌, not, List, [], ◌∷◌, ◌++◌, none, ltb, leb, if◌then◌else◌, filter,
  length,
}
use astra_meter.Prelude.Int.{ℤ, pos, pos_part}
use astra_meter.Prelude.Text.{Text, elem, text_lt}
use astra_meter.Prelude.Dict.{keys, intersection}
use astra_meter.Prelude.Sort.{sort}
use astra_meter.Prelude.Float.{Float, ◌<F◌, ◌≤F◌, ◌-F◌, ◌*F◌, ◌/F◌, nought, whole}
use astra_meter.Balancer.State.{ConsumerReport, report_of}
use astra_meter.Balancer.Config.{Config, efficient_power}
use astra_meter.Balancer.Pool.{
  LoadBalancer, change_all, with_fade, set_consumer_grace, invalidate_efficiency_cache, prune_pool,
  clear_spill,
}

abbrev pub Reports : Type 0 → Type 0
Reports F = List (Text × ConsumerReport F)

-- The members of `pool` that `order` does not hold yet.
unfoldable pub absent : List Text → List Text → List Text
absent order pool = filter (λ cid. not (elem cid order)) pool

-- `l.append(l.pop(0))`.
unfoldable pub turn : List Text → List Text
turn [] = []
turn (x ∷ xs) = xs ++ (x ∷ [])

abbrev at_most : ℕ → ℕ → ℕ
at_most a b = if ltb b a then b else a

abbrev larger : ℕ → ℕ → ℕ
larger a b = if ltb a b then b else a

abbrev at_least_one : ℕ → ℕ
at_least_one = larger 1

module _ {F : Type 0} ⦃fl : Float F⦄ where
  abbrev pub window_weight : Reports F → Text → F
  window_weight reports cid = (report_of reports cid).efficiency_window_weight

  -- `efficiency_window_weight <= 0.0`.
  unfoldable pub is_parked : Reports F → Text → Bool
  is_parked reports cid = window_weight reports cid ≤F nought

  -- The order of the arrivals: heaviest window first, ties by id.
  unfoldable pub arrives_before : Reports F → Text → Text → Bool
  arrives_before reports a b =
      if window_weight reports b <F window_weight reports a
      then true
      else if window_weight reports a <F window_weight reports b
      then false
      else text_lt a b

  unfoldable pub parked_after : Reports F → Text → Text → Bool
  unfolding is_parked
  parked_after reports a b = not (is_parked reports a) && is_parked reports b

  -- The order that `_sync_pool` makes of the order before it.
  unfoldable pub synced : Reports F → List Text → List Text
  unfolding sort absent arrives_before parked_after
  synced reports order =
      let current = keys reports in
      let stayed = intersection order current in
      sort (parked_after reports) (stayed ++ sort (arrives_before reports) (absent stayed current))

  grace_all : List Text → F → F → LoadBalancer F → LoadBalancer F
  grace_all [] grace now b = b
  grace_all (cid ∷ cids) grace now b = grace_all cids grace now (set_consumer_grace cid grace now b)

  -- `_sync_pool`.
  unfoldable pub sync_pool : Reports F → F → F → LoadBalancer F → LoadBalancer F
  unfolding synced grace_all absent arrives_before
  sync_pool reports grace now b =
      let current = keys reports in
      let stayed = intersection b.priority current in
      let arrivals = sort (arrives_before reports) (absent stayed current) in
      grace_all arrivals grace now (record b {
        priority = synced reports b.priority;
        deprioritized = intersection b.deprioritized current;
      })

  -- `_active_slots`; n is the length of the order, and not 0.
  unfoldable pub active_slots : Config F → ℤ → F → ℕ → Bool → ℕ → ℕ
  active_slots cfg demand_dir abs_target n was_limiting prev_slots =
      let threshold = efficient_power cfg demand_dir in
      let margin = fl.decimal (pos 12) 1 in
      let floor = if was_limiting then threshold *F margin else threshold in
      let slots =
        at_least_one (at_most (n - 1) (pos_part (fl.truncate (abs_target /F threshold)))) in
      let grown = pos_part (fl.truncate (abs_target /F (threshold *F margin))) in
      let held = larger prev_slots (at_most (n - 1) grown) in
      if threshold ≤F nought
      then n
      else if not ((abs_target /F whole n) <F floor && ltb 1 n)
      then n
      else if was_limiting && leb 1 prev_slots && ltb prev_slots slots
      then held
      else slots

  -- `_rotate_priority_head`.
  unfoldable pub rotate_priority_head : Reports F → F → ℕ → LoadBalancer F → LoadBalancer F
  unfolding turn invalidate_efficiency_cache
  rotate_priority_head reports now active b = elim b.priority [
    | [] ↦ b
    | head ∷ _ ↦
        let configured = window_weight reports head in
        let head_weight = if leb active 1 && nought <F configured then configured else whole 1 in
        if now -F b.last_rotation <F b.cfg.efficiency_rotation_interval *F head_weight
        then b
        else invalidate_efficiency_cache
            (record b { last_rotation = now; priority = turn b.priority })
  ]

  -- `force_rotation`.
  unfoldable pub force_rotation : List Text → F → LoadBalancer F → LoadBalancer F
  unfolding turn invalidate_efficiency_cache clear_spill prune_pool absent sort
  force_rotation pool now b =
      let stayed = intersection b.priority pool in
      let filled = stayed ++ absent stayed (sort text_lt pool) in
      let synced_pool = record b {
        priority = filled;
        deprioritized = intersection b.deprioritized pool;
      } in
      let turned = prune_pool pool (
        invalidate_efficiency_cache (
          clear_spill (record synced_pool {
            priority = turn filled;
            last_rotation = now;
            probe_state = none;
          }))) in
      if ltb (length filled) 2
      then synced_pool
      else change_all (with_fade (whole 1)) (keys turned.consumers) turned
