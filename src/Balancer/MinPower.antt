-- ===== src/Balancer/MinPower.antt =====
-- `_below_min_power` of src/astrameter/ct002/balancer.py: which batteries idle because their share is
-- below the least they may run at.
pub mod Idle
use astra_meter.Prelude.{
  ℕ, zero, suc, Bool, true, false, ◌&&◌, ◌||◌, not, List, [], ◌∷◌, Option, none, some,
  if◌then◌else◌, filter, length, map,
}
use astra_meter.Prelude.Int.{ℤ, pos, eqb_ℤ}
use astra_meter.Prelude.Text.{Text, elem, text_lt}
use astra_meter.Prelude.Dict.{get, keys, remove_first}
use astra_meter.Prelude.Float.{Float, ◌<F◌, ◌≤F◌, ◌+F◌, ◌-F◌, ◌*F◌, ◌/F◌, nought, whole}
use astra_meter.Balancer.State.{sign, report_of}
use astra_meter.Balancer.Pool.{LoadBalancer, change, state_of}
use astra_meter.Balancer.Order.{Reports}
use astra_meter.Balancer.Rotation.{sum_power_of, fold_states}
use astra_meter.Balancer.Limits.{ceilings}
use astra_meter.Balancer.Steer.{unless, min_power, start_power}
use astra_meter.Balancer.Correction.{share_weight, capped_share}

-- What the loop splits: the demand, its direction, the weights and the ceilings.
pub record Demand (F : Type 0) : Type 0 where
  pub total : F
  pub dir : ℤ
  pub weights : List (Text × F)
  pub tops : List (Text × F)

module _ {F : Type 0} ⦃fl : Float F⦄ where
  unfoldable pub was_idle : LoadBalancer F → Text → Bool
  was_idle b cid = elim (get cid b.consumers) [ none ↦ false | some s ↦ s.min_power_idle ]

  -- The power below which a battery idles: the least power, or for one that idles the start power.
  unfoldable pub threshold : LoadBalancer F → Reports F → ℤ → Text → F
  threshold b reports dir cid =
      let report = report_of reports cid in
      let minimum = min_power b report dir in
      if was_idle b cid then start_power b report dir minimum else minimum

  unfoldable pub share_among : Demand F → List Text → Text → F
  share_among d running cid = capped_share d.total d.weights running d.tops cid *F fl.of_int d.dir

  unfoldable pub is_short : LoadBalancer F → Reports F → Demand F → List Text → Text → Bool
  is_short b reports d running cid =
      let floor = threshold b reports d.dir cid in
      not (floor ≤F nought) && share_among d running cid <F floor

  -- How far below: the share over the least power.
  unfoldable pub shortness : LoadBalancer F → Reports F → Demand F → List Text → Text → F
  shortness b reports d running cid = share_among d running cid /F threshold b reports d.dir cid

  -- `min(short)[1]`: of two that are as far below, the one with the smaller name.
  unfoldable pub furthest : (Text → F) → Text → List Text → Text
  furthest key best [] = best
  furthest key best (cid ∷ short) =
      let nearer = key cid <F key best || (not (key best <F key cid) && text_lt cid best) in
      furthest key (if nearer then cid else best) short

  -- The loop, with the rounds that are left: who still runs.
  unfoldable pub run_out : ℕ → LoadBalancer F → Reports F → Demand F → List Text → List Text
  run_out zero b reports d running = running
  run_out (suc left) b reports d running =
      let short = filter (is_short b reports d running) running in
      elim short [
        | [] ↦ running
        | best ∷ rest ↦
            run_out left b reports d
              (remove_first (furthest (shortness b reports d running) best rest) running)
      ]

  unfoldable pub set_idle : List Text → Text → LoadBalancer F → LoadBalancer F
  set_idle idle cid b =
      let now_idle = elem cid idle in
      if (was_idle b cid && now_idle) || (not (was_idle b cid) && not now_idle)
      then b
      else change (λ s. record s { min_power_idle = now_idle }) cid b

  -- The batteries that are judged.
  unfoldable pub judged : Reports F → List (Text × F) → List Text → List Text
  judged reports eff_part exempt =
      filter
        (λ cid.
          nought <F unless (get cid eff_part) nought
          && nought <F (report_of reports cid).weight
          && not (elem cid exempt))
        (keys reports)

  unfoldable pub demand_of : LoadBalancer F → Reports F → F → List (Text × F) → List Text → Demand F
  demand_of b reports demand_grid eff_part ids =
      let total = fl.of_int (sum_power_of reports ids) +F demand_grid in
      record {
        total = total;
        dir = sign total;
        weights =
            map (λ cid. (cid, unless (get cid eff_part) nought *F share_weight b reports cid)) ids;
        tops = ceilings b reports (sign total) ids;
      }

  -- `_below_min_power`: the pool after it and the batteries that idle. Each round takes a battery
  -- off, so that as many rounds as there are batteries are enough.
  unfoldable pub below_min_power :
      Reports F → F → List (Text × F) → List Text → LoadBalancer F → LoadBalancer F × List Text
  below_min_power reports demand_grid eff_part exempt b =
      let ids = judged reports eff_part exempt in
      let d = demand_of b reports demand_grid eff_part ids in
      let running = run_out (length ids) b reports d ids in
      let idle = filter (λ cid. not (elem cid running)) ids in
      if eqb_ℤ d.dir (pos 0)
      then (b, filter (was_idle b) ids)
      else (fold_states (set_idle idle) ids b, idle)
