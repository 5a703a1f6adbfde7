-- ===== src/Balancer/Limits.antt =====
-- How much a battery can put out: the ceilings that `LoadBalancer` of
-- src/astrameter/ct002/balancer.py learns, and the maxima that are set.
pub mod Learned
use astra_meter.Prelude.{
  ℕ, ◌+◌, ◌==◌, Bool, true, false, ◌&&◌, ◌||◌, not, List, [], ◌∷◌, Option, none, some, leb,
  if◌then◌else◌,
}
use astra_meter.Prelude.Int.{◌*ℤ◌, ℤ, pos, ltb_ℤ, eqb_ℤ, abs}
use astra_meter.Prelude.Text.{Text, elem}
use astra_meter.Prelude.Dict.{get, put, keys}
use astra_meter.Prelude.Float.{Float, ◌<F◌, ◌≤F◌, ◌+F◌, ◌-F◌, ◌*F◌, nought, whole, fmax, fmin, fabs}
use astra_meter.Balancer.State.{
  ConsumerReport, ConsumerState, Mode, auto, manual, inactive, minus_one, sign, ceiling,
  ceiling_seen, report_of, is_ac_chargeable,
}
use astra_meter.Balancer.Config.{battery_power_max}
use astra_meter.Balancer.Pool.{LoadBalancer, state_of, change, probe_participants}
use astra_meter.Balancer.Order.{Reports}

module _ {F : Type 0} ⦃fl : Float F⦄ where
  -- `_set_ceiling`.
  unfoldable pub set_ceiling : ℤ → F → F → ConsumerState F → ConsumerState F
  set_ceiling dir value now s =
      if ltb_ℤ (pos 0) dir
      then record s { ceiling_discharge = value; ceiling_discharge_seen = now }
      else record s { ceiling_charge = value; ceiling_charge_seen = now }

  -- A ceiling that the battery passes, or that was not seen for ten minutes, is dropped.
  unfoldable pub release : F → F → ℤ → ConsumerState F → ConsumerState F
  unfolding set_ceiling
  release power now dir s =
      let top = ceiling s dir in
      if top ≤F nought
      then s
      else if top +F whole 30 <F power *F fl.of_int dir
      then set_ceiling dir nought now s
      else if whole 600 <F now -F ceiling_seen s dir
      then set_ceiling dir nought now s
      else s

  -- Whether the last reading pushed the battery further in the direction it runs in.
  unfoldable pub is_pushed : F → ConsumerState F → Bool
  is_pushed power s = elim s.last_target [
    | none ↦ false
    | some sent ↦
        not (eqb_ℤ (sign power) (pos 0))
        && whole 100 ≤F fabs power
        && whole 25 ≤F sent *F fl.of_int (sign power)
  ]

  -- One more poll of a run at a constant power, or the start of a run.
  unfoldable pub hold_run : F → F → ConsumerState F → ConsumerState F
  unfolding set_ceiling is_pushed
  hold_run power now s =
      let longer = record s { ceiling_run_polls = s.ceiling_run_polls + 1 } in
      if not (is_pushed power s)
        || s.ceiling_run_polls == 0
        || whole 15 <F fabs (power -F s.ceiling_run_anchor)
      then record s {
        ceiling_run_anchor = power;
        ceiling_run_since = now;
        ceiling_run_polls = if is_pushed power s then 1 else 0;
      }
      else if leb 5 (s.ceiling_run_polls + 1) && whole 5 ≤F now -F s.ceiling_run_since
      then set_ceiling (sign power) (fabs power) now longer
      else longer

  unfoldable pub tracked : F → F → ConsumerState F → ConsumerState F
  unfolding release hold_run
  tracked power now s =
      hold_run power now (release power now minus_one (release power now (pos 1) s))

  -- Whether the commands of a battery are those of the pool.
  unfoldable pub is_judged : Text → Mode → Reports F → LoadBalancer F → Bool
  unfolding probe_participants
  is_judged cid mode reports b =
      let by_hand : Bool = elim mode [ manual ↦ true | auto ↦ false | inactive ↦ false ] in
      elem cid (keys reports)
      && not by_hand
      && not (elem cid (probe_participants b))
      && not (elem cid b.deprioritized && not (elem cid b.spilling))

  -- `_track_ceiling`, of the state that `_get_consumer` returns.
  unfoldable pub track_ceiling : Text → Mode → Reports F → F → LoadBalancer F → LoadBalancer F
  unfolding is_judged tracked change
  track_ceiling cid mode reports now b =
      if is_judged cid mode reports b
      then change (tracked (fl.of_int (report_of reports cid).power) now) cid b
      else b

  -- `_max_power`.
  unfoldable pub max_power : LoadBalancer F → ConsumerReport F → ℤ → Option F
  max_power b report dir =
      let own = if ltb_ℤ (pos 0) dir then report.max_discharge_power else report.max_charge_power in
      let default =
        if ltb_ℤ (pos 0) dir then b.cfg.max_discharge_power else b.cfg.max_charge_power in
      let cap : Option F = elim own [ none ↦ default | some v ↦ some v ] in
      if eqb_ℤ dir (pos 0)
      then none
      else elim cap [ none ↦ none | some v ↦ if battery_power_max ≤F v then none else some v ]

  -- `_limit`.
  unfoldable pub limit : LoadBalancer F → Reports F → Text → ℤ → Option F
  unfolding max_power
  limit b reports cid dir =
      let learned : F = elim (get cid b.consumers) [ none ↦ nought | some s ↦ ceiling s dir ] in
      let cap = max_power b (report_of reports cid) dir in
      if learned ≤F nought
      then cap
      else elim cap [ none ↦ some learned | some v ↦ some (fmin learned v) ]

  -- `_ceilings`.
  unfoldable pub ceilings : LoadBalancer F → Reports F → ℤ → List Text → List (Text × F)
  unfolding limit
  ceilings b reports dir [] = []
  ceilings b reports dir (cid ∷ ids) =
      let spills = not (eqb_ℤ dir (pos 0)) && eqb_ℤ dir b.spill_dir in
      let stuck = if spills then get cid b.spill_caps else none in
      let rest = ceilings b reports dir ids in
      elim (limit b reports cid dir) [
        | none ↦ elim stuck [ none ↦ rest | some c ↦ (cid, c) ∷ rest ]
        | some top ↦ elim stuck [ none ↦ (cid, top) ∷ rest | some c ↦ (cid, fmin top c) ∷ rest ]
      ]

  -- `_no_headroom`.
  unfoldable pub no_headroom : LoadBalancer F → Reports F → ℤ → List Text → F → Text → Option F
  unfolding limit
  no_headroom b reports dir charge_blind margin cid =
      let report = report_of reports cid in
      let threshold = b.cfg.efficiency_saturation_threshold in
      let least = fl.decimal (pos 1) 3 in
      let full : Bool = elim (get cid b.consumers) [
        | none ↦ false
        | some s ↦ nought <F threshold && threshold ≤F s.saturation_score
      ] in
      let at_limit : Option F = elim (limit b reports cid dir) [
        | none ↦ none
        | some top ↦ if top -F margin ≤F fl.of_int (report.power *ℤ dir) then some top else none
      ] in
      if report.weight ≤F nought
      then some nought
      else if ltb_ℤ dir (pos 0)
          && (elem cid charge_blind || not (is_ac_chargeable report.device_type))
      then some least
      else if full
      then some (fmax (whole (abs report.power)) least)
      else at_limit
