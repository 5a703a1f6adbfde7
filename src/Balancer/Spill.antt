-- ===== src/Balancer/Spill.antt =====
-- The standby reserve of `LoadBalancer` in src/astrameter/ct002/balancer.py: which batteries that
-- stand by carry the overflow, and what they give back.
pub mod Reserve
use astra_meter.Prelude.{
  Bool, true, false, ◌&&◌, ◌||◌, not, List, [], ◌∷◌, ◌++◌, Option, none, some, ltb, if◌then◌else◌,
  filter, length,
}
use astra_meter.Prelude.Int.{ℤ, pos, neg, ◌+ℤ◌, ◌*ℤ◌, ltb_ℤ, eqb_ℤ}
use astra_meter.Prelude.Text.{Text, elem}
use astra_meter.Prelude.Dict.{get, put, keys}
use astra_meter.Prelude.Float.{Float, ◌<F◌, ◌≤F◌, ◌+F◌, ◌-F◌, ◌*F◌, nought, whole, fmax, fabs}
use astra_meter.Balancer.State.{sign, report_of, is_ac_chargeable}
use astra_meter.Balancer.Config.{efficiency_enabled}
use astra_meter.Balancer.Pool.{
  LoadBalancer, clear_spill, spill_scales, forget_saturation, set_consumer_grace,
}
use astra_meter.Balancer.Order.{Reports}
use astra_meter.Balancer.Probe.{sum_power, without}
use astra_meter.Balancer.Rotation.{sum_power_of, fold_states}
use astra_meter.Balancer.Limits.{no_headroom}

abbrev reversed : List Text → List Text
reversed [] = []
reversed (x ∷ xs) = reversed xs ++ (x ∷ [])

-- The loop of `_update_spill` over the standby batteries.
pub record Scan (F : Type 0) : Type 0 where
  pub spill : List Text
  pub ahead : List Text
  pub caps : List (Text × F)
  pub held : Bool
  pub free_since : Option F

-- What one poll decides the reserve by.
pub record Poll (F : Type 0) : Type 0 where
  pub reports : Reports F
  pub control_grid : F
  pub faded : List (Text × F)
  pub charge_blind : List Text
  pub dir : ℤ
  pub now : F

module _ {F : Type 0} ⦃fl : Float F⦄ where
  -- Whether every battery ahead is out of headroom, and the caps of those that are.
  unfoldable pub blocked_by :
      (Text → Option F) → List Text → List (Text × F) → Bool × List (Text × F)
  blocked_by cap [] caps = (true, caps)
  blocked_by cap (other ∷ ahead) caps =
      let passed = blocked_by cap ahead caps in
      elim (cap other) [
        | none ↦ (false, passed.1)
        | some c ↦ blocked_by cap ahead (put other c caps)
      ]

  unfoldable pub is_standby : Reports F → List (Text × F) → Text → Bool
  is_standby reports faded cid =
      let out : Bool = elim (get cid faded) [
        | none ↦ false
        | some w ↦ w ≤F nought && nought ≤F w
      ] in
      elem cid (keys reports) && out && nought <F (report_of reports cid).weight

  unfoldable pub is_ahead : Reports F → List (Text × F) → List Text → Text → Bool
  is_ahead reports faded standby cid =
      let weight : F = elim (get cid faded) [ none ↦ whole 1 | some w ↦ w ] in
      not (elem cid standby) && nought <F weight

  -- A battery that cannot take a surplus.
  unfoldable pub is_passed_over : Poll F → Text → Bool
  is_passed_over q cid =
      ltb_ℤ q.dir (pos 0)
      && (elem cid q.charge_blind || not (is_ac_chargeable (report_of q.reports cid).device_type))

  unfoldable pub is_staying : LoadBalancer F → Poll F → Text → Bool
  is_staying b q cid = elem cid b.spilling && eqb_ℤ b.spill_dir q.dir

  unfoldable pub has_overflow : Poll F → Bool
  has_overflow q = not (q.control_grid *F fl.of_int q.dir ≤F nought)

  -- One standby battery: whether it spills, and the state of the loop.
  unfoldable pub judge : LoadBalancer F → Poll F → Text → Scan F → Scan F × Bool
  unfolding blocked_by is_staying has_overflow
  judge b q cid st =
      let staying = is_staying b q cid in
      let margin = if staying then whole 50 else whole 25 in
      let (blocked, caps) =
        blocked_by (no_headroom b q.reports q.dir q.charge_blind margin) st.ahead st.caps in
      let seen = record st { caps = caps } in
      let since : F = elim st.free_since [ none ↦ q.now | some t ↦ t ] in
      let holds = ltb_ℤ (pos 15) ((report_of q.reports cid).power *ℤ q.dir) in
      if staying && not blocked
      then (if holds
          then (record seen { held = true; free_since = some since }, q.now -F since <F whole 10)
          else (seen, false))
      else (seen, blocked && (staying || has_overflow q))

  unfoldable pub scan : LoadBalancer F → Poll F → List Text → Scan F → Scan F
  unfolding is_passed_over judge
  scan b q [] st = st
  scan b q (cid ∷ standby) st =
      let (seen, spills) = judge b q cid st in
      let joined = record seen {
        spill = seen.spill ++ (cid ∷ []);
        ahead = seen.ahead ++ (cid ∷ []);
      } in
      let skipped = scan b q standby st in
      let further = scan b q standby joined in
      if is_passed_over q cid then skipped else if spills then further else seen

  -- The direction of the demand, where there is a standby battery and enough demand.
  unfoldable pub spill_sign : Reports F → F → List Text → ℤ
  spill_sign reports control_grid standby =
      let demand = fl.of_int (sum_power reports) +F control_grid in
      if ltb 0 (length standby) && whole 30 ≤F fabs demand then sign demand else pos 0

  unfoldable pub standby_of : LoadBalancer F → Reports F → List (Text × F) → List Text
  unfolding is_standby
  standby_of b reports faded = filter (is_standby reports faded) b.priority

  -- What the loop leaves, before the state is written.
  unfoldable pub scanned :
      Reports F → F → List (Text × F) → List Text → F → LoadBalancer F → Poll F × Scan F
  unfolding scan standby_of spill_sign is_ahead
  scanned reports control_grid faded charge_blind now b =
      let standby = standby_of b reports faded in
      let q : Poll F = record {
        reports = reports;
        control_grid = control_grid;
        faded = faded;
        charge_blind = charge_blind;
        dir = spill_sign reports control_grid standby;
        now = now;
      } in
      let start : Scan F = record {
        spill = [];
        ahead = filter (is_ahead reports faded standby) (keys reports);
        caps = [];
        held = false;
        free_since = b.spill_free_since;
      } in
      (q, if eqb_ℤ q.dir (pos 0) then start else scan b q standby start)

  -- `_update_spill`.
  unfoldable pub update_spill :
      Reports F → F → List (Text × F) → List Text → F → LoadBalancer F → LoadBalancer F × List Text
  unfolding scanned fold_states forget_saturation without set_consumer_grace clear_spill
      spill_scales
  update_spill reports control_grid faded charge_blind now b =
      let (q, found) = scanned reports control_grid faded charge_blind now b in
      let left = fold_states forget_saturation (without b.spilling found.spill) b in
      let graced =
        fold_states (λ cid. set_consumer_grace cid (now +F whole 20) now)
          (without found.spill b.spilling) left in
      let spills = ltb 0 (length found.spill) in
      let since = if found.held then found.free_since else none in
      let written = record graced {
        spilling = found.spill;
        spill_dir = if spills then q.dir else pos 0;
        spill_caps = if spills then found.caps else [];
        spill_scale = spill_scales 0 found.spill;
        spill_free_since = since;
      } in
      let waits : Bool = elim b.spill_free_since [ none ↦ false | some _ ↦ true ] in
      let cleared = if ltb 0 (length b.spilling) || waits then clear_spill b else b in
      if not (efficiency_enabled b.cfg) || ltb (length reports) 2
      then (cleared, [])
      else (written, found.spill)

  -- `_spill_takes`, over the spillers in reverse order.
  unfoldable pub takes : Reports F → ℤ → F → List Text → List (Text × F)
  takes reports d remaining [] = []
  takes reports d remaining (cid ∷ spilling) =
      let carried = fmax nought (fl.of_int ((report_of reports cid).power *ℤ d)) in
      let take = fmax (remaining *F fl.of_int d) (nought -F carried) *F fl.of_int d in
      (cid, take) ∷ takes reports d (remaining -F take) spilling

  unfoldable pub spill_takes : LoadBalancer F → Reports F → F → List (Text × F)
  unfolding takes
  spill_takes b reports error =
      if eqb_ℤ b.spill_dir (pos 0) || nought ≤F error *F fl.of_int b.spill_dir
      then []
      else takes reports b.spill_dir error (reversed b.spilling)

  -- `_spill_delivery`.
  unfoldable pub sum_takes : List (Text × F) → F → F
  sum_takes [] acc = acc
  sum_takes ((_, take) ∷ ts) acc = sum_takes ts (acc +F take)

  unfoldable pub spill_delivery : LoadBalancer F → Reports F → F → F
  unfolding spill_takes sum_power_of sum_takes
  spill_delivery b reports grid_total =
      let total = fl.of_int (sum_power_of reports b.spilling) in
      let gives = grid_total *F fl.of_int b.spill_dir <F fl.of_int (neg (pos 30)) in
      if not (ltb 0 (length b.spilling))
      then nought
      else if gives
      then total +F sum_takes (spill_takes b reports grid_total) nought
      else total
