-- ===== src/Balancer/Steer/Zero.antt =====
-- A battery that winds down to zero.
use astra_meter.Prelude.{
  Bool-cases, ◌∙◌, ◌≡◌, inl, inr, refl, true, false, Bool, none, some, if◌then◌else◌, ◌&&◌, List,
  ap, ◌∙◌, arith,
}
use astra_meter.Prelude.Int.{pos}
use astra_meter.Prelude.Text.{Text, same}
use astra_meter.Prelude.Dict.{get}
use astra_meter.Prelude.Float.{Float, ◌≤F◌, ◌-F◌, nought}
use astra_meter.Prelude.Scale.{IsScaling}
use astra_meter.Balancer.State.{
  ConsumerState, ConsumerReport, sign, report_of, needs_dc_output_floor,
}
use astra_meter.Balancer.Pool.{LoadBalancer, state_of, change}
use astra_meter.Balancer.Pool.Frame.{beside_put, change-state_of, change-others, change-lookup}
use astra_meter.Balancer.Order.{Reports}
use astra_meter.Balancer.Limits.{max_power}
use astra_meter.Balancer.Pace.{pace_reading}
use astra_meter.Balancer.Pace.Bounds.{raising, lowering, IsShortened, pace_reading-bounds}
use astra_meter.Balancer.Steer.{
  moved_by, asked_of, List, Emission, emit, steer_to_zero, limited_output, note_intent,
  to_grid_reading, plainly, is_named, on_phase, phase_index, paced,
}

module _ {F : Type 0} ⦃fl : Float F⦄ (law : IsScaling F) where
  -- What winding a battery down comes to: a reading on its own phase alone, between zero and what
  -- would bring its output to zero at once; the output that is noted as asked for is zero, and no
  -- other battery's state changes.
  pub record IsWindingDown (cid : Text) (reports : Reports F) (b : LoadBalancer F)
      (out : LoadBalancer F × List F) : Type 0 where
    pub reading : F
    pub sent : out.1 ≡ on_phase (phase_index (report_of reports cid).phase) reading
    pub shortened : IsShortened law (nought -F fl.of_int (report_of reports cid).power) reading
    pub intent : (state_of (out.0) cid).last_intent ≡ some nought
    pub others :
        (other : Text)
        → get other (out.0).consumers
          ≡ (if same cid other then some (state_of (out.0) cid) else get other b.consumers)

  sign-nought : sign {F = F} nought ≡ pos 0
  unfolding sign
  sign-nought = ground (arith, law.lt-eq-not-le nought nought, law.le_refl nought)

  limited_zero :
      (b : LoadBalancer F) (report : ConsumerReport F) → limited_output b report nought ≡ nought
  unfolding limited_output max_power
  limited_zero b report = rw (sign-nought, max_power, limited_output) refl

  asked_zero :
      (b : LoadBalancer F) (reports : Reports F) (cid : Text)
      → asked_of b reports cid true nought ≡ nought
  unfolding asked_of
  asked_zero b reports cid = ground (arith, limited_zero b (report_of reports cid))

  unchanged : (reading : F) → IsShortened law reading reading
  unchanged reading = elim (law.le_total nought reading) [
    | inl up ↦ raising up (law.le_refl reading)
    | inr down ↦ lowering (law.le_refl reading) down
  ]

  moved_by-IsShortened :
      (cid : Text) (reports : Reports F) (slow : Bool) (now unpaced reported : F)
      (b : LoadBalancer F)
      → b.cfg.pace_base_step ≤F nought ≡ false
      → b.cfg.pace_base_step ≤F b.cfg.pace_max_step ≡ true
      → IsShortened law unpaced (moved_by slow reports now cid unpaced reported b).1
  unfolding moved_by paced
  moved_by-IsShortened cid reports slow now unpaced reported b on fits =
      elim (Bool-cases (slow && is_named cid)) [
        | inl e ↦
            let can_stall = needs_dc_output_floor (report_of reports cid).device_type in
            let bounds =
              pace_reading-bounds law b.cfg can_stall now unpaced reported (state_of b cid) on
                fits in
            rw (e, moved_by, paced) (bounds.1)
        | inr e ↦ rw (e, moved_by) (unchanged unpaced)
      ]

  moved_by-others :
      (cid : Text) (reports : Reports F) (slow : Bool) (now unpaced reported : F)
      (b : LoadBalancer F) (other : Text)
      → same cid other ≡ false
      → get other (moved_by slow reports now cid unpaced reported b).0.consumers
        ≡ get other b.consumers
  unfolding moved_by paced
  moved_by-others cid reports slow now unpaced reported b other h =
      elim (Bool-cases (slow && is_named cid)) [
        | inl e ↦
            let can_stall = needs_dc_output_floor (report_of reports cid).device_type in
            let after = pace_reading b.cfg can_stall now unpaced reported (state_of b cid) in
            rw (e, moved_by, paced) (change-others (λ _. after.0) cid other b h)
        | inr e ↦ rw (e, moved_by) refl
      ]

  abbrev winding : Bool → Text → Emission F
  winding slow phase = record plainly {
    pace = slow;
    single_phase = some phase;
    last_target = if slow then none else some nought;
    intent_reading = some nought;
  }

  -- Winding down, at once or at the pace of the battery, is as `IsWindingDown` says: where pacing is
  -- on, with a largest step that is not below the base step.
  pub steer_to_zero-IsWindingDown :
      (cid : Text) (reports : Reports F) (slow : Bool) (now : F) (b : LoadBalancer F)
      → is_named cid ≡ true
      → b.cfg.pace_base_step ≤F nought ≡ false
      → b.cfg.pace_base_step ≤F b.cfg.pace_max_step ≡ true
      → IsWindingDown cid reports b (steer_to_zero cid reports slow now b)
  unfolding to_grid_reading emit steer_to_zero note_intent
  steer_to_zero-IsWindingDown cid reports slow now b named on fits =
      let report = report_of reports cid in
      let reported = fl.of_int report.power in
      let unpaced = nought -F reported in
      let sent = moved_by slow reports now cid unpaced reported b in
      let noted : ConsumerState F → ConsumerState F =
        note_intent (winding slow report.phase) nought unpaced (sent.1) in
      rw (named, asked_zero b reports cid, emit, steer_to_zero)
        (record {
          reading = sent.1;
          sent = refl;
          shortened = moved_by-IsShortened cid reports slow now unpaced reported b on fits;
          intent = ap (λ s. s.last_intent) (change-state_of noted cid (sent.0));
          others = λ other.
              change-lookup noted cid other (sent.0)
              ∙ beside_put cid other (state_of (change noted cid (sent.0)) cid) b (sent.0)
                  (moved_by-others cid reports slow now unpaced reported b other);
        })
