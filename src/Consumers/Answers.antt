-- ===== src/Consumers/Answers.antt =====
-- The answer to a poll in src/astrameter/ct002/ct002.py: `_resolve_target`, `_compute_smooth_target`,
-- `_record_instructed_power`, `_build_response_fields` and `_serve`. What the callback that reads the
-- meter returned is an argument, as is `math.isfinite`; status lines and the event listener are not
-- part of the state.
pub mod Replies
pub mod Failures
use astra_meter.Prelude.{
  ℕ, zero, suc, ◌+◌, ◌%◌, Bool, true, false, ◌&&◌, ◌||◌, not, List, [], ◌∷◌, ◌++◌, Option, none,
  some, if◌then◌else◌, map, any, filter, length, take, ◌==◌,
}
use astra_meter.Prelude.Int.{ℤ, pos}
use astra_meter.Prelude.Text.{Text, text, same, upper, elem}
use astra_meter.Prelude.Dict.{get, put, keys}
use astra_meter.Prelude.Float.{Float, ◌<F◌, ◌≤F◌, ◌+F◌, nought}
use astra_meter.Wire.Numbers.{decimal, decimal_ℤ}
use astra_meter.Wire.Datagram.{Result, ok, err, build_payload}
use astra_meter.Prelude.Series.{fsum, nth}
use astra_meter.Balancer.State.{ConsumerReport, Mode, normalized}
use astra_meter.Balancer.Order.{Reports}
use astra_meter.Balancer.Steer.{phase_index}
use astra_meter.Balancer.Target.{compute_target}
use astra_meter.Consumers.Requests.{Request, consumer_id, in_inspection_mode, is_steered}
use astra_meter.Consumers.Store.{
  Consumer, Ct002, update_consumer, get_consumer, track_answer, consumer_mode,
}
use astra_meter.Consumers.Shaving.{sum, peakshaving, probe_output}
use astra_meter.Consumers.Buckets.{PhaseBucket, collect_reports_by_phase}

-- `_ServedTarget`: the reading, the target and whether the meter failed.
pub record Served (F : Type 0) : Type 0 where
  pub raw : List F
  pub target : List F
  pub failed : Bool

-- The count that a reply gives for a phase.
unfoldable pub count_field : Bool → Bool → PhaseBucket → Text
count_field active_control asked b =
    if active_control then (if b.active || asked then text "1" else text "0") else decimal b.count

-- The MAC that is set, else the one that the battery asks for.
unfoldable pub reply_mac : Text → Text → Text
reply_mac [] requested = requested
reply_mac (x ∷ own) requested = x ∷ own

module _ {F : Type 0} ⦃fl : Float F⦄ where
  -- `three_phases` of src/astrameter/power_units.py.
  unfoldable pub three_phases : List F → List F
  three_phases values = take 3 (values ++ (nought ∷ nought ∷ nought ∷ []))

  -- The report of a consumer as the balancer gets it.
  unfoldable pub report_from : Consumer F → ConsumerReport F
  report_from c = normalized (record {
    power = c.power;
    phase = c.phase;
    device_type = c.device_type;
    weight = c.distribution_weight;
    efficiency_window_weight = c.efficiency_window_weight;
    min_dc_output = c.min_dc_output;
    min_charge_power = c.min_charge_power;
    min_discharge_power = c.min_discharge_power;
    max_charge_power = c.max_charge_power;
    max_discharge_power = c.max_discharge_power;
  })

  -- The consumers that are steered, and the ids of those that pass a test.
  unfoldable pub steered_reports : List (Text × Consumer F) → Reports F
  steered_reports consumers =
      map (λ (cid, c). (cid, report_from c))
        (filter (λ (_, c). nought <F c.timestamp && is_steered c.phase) consumers)

  abbrev pub ids_where : (Consumer F → Bool) → List (Text × Consumer F) → List Text
  ids_where p consumers = keys (filter (λ (_, c). p c) consumers)

  -- `_compute_smooth_target`.
  unfoldable pub compute_smooth_target : List F → Text → F → Ct002 F → Ct002 F × List F
  compute_smooth_target [] cid now s = (s, [])
  compute_smooth_target (v ∷ vs) cid now s =
      let values = v ∷ vs in
      let total = fl.of_int (sum (map fl.truncate values)) +F probe_output s now in
      let (mode, manual_value) = consumer_mode cid s in
      let (demand, hold) = peakshaving total s now in
      let (steered, target) =
        compute_target cid mode manual_value (steered_reports s.consumers) demand
          (ids_where (λ c. not c.active || not c.participates) s.consumers)
          (ids_where (λ c. c.manual_enabled) s.consumers) values hold now s.balancer in
      if s.active_control
      then (record s { last_smooth_target = total; balancer = steered }, target)
      else (s, values)

  abbrev pub no_reading : List F
  no_reading = nought ∷ nought ∷ nought ∷ []

  -- The reading that a consumer is answered from.
  unfoldable pub reading_of : (F → Bool) → Text → Bool → Ct002 F → List F × Bool
  reading_of isfinite cid true s = (no_reading, true)
  reading_of isfinite cid false s = elim (get cid s.consumers) [
    | none ↦ (no_reading, false)
    | some c ↦ elim c.values [
      | none ↦ (no_reading, false)
      | some stored ↦
          if any (λ v. not (isfinite v)) stored then (no_reading, true) else (stored, false)
    ]
  ]

  -- `_resolve_target`.
  unfoldable pub resolve_target : (F → Bool) → Request → Bool → F → Ct002 F → Ct002 F × Served F
  resolve_target isfinite r meter_failed now s =
      let cid = consumer_id r in
      let (values, failed) = reading_of isfinite cid meter_failed s in
      let (after, target) = compute_smooth_target values cid now s in
      let steers = s.active_control && not (in_inspection_mode r) && not failed in
      (
        if steers then after else s,
        record {
          raw = three_phases values;
          target = three_phases (if steers then target else values);
          failed = failed;
        },
      )

  -- `_record_instructed_power`.
  unfoldable pub record_instructed_power : Request → List F → Ct002 F → Ct002 F
  record_instructed_power r values s =
      update_consumer
        (λ c.
          let delta =
            if same (upper c.phase) (text "D")
            then fsum nought values
            else nth values (phase_index c.phase) in
          record c { last_instructed_power = fl.of_int r.power +F delta })
        (consumer_id r) s

  abbrev pub is_not_nought : F → Bool
  is_not_nought v = not (v ≤F nought && nought ≤F v)

  -- `_build_response_fields`: the fields in the order of `RESPONSE_LABELS`.
  unfoldable pub response_fields : Request → F → F → F → F → Ct002 F → List Text
  response_fields r a b c now s =
      let total = a +F b +F c in
      let bucket = collect_reports_by_phase s now in
      let count = count_field s.active_control in
      s.ct_type
      ∷ reply_mac s.ct_mac r.ct_mac
      ∷ r.meter_dev_type
      ∷ r.meter_mac
      ∷ decimal_ℤ (fl.round a)
      ∷ decimal_ℤ (fl.round b)
      ∷ decimal_ℤ (fl.round c)
      ∷ decimal_ℤ (fl.round total)
      ∷ count (is_not_nought a) (bucket (text "A"))
      ∷ count (is_not_nought b) (bucket (text "B"))
      ∷ count (is_not_nought c) (bucket (text "C"))
      ∷ count (same r.phase (text "D") && is_not_nought total) (bucket (text "ABC"))
      ∷ decimal_ℤ s.wifi_rssi
      ∷ decimal s.info_idx_counter
      ∷ decimal_ℤ (bucket (text "x")).chrg_power
      ∷ decimal_ℤ (bucket (text "A")).chrg_power
      ∷ decimal_ℤ (bucket (text "B")).chrg_power
      ∷ decimal_ℤ (bucket (text "C")).chrg_power
      ∷ decimal_ℤ (bucket (text "ABC")).chrg_power
      ∷ decimal_ℤ (bucket (text "x")).dchrg_power
      ∷ decimal_ℤ (bucket (text "A")).dchrg_power
      ∷ decimal_ℤ (bucket (text "B")).dchrg_power
      ∷ decimal_ℤ (bucket (text "C")).dchrg_power
      ∷ decimal_ℤ (bucket (text "ABC")).dchrg_power
      ∷ []

  -- The readings that are sent: zeros unless there are three.
  unfoldable pub build_response_fields : Request → List F → F → Ct002 F → Ct002 F × List Text
  build_response_fields r values now s =
      let counted = record s { info_idx_counter = (s.info_idx_counter + 1) % 256 } in
      if length values == 3
      then (counted, response_fields r (nth values 0) (nth values 1) (nth values 2) now s)
      else (counted, response_fields r nought nought nought now s)

  -- What a reply that is sent leaves behind.
  unfoldable pub answered : Text → Served F → F → Ct002 F → Ct002 F
  answered cid served now s =
      let tracked = track_answer cid now s in
      record tracked {
        last_grid_values = some served.raw;
        last_grid_at = now;
        last_meter_failed = served.failed;
        last_target_by_consumer = put cid served.target tracked.last_target_by_consumer;
        rev = suc tracked.rev;
      }

  -- A target is booked, unless the battery is detecting its phase.
  unfoldable pub booked_for : Request → Served F → Ct002 F → Ct002 F
  booked_for r served s =
      if in_inspection_mode r then s else record_instructed_power r served.target s

  -- `_serve`, from what the callback returned on: the state and the datagram that is sent.
  unfoldable pub replied : Request → Served F → F → Ct002 F → Ct002 F × Option Text
  replied r served now s =
      let (counted, response) = build_response_fields r served.target now (booked_for r served s) in
      elim (build_payload response) [
        | err _ ↦ (counted, none)
        | ok d ↦ (answered (consumer_id r) served now counted, some d)
      ]

  -- The reading that the callback returned is stored, be it finite or not.
  unfoldable pub with_reading : Text → Option (List F) → Ct002 F → Ct002 F
  unfolding update_consumer
  with_reading cid none s = s
  with_reading cid (some values) s = update_consumer (λ c. record c { values = some values }) cid s

  unfoldable pub serve :
      (F → Bool) → Request → Option (List F) → Bool → F → Ct002 F → Ct002 F × Option Text
  serve isfinite r updated meter_failed now s =
      let read = with_reading (consumer_id r) updated s in
      let (resolved, served) = resolve_target isfinite r meter_failed now read in
      if served.failed && in_inspection_mode r
      then (record resolved { last_meter_failed = true; rev = suc resolved.rev }, none)
      else replied r served now resolved
