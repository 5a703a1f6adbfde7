-- ===== src/Tests/ConsumersRuns.antt =====
-- Runs of the consumers of src/astrameter/ct002/ct002.py: two batteries on phase A, one of them silent
-- for a minute, and a third that looks for its phase.
use astra_meter.Prelude.Sort.{count}
use astra_meter.Prelude.Text.{starts_with}
use astra_meter.Wire.Datagram.{is_reader_mac}
use astra_meter.Wire.Datagram.{split}
use astra_meter.Wire.Datagram.{calculate_checksum}
use astra_meter.Wire.Numbers.{hex_byte}
use astra_meter.Prelude.Text.{lower}
use astra_meter.Wire.Datagram.{checksum_matches}
use astra_meter.Wire.Numbers.{int_of}
use astra_meter.Wire.Datagram.{find_separator}
use astra_meter.Wire.Datagram.{parse_request}
use astra_meter.Consumers.Requests.{decode_request, from_fields}
use astra_meter.Prelude.Text.{Text, upper}
use astra_meter.Consumers.Buckets.{get_last_intent}
use astra_meter.Prelude.Int.{abs}
use astra_meter.Prelude.Int.{◌-ℤ◌}
use astra_meter.Prelude.Text.{elem}
use astra_meter.Prelude.Int.{◌+ℤ◌}
use astra_meter.Prelude.Int.{◌*ℤ◌}
use astra_meter.Prelude.{
  ◌++◌, ◌≡◌, refl, true, false, List, [], ◌∷◌, none, some, length, All, Bool-cases, inl, inr,
}
use astra_meter.Prelude.Int.{negsuc, pos, neg}
use astra_meter.Prelude.Text.{text, same}
use astra_meter.Prelude.Dict.{get, IsUnique}
use astra_meter.Prelude.Float.{milli_float, Milli, whole, nought}
use astra_meter.Wire.Datagram.{soh, stx, etx}
use astra_meter.Balancer.State.{fresh_state}
use astra_meter.Consumers.Store.{
  Consumer, Ct002, fresh, override_of, get_consumer, known_or_created, apply_override,
  cleanup_consumers, consumer_expired,
}
use astra_meter.Consumers.Settings.{max_charge_power}
use astra_meter.Consumers.Events.{Event, configure, run}
use astra_meter.Consumers.Expiry.{IsCleaned, cleanup_consumers-IsCleaned}
use astra_meter.Consumers.Memory.{IsRemembered, cleanup_consumers-keeps_settings}
use astra_meter.Consumers.Shaving.{sum, peakshaving}
use astra_meter.Consumers.Shaving.Hold.{IsTrading, peakshaving-IsTrading}
use astra_meter.Consumers.Buckets.{counts_in, collect_reports_by_phase}
use astra_meter.Consumers.Buckets.Totals.{
  IsSplit, net, contributions, collect_reports_by_phase-IsSplit,
}
use astra_meter.Consumers.Buckets.Intent.{IsCharging, collect_reports_by_phase-IsCharging}
use astra_meter.Consumers.Polls.{handle_request}
use astra_meter.Consumers.Polls.Booking.{IsHandled, handle_request-IsHandled}
use native.Mathlib.Omega.{arith}
use astra_meter.Tests.Fixture.{a, b, c, pool}

-- a charges with 40 W while b discharges with 60 W.
abbrev a_charges : Consumer Milli
a_charges = record fresh {
  power = neg (pos 40);
  timestamp = whole 100;
  last_instructed_power = whole 70;
}

abbrev b_discharges : Consumer Milli
b_discharges = record fresh { power = pos 60; timestamp = whole 100; phase = text "B" }

abbrev c_silent : Consumer Milli
c_silent = record fresh { power = pos 5; timestamp = whole 40; phase = text "0" }

abbrev pub meter : Ct002 Milli
meter = record {
  consumers = (a, a_charges) ∷ (b, b_discharges) ∷ (c, c_silent) ∷ [];
  consumer_overrides = [];
  balancer = record pool {
    consumers = (a, record fresh_state { last_intent = some (neg (pos 5000)) }) ∷ [];
  };
  dedup = record { window = nought; last = [] };
  dedupe_time_window = nought;
  consumer_ttl = none;
  active_control = true;
  peakshaving_threshold = whole 100;
  inspecting = c ∷ [];
  last_target_by_consumer = [];
  rev = 0;
  ct_type = text "HME-4";
  ct_mac = [];
  wifi_rssi = neg (pos 50);
  info_idx_counter = 255;
  last_smooth_target = nought;
  last_grid_values = none;
  last_grid_at = nought;
  last_meter_failed = false;
}

meter-IsUnique : IsUnique meter.consumers
unfolding get same
meter-IsUnique = (refl, (refl, (refl, tt)))

cleanup_consumers-IsCleaned_example :
    IsCleaned
      (consumer_expired meter (whole 105) c_silent)
      c
      c_silent
      (cleanup_consumers (whole 105) meter)
unfolding get same count
cleanup_consumers-IsCleaned_example =
    cleanup_consumers-IsCleaned (whole 105) c meter c_silent meter-IsUnique (omega arith) refl

-- A setting of c, and its eviction.
abbrev story : List (Event Milli)
story = configure (max_charge_power (some (whole 800))) c (whole 50) ∷ []

-- No setting is saved at the start, and each consumer has those of a fresh one.
fresh_settings : IsRemembered meter
unfolding get_consumer known_or_created apply_override get
fresh_settings k = elim (Bool-cases (same a k)) [
  | inl e ↦ rw e
  | inr e ↦ elim (Bool-cases (same b k)) [
    | inl f ↦ rw (e, f)
    | inr f ↦ elim (Bool-cases (same c k)) [ inl g ↦ rw (e, f, g) | inr g ↦ rw (e, f, g) ]
  ]
]

cleanup_consumers-keeps_settings_example :
    override_of (get_consumer c (cleanup_consumers (whole 105) (run story meter)))
    ≡ override_of (get_consumer c (run story meter))
cleanup_consumers-keeps_settings_example =
    cleanup_consumers-keeps_settings story (whole 105) c meter fresh_settings

-- The demand of 30 W is below the threshold, and the two batteries trade power.
peakshaving_holds : (peakshaving (whole 10) meter (whole 105)).1 ≡ true
unfolding peakshaving ◌*ℤ◌ ◌+ℤ◌ elem same ◌-ℤ◌ neg abs
peakshaving_holds = refl

peakshaving-IsTrading_example : IsTrading (whole 10) meter (whole 105)
peakshaving-IsTrading_example = peakshaving-IsTrading (whole 10) meter (whole 105) peakshaving_holds

collect_reports_by_phase-IsSplit_example :
    let q = collect_reports_by_phase meter (whole 105) (text "A") in
    let ps = contributions meter (whole 105) (text "A") meter.consumers in
    IsSplit q × (net q ≡ sum ps) × (q.count ≡ length ps)
collect_reports_by_phase-IsSplit_example =
    collect_reports_by_phase-IsSplit meter (whole 105) (text "A")

a_down : IsCharging meter a
unfolding get_last_intent get same neg ◌*ℤ◌
a_down = record { intent = negsuc 4999; known = refl; down = refl }

b_not_counted : counts_in meter (whole 105) (text "A") b_discharges ≡ false
unfolding counts_in ◌*ℤ◌ ◌-ℤ◌ same elem upper
b_not_counted = refl

c_not_counted : counts_in meter (whole 105) (text "A") c_silent ≡ false
unfolding counts_in ◌*ℤ◌ ◌-ℤ◌
c_not_counted = refl

others_elsewhere :
    All
      (λ e. counts_in meter (whole 105) (text "A") e.1 ≡ true → IsCharging meter e.0)
      meter.consumers
others_elsewhere = ((λ p. a_down), ((λ p. cc b_not_counted), ((λ p. cc c_not_counted), tt)))

collect_reports_by_phase-IsCharging_example :
    (collect_reports_by_phase meter (whole 105) (text "A")).dchrg_power ≡ pos 0
unfolding same
collect_reports_by_phase-IsCharging_example =
    collect_reports_by_phase-IsCharging meter (whole 105) (text "A") refl refl others_elsewhere

-- A poll of b while the handler of an earlier one waits.
abbrev poll_of_b : Text
poll_of_b = soh ∷ stx ∷ (text "34|HMG-50|b|HME-4|02a2|A|-120" ++ (etx ∷ text "58"))

poll_decoded :
    decode_request [] poll_of_b (text "10.0.0.2", 1234)
    ≡ some (
        from_fields
          (text "HMG-50" ∷ text "b" ∷ text "HME-4" ∷ text "02a2" ∷ text "A" ∷ text "-120" ∷ [])
          (text "10.0.0.2", 1234))
unfolding decode_request parse_request same find_separator int_of checksum_matches lower hex_byte
    calculate_checksum split is_reader_mac starts_with
poll_decoded = refl

handle_request-IsHandled_example :
    let (s, answered) =
      handle_request [] (b ∷ []) poll_of_b (text "10.0.0.2", 1234) (whole 106) meter in
    IsHandled
      (b ∷ [])
      (decode_request [] poll_of_b (text "10.0.0.2", 1234))
      (whole 106)
      meter
      s
      answered
handle_request-IsHandled_example =
    handle_request-IsHandled [] (b ∷ []) poll_of_b (text "10.0.0.2", 1234) (whole 106) meter
