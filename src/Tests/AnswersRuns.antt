-- ===== src/Tests/AnswersRuns.antt =====
-- Runs of the answers of src/astrameter/ct002/ct002.py.
use astra_meter.Wire.Datagram.{join}
use astra_meter.Prelude.{List, Option, leb}
use astra_meter.Wire.Numbers.{decimal, decimal_ℤ, digits_onto, skip_spaces, is_space}
use astra_meter.Consumers.Requests.{is_steered, strip, strip_end, normalize_phase}
use astra_meter.Consumers.Store.{
  update_consumer, get_consumer, known_or_created, apply_override, consumer_expired,
  consumer_ttl_seconds,
}
use astra_meter.Consumers.Buckets.{
  collect_reports_by_phase, bucket_of, counts_in, bucket_for_phase, add, shown_power, instructed,
  get_last_intent,
}
use astra_meter.Consumers.Answers.{
  build_response_fields, response_fields, booked_for, record_instructed_power, reply_mac,
  count_field,
}
use astra_meter.Prelude.Text.{elem, same, upper, lower}
use astra_meter.Prelude.Dict.{get, put}
use astra_meter.Prelude.Int.{◌*ℤ◌, ◌+ℤ◌, ◌-ℤ◌, quot_ℤ, abs}
use astra_meter.Balancer.Steer.{phase_index}
use astra_meter.Prelude.Int.{◌*ℤ◌}
use astra_meter.Prelude.Text.{lower}
use astra_meter.Prelude.Text.{same}
use astra_meter.Prelude.Dict.{get}
use astra_meter.Prelude.{leb, refl, ◌≡◌, Bool, true, false, [], ◌∷◌, some, arith, length}
use astra_meter.Prelude.Int.{negsuc, pos, neg}
use astra_meter.Prelude.Text.{Text, text}
use astra_meter.Prelude.Float.{milli_float, Milli, whole, nought}
use astra_meter.Wire.Datagram.{fields, parse_request}
use astra_meter.Wire.RoundTrip.{message_of}
use astra_meter.Consumers.Requests.{Request, in_inspection_mode, consumer_id}
use astra_meter.Consumers.Answers.{Served, replied, serve}
use astra_meter.Consumers.Answers.Replies.{reply_fields, replied-parses}
use astra_meter.Consumers.Answers.Failures.{fetched, IsHeld, serve-meter_failed}
use astra_meter.Tests.Fixture.{b}
use astra_meter.Tests.ConsumersRuns.{meter}

-- Battery b on phase B, which discharges with 60 W, is asked for 250 W more.
abbrev request : Request
request = record {
  meter_dev_type = text "HMG-50";
  meter_mac = b;
  ct_type = text "HME-4";
  ct_mac = text "00aa";
  phase = text "B";
  power = pos 60;
  participates = true;
  addr = (text "10.0.0.7", 12_345);
}

abbrev served : Served Milli
served = record {
  raw = whole 500 ∷ nought ∷ nought ∷ [];
  target = nought ∷ whole 250 ∷ nought ∷ [];
  failed = false;
}

reply_short : leb (length (message_of (reply_fields request served (whole 105) meter))) 9990 ≡ true
unfolding join build_response_fields response_fields booked_for in_inspection_mode is_steered elem
    same record_instructed_power update_consumer reply_mac decimal_ℤ decimal digits_onto count_field
    collect_reports_by_phase bucket_of counts_in bucket_for_phase normalize_phase strip strip_end
    skip_spaces is_space upper lower consumer_expired consumer_ttl_seconds add shown_power
    instructed get_last_intent get put get_consumer known_or_created apply_override phase_index
    consumer_id ◌*ℤ◌ ◌+ℤ◌ ◌-ℤ◌ quot_ℤ neg abs
reply_short = refl

replied-parses_example :
    (d : Text) × ((replied request served (whole 105) meter).1 ≡ some d)
    × (parse_request d ≡ fields (reply_fields request served (whole 105) meter))
    × (length (reply_fields request served (whole 105) meter) ≡ 24)
replied-parses_example =
    replied-parses request served (whole 105) meter
      (record {
        ct_type = refl;
        ct_mac = refl;
        request_mac = refl;
        meter_dev_type = refl;
        meter_mac = refl;
      })
      (ground (arith, reply_short))

-- A reading of b that is not a number of at most 9999 W stands for one that is not finite.
abbrev finite : Milli → Bool
finite (pos n) = leb n 9_999_000
finite (negsuc n) = leb n 9_999_000

-- The meter returns such a reading in this poll.
serve-meter_failed_example :
    let bad : Option (List Milli) = some (whole 10_000 ∷ []) in
    let out = serve finite request bad false (whole 105) meter in
    ((out.0).balancer ≡ meter.balancer)
    × IsHeld (in_inspection_mode request) request bad (whole 105) meter out
unfolding ◌*ℤ◌
serve-meter_failed_example =
    serve-meter_failed finite request (some (whole 10_000 ∷ [])) false (whole 105) meter
      (fetched (whole 10_000 ∷ []) refl refl)
