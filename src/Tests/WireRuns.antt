-- ===== src/Tests/WireRuns.antt =====
-- Runs of the wire protocol of src/astrameter/ct002/protocol.py.
use astra_meter.Wire.Datagram.{join}
use astra_meter.Wire.Datagram.{split}
use astra_meter.Prelude.Text.{lower}
use astra_meter.Wire.Datagram.{checksum_matches}
use astra_meter.Wire.Numbers.{int_of}
use astra_meter.Wire.Datagram.{find_separator}
use astra_meter.Prelude.Text.{same}
use astra_meter.Wire.Datagram.{calculate_checksum}
use astra_meter.Wire.Numbers.{hex_byte}
use astra_meter.Prelude.{◌++◌, ◌≡◌, ◌≢◌, refl, List, [], ◌∷◌, arith, set}
use astra_meter.Prelude.Text.{Text, text}
use astra_meter.Wire.Numbers.{decimal}
use astra_meter.Wire.Datagram.{
  ok, fields, build_payload, compute_length, parse_request, soh, stx, etx,
}
use astra_meter.Wire.Digits.{IsMeasured, compute_length_lem}
use astra_meter.Wire.RoundTrip.{parse_request-build_payload}
use astra_meter.Wire.Corruption.{IsGenuine, parse_request-IsGenuine, parse_request-corrupted}

abbrev poll : List Text
poll = text "HMG-50" ∷ text "02a1" ∷ text "HME-4" ∷ text "02a2" ∷ text "A" ∷ text "-120" ∷ []

abbrev poll_datagram : Text
poll_datagram = soh ∷ stx ∷ (text "37|HMG-50|02a1|HME-4|02a2|A|-120" ++ (etx ∷ text "6b"))

poll_built : build_payload poll ≡ ok poll_datagram
unfolding build_payload compute_length decimal hex_byte calculate_checksum
poll_built = refl

poll_parsed : parse_request poll_datagram ≡ fields poll
unfolding parse_request same find_separator int_of checksum_matches lower hex_byte
    calculate_checksum split
poll_parsed = refl

parse_request-build_payload_example :
    (d : Text) × (build_payload poll ≡ ok d) × (parse_request d ≡ fields poll)
unfolding join
parse_request-build_payload_example =
    parse_request-build_payload (text "HMG-50")
      (text "02a1" ∷ text "HME-4" ∷ text "02a2" ∷ text "A" ∷ text "-120" ∷ [])
      (refl, (refl, (refl, (refl, (refl, (refl, tt)))))) (omega arith) (omega arith)

-- The power field of the poll says -920 in place of -120.
parse_request-corrupted_example :
    parse_request (set poll_datagram 31 b'9')
    ≢ fields
        (text "HMG-50" ∷ text "02a1" ∷ text "HME-4" ∷ text "02a2" ∷ text "A" ∷ text "-920" ∷ [])
parse_request-corrupted_example =
    parse_request-corrupted poll
      (text "HMG-50" ∷ text "02a1" ∷ text "HME-4" ∷ text "02a2" ∷ text "A" ∷ text "-920" ∷ [])
      poll_datagram 31 b'1' b'9' poll_built (omega arith) refl (omega arith) (omega arith)

parse_request-IsGenuine_example : IsGenuine poll_datagram
parse_request-IsGenuine_example = parse_request-IsGenuine poll_datagram poll_parsed

compute_length_lem_example : IsMeasured 9991 (compute_length 9991)
compute_length_lem_example = compute_length_lem 9991
