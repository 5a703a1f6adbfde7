-- ===== src/Consumers/Answers/Replies.antt =====
-- A reply reaches the battery as it was built.
use astra_meter.Prelude.{
  ◌/◌, ℕ, zero, suc, ◌+◌, ◌%◌, ◌≤◌, length-append, ◌&&◌, ◌≡◌, refl, Bool, true, false, List, [],
  ◌∷◌, some, All, ◌==◌, length, arith, Bool-cases, inl, inr,
}
use astra_meter.Prelude.Int.{ℤ, pos, negsuc}
use astra_meter.Prelude.Text.{Text, text}
use astra_meter.Prelude.Float.{Float, ◌+F◌, nought}
use astra_meter.Wire.Numbers.{digits_onto, decimal, decimal_ℤ}
use astra_meter.Wire.Datagram.{separator, join, ok, build_payload, fields, parse_request}
use astra_meter.Wire.Split.{IsField}
use astra_meter.Wire.RoundTrip.{message_of, parse_request-build_payload}
use astra_meter.Consumers.Requests.{Request, in_inspection_mode}
use astra_meter.Consumers.Store.{Ct002, update_consumer}
use astra_meter.Consumers.Buckets.{PhaseBucket}
use astra_meter.Consumers.Answers.{
  same, is_not_nought, update_consumer, booked_for, collect_reports_by_phase, reply_mac, Served,
  replied, count_field, response_fields, build_response_fields, record_instructed_power,
}

digits_onto-IsField : (f n : ℕ) (rest : Text) → IsField rest → IsField (digits_onto f n rest)
unfolding digits_onto
digits_onto-IsField zero n rest h = h
digits_onto-IsField (suc f) n rest h =
    let digit : n % 10 ≤ 9 = omega arith in
    let here : IsField ((b'0' + n % 10) ∷ rest) = ground (arith, digit, h) in
    ground (arith, here, digits_onto-IsField f (n / 10) ((b'0' + n % 10) ∷ rest) here)

number_clean : (n : ℕ) → IsField (decimal n)
unfolding decimal
number_clean n = digits_onto-IsField (suc n) n [] refl

integer_clean : (a : ℤ) → IsField (decimal_ℤ a)
unfolding decimal_ℤ
integer_clean (pos n) = number_clean n
integer_clean (negsuc n) = ground (arith, number_clean (suc n))

count_clean :
    (active_control asked : Bool) (b : PhaseBucket) → IsField (count_field active_control asked b)
unfolding count_field
count_clean false asked b = number_clean b.count
count_clean true asked b = ground arith

mac_clean :
    (own requested : Text) → IsField own → IsField requested → IsField (reply_mac own requested)
unfolding reply_mac
mac_clean [] requested h k = k
mac_clean (x ∷ own) requested h k = h

length-join : (f : Text) (fs : List Text) → length fs ≤ length (join (f ∷ fs))
unfolding join
length-join f [] = omega arith
length-join f (g ∷ gs) =
    omega (arith, length-append f (separator ∷ join (g ∷ gs)), length-join g gs)

sends :
    (fs : List Text)
    → All IsField fs
    → 4 ≤ length fs
    → length (message_of fs) ≤ 9990
    → (d : Text) × (build_payload fs ≡ ok d) × (parse_request d ≡ fields fs)
sends [] clean long short = absurd (omega (arith, long))
sends (f ∷ fs) clean long short =
    parse_request-build_payload f fs clean (omega (arith, long, length-join f fs)) short

-- The texts that a reply takes from the settings and from the request.
pub record IsSendable {F : Type 0} (r : Request) (s : Ct002 F) : Type 0 where
  pub ct_type : IsField s.ct_type
  pub ct_mac : IsField s.ct_mac
  pub request_mac : IsField r.ct_mac
  pub meter_dev_type : IsField r.meter_dev_type
  pub meter_mac : IsField r.meter_mac

module _ {F : Type 0} ⦃fl : Float F⦄ where
  fields_clean :
      (r : Request) (a b c now : F) (s : Ct002 F)
      → IsSendable r s
      → All IsField (response_fields r a b c now s)
  unfolding response_fields
  fields_clean r a b c now s h =
      let active = s.active_control in
      let bucket = collect_reports_by_phase s now in
      (
        h.ct_type,
        (
          mac_clean s.ct_mac r.ct_mac h.ct_mac h.request_mac,
          (
            h.meter_dev_type,
            (
              h.meter_mac,
              (
                integer_clean (fl.round a),
                (
                  integer_clean (fl.round b),
                  (
                    integer_clean (fl.round c),
                    (
                      integer_clean (fl.round (a +F b +F c)),
                      (
                        count_clean active (is_not_nought a) (bucket (text "A")),
                        (
                          count_clean active (is_not_nought b) (bucket (text "B")),
                          (
                            count_clean active (is_not_nought c) (bucket (text "C")),
                            (
                              count_clean active
                                  (same r.phase (text "D") && is_not_nought (a +F b +F c))
                                  (bucket (text "ABC")),
                              (
                                integer_clean s.wifi_rssi,
                                (
                                  number_clean s.info_idx_counter,
                                  (
                                    integer_clean (bucket (text "x")).chrg_power,
                                    (
                                      integer_clean (bucket (text "A")).chrg_power,
                                      (
                                        integer_clean (bucket (text "B")).chrg_power,
                                        (
                                          integer_clean (bucket (text "C")).chrg_power,
                                          (
                                            integer_clean (bucket (text "ABC")).chrg_power,
                                            (
                                              integer_clean (bucket (text "x")).dchrg_power,
                                              (
                                                integer_clean (bucket (text "A")).dchrg_power,
                                                (
                                                  integer_clean (bucket (text "B")).dchrg_power,
                                                  (
                                                    integer_clean (bucket (text "C")).dchrg_power,
                                                    (
                                                      integer_clean
                                                          (bucket (text "ABC")).dchrg_power,
                                                      tt,
                                                    ),
                                                  ),
                                                ),
                                              ),
                                            ),
                                          ),
                                        ),
                                      ),
                                    ),
                                  ),
                                ),
                              ),
                            ),
                          ),
                        ),
                      ),
                    ),
                  ),
                ),
              ),
            ),
          ),
        ),
      )

  built_clean :
      (r : Request) (values : List F) (now : F) (s : Ct002 F)
      → IsSendable r s
      → All IsField (build_response_fields r values now s).1
  unfolding build_response_fields
  built_clean r values now s h = elim (Bool-cases (length values == 3)) [
    | inl e ↦ rw (e) (fields_clean r _ _ _ now s h)
    | inr e ↦ rw (e) (fields_clean r nought nought nought now s h)
  ]

  built_length :
      (r : Request) (values : List F) (now : F) (s : Ct002 F)
      → length (build_response_fields r values now s).1 ≡ 24
  unfolding build_response_fields response_fields
  built_length r values now s = elim (Bool-cases (length values == 3)) [
    | inl e ↦ rw (e) refl
    | inr e ↦ rw (e) refl
  ]

  booked_for-IsSendable :
      (r : Request) (served : Served F) (s : Ct002 F)
      → IsSendable r s
      → IsSendable r (booked_for r served s)
  unfolding booked_for record_instructed_power update_consumer
  booked_for-IsSendable r served s h = elim (Bool-cases (in_inspection_mode r)) [
    | inl e ↦ rw (e) h
    | inr e ↦ rw (e) (record {
      ct_type = h.ct_type;
      ct_mac = h.ct_mac;
      request_mac = h.request_mac;
      meter_dev_type = h.meter_dev_type;
      meter_mac = h.meter_mac;
    })
  ]

  -- The fields of the reply that is built for a request.
  abbrev pub reply_fields : Request → Served F → F → Ct002 F → List Text
  reply_fields r served now s =
      (build_response_fields r served.target now (booked_for r served s)).1

  -- The answer to a poll is sent, and the datagram parses back to the 24 fields that were built for
  -- it, where the texts of the settings and of the request are ASCII without a separator and the
  -- message has at most 9990 bytes.
  pub replied-parses :
      (r : Request) (served : Served F) (now : F) (s : Ct002 F)
      → IsSendable r s
      → length (message_of (reply_fields r served now s)) ≤ 9990
      → (d : Text) × ((replied r served now s).1 ≡ some d)
        × (parse_request d ≡ fields (reply_fields r served now s))
        × (length (reply_fields r served now s) ≡ 24)
  unfolding replied
  replied-parses r served now s h short =
      let booked = booked_for r served s in
      let clean = built_clean r served.target now booked (booked_for-IsSendable r served s h) in
      let count = built_length r served.target now booked in
      let (d, built, parsed) =
        sends (reply_fields r served now s) clean (omega (arith, count)) short in
      (d, rw (built, replied) refl, parsed, count)
