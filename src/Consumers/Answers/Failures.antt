-- ===== src/Consumers/Answers/Failures.antt =====
-- What a poll is answered with when the meter cannot be read.
use astra_meter.Prelude.{
  ◌≡◌, refl, ◌∙◌, Bool, true, false, ◌&&◌, ◌==◌, length, List, Option, none, some, any, not,
  Bool-cases, Option-cases, inl, inr, ◌⊎◌,
}
use astra_meter.Prelude.Text.{Text, same_refl}
use astra_meter.Prelude.Dict.{get, put, get-put}
use astra_meter.Prelude.Float.{Float}
use astra_meter.Wire.Datagram.{Error, Result, ok, err, build_payload}
use astra_meter.Consumers.Requests.{Request, consumer_id, in_inspection_mode}
use astra_meter.Consumers.Store.{Consumer, Ct002, track_answer, update_consumer, get_consumer}
use astra_meter.Consumers.Answers.{
  Served, no_reading, serve, replied, answered, booked_for, build_response_fields, reading_of,
  resolve_target, record_instructed_power, three_phases, with_reading,
}

Result-cases : {A : Type 0} (r : Result A) → ((a : A) × (r ≡ ok a)) ⊎ ((e : Error) × (r ≡ err e))
Result-cases (ok a) = inl (a, refl)
Result-cases (err e) = inr (e, refl)

module _ {F : Type 0} ⦃fl : Float F⦄ where
  -- The meter gives no reading: the callback raised, or it returned a reading that is not finite, or
  -- it returned none and the stored one is not finite.
  pub data IsFailure (isfinite : F → Bool) (cid : Text) (updated : Option (List F)) (s : Ct002 F)
      : Bool → Type 0 where
    raised : IsFailure isfinite cid updated s true
    fetched :
        {failed : Bool} (values : List F)
        → updated ≡ some values
        → any (λ v. not (isfinite v)) values ≡ true
        → IsFailure isfinite cid updated s failed
    remembered :
        {failed : Bool} (c : Consumer F) (stored : List F)
        → updated ≡ none
        → get cid s.consumers ≡ some c
        → c.values ≡ some stored
        → any (λ v. not (isfinite v)) stored ≡ true
        → IsFailure isfinite cid updated s failed

  abbrev pub reading_taken : Text → List F → Ct002 F → List (Text × Consumer F)
  reading_taken cid values s =
      put cid (record (get_consumer cid s) { values = some values }) s.consumers

  not_finite :
      (isfinite : F → Bool) (cid : Text) (c : Consumer F) (values : List F) (s : Ct002 F)
      → get cid s.consumers ≡ some c
      → c.values ≡ some values
      → any (λ v. not (isfinite v)) values ≡ true
      → reading_of isfinite cid false s ≡ (no_reading, true)
  unfolding reading_of
  not_finite isfinite cid c values s known held bad = rw (known, held, bad, reading_of) refl

  failed_reading :
      (isfinite : F → Bool) (cid : Text) (updated : Option (List F)) (failed : Bool) (s : Ct002 F)
      → IsFailure isfinite cid updated s failed
      → reading_of isfinite cid failed (with_reading cid updated s) ≡ (no_reading, true)
  unfolding reading_of with_reading update_consumer
  failed_reading isfinite cid updated true s h = refl
  failed_reading isfinite cid updated false s (fetched values e bad) =
      let c : Consumer F = record (get_consumer cid s) { values = some values } in
      let known : get cid (reading_taken cid values s) ≡ some c =
        rw (get-put cid cid c s.consumers, same_refl cid) refl in
      rw e (not_finite isfinite cid c values (with_reading cid (some values) s) known refl bad)
  failed_reading isfinite cid updated false s (remembered c stored e known held bad) =
      rw e (not_finite isfinite cid c stored s known held bad)

  abbrev pub zeros : Served F
  zeros = record { raw = no_reading; target = no_reading; failed = true }

  failed_target :
      (isfinite : F → Bool) (r : Request) (failed : Bool) (now : F) (s : Ct002 F)
      → reading_of isfinite (consumer_id r) failed s ≡ (no_reading, true)
      → resolve_target isfinite r failed now s ≡ (s, zeros)
  unfolding resolve_target three_phases
  failed_target isfinite r failed now s e =
      elim (Bool-cases (s.active_control && not (in_inspection_mode r))) [
        | inl f ↦ rw (e, f) refl
        | inr f ↦ rw (e, f) refl
      ]

  track_answer-balancer :
      (cid : Text) (now : F) (s : Ct002 F) → (track_answer cid now s).balancer ≡ s.balancer
  unfolding track_answer
  track_answer-balancer cid now s = elim (Option-cases (get cid s.consumers)) [
    | inl e ↦ rw (e, track_answer) refl
    | inr (c, e) ↦ rw (e, track_answer) refl
  ]

  booked_for-balancer :
      (r : Request) (served : Served F) (s : Ct002 F)
      → (booked_for r served s).balancer ≡ s.balancer
  unfolding booked_for record_instructed_power update_consumer
  booked_for-balancer r served s = elim (Bool-cases (in_inspection_mode r)) [
    | inl e ↦ rw (e) refl
    | inr e ↦ rw (e) refl
  ]

  built-balancer :
      (r : Request) (values : List F) (now : F) (s : Ct002 F)
      → (build_response_fields r values now s).0.balancer ≡ s.balancer
  unfolding build_response_fields
  built-balancer r values now s = elim (Bool-cases (length values == 3)) [
    | inl e ↦ rw (e) refl
    | inr e ↦ rw (e) refl
  ]

  replied-balancer :
      (r : Request) (served : Served F) (now : F) (s : Ct002 F)
      → (replied r served now s).0.balancer ≡ s.balancer
  unfolding replied answered
  replied-balancer r served now s =
      let booked = booked_for r served s in
      let (counted, response) = build_response_fields r served.target now booked in
      let same_pool = built-balancer r served.target now booked ∙ booked_for-balancer r served s in
      elim (Result-cases (build_payload response)) [
        | inl (d, e) ↦
            rw (e, replied) (track_answer-balancer (consumer_id r) now counted ∙ same_pool)
        | inr (x, e) ↦ rw (e, replied) same_pool
      ]

  -- The records of the batteries, with the reading that this poll fetched for its own one.
  abbrev pub IsNoted : Option (List F) → Text → Ct002 F → List (Text × Consumer F) → Type 0
  IsNoted none cid s consumers = consumers ≡ s.consumers
  IsNoted (some values) cid s consumers = consumers ≡ reading_taken cid values s

  -- The hold: no reply and no booking for a battery that is detecting its phase, and zeros for any
  -- other.
  pub IsHeld : Bool → Request → Option (List F) → F → Ct002 F → Ct002 F × Option Text → Type 0
  IsHeld true r updated now s (s', sent) =
      (sent ≡ none) × IsNoted updated (consumer_id r) s s'.consumers
  IsHeld false r updated now s out =
      out ≡ replied r zeros now (with_reading (consumer_id r) updated s)

  with_reading-balancer :
      (cid : Text) (updated : Option (List F)) (s : Ct002 F)
      → (with_reading cid updated s).balancer ≡ s.balancer
  unfolding with_reading update_consumer
  with_reading-balancer cid none s = refl
  with_reading-balancer cid (some values) s = refl

  with_reading-IsNoted :
      (cid : Text) (updated : Option (List F)) (s : Ct002 F)
      → IsNoted updated cid s (with_reading cid updated s).consumers
  unfolding with_reading update_consumer
  with_reading-IsNoted cid none s = refl
  with_reading-IsNoted cid (some values) s = refl

  -- When the meter fails (its callback raised, or the reading that it returned is not finite, or it
  -- returned none and the stored reading is not finite), the balancer is left as it is; a battery that
  -- is detecting its phase gets no reply, and the records of the batteries do not change but for the
  -- reading that was returned; any other battery is answered with zeros.
  pub serve-meter_failed :
      (isfinite : F → Bool) (r : Request) (updated : Option (List F)) (failed : Bool) (now : F)
      (s : Ct002 F)
      → IsFailure isfinite (consumer_id r) updated s failed
      → let out = serve isfinite r updated failed now s in
        ((out.0).balancer ≡ s.balancer) × IsHeld (in_inspection_mode r) r updated now s out
  unfolding serve IsHeld
  serve-meter_failed isfinite r updated failed now s h =
      let cid = consumer_id r in
      let read = with_reading cid updated s in
      let e =
        failed_target isfinite r failed now read (failed_reading isfinite cid updated failed s h) in
      let kept = with_reading-balancer cid updated s in
      elim (Bool-cases (in_inspection_mode r)) [
        | inl f ↦ rw (e, f) (kept, (refl, with_reading-IsNoted cid updated s))
        | inr f ↦ rw (e, f) (replied-balancer r zeros now read ∙ kept, refl)
      ]
