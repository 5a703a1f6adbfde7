-- ===== src/Consumers/Polls/Booking.antt =====
-- What every poll that is decoded leaves in the store, passed on to `_serve` or not.
use astra_meter.Prelude.{
  ◌∙◌, ap, ◌≡◌, refl, Bool, true, false, not, ◌&&◌, ◌||◌, List, [], ◌∷◌, ◌++◌, Option, none, some,
  arith, if◌then◌else◌, inl, inr, Bool-cases, Option-cases, ℕ,
}
use astra_meter.Prelude.Text.{Text, same, same_refl, elem}
use astra_meter.Prelude.Dict.{get, get-put, elem-discard}
use astra_meter.Prelude.Float.{Float}
use astra_meter.Dedupe.{should_process}
use astra_meter.Balancer.Pool.{LoadBalancer}
use astra_meter.Consumers.Requests.{Request, consumer_id, in_inspection_mode, decode_request}
use astra_meter.Consumers.Store.{
  Ct002, ConsumerOverride, get_consumer, reported, update_consumer, update_consumer_report,
}
use astra_meter.Consumers.Polls.{sync_inspection_filters, should_serve, handled, handle_request}

elem-append : (k : Text) (xs ys : List Text) → elem k (xs ++ ys) ≡ (elem k xs || elem k ys)
unfolding elem
elem-append k [] ys = refl
elem-append k (x ∷ xs) ys = ground (arith, elem-append k xs ys)

module _ {F : Type 0} ⦃fl : Float F⦄ where
  -- The report of a request is in the store, the other consumers are as they were, the sweep follows
  -- the phase, the balancer and the saved settings are as they were, the deduplicator has
  -- judged the battery, and the poll is passed on unless it
  -- is a duplicate or an earlier one waits.
  pub record IsBooked (inflight : List Text) (r : Request) (now : F) (s s' : Ct002 F)
      (passed_on : Bool) : Type 0 where
    pub stored :
        (k : Text)
        → get k s'.consumers ≡ (
            if same (consumer_id r) k
            then some (
                reported r.phase r.power r.meter_dev_type r.addr.0 r.participates now
                  (get_consumer (consumer_id r) s))
            else get k s.consumers)
    pub pool : s'.balancer ≡ s.balancer
    pub settings : s'.consumer_overrides ≡ s.consumer_overrides
    pub noted : s'.dedup ≡ (should_process s.dedup (consumer_id r) now).0
    pub sweep : elem (consumer_id r) s'.inspecting ≡ in_inspection_mode r
    pub verdict :
        passed_on
        ≡ ((should_process s.dedup (consumer_id r) now).1 && not (elem (consumer_id r) inflight))

  should_serve-consumers :
      (inflight : List Text) (cid : Text) (now : F) (s : Ct002 F)
      → (should_serve inflight cid now s).0.consumers ≡ s.consumers
  unfolding should_serve
  should_serve-consumers inflight cid now s = elim (Bool-cases (should_process s.dedup cid now).1) [
    | inl e ↦ rw (e, should_serve)
    | inr e ↦ rw (e, should_serve)
  ]

  should_serve-inspecting :
      (inflight : List Text) (cid : Text) (now : F) (s : Ct002 F)
      → (should_serve inflight cid now s).0.inspecting ≡ s.inspecting
  unfolding should_serve
  should_serve-inspecting inflight cid now s =
      elim (Bool-cases (should_process s.dedup cid now).1) [
        | inl e ↦ rw (e, should_serve)
        | inr e ↦ rw (e, should_serve)
      ]

  -- The parts of the state that a poll does not touch before it is served.
  abbrev rest_of : Ct002 F → LoadBalancer F × List (Text × ConsumerOverride F)
  rest_of s = (s.balancer, s.consumer_overrides)

  should_serve-rest_of :
      (inflight : List Text) (cid : Text) (now : F) (s : Ct002 F)
      → rest_of (should_serve inflight cid now s).0 ≡ rest_of s
  unfolding should_serve
  should_serve-rest_of inflight cid now s = elim (Bool-cases (should_process s.dedup cid now).1) [
    | inl e ↦ rw (e, should_serve)
    | inr e ↦ rw (e, should_serve)
  ]

  sync-rest_of :
      (cid : Text) (inspecting : Bool) (s : Ct002 F)
      → rest_of (sync_inspection_filters cid inspecting s) ≡ rest_of s
  unfolding sync_inspection_filters
  sync-rest_of cid true s = refl
  sync-rest_of cid false s = refl

  should_serve-verdict :
      (inflight : List Text) (cid : Text) (now : F) (s : Ct002 F)
      → (should_serve inflight cid now s).1
        ≡ ((should_process s.dedup cid now).1 && not (elem cid inflight))
  unfolding should_serve
  should_serve-verdict inflight cid now s = elim (Bool-cases (should_process s.dedup cid now).1) [
    | inl e ↦ rw (e, should_serve)
    | inr e ↦ rw (e, should_serve)
  ]

  should_serve-dedup :
      (inflight : List Text) (cid : Text) (now : F) (s : Ct002 F)
      → (should_serve inflight cid now s).0.dedup ≡ (should_process s.dedup cid now).0
  unfolding should_serve
  should_serve-dedup inflight cid now s = elim (Bool-cases (should_process s.dedup cid now).1) [
    | inl e ↦ rw (e, should_serve)
    | inr e ↦ rw (e, should_serve)
  ]

  sweep_follows :
      (cid : Text) (inspecting : Bool) (s : Ct002 F)
      → elem cid (sync_inspection_filters cid inspecting s).inspecting ≡ inspecting
  unfolding sync_inspection_filters elem
  sweep_follows cid true s = ground (arith, elem-append cid s.inspecting (cid ∷ []), same_refl cid)
  sweep_follows cid false s = rw (elem-discard cid cid s.inspecting, same_refl cid)

  sync-consumers :
      (cid : Text) (inspecting : Bool) (s : Ct002 F)
      → (sync_inspection_filters cid inspecting s).consumers ≡ s.consumers
  unfolding sync_inspection_filters
  sync-consumers cid true s = refl
  sync-consumers cid false s = refl

  sync-dedup :
      (cid : Text) (inspecting : Bool) (s : Ct002 F)
      → (sync_inspection_filters cid inspecting s).dedup ≡ s.dedup
  unfolding sync_inspection_filters
  sync-dedup cid true s = refl
  sync-dedup cid false s = refl

  handled-IsBooked :
      (inflight : List Text) (r : Request) (now : F) (s : Ct002 F)
      → let (s', passed_on) = handled inflight r now s in IsBooked inflight r now s s' passed_on
  unfolding handled update_consumer_report update_consumer
  handled-IsBooked inflight r now s =
      let cid = consumer_id r in
      let report = reported r.phase r.power r.meter_dev_type r.addr.0 r.participates now in
      let booked =
        update_consumer_report cid r.phase r.power r.meter_dev_type r.addr.0 r.participates now s in
      let swept = sync_inspection_filters cid (in_inspection_mode r) booked in
      let rest =
        should_serve-rest_of inflight cid now swept
        ∙ sync-rest_of cid (in_inspection_mode r) booked in
      record {
        pool = ap (λ q. q.0) rest;
        settings = ap (λ q. q.1) rest;
        stored = λ k.
            rw
              (
                should_serve-consumers inflight cid now swept,
                sync-consumers cid (in_inspection_mode r) booked,
              )
              (get-put cid k (report (get_consumer cid s)) s.consumers);
        sweep =
            rw (should_serve-inspecting inflight cid now swept)
              (sweep_follows cid (in_inspection_mode r) booked);
        noted =
            should_serve-dedup inflight cid now swept
            ∙ ap (λ d. (should_process d cid now).0) (sync-dedup cid (in_inspection_mode r) booked);
        verdict =
            should_serve-verdict inflight cid now swept
            ∙ ap (λ d. (should_process d cid now).1 && not (elem cid inflight))
                (sync-dedup cid (in_inspection_mode r) booked);
      }

  -- What a datagram does, by what it is decoded to.
  abbrev pub IsHandled : List Text → Option Request → F → Ct002 F → Ct002 F → Bool → Type 0
  IsHandled inflight none now s s' passed_on = (s' ≡ s) × (passed_on ≡ false)
  IsHandled inflight (some r) now s s' passed_on = IsBooked inflight r now s s' passed_on

  -- A datagram that is no request for this meter changes nothing and is not passed on to `_serve`. Any
  -- other books its report in the store and its phase in the sweeps even when it is not passed on,
  -- leaves the deduplicator as the check of the battery leaves it, and the other batteries, the
  -- balancer and the saved settings as they are; it is not passed on exactly when that check drops it
  -- or an earlier poll of the same battery still waits.
  pub handle_request-IsHandled :
      (ct_mac : Text) (inflight : List Text) (datagram : Text) (addr : Text × ℕ) (now : F)
      (s : Ct002 F)
      → let (s', passed_on) = handle_request ct_mac inflight datagram addr now s in
        IsHandled inflight (decode_request ct_mac datagram addr) now s s' passed_on
  unfolding handle_request
  handle_request-IsHandled ct_mac inflight datagram addr now s =
      elim (Option-cases (decode_request ct_mac datagram addr)) [
        | inl e ↦ rw (e, handle_request) (refl, refl)
        | inr (r, e) ↦ rw (e, handle_request) (handled-IsBooked inflight r now s)
      ]
