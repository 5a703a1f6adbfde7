-- ===== src/Consumers/Polls.antt =====
-- A poll of src/astrameter/ct002/ct002.py up to the decision whether it is passed on to `_serve`:
-- `_handle_request`, `_sync_inspection_filters` and `_should_serve`. The consumers whose handler waits
-- are an argument; `reset_fn` is not part of the state.
pub mod Booking
use astra_meter.Prelude.{
  ℕ, ◌+◌, Bool, true, false, not, List, [], ◌∷◌, ◌++◌, none, some, if◌then◌else◌,
}
use astra_meter.Prelude.Text.{Text, elem}
use astra_meter.Prelude.Dict.{discard}
use astra_meter.Prelude.Float.{Float}
use astra_meter.Dedupe.{should_process}
use astra_meter.Consumers.Requests.{Request, consumer_id, in_inspection_mode, decode_request}
use astra_meter.Consumers.Store.{Ct002, update_consumer_report}

module _ {F : Type 0} ⦃fl : Float F⦄ where
  unfoldable pub sync_inspection_filters : Text → Bool → Ct002 F → Ct002 F
  sync_inspection_filters cid true s = record s {
    inspecting = if elem cid s.inspecting then s.inspecting else s.inspecting ++ (cid ∷ []);
  }
  sync_inspection_filters cid false s = record s { inspecting = discard cid s.inspecting }

  unfoldable pub should_serve : List Text → Text → F → Ct002 F → Ct002 F × Bool
  unfolding should_process
  should_serve inflight cid now s =
      let (dedup, fresh) = should_process s.dedup cid now in
      let seen = record s { dedup = dedup } in
      if not fresh
      then (record seen { rev = s.rev + 1 }, false)
      else (seen, not (elem cid inflight))

  unfoldable pub handled : List Text → Request → F → Ct002 F → Ct002 F × Bool
  unfolding update_consumer_report sync_inspection_filters should_serve
  handled inflight r now s =
      let cid = consumer_id r in
      let booked =
        update_consumer_report cid r.phase r.power r.meter_dev_type r.addr.0 r.participates now s in
      should_serve inflight cid now (sync_inspection_filters cid (in_inspection_mode r) booked)

  -- `_handle_request`, up to `_serve`: the new state and whether the poll is passed on.
  unfoldable pub handle_request : Text → List Text → Text → Text × ℕ → F → Ct002 F → Ct002 F × Bool
  unfolding handled decode_request
  handle_request ct_mac inflight datagram addr now s = elim (decode_request ct_mac datagram addr) [
    | none ↦ (s, false)
    | some r ↦ handled inflight r now s
  ]
