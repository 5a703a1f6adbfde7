-- ===== src/Consumers/Buckets.antt =====
-- The aggregation by phase of `CT002` in src/astrameter/ct002/ct002.py: `PhaseBucket`,
-- `_bucket_for_phase` and `_collect_reports_by_phase`.
pub mod Totals
pub mod Intent
use astra_meter.Prelude.{
  ℕ, ◌+◌, Bool, true, false, ◌&&◌, ◌||◌, not, List, [], ◌∷◌, Option, none, some, if◌then◌else◌,
}
use astra_meter.Prelude.Int.{ℤ, pos, ◌+ℤ◌, ltb_ℤ, eqb_ℤ}
use astra_meter.Prelude.Text.{Text, text, same}
use astra_meter.Prelude.Dict.{get}
use astra_meter.Prelude.Float.{Float, ◌<F◌, ◌≤F◌, nought}
use astra_meter.Balancer.Pool.{LoadBalancer}
use astra_meter.Consumers.Requests.{normalize_phase}
use astra_meter.Consumers.Store.{Consumer, Ct002, consumer_expired}

pub record PhaseBucket : Type 0 where
  pub chrg_power : ℤ
  pub dchrg_power : ℤ
  pub count : ℕ
  pub active : Bool

abbrev pub empty_bucket : PhaseBucket
empty_bucket = record { chrg_power = pos 0; dchrg_power = pos 0; count = 0; active = false }

unfoldable pub add : ℤ → PhaseBucket → PhaseBucket
add power b =
    let counted = record b { count = b.count + 1 } in
    if eqb_ℤ power (pos 0)
    then counted
    else if ltb_ℤ power (pos 0)
    then record counted { active = true; chrg_power = b.chrg_power +ℤ power }
    else record counted { active = true; dchrg_power = b.dchrg_power +ℤ power }

unfoldable pub bucket_for_phase : Text → Text
unfolding normalize_phase
bucket_for_phase phase =
    let p = normalize_phase phase in
    if same p (text "D") then text "ABC" else if same p (text "0") then text "x" else p

module _ {F : Type 0} ⦃fl : Float F⦄ where
  -- `get_last_intent` of the balancer.
  unfoldable pub get_last_intent : Text → LoadBalancer F → Option F
  get_last_intent cid b = elim (get cid b.consumers) [ none ↦ none | some st ↦ st.last_intent ]

  -- The power that a consumer adds to its bucket.
  unfoldable pub instructed : Option F → ℤ → ℤ
  instructed none power = power
  instructed (some intent) power =
      if intent ≤F nought && ltb_ℤ (pos 0) power || nought ≤F intent && ltb_ℤ power (pos 0)
      then pos 0
      else power

  unfoldable pub shown_power : Ct002 F → Text → Consumer F → ℤ
  unfolding bucket_for_phase instructed get_last_intent
  shown_power s cid c =
      if s.active_control && not (same (bucket_for_phase c.phase) (text "x"))
      then instructed (get_last_intent cid s.balancer) (fl.round c.last_instructed_power)
      else c.power

  -- Whether a consumer counts in the bucket.
  unfoldable pub counts_in : Ct002 F → F → Text → Consumer F → Bool
  unfolding bucket_for_phase consumer_expired
  counts_in s now bucket c =
      not (c.timestamp ≤F nought)
      && c.participates
      && not (consumer_expired s now c)
      && same (bucket_for_phase c.phase) bucket

  -- The loop of `_collect_reports_by_phase`, for one of the buckets.
  unfoldable pub bucket_of :
      Ct002 F → F → Text → List (Text × Consumer F) → PhaseBucket → PhaseBucket
  unfolding counts_in add shown_power
  bucket_of s now bucket [] b = b
  bucket_of s now bucket ((cid, c) ∷ d) b =
      bucket_of s now bucket d (if counts_in s now bucket c then add (shown_power s cid c) b else b)

  -- `_collect_reports_by_phase`.
  unfoldable pub collect_reports_by_phase : Ct002 F → F → Text → PhaseBucket
  unfolding bucket_of
  collect_reports_by_phase s now bucket = bucket_of s now bucket s.consumers empty_bucket
