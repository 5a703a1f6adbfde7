-- ===== src/Dedupe/Defs.antt =====
-- The class `RequestDeduplicator` of src/astrameter/request_dedupe.py. The keys are texts, and the
-- reading of the clock is an argument of each method.
use astra_meter.Prelude.{◌||◌, not, Bool, true, false, List, [], none, some, if◌then◌else◌}
use astra_meter.Prelude.Text.{Text}
use astra_meter.Prelude.Dict.{get, put, keep}
use astra_meter.Prelude.Float.{Float, ◌<F◌, ◌≤F◌, ◌-F◌, nought}

pub record Deduplicator (F : Type 0) : Type 0 where
  pub window : F
  pub last : List (Text × F)

module _ {F : Type 0} ⦃fl : Float F⦄ where
  -- `__init__`, with `math.isfinite`.
  unfoldable pub init : (F → Bool) → F → Deduplicator F
  init isfinite w = record {
    window = if not (isfinite w) || w ≤F nought then nought else w;
    last = [];
  }

  unfoldable pub should_process : Deduplicator F → Text → F → Deduplicator F × Bool
  should_process d key now =
      let accept : Deduplicator F × Bool = (record d { last = put key now d.last }, true) in
      if d.window ≤F nought then (d, true) else elim (get key d.last) [
        | none ↦ accept
        | some last ↦ if now -F last <F d.window then (d, false) else accept
      ]

  unfoldable pub purge_older_than : Deduplicator F → F → F → Deduplicator F
  purge_older_than d max_age now =
      let cutoff = now -F max_age in record d { last = keep (λ _ t. cutoff ≤F t) d.last }
