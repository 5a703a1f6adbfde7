-- ===== src/Tests/DedupeRuns.antt =====
-- Runs of the request deduplicator of src/astrameter/request_dedupe.py, with a window of one second.
use astra_meter.Prelude.Dict.{put}
use astra_meter.Prelude.Int.{leb_ℤ, ◌-ℤ◌}
use astra_meter.Prelude.Text.{same}
use astra_meter.Prelude.Int.{◌*ℤ◌}
use astra_meter.Prelude.{Bool, ◌≡◌, refl, List, [], ◌∷◌}
use astra_meter.Prelude.Int.{pos}
use astra_meter.Prelude.Text.{Text, text}
use astra_meter.Prelude.Dict.{get}
use astra_meter.Prelude.Float.{milli_float, Milli, whole, Milli-IsRounded}
use astra_meter.Dedupe.{
  Deduplicator, init, should_process, purge_older_than, accepted, IsSpaced, accepted-IsSpaced,
  accepted-init, spaced, should_process-purge_older_than,
}

abbrev k : Text
k = text "k"

abbrev held : Deduplicator Milli
held = record { window = whole 1; last = (k, pos 5000) ∷ [] }

abbrev requests : List (Text × Milli)
requests = (k, pos 5500) ∷ (text "j", pos 5600) ∷ (k, pos 6100) ∷ []

requests_pass : accepted held requests ≡ (text "j", pos 5600) ∷ (k, pos 6100) ∷ []
unfolding accepted should_process ◌*ℤ◌ get same ◌-ℤ◌ put
requests_pass = refl

accepted-IsSpaced_example : IsSpaced (whole 1) k (get k held.last) (accepted held requests)
unfolding ◌*ℤ◌
accepted-IsSpaced_example = accepted-IsSpaced held k requests refl

-- Windows of at most 9999 s stand for the finite ones.
abbrev finite : Milli → Bool
finite w = leb_ℤ w (whole 9999)

init_runs :
    (accepted (init finite (whole 1)) requests ≡ (k, pos 5500) ∷ (text "j", pos 5600) ∷ [])
    × (accepted (init finite (whole 10_000)) requests ≡ requests)
unfolding accepted should_process init ◌*ℤ◌ get put same ◌-ℤ◌
init_runs = (refl, refl)

accepted-init_example : accepted (init finite (whole 1)) requests ≡ spaced (whole 1) [] requests
unfolding ◌*ℤ◌
accepted-init_example = accepted-init Milli-IsRounded.ordered finite (whole 1) requests

should_process-purge_older_than_example :
    (should_process (purge_older_than held (whole 10) (whole 40)) k (whole 41)).1
    ≡ (should_process held k (whole 41)).1
unfolding get ◌*ℤ◌
should_process-purge_older_than_example =
    should_process-purge_older_than Milli-IsRounded held k (whole 10) (whole 40) (whole 41)
      (refl, tt) refl refl
