-- ===== src/Consumers/Events.antt =====
-- What happens to the consumers of `CT002` in src/astrameter/ct002/ct002.py, as a sequence of steps.
use astra_meter.Prelude.{Bool, List, [], ◌∷◌}
use astra_meter.Prelude.Int.{ℤ}
use astra_meter.Prelude.Text.{Text}
use astra_meter.Prelude.Float.{Float}
use astra_meter.Consumers.Store.{Ct002, update_consumer_report, cleanup_consumers}
use astra_meter.Consumers.Settings.{Setting, set_consumer}

-- A report, a setting or a clean-up.
pub data Event (F : Type 0) : Type 0 where
  report : Text → Text → ℤ → Text → Text → Bool → F → Event F
  configure : Setting F → Text → F → Event F
  cleanup : F → Event F

module _ {F : Type 0} ⦃fl : Float F⦄ where
  unfoldable pub step : Event F → Ct002 F → Ct002 F
  unfolding update_consumer_report set_consumer cleanup_consumers
  step (report cid phase power device_type source_ip participates now) s =
      update_consumer_report cid phase power device_type source_ip participates now s
  step (configure setting cid now) s = (set_consumer setting cid now s).0
  step (cleanup now) s = cleanup_consumers now s

  unfoldable pub run : List (Event F) → Ct002 F → Ct002 F
  unfolding step
  run [] s = s
  run (e ∷ es) s = run es (step e s)
