-- ===== src/Balancer/Saturation/Score.antt =====
-- What an update of the saturation score changes, and when the score cannot rise.
use astra_meter.Prelude.{◌≡◌, refl, true, ◌||◌, Option, none, some, arith, if◌then◌else◌}
use astra_meter.Prelude.Float.{HasUnit, Float, ◌<F◌, ◌≤F◌, ◌-F◌, nought, whole, fmax, fabs}
use astra_meter.Balancer.State.{ConsumerState}
use astra_meter.Balancer.Saturation.{Tracker, update, average_step, score_step, reversing}

module _ {F : Type 0} ⦃fl : Float F⦄ where
  -- An update changes the saturation score, the two grace times and the time of the last update, and
  -- nothing else of a battery's state.
  pub update_frame :
      (t : Tracker F) (s : ConsumerState F) (target : Option F) (actual least now : F)
      → let s' = update t s target actual least now in
        s' ≡ record s {
          saturation_score = s'.saturation_score;
          saturation_grace_until = s'.saturation_grace_until;
          saturation_grace_started_at = s'.saturation_grace_started_at;
          last_saturation_update = s'.last_saturation_update;
        }
  unfolding update
  update_frame t s none actual least now = refl
  update_frame t s (some target) actual least now = ground arith

  module _ (laws : HasUnit F) where
    open laws use {le_refl, lt-eq-not-le, le_total, of_int_mono, mul-pow-le, div_one}

    score_step-idle-le :
        (t : Tracker F) (prev actual dt : F)
        → nought ≤F t.decay_factor ≡ true
        → t.decay_factor ≤F whole 1 ≡ true
        → nought ≤F dt ≡ true
        → score_step t prev true actual dt ≤F prev ≡ true
    unfolding score_step
    score_step-idle-le t prev actual dt low high forward = rw (div_one dt) (
        ground (
          arith,
          le_refl prev,
          lt-eq-not-le nought prev,
          le_total nought prev,
          mul-pow-le prev t.decay_factor dt,
        ))

    fmax-nought : (a : F) → nought ≤F fmax nought a ≡ true
    fmax-nought a = ground (arith, le_refl nought, lt-eq-not-le nought a, le_total nought a)

    average_step-idle-le :
        (t : Tracker F) (s : ConsumerState F) (now target actual least : F)
        → nought ≤F t.decay_factor ≡ true
        → t.decay_factor ≤F whole 1 ≡ true
        → (fabs target <F least || reversing target actual) ≡ true
        → (average_step t s now target actual least).saturation_score ≤F s.saturation_score ≡ true
    unfolding average_step
    average_step-idle-le t s now target actual least low high idle =
        let prev_t =
          if s.last_saturation_update ≤F nought then now -F whole 1 else s.last_saturation_update in
        let dt = fmax nought (now -F prev_t) in
        rw idle (
          ground (
            arith,
            le_refl s.saturation_score,
            score_step-idle-le t s.saturation_score actual dt low high
                (fmax-nought (now -F prev_t)),
          ))

    -- A target below the smallest command that the device can execute never raises the score.
    pub update-low_target-le :
        (t : Tracker F) (s : ConsumerState F) (target actual least now : F)
        → nought ≤F t.decay_factor ≡ true
        → t.decay_factor ≤F whole 1 ≡ true
        → fabs target <F fmax t.min_target least ≡ true
        → (update t s (some target) actual least now).saturation_score ≤F s.saturation_score ≡ true
    unfolding update
    update-low_target-le t s target actual least now low high small =
        let floor = fmax t.min_target least in
        let idle : (fabs target <F floor || reversing target actual) ≡ true = rw small in
        let eased = record s {
          saturation_grace_until = nought;
          saturation_grace_started_at = nought;
          last_saturation_update = nought;
        } in
        ground (
          arith,
          le_refl s.saturation_score,
          lt-eq-not-le (fabs target) floor,
          average_step-idle-le t s now target actual floor low high idle,
          average_step-idle-le t eased now target actual floor low high idle,
        )
