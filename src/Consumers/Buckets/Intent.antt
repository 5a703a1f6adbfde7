-- ===== src/Consumers/Buckets/Intent.antt =====
-- Active control tells no battery of output that it did not ask for: src/astrameter/ct002/ct002.py.
use astra_meter.Prelude.{
  ◌≡◌, refl, ◌∙◌, true, false, List, [], ◌∷◌, some, arith, inl, inr, Bool-cases, All,
}
use astra_meter.Prelude.Int.{ℤ, pos, ltb_ℤ}
use astra_meter.Prelude.Text.{Text, text, same, same→eq}
use astra_meter.Prelude.Float.{Float, ◌≤F◌, nought}
use astra_meter.Consumers.Store.{Consumer, Ct002}
use astra_meter.Consumers.Buckets.{
  PhaseBucket, empty_bucket, add, bucket_for_phase, counts_in, shown_power, instructed,
  get_last_intent, bucket_of, collect_reports_by_phase,
}

add-dchrg :
    (p : ℤ) (b : PhaseBucket) → ltb_ℤ (pos 0) p ≡ false → (add p b).dchrg_power ≡ b.dchrg_power
unfolding add
add-dchrg p b h = ground arith

module _ {F : Type 0} ⦃fl : Float F⦄ where
  -- The balancer last meant a consumer to charge or to stay at zero.
  pub record IsCharging (s : Ct002 F) (cid : Text) : Type 0 where
    pub intent : F
    pub known : get_last_intent cid s.balancer ≡ some intent
    pub down : intent ≤F nought ≡ true

  instructed_down :
      (intent : F) (power : ℤ)
      → intent ≤F nought ≡ true
      → ltb_ℤ (pos 0) (instructed (some intent) power) ≡ false
  unfolding instructed
  instructed_down intent power h = ground arith

  shown_down :
      (s : Ct002 F) (now : F) (bucket cid : Text) (c : Consumer F)
      → s.active_control ≡ true
      → same bucket (text "x") ≡ false
      → counts_in s now bucket c ≡ true
      → IsCharging s cid
      → ltb_ℤ (pos 0) (shown_power s cid c) ≡ false
  unfolding shown_power counts_in
  shown_down s now bucket cid c on known counted charging =
      let at : bucket_for_phase c.phase ≡ bucket = same→eq _ _ (ground arith) in
      let known' : same (bucket_for_phase c.phase) (text "x") ≡ false = rw at known in
      rw (on, known', charging.known)
        (instructed_down charging.intent (fl.round c.last_instructed_power) charging.down)

  bucket_of-dchrg :
      (s : Ct002 F) (now : F) (bucket : Text) (d : List (Text × Consumer F)) (b : PhaseBucket)
      → s.active_control ≡ true
      → same bucket (text "x") ≡ false
      → All (λ e. counts_in s now bucket e.1 ≡ true → IsCharging s e.0) d
      → (bucket_of s now bucket d b).dchrg_power ≡ b.dchrg_power
  unfolding bucket_of
  bucket_of-dchrg s now bucket [] b on known charging = refl
  bucket_of-dchrg s now bucket ((cid, c) ∷ d) b on known (here, rest) =
      elim (Bool-cases (counts_in s now bucket c)) [
        | inl e ↦
            let p = shown_power s cid c in
            rw (e, bucket_of)
              (bucket_of-dchrg s now bucket d (add p b) on known rest
                ∙ add-dchrg p b (shown_down s now bucket cid c on known e (here e)))
        | inr e ↦ rw (e, bucket_of) (bucket_of-dchrg s now bucket d b on known rest)
      ]

  -- Under active control, while the balancer means every consumer of a bucket to charge or to stay at
  -- zero, the bucket of a phase shows no discharge, whatever the batteries put out.
  pub collect_reports_by_phase-IsCharging :
      (s : Ct002 F) (now : F) (bucket : Text)
      → s.active_control ≡ true
      → same bucket (text "x") ≡ false
      → All (λ e. counts_in s now bucket e.1 ≡ true → IsCharging s e.0) s.consumers
      → (collect_reports_by_phase s now bucket).dchrg_power ≡ pos 0
  unfolding collect_reports_by_phase
  collect_reports_by_phase-IsCharging s now bucket on known charging =
      bucket_of-dchrg s now bucket s.consumers empty_bucket on known charging
