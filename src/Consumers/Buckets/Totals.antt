-- ===== src/Consumers/Buckets/Totals.antt =====
-- What a phase bucket of src/astrameter/ct002/ct002.py adds up to.
use astra_meter.Prelude.{
  ◌+◌, ◌≡◌, refl, ◌∙◌, true, ◌&&◌, not, List, [], ◌∷◌, arith, if◌then◌else◌, inl, inr, Bool-cases,
  length,
}
use astra_meter.Prelude.Int.{ℤ, pos, ◌+ℤ◌, ltb_ℤ, leb_ℤ, eqb_ℤ, +ℤ_parts, int_laws}
use astra_meter.Prelude.Text.{Text}
use astra_meter.Prelude.Float.{Float}
use astra_meter.Consumers.Store.{Consumer, Ct002}
use astra_meter.Consumers.Shaving.{sum}
use astra_meter.Consumers.Buckets.{
  PhaseBucket, empty_bucket, add, counts_in, shown_power, bucket_of, collect_reports_by_phase,
}

-- A bucket keeps the signs apart, and is active when power flows.
pub record IsSplit (b : PhaseBucket) : Type 0 where
  pub charge : leb_ℤ b.chrg_power (pos 0) ≡ true
  pub discharge : leb_ℤ (pos 0) b.dchrg_power ≡ true
  pub flows : b.active ≡ not (eqb_ℤ b.chrg_power (pos 0) && eqb_ℤ b.dchrg_power (pos 0))

add-IsSplit : (p : ℤ) (b : PhaseBucket) → IsSplit b → IsSplit (add p b)
unfolding add
add-IsSplit p b h = record {
  charge = ground (arith, h.charge, +ℤ_parts b.chrg_power p);
  discharge = ground (arith, h.discharge, +ℤ_parts b.dchrg_power p);
  flows =
      ground
        (arith, h.charge, h.discharge, h.flows, +ℤ_parts b.chrg_power p, +ℤ_parts b.dchrg_power p);
}

add-net :
    (p : ℤ) (b : PhaseBucket)
    → (add p b).chrg_power +ℤ (add p b).dchrg_power ≡ (b.chrg_power +ℤ b.dchrg_power) +ℤ p
unfolding add
add-net p b = elim (Bool-cases (eqb_ℤ p (pos 0))) [
  | inl e ↦ rw (e, add) (grind int_laws)
  | inr e ↦ elim (Bool-cases (ltb_ℤ p (pos 0))) [
    | inl f ↦ rw (e, f, add) (grind int_laws)
    | inr f ↦ rw (e, f, add) (grind int_laws)
  ]
]

add-count : (p : ℤ) (b : PhaseBucket) → (add p b).count ≡ b.count + 1
unfolding add
add-count p b = ground arith

abbrev pub net : PhaseBucket → ℤ
net b = b.chrg_power +ℤ b.dchrg_power

-- What one number after another makes of a bucket.
pub record IsTotal (ps : List ℤ) (b b' : PhaseBucket) : Type 0 where
  pub split : IsSplit b → IsSplit b'
  pub power : net b' ≡ net b +ℤ sum ps
  pub members : b'.count ≡ b.count + length ps

module _ {F : Type 0} ⦃fl : Float F⦄ where
  -- The powers that the consumers of a bucket add to it.
  abbrev pub contributions : Ct002 F → F → Text → List (Text × Consumer F) → List ℤ
  contributions s now bucket [] = []
  contributions s now bucket ((cid, c) ∷ d) =
      if counts_in s now bucket c
      then shown_power s cid c ∷ contributions s now bucket d
      else contributions s now bucket d

  bucket_of-IsTotal :
      (s : Ct002 F) (now : F) (bucket : Text) (d : List (Text × Consumer F)) (b : PhaseBucket)
      → IsTotal (contributions s now bucket d) b (bucket_of s now bucket d b)
  unfolding bucket_of sum
  bucket_of-IsTotal s now bucket [] b = record {
    split = λ h. h;
    power = grind int_laws;
    members = omega arith;
  }
  bucket_of-IsTotal s now bucket ((cid, c) ∷ d) b =
      let p = shown_power s cid c in
      elim (Bool-cases (counts_in s now bucket c)) [
        | inl e ↦
            let r = bucket_of-IsTotal s now bucket d (add p b) in
            rw (e, bucket_of)
              (record {
                split = λ h. r.split (add-IsSplit p b h);
                power = r.power ∙ (let n = add-net p b in grind int_laws);
                members = omega (arith, r.members, add-count p b);
              })
        | inr e ↦ rw (e, bucket_of) (bucket_of-IsTotal s now bucket d b)
      ]

  -- A bucket counts the consumers that take part in it, and its two sums add up to the sum of their
  -- powers. The sum of the charging is never above zero, that of the discharging never below, and the
  -- bucket is active exactly when one of the two is not zero.
  pub collect_reports_by_phase-IsSplit :
      (s : Ct002 F) (now : F) (bucket : Text)
      → let b = collect_reports_by_phase s now bucket in
        let ps = contributions s now bucket s.consumers in
        IsSplit b × (net b ≡ sum ps) × (b.count ≡ length ps)
  unfolding collect_reports_by_phase
  collect_reports_by_phase-IsSplit s now bucket =
      let t = bucket_of-IsTotal s now bucket s.consumers empty_bucket in
      (
        t.split (record { charge = refl; discharge = refl; flows = refl }),
        t.power ∙ grind int_laws,
        omega (arith, t.members),
      )
