-- ===== src/Consumers/Shaving/Hold.antt =====
-- When `_peakshaving` of src/astrameter/ct002/ct002.py lets the batteries idle at 0 W.
use astra_meter.Prelude.{
  ℕ, suc, ◌≤◌, ◌≡◌, refl, Bool, true, false, List, [], ◌∷◌, some, arith, any, All, get_elem?, inl,
  inr, Bool-cases,
}
use astra_meter.Prelude.Int.{ℤ, pos, abs, ltb_ℤ}
use astra_meter.Prelude.Float.{Float, ◌≤F◌, ◌+F◌, nought}
use astra_meter.Consumers.Store.{Ct002}
use astra_meter.Consumers.Shaving.{sum, in_band, idle_band, trades, powers, is_driven, peakshaving}

-- An element that passes a test.
pub record IsFoundIn (p : ℤ → Bool) (ps : List ℤ) : Type 0 where
  pub index : ℕ
  pub power : ℤ
  pub there : get_elem? ps index ≡ some power
  pub passes : p power ≡ true

any-IsFoundIn : (p : ℤ → Bool) (ps : List ℤ) → any p ps ≡ true → IsFoundIn p ps
any-IsFoundIn p [] h = cc
any-IsFoundIn p (x ∷ xs) h = elim (Bool-cases (p x)) [
  | inl e ↦ record { index = 0; power = x; there = refl; passes = e }
  | inr e ↦
      let r = any-IsFoundIn p xs (ground arith) in
      record { index = suc r.index; power = r.power; there = r.there; passes = r.passes }
]

in_band-All : (ps : List ℤ) → in_band ps ≡ true → All (λ p. abs p ≤ idle_band) ps
unfolding in_band
in_band-All [] h = tt
in_band-All (p ∷ ps) h = (ground arith, in_band-All ps (ground arith))

module _ {F : Type 0} ⦃fl : Float F⦄ where
  -- What a hold says of the demand and of the batteries that are steered.
  pub record IsTrading (total : F) (s : Ct002 F) (now : F) : Type 0 where
    pub needed : (total +F fl.of_int (sum (powers (is_driven s now) s.consumers)) ≤F nought) ≡ false
    pub low :
        total +F fl.of_int (sum (powers (is_driven s now) s.consumers)) ≤F s.peakshaving_threshold
        ≡ true
    pub at_rest : All (λ p. abs p ≤ idle_band) (powers (is_driven s now) s.consumers)
    pub charging : IsFoundIn (λ p. ltb_ℤ p (pos 0)) (powers (is_driven s now) s.consumers)
    pub discharging : IsFoundIn (λ p. ltb_ℤ (pos 0) p) (powers (is_driven s now) s.consumers)

  -- Peak shaving lets the batteries idle only if there is demand, no more than the threshold, all
  -- steered batteries are within 100 W of zero, and one of them charges while another discharges.
  pub peakshaving-IsTrading :
      (total : F) (s : Ct002 F) (now : F)
      → (peakshaving total s now).1 ≡ true
      → IsTrading total s now
  unfolding peakshaving trades
  peakshaving-IsTrading total s now h =
      let ps = powers (is_driven s now) s.consumers in
      record {
        needed = ground arith;
        low = ground arith;
        at_rest = in_band-All ps (ground arith);
        charging = any-IsFoundIn (λ p. ltb_ℤ p (pos 0)) ps (ground arith);
        discharging = any-IsFoundIn (λ p. ltb_ℤ (pos 0) p) ps (ground arith);
      }
