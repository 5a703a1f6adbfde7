-- ===== src/Balancer/Spill/Reserve.antt =====
-- Which batteries the standby reserve calls on.
use astra_meter.Prelude.{
  ◌≡◌, inl, inr, Bool, true, false, ◌||◌, not, Bool-cases, List, [], ◌∷◌, ◌++◌, ltb, length, arith,
  All, All-append, filter,
}
use astra_meter.Prelude.Int.{pos, eqb_ℤ}
use astra_meter.Prelude.Text.{Text}
use astra_meter.Prelude.Float.{Float}
use astra_meter.Balancer.Config.{efficiency_enabled}
use astra_meter.Balancer.Pool.{LoadBalancer}
use astra_meter.Balancer.Order.{Reports}
use astra_meter.Balancer.Spill.{
  Scan, Poll, is_standby, is_passed_over, is_staying, has_overflow, judge, scan, standby_of,
  scanned, update_spill,
}

filter-All : (p : Text → Bool) (xs : List Text) → All (λ x. p x ≡ true) (filter p xs)
filter-All p [] = tt
filter-All p (x ∷ xs) = elim (Bool-cases (p x)) [
  | inl e ↦ rw e (e, filter-All p xs)
  | inr e ↦ rw e (filter-All p xs)
]

module _ {F : Type 0} ⦃fl : Float F⦄ where
  -- Why a battery spills: it stands by with a weight and can serve the direction, and it did so before
  -- or the grid shows demand left over.
  pub record IsCalled (b : LoadBalancer F) (q : Poll F) (cid : Text) : Type 0 where
    pub stands_by : is_standby q.reports q.faded cid ≡ true
    pub serves : is_passed_over q cid ≡ false
    pub needed : (is_staying b q cid || has_overflow q) ≡ true

  judge-needed :
      (b : LoadBalancer F) (q : Poll F) (cid : Text) (st : Scan F)
      → (judge b q cid st).1 ≡ true
      → (is_staying b q cid || has_overflow q) ≡ true
  unfolding judge
  judge-needed b q cid st h = ground arith

  judge-spill :
      (b : LoadBalancer F) (q : Poll F) (cid : Text) (st : Scan F)
      → (judge b q cid st).0.spill ≡ st.spill
  unfolding judge
  judge-spill b q cid st = ground arith

  scan-IsCalled :
      (b : LoadBalancer F) (q : Poll F) (standby : List Text) (st : Scan F)
      → All (λ cid. is_standby q.reports q.faded cid ≡ true) standby
      → All (IsCalled b q) st.spill
      → All (IsCalled b q) (scan b q standby st).spill
  unfolding scan
  scan-IsCalled b q [] st waits called = called
  scan-IsCalled b q (cid ∷ standby) st waits called =
      let seen = (judge b q cid st).0 in
      elim (Bool-cases (is_passed_over q cid)) [
        | inl e ↦ rw (e, scan) (scan-IsCalled b q standby st waits.1 called)
        | inr e ↦ elim (Bool-cases (judge b q cid st).1) [
          | inr f ↦ rw (e, f, scan) (rw (judge-spill b q cid st) called)
          | inl f ↦
              let joined = record seen {
                spill = seen.spill ++ (cid ∷ []);
                ahead = seen.ahead ++ (cid ∷ []);
              } in
              let one : IsCalled b q cid = record {
                stands_by = waits.0;
                serves = e;
                needed = judge-needed b q cid st f;
              } in
              let all =
                All-append (IsCalled b q) seen.spill (cid ∷ []) (rw (judge-spill b q cid st) called)
                  (one, tt) in
              rw (e, f, scan) (scan-IsCalled b q standby joined waits.1 all)
        ]
      ]

  scanned-IsCalled :
      (reports : Reports F) (control_grid : F) (faded : List (Text × F)) (charge_blind : List Text)
      (now : F) (b : LoadBalancer F)
      → let (q, found) = scanned reports control_grid faded charge_blind now b in
        All (IsCalled b q) found.spill
  unfolding scanned standby_of
  scanned-IsCalled reports control_grid faded charge_blind now b =
      let q = (scanned reports control_grid faded charge_blind now b).0 in
      elim (Bool-cases (eqb_ℤ q.dir (pos 0))) [
        | inl e ↦ rw (e, scanned) tt
        | inr e ↦
            rw (e, scanned)
              (scan-IsCalled b q (standby_of b reports faded) _
                (filter-All (is_standby reports faded) b.priority) tt)
      ]

  -- Every battery that the standby reserve calls on stands by with its weight faded out and a
  -- distribution weight above zero, can serve the direction of the demand, and either served it
  -- before or finds demand left over on the grid.
  pub update_spill-IsCalled :
      (reports : Reports F) (control_grid : F) (faded : List (Text × F)) (charge_blind : List Text)
      (now : F) (b : LoadBalancer F)
      → All
          (IsCalled b (scanned reports control_grid faded charge_blind now b).0)
          (update_spill reports control_grid faded charge_blind now b).1
  unfolding update_spill
  update_spill-IsCalled reports control_grid faded charge_blind now b =
      elim (Bool-cases (not (efficiency_enabled b.cfg) || ltb (length reports) 2)) [
        | inl e ↦ rw (e, update_spill) tt
        | inr e ↦
            rw (e, update_spill) (scanned-IsCalled reports control_grid faded charge_blind now b)
      ]
