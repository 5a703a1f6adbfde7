-- ===== src/Balancer/Limits/Learned.antt =====
-- When a ceiling is learned.
use astra_meter.Prelude.{
  ◌∙◌, not, ◌||◌, ◌&&◌, ◌==◌, leb, Bool-cases, Option-cases, ◌+◌, ◌≤◌, ◌≡◌, refl, ◌⊎◌, inl, inr,
  true, arith,
}
use astra_meter.Prelude.Int.{ℤ, pos}
use astra_meter.Prelude.Float.{Float, ◌<F◌, ◌≤F◌, ◌-F◌, nought, whole, fabs}
use astra_meter.Balancer.State.{ConsumerState, minus_one, sign}
use astra_meter.Balancer.Limits.{false, set_ceiling, release, is_pushed, hold_run, tracked}

module _ {F : Type 0} ⦃fl : Float F⦄ where
  -- The battery holds its power though it is pushed: five polls and five seconds within 15 W of the
  -- power at which the run began.
  pub record IsHeld (power now : F) (s : ConsumerState F) : Type 0 where
    pub pushed : is_pushed power s ≡ true
    pub polls : 4 ≤ s.ceiling_run_polls
    pub flat : whole 15 <F fabs (power -F s.ceiling_run_anchor) ≡ false
    pub long : whole 5 ≤F now -F s.ceiling_run_since ≡ true

  -- What a poll makes of a ceiling that was `before`.
  abbrev pub IsTracked : F → F → ConsumerState F → ℤ → F → F → Type 0
  IsTracked power now s dir before after =
      ((after ≡ before) ⊎ (after ≡ nought))
      ⊎ (IsHeld power now s × (sign power ≡ dir) × (after ≡ fabs power))

  -- The run and the last target of a battery, which a release leaves alone.
  record IsReleased (s s' : ConsumerState F) : Type 0 where
    target : s'.last_target ≡ s.last_target
    anchor : s'.ceiling_run_anchor ≡ s.ceiling_run_anchor
    since : s'.ceiling_run_since ≡ s.ceiling_run_since
    polls : s'.ceiling_run_polls ≡ s.ceiling_run_polls
    discharge : (s'.ceiling_discharge ≡ s.ceiling_discharge) ⊎ (s'.ceiling_discharge ≡ nought)
    charge : (s'.ceiling_charge ≡ s.ceiling_charge) ⊎ (s'.ceiling_charge ≡ nought)

  release-IsReleased :
      (power now : F) (dir : ℤ) (s : ConsumerState F) → IsReleased s (release power now dir s)
  unfolding release set_ceiling
  release-IsReleased power now dir s = record {
    target = ground arith;
    anchor = ground arith;
    since = ground arith;
    polls = ground arith;
    discharge = ground arith;
    charge = ground arith;
  }

  pushed_sign :
      (power : F) (s : ConsumerState F)
      → is_pushed power s ≡ true
      → (sign power ≡ pos 1) ⊎ (sign power ≡ minus_one)
  unfolding is_pushed sign
  pushed_sign power s h = elim (Option-cases s.last_target) [
    | inl e ↦ cc (rw (e, is_pushed) at h)
    | inr (sent, e) ↦ let h' = rw (e, is_pushed) at h in ground arith
  ]

  hold_run-IsTracked :
      (power now : F) (s : ConsumerState F)
      → let s' = hold_run power now s in
        IsTracked power now s (pos 1) s.ceiling_discharge s'.ceiling_discharge
        × IsTracked power now s minus_one s.ceiling_charge s'.ceiling_charge
  unfolding hold_run set_ceiling
  hold_run-IsTracked power now s =
      let far = whole 15 <F fabs (power -F s.ceiling_run_anchor) in
      elim (Bool-cases (not (is_pushed power s) || s.ceiling_run_polls == 0 || far)) [
        | inl e ↦ rw (e, hold_run) (inl (inl refl), inl (inl refl))
        | inr e ↦
            elim (Bool-cases
              (leb 5 (s.ceiling_run_polls + 1) && whole 5 ≤F now -F s.ceiling_run_since)) [
                | inr f ↦ rw (e, f, hold_run) (inl (inl refl), inl (inl refl))
                | inl f ↦
                    let held : IsHeld power now s = record {
                      pushed = ground arith;
                      polls = ground arith;
                      flat = ground arith;
                      long = ground arith;
                    } in
                    elim (pushed_sign power s held.pushed) [
                      | inl g ↦ rw (e, f, g, hold_run) (inr (held, refl, refl), inl (inl refl))
                      | inr g ↦ rw (e, f, g, hold_run) (inl (inl refl), inr (held, refl, refl))
                    ]
              ]
      ]

  IsReleased-twice : (s s' t : ConsumerState F) → IsReleased s s' → IsReleased s' t → IsReleased s t
  IsReleased-twice s s' t r q = record {
    target = q.target ∙ r.target;
    anchor = q.anchor ∙ r.anchor;
    since = q.since ∙ r.since;
    polls = q.polls ∙ r.polls;
    discharge = ground (arith, r.discharge, q.discharge);
    charge = ground (arith, r.charge, q.charge);
  }

  IsHeld-before :
      (power now : F) (s s' : ConsumerState F)
      → IsReleased s s'
      → IsHeld power now s'
      → IsHeld power now s
  unfolding is_pushed
  IsHeld-before power now s s' r h = record {
    pushed = rw (r.target) at h.pushed;
    polls = omega (arith, h.polls, r.polls);
    flat = rw (r.anchor) at h.flat;
    long = rw (r.since) at h.long;
  }

  after_release :
      (power now : F) (s s' : ConsumerState F) (dir : ℤ) (before released after : F)
      → IsReleased s s'
      → (released ≡ before) ⊎ (released ≡ nought)
      → IsTracked power now s' dir released after
      → IsTracked power now s dir before after
  after_release power now s s' dir before released after r e (inr (h, d, f)) =
      inr (IsHeld-before power now s s' r h, d, f)
  after_release power now s s' dir before released after r e (inl (inr f)) = inl (inr f)
  after_release power now s s' dir before released after r (inl e) (inl (inl f)) = inl (inl (f ∙ e))
  after_release power now s s' dir before released after r (inr e) (inl (inl f)) = inl (inr (f ∙ e))

  -- A poll leaves each ceiling as it is, drops it, or sets it to the power at which the battery has
  -- held for five polls and five seconds although it was pushed further, in the direction it runs in.
  pub tracked-IsTracked :
      (power now : F) (s : ConsumerState F)
      → let s' = tracked power now s in
        IsTracked power now s (pos 1) s.ceiling_discharge s'.ceiling_discharge
        × IsTracked power now s minus_one s.ceiling_charge s'.ceiling_charge
  unfolding tracked
  tracked-IsTracked power now s =
      let first = release power now (pos 1) s in
      let both = release power now minus_one first in
      let r =
        IsReleased-twice s first both (release-IsReleased power now (pos 1) s)
          (release-IsReleased power now minus_one first) in
      let (discharge, charge) = hold_run-IsTracked power now both in
      (
        after_release power now s both (pos 1) s.ceiling_discharge both.ceiling_discharge
            (hold_run power now both).ceiling_discharge r r.discharge discharge,
        after_release power now s both minus_one s.ceiling_charge both.ceiling_charge
            (hold_run power now both).ceiling_charge r r.charge charge,
      )
