-- ===== src/Balancer/Shares.antt =====
-- How a total is split across batteries: `weighted_share` and `capped_weighted_share` of
-- src/astrameter/ct002/balancer.py.
pub mod Capped
use astra_meter.Prelude.{
  ℕ, zero, suc, Bool, true, false, ◌||◌, not, List, [], ◌∷◌, Option, none, some, ltb, if◌then◌else◌,
  filter, length,
}
use astra_meter.Prelude.Int.{ℤ, pos, eqb_ℤ}
use astra_meter.Prelude.Text.{Text, elem}
use astra_meter.Prelude.Dict.{get}
use astra_meter.Prelude.Float.{Float, ◌<F◌, ◌≤F◌, ◌+F◌, ◌-F◌, ◌*F◌, ◌/F◌, nought, whole}
use astra_meter.Balancer.State.{sign}

abbrev is_empty : List Text → Bool
is_empty [] = true
is_empty (_ ∷ _) = false

module _ {F : Type 0} ⦃fl : Float F⦄ where
  -- `weights.get(cid, 0.0)`.
  unfoldable pub weight_of : List (Text × F) → Text → F
  weight_of weights cid = elim (get cid weights) [ none ↦ nought | some w ↦ w ]

  unfoldable pub total_weight : List (Text × F) → F → List Text → F
  unfolding weight_of
  total_weight weights acc [] = acc
  total_weight weights acc (cid ∷ ids) = total_weight weights (acc +F weight_of weights cid) ids

  unfoldable pub weighted_share : F → List (Text × F) → List Text → Option Text → F
  unfolding total_weight weight_of
  weighted_share total weights ids consumer_id =
      let all = total_weight weights nought ids in
      let members = if ltb 1 (length ids) then length ids else 1 in
      let mine : F = elim consumer_id [ none ↦ nought | some cid ↦ weight_of weights cid ] in
      if all ≤F nought then total /F whole members else (total *F mine) /F all

  -- Whether the share of a battery passes its ceiling.
  unfoldable pub is_over : List (Text × F) → List (Text × F) → F → F → List Text → Text → Bool
  unfolding weighted_share
  is_over weights ceilings dir remaining free cid = elim (get cid ceilings) [
    | none ↦ false
    | some top ↦ top <F weighted_share remaining weights free (some cid) *F dir
  ]

  -- What is left once the batteries over their ceiling take their ceiling.
  unfoldable pub less_ceilings : List (Text × F) → F → F → List Text → F
  unfolding weight_of
  less_ceilings ceilings dir remaining [] = remaining
  less_ceilings ceilings dir remaining (cid ∷ ids) =
      less_ceilings ceilings dir (remaining -F weight_of ceilings cid *F dir) ids

  -- The loop of `capped_weighted_share`, with the rounds that are left.
  unfoldable pub fill :
      ℕ → List (Text × F) → List (Text × F) → Option Text → ℤ → F → List Text → Option F
  unfolding is_over less_ceilings weighted_share weight_of
  fill zero weights ceilings consumer_id s remaining free = none
  fill (suc left) weights ceilings consumer_id s remaining free =
      let dir = fl.of_int s in
      let over = filter (is_over weights ceilings dir remaining free) free in
      let others = filter (λ cid. not (elem cid over)) free in
      let rest =
        fill left weights ceilings consumer_id s (less_ceilings ceilings dir remaining over)
          others in
      let stuck : Option F = elim consumer_id [
        | none ↦ none
        | some cid ↦ if elem cid over then some (weight_of ceilings cid *F dir) else none
      ] in
      if eqb_ℤ s (pos 0) || is_empty over
      then some (weighted_share remaining weights free consumer_id)
      else elim stuck [ some share ↦ some share | none ↦ rest ]

  -- `capped_weighted_share`: each round takes a battery off, so that one more than there are is
  -- enough.
  unfoldable pub capped_weighted_share :
      F → List (Text × F) → List Text → List (Text × F) → Option Text → Option F
  unfolding fill
  capped_weighted_share total weights ids ceilings consumer_id =
      fill (suc (length ids)) weights ceilings consumer_id (sign total) total ids
