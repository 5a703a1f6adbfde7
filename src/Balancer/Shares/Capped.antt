-- ===== src/Balancer/Shares/Capped.antt =====
-- A share that is split against ceilings: the loop ends, and no share passes its ceiling.
use astra_meter.Prelude.{
  ℕ, zero, suc, ◌≤◌, ◌<◌, ◌≡◌, refl, ◌⊎◌, inl, inr, Bool, true, false, ◌&&◌, not, Bool-cases, List,
  [], ◌∷◌, some, arith, filter, length,
}
use astra_meter.Prelude.Int.{ℤ, pos, eqb_ℤ}
use astra_meter.Prelude.Text.{Text, same_iff, same_refl, elem}
use astra_meter.Prelude.Dict.{get}
use astra_meter.Prelude.Float.{Float, ◌<F◌, ◌*F◌}
use astra_meter.Balancer.State.{sign}
use astra_meter.Balancer.Shares.{
  weight_of, weighted_share, is_over, is_empty, less_ceilings, fill, capped_weighted_share,
}

elem-filter :
    (p : Text → Bool) (k : Text) (xs : List Text) → elem k (filter p xs) ≡ (p k && elem k xs)
unfolding elem
elem-filter p k [] = ground arith
elem-filter p k (x ∷ xs) = ground (arith, same_iff x k, elem-filter p k xs)

nowhere : (k : Text) (xs : List Text) → is_empty xs ≡ true → elem k xs ≡ false
unfolding elem
nowhere k [] h = refl
nowhere k (x ∷ xs) h = cc

length-filter-le : (p : Text → Bool) (xs : List Text) → length (filter p xs) ≤ length xs
length-filter-le p [] = omega arith
length-filter-le p (x ∷ xs) = ground (arith, length-filter-le p xs)

-- A filter that drops a member leaves fewer.
length-filter-lt :
    (p : Text → Bool) (k : Text) (xs : List Text)
    → elem k xs ≡ true
    → p k ≡ false
    → length (filter p xs) < length xs
unfolding elem
length-filter-lt p k [] h e = cc
length-filter-lt p k (x ∷ xs) h e =
    ground (arith, same_iff x k, length-filter-le p xs, length-filter-lt p k xs)

-- The batteries that stay, once those over their ceiling are taken off, are fewer.
others-lt :
    (p : Text → Bool) (xs : List Text)
    → is_empty (filter p xs) ≡ false
    → length (filter (λ k. not (elem k (filter p xs))) xs) < length xs
others-lt p xs h = go (filter p xs) refl
  where
    go :
        (over : List Text)
        → filter p xs ≡ over
        → length (filter (λ k. not (elem k (filter p xs))) xs) < length xs
    go [] e = absurd (ground arith)
    go (y ∷ ys) e =
        let member : elem y (filter p xs) ≡ true = rw e (unfold elem in rw (same_refl y)) in
        let known : elem y xs ≡ true = ground (arith, elem-filter p y xs) in
        length-filter-lt (λ k. not (elem k (filter p xs))) y xs known (rw member)

module _ {F : Type 0} ⦃fl : Float F⦄ where
  -- The share is that of the ceiling, or does not pass it.
  abbrev pub IsWithin : F → F → F → Type 0
  IsWithin top dir share = (share ≡ top *F dir) ⊎ (top <F share *F dir ≡ false)

  -- A battery that is not over its ceiling has a share that does not pass it.
  not_over :
      (weights ceilings : List (Text × F)) (dir remaining : F) (free : List Text) (cid : Text)
      (top : F)
      → elem cid free ≡ true
      → get cid ceilings ≡ some top
      → elem cid (filter (is_over weights ceilings dir remaining free) free) ≡ false
      → top <F weighted_share remaining weights free (some cid) *F dir ≡ false
  unfolding is_over
  not_over weights ceilings dir remaining free cid top member limited out =
      let p = is_over weights ceilings dir remaining free in
      let stays : p cid ≡ false = ground (arith, elem-filter p cid free) in
      rw (limited, is_over) at stays

  fill-IsWithin :
      (left : ℕ) (weights ceilings : List (Text × F)) (cid : Text) (s : ℤ) (remaining : F)
      (free : List Text) (top : F)
      → length free < left
      → eqb_ℤ s (pos 0) ≡ false
      → elem cid free ≡ true
      → get cid ceilings ≡ some top
      → (share : F) × (fill left weights ceilings (some cid) s remaining free ≡ some share)
        × IsWithin top (fl.of_int s) share
  unfolding fill
  fill-IsWithin zero weights ceilings cid s remaining free top small runs member limited =
      absurd (omega arith)
  fill-IsWithin (suc left) weights ceilings cid s remaining free top small runs member limited =
      let dir = fl.of_int s in
      let p = is_over weights ceilings dir remaining free in
      let over = filter p free in
      elim (Bool-cases (is_empty over)) [
        | inl e ↦
            rw (runs, e)
              (
                weighted_share remaining weights free (some cid),
                refl,
                inr (
                    not_over weights ceilings dir remaining free cid top member limited
                      (nowhere cid over e)),
              )
        | inr e ↦ elim (Bool-cases (elem cid over)) [
          | inl f ↦
              rw (runs, e, f) (weight_of ceilings cid *F dir, refl, inl (rw (limited, weight_of)))
          | inr f ↦
              let others = filter (λ k. not (elem k over)) free in
              let fewer : length others < left = omega (arith, others-lt p free e) in
              let stays : elem cid others ≡ true =
                ground (arith, elem-filter (λ k. not (elem k over)) cid free) in
              rw (runs, e, f)
                (fill-IsWithin left weights ceilings cid s
                  (less_ceilings ceilings dir remaining over) others top fewer runs stays limited)
        ]
      ]

  -- A battery that shares a total which is not zero gets a share, whatever the weights: it is that of
  -- its ceiling, or it does not pass the ceiling.
  pub capped_weighted_share-IsWithin :
      (total : F) (weights : List (Text × F)) (ids : List Text) (ceilings : List (Text × F))
      (cid : Text) (top : F)
      → eqb_ℤ (sign total) (pos 0) ≡ false
      → elem cid ids ≡ true
      → get cid ceilings ≡ some top
      → (share : F) × (capped_weighted_share total weights ids ceilings (some cid) ≡ some share)
        × IsWithin top (fl.of_int (sign total)) share
  unfolding capped_weighted_share
  capped_weighted_share-IsWithin total weights ids ceilings cid top runs member limited =
      fill-IsWithin (suc (length ids)) weights ceilings cid (sign total) total ids top (omega arith)
        runs member limited
