-- ===== src/Balancer/MinPower/Idle.antt =====
-- The loop of `_below_min_power` ends with nobody below the least power.
use astra_meter.Prelude.{
  All, List-cases, ℕ, zero, suc, ◌≤◌, ◌≡◌, ◌⊎◌, inl, inr, refl, true, false, Bool, List, [], ◌∷◌,
  ◌&&◌, ◌||◌, not, length, filter, arith, if◌then◌else◌,
}
use astra_meter.Prelude.Text.{Text, same_refl, elem, text_lt}
use astra_meter.Prelude.Dict.{remove_first}
use astra_meter.Prelude.Float.{Float, ◌<F◌}
use astra_meter.Balancer.Pool.{LoadBalancer}
use astra_meter.Balancer.Order.{Reports}
use astra_meter.Balancer.MinPower.{Demand, run_out, is_short, shortness, furthest}

member_filter :
    (p : Text → Bool) (k : Text) (xs : List Text) → elem k (filter p xs) ≡ true → elem k xs ≡ true
unfolding elem
member_filter p k [] h = cc
member_filter p k (x ∷ xs) h = ground (arith, member_filter p k xs)

length-remove_first :
    (k : Text) (xs : List Text) → elem k xs ≡ true → length xs ≡ suc (length (remove_first k xs))
unfolding elem remove_first
length-remove_first k [] h = cc
length-remove_first k (x ∷ xs) h = ground (arith, length-remove_first k xs)

member_remove : (k c : Text) (xs : List Text) → elem c (remove_first k xs) ≡ true → elem c xs ≡ true
unfolding elem remove_first
member_remove k c [] h = cc
member_remove k c (x ∷ xs) h = ground (arith, member_remove k c xs)

chosen : (c : Bool) (x y : Text) → let z = if c then x else y in (z ≡ x) ⊎ (z ≡ y)
chosen true x y = inl refl
chosen false x y = inr refl

one_more :
    (next best cid z : Text) (short : List Text)
    → (next ≡ cid) ⊎ (next ≡ best)
    → elem z (next ∷ short) ≡ true
    → elem z (best ∷ cid ∷ short) ≡ true
unfolding elem
one_more next best cid z short (inl e) h = let h' = rw (e) at h in ground arith
one_more next best cid z short (inr e) h = let h' = rw (e) at h in ground arith

weaker_members :
    (ids fewer xs : List Text)
    → ((c : Text) → elem c fewer ≡ true → elem c ids ≡ true)
    → All (λ c. elem c fewer ≡ true) xs
    → All (λ c. elem c ids ≡ true) xs
weaker_members ids fewer [] h all = all
weaker_members ids fewer (x ∷ xs) h (here, there) = (h x here, weaker_members ids fewer xs h there)

own_members :
    (ids xs : List Text)
    → ((c : Text) → elem c xs ≡ true → elem c ids ≡ true)
    → All (λ c. elem c ids ≡ true) xs
unfolding elem
own_members ids [] h = tt
own_members ids (x ∷ xs) h =
    (h x (rw (same_refl x) refl), own_members ids xs (λ c m. h c (ground (arith, m))))

module _ {F : Type 0} ⦃fl : Float F⦄ where
  furthest-member :
      (key : Text → F) (best : Text) (short : List Text)
      → elem (furthest key best short) (best ∷ short) ≡ true
  unfolding furthest elem
  furthest-member key best [] = rw (same_refl best) refl
  furthest-member key best (cid ∷ short) =
      let nearer = key cid <F key best || (not (key best <F key cid) && text_lt cid best) in
      let next : Text = if nearer then cid else best in
      one_more next best cid (furthest key next short) short (chosen nearer cid best)
        (furthest-member key next short)

  -- Nobody of those who run is below the least power, and they are of the batteries that began.
  pub record IsSettled (b : LoadBalancer F) (reports : Reports F) (d : Demand F)
      (ids running : List Text) : Type 0 where
    pub fed : filter (is_short b reports d running) running ≡ []
    pub known : All (λ cid. elem cid ids ≡ true) running

  -- With as many rounds as there are batteries or more, the loop ends: each battery that still runs
  -- has a share, split among those who run, that is not below the least power it may run at (the
  -- start power for one that idled).
  pub run_out-IsSettled :
      (left : ℕ) (b : LoadBalancer F) (reports : Reports F) (d : Demand F) (ids : List Text)
      → length ids ≤ left
      → IsSettled b reports d ids (run_out left b reports d ids)
  unfolding run_out
  run_out-IsSettled zero b reports d [] h = record { fed = refl; known = tt }
  run_out-IsSettled zero b reports d (x ∷ ids) h = absurd (omega (arith, h))
  run_out-IsSettled (suc left) b reports d ids h =
      elim (List-cases (filter (is_short b reports d ids) ids)) [
        | inl e ↦ rw (e, run_out) (record { fed = e; known = own_members ids ids (λ c m. m) })
        | inr (best, rest, e) ↦
            let gone = furthest (shortness b reports d ids) best rest in
            let member : elem gone ids ≡ true =
              member_filter (is_short b reports d ids) gone ids
                (rw (e) (furthest-member (shortness b reports d ids) best rest)) in
            let fewer = length-remove_first gone ids member in
            let r =
              run_out-IsSettled left b reports d (remove_first gone ids)
                (omega (arith, fewer, h)) in
            rw (e, run_out)
              (record {
                fed = r.fed;
                known =
                    weaker_members ids (remove_first gone ids) _ (λ c. member_remove gone c ids)
                      r.known;
              })
      ]
