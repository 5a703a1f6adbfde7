-- ===== src/Balancer/Order/Sync.antt =====
-- The rotation order after `_sync_pool` and `force_rotation`: who is in it, and in which order.
use astra_meter.Prelude.{
  ◌+◌, ◌≤◌, ◌≡◌, refl, Bool, not, List, [], ◌∷◌, ◌++◌, ltb, inl, inr, Bool-cases, ap, arith,
  if◌then◌else◌, filter, length, All,
}
use native.Mathlib.Nat.{le_refl, le_trans}
use mathlib.Core.List.{append-nil}
use astra_meter.Prelude.Text.{Text, elem, text_lt}
use astra_meter.Prelude.Dict.{keys, intersection}
use astra_meter.Prelude.Sort.{
  empty_of_count, insert, sort, count, count-append, count-sort, count-filter, elem-eq-count,
  count_self, count-le-cons, empty_of_count,
}
use astra_meter.Prelude.Float.{Float}
use astra_meter.Balancer.Pool.{LoadBalancer}
use astra_meter.Balancer.Pool.Frame.{change_all_frame}
use astra_meter.Balancer.Order.{
  false, Reports, absent, turn, arrives_before, parked_after, synced, force_rotation,
}

-- A list that holds each text once at most, as the rotation order and the keys of a `dict` do.
abbrev pub IsOnce : List Text → Type 0
IsOnce l = (k : Text) → count k l ≤ 1

count-intersection :
    (k : Text) (xs ys : List Text)
    → count k (intersection xs ys) ≡ (if elem k ys then count k xs else 0)
unfolding intersection
count-intersection k xs ys = count-filter (λ j. elem j ys) k xs

count-absent :
    (k : Text) (xs ys : List Text) → count k (absent xs ys) ≡ (if elem k xs then 0 else count k ys)
unfolding absent
count-absent k xs ys = ground (arith, count-filter (λ j. not (elem j xs)) k ys)

-- The members that stay, and those that are new, are the pool.
count-filled :
    (k : Text) (order pool : List Text)
    → IsOnce order
    → IsOnce pool
    → let stayed = intersection order pool in
      count k stayed + count k (absent stayed pool) ≡ count k pool
count-filled k order pool one_order one_pool =
    let stayed = intersection order pool in
    ground (
      arith,
      one_order k,
      one_pool k,
      count-intersection k order pool,
      count-absent k stayed pool,
      elem-eq-count k stayed,
      elem-eq-count k pool,
    )

insert-All :
    (before : Text → Text → Bool) (P : Text → Type 0) (x : Text) (xs : List Text)
    → P x
    → All P xs
    → All P (insert before x xs)
unfolding insert
insert-All before P x [] p ps = (p, tt)
insert-All before P x (y ∷ ys) p ps = ground (arith, insert-All before P x ys p ps.1)

stays_within :
    (xs order pool : List Text)
    → ((k : Text) → count k xs ≤ count k order)
    → ((k : Text) → count k order ≡ count k pool)
    → filter (λ j. elem j pool) xs ≡ xs
stays_within [] order pool less members = refl
stays_within (x ∷ xs) order pool less members =
    let within =
      stays_within xs order pool (λ k. le_trans (count-le-cons k x xs) (less k)) members in
    ground (arith, less x, members x, count_self x xs, elem-eq-count x pool, within)

stays :
    (order pool : List Text)
    → ((k : Text) → count k order ≡ count k pool)
    → intersection order pool ≡ order
unfolding intersection
stays order pool members = stays_within order order pool (λ k. le_refl _) members

none_absent :
    (order pool : List Text) → ((k : Text) → count k order ≡ count k pool) → absent order pool ≡ []
unfolding absent
none_absent order pool members =
    empty_of_count (absent order pool)
      (λ k. ground (arith, count-absent k order pool, elem-eq-count k order, members k))

-- The order after a forced rotation.
forced_order : List Text → List Text → List Text
forced_order pool order =
    let stayed = intersection order pool in
    let filled = stayed ++ absent stayed (sort text_lt pool) in
    if ltb (length filled) 2 then filled else turn filled

count-turn : (k : Text) (xs : List Text) → count k (turn xs) ≡ count k xs
unfolding turn
count-turn k [] = refl
count-turn k (x ∷ xs) = unfold count in omega (arith, count-append k xs (x ∷ []))

forced_order-members :
    (pool order : List Text) (k : Text)
    → IsOnce order
    → IsOnce pool
    → count k (forced_order pool order) ≡ count k pool
unfolding forced_order
forced_order-members pool order k one_order one_pool =
    let stayed = intersection order pool in
    let sorted_pool = sort text_lt pool in
    ground (
      arith,
      count-append k stayed (absent stayed sorted_pool),
      count-turn k (stayed ++ absent stayed sorted_pool),
      count-sort text_lt k pool,
      count-absent k stayed sorted_pool,
      count-absent k stayed pool,
      count-filled k order pool one_order one_pool,
    )

module _ {F : Type 0} ⦃fl : Float F⦄ where
  -- If neither the order before nor the reports hold a battery twice, the order after a sync holds
  -- each battery as often as the reports do.
  pub synced-members :
      (reports : Reports F) (order : List Text) (k : Text)
      → IsOnce order
      → IsOnce (keys reports)
      → count k (synced reports order) ≡ count k (keys reports)
  unfolding synced
  synced-members reports order k one_order one_pool =
      let current = keys reports in
      let stayed = intersection order current in
      let new = absent stayed current in
      omega (
        arith,
        count-sort (parked_after reports) k (stayed ++ sort (arrives_before reports) new),
        count-append k stayed (sort (arrives_before reports) new),
        count-sort (arrives_before reports) k new,
        count-filled k order current one_order one_pool,
      )

  -- No parked battery stands in front of one that is not.
  abbrev pub IsParkedLast : Reports F → List Text → Type 0
  IsParkedLast reports [] = Unit
  IsParkedLast reports (x ∷ xs) =
      All (λ y. parked_after reports y x ≡ false) xs × IsParkedLast reports xs

  -- What stands behind y may stand behind x, if y may.
  behind :
      (reports : Reports F) (x y : Text) (ys : List Text)
      → parked_after reports y x ≡ false
      → All (λ z. parked_after reports z y ≡ false) ys
      → All (λ z. parked_after reports z x ≡ false) ys
  unfolding parked_after
  behind reports x y [] e h = tt
  behind reports x y (z ∷ ys) e h = (ground arith, behind reports x y ys e h.1)

  insert-IsParkedLast :
      (reports : Reports F) (x : Text) (xs : List Text)
      → IsParkedLast reports xs
      → IsParkedLast reports (insert (parked_after reports) x xs)
  unfolding insert
  insert-IsParkedLast reports x [] h = (tt, tt)
  insert-IsParkedLast reports x (y ∷ ys) h = elim (Bool-cases (parked_after reports y x)) [
    | inl e ↦
        let apart : parked_after reports x y ≡ false = unfold parked_after in ground arith in
        rw e (
          insert-All (parked_after reports) (λ z. parked_after reports z y ≡ false) x ys apart h.0,
          insert-IsParkedLast reports x ys h.1,
        )
    | inr e ↦ rw e ((e, behind reports x y ys e h.0), h)
  ]

  sort-IsParkedLast :
      (reports : Reports F) (xs : List Text) → IsParkedLast reports (sort (parked_after reports) xs)
  unfolding sort
  sort-IsParkedLast reports [] = tt
  sort-IsParkedLast reports (x ∷ xs) =
      insert-IsParkedLast reports x (sort (parked_after reports) xs) (sort-IsParkedLast reports xs)

  -- After a sync every battery with a window weight of 0 stands behind all those with a weight.
  pub synced-IsParkedLast :
      (reports : Reports F) (order : List Text) → IsParkedLast reports (synced reports order)
  unfolding synced
  synced-IsParkedLast reports order =
      let current = keys reports in
      let stayed = intersection order current in
      sort-IsParkedLast reports (stayed ++ sort (arrives_before reports) (absent stayed current))

  insert_front :
      (reports : Reports F) (x : Text) (xs : List Text)
      → All (λ y. parked_after reports y x ≡ false) xs
      → insert (parked_after reports) x xs ≡ x ∷ xs
  unfolding insert
  insert_front reports x [] h = refl
  insert_front reports x (y ∷ ys) h = rw (h.0)

  sort_id :
      (reports : Reports F) (xs : List Text)
      → IsParkedLast reports xs
      → sort (parked_after reports) xs ≡ xs
  unfolding sort
  sort_id reports [] h = refl
  sort_id reports (x ∷ xs) h = rw (sort_id reports xs h.1) (insert_front reports x xs h.0)

  -- A sync in which no battery comes or goes leaves the order as it is, if the order holds the
  -- reporting batteries, each once, and those with a window weight of 0 stand at its end.
  pub synced_stable :
      (reports : Reports F) (order : List Text)
      → IsOnce order
      → IsOnce (keys reports)
      → ((k : Text) → count k order ≡ count k (keys reports))
      → IsParkedLast reports order
      → synced reports order ≡ order
  unfolding synced
  synced_stable reports order one_order one_pool members parked =
      rw (stays order (keys reports) members, none_absent order (keys reports) members)
        (rw append-nil (sort_id reports order parked))

  force_rotation-priority :
      (pool : List Text) (now : F) (b : LoadBalancer F)
      → (force_rotation pool now b).priority ≡ forced_order pool b.priority
  unfolding force_rotation forced_order
  force_rotation-priority pool now b =
      let filled =
        intersection b.priority pool ++ absent (intersection b.priority pool) (sort text_lt pool) in
      elim (Bool-cases (ltb (length filled) 2)) [
        | inl e ↦ rw e
        | inr e ↦ rw e (ap (λ (c : LoadBalancer F). c.priority) (change_all_frame _ _ _))
      ]

  -- If neither the order before nor the pool holds a battery twice, the order after a forced rotation
  -- holds each battery as often as the pool does.
  pub force_rotation-members :
      (pool : List Text) (now : F) (b : LoadBalancer F) (k : Text)
      → IsOnce b.priority
      → IsOnce pool
      → count k (force_rotation pool now b).priority ≡ count k pool
  unfolding force_rotation
  force_rotation-members pool now b k one_order one_pool =
      rw (force_rotation-priority pool now b)
        (forced_order-members pool b.priority k one_order one_pool)
