-- ===== src/Filters/Hampel/Follows.antt =====
-- The outlier filter follows a change that lasts.
use native.Mathlib.Decide.{dec_le}
use native.Mathlib.Omega.{arith}
use astra_meter.Prelude.{
  length-append, ℕ, zero, suc, ◌-◌, ◌/◌, ◌≤◌, ◌<◌, ◌≡◌, refl, ◌∙◌, sym, ap, List, [], ◌∷◌, ◌++◌,
  length, ◌||◌, true,
}
use astra_meter.Prelude.Int.{ℤ, pos, negsuc, ◌+ℤ◌, ◌*ℤ◌, quot_ℤ}
use astra_meter.Prelude.Float.{
  Float, IsRounded, Milli, milli_float, ◌≤F◌, ◌+F◌, ◌-F◌, ◌/F◌, nought, whole, fabs,
}
use astra_meter.Prelude.Bounds.{not-le-le}
use astra_meter.Prelude.Series.{fsum, nth, insert, sorted, median, replicate}
use astra_meter.Filters.Hampel.{Hampel, filtered, newest, passed, replayed, threshold_of}
use astra_meter.Filters.Hampel.Window.{newest_all, newest_cons, replayed-window, totals}

length-replicate : {A : Type 0} (n : ℕ) (x : A) → length (replicate n x) ≡ n
length-replicate zero x = refl
length-replicate (suc n) x = ap suc (length-replicate n x)

-- The mean of two equal floats.
pub record IsHalving (F : Type 0) ⦃fl : Float F⦄ : Type 0 where
  pub half_twice : (a : F) → (a +F a) /F whole 2 ≡ a

half_twice_milli : (a : ℤ) → quot_ℤ ((a +ℤ a) *ℤ pos 1000) (pos 2 *ℤ pos 1000) ≡ a
unfolding quot_ℤ ◌*ℤ◌ ◌+ℤ◌
half_twice_milli (pos a) = ground arith
half_twice_milli (negsuc a) = ground arith

pub Milli-IsHalving : IsHalving Milli
Milli-IsHalving = record { half_twice = half_twice_milli }

module _ {F : Type 0} ⦃fl : Float F⦄ where
  insert-replicate : (n : ℕ) (t : F) → insert t (replicate n t) ≡ replicate (suc n) t
  unfolding insert
  insert-replicate zero t = refl
  insert-replicate (suc n) t = ground (arith, insert-replicate n t)

  sorted-replicate : (n : ℕ) (t : F) → sorted (replicate n t) ≡ replicate n t
  unfolding sorted
  sorted-replicate zero t = refl
  sorted-replicate (suc n) t = ap (insert t) (sorted-replicate n t) ∙ insert-replicate n t

  nth-replicate : (n i : ℕ) (t : F) → i < n → nth (replicate n t) i ≡ t
  nth-replicate zero i t h = absurd (omega (arith, h))
  nth-replicate (suc n) zero t h = refl
  nth-replicate (suc n) (suc i) t h = nth-replicate n i t (omega (arith, h))

  median-replicate : IsHalving F → (n : ℕ) (t : F) → zero < n → median (replicate n t) ≡ t
  unfolding median
  median-replicate halving n t h =
      let at_half : nth (replicate n t) (n / 2) ≡ t =
        nth-replicate n (n / 2) t (omega (arith, h)) in
      let below : nth (replicate n t) (n / 2 - 1) ≡ t =
        nth-replicate n (n / 2 - 1) t (omega (arith, h)) in
      rw (length-replicate n t, sorted-replicate n t, at_half, below)
        (ground (arith, halving.half_twice t))

  totals-replicate :
      (n : ℕ) (v : F) (vs : List F)
      → totals (replicate n (v ∷ vs)) ≡ replicate n (fsum nought (v ∷ vs))
  unfolding totals
  totals-replicate zero v vs = refl
  totals-replicate (suc n) v vs = ap (λ ts. fsum nought (v ∷ vs) ∷ ts) (totals-replicate n v vs)

  newest_append : (n : ℕ) (xs ys : List F) → n ≤ length ys → newest n (xs ++ ys) ≡ newest n ys
  newest_append n [] ys h = refl
  newest_append n (x ∷ xs) ys h =
      newest_cons n x (xs ++ ys) (omega (arith, h, length-append xs ys)) ∙ newest_append n xs ys h

  newest-replicate : (n k : ℕ) (t : F) → n ≤ k → newest n (replicate k t) ≡ replicate n t
  newest-replicate n zero t h =
      let none_left : n ≡ 0 = omega (arith, h) in rw none_left (newest_all 0 [] (omega arith))
  newest-replicate n (suc k) t h = elim (dec_le n k) [
    | yes within ↦
        newest_cons n t (replicate k t) (omega (arith, within, length-replicate k t))
        ∙ newest-replicate n k t within
    | no beyond ↦
        let all_of_it : n ≡ suc k = omega (arith, h, beyond) in
        newest_all n (replicate (suc k) t) (omega (arith, all_of_it, length-replicate k t))
        ∙ ap (λ i. replicate i t) (sym all_of_it)
  ]

  replayed_last :
      (k : ℕ) (raw : List F) (h : Hampel F)
      → replayed (replicate (suc k) raw) h ≡ (filtered raw (replayed (replicate k raw) h)).0
  unfolding replayed
  replayed_last zero raw h = refl
  replayed_last (suc k) raw h = replayed_last k raw (filtered raw h).0

  -- A total at the median is no outlier, whatever the threshold.
  passed-median :
      IsRounded F
      → (h : Hampel F) (raw : List F) → median h.window ≡ fsum nought raw
      → passed h raw ≡ raw
  unfolding passed
  passed-median rounded h raw same =
      let total = fsum nought raw in
      let threshold = threshold_of h total h.window in
      let flat : fabs (total -F total) ≡ nought =
        ground (arith, rounded.sub_self total, rounded.sub_self (nought)) in
      let settled : (threshold ≤F nought || nought ≤F threshold) ≡ true =
        ground (arith, not-le-le rounded.ordered threshold nought) in
      rw (same, flat, settled) refl

  -- The reading that a reading with the median of the window leads to.
  filtered-median :
      IsRounded F
      → (v : F) (vs : List F) (h : Hampel F)
      → median ((filtered (v ∷ vs) h).0).window ≡ fsum nought (v ∷ vs)
      → (filtered (v ∷ vs) h).1 ≡ v ∷ vs
  unfolding filtered
  filtered-median rounded v vs h same =
      let seen = (filtered (v ∷ vs) h).0 in ground (arith, passed-median rounded seen (v ∷ vs) same)

  -- A change that lasts is let through: whatever the filter has read before, a reading that has come
  -- as often in a row as the window has entries is reported the way the meter gave it, at every
  -- threshold. This is where the window has at least one entry and holds no more than its size, where
  -- rounded subtraction of a float from itself gives nought and where half of twice a float is it.
  pub filtered-sustained :
      IsRounded F
      → IsHalving F
      → (k : ℕ) (raw : List F) (h : Hampel F) → zero < h.size
      → h.size ≤ suc k
      → length h.window ≤ h.size
      → (filtered raw (replayed (replicate k raw) h)).1 ≡ raw
  unfolding filtered
  filtered-sustained rounded halving k [] h some_size enough fits = refl
  filtered-sustained rounded halving k (v ∷ vs) h some_size enough fits =
      let total = fsum nought (v ∷ vs) in
      let before = replayed (replicate k (v ∷ vs)) h in
      let window : ((filtered (v ∷ vs) before).0).window ≡ replicate h.size total =
        ap (λ g. g.window) (sym (replayed_last k (v ∷ vs) h))
        ∙ replayed-window (replicate (suc k) (v ∷ vs)) h fits
        ∙ ap (λ ts. newest h.size (h.window ++ ts)) (totals-replicate (suc k) v vs)
        ∙ newest_append h.size h.window (replicate (suc k) total)
            (omega (arith, enough, length-replicate (suc k) total))
        ∙ newest-replicate h.size (suc k) total enough in
      filtered-median rounded v vs before
        (ap median window ∙ median-replicate halving h.size total some_size)
