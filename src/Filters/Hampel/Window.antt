-- ===== src/Filters/Hampel/Window.antt =====
-- The window of the outlier filter against the history of the readings.
use mathlib.Core.List.{append_assoc, append-nil}
use native.Mathlib.Decide.{dec_le}
use astra_meter.Prelude.{
  ℕ, suc, ◌-◌, ◌≤◌, ◌≡◌, ◌∙◌, sym, ap, List, [], ◌∷◌, ◌++◌, length, length-append, drop, arith,
}
use astra_meter.Prelude.Float.{Float, nought}
use astra_meter.Prelude.Series.{fsum}
use astra_meter.Filters.Hampel.{Hampel, filtered, newest, replayed}

module _ {F : Type 0} ⦃fl : Float F⦄ where
  pub newest_all : (n : ℕ) (xs : List F) → length xs ≤ n → newest n xs ≡ xs
  unfolding newest
  newest_all n xs h =
      let none_left : length xs - n ≡ 0 = omega (arith, h) in ap (λ k. drop k xs) none_left

  pub newest_cons : (n : ℕ) (x : F) (xs : List F) → n ≤ length xs → newest n (x ∷ xs) ≡ newest n xs
  unfolding newest
  newest_cons n x xs h =
      let one_more : suc (length xs) - n ≡ suc (length xs - n) = omega (arith, h) in
      ap (λ k. drop k (x ∷ xs)) one_more

  newest_again : (n : ℕ) (xs ys : List F) → newest n (newest n xs ++ ys) ≡ newest n (xs ++ ys)
  newest_again n [] ys = ap (λ zs. newest n (zs ++ ys)) (newest_all n [] (omega arith))
  newest_again n (x ∷ xs) ys = elim (dec_le (suc (length xs)) n) [
    | yes short ↦ ap (λ zs. newest n (zs ++ ys)) (newest_all n (x ∷ xs) short)
    | no long ↦
        let more : n ≤ length (xs ++ ys) = omega (arith, long, length-append xs ys) in
        ap (λ zs. newest n (zs ++ ys)) (newest_cons n x xs (omega (arith, long)))
        ∙ newest_again n xs ys
        ∙ sym (newest_cons n x (xs ++ ys) more)
  ]

  length-newest : (n : ℕ) (xs : List F) → length (newest n xs) ≤ n
  length-newest n [] = rw (newest_all n [] (omega arith)) (omega arith)
  length-newest n (x ∷ xs) = elim (dec_le (suc (length xs)) n) [
    | yes short ↦ rw (newest_all n (x ∷ xs) short) short
    | no long ↦ rw (newest_cons n x xs (omega (arith, long))) (length-newest n xs)
  ]

  -- The totals of the readings that are not empty.
  unfoldable pub totals : List (List F) → List F
  totals [] = []
  totals ([] ∷ raws) = totals raws
  totals ((v ∷ vs) ∷ raws) = fsum nought (v ∷ vs) ∷ totals raws

  -- The window refines the history: whatever was read, and however much of it was rejected, it holds
  -- the newest totals of what it held at first and of all readings since that were not empty, as many
  -- as its size. This is where it holds no more than its size at first.
  pub replayed-window :
      (raws : List (List F)) (h : Hampel F)
      → length h.window ≤ h.size
      → (replayed raws h).window ≡ newest h.size (h.window ++ totals raws)
  unfolding replayed filtered totals
  replayed-window [] h fits = sym (rw (append-nil h.window) (newest_all h.size h.window fits))
  replayed-window ([] ∷ raws) h fits = replayed-window raws h fits
  replayed-window ((v ∷ vs) ∷ raws) h fits =
      let total = fsum nought (v ∷ vs) in
      let longer = h.window ++ (total ∷ []) in
      replayed-window raws (filtered (v ∷ vs) h).0 (length-newest h.size longer)
      ∙ newest_again h.size longer (totals raws)
      ∙ ap (newest h.size) (append_assoc h.window (total ∷ []) (totals raws))
