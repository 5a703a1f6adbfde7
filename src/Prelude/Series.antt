-- ===== src/Prelude/Series.antt =====
-- Sequences of floats as Python handles them: `sum`, an entry, `sorted` and `statistics.median`.
use astra_meter.Prelude.{ℕ, zero, suc, ◌-◌, ◌/◌, ◌%◌, ◌==◌, List, [], ◌∷◌, if◌then◌else◌, length}
use astra_meter.Prelude.Float.{Float, ◌<F◌, ◌+F◌, ◌/F◌, nought, whole}

abbrev pub replicate {ℓ} : {A : Type ℓ} → ℕ → A → List A
replicate zero x = []
replicate (suc n) x = x ∷ replicate n x

module _ {F : Type 0} ⦃fl : Float F⦄ where
  -- `sum(vs, acc)`.
  abbrev pub fsum : F → List F → F
  fsum acc [] = acc
  fsum acc (v ∷ vs) = fsum (acc +F v) vs

  abbrev pub nth : List F → ℕ → F
  nth [] i = nought
  nth (v ∷ vs) zero = v
  nth (v ∷ vs) (suc i) = nth vs i

  unfoldable pub insert : F → List F → List F
  insert x [] = x ∷ []
  insert x (y ∷ ys) = let rest = insert x ys in if y <F x then y ∷ rest else x ∷ (y ∷ ys)

  unfoldable pub sorted : List F → List F
  unfolding insert
  sorted [] = []
  sorted (x ∷ xs) = insert x (sorted xs)

  -- `statistics.median` of a sequence that is not empty.
  unfoldable pub median : List F → F
  unfolding sorted
  median xs =
      let n = length xs in
      let s = sorted xs in
      if n % 2 == 1 then nth s (n / 2) else (nth s (n / 2 - 1) +F nth s (n / 2)) /F whole 2
