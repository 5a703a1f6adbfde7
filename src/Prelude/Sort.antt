-- ===== src/Prelude/Sort.antt =====
-- `sorted` and `list.sort`: a stable sort by an order on the keys, and how often a list of texts
-- holds one.
use astra_meter.Prelude.{
  ◌≤◌, ◌==◌, ℕ, ◌+◌, ◌≡◌, refl, Bool, true, false, List, [], ◌∷◌, ◌++◌, arith, if◌then◌else◌,
  filter,
}
use astra_meter.Prelude.Text.{same_refl, Text, same, same_iff, elem}

module _ {ℓ} {A : Type ℓ} where
  -- `before y x`: the key of y is below the key of x.
  unfoldable pub insert : (A → A → Bool) → A → List A → List A
  insert before x [] = x ∷ []
  insert before x (y ∷ ys) =
      let rest = insert before x ys in if before y x then y ∷ rest else x ∷ (y ∷ ys)

  unfoldable pub sort : (A → A → Bool) → List A → List A
  unfolding insert
  sort before [] = []
  sort before (x ∷ xs) = insert before x (sort before xs)

unfoldable pub count : Text → List Text → ℕ
count k [] = 0
count k (x ∷ xs) = (if same x k then 1 else 0) + count k xs

pub count-append : (k : Text) (xs ys : List Text) → count k (xs ++ ys) ≡ count k xs + count k ys
unfolding count
count-append k [] ys = omega arith
count-append k (x ∷ xs) ys = omega (arith, count-append k xs ys)

count-insert :
    (before : Text → Text → Bool) (k x : Text) (xs : List Text)
    → count k (insert before x xs) ≡ count k (x ∷ xs)
unfolding count insert
count-insert before k x [] = refl
count-insert before k x (y ∷ ys) = ground (arith, count-insert before k x ys)

pub count-sort :
    (before : Text → Text → Bool) (k : Text) (xs : List Text)
    → count k (sort before xs) ≡ count k xs
unfolding count sort
count-sort before k [] = refl
count-sort before k (x ∷ xs) =
    ground (arith, count-insert before k x (sort before xs), count-sort before k xs)

pub count-filter :
    (p : Text → Bool) (k : Text) (xs : List Text)
    → count k (filter p xs) ≡ (if p k then count k xs else 0)
unfolding count
count-filter p k [] = ground arith
count-filter p k (x ∷ xs) = ground (arith, same_iff x k, count-filter p k xs)

pub elem-eq-count :
    (k : Text) (xs : List Text) → elem k xs ≡ (if count k xs == 0 then false else true)
unfolding count elem
elem-eq-count k [] = refl
elem-eq-count k (x ∷ xs) = ground (arith, elem-eq-count k xs)

pub count_self : (x : Text) (xs : List Text) → count x (x ∷ xs) ≡ 1 + count x xs
unfolding count
count_self x xs = rw (same_refl x)

pub count-le-cons : (k x : Text) (xs : List Text) → count k xs ≤ count k (x ∷ xs)
unfolding count
count-le-cons k x xs = omega arith

pub empty_of_count : (xs : List Text) → ((k : Text) → count k xs ≡ 0) → xs ≡ []
empty_of_count [] h = refl
empty_of_count (x ∷ xs) h = absurd (omega (arith, h x, count_self x xs))
