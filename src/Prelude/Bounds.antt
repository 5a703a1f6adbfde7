-- ===== src/Prelude/Bounds.antt =====
-- Bounds of the larger, the smaller and the absolute value of floats.
use astra_meter.Prelude.{◌≡◌, inl, inr, true, false, Bool-cases, arith}
use astra_meter.Prelude.Float.{
  Float, IsOrdered, IsRounded, ◌<F◌, ◌≤F◌, ◌-F◌, nought, fmax, fmin, fabs,
}

module _ {F : Type 0} ⦃fl : Float F⦄ where
  pub fmax-le : (a b m : F) → a ≤F m ≡ true → b ≤F m ≡ true → fmax a b ≤F m ≡ true
  fmax-le a b m h k = ground arith

  pub le-fmin : (m a b : F) → m ≤F a ≡ true → m ≤F b ≡ true → m ≤F fmin a b ≡ true
  le-fmin m a b h k = ground arith

  pub lt-le : IsOrdered F → (a b : F) → a <F b ≡ true → a ≤F b ≡ true
  lt-le o a b h = ground (arith, o.lt-eq-not-le a b, o.le_total a b)

  pub not-lt-le : IsOrdered F → (a b : F) → a <F b ≡ false → b ≤F a ≡ true
  not-lt-le o a b h = ground (arith, o.lt-eq-not-le a b)

  pub not-le-le : IsOrdered F → (a b : F) → a ≤F b ≡ false → b ≤F a ≡ true
  not-le-le o a b h = ground (arith, o.le_total a b)

  pub le-fmax_left : IsOrdered F → (m a b : F) → m ≤F a ≡ true → m ≤F fmax a b ≡ true
  le-fmax_left o m a b h = elim (Bool-cases (a <F b)) [
    | inl e ↦ rw (e) (o.le_trans m a b h (lt-le o a b e))
    | inr e ↦ rw (e) h
  ]

  pub le-fmax_right : IsOrdered F → (m a b : F) → m ≤F b ≡ true → m ≤F fmax a b ≡ true
  le-fmax_right o m a b h = elim (Bool-cases (a <F b)) [
    | inl e ↦ rw (e) h
    | inr e ↦ rw (e) (o.le_trans m b a h (not-lt-le o a b e))
  ]

  pub fmin-le_left : IsOrdered F → (a b m : F) → a ≤F m ≡ true → fmin a b ≤F m ≡ true
  fmin-le_left o a b m h = elim (Bool-cases (b <F a)) [
    | inl e ↦ rw (e) (o.le_trans b a m (lt-le o b a e) h)
    | inr e ↦ rw (e) h
  ]

  pub fmin-le_right : IsOrdered F → (a b m : F) → b ≤F m ≡ true → fmin a b ≤F m ≡ true
  fmin-le_right o a b m h = elim (Bool-cases (b <F a)) [
    | inl e ↦ rw (e) h
    | inr e ↦ rw (e) (o.le_trans a b m (not-lt-le o b a e) h)
  ]

  -- The difference to zero of a number that is not negative.
  pub neg_nonpos : IsRounded F → (a : F) → nought ≤F a ≡ true → nought -F a ≤F nought ≡ true
  neg_nonpos r a h =
      rw (r.sub_self nought) at (r.sub_mono nought nought a nought (r.le_refl nought) h)

  pub fabs_nonneg : IsRounded F → (a : F) → nought ≤F fabs a ≡ true
  fabs_nonneg r a = elim (Bool-cases (a <F nought)) [
    | inl e ↦ rw (e) (
        rw (r.sub_self nought) at
          (r.sub_mono nought nought nought a (r.le_refl nought) (lt-le r.ordered a nought e)))
    | inr e ↦ rw (e) (not-lt-le r.ordered a nought e)
  ]
