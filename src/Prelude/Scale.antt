-- ===== src/Prelude/Scale.antt =====
-- Products, quotients and literals of floats: what a theorem on a factor from 0 to 1 relies on, and
-- that numbers of thousandths meet it.
use native.Mathlib.Nat.{le-div_iff_mul-le, mul-div-le, mul-div_cancel}
use astra_meter.Prelude.{suc, ◌<◌, zero, ◌*◌, ◌^◌, ◌/◌, ◌≤◌, ◌≡◌, ℕ, true, arith}
use astra_meter.Prelude.Int.{ℤ, pos, negsuc, ◌+ℤ◌, ◌-ℤ◌, ◌*ℤ◌, leb_ℤ, ltb_ℤ, quot_ℤ}
use astra_meter.Prelude.Float.{
  milli_le, milli_float, Float, HasUnit, Milli, Milli-HasUnit, ◌<F◌, ◌≤F◌, ◌+F◌, ◌-F◌, ◌*F◌, ◌/F◌,
  nought, whole,
}

pub record IsScaling (F : Type 0) ⦃fl : Float F⦄ : Type 0 where
  pub unit : HasUnit F
  pub open unit use *
  pub sub_zero : (a : F) → a -F nought ≡ a
  pub mul_one : (a : F) → a *F whole 1 ≡ a
  pub mul_minus : (a : F) → a *F fl.of_int (negsuc 0) *F fl.of_int (negsuc 0) ≡ a
  -- A factor from 0 to 1 does not lead above a bound that is not negative.
  pub mul-le :
      (a r m : F)
      → a ≤F m ≡ true
      → nought ≤F m ≡ true
      → nought ≤F r ≡ true
      → r ≤F whole 1 ≡ true
      → a *F r ≤F m ≡ true
  pub mul_nonneg : (a b : F) → nought ≤F a ≡ true → nought ≤F b ≡ true → nought ≤F a *F b ≡ true
  pub add_nonneg : (a b : F) → nought ≤F b ≡ true → a ≤F a +F b ≡ true
  pub div_nonneg : (a b : F) → nought ≤F a ≡ true → nought <F b ≡ true → nought ≤F a /F b ≡ true
  pub decimal_mono : (m n k : ℕ) → m ≤ n → fl.decimal (pos m) k ≤F fl.decimal (pos n) k ≡ true
  pub decimal_whole : (n k : ℕ) → fl.decimal (pos (n * 10 ^ k)) k ≡ whole n

sub_zero_milli : (a : ℤ) → a -ℤ pos 0 *ℤ pos 1000 ≡ a
unfolding ◌-ℤ◌ ◌*ℤ◌
sub_zero_milli a = ground arith

mul_one_milli : (a : ℤ) → quot_ℤ (a *ℤ (pos 1 *ℤ pos 1000)) (pos 1000) ≡ a
unfolding quot_ℤ ◌*ℤ◌
mul_one_milli (pos a) = ground arith
mul_one_milli (negsuc a) = ground arith

mul_minus_milli :
    (a : ℤ)
    → quot_ℤ (quot_ℤ (a *ℤ (negsuc 0 *ℤ pos 1000)) (pos 1000) *ℤ (negsuc 0 *ℤ pos 1000)) (pos 1000)
      ≡ a
unfolding quot_ℤ ◌*ℤ◌
mul_minus_milli (pos a) = ground arith
mul_minus_milli (negsuc a) = ground arith

mul-le_milli :
    (a r m : ℤ)
    → leb_ℤ a m ≡ true
    → leb_ℤ (pos 0 *ℤ pos 1000) m ≡ true
    → leb_ℤ (pos 0 *ℤ pos 1000) r ≡ true
    → leb_ℤ r (pos 1 *ℤ pos 1000) ≡ true
    → leb_ℤ (quot_ℤ (a *ℤ r) (pos 1000)) m ≡ true
unfolding quot_ℤ ◌*ℤ◌
mul-le_milli (pos a) (pos r) (pos m) h k l n =
    ground (arith, milli_le a r m (ground arith) (ground arith))
mul-le_milli (negsuc a) (pos r) (pos m) h k l n = ground arith
mul-le_milli (pos a) (pos r) (negsuc m) h k l n = absurd (ground arith)
mul-le_milli (negsuc a) (pos r) (negsuc m) h k l n = absurd (ground arith)
mul-le_milli (pos a) (negsuc r) m h k l n = absurd (ground arith)
mul-le_milli (negsuc a) (negsuc r) m h k l n = absurd (ground arith)

mul_nonneg_milli :
    (a b : ℤ)
    → leb_ℤ (pos 0 *ℤ pos 1000) a ≡ true
    → leb_ℤ (pos 0 *ℤ pos 1000) b ≡ true
    → leb_ℤ (pos 0 *ℤ pos 1000) (quot_ℤ (a *ℤ b) (pos 1000)) ≡ true
unfolding quot_ℤ ◌*ℤ◌
mul_nonneg_milli (pos a) (pos b) h k = ground arith
mul_nonneg_milli (negsuc a) b h k = absurd (ground arith)
mul_nonneg_milli (pos a) (negsuc b) h k = absurd (ground arith)

add_nonneg_milli : (a b : ℤ) → leb_ℤ (pos 0 *ℤ pos 1000) b ≡ true → leb_ℤ a (a +ℤ b) ≡ true
unfolding ◌*ℤ◌ ◌+ℤ◌
add_nonneg_milli a b h = ground arith

div_nonneg_milli :
    (a b : ℤ)
    → leb_ℤ (pos 0 *ℤ pos 1000) a ≡ true
    → ltb_ℤ (pos 0 *ℤ pos 1000) b ≡ true
    → leb_ℤ (pos 0 *ℤ pos 1000) (quot_ℤ (a *ℤ pos 1000) b) ≡ true
unfolding quot_ℤ ◌*ℤ◌
div_nonneg_milli (pos a) (pos b) h k = ground arith
div_nonneg_milli (negsuc a) b h k = absurd (ground arith)
div_nonneg_milli (pos a) (negsuc b) h k = absurd (ground arith)

power-pos : (k : ℕ) → zero < 10 ^ k
power-pos zero = omega arith
power-pos (suc k) = grind (arith, power-pos k)

div_mono : (a b p : ℕ) → zero < p → a ≤ b → a / p ≤ b / p
div_mono a b p h k = (le-div_iff_mul-le h).1 (grind (arith, mul-div-le a p))

decimal_mono_milli :
    (m n k : ℕ)
    → m ≤ n
    → leb_ℤ (quot_ℤ (pos m *ℤ pos 1000) (pos (10 ^ k))) (quot_ℤ (pos n *ℤ pos 1000) (pos (10 ^ k)))
      ≡ true
unfolding quot_ℤ ◌*ℤ◌
decimal_mono_milli m n k h =
    ground (arith, div_mono (m * 1000) (n * 1000) (10 ^ k) (power-pos k) (omega (arith, h)))

decimal_whole_milli :
    (n k : ℕ) → quot_ℤ (pos (n * 10 ^ k) *ℤ pos 1000) (pos (10 ^ k)) ≡ pos n *ℤ pos 1000
unfolding quot_ℤ ◌*ℤ◌
decimal_whole_milli n k =
    let same : n * 10 ^ k * 1000 ≡ n * 1000 * 10 ^ k = omega arith in
    ground (arith, same, mul-div_cancel (n * 1000) (power-pos k))

pub Milli-IsScaling : IsScaling Milli
Milli-IsScaling = record {
  unit = Milli-HasUnit;
  sub_zero = sub_zero_milli;
  mul_one = mul_one_milli;
  mul_minus = mul_minus_milli;
  mul-le = mul-le_milli;
  mul_nonneg = mul_nonneg_milli;
  add_nonneg = add_nonneg_milli;
  div_nonneg = div_nonneg_milli;
  decimal_mono = decimal_mono_milli;
  decimal_whole = decimal_whole_milli;
}
