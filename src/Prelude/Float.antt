-- ===== src/Prelude/Float.antt =====
-- Python floats. The language has none, so the operations that the program uses are an interface,
-- with the laws of correctly rounded arithmetic away from NaN that a theorem relies on. Integers
-- counted in thousandths meet it, and the tests run on those.
use native.Mathlib.Nat.{le_refl}
use astra_meter.Prelude.{
  ◌+◌, ltb, ◌%◌, refl, ◌*◌, ◌≤◌, ◌≢◌, ℕ, zero, suc, ◌/◌, ◌^◌, ◌≡◌, ◌⊎◌, Bool, true, not, arith,
  if◌then◌else◌,
}
use astra_meter.Prelude.Int.{neg, ℤ, pos, negsuc, pos_part, ◌+ℤ◌, ◌-ℤ◌, ◌*ℤ◌, ltb_ℤ, leb_ℤ, quot_ℤ}

pub record Float (F : Type 0) : Type 0 where
  -- An integer as a float, and the literal m / 10^k.
  pub of_int : ℤ → F
  pub decimal : ℤ → ℕ → F
  pub add : F → F → F
  pub sub : F → F → F
  pub mul : F → F → F
  pub div : F → F → F
  pub pow : F → F → F
  pub lt : F → F → Bool
  pub le : F → F → Bool
  -- `int(x)`: the part before the point.
  pub truncate : F → ℤ
  -- `round(x)` and `round(x, k)`.
  pub round : F → ℤ
  pub round_to : ℕ → F → F

infix 50 ◌<F◌ ◌≤F◌
abbrev pub ◌<F◌ : {F : Type 0} ⦃fl : Float F⦄ → F → F → Bool
◌<F◌ ⦃fl⦄ = fl.lt

abbrev pub ◌≤F◌ : {F : Type 0} ⦃fl : Float F⦄ → F → F → Bool
◌≤F◌ ⦃fl⦄ = fl.le

infixl 65 ◌+F◌ ◌-F◌
infixl 70 ◌*F◌ ◌/F◌
abbrev pub ◌+F◌ : {F : Type 0} ⦃fl : Float F⦄ → F → F → F
◌+F◌ ⦃fl⦄ = fl.add

abbrev pub ◌-F◌ : {F : Type 0} ⦃fl : Float F⦄ → F → F → F
◌-F◌ ⦃fl⦄ = fl.sub

abbrev pub ◌*F◌ : {F : Type 0} ⦃fl : Float F⦄ → F → F → F
◌*F◌ ⦃fl⦄ = fl.mul

abbrev pub ◌/F◌ : {F : Type 0} ⦃fl : Float F⦄ → F → F → F
◌/F◌ ⦃fl⦄ = fl.div

module _ {F : Type 0} ⦃fl : Float F⦄ where
  -- A literal without digits after the point.
  abbrev pub whole : ℕ → F
  whole n = fl.of_int (pos n)

  abbrev pub nought : F
  nought = fl.of_int (pos 0)

  -- `max(a, b)`, `min(a, b)` and `abs(a)` as Python computes them.
  abbrev pub fmax : F → F → F
  fmax a b = if a <F b then b else a

  abbrev pub fmin : F → F → F
  fmin a b = if b <F a then b else a

  abbrev pub fabs : F → F
  fabs a = if a <F nought then nought -F a else a

-- The order of the floats that are not NaN.
pub record IsOrdered (F : Type 0) ⦃fl : Float F⦄ : Type 0 where
  pub le_refl : (a : F) → a ≤F a ≡ true
  pub le_trans : (a b c : F) → a ≤F b ≡ true → b ≤F c ≡ true → a ≤F c ≡ true
  pub le_total : (a b : F) → (a ≤F b ≡ true) ⊎ (b ≤F a ≡ true)
  pub lt-eq-not-le : (a b : F) → a <F b ≡ not (b ≤F a)

-- Subtraction that rounds correctly keeps the order.
pub record IsRounded (F : Type 0) ⦃fl : Float F⦄ : Type 0 where
  pub ordered : IsOrdered F
  pub open ordered use *
  pub sub_mono : (a b c d : F) → a ≤F b ≡ true → d ≤F c ≡ true → a -F c ≤F b -F d ≡ true
  -- What lies below a rounded difference lies below the exact one.
  pub sub_swap : (a b c : F) → a <F b -F c ≡ true → c ≤F b -F a ≡ true
  pub sub_self : (a : F) → a -F a ≡ nought

-- A power of a number from 0 to 1, and a product with one.
pub record IsDecaying (F : Type 0) ⦃fl : Float F⦄ : Type 0 where
  pub rounded : IsRounded F
  pub open rounded use *
  pub of_int_mono : (a b : ℤ) → leb_ℤ a b ≡ true → fl.of_int a ≤F fl.of_int b ≡ true
  pub mul-pow-le :
      (p d r : F)
      → nought ≤F p ≡ true
      → nought ≤F d ≡ true
      → d ≤F whole 1 ≡ true
      → nought ≤F r ≡ true
      → p *F fl.pow d r ≤F p ≡ true

-- What a division by one gives.
pub record HasUnit (F : Type 0) ⦃fl : Float F⦄ : Type 0 where
  pub decaying : IsDecaying F
  pub open decaying use *
  pub div_one : (a : F) → a /F whole 1 ≡ a

-- Numbers of thousandths.
abbrev pub Milli : Type 0
Milli = ℤ

abbrev pub milli_pow : ℕ → ℤ → ℤ
milli_pow zero a = pos 1000
milli_pow (suc n) a = quot_ℤ (a *ℤ milli_pow n a) (pos 1000)

-- Rounding to a multiple of m, half to even.
abbrev round_half : ℕ → ℕ → ℕ
round_half m a =
    let q = a / m in
    let r = a % m in if ltb (2 * r) m then q else if ltb m (2 * r) then q + 1 else q + q % 2

abbrev milli_round : ℕ → ℤ → ℤ
milli_round m (pos a) = pos (round_half m a)
milli_round m (negsuc a) = neg (pos (round_half m (suc a)))

instance abbrev pub milli_float : Float Milli
milli_float = record {
  of_int = λ a. a *ℤ pos 1000;
  decimal = λ m k. quot_ℤ (m *ℤ pos 1000) (pos (10 ^ k));
  add = ◌+ℤ◌;
  sub = ◌-ℤ◌;
  mul = λ a b. quot_ℤ (a *ℤ b) (pos 1000);
  div = λ a b. quot_ℤ (a *ℤ pos 1000) b;
  pow = λ a b. milli_pow (pos_part b / 1000) a;
  lt = ltb_ℤ;
  le = leb_ℤ;
  truncate = λ a. quot_ℤ a (pos 1000);
  round = milli_round 1000;
  round_to = λ k a. milli_round (1000 / 10 ^ k) a *ℤ pos (1000 / 10 ^ k);
}

pub Milli-IsOrdered : IsOrdered Milli
Milli-IsOrdered = ground arith

sub_mono_milli :
    (a b c d : ℤ) → leb_ℤ a b ≡ true → leb_ℤ d c ≡ true → leb_ℤ (a -ℤ c) (b -ℤ d) ≡ true
unfolding ◌-ℤ◌
sub_mono_milli a b c d h k = ground arith

sub_swap_milli : (a b c : ℤ) → ltb_ℤ a (b -ℤ c) ≡ true → leb_ℤ c (b -ℤ a) ≡ true
unfolding ◌-ℤ◌
sub_swap_milli a b c h = ground arith

sub_self_milli : (a : ℤ) → a -ℤ a ≡ pos 0 *ℤ pos 1000
unfolding ◌-ℤ◌ ◌*ℤ◌
sub_self_milli a = ground arith

pub Milli-IsRounded : IsRounded Milli
Milli-IsRounded = record {
  ordered = Milli-IsOrdered;
  sub_mono = sub_mono_milli;
  sub_swap = sub_swap_milli;
  sub_self = sub_self_milli;
}

quot-mul : (a m : ℕ) → quot_ℤ (pos a *ℤ pos m) (pos 1000) ≡ pos (a * m / 1000)
unfolding quot_ℤ ◌*ℤ◌
quot-mul a m = ground arith

pub milli_le : (a m b : ℕ) → a ≤ b → m ≤ 1000 → a * m / 1000 ≤ b
milli_le a m b h k = let product : a * m ≤ b * 1000 = grind arith in omega arith

milli_pow-le : (n a : ℕ) → a ≤ 1000 → (b : ℕ) × (milli_pow n (pos a) ≡ pos b) × (b ≤ 1000)
milli_pow-le zero a h = (1000, refl, omega arith)
milli_pow-le (suc n) a h =
    let (m, e, k) = milli_pow-le n a h in (a * m / 1000, rw e (quot-mul a m), milli_le a m 1000 h k)

of_int_mono_milli : (a b : ℤ) → leb_ℤ a b ≡ true → leb_ℤ (a *ℤ pos 1000) (b *ℤ pos 1000) ≡ true
unfolding ◌*ℤ◌
of_int_mono_milli a b h = ground arith

thousandth :
    (d : ℤ)
    → leb_ℤ (pos 0 *ℤ pos 1000) d ≡ true
    → leb_ℤ d (pos 1 *ℤ pos 1000) ≡ true
    → (a : ℕ) × (d ≡ pos a) × (a ≤ 1000)
unfolding ◌*ℤ◌
thousandth (pos a) h k = (a, refl, ground arith)
thousandth (negsuc a) h k = absurd (ground arith)

not_negative : (p : ℕ) → leb_ℤ (pos 0 *ℤ pos 1000) (negsuc p) ≢ true
unfolding ◌*ℤ◌
not_negative p h = ground arith

mul-pow-le_milli :
    (p d r : ℤ)
    → leb_ℤ (pos 0 *ℤ pos 1000) p ≡ true
    → leb_ℤ (pos 0 *ℤ pos 1000) d ≡ true
    → leb_ℤ d (pos 1 *ℤ pos 1000) ≡ true
    → leb_ℤ (pos 0 *ℤ pos 1000) r ≡ true
    → leb_ℤ (quot_ℤ (p *ℤ milli_pow (pos_part r / 1000) d) (pos 1000)) p ≡ true
mul-pow-le_milli (pos p) d r hp hd kd hr =
    let (a, e, small) = thousandth d hd kd in
    let (m, power, bound) = milli_pow-le (pos_part r / 1000) a small in
    rw (e, power, quot-mul p m) (ground (arith, milli_le p m p (le_refl p) bound))
mul-pow-le_milli (negsuc p) d r hp hd kd hr = absurd (not_negative p hp)

pub Milli-IsDecaying : IsDecaying Milli
Milli-IsDecaying = record {
  rounded = Milli-IsRounded;
  of_int_mono = of_int_mono_milli;
  mul-pow-le = mul-pow-le_milli;
}

div_one_milli : (a : ℤ) → quot_ℤ (a *ℤ pos 1000) (pos 1 *ℤ pos 1000) ≡ a
unfolding ◌*ℤ◌ quot_ℤ
div_one_milli (pos a) = ground arith
div_one_milli (negsuc a) = ground arith

pub Milli-HasUnit : HasUnit Milli
Milli-HasUnit = record { decaying = Milli-IsDecaying; div_one = div_one_milli }
