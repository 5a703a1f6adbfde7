-- ===== src/Wire/Digits.antt =====
-- Numbers of up to four decimal digits, as written by `decimal` and read by `int_of`.
use native.Mathlib.Decide.{dec_le}
use native.Mathlib.Nat.{pow-suc}
use astra_meter.Prelude.{
  ℕ, zero, suc, ◌+◌, ◌^◌, ◌/◌, ◌%◌, ◌≤◌, ◌<◌, ◌≡◌, refl, Bool, true, false, ◌&&◌, ◌||◌, not, [],
  ◌∷◌, none, some, arith, ltb, leb, ◌==◌, length, any,
}
use astra_meter.Prelude.Int.{pos, eqb_ℤ}
use astra_meter.Prelude.Table.{each_below, passes_of_each_below}
use astra_meter.Prelude.Text.{Text}
use astra_meter.Wire.Numbers.{decimal, digits_onto, int_of}
use astra_meter.Wire.Datagram.{Result, ok, err, too_large, compute_length, separator}

-- What is needed of `decimal n`: it is read back, and holds digits only.
reads_back : ℕ → Bool
reads_back n =
    elim (int_of (decimal n)) [ none ↦ false | some m ↦ eqb_ℤ m (pos n) ]
    && not (any (λ c. leb 128 c || c == separator) (decimal n))

below_table : each_below reads_back 10_000 ≡ true
unfolding each_below reads_back decimal int_of
below_table = refl

-- Numbers that a datagram's length field may hold.
pub record IsNumeral (n : ℕ) : Type 0 where
  pub read : int_of (decimal n) ≡ some (pos n)
  pub clean : any (λ c. leb 128 c || c == separator) (decimal n) ≡ false

pub decimal-IsNumeral : (n : ℕ) → n < 10_000 → IsNumeral n
unfolding reads_back
decimal-IsNumeral n h =
    let found = passes_of_each_below reads_back n h below_table in
    record { read = ground (arith, found); clean = ground (arith, found) }

digits_onto-le : (f n : ℕ) (rest : Text) → length rest ≤ length (digits_onto f n rest)
unfolding digits_onto
digits_onto-le zero n rest = omega arith
digits_onto-le (suc f) n rest = ground (arith, digits_onto-le f (n / 10) ((b'0' + n % 10) ∷ rest))

pow_pos : (k : ℕ) → 0 < 10 ^ k
pow_pos zero = omega arith
pow_pos (suc k) = omega (arith, pow-suc 10 k, pow_pos k)

digits_onto-lt :
    (k f n : ℕ) (rest : Text) → 10 ^ k ≤ n → k < f → length rest + k < length (digits_onto f n rest)
unfolding digits_onto
digits_onto-lt k zero n rest h lt = elim lt [ ]
digits_onto-lt zero (suc f) n rest h lt =
    ground (arith, digits_onto-le f (n / 10) ((b'0' + n % 10) ∷ rest))
digits_onto-lt (suc k) (suc f) n rest h lt =
    let step : 10 ^ k ≤ n / 10 = omega (arith, pow-suc 10 k) in
    let pos_power = pow_pos k in
    ground (arith, digits_onto-lt k f (n / 10) ((b'0' + n % 10) ∷ rest) step (omega arith))

length-decimal-gt : (n : ℕ) → 10_000 ≤ n → 4 < length (decimal n)
unfolding decimal
length-decimal-gt n h = digits_onto-lt 4 (suc n) n [] h (omega arith)

pub length-decimal_pos : (n : ℕ) → 0 < n → 0 < length (decimal n)
unfolding decimal
length-decimal_pos n h = digits_onto-lt 0 (suc n) n [] (omega arith) (omega arith)

digits_min : (n : ℕ) → 1000 ≤ n → 3 < length (decimal n)
unfolding decimal
digits_min n h = digits_onto-lt 3 (suc n) n [] h (omega arith)

-- Up to 9990 bytes of payload the length is found, and above that there is none.
fits : ℕ → Bool
fits payload = elim (compute_length payload) [
  | err e ↦ false
  | ok total ↦ total == payload + 5 + length (decimal total) && ltb total 10_000
]

fits_table : each_below fits 9991 ≡ true
unfolding each_below fits compute_length decimal
fits_table = refl

-- A payload of up to 9990 bytes has a length: five more than the payload and the number of digits
-- that the length itself is written with, and below 10000.
pub compute_length_fits :
    (payload : ℕ)
    → payload ≤ 9990
    → (total : ℕ) × (compute_length payload ≡ ok total)
      × (total ≡ payload + 5 + length (decimal total))
      × (total < 10_000)
unfolding fits
compute_length_fits payload h = go (compute_length payload) refl
  where
    go :
        (r : Result ℕ)
        → compute_length payload ≡ r
        → (total : ℕ) × (compute_length payload ≡ ok total)
          × (total ≡ payload + 5 + length (decimal total))
          × (total < 10_000)
    go (ok total) e =
        let found = passes_of_each_below fits payload (omega arith) fits_table in
        (total, e, ground (arith, found), ground (arith, found))
    go (err _) e = cc (passes_of_each_below fits payload (omega arith) fits_table)

-- A payload of more than 9990 bytes has no length of up to four digits, and is refused as too large.
pub compute_length_too_large :
    (payload : ℕ) → 9990 < payload → compute_length payload ≡ err too_large
unfolding compute_length
compute_length_too_large payload h = ground (
  arith,
  length-decimal-gt (1 + 1 + payload + 1 + 2 + 4),
  digits_min (1 + 1 + payload + 1 + 2 + 1),
  digits_min (1 + 1 + payload + 1 + 2 + 2),
  digits_min (1 + 1 + payload + 1 + 2 + 3),
)

-- A length, with what it counts, or the refusal.
pub data IsMeasured (payload : ℕ) : Result ℕ → Type 0 where
  measured :
      (total : ℕ)
      → payload ≤ 9990
      → total ≡ payload + 5 + length (decimal total)
      → total < 10_000
      → IsMeasured payload (ok total)
  too_long : 9990 < payload → IsMeasured payload (err too_large)

-- Every payload of up to 9990 bytes has a length, which is below 10000: five more than the payload and
-- the number of digits that the length itself is written with. A longer one is refused as too large.
pub compute_length_lem : (payload : ℕ) → IsMeasured payload (compute_length payload)
compute_length_lem payload = elim (dec_le payload 9990) [
  | yes short ↦
      let (total, found, counted, small) = compute_length_fits payload short in
      rw found (measured total short counted small)
  | no long ↦
      let beyond : 9990 < payload = omega (arith, long) in
      rw (compute_length_too_large payload beyond) (too_long beyond)
]
