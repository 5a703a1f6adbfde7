-- ===== src/Wire/Numbers.antt =====
-- Numbers as the wire spells them: `str(n)`, `f"{n:02x}"`, and Python's `int` on an ASCII text.
use Prim.Native.Nat.{◌/◌, ◌%◌}
use astra_meter.Prelude.{
  ℕ, zero, suc, ◌+◌, ◌-◌, ◌*◌, Bool, true, ◌&&◌, ◌||◌, [], ◌∷◌, Option, none, some, ltb, leb, ◌==◌,
  if◌then◌else◌,
}
use astra_meter.Prelude.Int.{negsuc, ℤ, pos, neg}
use astra_meter.Prelude.Text.{Text}

-- The decimal digits of a number in front of `rest`; the fuel bounds how many there are.
unfoldable pub digits_onto : ℕ → ℕ → Text → Text
digits_onto zero n rest = rest
digits_onto (suc f) n rest =
    let here = (b'0' + n % 10) ∷ rest in
    let more = digits_onto f (n / 10) here in if ltb n 10 then here else more

-- `str(n)` for a number that is not negative.
unfoldable pub decimal : ℕ → Text
unfolding digits_onto
decimal n = digits_onto (suc n) n []

-- `str(n)`.
unfoldable pub decimal_ℤ : ℤ → Text
decimal_ℤ (pos n) = decimal n
decimal_ℤ (negsuc n) = b'-' ∷ decimal (suc n)

unfoldable pub hex_digit : ℕ → ℕ
hex_digit d = if ltb d 10 then b'0' + d else b'a' + (d - 10)

-- `f"{n:02x}"` for a byte.
unfoldable pub hex_byte : ℕ → Text
unfolding hex_digit
hex_byte n = hex_digit (n / 16) ∷ hex_digit (n % 16) ∷ []

unfoldable pub is_space : ℕ → Bool
is_space c = leb 9 c && leb c 13 || c == 32

unfoldable pub is_digit : ℕ → Bool
is_digit c = leb b'0' c && leb c b'9'

unfoldable pub skip_spaces : Text → Text
unfolding is_space
skip_spaces [] = []
skip_spaces (c ∷ s) = let rest = skip_spaces s in if is_space c then rest else c ∷ s

abbrev all_spaces : Text → Bool
all_spaces [] = true
all_spaces (c ∷ s) = is_space c && all_spaces s

-- After a digit: more digits, each behind one `_` at most, and then nothing but spaces. `count` is
-- the number of digits read.
unfoldable pub read_digits : ℕ → ℕ → Text → Option (ℕ × ℕ)
unfolding is_space is_digit
read_digits value count [] = some (value, count)
read_digits value count (c ∷ []) =
    if is_digit c
    then some (value * 10 + (c - b'0'), count + 1)
    else if is_space c
    then some (value, count)
    else none
read_digits value count (c ∷ d ∷ s) =
    let next = read_digits (value * 10 + (c - b'0')) (count + 1) (d ∷ s) in
    let after = read_digits (value * 10 + (d - b'0')) (count + 1) s in
    if is_digit c
    then next
    else if c == b'_'
    then (if is_digit d then after else none)
    else if is_space c && all_spaces (d ∷ s)
    then some (value, count)
    else none

-- A text of more digits than this is refused by `int`.
abbrev max_digits : ℕ
max_digits = 4300

read_number : Text → Option ℕ
unfolding is_digit read_digits
read_number [] = none
read_number (c ∷ s) =
    if is_digit c
    then elim (read_digits (c - b'0') 1 s) [
      | none ↦ none
      | some (value, count) ↦ if ltb max_digits count then none else some value
    ]
    else none

read_signed : Text → Option ℤ
unfolding read_number
read_signed [] = none
read_signed (c ∷ s) =
    if c == b'-'
    then elim (read_number s) [ none ↦ none | some n ↦ some (neg (pos n)) ]
    else elim (read_number (if c == b'+' then s else c ∷ s)) [ none ↦ none | some n ↦ some (pos n) ]

-- `int(s)` for an ASCII text; `none` is the `ValueError`.
unfoldable pub int_of : Text → Option ℤ
unfolding skip_spaces read_signed
int_of s = read_signed (skip_spaces s)
