-- ===== src/Wire/Datagram.antt =====
-- Requests and replies of src/astrameter/ct002/protocol.py as lists of bytes.
use astra_meter.Prelude.{
  ℕ, zero, suc, ◌+◌, ◌-◌, Bool, ◌&&◌, ◌||◌, not, List, [], ◌∷◌, ◌++◌, Option, none, some, ltb, leb,
  ◌==◌, if◌then◌else◌, length, take, drop, bit_xor, any,
}
use astra_meter.Prelude.Int.{ℤ, pos, eqb_ℤ}
use astra_meter.Prelude.Text.{Text, same, lower, starts_with, text}
use astra_meter.Wire.Numbers.{decimal, hex_byte, int_of}

abbrev pub soh : ℕ
soh = 0x01

abbrev pub stx : ℕ
stx = 0x02

abbrev pub etx : ℕ
etx = 0x03

abbrev pub separator : ℕ
separator = b'|'

-- `is_reader_mac`.
unfoldable pub is_reader_mac : Text → Bool
is_reader_mac mac = starts_with (lower mac) (text "02a57e")

unfoldable pub checksum_from : ℕ → Text → ℕ
checksum_from xor [] = xor
checksum_from xor (b ∷ bytes) = checksum_from (bit_xor xor b) bytes

unfoldable pub calculate_checksum : Text → ℕ
unfolding checksum_from
calculate_checksum = checksum_from 0

-- `parse_int` of a text, `default` where it denotes no number.
unfoldable pub parse_int : Text → ℤ → ℤ
parse_int value default = elim (int_of value) [ none ↦ default | some n ↦ n ]

pub data Error : Type 0 where
  -- `ValueError("Payload length too large")`
  too_large : Error
  -- `UnicodeEncodeError`
  not_ascii : Error

pub data Result (A : Type 0) : Type 0 where
  ok : A → Result A
  err : Error → Result A

infixl 5 ◌>>=◌
abbrev pub ◌>>=◌ : {A B : Type 0} → Result A → (A → Result B) → Result B
ok a >>= f = f a
err e >>= f = err e

-- The loop of `compute_length`, with the rounds that are left and the digits tried.
unfoldable pub try_lengths : ℕ → ℕ → ℕ → Result ℕ
try_lengths zero length_digits base_size = err too_large
try_lengths (suc left) length_digits base_size =
    let total_length = base_size + length_digits in
    let later = try_lengths left (length_digits + 1) base_size in
    if length (decimal total_length) == length_digits then ok total_length else later

-- `compute_length`, given the length of the payload.
unfoldable pub compute_length : ℕ → Result ℕ
unfolding try_lengths
compute_length payload = try_lengths 4 1 (1 + 1 + payload + 1 + 2)

-- `SEPARATOR.join(fields)`.
unfoldable pub join : List Text → Text
join [] = []
join (f ∷ []) = f
join (f ∷ g ∷ fields) = f ++ (separator ∷ join (g ∷ fields))

-- `s.encode("ascii")`.
unfoldable pub encode : Text → Result Text
encode s = if any (λ c. leb 128 c) s then err not_ascii else ok s

-- The datagram up to the checksum.
unfoldable pub framed : ℕ → Text → Text
framed total_length message = soh ∷ stx ∷ (decimal total_length ++ (message ++ (etx ∷ [])))

unfoldable pub build_payload : List Text → Result Text
unfolding join encode framed
build_payload fields = do
  message ← encode (separator ∷ join fields)
  total_length ← compute_length (length message)
  let payload = framed total_length message
  ok (payload ++ hex_byte (calculate_checksum payload))

-- `data.find(b"|")`, counted from the start of what is given.
unfoldable pub find_separator : Text → Option ℕ
find_separator [] = none
find_separator (c ∷ s) =
    if c == separator
    then some 0
    else elim (find_separator s) [ none ↦ none | some i ↦ some (suc i) ]

-- `s.split("|")`, which is never empty: the text up to the first separator, and the others.
unfoldable pub split : Text → Text × List Text
split [] = ([], [])
split (c ∷ s) =
    let rest = split s in if c == separator then ([], rest.0 ∷ rest.1) else (c ∷ rest.0, rest.1)

pub data Refusal : Type 0 where
  too_short missing_start no_separator invalid_length : Refusal
  length_mismatch missing_etx checksum_mismatch invalid_ascii : Refusal

pub data Parsed : Type 0 where
  fields : List Text → Parsed
  refused : Refusal → Parsed

-- Whether the two bytes at the end stand for the checksum. Some firmware sends a space in place of
-- the high digit.
unfoldable pub checksum_matches : Text → Text → Bool
checksum_matches actual expected =
    same (lower actual) expected
    || (same (take 1 actual) (text " ") && same (lower (drop 1 actual)) (drop 1 expected))

-- From the separator on: the length field, and the checks that follow it.
unfoldable pub parse_from : Text → ℕ → Parsed
parse_from datagram sep_index =
    let size = length datagram in
    let head = take (sep_index - 2) (drop 2 datagram) in
    let message = take (size - 3 - sep_index) (drop sep_index datagram) in
    if any (λ c. leb 128 c) head then refused invalid_length else elim (int_of head) [
      | none ↦ refused invalid_length
      | some n ↦
          if not (eqb_ℤ (pos size) n)
          then refused length_mismatch
          else if not (same (take 1 (drop (size - 3) datagram)) (etx ∷ []))
          then refused missing_etx
          else if not (
              checksum_matches (drop (size - 2) datagram)
                (hex_byte (calculate_checksum (take (size - 2) datagram))))
          then refused checksum_mismatch
          else if any (λ c. leb 128 c) message
          then refused invalid_ascii
          else fields (split message).1
    ]

unfoldable pub parse_request : Text → Parsed
unfolding parse_from
parse_request datagram =
    if ltb (length datagram) 10
    then refused too_short
    else if not (same (take 2 datagram) (soh ∷ stx ∷ []))
    then refused missing_start
    else elim (find_separator (drop 2 datagram)) [
      | none ↦ refused no_separator
      | some i ↦ parse_from datagram (2 + i)
    ]
