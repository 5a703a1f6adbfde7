-- ===== src/Wire/RoundTrip.antt =====
-- `parse_request` reads back what `build_payload` writes.
use astra_meter.Prelude.{
  ℕ, suc, ◌+◌, ◌-◌, ◌≤◌, ◌<◌, ◌≡◌, refl, ap, ◌∙◌, true, false, List, [], ◌∷◌, ◌++◌, some, arith,
  leb, any, All, length, take, drop, length-append, take_append, drop_append, All-append,
}
use mathlib.Core.List.{append_assoc}
use native.Mathlib.Nat.{zero-add, suc-add}
use native.Mathlib.Decide.{dec_le}
use astra_meter.Prelude.Int.{pos}
use astra_meter.Prelude.Text.{Text, same}
use astra_meter.Wire.Numbers.{decimal, hex_byte, int_of}
use astra_meter.Wire.Datagram.{
  soh, stx, etx, separator, ok, join, framed, build_payload, split, find_separator,
  calculate_checksum, checksum_matches, fields, parse_from, parse_request,
}
use astra_meter.Wire.Digits.{
  decimal-IsNumeral, compute_length_fits, compute_length_too_large, length-decimal_pos,
}
use astra_meter.Wire.Split.{
  IsField, IsField-ascii, split-message, join_ascii, find_separator_append,
}
use astra_meter.Wire.Xor.{AreBytes, calculate_checksum-lt, checksum_matches-hex_byte_self}

-- A datagram with its parts named: the length field, the message behind it and the checksum.
abbrev datagram : Text → Text → Text → Text
datagram number message sum = (soh ∷ stx ∷ (number ++ (message ++ (etx ∷ [])))) ++ sum

-- The slices that the parser takes, at the length of the length field.
record Slices (number message sum : Text) : Type 0 where
  size : length (datagram number message sum) ≡ length number + length message + 3 + length sum
  head : take (length number) (drop 2 (datagram number message sum)) ≡ number
  body : take (length message) (drop (2 + length number) (datagram number message sum)) ≡ message
  mark : take 1 (drop (2 + length number + length message) (datagram number message sum)) ≡ etx ∷ []
  front :
      take (length number + length message + 3) (datagram number message sum)
      ≡ soh ∷ stx ∷ (number ++ (message ++ (etx ∷ [])))
  tail : drop (length number + length message + 3) (datagram number message sum) ≡ sum

nested :
    (number message sum : Text)
    → datagram number message sum ≡ soh ∷ stx ∷ (number ++ (message ++ (etx ∷ sum)))
nested number message sum = simp append_assoc

length-front :
    (number message : Text)
    → length (soh ∷ stx ∷ (number ++ (message ++ (etx ∷ [])))) ≡ length number + length message + 3
length-front number message =
    omega (arith, length-append number (message ++ (etx ∷ [])), length-append message (etx ∷ []))

drop_append_add {ℓ} :
    {A : Type ℓ} (xs ys : List A) (n : ℕ) → drop (length xs + n) (xs ++ ys) ≡ drop n ys
drop_append_add [] ys n = rw zero-add
drop_append_add (x ∷ xs) ys n = rw suc-add (drop_append_add xs ys n)

two_more : (n : ℕ) → 2 + n ≡ suc (suc n)
two_more n = omega arith

two_more_add : (n m : ℕ) → 2 + n + m ≡ suc (suc (n + m))
two_more_add n m = omega arith

datagram-Slices : (number message sum : Text) → Slices number message sum
datagram-Slices number message sum =
    let front = soh ∷ stx ∷ (number ++ (message ++ (etx ∷ []))) in
    record {
      size = omega (arith, length-append front sum, length-front number message);
      head = rw (nested number message sum) (take_append number _);
      body = rw (nested number message sum) (
          rw (two_more (length number))
            (rw (drop_append number (message ++ (etx ∷ sum))) (take_append message _)));
      mark = rw (nested number message sum) (
          rw (two_more_add (length number) (length message)) (
            rw
              (
                drop_append_add number (message ++ (etx ∷ sum)) (length message),
                drop_append message (etx ∷ sum),
              )
              refl));
      front = rw (← length-front number message) (take_append front sum);
      tail = rw (← length-front number message) (drop_append front sum);
    }

plus_two_sub : (n : ℕ) → 2 + n - 2 ≡ n
plus_two_sub n = omega arith

-- The checks behind the separator, as facts about the slices of a datagram.
record IsAccepted (d : Text) (size sep : ℕ) (head message : Text) : Type 0 where
  size_of : length d ≡ size
  head_slice : take (sep - 2) (drop 2 d) ≡ head
  head_ascii : any (λ c. leb 128 c) head ≡ false
  head_read : int_of head ≡ some (pos size)
  mark_slice : take 1 (drop (size - 3) d) ≡ etx ∷ []
  sum_ok :
      checksum_matches (drop (size - 2) d) (hex_byte (calculate_checksum (take (size - 2) d)))
      ≡ true
  message_slice : take (size - 3 - sep) (drop sep d) ≡ message
  message_ascii : any (λ c. leb 128 c) message ≡ false

parse_from_accepts :
    {d : Text} {size sep : ℕ} {head message : Text}
    → IsAccepted d size sep head message
    → parse_from d sep ≡ fields (split message).1
unfolding parse_from same
parse_from_accepts h =
    rw
      (
        h.head_slice, h.head_ascii, h.head_read, h.size_of, h.mark_slice, h.sum_ok, h.message_slice,
        h.message_ascii,
      )
      (ground arith)

parse_request_accepts :
    {s : Text} {size i : ℕ} {head message : Text}
    → let d = soh ∷ stx ∷ s in
      7 < length s
      → find_separator s ≡ some i
      → IsAccepted d size (2 + i) head message
      → parse_request d ≡ fields (split message).1
unfolding parse_request same
parse_request_accepts h e acc = rw e (rw (parse_from_accepts acc) (ground arith))

-- A well-formed datagram of at least ten bytes passes every check of the parser.
framed-IsAccepted :
    (message : Text) (total : ℕ)
    → any (λ c. leb 128 c) message ≡ false
    → total < 10_000
    → total ≡ length message + 5 + length (decimal total)
    → AreBytes (framed total message)
    → let payload = framed total message in
      IsAccepted
        (payload ++ hex_byte (calculate_checksum payload))
        total
        (2 + length (decimal total))
        (decimal total)
        message
unfolding framed hex_byte
framed-IsAccepted message total ascii small counted bytes =
    let number = decimal total in
    let numeral = decimal-IsNumeral total small in
    let payload = framed total message in
    let sum = hex_byte (calculate_checksum payload) in
    let s = datagram-Slices number message sum in
    let size : length (datagram number message sum) ≡ total = omega (arith, s.size) in
    record {
      size_of = size;
      head_slice = rw (plus_two_sub (length number)) s.head;
      head_ascii = IsField-ascii number numeral.clean;
      head_read = numeral.read;
      mark_slice =
          let at : total - 3 ≡ 2 + length number + length message = omega arith in rw at s.mark;
      sum_ok =
          let at : total - 2 ≡ length number + length message + 3 = omega arith in
          rw (at, s.tail, s.front)
            (checksum_matches-hex_byte_self _ (calculate_checksum-lt payload bytes));
      message_slice =
          let at : total - 3 - (2 + length number) ≡ length message = omega arith in rw at s.body;
      message_ascii = ascii;
    }

IsField-AreBytes : (f : Text) → any (λ c. leb 128 c) f ≡ false → AreBytes f
IsField-AreBytes [] h = tt
IsField-AreBytes (c ∷ f) h = ground (arith, IsField-AreBytes f)

framed-AreBytes :
    (message : Text) (total : ℕ)
    → any (λ c. leb 128 c) message ≡ false
    → total < 10_000
    → AreBytes (framed total message)
unfolding framed
framed-AreBytes message total ascii small =
    let number = decimal total in
    let numeral = decimal-IsNumeral total small in
    let ascii_number = IsField-AreBytes number (IsField-ascii number numeral.clean) in
    let behind =
      All-append (λ b. b < 256) message (etx ∷ []) (IsField-AreBytes message ascii) (omega arith) in
    (omega arith, (omega arith, All-append (λ b. b < 256) number _ ascii_number behind))

pub length-hex_byte : (n : ℕ) → length (hex_byte n) ≡ 2
unfolding hex_byte
length-hex_byte n = refl

-- The message of a list of fields.
abbrev pub message_of : List Text → Text
message_of fs = separator ∷ join fs

-- What `build_payload` returns for fields that it can send.
pub build_payload-framed :
    (f : Text) (fs : List Text)
    → All IsField (f ∷ fs)
    → length (message_of (f ∷ fs)) ≤ 9990
    → (total : ℕ) × (total < 10_000)
      × (total ≡ length (message_of (f ∷ fs)) + 5 + length (decimal total))
      × (let payload = framed total (message_of (f ∷ fs)) in
          build_payload (f ∷ fs) ≡ ok (payload ++ hex_byte (calculate_checksum payload)))
unfolding build_payload
build_payload-framed f fs sendable short =
    let (total, found, counted, small) = compute_length_fits (length (message_of (f ∷ fs))) short in
    (total, small, counted, rw (join_ascii f fs sendable, found))

-- A list of fields that are ASCII, hold no separator and make a message of 4 to 9990 bytes is built
-- into a datagram, and the datagram is parsed into the same fields.
pub parse_request-build_payload :
    (f : Text) (fs : List Text)
    → All IsField (f ∷ fs)
    → 4 ≤ length (message_of (f ∷ fs))
    → length (message_of (f ∷ fs)) ≤ 9990
    → (d : Text) × (build_payload (f ∷ fs) ≡ ok d) × (parse_request d ≡ fields (f ∷ fs))
parse_request-build_payload f fs sendable long short =
    let message = message_of (f ∷ fs) in
    let (total, small, counted, built) = build_payload-framed f fs sendable short in
    let ascii = join_ascii f fs sendable in
    let accepted =
      framed-IsAccepted message total ascii small counted
        (framed-AreBytes message total ascii small) in
    let number = decimal total in
    let numeral = decimal-IsNumeral total small in
    let behind = message ++ (etx ∷ []) in
    let sum = hex_byte (calculate_checksum (framed total message)) in
    let found : find_separator ((number ++ behind) ++ sum) ≡ some (length number) =
      rw append_assoc (find_separator_append number _ numeral.clean) in
    let long_rest : 7 < length ((number ++ behind) ++ sum) = omega (
      arith,
      length-append (number ++ behind) sum,
      length-append number behind,
      length-append message (etx ∷ []),
      length-decimal_pos total (omega arith),
      length-hex_byte (calculate_checksum (framed total message)),
    ) in
    (
      _,
      built,
      unfold framed in
          parse_request_accepts long_rest found accepted ∙ ap fields (split-message f fs sendable),
    )

-- What every datagram of `build_payload` ends in.
pub build_payload-ends :
    (fs : List Text) {d : Text}
    → build_payload fs ≡ ok d
    → (s : Text) × (d ≡ s ++ hex_byte (calculate_checksum s)) × AreBytes s
unfolding build_payload
build_payload-ends fs {d} h =
    let message = message_of fs in
    let ascii : any (λ c. leb 128 c) message ≡ false = ground arith in
    elim (dec_le (length message) 9990) [
      | yes short ↦
          let (total, found, counted, small) = compute_length_fits (length message) short in
          (framed total message, ground (arith, found), framed-AreBytes message total ascii small)
      | no long ↦ absurd (ground (arith, compute_length_too_large (length message)))
    ]
