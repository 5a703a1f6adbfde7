-- ===== src/Wire/Corruption.antt =====
-- What an accepted datagram must satisfy, and that no single wrong byte before the checksum passes.
use astra_meter.Prelude.{
  ℕ, zero, suc, ◌+◌, ◌-◌, ◌≤◌, ◌<◌, ◌≡◌, ◌≢◌, refl, sym, ap, ◌∙◌, inl, inr, true, Option-cases,
  List, [], ◌∷◌, ◌++◌, some, arith, length, take, drop, set, get_elem?, length-append, take_append,
  drop_append,
}
use astra_meter.Prelude.Text.{Text, same, same→eq}
use astra_meter.Wire.Numbers.{hex_byte}
use astra_meter.Wire.Datagram.{
  soh, stx, etx, ok, build_payload, calculate_checksum, checksum_matches, fields, find_separator,
  parse_from, parse_request,
}
use astra_meter.Wire.RoundTrip.{length-hex_byte, build_payload-ends}
use astra_meter.Wire.Xor.{
  AreBytes, calculate_checksum-lt, calculate_checksum-set_ne, checksum_matches-hex_byte_ne,
}

-- The checks that a datagram with these fields has passed.
pub record IsGenuine (d : Text) : Type 0 where
  pub long : 10 ≤ length d
  pub start : take 2 d ≡ soh ∷ stx ∷ []
  pub mark : take 1 (drop (length d - 3) d) ≡ etx ∷ []
  pub sum :
      checksum_matches
        (drop (length d - 2) d)
        (hex_byte (calculate_checksum (take (length d - 2) d)))
      ≡ true

parse_from_checks :
    (d : Text) (sep : ℕ) {fs : List Text}
    → parse_from d sep ≡ fields fs
    → (same (take 1 (drop (length d - 3) d)) (etx ∷ []) ≡ true)
      × (checksum_matches
            (drop (length d - 2) d)
            (hex_byte (calculate_checksum (take (length d - 2) d)))
          ≡ true)
unfolding parse_from
parse_from_checks d sep h = ground arith

-- A datagram that is parsed into fields is at least ten bytes long, starts with SOH and STX, has ETX
-- in front of its last two bytes, and those match the checksum of all bytes before them.
pub parse_request-IsGenuine :
    (d : Text) {fs : List Text} → parse_request d ≡ fields fs → IsGenuine d
unfolding parse_request
parse_request-IsGenuine d {fs} h = elim (Option-cases (find_separator (drop 2 d))) [
  | inl e ↦ absurd (ground arith)
  | inr (i, e) ↦
      let passed : parse_from d (2 + i) ≡ fields fs = ground arith in
      let checks = parse_from_checks d (2 + i) passed in
      record {
        long = ground arith;
        start = same→eq _ _ (ground arith);
        mark = same→eq _ _ (ground (arith, checks));
        sum = ground (arith, checks);
      }
]

set_append {ℓ} :
    {A : Type ℓ} (xs ys : List A) (i : ℕ) (c : A)
    → i < length xs
    → set (xs ++ ys) i c ≡ set xs i c ++ ys
set_append [] ys i c h = elim h [ ]
set_append (x ∷ xs) ys zero c h = refl
set_append (x ∷ xs) ys (suc i) c h = ap (◌∷◌ x) (set_append xs ys i c (omega arith))

length-set {ℓ} : {A : Type ℓ} (xs : List A) (i : ℕ) (c : A) → length (set xs i c) ≡ length xs
length-set [] i c = refl
length-set (x ∷ xs) zero c = refl
length-set (x ∷ xs) (suc i) c = ap suc (length-set xs i c)

get_elem?-append {ℓ} :
    {A : Type ℓ} (xs ys : List A) (i : ℕ) → i < length xs → get_elem? (xs ++ ys) i ≡ get_elem? xs i
get_elem?-append [] ys i h = elim h [ ]
get_elem?-append (x ∷ xs) ys zero h = refl
get_elem?-append (x ∷ xs) ys (suc i) h = get_elem?-append xs ys i (omega arith)

set-AreBytes : (s : Text) (i c : ℕ) → AreBytes s → c < 256 → AreBytes (set s i c)
set-AreBytes [] i c h k = tt
set-AreBytes (b ∷ s) zero c h k = (k, h.1)
set-AreBytes (b ∷ s) (suc i) c h k = (h.0, set-AreBytes s i c h.1 k)

-- The sum at the end of a text of two more bytes.
sum_ends :
    (s sum : Text)
    → length sum ≡ 2
    → (take (length (s ++ sum) - 2) (s ++ sum) ≡ s)
      × (drop (length (s ++ sum) - 2) (s ++ sum) ≡ sum)
sum_ends s sum h =
    let at : length (s ++ sum) - 2 ≡ length s = omega (arith, length-append s sum) in
    (rw at (take_append s sum), rw at (drop_append s sum))

-- The checksum of a text does not fit once a byte of the text is another.
changed_refused :
    (s : Text) (i b c : ℕ) {gs : List Text}
    → AreBytes s
    → get_elem? s i ≡ some b
    → b ≢ c
    → c < 256
    → parse_request (set s i c ++ hex_byte (calculate_checksum s)) ≢ fields gs
changed_refused s i b c bytes found ne small = λ accepted.
    let t = set s i c in
    let sum = hex_byte (calculate_checksum s) in
    let passed = (parse_request-IsGenuine (t ++ sum) accepted).sum in
    let (front, back) = sum_ends t sum (length-hex_byte (calculate_checksum s)) in
    let other = calculate_checksum-set_ne s i b c bytes small found ne in
    let mismatch =
      checksum_matches-hex_byte_ne (calculate_checksum s) (calculate_checksum t)
        (calculate_checksum-lt s bytes) (calculate_checksum-lt t (set-AreBytes s i c bytes small))
        (λ e. other (sym e)) in
    cc (rw (front, back) at passed, mismatch)

-- A datagram that `build_payload` made is refused once one of its bytes before the checksum has been
-- replaced by another byte.
pub parse_request-corrupted :
    (fs gs : List Text) (d : Text) (i b c : ℕ)
    → build_payload fs ≡ ok d
    → i + 2 < length d
    → get_elem? d i ≡ some b
    → b ≢ c
    → c < 256
    → parse_request (set d i c) ≢ fields gs
parse_request-corrupted fs gs d i b c built inside found ne small =
    let (s, whole, bytes) = build_payload-ends fs built in
    let sum = hex_byte (calculate_checksum s) in
    let early : i < length s =
      omega (arith, ap length whole, length-append s sum, length-hex_byte (calculate_checksum s)) in
    let found_s : get_elem? s i ≡ some b =
      sym (get_elem?-append s sum i early) ∙ ap (λ t. get_elem? t i) (sym whole) ∙ found in
    rw (whole, set_append s sum i c early) (changed_refused s i b c bytes found_s ne small)
