-- ===== src/Wire/Xor.antt =====
-- Checksums over bytes: `^` undoes itself, so a checksum tells two texts apart that differ in one
-- byte, and its two hexadecimal digits tell two checksums apart.
use astra_meter.Prelude.{
  ℕ, zero, suc, ◌<◌, ◌≡◌, ◌≢◌, refl, Bool, true, false, ◌&&◌, ◌||◌, not, [], ◌∷◌, arith, ltb, ◌==◌,
  All, bit_xor, set, get_elem?, some, ap, ◌∙◌, sym,
}
use astra_meter.Prelude.Table.{each_below, passes_of_each_below}
use astra_meter.Prelude.Text.{Text, same, lower}
use astra_meter.Wire.Numbers.{hex_byte}
use astra_meter.Wire.Datagram.{calculate_checksum, checksum_from, checksum_matches}

abbrev pub AreBytes : Text → Type 0
AreBytes = All (λ b. b < 256)

undoes : ℕ → ℕ → Bool
undoes a b = ltb (bit_xor a b) 256 && bit_xor (bit_xor a b) b == a && bit_xor a (bit_xor a b) == b

undoes_table : each_below (λ a. each_below (undoes a) 256) 256 ≡ true
unfolding each_below undoes
undoes_table = refl

record Undoes (a b : ℕ) : Type 0 where
  bounded : bit_xor a b < 256
  right : bit_xor (bit_xor a b) b ≡ a
  left : bit_xor a (bit_xor a b) ≡ b

xor-Undoes : (a b : ℕ) → a < 256 → b < 256 → Undoes a b
unfolding undoes
xor-Undoes a b h k =
    let row = passes_of_each_below (λ a. each_below (undoes a) 256) a h undoes_table in
    let found = passes_of_each_below (undoes a) b k row in
    record {
      bounded = ground (arith, found);
      right = ground (arith, found);
      left = ground (arith, found);
    }

pub checksum_from-lt : (x : ℕ) (s : Text) → x < 256 → AreBytes s → checksum_from x s < 256
unfolding checksum_from
checksum_from-lt x [] h k = h
checksum_from-lt x (b ∷ s) h k = checksum_from-lt (bit_xor x b) s (xor-Undoes x b h k.0).bounded k.1

checksum_from-injective :
    (x y : ℕ) (s : Text)
    → x < 256
    → y < 256
    → AreBytes s
    → checksum_from x s ≡ checksum_from y s
    → x ≡ y
unfolding checksum_from
checksum_from-injective x y [] h k bytes e = e
checksum_from-injective x y (b ∷ s) h k bytes e =
    let u = xor-Undoes x b h bytes.0 in
    let v = xor-Undoes y b k bytes.0 in
    let same_next =
      checksum_from-injective (bit_xor x b) (bit_xor y b) s u.bounded v.bounded bytes.1 e in
    sym u.right ∙ ap (λ z. bit_xor z b) same_next ∙ v.right

checksum_from-set_ne :
    (x : ℕ) (s : Text) (i b c : ℕ)
    → x < 256
    → AreBytes s
    → c < 256
    → get_elem? s i ≡ some b
    → b ≢ c
    → checksum_from x (set s i c) ≢ checksum_from x s
unfolding checksum_from
checksum_from-set_ne x [] i b c h bytes hc e ne = cc
checksum_from-set_ne x (a ∷ s) zero b c h bytes hc e ne = λ same_sum.
    let u = xor-Undoes x a h bytes.0 in
    let v = xor-Undoes x c h hc in
    let same_next =
      checksum_from-injective (bit_xor x c) (bit_xor x a) s v.bounded u.bounded bytes.1 same_sum in
    ne (cc (ap (bit_xor x) same_next, u.left, v.left))
checksum_from-set_ne x (a ∷ s) (suc i) b c h bytes hc e ne =
    checksum_from-set_ne (bit_xor x a) s i b c (xor-Undoes x a h bytes.0).bounded bytes.1 hc e ne

-- Changing one byte changes the checksum.
pub calculate_checksum-set_ne :
    (s : Text) (i b c : ℕ)
    → AreBytes s
    → c < 256
    → get_elem? s i ≡ some b
    → b ≢ c
    → calculate_checksum (set s i c) ≢ calculate_checksum s
unfolding calculate_checksum
calculate_checksum-set_ne s i b c = checksum_from-set_ne 0 s i b c (omega arith)

pub calculate_checksum-lt : (s : Text) → AreBytes s → calculate_checksum s < 256
unfolding calculate_checksum
calculate_checksum-lt s = checksum_from-lt 0 s (omega arith)

matches_table : each_below (λ a. checksum_matches (hex_byte a) (hex_byte a)) 256 ≡ true
unfolding each_below checksum_matches hex_byte same lower
matches_table = refl

differ_table :
    each_below
      (λ a. each_below (λ b. a == b || not (checksum_matches (hex_byte a) (hex_byte b))) 256)
      256
    ≡ true
unfolding each_below checksum_matches hex_byte same lower
differ_table = refl

pub checksum_matches-hex_byte_self :
    (a : ℕ) → a < 256 → checksum_matches (hex_byte a) (hex_byte a) ≡ true
checksum_matches-hex_byte_self a h =
    passes_of_each_below (λ c. checksum_matches (hex_byte c) (hex_byte c)) a h matches_table

pub checksum_matches-hex_byte_ne :
    (a b : ℕ) → a < 256 → b < 256 → a ≢ b → checksum_matches (hex_byte a) (hex_byte b) ≡ false
checksum_matches-hex_byte_ne a b h k ne =
    let row =
      passes_of_each_below
        (λ c. each_below (λ b. c == b || not (checksum_matches (hex_byte c) (hex_byte b))) 256) a h
        differ_table in
    let found =
      passes_of_each_below (λ b. a == b || not (checksum_matches (hex_byte a) (hex_byte b))) b k
        row in
    ground (arith, found)
