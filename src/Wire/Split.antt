-- ===== src/Wire/Split.antt =====
-- `split` after `join`, and the first separator of a text.
use astra_meter.Prelude.{
  ◌≡◌, refl, Bool, false, ◌||◌, List, [], ◌∷◌, ◌++◌, some, arith, leb, ◌==◌, any, All, length,
}
use astra_meter.Prelude.Text.{Text}
use astra_meter.Wire.Datagram.{separator, join, split, find_separator}

-- A field that `build_payload` can send: ASCII, and without a separator.
abbrev pub IsField : Text → Type 0
IsField f = any (λ c. leb 128 c || c == separator) f ≡ false

split_field : (f : Text) → IsField f → split f ≡ (f, [])
unfolding split
split_field [] h = refl
split_field (c ∷ f) h = ground (arith, split_field f)

split_field_append :
    (f s : Text) → IsField f → split (f ++ (separator ∷ s)) ≡ (f, (split s).0 ∷ (split s).1)
unfolding split
split_field_append [] s h = refl
split_field_append (c ∷ f) s h = ground (arith, split_field_append f s)

pub split-join :
    (f : Text) (fs : List Text) → All IsField (f ∷ fs) → split (join (f ∷ fs)) ≡ (f, fs)
unfolding join
split-join f [] (h, _) = split_field f h
split-join f (g ∷ gs) (h, hs) = rw (split_field_append f (join (g ∷ gs)) h, split-join g gs hs)

pub split-message :
    (f : Text) (fs : List Text)
    → All IsField (f ∷ fs)
    → (split (separator ∷ join (f ∷ fs))).1 ≡ f ∷ fs
unfolding split
split-message f fs h = rw (split-join f fs h)

pub any-append {ℓ} :
    {A : Type ℓ} (p : A → Bool) (xs ys : List A) → any p (xs ++ ys) ≡ (any p xs || any p ys)
any-append p [] ys = refl
any-append p (x ∷ xs) ys = ground (arith, any-append p xs ys)

pub IsField-ascii : (f : Text) → IsField f → any (λ c. leb 128 c) f ≡ false
IsField-ascii [] h = refl
IsField-ascii (c ∷ f) h = ground (arith, IsField-ascii f)

pub join_ascii :
    (f : Text) (fs : List Text)
    → All IsField (f ∷ fs)
    → any (λ c. leb 128 c) (join (f ∷ fs)) ≡ false
unfolding join
join_ascii f [] (h, _) = IsField-ascii f h
join_ascii f (g ∷ gs) (h, hs) = rw (
  any-append (λ c. leb 128 c) f (separator ∷ join (g ∷ gs)),
  IsField-ascii f h,
  join_ascii g gs hs,
)

pub find_separator_append :
    (f s : Text) → IsField f → find_separator (f ++ (separator ∷ s)) ≡ some (length f)
unfolding find_separator
find_separator_append [] s h = refl
find_separator_append (c ∷ f) s h = ground (arith, find_separator_append f s)
