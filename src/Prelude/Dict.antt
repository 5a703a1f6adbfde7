-- ===== src/Prelude/Dict.antt =====
-- A Python `dict` with text keys: an association list in order of insertion. Also sets of texts, as
-- lists.
use astra_meter.Prelude.{
  false, ◌≡◌, refl, inl, inr, Bool, Bool-cases, not, List, [], ◌∷◌, map, Option, none, some, arith,
  if◌then◌else◌, filter,
}
use astra_meter.Prelude.Text.{Text, same, same_iff, elem}

module _ {ℓ} {V : Type ℓ} where
  -- `d.get(k)`.
  unfoldable pub get : Text → List (Text × V) → Option V
  get k [] = none
  get k ((j, v) ∷ d) = if same j k then some v else get k d

  -- `d[k] = v`: a known key keeps its place, a new one goes to the end.
  unfoldable pub put : Text → V → List (Text × V) → List (Text × V)
  put k v [] = (k, v) ∷ []
  put k v ((j, w) ∷ d) = if same j k then (j, v) ∷ d else (j, w) ∷ put k v d

  -- `{k: v for k, v in d.items() if p(k, v)}`.
  unfoldable pub keep : (Text → V → Bool) → List (Text × V) → List (Text × V)
  keep p [] = []
  keep p ((j, w) ∷ d) = let rest = keep p d in if p j w then (j, w) ∷ rest else rest

  -- `d.pop(k, None)`, and `del d[k]` for a key that is there.
  unfoldable pub del : Text → List (Text × V) → List (Text × V)
  del k [] = []
  del k ((j, w) ∷ d) = let rest = del k d in if same j k then rest else (j, w) ∷ rest

  unfoldable pub keys : List (Text × V) → List Text
  keys = map (λ e. e.0)

  pub get-put :
      (k j : Text) (v : V) (d : List (Text × V))
      → get j (put k v d) ≡ (if same k j then some v else get j d)
  unfolding get put
  get-put k j v [] = refl
  get-put k j v ((i, w) ∷ d) =
      ground (arith, same_iff k j, same_iff i k, same_iff i j, get-put k j v d)

  pub get-del :
      (k j : Text) (d : List (Text × V)) → get j (del k d) ≡ (if same k j then none else get j d)
  unfolding get del
  get-del k j [] = ground arith
  get-del k j ((i, w) ∷ d) = ground (arith, same_iff k j, same_iff i k, same_iff i j, get-del k j d)

-- A key stands once, as in every `dict`.
abbrev pub IsUnique {ℓ} : {V : Type ℓ} → List (Text × V) → Type ℓ
IsUnique [] = Unit
IsUnique ((k, v) ∷ d) = (get k d ≡ none) × IsUnique d

module _ {ℓ} {V : Type ℓ} where
  pub put-IsUnique : (k : Text) (v : V) (d : List (Text × V)) → IsUnique d → IsUnique (put k v d)
  unfolding get put
  put-IsUnique k v [] u = (refl, tt)
  put-IsUnique k v ((j, w) ∷ d) u = elim (Bool-cases (same j k)) [
    | inl e ↦ rw e u
    | inr e ↦
        rw e (
          rw (get-put k j v d) (ground (arith, same_iff k j, same_iff j k)),
          put-IsUnique k v d u.1,
        )
  ]

  get-keep-none :
      (p : Text → V → Bool) (k : Text) (d : List (Text × V))
      → get k d ≡ none
      → get k (keep p d) ≡ none
  unfolding get keep
  get-keep-none p k [] h = refl
  get-keep-none p k ((j, w) ∷ d) h = ground (arith, get-keep-none p k d)

  pub keep-IsUnique : (p : Text → V → Bool) (d : List (Text × V)) → IsUnique d → IsUnique (keep p d)
  unfolding keep
  keep-IsUnique p [] u = tt
  keep-IsUnique p ((j, w) ∷ d) u = elim (Bool-cases (p j w)) [
    | inl e ↦ rw e (get-keep-none p j d u.0, keep-IsUnique p d u.1)
    | inr e ↦ rw e (keep-IsUnique p d u.1)
  ]

  -- A filter keeps the value of a key exactly if it passes.
  pub get-keep :
      (p : Text → V → Bool) (k : Text) (d : List (Text × V))
      → IsUnique d
      → get k (keep p d) ≡ elim (get k d) [ none ↦ none | some v ↦ if p k v then some v else none ]
  unfolding get keep
  get-keep p k [] u = refl
  get-keep p k ((j, w) ∷ d) u =
      ground (arith, same_iff j k, get-keep p k d u.1, get-keep-none p k d)

  pub del-IsUnique : (k : Text) (d : List (Text × V)) → IsUnique d → IsUnique (del k d)
  unfolding del
  del-IsUnique k [] u = tt
  del-IsUnique k ((j, w) ∷ d) u = elim (Bool-cases (same j k)) [
    | inl e ↦ rw e (del-IsUnique k d u.1)
    | inr e ↦ rw e (rw (get-del k j d) (ground arith), del-IsUnique k d u.1)
  ]

-- A set of texts.
unfoldable pub discard : Text → List Text → List Text
discard k = filter (λ j. not (same j k))

pub elem-discard :
    (k j : Text) (xs : List Text) → elem j (discard k xs) ≡ (if same k j then false else elem j xs)
unfolding elem discard
elem-discard k j [] = ground arith
elem-discard k j (x ∷ xs) =
    ground (arith, elem-discard k j xs, same_iff x j, same_iff x k, same_iff k j)

unfoldable pub intersection : List Text → List Text → List Text
intersection xs ys = filter (λ j. elem j ys) xs

-- `l.remove(k)`: the first entry goes.
unfoldable pub remove_first : Text → List Text → List Text
remove_first k [] = []
remove_first k (x ∷ xs) = if same x k then xs else x ∷ remove_first k xs
