-- ===== src/Balancer/Rotation/Swap.antt =====
-- The swap of a saturated active battery for a healthy one that stands by.
use astra_meter.Prelude.{
  ◌∙◌, ℕ, zero, suc, ◌+◌, ◌-◌, ◌≤◌, ◌<◌, ◌≡◌, ◌≢◌, refl, sym, ap, inl, inr, Bool, true, false,
  Bool-cases, Option-cases, List, [], ◌∷◌, some, arith, length, get_elem?, set, take, drop,
  if◌then◌else◌,
}
use mathlib.Core.Path.{subst₂}
use mathlib.Core.Bool.{◌||◌}
use native.Mathlib.Nat.{zero-add, suc-add}
use astra_meter.Prelude.Text.{Text, same}
use astra_meter.Prelude.Sort.{count}
use astra_meter.Prelude.Float.{Float, ◌≤F◌, nought}
use astra_meter.Balancer.Pool.{LoadBalancer}
use astra_meter.Balancer.Order.{Reports}
use astra_meter.Balancer.Rotation.{
  leb, has_surplus, leads_at, find_from, swap_at, is_saturated, is_healthy, swap_indices,
  force_swap_saturated,
}

-- What a search finds: an index inside the list, at which an element passes.
record IsFound (i : ℕ) (p : Text → Bool) (l : List Text) (j : ℕ) : Type 0 where
  from : i ≤ j
  inside : j < i + length l
  member : Text
  there : get_elem? l (j - i) ≡ some member
  passes : p member ≡ true

find_from-IsFound :
    (i : ℕ) (p : Text → Bool) (l : List Text) (j : ℕ) → find_from i p l ≡ some j → IsFound i p l j
unfolding find_from
find_from-IsFound i p [] j h = cc
find_from-IsFound i p (x ∷ xs) j h = elim (Bool-cases (p x)) [
  | inl e ↦
      let at : i ≡ j = ground arith in
      record {
        from = omega arith;
        inside = omega arith;
        member = x;
        there = let z : j - i ≡ 0 = omega arith in rw z;
        passes = e;
      }
  | inr e ↦
      let r = find_from-IsFound (suc i) p xs j (ground arith) in
      record {
        from = omega (arith, r.from);
        inside = omega (arith, r.inside);
        member = r.member;
        there = let z : j - i ≡ suc (j - suc i) = omega (arith, r.from) in rw z r.there;
        passes = r.passes;
      }
]

one_if : Bool → ℕ
one_if b = if b then 1 else 0

count-set :
    (k : Text) (l : List Text) (i : ℕ) (a c : Text)
    → get_elem? l i ≡ some a
    → count k (set l i c) + one_if (same a k) ≡ count k l + one_if (same c k)
unfolding count one_if
count-set k [] i a c h = cc
count-set k (x ∷ xs) zero a c h = ground arith
count-set k (x ∷ xs) (suc i) a c h = omega (arith, count-set k xs i a c h)

get_elem?-set_ne :
    (l : List Text) (i j : ℕ) (c : Text) → i ≢ j → get_elem? (set l i c) j ≡ get_elem? l j
get_elem?-set_ne [] i j c h = refl
get_elem?-set_ne (x ∷ xs) zero zero c h = absurd (h refl)
get_elem?-set_ne (x ∷ xs) zero (suc j) c h = refl
get_elem?-set_ne (x ∷ xs) (suc i) zero c h = refl
get_elem?-set_ne (x ∷ xs) (suc i) (suc j) c h = get_elem?-set_ne xs i j c (λ e. h (ap suc e))

-- A swap keeps the members.
count-swap_at : (k : Text) (l : List Text) (i j : ℕ) → i ≢ j → count k (swap_at i j l) ≡ count k l
unfolding swap_at
count-swap_at k l i j h = elim (Option-cases (get_elem? l i)) [
  | inl e ↦ rw (e, swap_at)
  | inr (a, ea) ↦ elim (Option-cases (get_elem? l j)) [
    | inl e ↦ rw (ea, swap_at, e)
    | inr (b, eb) ↦
        rw (ea, swap_at, eb)
          (omega (
            arith,
            count-set k l i a b ea,
            count-set k (set l i b) j b a (get_elem?-set_ne l i j b h ∙ eb),
          ))
  ]
]

get_elem?-take : (n : ℕ) (l : List Text) (i : ℕ) → i < n → get_elem? (take n l) i ≡ get_elem? l i
get_elem?-take zero l i h = absurd (omega arith)
get_elem?-take (suc n) [] i h = refl
get_elem?-take (suc n) (x ∷ xs) zero h = refl
get_elem?-take (suc n) (x ∷ xs) (suc i) h = get_elem?-take n xs i (omega arith)

get_elem?-drop : (n : ℕ) (l : List Text) (i : ℕ) → get_elem? (drop n l) i ≡ get_elem? l (n + i)
get_elem?-drop zero l i = rw zero-add
get_elem?-drop (suc n) [] i = refl
get_elem?-drop (suc n) (x ∷ xs) i = rw suc-add (get_elem?-drop n xs i)

length-take-le : (n : ℕ) (l : List Text) → length (take n l) ≤ n
length-take-le zero l = omega arith
length-take-le (suc n) [] = omega arith
length-take-le (suc n) (x ∷ xs) = omega (arith, length-take-le n xs)

module _ {F : Type 0} ⦃fl : Float F⦄ where
  -- The two batteries of a swap.
  pub record IsHandover (reports : Reports F) (grid_total : F) (slots : ℕ) (b : LoadBalancer F)
      (i j : ℕ) : Type 0 where
    pub saturated : Text
    pub healthy : Text
    pub active_index : i < slots
    pub standby_index : slots ≤ j
    pub saturated_at : get_elem? b.priority i ≡ some saturated
    pub healthy_at : get_elem? b.priority j ≡ some healthy
    pub is_full : is_saturated b saturated ≡ true
    pub takes_over :
        is_healthy reports
          (leads_at reports b.priority i)
          (has_surplus reports grid_total)
          b
          healthy
        ≡ true

  handover :
      (reports : Reports F) (grid_total : F) (slots : ℕ) (b : LoadBalancer F) (i j : ℕ)
      → find_from 0 (is_saturated b) (take slots b.priority) ≡ some i
      → find_from slots
          (is_healthy reports (leads_at reports b.priority i) (has_surplus reports grid_total) b)
          (drop slots b.priority)
        ≡ some j
      → IsHandover reports grid_total slots b i j
  handover reports grid_total slots b i j f g =
      let full = find_from-IsFound 0 (is_saturated b) (take slots b.priority) i f in
      let free =
        find_from-IsFound slots
          (is_healthy reports (leads_at reports b.priority i) (has_surplus reports grid_total) b)
          (drop slots b.priority) j g in
      let early : i < slots = omega (arith, full.inside, length-take-le slots b.priority) in
      let at_i : i - 0 ≡ i = omega arith in
      let at_j : slots + (j - slots) ≡ j = omega (arith, free.from) in
      record {
        saturated = full.member;
        healthy = free.member;
        active_index = early;
        standby_index = free.from;
        saturated_at = sym (get_elem?-take slots b.priority i early) ∙ (rw at_i at full.there);
        healthy_at = rw at_j at (sym (get_elem?-drop slots b.priority (j - slots)) ∙ free.there);
        is_full = full.passes;
        takes_over = free.passes;
      }

  swap_indices-IsHandover :
      (reports : Reports F) (grid_total : F) (slots : ℕ) (b : LoadBalancer F) (i j : ℕ)
      → swap_indices reports grid_total slots b ≡ some (i, j)
      → IsHandover reports grid_total slots b i j
  unfolding swap_indices
  swap_indices-IsHandover reports grid_total slots b i j h =
      let order = b.priority in
      let test = b.cfg.efficiency_saturation_threshold ≤F nought || leb (length order) slots in
      elim (Bool-cases test) [
        | inl e ↦ absurd (cc (rw e at h))
        | inr e ↦ elim (Option-cases (find_from 0 (is_saturated b) (take slots order))) [
          | inl f ↦ absurd (ground arith)
          | inr (i', f) ↦
              elim (Option-cases (
                find_from slots
                  (is_healthy reports (leads_at reports order i') (has_surplus reports grid_total)
                    b)
                  (drop slots order))) [
                    | inl g ↦ absurd (ground arith)
                    | inr (j', g) ↦
                        let same_i : i' ≡ i = ground arith in
                        let same_j : j' ≡ j = ground arith in
                        subst₂ (IsHandover reports grid_total slots b) same_i same_j
                          (handover reports grid_total slots b i' j' f g)
                  ]
        ]
      ]

  apart :
      {reports : Reports F} {grid_total : F} {slots : ℕ} {b : LoadBalancer F} {i j : ℕ}
      → IsHandover reports grid_total slots b i j
      → i ≢ j
  apart h = omega (arith, h.active_index, h.standby_index)

  -- What a swap leaves: without one the state is as before; with one, a saturated active battery and
  -- a standby battery that may lead and is below the threshold have changed places, and the order
  -- holds the same batteries.
  abbrev pub IsSwapped : Reports F → F → ℕ → LoadBalancer F → LoadBalancer F × Bool → Type 0
  IsSwapped reports grid_total slots b (b', false) = b' ≡ b
  IsSwapped reports grid_total slots b (b', true) =
      (i : ℕ) × (j : ℕ) × IsHandover reports grid_total slots b i j
      × (b'.priority ≡ swap_at i j b.priority)
      × ((k : Text) → count k b'.priority ≡ count k b.priority)

  -- A forced swap changes nothing, or exchanges a saturated active battery for a healthy standby one
  -- and keeps the members of the order.
  pub force_swap_saturated-IsSwapped :
      (reports : Reports F) (grid_total now : F) (slots : ℕ) (b : LoadBalancer F)
      → IsSwapped reports grid_total slots b (force_swap_saturated reports grid_total now slots b)
  unfolding force_swap_saturated
  force_swap_saturated-IsSwapped reports grid_total now slots b =
      elim (Option-cases (swap_indices reports grid_total slots b)) [
        | inl e ↦ rw (e, force_swap_saturated) refl
        | inr ((i, j), e) ↦
            let found = swap_indices-IsHandover reports grid_total slots b i j e in
            rw (e, force_swap_saturated)
              (i, j, found, refl, λ k. count-swap_at k b.priority i j (apart found))
      ]
