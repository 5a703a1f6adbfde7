-- ===== src/Balancer/Pool/Removal.antt =====
-- What `remove_consumer` of src/astrameter/ct002/balancer.py leaves of a battery.
use astra_meter.Prelude.{
  ◌⊎◌, ◌≤◌, ◌≡◌, refl, ◌∙◌, ap, true, false, List, [], ◌∷◌, none, arith, inl, inr, Bool-cases,
  if◌then◌else◌,
}
use astra_meter.Prelude.Text.{Text, same, same_iff, elem}
use astra_meter.Prelude.Dict.{get, del, get-del, discard, elem-discard, remove_first}
use astra_meter.Prelude.Sort.{count}
use astra_meter.Prelude.Float.{Float}
use astra_meter.Balancer.Pool.{
  LoadBalancer, remove_consumer, drop_spiller, clear_probe_state, probe_participants, clear_spill,
  invalidate_efficiency_cache,
}

remove_first-absent : (k : Text) (xs : List Text) → elem k xs ≡ false → remove_first k xs ≡ xs
unfolding elem remove_first
remove_first-absent k [] h = refl
remove_first-absent k (x ∷ xs) h = ground (arith, remove_first-absent k xs)

discard-absent : (k : Text) (xs : List Text) → elem k xs ≡ false → discard k xs ≡ xs
unfolding elem discard
discard-absent k [] h = refl
discard-absent k (x ∷ xs) h = ground (arith, discard-absent k xs)

count-remove_first : (k j : Text) (xs : List Text) → count j (remove_first k xs) ≤ count j xs
unfolding count remove_first
count-remove_first k j [] = omega arith
count-remove_first k j (x ∷ xs) = ground (arith, count-remove_first k j xs)

elem-remove_first :
    (k j : Text) (xs : List Text) → elem j xs ≡ false → elem j (remove_first k xs) ≡ false
unfolding elem remove_first
elem-remove_first k j [] h = h
elem-remove_first k j (x ∷ xs) h = ground (arith, elem-remove_first k j xs)

elem-of_count : (k : Text) (xs : List Text) → count k xs ≡ 0 → elem k xs ≡ false
unfolding elem count
elem-of_count k [] h = refl
elem-of_count k (x ∷ xs) h = ground (arith, elem-of_count k xs)

-- The only occurrence goes.
elem-remove_first_self :
    (k j : Text) (xs : List Text)
    → same k j ≡ true
    → count j xs ≤ 1
    → elem j (remove_first k xs) ≡ false
unfolding elem remove_first count
elem-remove_first_self k j [] e h = refl
elem-remove_first_self k j (x ∷ xs) e h = ground (
  arith,
  elem-remove_first_self k j xs e,
  elem-of_count j xs,
  same_iff k j,
  same_iff x j,
  same_iff x k,
)

module _ {F : Type 0} ⦃fl : Float F⦄ where
  -- No trace of a battery in the control states, the standby set, the rotation order, the reserve
  -- with its caps, and the participants of the probe.
  pub record IsRemoved (k : Text) (b : LoadBalancer F) : Type 0 where
    pub control : get k b.consumers ≡ none
    pub standby : elem k b.deprioritized ≡ false
    pub order : elem k b.priority ≡ false
    pub reserve : elem k b.spilling ≡ false
    pub cap : get k b.spill_caps ≡ none
    pub trial : elem k (probe_participants b) ≡ false

  -- What the removal of `cid` does to the same parts.
  record IsWithout (cid : Text) (b b' : LoadBalancer F) : Type 0 where
    pub consumers : b'.consumers ≡ del cid b.consumers
    pub deprioritized : b'.deprioritized ≡ discard cid b.deprioritized
    pub priority : b'.priority ≡ remove_first cid b.priority
    pub spilling : b'.spilling ≡ discard cid b.spilling
    pub caps : (b'.spill_caps ≡ del cid b.spill_caps) ⊎ (b'.spill_caps ≡ [])
    pub probe : b'.probe_state ≡ (if elem cid (probe_participants b) then none else b.probe_state)

  -- The parts that the reserve does not touch.
  record IsBeside (b b' : LoadBalancer F) : Type 0 where
    pub consumers : b'.consumers ≡ b.consumers
    pub deprioritized : b'.deprioritized ≡ b.deprioritized
    pub priority : b'.priority ≡ b.priority
    pub probe_state : b'.probe_state ≡ b.probe_state

  drop_spiller-IsBeside : (cid : Text) (b : LoadBalancer F) → IsBeside b (drop_spiller cid b)
  unfolding drop_spiller clear_spill
  drop_spiller-IsBeside cid b = record {
    consumers = ground arith;
    deprioritized = ground arith;
    priority = ground arith;
    probe_state = ground arith;
  }

  drop_spiller-spilling :
      (cid : Text) (b : LoadBalancer F) → (drop_spiller cid b).spilling ≡ discard cid b.spilling
  unfolding drop_spiller clear_spill
  drop_spiller-spilling cid b = ground (arith, discard-absent cid b.spilling)

  drop_spiller-caps :
      (cid : Text) (b : LoadBalancer F)
      → ((drop_spiller cid b).spill_caps ≡ del cid b.spill_caps)
        ⊎ ((drop_spiller cid b).spill_caps ≡ [])
  unfolding drop_spiller clear_spill
  drop_spiller-caps cid b = ground arith

  -- The last step: the probe ends where the battery takes part in it, and nothing else changes.
  record IsEnded (cid : Text) (b b' : LoadBalancer F) : Type 0 where
    pub beside_consumers : b'.consumers ≡ b.consumers
    pub beside_deprioritized : b'.deprioritized ≡ b.deprioritized
    pub beside_priority : b'.priority ≡ b.priority
    pub beside_spilling : b'.spilling ≡ b.spilling
    pub beside_caps : b'.spill_caps ≡ b.spill_caps
    pub probe : b'.probe_state ≡ (if elem cid (probe_participants b) then none else b.probe_state)

  last_step-IsEnded :
      (cid : Text) (b : LoadBalancer F)
      → IsEnded cid b (if elem cid (probe_participants b) then clear_probe_state b else b)
  unfolding clear_probe_state
  last_step-IsEnded cid b = record {
    beside_consumers = ground arith;
    beside_deprioritized = ground arith;
    beside_priority = ground arith;
    beside_spilling = ground arith;
    beside_caps = ground arith;
    probe = ground arith;
  }

  -- The step before it: the battery leaves the order.
  record IsUnordered (cid : Text) (b b' : LoadBalancer F) : Type 0 where
    pub left_consumers : b'.consumers ≡ b.consumers
    pub left_deprioritized : b'.deprioritized ≡ b.deprioritized
    pub left_priority : b'.priority ≡ remove_first cid b.priority
    pub left_spilling : b'.spilling ≡ b.spilling
    pub left_caps : b'.spill_caps ≡ b.spill_caps
    pub left_probe : b'.probe_state ≡ b.probe_state

  abbrev unordered : Text → LoadBalancer F → LoadBalancer F
  unordered cid b =
      if elem cid b.priority
      then invalidate_efficiency_cache (record b { priority = remove_first cid b.priority })
      else b

  unordered-IsUnordered : (cid : Text) (b : LoadBalancer F) → IsUnordered cid b (unordered cid b)
  unfolding invalidate_efficiency_cache
  unordered-IsUnordered cid b = record {
    left_consumers = ground arith;
    left_deprioritized = ground arith;
    left_priority = ground (arith, remove_first-absent cid b.priority);
    left_spilling = ground arith;
    left_caps = ground arith;
    left_probe = ground arith;
  }

  same_trial :
      (b b' : LoadBalancer F)
      → b'.probe_state ≡ b.probe_state
      → probe_participants b' ≡ probe_participants b
  unfolding probe_participants
  same_trial b b' e = rw e refl

  remove_consumer-IsWithout :
      (cid : Text) (b : LoadBalancer F) → IsWithout cid b (remove_consumer cid b)
  unfolding remove_consumer
  remove_consumer-IsWithout cid b =
      let cleared = record b {
        consumers = del cid b.consumers;
        deprioritized = discard cid b.deprioritized;
      } in
      let gone = drop_spiller cid cleared in
      let kept = drop_spiller-IsBeside cid cleared in
      let u = unordered-IsUnordered cid gone in
      let e = last_step-IsEnded cid (unordered cid gone) in
      let same_probe : (unordered cid gone).probe_state ≡ b.probe_state =
        u.left_probe ∙ kept.probe_state in
      record {
        consumers = e.beside_consumers ∙ u.left_consumers ∙ kept.consumers;
        deprioritized = e.beside_deprioritized ∙ u.left_deprioritized ∙ kept.deprioritized;
        priority = e.beside_priority ∙ u.left_priority ∙ ap (λ l. remove_first cid l) kept.priority;
        spilling = e.beside_spilling ∙ u.left_spilling ∙ drop_spiller-spilling cid cleared;
        caps = elim (drop_spiller-caps cid cleared) [
          | inl c ↦ inl (e.beside_caps ∙ u.left_caps ∙ c)
          | inr c ↦ inr (e.beside_caps ∙ u.left_caps ∙ c)
        ];
        probe =
            e.probe
            ∙ ap (λ ids. if elem cid ids then none else (unordered cid gone).probe_state)
                (same_trial b (unordered cid gone) same_probe)
            ∙ ap (λ q. if elem cid (probe_participants b) then none else q) same_probe;
      }

  no_trial : (b : LoadBalancer F) → b.probe_state ≡ none → probe_participants b ≡ []
  unfolding probe_participants
  no_trial b e = rw e refl

  -- The trial after the removal.
  trial_of :
      (cid k : Text) (b b' : LoadBalancer F)
      → b'.probe_state ≡ (if elem cid (probe_participants b) then none else b.probe_state)
      → (elem k (probe_participants b) ≡ false) ⊎ (same cid k ≡ true)
      → elem k (probe_participants b') ≡ false
  unfolding elem
  trial_of cid k b b' e h = elim (Bool-cases (elem cid (probe_participants b))) [
    | inl f ↦ let over : b'.probe_state ≡ none = e ∙ rw f refl in rw (no_trial b' over) refl
    | inr f ↦
        let goes_on : b'.probe_state ≡ b.probe_state = e ∙ rw f refl in
        rw (same_trial b b' goes_on) (ground (arith, h, same_iff cid k))
  ]

  -- The removal of another battery brings nothing back.
  pub remove_consumer-IsRemoved :
      (cid k : Text) (b : LoadBalancer F) → IsRemoved k b → IsRemoved k (remove_consumer cid b)
  unfolding get
  remove_consumer-IsRemoved cid k b g =
      let w = remove_consumer-IsWithout cid b in
      record {
        control = rw w.consumers (ground (arith, get-del cid k b.consumers, g.control));
        standby =
            rw w.deprioritized (ground (arith, elem-discard cid k b.deprioritized, g.standby));
        order = rw w.priority (elem-remove_first cid k b.priority g.order);
        reserve = rw w.spilling (ground (arith, elem-discard cid k b.spilling, g.reserve));
        cap = elim w.caps [
          | inl e ↦ rw e (ground (arith, get-del cid k b.spill_caps, g.cap))
          | inr e ↦ rw e refl
        ];
        trial = trial_of cid k b (remove_consumer cid b) w.probe (inl g.trial);
      }

  -- Nothing is left of a battery that the order held once at most.
  pub remove_consumer-same-IsRemoved :
      (cid k : Text) (b : LoadBalancer F)
      → same cid k ≡ true
      → count k b.priority ≤ 1
      → IsRemoved k (remove_consumer cid b)
  unfolding get
  remove_consumer-same-IsRemoved cid k b e once =
      let w = remove_consumer-IsWithout cid b in
      record {
        control = rw w.consumers (ground (arith, get-del cid k b.consumers));
        standby = rw w.deprioritized (ground (arith, elem-discard cid k b.deprioritized));
        order = rw w.priority (elem-remove_first_self cid k b.priority e once);
        reserve = rw w.spilling (ground (arith, elem-discard cid k b.spilling));
        cap = elim w.caps [
          | inl c ↦ rw c (ground (arith, get-del cid k b.spill_caps))
          | inr c ↦ rw c refl
        ];
        trial = trial_of cid k b (remove_consumer cid b) w.probe (inr e);
      }

  pub count-remove_consumer :
      (cid k : Text) (b : LoadBalancer F)
      → count k (remove_consumer cid b).priority ≤ count k b.priority
  count-remove_consumer cid k b =
      rw (remove_consumer-IsWithout cid b).priority (count-remove_first cid k b.priority)
