-- ===== src/Consumers/Expiry.antt =====
-- What `_cleanup_consumers` of src/astrameter/ct002/ct002.py removes, and what it leaves.
use astra_meter.Prelude.{
  ◌≡◌, ◌≤◌, refl, Bool, true, false, List, [], ◌∷◌, none, some, arith, if◌then◌else◌, inl, inr,
  Bool-cases,
}
use astra_meter.Prelude.Text.{Text, same, same_iff, elem}
use astra_meter.Prelude.Dict.{get, get-del, elem-discard, IsUnique}
use astra_meter.Prelude.Float.{Float}
use astra_meter.Balancer.Pool.{remove_consumer}
use astra_meter.Balancer.Pool.Removal.{
  IsRemoved, remove_consumer-IsRemoved, remove_consumer-same-IsRemoved, count-remove_consumer,
}
use astra_meter.Prelude.Sort.{count}
use astra_meter.Consumers.Store.{
  Consumer, Ct002, stale, evict, evict_all, consumer_expired, cleanup_consumers,
}

module _ {F : Type 0} ⦃fl : Float F⦄ where
  -- No trace of a consumer is left in the stores.
  pub record IsGone (k : Text) (s : Ct002 F) : Type 0 where
    pub consumer : get k s.consumers ≡ none
    pub target : get k s.last_target_by_consumer ≡ none
    pub sweep : elem k s.inspecting ≡ false
    pub pool : IsRemoved k s.balancer

  evict-IsGone : (cid k : Text) (s : Ct002 F) → IsGone k s → IsGone k (evict cid s)
  unfolding evict
  evict-IsGone cid k s g = record {
    consumer = ground (arith, get-del cid k s.consumers, g.consumer);
    target = ground (arith, get-del cid k s.last_target_by_consumer, g.target);
    sweep = ground (arith, elem-discard cid k s.inspecting, g.sweep);
    pool = remove_consumer-IsRemoved cid k s.balancer g.pool;
  }

  evict-same-IsGone :
      (cid k : Text) (s : Ct002 F)
      → same cid k ≡ true
      → count k s.balancer.priority ≤ 1
      → IsGone k (evict cid s)
  unfolding evict
  evict-same-IsGone cid k s e once = record {
    consumer = ground (arith, get-del cid k s.consumers);
    target = ground (arith, get-del cid k s.last_target_by_consumer);
    sweep = ground (arith, elem-discard cid k s.inspecting);
    pool = remove_consumer-same-IsRemoved cid k s.balancer e once;
  }

  pub evict_all-get :
      (k : Text) (gone : List Text) (s : Ct002 F)
      → get k (evict_all gone s).consumers ≡ (if elem k gone then none else get k s.consumers)
  unfolding evict_all elem
  evict_all-get k [] s = refl
  evict_all-get k (cid ∷ gone) s =
      ground (arith, evict_all-get k gone (evict cid s), get-del cid k s.consumers)

  elem-stale :
      (p : Consumer F → Bool) (k : Text) (d : List (Text × Consumer F))
      → IsUnique d
      → elem k (stale p d) ≡ elim (get k d) [ none ↦ false | some c ↦ p c ]
  unfolding elem stale get
  elem-stale p k [] u = refl
  elem-stale p k ((j, c) ∷ d) u = ground (arith, elem-stale p k d u.1, same_iff j k)

  -- The eviction of another consumer brings nothing back.
  evict_all-IsGone :
      (k : Text) (gone : List Text) (s : Ct002 F) → IsGone k s → IsGone k (evict_all gone s)
  unfolding evict_all
  evict_all-IsGone k [] s g = g
  evict_all-IsGone k (cid ∷ gone) s g =
      evict_all-IsGone k gone (evict cid s) (evict-IsGone cid k s g)

  evicted-IsGone :
      (k : Text) (gone : List Text) (s : Ct002 F)
      → elem k gone ≡ true
      → count k s.balancer.priority ≤ 1
      → IsGone k (evict_all gone s)
  unfolding evict_all elem evict
  evicted-IsGone k [] s h once = cc
  evicted-IsGone k (cid ∷ gone) s h once = elim (Bool-cases (same cid k)) [
    | inl e ↦ evict_all-IsGone k gone (evict cid s) (evict-same-IsGone cid k s e once)
    | inr e ↦
        let fewer : count k (remove_consumer cid s.balancer).priority ≤ 1 =
          omega (arith, once, count-remove_consumer cid k s.balancer) in
        evicted-IsGone k gone (evict cid s) (ground arith) fewer
  ]

  -- What a clean-up does to a consumer, by whether it is past its time.
  abbrev pub IsCleaned : Bool → Text → Consumer F → Ct002 F → Type 0
  IsCleaned true k c s = IsGone k s
  IsCleaned false k c s = get k s.consumers ≡ some c

  -- Of a consumer that is past its time when the clean-up runs, the clean-up leaves nothing in the
  -- store, in the last targets and in the sweeps, and in the balancer nothing in the control states,
  -- the standby set, the rotation order, the reserve with its caps, and the participants of the probe;
  -- any other it leaves in the store as it was. The store holds no key twice, and the rotation order
  -- holds this one once at most.
  pub cleanup_consumers-IsCleaned :
      (now : F) (k : Text) (s : Ct002 F) (c : Consumer F)
      → IsUnique s.consumers
      → count k s.balancer.priority ≤ 1
      → get k s.consumers ≡ some c
      → IsCleaned (consumer_expired s now c) k c (cleanup_consumers now s)
  unfolding cleanup_consumers
  cleanup_consumers-IsCleaned now k s c unique once there =
      let gone = stale (consumer_expired s now) s.consumers in
      let member = elem-stale (consumer_expired s now) k s.consumers unique in
      elim (Bool-cases (consumer_expired s now c)) [
        | inl e ↦
            let g = evicted-IsGone k gone s (rw (member, there) e) once in
            rw e
              (record { consumer = g.consumer; target = g.target; sweep = g.sweep; pool = g.pool })
        | inr e ↦ rw e (ground (arith, evict_all-get k gone s, member))
      ]
