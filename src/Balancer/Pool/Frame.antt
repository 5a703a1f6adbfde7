-- ===== src/Balancer/Pool/Frame.antt =====
-- What the changes of single batteries leave alone.
use astra_meter.Prelude.{
  Bool-cases, if◌then◌else◌, false, inr, inl, Option-cases, ◌≡◌, refl, List, [], ◌∷◌, ◌∙◌, ap,
}
use astra_meter.Prelude.Text.{same_refl, same, Text}
use astra_meter.Prelude.Dict.{get-put}
use astra_meter.Prelude.Float.{Float}
use astra_meter.Balancer.State.{ConsumerState}
use astra_meter.Balancer.Pool.{
  some, get, state_of, clear_probe_state, LoadBalancer, change, change_all,
}

module _ {F : Type 0} ⦃fl : Float F⦄ where
  -- A change of the states of some batteries is a change of the states alone.
  pub change_all_frame :
      (f : ConsumerState F → ConsumerState F) (cids : List Text) (b : LoadBalancer F)
      → change_all f cids b ≡ record b { consumers = (change_all f cids b).consumers }
  unfolding change_all
  change_all_frame f [] b = refl
  change_all_frame f (cid ∷ cids) b = change_all_frame f cids (change f cid b) ∙ refl

  pub change_frame :
      (f : ConsumerState F → ConsumerState F) (cid : Text) (b : LoadBalancer F)
      → change f cid b ≡ record b { consumers = (change f cid b).consumers }
  unfolding change
  change_frame f cid b = refl

  pub change_all-priority :
      (f : ConsumerState F → ConsumerState F) (cids : List Text) (b : LoadBalancer F)
      → (change_all f cids b).priority ≡ b.priority
  change_all-priority f cids b = ap (λ (c : LoadBalancer F). c.priority) (change_all_frame f cids b)

  pub clear_probe_state-consumers :
      (b : LoadBalancer F) → (clear_probe_state b).consumers ≡ b.consumers
  unfolding clear_probe_state
  clear_probe_state-consumers b = elim (Option-cases b.probe_state) [
    | inl e ↦ rw (e, clear_probe_state)
    | inr (p, e) ↦ rw (e, clear_probe_state)
  ]

  known_state :
      (cid : Text) (b : LoadBalancer F) (s : ConsumerState F)
      → get cid b.consumers ≡ some s
      → state_of b cid ≡ s
  unfolding state_of
  known_state cid b s h = rw (h, state_of) refl

  -- The state of a battery after a change of it, and of another.
  pub change-state_of :
      (f : ConsumerState F → ConsumerState F) (cid : Text) (b : LoadBalancer F)
      → state_of (change f cid b) cid ≡ f (state_of b cid)
  unfolding change
  change-state_of f cid b =
      let s = f (state_of b cid) in
      known_state cid (change f cid b) s (rw (get-put cid cid s b.consumers, same_refl cid) refl)

  pub change-lookup :
      (f : ConsumerState F → ConsumerState F) (cid other : Text) (b : LoadBalancer F)
      → get other (change f cid b).consumers
        ≡ (if same cid other then some (state_of (change f cid b) cid) else get other b.consumers)
  change-lookup f cid other b =
      let state = state_of (change f cid b) cid in
      let e : state ≡ f (state_of b cid) = change-state_of f cid b in
      rw (e) (unfold change in get-put cid other (f (state_of b cid)) b.consumers)

  pub change-others :
      (f : ConsumerState F → ConsumerState F) (cid other : Text) (b : LoadBalancer F)
      → same cid other ≡ false
      → get other (change f cid b).consumers ≡ get other b.consumers
  unfolding change
  change-others f cid other b h = rw (get-put cid other (f (state_of b cid)) b.consumers, h)

  pub beside_put :
      (cid other : Text) (s : ConsumerState F) (b b' : LoadBalancer F)
      → (same cid other ≡ false → get other b'.consumers ≡ get other b.consumers)
      → (if same cid other then some s else get other b'.consumers)
        ≡ (if same cid other then some s else get other b.consumers)
  beside_put cid other s b b' h = elim (Bool-cases (same cid other)) [
    | inl e ↦ rw (e) refl
    | inr e ↦ rw (e) (h e)
  ]
