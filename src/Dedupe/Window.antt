-- ===== src/Dedupe/Window.antt =====
-- How far apart the accepted requests of one key are.
use astra_meter.Prelude.{
  ap, ◌∙◌, inr, inl, Bool-cases, not, Bool, ◌&&◌, ◌≡◌, refl, true, false, List, [], ◌∷◌, Option,
  none, some, arith, if◌then◌else◌,
}
use astra_meter.Prelude.Text.{Text, same, same_iff}
use astra_meter.Prelude.Dict.{get, put, get-put}
use astra_meter.Prelude.Float.{IsOrdered, Float, ◌<F◌, ◌≤F◌, ◌-F◌, nought}
use astra_meter.Dedupe.Defs.{Deduplicator, init, should_process}

module _ {F : Type 0} ⦃fl : Float F⦄ where
  -- The requests, each with the time at which it came in, that a run lets through.
  unfoldable pub accepted : Deduplicator F → List (Text × F) → List (Text × F)
  accepted d [] = []
  accepted d ((key, now) ∷ rest) =
      let (d', done) = should_process d key now in
      let more = accepted d' rest in if done then (key, now) ∷ more else more

  -- No request of `key` comes less than the window after the one of that key before it.
  abbrev pub IsSpaced : F → Text → Option F → List (Text × F) → Type 0
  IsSpaced window key before [] = Unit
  IsSpaced window key none ((k, t) ∷ l) =
      IsSpaced window key (if same k key then some t else none) l
  IsSpaced window key (some before) ((k, t) ∷ l) =
      ((same k key && t -F before <F window) ≡ false)
      × IsSpaced window key (if same k key then some t else some before) l

  -- With a window above zero, a run of any requests never lets two requests of one key through that
  -- are less than the window apart, the one remembered from before the run included.
  pub accepted-IsSpaced :
      (d : Deduplicator F) (key : Text) (l : List (Text × F))
      → (d.window ≤F nought) ≡ false
      → IsSpaced d.window key (get key d.last) (accepted d l)
  unfolding accepted should_process
  accepted-IsSpaced d key [] h = tt
  accepted-IsSpaced d key ((k, t) ∷ l) h =
      let same_state = accepted-IsSpaced d key l h in
      let next_state = accepted-IsSpaced (record d { last = put k t d.last }) key l h in
      ground (arith, same_state, next_state, get-put k key t d.last, same_iff k key)

  accepted_of_off :
      (d : Deduplicator F) (l : List (Text × F)) → d.window ≤F nought ≡ true → accepted d l ≡ l
  unfolding accepted should_process
  accepted_of_off d [] h = refl
  accepted_of_off d (e ∷ l) h = ground (arith, accepted_of_off d l h)

  -- When the last request of `key` among those let through so far, the newest first, came in.
  unfoldable pub latest : Text → List (Text × F) → Option F
  latest key [] = none
  latest key ((k, t) ∷ past) = let before = latest key past in if same k key then some t else before

  -- A request is too soon if it comes less than the window after that.
  unfoldable pub is_soon : F → F → Option F → Bool
  is_soon window now none = false
  is_soon window now (some before) = now -F before <F window

  -- What a deduplicator is to let through, told by the requests that were let through before.
  unfoldable pub spaced : F → List (Text × F) → List (Text × F) → List (Text × F)
  spaced window past [] = []
  spaced window past ((k, t) ∷ l) =
      let dropped = spaced window past l in
      let taken = spaced window ((k, t) ∷ past) l in
      if is_soon window t (latest k past) then dropped else (k, t) ∷ taken

  accepted-spaced :
      (d : Deduplicator F) (past l : List (Text × F))
      → (d.window ≤F nought) ≡ false
      → ((k : Text) → get k d.last ≡ latest k past)
      → accepted d l ≡ spaced d.window past l
  unfolding accepted should_process spaced latest is_soon
  accepted-spaced d past [] h known = refl
  accepted-spaced d past ((k, t) ∷ l) h known =
      let taken : Deduplicator F = record d { last = put k t d.last } in
      let noted : (j : Text) → get j taken.last ≡ latest j ((k, t) ∷ past) =
        λ j. get-put k j t d.last ∙ ap (λ o. if same k j then some t else o) (known j) in
      let one = accepted-spaced d past l h known in
      let other = accepted-spaced taken ((k, t) ∷ past) l h noted in
      ground (arith, known k, one, other)

  -- A deduplicator that is set up with a window that is finite and above zero lets exactly those
  -- requests of any run through that come no less than the window after the last of their key that
  -- was let through; with any other window it lets all of them through. This is for floats that are
  -- ordered.
  pub accepted-init :
      IsOrdered F
      → (isfinite : F → Bool) (w : F) (l : List (Text × F))
      → accepted (init isfinite w) l
        ≡ (if isfinite w && not (w ≤F nought) then spaced w [] l else l)
  unfolding init latest get
  accepted-init o isfinite w l =
      let off = accepted_of_off (record { window = nought; last = [] }) l (o.le_refl nought) in
      elim (Bool-cases (isfinite w)) [
        | inl e ↦ elim (Bool-cases (w ≤F nought)) [
          | inl f ↦ rw (e, f) off
          | inr f ↦
              rw (e, f) (accepted-spaced (record { window = w; last = [] }) [] l f (λ k. refl))
        ]
        | inr e ↦ rw (e) off
      ]
