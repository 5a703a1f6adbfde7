-- ===== src/Dedupe/Purge.antt =====
-- What `purge_older_than` may forget.
use astra_meter.Prelude.{◌≡◌, inl, inr, true, false, Option-cases, arith}
use astra_meter.Prelude.Text.{Text}
use astra_meter.Prelude.Dict.{get, get-keep, IsUnique, put-IsUnique}
use astra_meter.Prelude.Float.{Float, ◌<F◌, ◌≤F◌, ◌-F◌, IsRounded}
use astra_meter.Dedupe.Defs.{Deduplicator, should_process, purge_older_than}

module _ {F : Type 0} ⦃fl : Float F⦄ where
  abbrev pub IsValid : Deduplicator F → Type 0
  IsValid d = IsUnique d.last

  should_process-IsValid :
      (d : Deduplicator F) (key : Text) (now : F) → IsValid d → IsValid (should_process d key now).0
  unfolding should_process
  should_process-IsValid d key now v = ground (arith, put-IsUnique key now d.last v)

  module _ (laws : IsRounded F) where
    open laws use {le_trans, lt-eq-not-le, sub_mono, sub_swap, le_refl}

    old_enough :
        (t age now later window : F)
        → (now -F age ≤F t) ≡ false
        → now ≤F later ≡ true
        → window ≤F age ≡ true
        → (later -F t <F window) ≡ false
    old_enough t age now later window stale order short =
        let below : t <F (now -F age) ≡ true = ground (arith, lt-eq-not-le t (now -F age)) in
        let spent : age ≤F (later -F t) ≡ true =
          le_trans _ _ _ (sub_swap t now age below) (sub_mono now later t t order (le_refl t)) in
        ground
          (arith, lt-eq-not-le (later -F t) window, le_trans window age (later -F t) short spent)

    -- A purge of the entries older than an age that is at least the window changes no later verdict:
    -- each key is let through or dropped as without the purge, given a clock that does not go back.
    pub should_process-purge_older_than :
        (d : Deduplicator F) (key : Text) (age now later : F)
        → IsValid d
        → d.window ≤F age ≡ true
        → now ≤F later ≡ true
        → (should_process (purge_older_than d age now) key later).1 ≡ (should_process d key later).1
    unfolding should_process purge_older_than
    should_process-purge_older_than d key age now later v short order =
        let kept = get-keep (λ _ t. now -F age ≤F t) key d.last v in
        elim (Option-cases (get key d.last)) [
          | inl e ↦ ground (arith, kept)
          | inr (t, e) ↦ ground (arith, kept, old_enough t age now later d.window)
        ]
