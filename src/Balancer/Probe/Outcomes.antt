-- ===== src/Balancer/Probe/Outcomes.antt =====
-- How a probe ends, and the order that a rejected one leaves.
use astra_meter.Prelude.{
  ap, ◌≢◌, ℕ, ◌+◌, Bool, ◌&&◌, if◌then◌else◌, ◌≤◌, ◌≡◌, refl, true, false, not, List, [], ◌∷◌, ◌++◌,
  Option, none, some, arith, ltb, leb, filter, inl, inr, Bool-cases, ◌≢◌, length,
}
use astra_meter.Prelude.Int.{pos, eqb_ℤ_iff, abs}
use astra_meter.Prelude.Text.{Text, elem}
use astra_meter.Prelude.Dict.{keys}
use astra_meter.Prelude.Sort.{count, count-append, count-filter, elem-eq-count}
use astra_meter.Prelude.Float.{Float, ◌≤F◌, ◌+F◌, ◌/F◌, whole}
use astra_meter.Balancer.State.{report_of, sign}
use astra_meter.Balancer.Pool.Frame.{change_all-priority}
use astra_meter.Balancer.Pool.{with_fade, change, clear_probe_state, LoadBalancer, ProbeState}
use astra_meter.Balancer.Order.{Reports}
use astra_meter.Balancer.Order.Sync.{IsOnce}
use astra_meter.Balancer.Probe.{
  eqb_ℤ, without, restored, sign_ℤ, sum_power, proven, resolve_running, resolve_at, output,
  total_output, fade_by_output, commit_probe, resolve_probe, Outcome, no_probe, vanished, committed,
  rejected, pending, reject_probe,
}

-- The order after a rejected probe holds the same batteries as the order before, if that holds none
-- twice and holds all those that the probe puts back and its candidate, which differ.
pub restored-members :
    (restore : List Text) (candidate : Text) (order : List Text) (k : Text)
    → IsOnce order
    → IsOnce (candidate ∷ restore)
    → ((j : Text) → count j (candidate ∷ restore) ≤ count j order)
    → count k (restored restore candidate order) ≡ count k order
unfolding restored without count
restored-members restore candidate order k one_order one_probe known = ground (
  arith,
  one_order k,
  one_probe k,
  known k,
  count-append k restore (without order (candidate ∷ restore) ++ (candidate ∷ [])),
  count-append k (without order (candidate ∷ restore)) (candidate ∷ []),
  count-filter (λ cid. not (elem cid (candidate ∷ restore))) k order,
  elem-eq-count k (candidate ∷ restore),
)

empty_of_length : (l : List Text) → length l ≡ 0 → l ≡ []
empty_of_length [] h = refl
empty_of_length (x ∷ xs) h = absurd (omega arith)

module _ {F : Type 0} ⦃fl : Float F⦄ where
  -- The sample of this poll: the candidate runs in the direction of the demand, at the success
  -- threshold or above.
  abbrev pub Delivers : LoadBalancer F → ProbeState F → Reports F → F → Type 0
  Delivers b probe reports grid_total =
      let actual = (report_of reports probe.candidate_id).power in
      let demand = sign (fl.of_int (sum_power reports) +F grid_total) in
      (demand ≢ pos 0)
      × (sign_ℤ actual ≡ demand)
      × (b.probe_success_threshold ≤F whole (abs actual) ≡ true)

  -- All participants of a probe report.
  abbrev pub AllReport : ProbeState F → Reports F → Type 0
  AllReport probe reports = without (probe.active_ids ++ probe.backup_ids) (keys reports) ≡ []

  -- The probe is proven: the sample of the poll before was good, and so is that of this one.
  abbrev pub IsProven : LoadBalancer F → ProbeState F → Reports F → F → Type 0
  IsProven b probe reports grid_total =
      (1 ≤ probe.proof_samples) × Delivers b probe reports grid_total

  -- The good samples in a row after this poll: one more, or none.
  pub data IsCounted (b : LoadBalancer F) (probe : ProbeState F) (reports : Reports F)
      (grid_total : F) : ℕ → Type 0 where
    good :
        Delivers b probe reports grid_total
        → IsCounted b probe reports grid_total (probe.proof_samples + 1)
    bad : ¬ Delivers b probe reports grid_total → IsCounted b probe reports grid_total 0

  -- What each outcome says of the probe that was running, and of the state after it. The conditions
  -- of the outcomes exclude each other.
  abbrev pub Resolved :
      Reports F → F → F → LoadBalancer F → Option (ProbeState F) → LoadBalancer F → Outcome → Type 0
  Resolved reports now grid_total b none b' no_probe = b' ≡ b
  Resolved reports now grid_total b (some probe) b' vanished =
      (¬ AllReport probe reports) × (b'.probe_state ≡ none) × (b'.priority ≡ b.priority)
  Resolved reports now grid_total b (some probe) b' committed =
      AllReport probe reports
      × IsProven b probe reports grid_total
      × (b'.probe_state ≡ none)
      × (b'.priority ≡ b.priority)
  Resolved reports now grid_total b (some probe) b' rejected =
      AllReport probe reports
      × (¬ IsProven b probe reports grid_total)
      × (probe.deadline ≤F now ≡ true)
      × (b'.probe_state ≡ none)
      × (b'.priority ≡ restored probe.restore_active_ids probe.candidate_id b.priority)
  Resolved reports now grid_total b (some probe) b' pending =
      AllReport probe reports
      × (¬ IsProven b probe reports grid_total)
      × ((probe.deadline ≤F now) ≡ false)
      × ((n : ℕ) × IsCounted b probe reports grid_total n
          × (b' ≡ record b { probe_state = some (record probe { proof_samples = n }) }))
  Resolved reports now grid_total b _ b' _ = ⊥

  fade_by_output-priority :
      (reports : Reports F) (total : ℕ) (cids : List Text) (b : LoadBalancer F)
      → (fade_by_output reports total cids b).priority ≡ b.priority
  unfolding fade_by_output
  fade_by_output-priority reports total [] b = refl
  fade_by_output-priority reports total (cid ∷ cids) b =
      fade_by_output-priority reports total cids
        (change (with_fade (whole (output reports cid) /F whole total)) cid b)

  pub commit_probe-priority :
      (reports : Reports F) (now : F) (probe : ProbeState F) (b : LoadBalancer F)
      → (commit_probe reports now probe b).priority ≡ b.priority
  unfolding commit_probe
  commit_probe-priority reports now probe b =
      let participants =
        filter (λ cid. elem cid (keys reports)) (probe.active_ids ++ probe.backup_ids) in
      let total = total_output reports participants in
      elim (Bool-cases (ltb 0 total)) [
        | inl e ↦ rw (e, commit_probe) (simp fade_by_output-priority)
        | inr e ↦ rw (e, commit_probe) (simp change_all-priority)
      ]

  pub reject_probe-priority :
      (probe : ProbeState F) (b : LoadBalancer F)
      → (reject_probe probe b).priority
        ≡ restored probe.restore_active_ids probe.candidate_id b.priority
  unfolding reject_probe
  reject_probe-priority probe b = simp change_all-priority

  commit_probe-ends :
      (reports : Reports F) (now : F) (probe : ProbeState F) (b : LoadBalancer F)
      → (commit_probe reports now probe b).probe_state ≡ none
  unfolding commit_probe
  commit_probe-ends reports now probe b = refl

  reject_probe-ends :
      (probe : ProbeState F) (b : LoadBalancer F) → (reject_probe probe b).probe_state ≡ none
  unfolding reject_probe
  reject_probe-ends probe b = refl

  clear_running :
      (b : LoadBalancer F) {probe : ProbeState F}
      → b.probe_state ≡ some probe
      → ((clear_probe_state b).probe_state ≡ none) × ((clear_probe_state b).priority ≡ b.priority)
  unfolding clear_probe_state
  clear_running b running = rw (running, clear_probe_state) (refl, refl)

  -- Two good samples counted means that one was counted before, and that this one is good.
  proven-Delivers :
      (b : LoadBalancer F) (probe : ProbeState F) (reports : Reports F) (grid_total : F)
      → leb 2 (proven b probe reports grid_total).proof_samples ≡ true
      → (1 ≤ probe.proof_samples) × Delivers b probe reports grid_total
  unfolding proven
  proven-Delivers b probe reports grid_total h =
      let demand = sign (fl.of_int (sum_power reports) +F grid_total) in
      let actual = (report_of reports probe.candidate_id).power in
      ground (arith, eqb_ℤ_iff demand (pos 0), eqb_ℤ_iff (sign_ℤ actual) demand)

  unproven :
      (b : LoadBalancer F) (probe : ProbeState F) (reports : Reports F) (grid_total : F)
      → leb 2 (proven b probe reports grid_total).proof_samples ≡ false
      → ¬ IsProven b probe reports grid_total
  unfolding proven
  unproven b probe reports grid_total h p =
      let demand = sign (fl.of_int (sum_power reports) +F grid_total) in
      let actual = (report_of reports probe.candidate_id).power in
      ground (
        arith,
        p.0,
        p.1.0,
        p.1.1,
        p.1.2,
        eqb_ℤ_iff demand (pos 0),
        eqb_ℤ_iff (sign_ℤ actual) demand,
      )

  tally_by :
      (b : LoadBalancer F) (probe : ProbeState F) (reports : Reports F) (grid_total : F)
      (delivers : Bool)
      → (delivers ≡ true → Delivers b probe reports grid_total)
      → (delivers ≡ false → ¬ Delivers b probe reports grid_total)
      → IsCounted b probe reports grid_total (if delivers then probe.proof_samples + 1 else 0)
  tally_by b probe reports grid_total true p q = good (p refl)
  tally_by b probe reports grid_total false p q = bad (q refl)

  proven_frame :
      (b : LoadBalancer F) (probe : ProbeState F) (reports : Reports F) (grid_total : F)
      → proven b probe reports grid_total
        ≡ record probe { proof_samples = (proven b probe reports grid_total).proof_samples }
  unfolding proven
  proven_frame b probe reports grid_total = refl

  proven-IsCounted :
      (b : LoadBalancer F) (probe : ProbeState F) (reports : Reports F) (grid_total : F)
      → IsCounted b probe reports grid_total (proven b probe reports grid_total).proof_samples
  unfolding proven
  proven-IsCounted b probe reports grid_total =
      let demand = sign (fl.of_int (sum_power reports) +F grid_total) in
      let actual = (report_of reports probe.candidate_id).power in
      let no_demand = eqb_ℤ_iff demand (pos 0) in
      let same_way = eqb_ℤ_iff (sign_ℤ actual) demand in
      tally_by b probe reports grid_total
        (not (eqb_ℤ demand (pos 0))
          && eqb_ℤ (sign_ℤ actual) demand
          && b.probe_success_threshold ≤F whole (abs actual))
        (λ h. ground (arith, no_demand, same_way))
        (λ h (p0, p1, p2). ground (arith, p0, p1, p2, no_demand, same_way))

  resolve_running-Resolved :
      (reports : Reports F) (now grid_total : F) (b : LoadBalancer F) (probe : ProbeState F)
      → b.probe_state ≡ some probe
      → let (b', outcome) = resolve_running reports now grid_total b probe in
        Resolved reports now grid_total b (some probe) b' outcome
  unfolding resolve_running
  resolve_running-Resolved reports now grid_total b probe running =
      let missing = without (probe.active_ids ++ probe.backup_ids) (keys reports) in
      let probe' = proven b probe reports grid_total in
      let cleared = clear_running b running in
      elim (Bool-cases (ltb 0 (length missing))) [
        | inl e ↦ rw (e, resolve_running) (λ all. ground arith, cleared.0, cleared.1)
        | inr e ↦
            let all : missing ≡ [] = empty_of_length missing (ground arith) in
            elim (Bool-cases (leb 2 probe'.proof_samples)) [
              | inl f ↦
                  let good_pair = proven-Delivers b probe reports grid_total f in
                  rw (e, f, resolve_running)
                    (
                      all,
                      good_pair,
                      commit_probe-ends reports now probe' _,
                      commit_probe-priority reports now probe' _,
                    )
              | inr f ↦ elim (Bool-cases (probe'.deadline ≤F now)) [
                | inl g ↦
                    rw (e, f, g, resolve_running)
                      (
                        all,
                        unproven b probe reports grid_total f,
                        unfold proven in g,
                        reject_probe-ends probe' _,
                        unfold proven in reject_probe-priority probe' _,
                      )
                | inr g ↦
                    rw (e, f, g, resolve_running)
                      (
                        all,
                        unproven b probe reports grid_total f,
                        unfold proven in g,
                        (
                          probe'.proof_samples,
                          proven-IsCounted b probe reports grid_total,
                          ap (λ q. record b { probe_state = some q })
                              (proven_frame b probe reports grid_total),
                        ),
                      )
              ]
            ]
      ]

  resolve_at-Resolved :
      (reports : Reports F) (now grid_total : F) (b : LoadBalancer F) (o : Option (ProbeState F))
      → b.probe_state ≡ o
      → let (b', outcome) = resolve_at reports now grid_total b o in
        Resolved reports now grid_total b o b' outcome
  unfolding resolve_at
  resolve_at-Resolved reports now grid_total b none e = refl
  resolve_at-Resolved reports now grid_total b (some probe) e =
      resolve_running-Resolved reports now grid_total b probe e

  -- A poll without a probe changes nothing. A probe ends when a participant is missing, when a good
  -- sample follows one that was counted, which leaves the order as it is, or at its deadline, which
  -- puts the batteries that were active before it to the front and the candidate to the end; the first
  -- of these that holds decides, and else the probe stays and counts the sample: one more if it is
  -- good, none if it is not.
  pub resolve_probe-Resolved :
      (reports : Reports F) (now grid_total : F) (b : LoadBalancer F)
      → let (b', outcome) = resolve_probe reports now grid_total b in
        Resolved reports now grid_total b b.probe_state b' outcome
  unfolding resolve_probe
  resolve_probe-Resolved reports now grid_total b =
      resolve_at-Resolved reports now grid_total b b.probe_state refl
