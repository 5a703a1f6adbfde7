-- ===== src/Consumers/Store.antt =====
-- The consumers of `CT002` in src/astrameter/ct002/ct002.py: the record of each, the store, reports,
-- expiry and the mode. The reading of the clock is an argument; the event listener is not part of
-- the state.
use astra_meter.Prelude.{
  ℕ, ◌+◌, Bool, true, false, ◌&&◌, ◌||◌, not, List, [], ◌∷◌, Option, none, some, if◌then◌else◌,
}
use astra_meter.Prelude.Int.{ℤ, pos}
use astra_meter.Prelude.Text.{Text, text}
use astra_meter.Prelude.Dict.{get, put, del, discard}
use astra_meter.Prelude.Float.{Float, ◌<F◌, ◌+F◌, ◌-F◌, ◌*F◌, nought, whole, fmax}
use astra_meter.Dedupe.{Deduplicator, purge_older_than}
use astra_meter.Balancer.State.{Mode, auto, manual, inactive}
use astra_meter.Balancer.Pool.{LoadBalancer, remove_consumer}
use astra_meter.Consumers.Requests.{normalize_phase}

pub record Consumer (F : Type 0) : Type 0 where
  pub values : Option (List F)
  pub phase : Text
  pub power : ℤ
  pub last_instructed_power : F
  pub timestamp : F
  pub device_type : Text
  pub poll_interval : Option F
  pub last_answer_at : F
  pub answer_interval : Option F
  pub participates : Bool
  pub manual_target : F
  pub manual_enabled : Bool
  pub active : Bool
  pub distribution_weight : F
  pub efficiency_window_weight : F
  pub min_dc_output : Option F
  pub min_charge_power : Option F
  pub min_discharge_power : Option F
  pub max_charge_power : Option F
  pub max_discharge_power : Option F
  pub last_ip : Text

pub record ConsumerOverride (F : Type 0) : Type 0 where
  pub manual_target : F
  pub manual_enabled : Bool
  pub active : Bool
  pub distribution_weight : F
  pub efficiency_window_weight : F
  pub min_dc_output : Option F
  pub min_charge_power : Option F
  pub min_discharge_power : Option F
  pub max_charge_power : Option F
  pub max_discharge_power : Option F

pub record Ct002 (F : Type 0) : Type 0 where
  pub consumers : List (Text × Consumer F)
  pub consumer_overrides : List (Text × ConsumerOverride F)
  pub balancer : LoadBalancer F
  pub dedup : Deduplicator F
  pub dedupe_time_window : F
  pub consumer_ttl : Option F
  pub active_control : Bool
  pub peakshaving_threshold : F
  pub inspecting : List Text
  pub last_target_by_consumer : List (Text × List F)
  pub rev : ℕ
  pub ct_type : Text
  pub ct_mac : Text
  pub wifi_rssi : ℤ
  pub info_idx_counter : ℕ
  pub last_smooth_target : F
  pub last_grid_values : Option (List F)
  pub last_grid_at : F
  pub last_meter_failed : Bool

module _ {F : Type 0} ⦃fl : Float F⦄ where
  -- `Consumer(consumer_id=...)`; the id is the key.
  abbrev pub fresh : Consumer F
  fresh = record {
    values = none;
    phase = text "A";
    power = pos 0;
    last_instructed_power = nought;
    timestamp = nought;
    device_type = [];
    poll_interval = none;
    last_answer_at = nought;
    answer_interval = none;
    participates = true;
    manual_target = nought;
    manual_enabled = false;
    active = true;
    distribution_weight = whole 1;
    efficiency_window_weight = whole 1;
    min_dc_output = none;
    min_charge_power = none;
    min_discharge_power = none;
    max_charge_power = none;
    max_discharge_power = none;
    last_ip = [];
  }

  -- `_ema_interval`.
  unfoldable pub ema_interval : Option F → F → F
  ema_interval none raw = fl.round_to 1 raw
  ema_interval (some previous) raw =
      let alpha = fl.decimal (pos 3) 1 in
      fl.round_to 1 (alpha *F raw +F (whole 1 -F alpha) *F previous)

  -- `_apply_override`, given what is saved.
  unfoldable pub apply_override : Option (ConsumerOverride F) → Consumer F → Consumer F
  apply_override none c = c
  apply_override (some o) c = record c {
    manual_target = o.manual_target;
    manual_enabled = o.manual_enabled;
    active = o.active;
    distribution_weight = o.distribution_weight;
    efficiency_window_weight = o.efficiency_window_weight;
    min_dc_output = o.min_dc_output;
    min_charge_power = o.min_charge_power;
    min_discharge_power = o.min_discharge_power;
    max_charge_power = o.max_charge_power;
    max_discharge_power = o.max_discharge_power;
  }

  -- The override that `_snapshot_override` saves.
  abbrev pub override_of : Consumer F → ConsumerOverride F
  override_of c = record {
    manual_target = c.manual_target;
    manual_enabled = c.manual_enabled;
    active = c.active;
    distribution_weight = c.distribution_weight;
    efficiency_window_weight = c.efficiency_window_weight;
    min_dc_output = c.min_dc_output;
    min_charge_power = c.min_charge_power;
    min_discharge_power = c.min_discharge_power;
    max_charge_power = c.max_charge_power;
    max_discharge_power = c.max_discharge_power;
  }

  -- A known consumer, else one that is created with what is saved.
  unfoldable pub known_or_created : Option (Consumer F) → Option (ConsumerOverride F) → Consumer F
  unfolding apply_override
  known_or_created (some c) saved = c
  known_or_created none saved = apply_override saved fresh

  -- What `_get_consumer` returns, and its change of the store with what the caller makes of it.
  unfoldable pub get_consumer : Text → Ct002 F → Consumer F
  unfolding known_or_created
  get_consumer cid s = known_or_created (get cid s.consumers) (get cid s.consumer_overrides)

  unfoldable pub update_consumer : (Consumer F → Consumer F) → Text → Ct002 F → Ct002 F
  unfolding get_consumer
  update_consumer f cid s = record s { consumers = put cid (f (get_consumer cid s)) s.consumers }

  unfoldable pub snapshot_override : Text → Consumer F → Ct002 F → Ct002 F
  snapshot_override cid c s = record s {
    consumer_overrides = put cid (override_of c) s.consumer_overrides;
  }

  -- `_track_answer`.
  unfoldable pub track_answer : Text → F → Ct002 F → Ct002 F
  unfolding ema_interval
  track_answer cid now s = elim (get cid s.consumers) [
    | none ↦ s
    | some c ↦
        let interval =
          if nought <F c.last_answer_at
          then some (ema_interval c.answer_interval (now -F c.last_answer_at))
          else c.answer_interval in
        record s {
          consumers =
              put cid (record c { answer_interval = interval; last_answer_at = now }) s.consumers;
        }
  ]

  -- `_update_consumer_report`, without its log lines.
  unfoldable pub reported : Text → ℤ → Text → Text → Bool → F → Consumer F → Consumer F
  unfolding ema_interval normalize_phase
  reported phase power device_type source_ip participates now c = record c {
    poll_interval =
        if nought <F c.timestamp
        then some (ema_interval c.poll_interval (now -F c.timestamp))
        else c.poll_interval;
    phase = normalize_phase phase;
    power = power;
    timestamp = now;
    device_type = device_type;
    participates = participates;
    last_ip = elim source_ip [ [] ↦ c.last_ip | x ∷ ip ↦ x ∷ ip ];
  }

  unfoldable pub update_consumer_report :
      Text → Text → ℤ → Text → Text → Bool → F → Ct002 F → Ct002 F
  unfolding reported update_consumer
  update_consumer_report cid phase power device_type source_ip participates now =
      update_consumer (reported phase power device_type source_ip participates now) cid

  unfoldable pub consumer_ttl_seconds : Ct002 F → Consumer F → F
  consumer_ttl_seconds s c = elim s.consumer_ttl [
    | some ttl ↦ ttl
    | none ↦ elim c.poll_interval [
      | none ↦ whole 30
      | some interval ↦ fmax (whole 5) (whole 2 *F interval)
    ]
  ]

  unfoldable pub consumer_expired : Ct002 F → F → Consumer F → Bool
  unfolding consumer_ttl_seconds
  consumer_expired s now c = nought <F c.timestamp && consumer_ttl_seconds s c <F now -F c.timestamp

  -- The keys of the consumers that are past their time.
  unfoldable pub stale : (Consumer F → Bool) → List (Text × Consumer F) → List Text
  stale expired [] = []
  stale expired ((cid, c) ∷ d) =
      let rest = stale expired d in if expired c then cid ∷ rest else rest

  unfoldable pub evict : Text → Ct002 F → Ct002 F
  evict cid s = record s {
    consumers = del cid s.consumers;
    balancer = remove_consumer cid s.balancer;
    last_target_by_consumer = del cid s.last_target_by_consumer;
    inspecting = discard cid s.inspecting;
  }

  unfoldable pub evict_all : List Text → Ct002 F → Ct002 F
  unfolding evict
  evict_all [] s = s
  evict_all (cid ∷ cids) s = evict_all cids (evict cid s)

  -- `_cleanup_consumers`.
  unfoldable pub cleanup_consumers : F → Ct002 F → Ct002 F
  unfolding consumer_expired stale evict_all
  cleanup_consumers now s =
      let gone = stale (consumer_expired s now) s.consumers in
      let cleaned = evict_all gone s in
      let bumped : ℕ = elim gone [ [] ↦ cleaned.rev | _ ∷ _ ↦ cleaned.rev + 1 ] in
      let horizon : F = elim s.consumer_ttl [
        | some ttl ↦ ttl
        | none ↦ fmax (whole 30) s.dedupe_time_window
      ] in
      record cleaned { rev = bumped; dedup = purge_older_than s.dedup horizon now }

  -- `_consumer_mode`, with the setpoint of a manual consumer.
  unfoldable pub consumer_mode : Text → Ct002 F → Mode × F
  consumer_mode [] s = (auto, nought)
  consumer_mode (k ∷ cid) s = elim (get (k ∷ cid) s.consumers) [
    | none ↦ (auto, nought)
    | some c ↦
        if not c.active || not c.participates
        then (inactive, nought)
        else if c.manual_enabled
        then (manual, c.manual_target)
        else (auto, nought)
  ]
