-- ===== src/Lib.antt =====
-- AstraMeter emulates energy meters and steers batteries by what the meters read. This library
-- models the part of it that decides: the emulated CT002 of src/astrameter/ct002, which batteries
-- poll over UDP, the balancer that answers the polls, and the filters of the readings.
--
-- A poll is a datagram that `parse_request` takes apart; the CT002 notes the report of the battery;
-- `RequestDeduplicator` lets the poll through or drops it; all reports then go to `LoadBalancer`,
-- whose answer `build_payload` puts into a datagram. The parts meet as follows.
--
-- * Wire models src/astrameter/ct002/protocol.py. A datagram is a list of bytes, with `int` and `str`
--   of numbers in Wire.Numbers and the functions of the file in Wire.Datagram. An exception and a
--   refusal are values (`Error`, `Refusal`).
-- * Dedupe models src/astrameter/request_dedupe.py, the class with its three methods.
-- * Balancer models src/astrameter/ct002/balancer.py. Balancer.State and Balancer.Config hold the
--   records, Balancer.Saturation the `SaturationTracker`, Balancer.Quality the
--   `ControlQualityTracker`, and Balancer.Pool the state that the methods of `LoadBalancer` share.
--   Which batteries are active is decided by Balancer.Order (`_sync_pool`, `_active_slots`,
--   `force_rotation`), Balancer.Probe (the trial of a battery that takes over a slot),
--   Balancer.Rotation (the demand estimate and the swap of a saturated battery) and Balancer.Active
--   (`_compute_efficiency_deprioritized`, which calls these once per poll, and the fade of the
--   weights). Balancer.Shares holds the split of a total by weights and ceilings, Balancer.Limits the
--   ceilings of the batteries, and Balancer.Spill the standby reserve. What a battery is asked for is
--   decided by Balancer.Target (`compute_target` and `_compute_auto_target`): Balancer.Control
--   predicts the grid and trims imports, Balancer.MinPower lets those idle whose share is too small
--   to run on, Balancer.Headroom tells which of them cannot take more, Balancer.Residual and
--   Balancer.Correction compute the share, Balancer.Handoff the targets during probes, fades and
--   calls of the reserve, Balancer.Pace shortens the steps, and Balancer.Steer sends the result
--   (`_emit`).
-- * Consumers models src/astrameter/ct002/ct002.py as far as it keeps the batteries and answers them:
--   requests (Consumers.Requests), the store with reports, expiry and mode (Consumers.Store), the
--   settings of a user (Consumers.Settings), a history of these (Consumers.Events), peak shaving
--   (Consumers.Shaving), the sums by phase that a reply carries (Consumers.Buckets), a poll up to
--   the decision whether it is passed on to `_serve` (Consumers.Polls), and the answer (Consumers.Answers:
--   `_serve` with the target and the fields of the reply).
-- * Filters models the wrappers of src/astrameter/powermeter/wrappers that change a reading: hampel.py
--   (Filters.Hampel), smoothing.py (Filters.Smoothing), pid.py (Filters.Pid) and transform.py
--   (Filters.Transform).
-- * Prelude holds what the modules share: lists and integers over the native numbers, texts as lists
--   of bytes, a `dict` as an association list in the order of insertion, and floats, with the laws of
--   their products in Prelude.Scale, of their bounds in Prelude.Bounds, and sums and medians in
--   Prelude.Series. Tests holds runs on concrete inputs.
--
-- Python floats are an interface (Prelude.Float): the operations that the program uses, and records
-- of the laws that a theorem relies on, each true of correctly rounded arithmetic on finite
-- numbers that does not overflow. Theorems without such a record hold for any arithmetic. The tests
-- run on integers counted in thousandths, for which the laws are proved. A Python integer is an
-- integer of any size.
-- `sum` adds from left to right, without the compensation of rounding that newer interpreters apply.
--
-- A method of a class is a function from its state to its state. The reading of the clock is an
-- argument, as are what the callback of the meter returned, `math.isfinite`, `float("inf")`, and the
-- reading of the meter that a filter wraps. An identifier that is `None` is the empty text. A set is a list; where
-- the source walks through a set, the model does so in the order of the list. The length of a
-- number's digits bounds the loop of `decimal`, and the loop of `compute_length` has the four rounds
-- of the source. The loop of `capped_weighted_share` has one round more than there are batteries,
-- since each round but the last takes a battery off, and the loop of `_below_min_power` has as many
-- rounds as there are batteries.
--
-- Not modelled: logging and the figures that only the log reads (`_diag_` fields,
-- `_all_dc_surplus_warned`), the `reset_fn` callback, the snapshots for the status page, the event
-- listener, sockets, locks and tasks of the CT002, MQTT, the power meters and their other wrappers,
-- the simulator, the Shelly emulation, the configuration with its web pages, the ESPHome component (C++
-- and the Python that generates its build), and the web user interface, which is not Python.
pub mod Prelude
pub mod Dedupe
pub mod Wire
pub mod Balancer
pub mod Consumers
pub mod Filters
pub mod Tests
