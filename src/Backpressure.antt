-- ===== src/Backpressure.antt =====
-- src/relayna/observability/backpressure.py: signals of pressure. Depths and counts are numbers; the
-- texts of `reason` and `recommended_action` are left out.
pub mod Signals
use relayna.Prelude.{
  ◌≡◌, Option, String, List, ℕ, Bool, some, false, if◌then◌else◌, true, ◌∷◌, none, map, [], count,
  leb, ◌++◌, nat_eq, ltb, ◌||◌, ◌+◌, not,
}
use relayna.Prelude.Text.{contains}
use relayna.Topology.{stripped_all}

pub data PressureSeverity : Type 0 where
  normal warning critical unknown : PressureSeverity

-- The `kind` of a signal.
pub data Kind : Type 0 where
  pressure_collector_unavailable queue_inspection_unavailable queue_depth_high : Kind
  consumer_count_zero worker_count_zero worker_heartbeat_stale worker_not_running : Kind
  lease_expiry_rate_high dlq_growth_high : Kind

pub record RuntimePressureSignal : Type 0 where
  pub kind : Kind
  pub severity : PressureSeverity
  pub scope_id : Option String
  pub value : Option ℕ
  pub threshold : Option ℕ

pub record RuntimeQueueObservation : Type 0 where
  pub queue_name : String
  pub ready : ℕ
  pub consumers : ℕ

pub record RuntimePressureSnapshot : Type 0 where
  pub signals : List RuntimePressureSignal
  pub queues : List RuntimeQueueObservation

abbrev reaches : ℕ → Option ℕ → Bool
reaches value none = false
reaches value (some threshold) = leb threshold value

unfoldable pub severity_for_thresholds : Option ℕ → Option ℕ → Option ℕ → PressureSeverity
severity_for_thresholds none warning_threshold critical_threshold = unknown
severity_for_thresholds (some value) warning_threshold critical_threshold =
    if reaches value critical_threshold
    then critical
    else if reaches value warning_threshold
    then warning
    else normal

abbrev is_critical : PressureSeverity → Bool
is_critical critical = true
is_critical _ = false

pub record Thresholds : Type 0 where
  pub warn : ℕ
  pub crit : ℕ

-- `critical if severity == CRITICAL else warning`
abbrev shown_threshold : Thresholds → PressureSeverity → ℕ
shown_threshold t s = if is_critical s then t.crit else t.warn

unfoldable pub severity_of : Thresholds → ℕ → PressureSeverity
severity_of t value = severity_for_thresholds (some value) (some t.warn) (some t.crit)

-- The signals and queues of all batches, in order.
unfoldable pub combine : List RuntimePressureSnapshot → RuntimePressureSnapshot
combine [] = record { signals = []; queues = [] }
combine (b ∷ bs) = record {
  signals = b.signals ++ (combine bs).signals;
  queues = b.queues ++ (combine bs).queues;
}

-- `RuntimePressureService.snapshot`: a collector's snapshot, or its name where it raised; and the
-- signals that the metrics recorder is called with.
pub data Collected : Type 0 where
  collected : RuntimePressureSnapshot → Collected
  raised : String → Collected

unfoldable pub collect : Collected → RuntimePressureSnapshot
collect (collected s) = s
collect (raised name) = record {
  signals =
      record {
        kind = pressure_collector_unavailable;
        severity = unknown;
        scope_id = some name;
        value = none;
        threshold = none;
      }
      ∷ [];
  queues = [];
}

unfoldable pub snapshot : List Collected → RuntimePressureSnapshot
unfolding collect combine
snapshot collectors = combine (map collect collectors)

abbrev pub recorded : Bool → RuntimePressureSnapshot → List RuntimePressureSignal
recorded has_recorder s = if has_recorder then s.signals else []

-- `QueuePressureCollector`. What `inspect_queue` returns, with both counts, as Relayna's RabbitMQ client
-- does; the callback of a caller that returns an object without them is left out.
pub record Inspection : Type 0 where
  pub message_count : ℕ
  pub consumer_count : ℕ

-- `dict.fromkeys(...)`: the first of equal names, of the stripped names that are not empty.
unfoldable pub first_of_each : List String → List String → List String
first_of_each seen [] = []
first_of_each seen (n ∷ ns) =
    let old = contains n seen in
    let rest = first_of_each (if old then seen else n ∷ seen) ns in if old then rest else n ∷ rest

unfoldable pub queue_names : List String → List String
unfolding first_of_each
queue_names given = first_of_each [] (stripped_all given)

abbrev idle_signal : String → List RuntimePressureSignal
idle_signal name =
    record {
      kind = consumer_count_zero;
      severity = critical;
      scope_id = some name;
      value = some 0;
      threshold = some 1;
    }
    ∷ []

unfoldable pub inspected : Thresholds → String → Option Inspection → RuntimePressureSnapshot
inspected t name none = record {
  signals =
      record {
        kind = queue_inspection_unavailable;
        severity = unknown;
        scope_id = some name;
        value = none;
        threshold = none;
      }
      ∷ [];
  queues = [];
}
inspected t name (some i) = record {
  signals =
      record {
        kind = queue_depth_high;
        severity = severity_of t i.message_count;
        scope_id = some name;
        value = some i.message_count;
        threshold = some (shown_threshold t (severity_of t i.message_count));
      }
      ∷ (if nat_eq i.consumer_count 0 then idle_signal name else []);
  queues = record { queue_name = name; ready = i.message_count; consumers = i.consumer_count } ∷ [];
}

-- `inspect name` is `none` where the inspection returns `None` or raises. The batches are in the order
-- of the names, as `map_bounded` returns them.
unfoldable pub collect_snapshot :
    Thresholds → (String → Option Inspection) → List String → RuntimePressureSnapshot
unfolding inspected combine
collect_snapshot t inspect names = combine (map (λ name. inspected t name (inspect name)) names)

-- `WorkerHealthPressureCollector`; a lease counts by whether it has expired.
pub record WorkerHealth : Type 0 where
  pub worker_name : String
  pub last_heartbeat_at : Option ℕ
  pub running : Bool
  pub active_leases : List Bool

-- `now - heartbeat_at > stale_after_seconds`
abbrev is_stale : ℕ → ℕ → Option ℕ → Bool
is_stale now stale_after none = true
is_stale now stale_after (some at) = ltb (at + stale_after) now

unfoldable pub health_signals : ℕ → ℕ → WorkerHealth → List RuntimePressureSignal
health_signals now stale_after w =
    let stale = is_stale now stale_after w.last_heartbeat_at in
    if stale || not w.running
    then (record {
      kind = if stale then worker_heartbeat_stale else worker_not_running;
      severity = warning;
      scope_id = some w.worker_name;
      value = none;
      threshold = none;
    }
        ∷ [])
    else []

unfoldable pub lease_signals : WorkerHealth → List RuntimePressureSignal
lease_signals w =
    let expired = count (λ e. e) w.active_leases in
    if ltb 0 expired
    then (record {
      kind = lease_expiry_rate_high;
      severity = warning;
      scope_id = some w.worker_name;
      value = some expired;
      threshold = some 1;
    }
        ∷ [])
    else []

unfoldable pub worker_signals : ℕ → ℕ → List WorkerHealth → List RuntimePressureSignal
unfolding health_signals lease_signals
worker_signals now stale_after [] = []
worker_signals now stale_after (w ∷ ws) =
    health_signals now stale_after w ++ lease_signals w ++ worker_signals now stale_after ws

unfoldable pub collect_workers : ℕ → ℕ → List WorkerHealth → List RuntimePressureSignal
unfolding worker_signals
collect_workers now stale_after [] =
    record {
      kind = worker_count_zero;
      severity = unknown;
      scope_id = none;
      value = some 0;
      threshold = some 1;
    }
    ∷ []
collect_workers now stale_after (w ∷ ws) = worker_signals now stale_after (w ∷ ws)

-- `DLQPressureCollector`
pub record DlqSummary : Type 0 where
  pub queue_name : String
  pub message_count : Option ℕ
  pub indexed_count : ℕ

abbrev dlq_value : DlqSummary → ℕ
dlq_value d = elim d.message_count [ none ↦ d.indexed_count | some n ↦ n ]

unfoldable pub collect_dlq : Thresholds → List DlqSummary → List RuntimePressureSignal
collect_dlq t [] = []
collect_dlq t (d ∷ ds) =
    record {
      kind = dlq_growth_high;
      severity = severity_of t (dlq_value d);
      scope_id = some d.queue_name;
      value = some (dlq_value d);
      threshold = some (shown_threshold t (severity_of t (dlq_value d)));
    }
    ∷ collect_dlq t ds
