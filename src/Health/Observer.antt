-- ===== src/Health/Observer.antt =====
-- custom_components/casambi_mqtt/health.py: HealthObserver. A call reads the clock once, as `now`; the
-- listeners and the diagnostics are left out; `consumer_ready()` is an argument of tick.
use Prim.Native.String.{String}
use text.Mathlib.Text.{starts_with}
use casambi_mqtt.Prelude.{
  ℕ, suc, ◌+◌, Bool, true, false, not, ◌&&◌, ◌||◌, Option, none, some, ltb, leb, if◌then◌else◌,
}
use casambi_mqtt.Prelude.Text.{str_length}
use casambi_mqtt.Json.{Value}
use casambi_mqtt.Supervisor.Clock.{seconds}
use casambi_mqtt.Health.Bridge.{
  HealthSettings, BridgeState, unknown, unsupported, healthy, BridgeStatusTracker, new_tracker,
  on_message, evaluate,
}
use casambi_mqtt.Health.Probe.{
  ProbeKind, status_probe, consumer_probe, ProbeOutcome, passed, no_reply, PendingProbe,
  ProbeResult, ProbeTracker, new_probes, start, check, on_reply,
}
use casambi_mqtt.Health.Collect.{record_raw, record_processed, supersede}

-- One entry for each kind of probe: the dictionaries that ProbeKind keys.
pub record PerKind (A : Type 0) : Type 0 where
  pub of_status : A
  pub of_consumer : A

abbrev pub at_kind : {A : Type 0} → ProbeKind → PerKind A → A
at_kind status_probe m = m.of_status
at_kind consumer_probe m = m.of_consumer

abbrev pub put_kind : {A : Type 0} → ProbeKind → A → PerKind A → PerKind A
put_kind status_probe a m = record m { of_status = a }
put_kind consumer_probe a m = record m { of_consumer = a }

pub record ConsumerCounters : Type 0 where
  pub raw_messages : ℕ
  pub processed_messages : ℕ
  pub last_raw_at : Option ℕ
  pub last_processed_at : Option ℕ

pub record HealthObserver : Type 0 where
  pub settings : HealthSettings
  pub event_prefix : String
  pub bridge : BridgeStatusTracker
  pub probes : ProbeTracker
  pub consumer : ConsumerCounters
  pub last_result : PerKind (Option ProbeResult)
  pub last_ok : PerKind (Option ℕ)
  pub next_due : PerKind ℕ

abbrev pub new_observer : HealthSettings → String → ℕ → HealthObserver
new_observer settings event_prefix now =
    let due = now + seconds settings.startup_grace_seconds in
    record {
      settings = settings;
      event_prefix = event_prefix;
      bridge = new_tracker settings now;
      probes = new_probes settings;
      consumer = record {
        raw_messages = 0;
        processed_messages = 0;
        last_raw_at = none;
        last_processed_at = none;
      };
      last_result = record { of_status = none; of_consumer = none };
      last_ok = record { of_status = none; of_consumer = none };
      next_due = record { of_status = due; of_consumer = due };
    }

abbrev pub is_passed : ProbeOutcome → Bool
is_passed passed = true
is_passed _ = false

-- `_publish_result`, with the tracker that the result came with
unfoldable pub publish_result : Option ProbeResult × ProbeTracker → HealthObserver → HealthObserver
publish_result (none, probes) o = record o { probes = probes }
publish_result (some r, probes) o = record o {
  probes = probes;
  last_result = put_kind r.kind (some r) o.last_result;
  last_ok =
      if is_passed r.outcome then put_kind r.kind (some r.finished_at) o.last_ok else o.last_ok;
}

abbrev pub current_instance : BridgeStatusTracker → Option String
current_instance t = elim t.status [ none ↦ none | some s ↦ some s.instance_id ]

-- A status probe got no reply, and none ever succeeded.
abbrev pub never_answered : HealthObserver → Bool
never_answered o = elim o.last_result.of_status [
  | none ↦ false
  | some r ↦ elim r.outcome [
    | no_reply ↦ elim o.last_ok.of_status [ none ↦ true | some t ↦ false ]
    | _ ↦ false
  ]
]

unfoldable pub bridge_state : HealthObserver → ℕ → BridgeState
bridge_state o now = elim (evaluate o.bridge now) [
  | unknown ↦ if never_answered o then unsupported else unknown
  | state ↦ state
]

unfoldable pub on_status : Option Value → Bool → ℕ → HealthObserver → HealthObserver
on_status payload retain now o =
    let (accepted, bridge) = on_message payload retain now o.bridge in
    let seen : HealthObserver = record o { bridge = bridge } in
    if accepted
    then publish_result (supersede now (current_instance bridge) o.probes) seen
    else seen

unfoldable pub observe_reply : Option Value → ℕ → HealthObserver → HealthObserver
observe_reply payload now o =
    publish_result (on_reply payload now (current_instance o.bridge) o.probes) o

-- A topic below the prefix, never the prefix itself.
abbrev pub is_unit_event_topic : String → String → Bool
is_unit_event_topic topic event_prefix =
    starts_with topic event_prefix && ltb (str_length event_prefix) (str_length topic)

-- `has_payload`: the payload is not empty.
unfoldable pub on_raw_unit : String → Bool → Option ℕ → ℕ → HealthObserver → HealthObserver
on_raw_unit topic has_payload identity now o =
    let counters : ConsumerCounters = record o.consumer {
      raw_messages = suc o.consumer.raw_messages;
      last_raw_at = some now;
    } in
    if not has_payload || not (is_unit_event_topic topic o.event_prefix)
    then o
    else publish_result (record_raw topic now identity o.probes) (record o { consumer = counters })

unfoldable pub on_processed_unit : String → Option ℕ → ℕ → HealthObserver → HealthObserver
on_processed_unit topic identity now o =
    let counters : ConsumerCounters = record o.consumer {
      processed_messages = suc o.consumer.processed_messages;
      last_processed_at = some now;
    } in
    if not (is_unit_event_topic topic o.event_prefix)
    then o
    else publish_result (record_processed topic now identity o.probes)
        (record o { consumer = counters })

-- `delay` is in milliseconds here.
unfoldable pub schedule : ProbeKind → ℕ → ℕ → HealthObserver → HealthObserver
schedule kind delay now o = record o { next_due = put_kind kind (now + delay) o.next_due }

abbrev pub interval : ProbeKind → HealthSettings → ℕ
interval status_probe s = seconds s.probe_interval_seconds
interval consumer_probe s = seconds s.consumer_probe_interval_seconds

unfoldable pub start_probe :
    ProbeKind → String → ℕ → HealthObserver → Option PendingProbe × HealthObserver
start_probe kind token now o =
    let (probe, probes) = start kind token now (current_instance o.bridge) o.probes in
    let begun : HealthObserver = record o { probes = probes } in
    (
      probe,
      elim probe [ none ↦ begun | some p ↦ schedule kind (interval kind o.settings) now begun ],
    )

abbrev pub is_healthy : BridgeState → Bool
is_healthy healthy = true
is_healthy _ = false

-- May a probe of this kind be started now?
abbrev pub may_start : ProbeKind → Bool → ℕ → HealthObserver → Bool
may_start status_probe consumer_ready now o = leb o.next_due.of_status now
may_start consumer_probe consumer_ready now o =
    leb o.next_due.of_consumer now && (is_healthy (evaluate o.bridge now) && consumer_ready)

-- The kinds, the most overdue first; on a tie the status probe, which the dictionary has first.
abbrev pub first_kind : HealthObserver → ProbeKind
first_kind o =
    if ltb o.next_due.of_consumer o.next_due.of_status then consumer_probe else status_probe

abbrev pub other : ProbeKind → ProbeKind
other status_probe = consumer_probe
other consumer_probe = status_probe

unfoldable pub tick : Bool → String → ℕ → HealthObserver → Option PendingProbe × HealthObserver
tick consumer_ready token now o =
    let o' = publish_result (check now o.probes) o in
    let first = first_kind o' in
    elim o'.probes.pending [
      | some p ↦ (none, o')
      | none ↦
          if may_start first consumer_ready now o'
          then start_probe first token now o'
          else if may_start (other first) consumer_ready now o'
          then start_probe (other first) token now o'
          else (none, o')
    ]
