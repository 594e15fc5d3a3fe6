-- ===== src/Bridge/State.antt =====
-- server.py: HealthRecord, BridgeHealth's state and the operations that change it, and
-- BridgeDiagnostics. What a call takes from outside is a `Moment`: the monotonic clock, read once a
-- call, in milliseconds; the UTC text; and whether the file system takes the record that is written.
use Prim.Native.String.{String}
use casambi_mqtt.Prelude.{ℕ, ◌+◌, Bool, true, false, Option, none, some, ◌==◌, if◌then◌else◌}
use casambi_mqtt.Prelude.Int.{pos}
use casambi_mqtt.Json.{Value, null, bool, int, float, str, obj, end, field}
use casambi_mqtt.Supervisor.State.{Phase, starting, ready, degraded, is_ready}
use casambi_mqtt.Health.Protocol.{phase_name, SnapshotSummary}

pub record Moment : Type 0 where
  pub now : ℕ
  pub time : String
  pub stored : Bool

-- What identifies the writing process, whether the last write failed, and what the file holds.
pub record HealthRecord : Type 0 where
  pub pid : ℕ
  pub start_ticks : Option ℕ
  pub boot_id : Option String
  pub failed : Bool
  pub file : Option Value

-- The health of the process. `record` is none if no path is configured; `state_publish_failing` and
-- the two last replies are the source's closure and dictionary.
pub record BridgeHealth : Type 0 where
  pub instance_id : String
  pub record_file : Option HealthRecord
  pub ever_ready : Bool
  pub mqtt_reconnects : ℕ
  pub ready_since : Option ℕ
  pub started : ℕ
  pub sequence : ℕ
  pub phase : Phase
  pub ble : String
  pub mqtt : String
  pub error : String
  pub state_publish_failing : Bool
  pub snapshot : SnapshotSummary
  pub snapshot_completed_at : Option ℕ
  pub last_status_reply_at : Option ℕ
  pub last_snapshot_reply_at : Option ℕ
  pub last_snapshot_request_at : Option ℕ
  pub status_failure_streak : ℕ

-- `SnapshotSummary()`
abbrev pub no_snapshot : SnapshotSummary
no_snapshot = record { generation = 0; units = 0; scenes = 0; failed = 0; age_s = none }

-- `BridgeHealth(instance_id=…, record=…)` at the time `now`
abbrev pub new_health : String → Option HealthRecord → ℕ → BridgeHealth
new_health instance_id record_file now = record {
  instance_id = instance_id;
  record_file = record_file;
  ever_ready = false;
  mqtt_reconnects = 0;
  ready_since = none;
  started = now;
  sequence = 0;
  phase = starting;
  ble = "unknown";
  mqtt = "unknown";
  error = "none";
  state_publish_failing = false;
  snapshot = no_snapshot;
  snapshot_completed_at = none;
  last_status_reply_at = none;
  last_snapshot_reply_at = none;
  last_snapshot_request_at = none;
  status_failure_streak = 0;
}

abbrev pub optional_int : Option ℕ → Value
optional_int none = null
optional_int (some n) = int (pos n)

abbrev pub optional_str : Option String → Value
optional_str none = null
optional_str (some s) = str s

abbrev pub optional_seconds : Option ℕ → Value
optional_seconds none = null
optional_seconds (some t) = float (pos t)

-- The record's data; HEALTH_RECORD_VERSION is 1.
unfoldable pub record_json : HealthRecord → BridgeHealth → ℕ → Value
record_json r h now = obj (
    field "record_version" (int (pos 1)) (
      field "instance_id" (str h.instance_id) (
        field "pid" (int (pos r.pid)) (
          field "start_ticks" (optional_int r.start_ticks) (
            field "boot_id" (optional_str r.boot_id) (
              field "phase" (str (phase_name h.phase)) (
                field "error" (str h.error) (
                  field "ble" (str h.ble) (
                    field "mqtt" (str h.mqtt) (
                      field "ever_ready" (bool h.ever_ready) (
                        field "mqtt_reconnects" (int (pos h.mqtt_reconnects)) (
                          field "ready_since_monotonic" (optional_seconds h.ready_since)
                            (field "updated_monotonic" (float (pos now)) end)))))))))))))

-- `HealthRecord.write`: the file is replaced as a whole, or left as it was.
unfoldable pub write : Moment → BridgeHealth → HealthRecord → HealthRecord
write m h r =
    if m.stored
    then record r { failed = false; file = some (record_json r h m.now) }
    else record r { failed = true }

unfoldable pub persist : Moment → BridgeHealth → BridgeHealth
persist m h = elim h.record_file [
  | none ↦ h
  | some r ↦ record h { record_file = some (write m h r) }
]

-- The fields that `set_phase` sets, before it persists them.
unfoldable pub enter_phase : Phase → String → ℕ → BridgeHealth → BridgeHealth
enter_phase phase error now h = record h {
  ready_since =
      if is_ready phase then (if is_ready h.phase then h.ready_since else some now) else none;
  ever_ready = if is_ready phase then true else h.ever_ready;
  phase = phase;
  error = error;
}

unfoldable pub set_phase : Phase → String → Moment → BridgeHealth → BridgeHealth
set_phase phase error m h = persist m (enter_phase phase error m.now h)

-- `session_started`, and the publisher of the session that run_connected_bridge then installs
unfoldable pub session_started : Moment → BridgeHealth → BridgeHealth
session_started m h =
    set_phase starting "none" m (record h { ble = "connected"; mqtt = "connected" })

pub record SnapshotResult : Type 0 where
  pub units : ℕ
  pub scenes : ℕ
  pub failed : ℕ

-- `ok`
abbrev pub is_ok : SnapshotResult → Bool
is_ok r = r.failed == 0

-- The new generation is that of the state's snapshot.
unfoldable pub record_snapshot : SnapshotResult → Moment → BridgeHealth → BridgeHealth
record_snapshot r m h =
    let taken : BridgeHealth = record h {
      snapshot = record {
        generation = h.snapshot.generation + 1;
        units = r.units;
        scenes = r.scenes;
        failed = r.failed;
        age_s = none;
      };
      snapshot_completed_at = some m.now;
    } in
    if is_ok r
    then set_phase ready "none" m taken
    else set_phase degraded "snapshot_publish_failed" m taken

pub record BridgeDiagnostics : Type 0 where
  pub unit_callbacks : ℕ
  pub commands_received : ℕ
  pub unit_queue_depth : ℕ
  pub unit_queue_peak : ℕ
  pub unit_publish_attempted : ℕ
  pub unit_publish_confirmed : ℕ
  pub unit_publish_failed : ℕ
  pub unit_publish_coalesced : ℕ
  pub switch_queue_depth : ℕ
  pub switch_publish_attempted : ℕ
  pub switch_dropped : ℕ
  pub ble_disconnects : ℕ
  pub loop_lag_ms_max : ℕ
  pub health_status_published : ℕ
  pub health_status_failed : ℕ
  pub health_requests_rate_limited : ℕ

-- `BridgeDiagnostics()`
abbrev pub no_diagnostics : BridgeDiagnostics
no_diagnostics = record {
  unit_callbacks = 0;
  commands_received = 0;
  unit_queue_depth = 0;
  unit_queue_peak = 0;
  unit_publish_attempted = 0;
  unit_publish_confirmed = 0;
  unit_publish_failed = 0;
  unit_publish_coalesced = 0;
  switch_queue_depth = 0;
  switch_publish_attempted = 0;
  switch_dropped = 0;
  ble_disconnects = 0;
  loop_lag_ms_max = 0;
  health_status_published = 0;
  health_status_failed = 0;
  health_requests_rate_limited = 0;
}
