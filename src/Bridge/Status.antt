-- ===== src/Bridge/Status.antt =====
-- server.py: the messages that BridgeHealth makes, and their publication. Whether the broker confirms
-- a publish in time is an argument; a message enters as the value that its JSON loads to.
use Prim.Native.String.{String}
use casambi_mqtt.Prelude.{
  ℕ, suc, ◌+◌, ◌-◌, ◌/◌, Bool, true, false, Option, none, some, ltb, if◌then◌else◌,
}
use casambi_mqtt.Supervisor.Clock.{seconds}
use casambi_mqtt.Supervisor.State.{Phase, offline, degraded, is_ready}
use casambi_mqtt.Health.Protocol.{
  ReplyType, status_reply, snapshot_reply, Result, BridgeStatus, Counters, HealthReply,
}
use casambi_mqtt.Bridge.State.{
  Moment, BridgeHealth, no_snapshot, SnapshotResult, persist, BridgeDiagnostics,
}

-- `_effective_phase`
abbrev pub publishes_late : BridgeHealth → Bool
publishes_late h = if is_ready h.phase then h.state_publish_failing else false

abbrev pub effective_phase : BridgeHealth → Phase
effective_phase h = if publishes_late h then degraded else h.phase

abbrev pub effective_error : BridgeHealth → String
effective_error h = if publishes_late h then "state_publish_failed" else h.error

-- `int(now - then)`
abbrev pub whole_seconds : ℕ → ℕ → ℕ
whole_seconds now since = (now - since) / 1000

abbrev pub snapshot_age : ℕ → Option ℕ → Option ℕ
snapshot_age now none = none
snapshot_age now (some at) = some (whole_seconds now at)

-- The status with the sequence that the state has then.
abbrev pub status_of : Moment → BridgeHealth → BridgeStatus
status_of m h = record {
  instance_id = h.instance_id;
  sequence = some h.sequence;
  phase = effective_phase h;
  ble = h.ble;
  mqtt = h.mqtt;
  uptime_s = some (whole_seconds m.now h.started);
  snapshot = record h.snapshot { age_s = snapshot_age m.now h.snapshot_completed_at };
  error = effective_error h;
  time = some m.time;
}

unfoldable pub build_status : Moment → BridgeHealth → BridgeStatus × BridgeHealth
build_status m h =
    let counted : BridgeHealth = record h { sequence = suc h.sequence } in
    (status_of m counted, counted)

-- `will_payload`
unfoldable pub will_payload : BridgeHealth → BridgeStatus
will_payload h = record {
  instance_id = h.instance_id;
  sequence = none;
  phase = offline;
  ble = "unknown";
  mqtt = "disconnected";
  uptime_s = none;
  snapshot = no_snapshot;
  error = "connection_lost";
  time = none;
}

abbrev pub count_status : Bool → Option BridgeDiagnostics → Option BridgeDiagnostics
count_status confirmed none = none
count_status true (some d) =
    some (record d { health_status_published = suc d.health_status_published })
count_status false (some d) = some (record d { health_status_failed = suc d.health_status_failed })

-- What is sent, and whether it was confirmed.
pub record Publication : Type 0 where
  pub status : BridgeStatus
  pub confirmed : Bool

unfoldable pub publish_status :
    Moment
    → Bool
    → BridgeHealth × Option BridgeDiagnostics
    → Publication × BridgeHealth × Option BridgeDiagnostics
publish_status m confirmed (h, d) =
    let (status, h') = build_status m (persist m h) in
    (
      record { status = status; confirmed = confirmed },
      record h' { status_failure_streak = if confirmed then 0 else suc h'.status_failure_streak },
      count_status confirmed d,
    )

-- `now - last < HEALTH_REPLY_MIN_INTERVAL`, and the like; intervals are in seconds.
abbrev pub is_within : ℕ → ℕ → Option ℕ → Bool
is_within interval now none = false
is_within interval now (some last) = ltb now (last + seconds interval)

abbrev pub last_reply : ReplyType → BridgeHealth → Option ℕ
last_reply status_reply h = h.last_status_reply_at
last_reply snapshot_reply h = h.last_snapshot_reply_at

abbrev pub put_reply : ReplyType → ℕ → BridgeHealth → BridgeHealth
put_reply status_reply now h = record h { last_status_reply_at = some now }
put_reply snapshot_reply now h = record h { last_snapshot_reply_at = some now }

unfoldable pub reply_allowed : ReplyType → ℕ → BridgeHealth → Bool × BridgeHealth
reply_allowed kind now h =
    if is_within 1 now (last_reply kind h) then (false, h) else (true, put_reply kind now h)

unfoldable pub snapshot_request_allowed : ℕ → BridgeHealth → Bool × BridgeHealth
snapshot_request_allowed now h =
    if is_within 30 now h.last_snapshot_request_at
    then (false, h)
    else (true, record h { last_snapshot_request_at = some now })

-- The counters of a snapshot reply, with its generation.
abbrev pub counters_of : SnapshotResult → ℕ → Counters
counters_of r generation = record {
  units = r.units;
  scenes = r.scenes;
  failed = r.failed;
  generation = generation;
}

abbrev pub type_for : Option Counters → ReplyType
type_for none = status_reply
type_for (some c) = snapshot_reply

-- `publish_reply`: the reply that is sent; that its publish fails changes nothing.
unfoldable pub publish_reply :
    Moment → String → Result → Option Counters → BridgeHealth → HealthReply × BridgeHealth
publish_reply m request_id result counters h =
    let (status, h') = build_status m h in
    (
      record {
        type = type_for counters;
        request_id = request_id;
        instance_id = h.instance_id;
        result = result;
        status = status;
        counters = counters;
      },
      h',
    )
