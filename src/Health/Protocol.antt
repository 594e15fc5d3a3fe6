-- ===== src/Health/Protocol.antt =====
-- custom_components/casambi_mqtt/health_protocol.py: the status and reply messages, how they are
-- written and how they are read. A payload is the value that json.loads makes of it, or `none` where
-- it raises. The phases are the supervisor's, which the source spells alike.
use Prim.Native.String.{String}
use text.Mathlib.Text.{◌==◌ as str_eq}
use casambi_mqtt.Prelude.{
  ℕ, Bool, true, false, ◌&&◌, ◌||◌, Option, none, some, List, any, leb, ◌==◌, if◌then◌else◌,
}
use casambi_mqtt.Prelude.Int.{pos}
use casambi_mqtt.Prelude.Maybe.{◌>>=◌}
use casambi_mqtt.Prelude.Text.{str_length, all_chars, is_letter, is_digit}
use casambi_mqtt.Json.{
  Value, null, int, str, obj, end, field, as_text, as_count, as_matching, require,
}
use casambi_mqtt.Supervisor.State.{
  Phase, starting, discovering, connecting, ready, degraded, offline,
}

abbrev pub protocol_version : ℕ
protocol_version = 1

-- MAX_COUNTER, 2 ** 53 - 1
abbrev pub max_counter : ℕ
max_counter = 9007199254740991

abbrev pub phase_name : Phase → String
phase_name starting = "starting"
phase_name discovering = "discovering"
phase_name connecting = "connecting"
phase_name ready = "ready"
phase_name degraded = "degraded"
phase_name offline = "offline"

abbrev pub is_offline : Phase → Bool
is_offline offline = true
is_offline _ = false

-- REPLY_TYPES and RESULTS
pub data ReplyType : Type 0 where
  status_reply snapshot_reply : ReplyType

pub data Result : Type 0 where
  ok failed rate_limited busy : Result

abbrev pub type_name : ReplyType → String
type_name status_reply = "status"
type_name snapshot_reply = "snapshot"

abbrev pub result_name : Result → String
result_name ok = "ok"
result_name failed = "failed"
result_name rate_limited = "rate_limited"
result_name busy = "busy"

abbrev pub type_of : String → Option ReplyType
type_of s =
    if str_eq s "status"
    then some status_reply
    else if str_eq s "snapshot"
    then some snapshot_reply
    else none

abbrev pub result_of : String → Option Result
result_of s =
    if str_eq s "ok"
    then some ok
    else if str_eq s "failed"
    then some failed
    else if str_eq s "rate_limited"
    then some rate_limited
    else if str_eq s "busy"
    then some busy
    else none

-- [A-Za-z0-9._:-]{1,64}
abbrev pub is_request_id : String → Bool
is_request_id s =
    leb 1 (str_length s)
    && (leb (str_length s) 64
        && all_chars
            (λ c.
              is_letter c || (is_digit c || (c == b'.' || (c == b'_' || (c == b':' || c == b'-')))))
            s)

-- `_is_counter`, and the counter
abbrev pub as_counter : Value → Option ℕ
as_counter v = do n ← as_count v; require (leb n max_counter) (some n)

abbrev pub as_optional_counter : Value → Option (Option ℕ)
as_optional_counter null = some none
as_optional_counter v = do n ← as_counter v; some (some n)

abbrev pub as_member : List String → Value → Option String
as_member allowed v = as_matching (λ s. any (λ a. str_eq s a) allowed) v

-- A text that names a value of an enumeration.
abbrev pub as_named : {A : Type 0} → (String → Option A) → Value → Option A
as_named find v = do s ← as_text v; find s

-- `time is None or (isinstance(time, str) and len(time) <= 40)`
abbrev pub as_time_text : Value → Option (Option String)
as_time_text null = some none
as_time_text v = do s ← as_matching (λ s. leb (str_length s) 40) v; some (some s)

-- `type(version) is int and version == PROTOCOL_VERSION`
abbrev pub is_version : Value → Bool
is_version v = elim (as_count v) [ none ↦ false | some n ↦ n == protocol_version ]

pub record SnapshotSummary : Type 0 where
  pub generation : ℕ
  pub units : ℕ
  pub scenes : ℕ
  pub failed : ℕ
  pub age_s : Option ℕ

pub record BridgeStatus : Type 0 where
  pub instance_id : String
  pub sequence : Option ℕ
  pub phase : Phase
  pub ble : String
  pub mqtt : String
  pub uptime_s : Option ℕ
  pub snapshot : SnapshotSummary
  pub error : String
  pub time : Option String

-- The four counters of a snapshot reply; a status reply has none.
pub record Counters : Type 0 where
  pub units : ℕ
  pub scenes : ℕ
  pub failed : ℕ
  pub generation : ℕ

pub record HealthReply : Type 0 where
  pub type : ReplyType
  pub request_id : String
  pub instance_id : String
  pub result : Result
  pub status : BridgeStatus
  pub counters : Option Counters

abbrev pub counter : ℕ → Value
counter n = int (pos n)

abbrev pub optional_counter : Option ℕ → Value
optional_counter none = null
optional_counter (some n) = counter n

abbrev pub optional_text : Option String → Value
optional_text none = null
optional_text (some s) = str s

-- `SnapshotSummary.as_dict`
unfoldable pub snapshot_dict : SnapshotSummary → Value
snapshot_dict s = obj (
    field "generation" (counter s.generation) (
      field "units" (counter s.units) (
        field "scenes" (counter s.scenes)
          (field "failed" (counter s.failed) (field "age_s" (optional_counter s.age_s) end)))))

-- `BridgeStatus.as_dict`
unfoldable pub status_dict : BridgeStatus → Value
status_dict s = obj (
    field "protocol_version" (counter protocol_version) (
      field "instance_id" (str s.instance_id) (
        field "sequence" (optional_counter s.sequence) (
          field "phase" (str (phase_name s.phase)) (
            field "ble" (str s.ble) (
              field "mqtt" (str s.mqtt) (
                field "uptime_s" (optional_counter s.uptime_s) (
                  field "snapshot" (snapshot_dict s.snapshot)
                    (field "error" (str s.error) (field "time" (optional_text s.time) end))))))))))
