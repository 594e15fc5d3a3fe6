-- ===== src/Health/Wire.antt =====
-- custom_components/casambi_mqtt/health_protocol.py: parse_status, parse_reply and the replies' JSON.
-- The `value[key]` of the source is behind the test of the key set, so that the key is there.
use Prim.Native.String.{String}
use text.Mathlib.Text.{◌==◌ as str_eq}
use casambi_mqtt.Prelude.{ℕ, Bool, true, false, ◌&&◌, Option, none, some, List, [], ◌∷◌, ◌++◌}
use casambi_mqtt.Prelude.Maybe.{◌>>=◌}
use casambi_mqtt.Prelude.Text.{is_hex_id}
use casambi_mqtt.Json.{
  Value, null, str, obj, Fields, end, field, get, has_keys, as_object, as_matching, require,
}
use casambi_mqtt.Supervisor.State.{Phase}
use casambi_mqtt.Supervisor.Record.{phase_of, errors, links, opt}
use casambi_mqtt.Health.Protocol.{
  protocol_version, is_offline, ReplyType, status_reply, snapshot_reply, type_name, result_name,
  type_of, result_of, is_request_id, as_counter, as_optional_counter, as_member, as_named,
  as_time_text, is_version, SnapshotSummary, BridgeStatus, Counters, HealthReply, counter,
  status_dict,
}

abbrev pub status_keys : List String
status_keys =
    "protocol_version" ∷ "instance_id" ∷ "sequence" ∷ "phase" ∷ "ble" ∷ "mqtt" ∷ "uptime_s"
    ∷ "snapshot" ∷ "error" ∷ "time" ∷ []

abbrev pub snapshot_keys : List String
snapshot_keys = "generation" ∷ "units" ∷ "scenes" ∷ "failed" ∷ "age_s" ∷ []

abbrev pub reply_keys : List String
reply_keys = "protocol_version" ∷ "type" ∷ "request_id" ∷ "instance_id" ∷ "result" ∷ "status" ∷ []

abbrev pub snapshot_reply_keys : List String
snapshot_reply_keys = reply_keys ++ ("units" ∷ "scenes" ∷ "failed" ∷ "generation" ∷ [])

unfoldable pub parse_snapshot : Value → Option SnapshotSummary
parse_snapshot v = do
  d ← as_object v
  require (has_keys snapshot_keys d) do
    generation ← opt as_counter (get "generation" d)
    units ← opt as_counter (get "units" d)
    scenes ← opt as_counter (get "scenes" d)
    failed ← opt as_counter (get "failed" d)
    age_s ← opt as_optional_counter (get "age_s" d)
    some (record {
      generation = generation;
      units = units;
      scenes = scenes;
      failed = failed;
      age_s = age_s;
    })

-- Only the last will may leave out its sequence.
abbrev pub has_sequence : BridgeStatus → Bool
has_sequence s = elim s.sequence [ none ↦ is_offline s.phase | some n ↦ true ]

-- The status, if every field has passed its test.
unfoldable pub combine :
    (snapshot : Option SnapshotSummary) (instance_id : Option String) (sequence : Option (Option ℕ))
    (phase : Option Phase) (ble mqtt : Option String) (uptime_s : Option (Option ℕ))
    (error : Option String) (time : Option (Option String))
    → Option BridgeStatus
combine (some snapshot) (some instance_id) (some sequence) (some phase) (some ble) (some mqtt)
      (some uptime_s) (some error) (some time) =
    some (record {
      instance_id = instance_id;
      sequence = sequence;
      phase = phase;
      ble = ble;
      mqtt = mqtt;
      uptime_s = uptime_s;
      snapshot = snapshot;
      error = error;
      time = time;
    })
combine _ _ _ _ _ _ _ _ _ = none

-- The fields of a status, each with its test.
unfoldable pub status_fields : Fields → Option BridgeStatus
status_fields d =
    combine (opt parse_snapshot (get "snapshot" d))
      (opt (as_matching is_hex_id) (get "instance_id" d))
      (opt as_optional_counter (get "sequence" d)) (opt (as_named phase_of) (get "phase" d))
      (opt (as_member links) (get "ble" d)) (opt (as_member links) (get "mqtt" d))
      (opt as_optional_counter (get "uptime_s" d)) (opt (as_member errors) (get "error" d))
      (opt as_time_text (get "time" d))

abbrev pub known_version : Fields → Bool
known_version d = elim (get "protocol_version" d) [ none ↦ false | some v ↦ is_version v ]

unfoldable pub status_from_dict : Value → Option BridgeStatus
status_from_dict v = do
  d ← as_object v
  require (has_keys status_keys d && known_version d)
      do s ← status_fields d; require (has_sequence s) (some s)

unfoldable pub parse_status : Option Value → Option BridgeStatus
parse_status loaded = do v ← loaded; status_from_dict v

-- `protocol_version_of`
unfoldable pub protocol_version_of : Option Value → Option ℕ
protocol_version_of loaded = do
  v ← loaded
  d ← as_object v
  version ← get "protocol_version" d
  as_counter version

abbrev pub four_fields : Value → Value → Value → Value → Fields
four_fields units scenes failed generation =
    field "units" units
      (field "scenes" scenes (field "failed" failed (field "generation" generation end)))

abbrev pub counter_fields : ReplyType → Option Counters → Fields
counter_fields status_reply c = end
counter_fields snapshot_reply none = four_fields null null null null
counter_fields snapshot_reply (some c) =
    four_fields (counter c.units) (counter c.scenes) (counter c.failed) (counter c.generation)

-- `HealthReply.to_json`: the counters are written for a snapshot reply alone.
unfoldable pub reply_dict : HealthReply → Value
reply_dict r = obj (
    field "protocol_version" (counter protocol_version) (
      field "type" (str (type_name r.type)) (
        field "request_id" (str r.request_id) (
          field "instance_id" (str r.instance_id) (
            field "result" (str (result_name r.result))
              (field "status" (status_dict r.status) (counter_fields r.type r.counters)))))))

abbrev pub parse_counters : ReplyType → Fields → Option (Option Counters)
parse_counters status_reply d = some none
parse_counters snapshot_reply d = do
  units ← opt as_counter (get "units" d)
  scenes ← opt as_counter (get "scenes" d)
  failed ← opt as_counter (get "failed" d)
  generation ← opt as_counter (get "generation" d)
  some (some (record { units = units; scenes = scenes; failed = failed; generation = generation }))

abbrev pub expected_keys : ReplyType → List String
expected_keys status_reply = reply_keys
expected_keys snapshot_reply = snapshot_reply_keys

unfoldable pub parse_reply : Option Value → Option HealthReply
parse_reply loaded = do
  v ← loaded
  d ← as_object v
  type ← opt (as_named type_of) (get "type" d)
  require (has_keys (expected_keys type) d && known_version d) do
    status ← opt status_from_dict (get "status" d)
    request_id ← opt (as_matching is_request_id) (get "request_id" d)
    instance_id ← opt (as_matching is_hex_id) (get "instance_id" d)
    require (str_eq instance_id status.instance_id) do
      result ← opt (as_named result_of) (get "result" d)
      counters ← parse_counters type d
      some (record {
        type = type;
        request_id = request_id;
        instance_id = instance_id;
        result = result;
        status = status;
        counters = counters;
      })
