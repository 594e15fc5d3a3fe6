-- ===== src/Supervisor/Store.antt =====
-- scripts/bridge_recovery.py: State.to_json, parse_state and load_state. The file's text is outside:
-- what json.dumps makes of a value, json.loads gives back.
use Prim.Native.String.{String}
use casambi_mqtt.Prelude.{true, false, Option, none, some, List, [], ◌∷◌, if◌then◌else◌}
use casambi_mqtt.Prelude.Int.{pos}
use casambi_mqtt.Prelude.Maybe.{◌>>=◌}
use casambi_mqtt.Prelude.Text.{clip, is_hex_id}
use casambi_mqtt.Json.{
  Value, null, bool, int, float, str, arr, obj, Items, no_item, item, Fields, end, field, get,
  get_or, has_keys, as_object, as_items, as_text, as_bool, as_count, as_time, as_matching,
  equals_int, require,
}
use casambi_mqtt.Supervisor.Clock.{Stamp}
use casambi_mqtt.Supervisor.State.{State, initial}
use casambi_mqtt.Supervisor.Decide.{last, max_seen_instances}

-- json of a stamp: the readings are floats
abbrev pub boot_json : Option String → Value
boot_json none = null
boot_json (some boot) = str boot

abbrev pub stamp_json : Stamp → Value
stamp_json s = obj (
    field "boot" (boot_json s.boot)
      (field "t" (float (pos s.t)) (field "wall" (float (pos s.wall)) end)))

abbrev pub stamps_json : List Stamp → Items
stamps_json [] = no_item
stamps_json (s ∷ ss) = item (stamp_json s) (stamps_json ss)

abbrev pub texts_json : List String → Items
texts_json [] = no_item
texts_json (s ∷ ss) = item (str s) (texts_json ss)

abbrev pub optional_stamp_json : Option Stamp → Value
optional_stamp_json none = null
optional_stamp_json (some s) = stamp_json s

-- `State.to_json`, before json.dumps
unfoldable pub to_json : State → Value
to_json s = obj (
    field "version" (int (pos 1)) (
      field "ble_failures" (arr (stamps_json s.ble_failures)) (
        field "resets" (arr (stamps_json s.resets)) (
          field "plain_restarts" (arr (stamps_json s.plain_restarts)) (
            field "plain_restart_streak" (int (pos s.plain_restart_streak)) (
              field "startup_failure_streak" (int (pos s.startup_failure_streak)) (
                field "ready_instance" (str s.ready_instance) (
                  field "ready_since" (optional_stamp_json s.ready_since) (
                    field "stuck_counted" (arr (texts_json s.stuck_counted)) (
                      field "mqtt_reconnects" (int (pos s.mqtt_reconnects)) (
                        field "recovery_failed" (bool s.recovery_failed) (
                          field "terminal_stop_pending" (bool s.terminal_stop_pending) (
                            field "reason" (str s.reason)
                              (field "last_result" (str s.last_result) end))))))))))))))

abbrev pub opt {ℓ κ} : {A : Type ℓ} {B : Type κ} → (A → Option B) → Option A → Option B
opt f none = none
opt f (some a) = f a

-- `boot is None or isinstance(boot, str)`
abbrev pub as_boot : Value → Option (Option String)
as_boot null = some none
as_boot (str s) = some (some s)
as_boot _ = none

-- `_is_stamp`, and the stamp
unfoldable pub as_stamp : Value → Option Stamp
as_stamp v = do
  d ← as_object v
  require (has_keys ("boot" ∷ "t" ∷ "wall" ∷ []) d) (do
    boot ← opt as_boot (get "boot" d)
    t ← opt as_time (get "t" d)
    wall ← opt as_time (get "wall" d)
    some (record { boot = boot; t = t; wall = wall }))

-- `isinstance(value, list) and all(…)`
unfoldable pub as_all : {A : Type 0} → (Value → Option A) → Items → Option (List A)
as_all f no_item = some []
as_all f (item v rest) = do a ← f v; others ← as_all f rest; some (a ∷ others)

abbrev pub as_list : {A : Type 0} → (Value → Option A) → Value → Option (List A)
as_list f v = do items ← as_items v; as_all f items

abbrev pub as_optional_stamp : Option Value → Option (Option Stamp)
as_optional_stamp none = some none
as_optional_stamp (some null) = some none
as_optional_stamp (some v) = do s ← as_stamp v; some (some s)

-- `State(recovery_failed=True, reason="state_unreadable")`
abbrev pub unreadable : State
unreadable = record initial { recovery_failed = true; reason = "state_unreadable" }

-- The tests on the fields of a state file, and the fields as they stand in it.
unfoldable pub check_fields : Fields → Option State
check_fields d = do
  ble_failures ← opt (as_list as_stamp) (get "ble_failures" d)
  resets ← opt (as_list as_stamp) (get "resets" d)
  plain_restarts ← opt (as_list as_stamp) (get "plain_restarts" d)
  ready_instance ← opt as_text (get "ready_instance" d)
  ready_since ← as_optional_stamp (get "ready_since" d)
  stuck_counted ← opt (as_list (as_matching is_hex_id)) (get "stuck_counted" d)
  mqtt_reconnects ← opt as_count (get "mqtt_reconnects" d)
  plain_restart_streak ← as_count (get_or "plain_restart_streak" (int (pos 0)) d)
  startup_failure_streak ← as_count (get_or "startup_failure_streak" (int (pos 0)) d)
  recovery_failed ← opt as_bool (get "recovery_failed" d)
  terminal_stop_pending ← as_bool (get_or "terminal_stop_pending" (bool false) d)
  reason ← opt as_text (get "reason" d)
  last_result ← opt as_text (get "last_result" d)
  some (record {
    ble_failures = ble_failures;
    resets = resets;
    plain_restarts = plain_restarts;
    plain_restart_streak = plain_restart_streak;
    startup_failure_streak = startup_failure_streak;
    ready_instance = ready_instance;
    ready_since = ready_since;
    stuck_counted = stuck_counted;
    mqtt_reconnects = mqtt_reconnects;
    recovery_failed = recovery_failed;
    terminal_stop_pending = terminal_stop_pending;
    reason = reason;
    last_result = last_result;
  })

-- What is kept of the texts and of the list of instances: `[:32]`, `[-MAX_SEEN_INSTANCES:]`, `[:64]`.
unfoldable pub cut : State → State
cut s = record s {
  ready_instance = clip 32 s.ready_instance;
  stuck_counted = last max_seen_instances s.stuck_counted;
  reason = clip 64 s.reason;
  last_result = clip 64 s.last_result;
}

-- `loaded` is what json.loads makes of the text, or `none` where it raises a ValueError.
unfoldable pub parse_state : Option Value → State
parse_state none = unreadable
parse_state (some v) = elim (as_object v) [
  | none ↦ unreadable
  | some d ↦
      if equals_int (get_or "version" null d) 1
      then elim (check_fields d) [ none ↦ unreadable | some s ↦ cut s ]
      else unreadable
]

-- The state file: not there, not readable or no UTF-8, or a text with what it loads to.
pub data StateFile : Type 0 where
  missing unread : StateFile
  content : Option Value → StateFile

unfoldable pub load_state : StateFile → State
load_state missing = initial
load_state unread = unreadable
load_state (content loaded) = parse_state loaded

-- `save_state`
unfoldable pub save_state : State → StateFile
save_state s = content (some (to_json s))
