-- ===== src/Supervisor/Record.antt =====
-- scripts/bridge_recovery.py: parse_record, the check of the untrusted health record.
use Prim.Native.String.{String}
use text.Mathlib.Text.{◌==◌ as str_eq}
use casambi_mqtt.Prelude.{
  ℕ, Bool, true, false, ◌&&◌, ◌||◌, Option, none, some, List, [], ◌∷◌, any, leb, ◌==◌,
  if◌then◌else◌,
}
use casambi_mqtt.Prelude.Text.{is_hex, is_hex_id, all_chars, str_length}
use casambi_mqtt.Json.{
  Value, null, int, str, arr, obj, Fields, get, get_or, as_object, as_bool, as_count, as_time,
  as_matching, equals_int,
}
use casambi_mqtt.Prelude.Int.{pos}
use casambi_mqtt.Supervisor.State.{
  RecordView, Phase, starting, discovering, connecting, ready, degraded, offline,
}

abbrev pub max_record_bytes : ℕ
max_record_bytes = 4096

-- How a check ends: with a value, with `None`, or with an exception that nobody catches.
pub data Checked (A : Type 0) : Type 0 where
  passed : A → Checked A
  refused : Checked A
  raised : Checked A

infixl 5 ◌>>=◌
abbrev pub ◌>>=◌ : {A B : Type 0} → Checked A → (A → Checked B) → Checked B
passed a >>= f = f a
refused >>= f = refused
raised >>= f = raised

abbrev pub expect : {A : Type 0} → Option A → Checked A
expect none = refused
expect (some a) = passed a

abbrev pub check : Bool → Checked (Unit {0})
check true = passed tt
check false = refused

-- `value in frozenset` of texts, and the text. A list or an object is not hashable: the test raises
-- a TypeError. A missing key is None, which is hashable and not a member.
abbrev pub member : {A : Type 0} → (String → Option A) → Option Value → Checked A
member find none = refused
member find (some (str s)) = expect (find s)
member find (some (arr xs)) = raised
member find (some (obj d)) = raised
member find (some _) = refused

abbrev pub phase_of : String → Option Phase
phase_of s =
    if str_eq s "starting"
    then some starting
    else if str_eq s "discovering"
    then some discovering
    else if str_eq s "connecting"
    then some connecting
    else if str_eq s "ready"
    then some ready
    else if str_eq s "degraded"
    then some degraded
    else if str_eq s "offline"
    then some offline
    else none

abbrev pub among : List String → String → Option String
among allowed s = if any (λ a. str_eq s a) allowed then some s else none

abbrev pub errors : List String
errors =
    "none" ∷ "ble_disconnected" ∷ "ble_discovery_in_progress" ∷ "ble_discovery_failed"
    ∷ "ble_connect_failed" ∷ "network_not_found" ∷ "configuration" ∷ "mqtt_error"
    ∷ "snapshot_publish_failed" ∷ "state_publish_failed" ∷ "connection_lost" ∷ "shutdown"
    ∷ "unknown" ∷ []

abbrev pub links : List String
links = "connected" ∷ "disconnected" ∷ "unknown" ∷ []

-- [0-9a-f-]{36}
abbrev pub is_boot_id : String → Bool
is_boot_id s = str_length s == 36 && all_chars (λ c. is_hex c || c == b'-') s

-- `_is_int(value, minimum)` of a value that may be missing
abbrev pub is_int : Option Value → ℕ → Option ℕ
is_int none minimum = none
is_int (some v) minimum = elim (as_count v) [
  | none ↦ none
  | some n ↦ if leb minimum n then some n else none
]

-- `value is None or _is_number(value)`
abbrev pub optional_time : Option Value → Option (Option ℕ)
optional_time none = some none
optional_time (some null) = some none
optional_time (some v) = elim (as_time v) [ none ↦ none | some t ↦ some (some t) ]

abbrev pub opt {ℓ κ} : {A : Type ℓ} {B : Type κ} → (A → Option B) → Option A → Option B
opt f none = none
opt f (some a) = f a

-- The fields, in the order in which the source tests them.
unfoldable pub check_fields : Option String → (ℕ → Option ℕ) → Fields → Checked RecordView
check_fields boot_id start_ticks_of d = do
  instance_id ← expect (opt (as_matching is_hex_id) (get "instance_id" d))
  pid ← expect (is_int (get "pid" d) 1)
  start_ticks ← expect (is_int (get "start_ticks" d) 0)
  record_boot ← expect (opt (as_matching is_boot_id) (get "boot_id" d))
  phase ← member phase_of (get "phase" d)
  error ← member (among errors) (get "error" d)
  ble ← member (among links) (get "ble" d)
  mqtt ← member (among links) (get "mqtt" d)
  ever_ready ← expect (opt as_bool (get "ever_ready" d))
  ready_since ← expect (optional_time (get "ready_since_monotonic" d))
  updated ← expect (opt as_time (get "updated_monotonic" d))
  mqtt_reconnects ← expect (is_int (some (get_or "mqtt_reconnects" (int (pos 0)) d)) 0)
  boot ← expect boot_id
  known_boot ← check (str_eq record_boot boot)
  passed (record {
    instance_id = instance_id;
    pid = pid;
    phase = phase;
    error = error;
    ever_ready = ever_ready;
    ready_since = ready_since;
    updated = updated;
    alive = elim (start_ticks_of pid) [ none ↦ false | some ticks ↦ ticks == start_ticks ];
    mqtt_reconnects = mqtt_reconnects;
  })

-- `loaded` is what `json.loads` makes of the `size` bytes, or `none` where it raises a ValueError.
unfoldable pub parse_record : ℕ → Option Value → Option String → (ℕ → Option ℕ) → Checked RecordView
parse_record size loaded boot_id start_ticks_of = do
  short ← check (leb size max_record_bytes)
  v ← expect loaded
  d ← expect (as_object v)
  versioned ← check (equals_int (get_or "record_version" null d) 1)
  check_fields boot_id start_ticks_of d
