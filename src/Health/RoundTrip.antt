-- ===== src/Health/RoundTrip.antt =====
-- custom_components/casambi_mqtt/health_protocol.py: what is written is read back, and what is read is
-- of the v1 shape, whatever the payload.
use Prim.Native.String.{String}
use text.Mathlib.Text.{◌==◌ as str_eq}
use casambi_mqtt.Prelude.{ℕ, ◌≤◌, ◌≡◌, refl, Bool, true, Option, none, some, arith, any, List}
use casambi_mqtt.Prelude.Maybe.{Each}
use casambi_mqtt.Prelude.Text.{str_length, is_hex_id}
use casambi_mqtt.Json.{Value, Fields, get, as_matching}
use casambi_mqtt.Supervisor.State.{
  Phase, starting, discovering, connecting, ready, degraded, offline,
}
use casambi_mqtt.Supervisor.Record.{phase_of, errors, links, opt}
use casambi_mqtt.Health.Protocol.{
  max_counter, phase_name, as_counter, as_optional_counter, as_time_text, SnapshotSummary,
  BridgeStatus, counter, optional_counter, optional_text, status_dict, snapshot_dict,
}
use casambi_mqtt.Health.Wire.{
  parse_snapshot, has_sequence, combine, status_fields, status_from_dict, parse_status,
}

abbrev pub IsCounter : ℕ → Type 0
IsCounter n = n ≤ max_counter

abbrev pub IsAmong : List String → String → Type 0
IsAmong xs s = any (λ a. str_eq s a) xs ≡ true

pub record IsSnapshot (s : SnapshotSummary) : Type 0 where
  pub generation : IsCounter s.generation
  pub units : IsCounter s.units
  pub scenes : IsCounter s.scenes
  pub failed : IsCounter s.failed
  pub age : Each IsCounter s.age_s

-- The v1 shape of a status.
pub record IsStatus (s : BridgeStatus) : Type 0 where
  pub instance : is_hex_id s.instance_id ≡ true
  pub sequence : Each IsCounter s.sequence
  pub sequenced : has_sequence s ≡ true
  pub ble : IsAmong links s.ble
  pub mqtt : IsAmong links s.mqtt
  pub uptime : Each IsCounter s.uptime_s
  pub snapshot : IsSnapshot s.snapshot
  pub error : IsAmong errors s.error
  pub time : Each (λ t. str_length t ≤ 40) s.time

pub counter_back : (n : ℕ) → IsCounter n → as_counter (counter n) ≡ some n
counter_back n h = ground arith

optional_counter_back :
    (o : Option ℕ) → Each IsCounter o → as_optional_counter (optional_counter o) ≡ some o
optional_counter_back none h = refl
optional_counter_back (some n) h = ground arith

pub phase_back : (p : Phase) → phase_of (phase_name p) ≡ some p
phase_back starting = refl
phase_back discovering = refl
phase_back connecting = refl
phase_back ready = refl
phase_back degraded = refl
phase_back offline = refl

time_back :
    (o : Option String) → Each (λ t. str_length t ≤ 40) o → as_time_text (optional_text o) ≡ some o
time_back none h = refl
time_back (some t) h = ground arith

snapshot_back : (s : SnapshotSummary) → IsSnapshot s → parse_snapshot (snapshot_dict s) ≡ some s
unfolding parse_snapshot snapshot_dict
snapshot_back s h = simp (
  counter_back s.generation h.generation,
  counter_back s.units h.units,
  counter_back s.scenes h.scenes,
  counter_back s.failed h.failed,
  optional_counter_back s.age_s h.age,
)

pub status_back : (s : BridgeStatus) → IsStatus s → status_from_dict (status_dict s) ≡ some s
unfolding status_from_dict status_fields combine status_dict
status_back s h = simp (
  snapshot_back s.snapshot h.snapshot,
  h.instance,
  optional_counter_back s.sequence h.sequence,
  phase_back,
  h.ble,
  h.mqtt,
  optional_counter_back s.uptime_s h.uptime,
  h.error,
  time_back s.time h.time,
  h.sequenced,
)

IsCounter-read : (o : Option Value) {n : ℕ} → opt as_counter o ≡ some n → IsCounter n
IsCounter-read none e = ground arith
IsCounter-read (some v) e = ground arith

optional-IsCounter_read :
    (o : Option Value) {r : Option ℕ} → opt as_optional_counter o ≡ some r → Each IsCounter r
optional-IsCounter_read none {r} e = ground arith
optional-IsCounter_read (some v) {r = none} e = tt
optional-IsCounter_read (some v) {r = some n} e = ground arith

matching_read :
    (p : String → Bool) (o : Option Value) {s : String}
    → opt (as_matching p) o ≡ some s
    → p s ≡ true
matching_read p none e = ground arith
matching_read p (some v) e = ground arith

time_read :
    (o : Option Value) {r : Option String}
    → opt as_time_text o ≡ some r
    → Each (λ t. str_length t ≤ 40) r
time_read none {r} e = ground arith
time_read (some v) {r = none} e = tt
time_read (some v) {r = some t} e = ground arith

IsSnapshot-read : (v : Value) {s : SnapshotSummary} → parse_snapshot v ≡ some s → IsSnapshot s
unfolding parse_snapshot
IsSnapshot-read (Value.obj d) {s} e = record {
  generation = IsCounter-read (get "generation" d) (ground arith);
  units = IsCounter-read (get "units" d) (ground arith);
  scenes = IsCounter-read (get "scenes" d) (ground arith);
  failed = IsCounter-read (get "failed" d) (ground arith);
  age = optional-IsCounter_read (get "age_s" d) (ground arith);
}
IsSnapshot-read _ e = cc

IsSnapshot-field_read :
    (o : Option Value) {s : SnapshotSummary} → opt parse_snapshot o ≡ some s → IsSnapshot s
IsSnapshot-field_read none e = cc
IsSnapshot-field_read (some v) e = IsSnapshot-read v e

combine_read :
    (snapshot : Option SnapshotSummary) (instance_id : Option String) (sequence : Option (Option ℕ))
    (phase : Option Phase) (ble mqtt : Option String) (uptime_s : Option (Option ℕ))
    (error : Option String) (time : Option (Option String)) {s : BridgeStatus}
    → combine snapshot instance_id sequence phase ble mqtt uptime_s error time ≡ some s
    → (snapshot ≡ some s.snapshot)
      × (instance_id ≡ some s.instance_id)
      × (sequence ≡ some s.sequence)
      × (ble ≡ some s.ble)
      × (mqtt ≡ some s.mqtt)
      × (uptime_s ≡ some s.uptime_s)
      × (error ≡ some s.error)
      × (time ≡ some s.time)
unfolding combine
combine_read a b c p l m u r t {s} e = ground arith

status_fields_read :
    (d : Fields) {s : BridgeStatus} → status_fields d ≡ some s → has_sequence s ≡ true → IsStatus s
unfolding status_fields
status_fields_read d {s} e sequenced =
    let (e1, e2, e3, e5, e6, e7, e8, e9) = combine_read _ _ _ _ _ _ _ _ _ e in
    record {
      instance = matching_read is_hex_id (get "instance_id" d) e2;
      sequence = optional-IsCounter_read (get "sequence" d) e3;
      sequenced = sequenced;
      ble = matching_read (λ s. any (λ a. str_eq s a) links) (get "ble" d) e5;
      mqtt = matching_read (λ s. any (λ a. str_eq s a) links) (get "mqtt" d) e6;
      uptime = optional-IsCounter_read (get "uptime_s" d) e7;
      snapshot = IsSnapshot-field_read (get "snapshot" d) e1;
      error = matching_read (λ s. any (λ a. str_eq s a) errors) (get "error" d) e8;
      time = time_read (get "time" d) e9;
    }

pub status_read : (v : Value) {s : BridgeStatus} → status_from_dict v ≡ some s → IsStatus s
unfolding status_from_dict
status_read (Value.obj d) {s} e = status_fields_read d (ground arith) (ground arith)
status_read _ e = cc

-- A status of the v1 shape that is written is read back exactly.
pub parse_status-dict :
    (s : BridgeStatus) → IsStatus s → parse_status (some (status_dict s)) ≡ some s
unfolding parse_status
parse_status-dict s h = status_back s h

-- Whatever the payload, a status that is read is of the v1 shape: a hexadecimal instance, counters
-- within 2 ** 53, known links and error, a short time text, and a sequence unless it is offline. So
-- it is read again from what it is written as.
pub parse_status-IsStatus :
    (loaded : Option Value) {s : BridgeStatus}
    → parse_status loaded ≡ some s
    → IsStatus s × (parse_status (some (status_dict s)) ≡ some s)
unfolding parse_status
parse_status-IsStatus none e = cc
parse_status-IsStatus (some v) e = let h = status_read v e in (h, status_back _ h)
