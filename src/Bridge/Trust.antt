-- ===== src/Bridge/Trust.antt =====
-- server.py and scripts/bridge_recovery.py: the supervisor reads what the bridge has written, and the
-- bridge's own operations keep to what can be read.
use Prim.Native.String.{String}
use text.Mathlib.TextPositions.{eq_refl}
use casambi_mqtt.Prelude.{
  ℕ, ◌≤◌, ◌≡◌, refl, sym, ap, Bool, true, false, Option, none, some, arith, ◌==◌, leb,
}
use casambi_mqtt.Prelude.Text.{is_hex_id}
use casambi_mqtt.Prelude.Int.{pos}
use casambi_mqtt.Json.{Value, int}
use casambi_mqtt.Supervisor.State.{
  Phase, RecordView, UnitView, trusted_record, ready_record, is_ready,
}
use casambi_mqtt.Supervisor.Record.{
  passed, parse_record, check_fields, is_boot_id, errors, links, optional_time, is_int,
  max_record_bytes,
}
use casambi_mqtt.Health.RoundTrip.{IsAmong, phase_back}
use casambi_mqtt.Bridge.State.{
  Moment, HealthRecord, BridgeHealth, optional_seconds, record_json, write, persist, enter_phase,
  set_phase,
}

-- The record is one of a running process of this boot.
pub record IsProcess (r : HealthRecord) (ticks : ℕ) (boot : String) : Type 0 where
  pub has_pid : 1 ≤ r.pid
  pub has_ticks : r.start_ticks ≡ some ticks
  pub has_boot : r.boot_id ≡ some boot
  pub boot_valid : is_boot_id boot ≡ true

-- The texts of the state are the fixed ones.
pub record IsEnumerated (h : BridgeHealth) : Type 0 where
  pub instance : is_hex_id h.instance_id ≡ true
  pub error : IsAmong errors h.error
  pub ble : IsAmong links h.ble
  pub mqtt : IsAmong links h.mqtt

-- What the supervisor makes of the record.
abbrev pub view_of : HealthRecord → BridgeHealth → ℕ → Bool → RecordView
view_of r h now alive = record {
  instance_id = h.instance_id;
  pid = r.pid;
  phase = h.phase;
  error = h.error;
  ever_ready = h.ever_ready;
  ready_since = h.ready_since;
  updated = now;
  alive = alive;
  mqtt_reconnects = h.mqtt_reconnects;
}

time_back : (o : Option ℕ) → optional_time (some (optional_seconds o)) ≡ some o
time_back none = refl
time_back (some t) = refl

int_back : (n : ℕ) → is_int (some (int (pos n))) 0 ≡ some n
int_back n = ground arith

-- Has the process with this PID started at the tick that the record says?
abbrev pub is_alive : HealthRecord → ℕ → (ℕ → Option ℕ) → Bool
is_alive r ticks start_ticks_of = elim (start_ticks_of r.pid) [ none ↦ false | some n ↦ n == ticks ]

-- A record that the bridge writes is read by the supervisor of the same boot, field by field: its
-- phase, its instance and its times are the bridge's, and it counts as alive exactly if the process
-- with its PID started at the recorded tick.
parse_record-json :
    (r : HealthRecord) (h : BridgeHealth) (now size ticks : ℕ) (boot : String)
    (start_ticks_of : ℕ → Option ℕ)
    → IsProcess r ticks boot
    → IsEnumerated h
    → size ≤ max_record_bytes
    → parse_record size (some (record_json r h now)) (some boot) start_ticks_of
      ≡ passed (view_of r h now (is_alive r ticks start_ticks_of))
unfolding parse_record record_json check_fields
parse_record-json r h now size ticks boot start_ticks_of p e short =
    let fits : leb size max_record_bytes ≡ true = ground arith in
    let known : is_int (some (int (pos r.pid))) 1 ≡ some r.pid = ground (arith, p.has_pid) in
    simp (
      fits, known, p.has_ticks, p.has_boot, p.boot_valid, e.instance, phase_back, e.error, e.ble,
      e.mqtt, time_back, eq_refl, int_back,
    )

==_refl : (n : ℕ) → (n == n) ≡ true
==_refl n = ground arith

persist_file :
    (m : Moment) (h : BridgeHealth) (r : HealthRecord)
    → h.record_file ≡ some r
    → (persist m h).record_file ≡ some (write m h r)
unfolding persist
persist_file m h r e = rw e

-- Entering a phase with one of the fixed errors keeps the texts to the fixed ones.
enter_phase-IsEnumerated :
    (phase : Phase) (error : String) (now : ℕ) (h : BridgeHealth)
    → IsAmong errors error
    → IsEnumerated h
    → IsEnumerated (enter_phase phase error now h)
unfolding enter_phase
enter_phase-IsEnumerated phase error now h e i = record {
  instance = i.instance;
  error = e;
  ble = i.ble;
  mqtt = i.mqtt;
}

-- A phase that the bridge enters, and whose record the file system takes, is what a supervisor of the
-- same boot reads and trusts, if the unit's main process is the bridge and still the one that started
-- at the recorded tick: the trusted record has the bridge's instance and the phase just entered, so
-- the supervisor sees a ready bridge exactly if the phase is `ready`.
pub set_phase-trusted :
    (phase : Phase) (error : String) (m : Moment) (h : BridgeHealth) (r : HealthRecord)
    (unit : UnitView) (size ticks : ℕ) (boot : String) (start_ticks_of : ℕ → Option ℕ)
    → h.record_file ≡ some r
    → m.stored ≡ true
    → IsProcess r ticks boot
    → IsEnumerated h
    → IsAmong errors error
    → start_ticks_of r.pid ≡ some ticks
    → unit.main_pid ≡ r.pid
    → size ≤ max_record_bytes
    → (v : Value) × (view : RecordView) × ((set_phase phase error m h).record_file
        ≡ some (record r { failed = false; file = some v }))
      × (parse_record size (some v) (some boot) start_ticks_of ≡ passed view)
      × (trusted_record (some view) unit ≡ some view)
      × (view.instance_id ≡ h.instance_id)
      × (view.phase ≡ phase)
      × (ready_record (trusted_record (some view) unit) ≡ is_ready phase)
unfolding set_phase write trusted_record
set_phase-trusted phase error m h r unit size ticks boot start_ticks_of e stored p i known running
      pid short =
    let h' = enter_phase phase error m.now h in
    let v = record_json r h' m.now in
    let alive : is_alive r ticks start_ticks_of ≡ true = rw (running, is_alive) (==_refl ticks) in
    let same : h'.record_file ≡ some r = unfold enter_phase in e in
    let now_phase : h'.phase ≡ phase = unfold enter_phase in refl in
    let now_instance : h'.instance_id ≡ h.instance_id = unfold enter_phase in refl in
    let view = view_of r h' m.now true in
    let trusted : trusted_record (some view) unit ≡ some view = rw (pid, ==_refl r.pid) in
    (
      v,
      view_of r h' m.now true,
      rw (persist_file m h' r same) (rw stored),
      rw (sym alive) (
          parse_record-json r h' m.now size ticks boot start_ticks_of p
            (enter_phase-IsEnumerated phase error m.now h known i) short),
      trusted,
      now_instance,
      now_phase,
      rw (trusted) (ap is_ready now_phase),
    )
