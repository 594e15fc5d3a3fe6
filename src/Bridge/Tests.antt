-- ===== src/Bridge/Tests.antt =====
-- The bridge process's theorems at concrete records, statuses and submissions.
use casambi_mqtt.Prelude.{ℕ, ◌≡◌, refl, true, false, none, some, List, [], ◌∷◌, inl, arith}
use casambi_mqtt.Json.{Value, end}
use casambi_mqtt.Supervisor.State.{
  ready, RecordView, UnitView, trusted_record, ready_record, is_ready,
}
use casambi_mqtt.Supervisor.Record.{passed, parse_record}
use casambi_mqtt.Health.Protocol.{status_dict}
use casambi_mqtt.Health.Bridge.{from_options, new_tracker, on_message}
use casambi_mqtt.Bridge.State.{Moment, HealthRecord, BridgeHealth, new_health, set_phase}
use casambi_mqtt.Bridge.Status.{build_status}
use casambi_mqtt.Bridge.Trust.{IsEnumerated, set_phase-trusted}
use casambi_mqtt.Bridge.Heard.{IsBehind, heartbeat_heard}
use casambi_mqtt.Bridge.Units.{
  find, new_publisher, Event, submitted, woken, answered, pause_over, run,
}
use casambi_mqtt.Bridge.Delivery.{last_submitted, catch_up, catch_up-last_submitted}
use casambi_mqtt.Bridge.Sound.{IsSound, run-IsSound}

-- Two states of one unit, the first of them refused, and a state of another unit.
abbrev events : List (Event ℕ)
events =
    submitted "unit/1" 10
    ∷ woken
    ∷ submitted "unit/2" 30
    ∷ submitted "unit/1" 20
    ∷ answered false
    ∷ pause_over
    ∷ woken
    ∷ []

last_submitted-events : last_submitted events "unit/1" ≡ some 20
unfolding last_submitted
last_submitted-events = refl

catch_up-last_submitted_example :
    find "unit/1" (catch_up (run events new_publisher)).retained ≡ last_submitted events "unit/1"
catch_up-last_submitted_example = catch_up-last_submitted events "unit/1"

run-IsSound_example : IsSound (run events new_publisher)
run-IsSound_example = run-IsSound events

abbrev record_of_7 : HealthRecord
record_of_7 = record {
  pid = 7;
  start_ticks = some 99;
  boot_id = some "01234567-89ab-cdef-0123-456789abcdef";
  failed = false;
  file = none;
}

abbrev moment : Moment
moment = record { now = 5000; time = "2026-01-01T00:00:00+00:00"; stored = true }

abbrev health : BridgeHealth
health = new_health "0123456789abcdef0123456789abcdef" (some record_of_7) 1000

abbrev unit_7 : UnitView
unit_7 = record {
  active_state = "active";
  main_pid = 7;
  result = "success";
  exec_main_status = none;
}

health-IsEnumerated : IsEnumerated health
health-IsEnumerated = record { instance = refl; error = refl; ble = refl; mqtt = refl }

set_phase-trusted_example :
    (v : Value) × (view : RecordView) × ((set_phase ready "none" moment health).record_file
      ≡ some (record record_of_7 { failed = false; file = some v }))
    × (parse_record 300 (some v) (some "01234567-89ab-cdef-0123-456789abcdef") (λ pid. some 99)
        ≡ passed view)
    × (trusted_record (some view) unit_7 ≡ some view)
    × (view.instance_id ≡ health.instance_id)
    × (view.phase ≡ ready)
    × (ready_record (trusted_record (some view) unit_7) ≡ is_ready ready)
set_phase-trusted_example =
    set_phase-trusted ready "none" moment health record_of_7 unit_7 300 99
      "01234567-89ab-cdef-0123-456789abcdef" (λ pid. some 99) refl refl
      (record { has_pid = omega arith; has_ticks = refl; has_boot = refl; boot_valid = refl })
      health-IsEnumerated refl refl refl (omega arith)

heartbeat_heard_example :
    let t = new_tracker (from_options end) 0 in
    let (s, h') = build_status moment health in
    let (taken, t') = on_message (some (status_dict s)) false 2000 t in
    (taken ≡ true) × (t'.status ≡ some s) × (t'.received_at ≡ some 2000) × IsBehind t' h'
heartbeat_heard_example =
    heartbeat_heard moment health (new_tracker (from_options end) 0) 2000 health-IsEnumerated
      (record {
        sequence = omega arith;
        clock = omega arith;
        text = omega arith;
        generation = omega arith;
        units = omega arith;
        scenes = omega arith;
        failed = omega arith;
      })
      (record { current = refl; behind = inl refl })
