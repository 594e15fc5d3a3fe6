-- ===== src/Bridge/CommandTests.antt =====
-- The theorems on starting up, commands and snapshots, at concrete attempts and messages.
use Prim.Native.String.{String}
use casambi_mqtt.Prelude.{
  ◌+◌, ℕ, zero, suc, ◌<◌, ◌≡◌, List, arith, refl, true, false, none, some, [], ◌∷◌, length, keep,
}
use casambi_mqtt.Prelude.Int.{pos}
use casambi_mqtt.Json.{int, str, obj, Fields, end, field, get}
use casambi_mqtt.Health.Protocol.{ok}
use casambi_mqtt.Supervisor.Clock.{Stamp}
use casambi_mqtt.Bridge.State.{Moment, BridgeHealth, new_health, set_phase, record_snapshot}
use casambi_mqtt.Bridge.Status.{publish_reply}
use casambi_mqtt.Bridge.Startup.{Error, raised, wedged, StartupEnv}
use casambi_mqtt.Bridge.Commands.{
  NetworkUnit, Network, set_level, command_unit, light_target, validate_brightness, keys_of,
  validate_command_keys, process_command, end_snapshot_request,
}
use casambi_mqtt.Bridge.Targets.{IsAllowed, process_command-IsAllowed}
use casambi_mqtt.Bridge.Snapshot.{
  is_published, snapshot_messages, count_message, publish_messages, publish_snapshot,
  end_snapshot_request-ok,
}
use casambi_mqtt.Bridge.SwitchEvents.{
  SwitchEvent, sanitize_switch_event, purge_expired, publish, new_switch_publisher,
}
use casambi_mqtt.Bridge.Purge.{publish_all, remember, publish_all-remember}

abbrev bleak_error : Error
bleak_error = record {
  head = record { dbus_error = none; first_arg = none; classes = "BleakError" ∷ "Exception" ∷ [] };
  causes = [];
}

abbrev moment : Moment
moment = record { now = 5000; time = "2026-01-01T00:00:00+00:00"; stored = true }

abbrev health : BridgeHealth
health = new_health "0123456789abcdef0123456789abcdef" none 1000

-- Two attempts fail, the third does not stop.
abbrev attempts : StartupEnv ℕ
attempts = record {
  operation = λ n. elim n [
    | zero ↦ raised bleak_error
    | suc k ↦ elim k [ zero ↦ raised bleak_error | suc j ↦ wedged ]
  ];
  cleanup_wedges = λ n. false;
  rng = λ n. 500;
  before = λ n. moment;
  after = λ n. moment;
}

abbrev at_exit : Stamp
at_exit = record { wall = 7000; boot = none; t = 7000 }

abbrev lamp : NetworkUnit
lamp = record { address = "a1"; uuid = "u1" }

abbrev network : Network
network = record { units = lamp ∷ record { address = ""; uuid = "u2" } ∷ []; scenes = 3 ∷ [] }

abbrev message : Fields
message =
    field "action" (str "SET_LEVEL")
      (field "address" (str "a1") (field "value" (int (pos 200)) end))

process_command-moves :
    process_command network true (some (obj message)) ≡ some (set_level lamp 200)
unfolding process_command validate_command_keys keys_of light_target command_unit
    validate_brightness
process_command-moves = refl

process_command-IsAllowed_example :
    (true ≡ true)
    × (d : Fields) × (action : String) × (some (obj message) ≡ some (obj d))
    × (get "action" d ≡ some (str action))
    × (validate_command_keys d action ≡ true)
    × IsAllowed network d (set_level lamp 200)
process_command-IsAllowed_example =
    process_command-IsAllowed network true (some (obj message)) (set_level lamp 200)
      process_command-moves

all_confirmed :
    (end_snapshot_request moment "id" (publish_snapshot (λ j. true) network) health).0.result ≡ ok
unfolding end_snapshot_request publish_snapshot publish_messages snapshot_messages count_message
    publish_reply record_snapshot set_phase
all_confirmed = refl

end_snapshot_request-ok_example :
    ((j : ℕ) → j < length (snapshot_messages network) → true ≡ true)
    × ((end_snapshot_request moment "id" (publish_snapshot (λ j. true) network) health).0.counters
        ≡ some (record {
          units = length (keep (is_published network.units) network.units);
          scenes = length network.scenes;
          failed = 0;
          generation = health.snapshot.generation + 1;
        }))
    × ((end_snapshot_request moment "id" (publish_snapshot (λ j. true) network) health).1.snapshot
        ≡ record {
          generation = health.snapshot.generation + 1;
          units = length (keep (is_published network.units) network.units);
          scenes = length network.scenes;
          failed = 0;
          age_s = none;
        })
end_snapshot_request-ok_example =
    end_snapshot_request-ok moment "id" health (λ j. true) network all_confirmed

abbrev press : SwitchEvent
press = record {
  event = some "PRESS";
  button = some 1;
  unit_id = some 7;
  dedup_identity = some (7, 0, 5);
}

-- A press, its repetition 100 milliseconds later, and the same identity again when the window is over.
abbrev presses : List (ℕ × SwitchEvent)
presses = (1000, press) ∷ (1100, press) ∷ (1250, press) ∷ []

sent-presses : length (publish_all presses new_switch_publisher).sent ≡ 2
unfolding publish purge_expired sanitize_switch_event
sent-presses = refl

publish_all-remember_example :
    (publish_all presses new_switch_publisher).sent
    ≡ (remember presses (record { seen = λ k. none; told = [] })).told
publish_all-remember_example =
    publish_all-remember presses (omega arith, (omega arith, (omega arith, tt)))
