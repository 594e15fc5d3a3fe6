-- ===== src/Supervisor/State.antt =====
-- scripts/bridge_recovery.py: Settings, RecordView, UnitView, trusted_record and State.
use Prim.Native.String.{String}
use text.Mathlib.Text.{◌==◌ as str_eq}
use casambi_mqtt.Prelude.{
  ℕ, Bool, true, false, Option, none, some, List, [], not, ◌&&◌, ◌||◌, ◌==◌, if◌then◌else◌,
}
use casambi_mqtt.Supervisor.Clock.{Stamp}

-- The settings that the decisions and actions read; the two paths are the environment's.
pub record Settings : Type 0 where
  pub bridge_unit : String
  pub failures_to_reset : ℕ
  pub failure_window : ℕ
  pub max_resets_short : ℕ
  pub short_window : ℕ
  pub max_resets_long : ℕ
  pub long_window : ℕ
  pub stop_timeout : ℕ
  pub verify_seconds : ℕ
  pub healthy_reset_seconds : ℕ
  pub poll_interval : ℕ

-- PHASES
pub data Phase : Type 0 where
  starting discovering connecting ready degraded offline : Phase

abbrev pub is_ready : Phase → Bool
is_ready ready = true
is_ready _ = false

-- `phase in {"discovering", "connecting"}`
abbrev pub is_connecting : Phase → Bool
is_connecting discovering = true
is_connecting connecting = true
is_connecting _ = false

-- A validated health record. `ready_since` and `error` are read by nothing that decides.
pub record RecordView : Type 0 where
  pub instance_id : String
  pub pid : ℕ
  pub phase : Phase
  pub error : String
  pub ever_ready : Bool
  pub ready_since : Option ℕ
  pub updated : ℕ
  pub alive : Bool
  pub mqtt_reconnects : ℕ

pub record UnitView : Type 0 where
  pub active_state : String
  pub main_pid : ℕ
  pub result : String
  pub exec_main_status : Option ℕ

-- The record, if it is of the unit's current, live main process.
unfoldable pub trusted_record : Option RecordView → UnitView → Option RecordView
trusted_record none unit = none
trusted_record (some r) unit = if not r.alive || not (r.pid == unit.main_pid) then none else some r

abbrev pub ready_record : Option RecordView → Bool
ready_record none = false
ready_record (some r) = is_ready r.phase

pub record State : Type 0 where
  pub ble_failures : List Stamp
  pub resets : List Stamp
  pub plain_restarts : List Stamp
  pub plain_restart_streak : ℕ
  pub startup_failure_streak : ℕ
  pub ready_instance : String
  pub ready_since : Option Stamp
  pub stuck_counted : List String
  pub mqtt_reconnects : ℕ
  pub recovery_failed : Bool
  pub terminal_stop_pending : Bool
  pub reason : String
  pub last_result : String

-- `State()`
abbrev pub initial : State
initial = record {
  ble_failures = [];
  resets = [];
  plain_restarts = [];
  plain_restart_streak = 0;
  startup_failure_streak = 0;
  ready_instance = "";
  ready_since = none;
  stuck_counted = [];
  mqtt_reconnects = 0;
  recovery_failed = false;
  terminal_stop_pending = false;
  reason = "none";
  last_result = "none";
}

-- An entry of the exit log.
pub record ExitEntry : Type 0 where
  pub stamp : Stamp
  pub code : String
  pub status : String

abbrev pub exit_configuration : ℕ
exit_configuration = 78

abbrev pub status_is : Option ℕ → ℕ → Bool
status_is none n = false
status_is (some m) n = m == n

-- unit.active_state == "failed" and unit.exec_main_status == EXIT_CONFIGURATION
abbrev pub configuration_failure : UnitView → Bool
configuration_failure u =
    str_eq u.active_state "failed" && status_is u.exec_main_status exit_configuration
