-- ===== src/Bridge/Exits.antt =====
-- server.py, main and cli: the exit status with which the bridge process ends, and what the supervisor
-- makes of it. systemd hands the supervisor the status of a process that has exited, in decimal.
use Prim.Native.String.{String}
use casambi_mqtt.Prelude.{ℕ, if◌then◌else◌, ◌==◌, Bool, true, false, ◌||◌, Option, none, some}
use casambi_mqtt.Supervisor.Clock.{Stamp}
use casambi_mqtt.Supervisor.State.{Phase, offline, connecting, State, ExitEntry}
use casambi_mqtt.Supervisor.Decide.{count_exit}
use casambi_mqtt.Bridge.State.{Moment, BridgeHealth, set_phase}
use casambi_mqtt.Bridge.Startup.{
  Category, configuration, category_text, is_ble_failure, returned, raised, wedged, interrupted,
  StartupEnv, Outcome, completed, failed, cancelled, classify_startup_error,
}

-- How `_main` ends: it returns, raises CasambiDisconnected, StartupFailedError (`wedged` or not),
-- BridgeConfigurationError or another exception, is cancelled by SIGTERM or otherwise, or leaves the
-- process itself because the disconnect does not stop.
pub data End : Type 0 where
  finished ble_disconnected misconfigured crashed terminated aborted : End
  startup_failed : Category → (is_wedged : Bool) → End
  cleanup_wedged : (stopping : Bool) → (connected : Bool) → End

-- What main notes in the health record, if anything.
unfoldable pub final_error : End → Option String
final_error finished = none
final_error ble_disconnected = some "ble_disconnected"
final_error misconfigured = some "configuration"
final_error crashed = some "unknown"
final_error terminated = some "shutdown"
final_error aborted = some "shutdown"
final_error (startup_failed c is_wedged) = some (category_text c)
final_error (cleanup_wedged stopping connected) = none

unfoldable pub main_end : End → Moment → BridgeHealth → BridgeHealth
main_end e m h = elim (final_error e) [ none ↦ h | some error ↦ set_phase offline error m h ]

abbrev pub exit_ble_disconnected : ℕ
exit_ble_disconnected = 75

abbrev pub exit_ble_startup_failed : ℕ
exit_ble_startup_failed = 76

abbrev pub exit_configuration : ℕ
exit_configuration = 78

abbrev pub exit_startup_failed_other : ℕ
exit_startup_failed_other = 79

-- The category of a failed startup as cli returns it.
abbrev pub startup_code : Category → ℕ
startup_code configuration = exit_configuration
startup_code c = if is_ble_failure c then exit_ble_startup_failed else exit_startup_failed_other

-- The exit status, by main's and _main's `_hard_exit`, by cli's return value, or 1 for an exception
-- that leaves cli.
unfoldable pub exit_code : End → ℕ
exit_code finished = 0
exit_code ble_disconnected = exit_ble_disconnected
exit_code misconfigured = exit_configuration
exit_code crashed = 1
exit_code terminated = 0
exit_code aborted = 1
exit_code (startup_failed c true) = exit_ble_startup_failed
exit_code (startup_failed c false) = startup_code c
exit_code (cleanup_wedged true connected) = 0
exit_code (cleanup_wedged false true) = exit_ble_disconnected
exit_code (cleanup_wedged false false) = exit_ble_startup_failed

-- The exit statuses in decimal.
abbrev pub decimal : ℕ → String
decimal n =
    if n == 75
    then "75"
    else if n == 76
    then "76"
    else if n == 78
    then "78"
    else if n == 79
    then "79"
    else if n == 1
    then "1"
    else "0"

-- What systemd reports of a process that has exited by itself.
abbrev pub exit_entry : Stamp → End → ExitEntry
exit_entry stamp e = record { stamp = stamp; code = "exited"; status = decimal (exit_code e) }

-- The ends that a Bluetooth reset may help: BLE did not let the bridge start, or did not let it go
-- before it had a link.
abbrev pub is_ble_to_blame : End → Bool
is_ble_to_blame (startup_failed c is_wedged) = is_wedged || is_ble_failure c
is_ble_to_blame (cleanup_wedged false false) = true
is_ble_to_blame _ = false

-- The ends that are failed starts, other than those of the configuration.
abbrev pub is_failed_start : End → Bool
is_failed_start (startup_failed configuration is_wedged) = is_wedged
is_failed_start (startup_failed c is_wedged) = true
is_failed_start (cleanup_wedged false false) = true
is_failed_start _ = false

-- `_main`'s `finally` clause, which the connect stage runs under: does its disconnect not stop?
abbrev pub final_wedges : Phase → Bool → Bool
final_wedges connecting wedges = wedges
final_wedges _ wedges = false

-- How the process ends after a startup stage, if the stage ends it. If the last disconnect does not stop,
-- `_main` leaves the process itself, by `stopping` as it finds it, not yet connected.
abbrev pub stage_end : {A : Type 0} → (final_wedged : Bool) → Outcome A → Option End
stage_end w (completed a) = none
stage_end false (failed c is_wedged) = some (startup_failed c is_wedged)
stage_end true (failed c is_wedged) = some (cleanup_wedged false false)
stage_end false cancelled = some terminated
stage_end true cancelled = some (cleanup_wedged true false)

-- The supervisor's state after it has read of the end, if there is one.
abbrev pub count_end : Stamp → Option End → State → State
count_end stamp none s = s
count_end stamp (some e) s = count_exit (exit_entry stamp e) s

-- Did BLE make the attempt fail: it, its cleanup or the last disconnect did not stop, or its error is one
-- of BLE's?
abbrev pub blames_ble : {A : Type 0} → Phase → StartupEnv A → (final_wedged : Bool) → ℕ → Bool
blames_ble stage env w n = elim (env.operation n) [
  | returned a ↦ false
  | wedged ↦ true
  | interrupted ↦ false
  | raised e ↦ w || env.cleanup_wedges n || is_ble_failure (classify_startup_error e stage)
]
