-- ===== src/Supervisor/Bench.antt =====
-- A small world to run the supervisor in: a clock, and a bridge that is up or down and is ready as a
-- new process once it is started.
use Prim.Native.String.{String}
use text.Mathlib.Text.{◌==◌ as str_eq}
use casambi_mqtt.Prelude.{
  ℕ, ◌+◌, Bool, true, false, Option, none, some, List, [], ◌∷◌, if◌then◌else◌,
}
use casambi_mqtt.Supervisor.State.{Settings, RecordView, ready}
use casambi_mqtt.Supervisor.Clock.{Clock}
use casambi_mqtt.Supervisor.Store.{StateFile}
use casambi_mqtt.Supervisor.Machine.{Env, Machine, Completed, Properties}

pub record Bench : Type 0 where
  pub time : ℕ
  pub up : Bool

abbrev pub bridge_properties : Bool → Properties
bridge_properties true = ("ActiveState", "active") ∷ ("MainPID", "7") ∷ ("Result", "success") ∷ []
bridge_properties false =
    ("ActiveState", "failed")
    ∷ ("MainPID", "0")
    ∷ ("Result", "exit-code")
    ∷ ("ExecMainStatus", "76")
    ∷ []

abbrev pub answer : Properties → Option Completed
answer ps = some (record { returncode = 0; stdout = ps })

abbrev pub serve : List String → ℕ → Bench → Option Completed × Bench
serve (verb ∷ unit ∷ []) timeout w =
    if str_eq verb "show"
    then (
      answer (
          if str_eq unit "bluetooth.service"
          then ("ActiveState", "active") ∷ []
          else bridge_properties w.up),
      w,
    )
    else if str_eq verb "stop"
    then (answer [], record w { up = false })
    else if str_eq verb "start"
    then (answer [], record w { up = true })
    else (answer [], w)
serve _ timeout w = (none, w)

abbrev pub new_process : RecordView
new_process = record {
  instance_id = "0123456789abcdef0123456789abcdef";
  pid = 7;
  phase = ready;
  error = "none";
  ever_ready = true;
  ready_since = none;
  updated = 0;
  alive = true;
  mqtt_reconnects = 0;
}

abbrev pub reading : Bench → Clock
reading w = record { wall = w.time; monotonic = w.time; boottime = w.time; boot_id = some "b" }

abbrev pub bench : Env Bench
bench = record {
  clock = reading;
  observe_clock = reading;
  decide_clock = reading;
  sleep = λ ms w. record w { time = w.time + ms };
  systemctl = serve;
  read_record = λ w. some new_process;
  exits = λ w. [];
  clear_exits = λ w. w;
  acquire = λ w. true;
}

abbrev pub cfg : Settings
cfg = record {
  bridge_unit = "casambi-mqtt.service";
  failures_to_reset = 2;
  failure_window = 7200;
  max_resets_short = 1;
  short_window = 600;
  max_resets_long = 2;
  long_window = 1800;
  stop_timeout = 60;
  verify_seconds = 180;
  healthy_reset_seconds = 3600;
  poll_interval = 2000;
}

abbrev pub machine : StateFile → Machine Bench
machine disk = record { world = record { time = 5000000; up = false }; disk = disk; trace = [] }
