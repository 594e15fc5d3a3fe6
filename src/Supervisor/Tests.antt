-- ===== src/Supervisor/Tests.antt =====
-- The supervisor's theorems at concrete states and in a concrete world.
use text.Mathlib.Text.{◌==◌ as str_eq}
use casambi_mqtt.Prelude.{
  ◌+◌, ◌≤◌, ◌<◌, ◌≡◌, ◌↔◌, ◌⊎◌, inl, refl, true, false, none, some, List, [], ◌∷◌, All, arith,
  length,
}
use casambi_mqtt.Prelude.{Option, if◌then◌else◌}
use casambi_mqtt.Prelude.Int.{ℤ, pos}
use casambi_mqtt.Supervisor.Machine.{to_int}
use casambi_mqtt.Supervisor.Options.{
  from_env, numbers_of_env, of_numbers, number, is_bridge_unit, from_env-IsUsable,
}
use Prim.Native.String.{String}
use casambi_mqtt.Supervisor.State.{Settings}
use casambi_mqtt.Supervisor.Clock.{Clock, stamp, is_recent, recent}
use casambi_mqtt.Supervisor.State.{State, UnitView, ExitEntry, trusted_record, initial}
use casambi_mqtt.Supervisor.Decide.{
  act_none, act_recover, act_stop, decide, observe, observe_record, prune, count_exits,
  observe_ready,
}
use casambi_mqtt.Supervisor.Decisions.{IsIdle, recover_iff, left_alone, latched_acts}
use casambi_mqtt.Supervisor.Store.{
  StateFile, load_state, save_state, parse_state, check_fields, cut, to_json, as_stamp, as_all,
}
use casambi_mqtt.Supervisor.Persistence.{IsStorable, load-save, load_state-IsStorable}
use casambi_mqtt.Supervisor.Machine.{
  Env, Machine, done, stop, action, save, wait_loop, wait_until, from_properties, show,
  read_properties, consume_exits, shows, recovered, Poll,
}
use casambi_mqtt.Supervisor.Recover.{
  went_on, charge, recover, reset_bluetooth, reset_when_stopped, verify, act, pass, run_once,
  instance_of,
}
use casambi_mqtt.Supervisor.Guarantees.{
  IsNoEarlier, IsAllowed, WithinBudget, SavedWithinBudget, GrownFrom, commands-IsAllowed,
  run_once-WithinBudget, recover_charges_first,
}
use casambi_mqtt.Supervisor.Machine.{saved}
use casambi_mqtt.Supervisor.Passes.{deciding}
use casambi_mqtt.Supervisor.Waiting.{wait_until-ends}
use casambi_mqtt.Supervisor.Outcomes.{SeenReady, recover-true}
use casambi_mqtt.Supervisor.Restarted.{Started, recover-Started}
use casambi_mqtt.Supervisor.Bench.{Bench, bench, cfg, machine, new_process}

abbrev clock : Clock
clock = bench.clock (machine StateFile.missing).world

-- Two BLE startup failures are on record, and the unit is down.
abbrev failing : State
failing = record initial {
  ble_failures = stamp clock ∷ stamp clock ∷ [];
  startup_failure_streak = 2;
}

abbrev down : UnitView
down = record {
  active_state = "failed";
  main_pid = 0;
  result = "exit-code";
  exec_main_status = some 76;
}

failing_recovers : (decide failing down none clock cfg).action ≡ act_recover
unfolding decide is_recent trusted_record
failing_recovers = refl

recover_iff_example : ((decide failing down none clock cfg).action ≡ act_recover) ↔ (
    IsIdle failing down none clock cfg
    × (failing.startup_failure_streak < 6)
    × (cfg.failures_to_reset ≤ length failing.ble_failures)
    × (length (recent failing.resets clock cfg.short_window) < cfg.max_resets_short)
    × (length (recent failing.resets clock cfg.long_window) < cfg.max_resets_long))
recover_iff_example = recover_iff failing down none clock cfg

-- The whole pass in the bench: the bridge is stopped, Bluetooth restarted, the new process is ready.
bench_recovers : (run_once bench cfg (machine (save_state failing))).0 ≡ "recovered"
unfolding run_once pass act recover reset_bluetooth reset_when_stopped verify action show save
    consume_exits wait_until wait_loop shows recovered from_properties read_properties load_state
    save_state parse_state check_fields cut to_json as_stamp as_all observe observe_record prune
    count_exits decide is_recent trusted_record
bench_recovers = refl

-- A bridge that its record shows ready.
abbrev serving : UnitView
serving = record {
  active_state = "active";
  main_pid = 7;
  result = "success";
  exec_main_status = none;
}

left_alone_example : (decide failing serving (some new_process) clock cfg).action ≡ act_none
unfolding trusted_record
left_alone_example = left_alone failing serving (some new_process) clock cfg (inl refl)

abbrev latched : State
latched = record initial { recovery_failed = true; terminal_stop_pending = true }

latched_acts_example :
    ((decide latched down none clock cfg).action ≡ act_none)
    ⊎ (((decide latched down none clock cfg).action ≡ act_stop)
        × (latched.terminal_stop_pending ≡ true))
latched_acts_example = latched_acts latched down none clock cfg refl

-- A latch that a healthy period of an hour clears.
abbrev long_healthy : State
long_healthy = record initial {
  recovery_failed = true;
  ready_instance = new_process.instance_id;
  ready_since = some (record { boot = some "b"; t = 0; wall = 0 });
}

latch_cleared :
    (observe long_healthy serving (some new_process) clock cfg []).recovery_failed ≡ false
unfolding observe observe_record observe_ready prune count_exits is_recent trusted_record
latch_cleared = refl

abbrev sixth : List ExitEntry
sixth = record { stamp = stamp clock; code = "exited"; status = "79" } ∷ []

abbrev five : State
five = record initial { startup_failure_streak = 5 }

failing-IsStorable : IsStorable failing
failing-IsStorable = omega arith

load-save_example : load_state (save_state failing) ≡ failing
load-save_example = load-save failing failing-IsStorable

load_state-IsStorable_example :
    IsStorable (load_state StateFile.unread)
    × (load_state (save_state (load_state StateFile.unread)) ≡ load_state StateFile.unread)
load_state-IsStorable_example = load_state-IsStorable StateFile.unread

abbrev start_machine : Machine Bench
start_machine = machine (save_state failing)

commands-IsAllowed_example : All (IsAllowed cfg) (run_once bench cfg start_machine).1.trace
commands-IsAllowed_example = commands-IsAllowed bench cfg start_machine refl

failing-WithinBudget : WithinBudget cfg clock (load_state (save_state failing))
failing-WithinBudget = rw (load-save failing failing-IsStorable) (omega arith)

clock_later : IsNoEarlier cfg (bench.decide_clock (deciding bench cfg start_machine).world) clock
unfolding consume_exits show
clock_later = λ x h. h

run_once-WithinBudget_example :
    All (SavedWithinBudget cfg clock) (run_once bench cfg start_machine).1.trace
    × WithinBudget cfg clock (load_state (run_once bench cfg start_machine).1.disk)
run_once-WithinBudget_example =
    run_once-WithinBudget bench cfg start_machine clock refl clock_later failing-WithinBudget

recover_charges_first_example :
    GrownFrom
      (saved (charge clock failing) ∷ [])
      (recover bench cfg failing none start_machine).2.trace
recover_charges_first_example = recover_charges_first bench cfg failing none start_machine

latched-IsStorable : IsStorable latched
latched-IsStorable = omega arith

latched_loads : (load_state (save_state latched)).recovery_failed ≡ true
latched_loads = rw (load-save latched latched-IsStorable) refl

-- A poll of the bridge's unit takes no time in the bench.
abbrev poll : Poll bench cfg
poll = shows bench cfg cfg.bridge_unit (λ ps. false)

poll_advances : (m : Machine Bench) → m.world.time ≤ (poll m).1.world.time
unfolding shows show
poll_advances m = ground arith

wait_until-ends_example :
    wait_loop bench cfg 1000 (5000000 + 60000) poll start_machine
    ≡ wait_until bench cfg poll 60 start_machine
wait_until-ends_example =
    wait_until-ends bench cfg 60 1000 poll start_machine (omega arith) (λ ms w. omega arith)
      poll_advances (omega arith)

bench_succeeds : (recover bench cfg failing none start_machine).0 ≡ true
unfolding recover reset_bluetooth reset_when_stopped verify action show save consume_exits
    wait_until wait_loop shows recovered from_properties read_properties is_recent trusted_record
bench_succeeds = refl

recover-true_example :
    let after_reset =
      reset_bluetooth bench cfg (save bench cfg (charge clock failing) start_machine) in
    (after_reset.0 ≡ went_on tt)
    × SeenReady bench cfg (instance_of bench cfg none) after_reset.1
    × ((recover bench cfg failing none start_machine).1 ≡ record (charge clock failing) {
      ble_failures = [];
      startup_failure_streak = 0;
      last_result = "recovered";
    })
recover-true_example = recover-true bench cfg failing none start_machine bench_succeeds

bench_stops :
    (action bench cfg stop cfg.bridge_unit (save bench cfg (charge clock failing) start_machine)).0
    ≡ done
unfolding action save
bench_stops = refl

recover-Started_example : Started bench cfg (recover bench cfg failing none start_machine).2
recover-Started_example = recover-Started bench cfg failing none start_machine bench_stops

-- A bench without systemd.
abbrev broken : Env Bench
broken = record bench { systemctl = λ args timeout w. (none, w) }

broken_fails : (recover broken cfg failing none start_machine).0 ≡ false
unfolding recover reset_bluetooth action save
broken_fails = refl

-- An environment that sets one number and leaves the rest to the defaults.
abbrev env_of_three : String → Option String
env_of_three key = if str_eq key "RECOVERY_FAILURES_TO_RESET" then some "3" else none

abbrev int_of : String → Option ℤ
int_of s = elim (to_int (some s)) [ none ↦ none | some n ↦ some (pos n) ]

abbrev three : Settings
three = record cfg { failures_to_reset = 3 }

three_read : from_env int_of env_of_three ≡ some three
unfolding from_env numbers_of_env of_numbers number
three_read = refl

from_env-IsUsable_example :
    (is_bridge_unit int_of env_of_three three.bridge_unit ≡ true)
    × (2 ≤ three.failures_to_reset)
    × (1 ≤ three.max_resets_short)
    × (three.max_resets_short ≤ three.max_resets_long)
    × (three.max_resets_long ≤ 10)
    × (5 ≤ three.stop_timeout)
    × (0 < three.poll_interval)
from_env-IsUsable_example = from_env-IsUsable int_of env_of_three three_read
