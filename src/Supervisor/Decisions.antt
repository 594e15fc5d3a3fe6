-- ===== src/Supervisor/Decisions.antt =====
-- decide, branch by branch: when it acts, and what it never touches.
use text.Mathlib.Text.{◌==◌ as str_eq}
use casambi_mqtt.Prelude.{◌≤◌, ◌<◌, ◌≡◌, ◌↔◌, ◌⊎◌, true, false, Option, length, arith}
use casambi_mqtt.Supervisor.Clock.{Clock, recent}
use casambi_mqtt.Supervisor.State.{
  Settings, RecordView, UnitView, State, trusted_record, ready_record, configuration_failure,
}
use casambi_mqtt.Supervisor.Decide.{act_none, act_recover, act_restart, act_stop, decide}

module _ (s : State) (unit : UnitView) (view : Option RecordView) (c : Clock) (cfg : Settings) where
  abbrev pub IsIdle : Type 0
  IsIdle =
      (s.recovery_failed ≡ false)
      × (configuration_failure unit ≡ false)
      × (ready_record (trusted_record view unit) ≡ false)

  -- A Bluetooth reset is decided exactly if recovery is not latched, the unit did not stop on a
  -- configuration error, no trusted record shows a ready bridge, the startup streak is below six,
  -- the BLE failures reach the threshold, and both reset budgets have room.
  pub recover_iff : ((decide s unit view c cfg).action ≡ act_recover) ↔ (
      IsIdle
      × (s.startup_failure_streak < 6)
      × (cfg.failures_to_reset ≤ length s.ble_failures)
      × (length (recent s.resets c cfg.short_window) < cfg.max_resets_short)
      × (length (recent s.resets c cfg.long_window) < cfg.max_resets_long))
  unfolding decide
  recover_iff = ground arith

  -- A plain restart is decided exactly if nothing above it applies (no latch, no configuration
  -- error, no ready bridge, streak below six, too few BLE failures), systemd gave the unit up, and
  -- both the restart streak and the restart window have room.
  pub restart_iff : ((decide s unit view c cfg).action ≡ act_restart) ↔ (
      IsIdle
      × (s.startup_failure_streak < 6)
      × (length s.ble_failures < cfg.failures_to_reset)
      × (str_eq unit.active_state "failed" ≡ true)
      × (s.plain_restart_streak < 3)
      × (length s.plain_restarts < 1))
  unfolding decide
  restart_iff = ground arith

  -- A bridge that a trusted record shows ready, and a unit that stopped on a configuration error,
  -- are left alone, whatever the state says.
  pub left_alone :
      (ready_record (trusted_record view unit) ≡ true) ⊎ (configuration_failure unit ≡ true)
      → (decide s unit view c cfg).action ≡ act_none
  unfolding decide
  left_alone h = ground arith

  -- While recovery is latched nothing is started or reset: the decision is to do nothing, or to
  -- stop the bridge, and to stop only while a terminal stop is pending.
  pub latched_acts :
      s.recovery_failed ≡ true
      → ((decide s unit view c cfg).action ≡ act_none)
        ⊎ (((decide s unit view c cfg).action ≡ act_stop) × (s.terminal_stop_pending ≡ true))
  unfolding decide
  latched_acts h = ground arith
