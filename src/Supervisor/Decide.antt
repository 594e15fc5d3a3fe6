-- ===== src/Supervisor/Decide.antt =====
-- scripts/bridge_recovery.py: observe and decide, the pure part of a supervisor pass.
use Prim.Native.String.{String}
use text.Mathlib.Text.{◌==◌ as str_eq}
use casambi_mqtt.Prelude.{
  ℕ, zero, suc, ◌+◌, ◌-◌, Bool, false, not, ◌&&◌, ◌||◌, Option, none, some, List, [], ◌∷◌, ◌++◌,
  length, drop, any, ltb, leb, if◌then◌else◌,
}
use casambi_mqtt.Supervisor.Clock.{Clock, stamp, seconds, is_recent, recent}
use casambi_mqtt.Supervisor.State.{
  Settings, RecordView, UnitView, State, ExitEntry, trusted_record, is_ready, is_connecting,
  ready_record, configuration_failure,
}

abbrev pub max_seen_instances : ℕ
max_seen_instances = 32

abbrev pub max_startup_failure_streak : ℕ
max_startup_failure_streak = 6

abbrev pub stuck_seconds : ℕ
stuck_seconds = 600

abbrev pub plain_restart_window_seconds : ℕ
plain_restart_window_seconds = 1800

abbrev pub max_plain_restarts_per_window : ℕ
max_plain_restarts_per_window = 1

abbrev pub max_plain_restart_streak : ℕ
max_plain_restart_streak = 3

-- `xs[-n:]`
abbrev pub last {ℓ} : {A : Type ℓ} → ℕ → List A → List A
last n xs = drop (length xs - n) xs

abbrev pub replicate {ℓ} : {A : Type ℓ} → ℕ → A → List A
replicate zero a = []
replicate (suc n) a = a ∷ replicate n a

-- EXIT_BLE_STARTUP_FAILED, and that or EXIT_STARTUP_FAILED, as the exit log spells them
abbrev pub is_ble_exit : ExitEntry → Bool
is_ble_exit e = str_eq e.code "exited" && str_eq e.status "76"

abbrev pub is_startup_exit : ExitEntry → Bool
is_startup_exit e = str_eq e.code "exited" && (str_eq e.status "76" || str_eq e.status "79")

-- The body of the loop over the consumed exits.
unfoldable pub count_exit : ExitEntry → State → State
count_exit e s = record s {
  startup_failure_streak =
      if is_startup_exit e then s.startup_failure_streak + 1 else s.startup_failure_streak;
  ble_failures = if is_ble_exit e then s.ble_failures ++ (e.stamp ∷ []) else s.ble_failures;
}

unfoldable pub count_exits : List ExitEntry → State → State
count_exits [] s = s
count_exits (e ∷ es) s = count_exits es (count_exit e s)

-- Drop the stamps that have left their windows.
unfoldable pub prune : Clock → Settings → State → State
prune c cfg s = record s {
  ble_failures = recent s.ble_failures c cfg.failure_window;
  resets = recent s.resets c cfg.long_window;
  plain_restarts = recent s.plain_restarts c plain_restart_window_seconds;
}

-- The observed healthy period has begun, goes on, or has lasted long enough to clear the latch.
unfoldable pub observe_ready : RecordView → Clock → Settings → State → State
observe_ready r c cfg s =
    let cleared : State = record s {
      ble_failures = [];
      plain_restart_streak = 0;
      startup_failure_streak = 0;
    } in
    let begun : State = record cleared {
      ready_instance = r.instance_id;
      ready_since = some (stamp c);
    } in
    if not (str_eq s.ready_instance r.instance_id) then begun else elim s.ready_since [
      | none ↦ begun
      | some since ↦
          if not s.terminal_stop_pending && not (is_recent since c cfg.healthy_reset_seconds)
          then record cleared { recovery_failed = false; reason = "none" }
          else cleared
    ]

-- A live bridge that is still connecting and has not changed its record for ten minutes.
abbrev pub is_stuck : RecordView → Clock → State → Bool
is_stuck r c s =
    is_connecting r.phase
    && (ltb (r.updated + seconds stuck_seconds) c.monotonic
        && not (any (λ i. str_eq i r.instance_id) s.stuck_counted))

unfoldable pub observe_not_ready : RecordView → Clock → Settings → State → State
observe_not_ready r c cfg s =
    let unready : State = record s { ready_instance = ""; ready_since = none } in
    if is_stuck r c s
    then record unready {
      stuck_counted = last max_seen_instances (s.stuck_counted ++ (r.instance_id ∷ []));
      ble_failures = s.ble_failures ++ replicate cfg.failures_to_reset (stamp c);
    }
    else unready

unfoldable pub observe_record : Option RecordView → Clock → Settings → State → State
observe_record none c cfg s = record s { ready_instance = ""; ready_since = none }
observe_record (some r) c cfg s =
    let seen : State = record s { mqtt_reconnects = r.mqtt_reconnects } in
    if is_ready r.phase then observe_ready r c cfg seen else observe_not_ready r c cfg seen

unfoldable pub observe :
    State → UnitView → Option RecordView → Clock → Settings → List ExitEntry → State
observe s unit record_view c cfg exits =
    observe_record (trusted_record record_view unit) c cfg (prune c cfg (count_exits exits s))

pub data Action : Type 0 where
  act_none act_recover act_restart act_latch act_stop : Action

pub record Decision : Type 0 where
  pub action : Action
  pub reason : String

abbrev pub budget_spent : State → Clock → Settings → Bool
budget_spent s c cfg =
    leb cfg.max_resets_short (length (recent s.resets c cfg.short_window))
    || leb cfg.max_resets_long (length (recent s.resets c cfg.long_window))

unfoldable pub decide : State → UnitView → Option RecordView → Clock → Settings → Decision
decide s unit record_view c cfg =
    let trusted_ready = ready_record (trusted_record record_view unit) in
    if s.recovery_failed
    then (if s.terminal_stop_pending && (not (configuration_failure unit) && not trusted_ready)
        then record { action = act_stop; reason = "recovery_failed" }
        else record { action = act_none; reason = "recovery_failed" })
    else if configuration_failure unit
    then record { action = act_none; reason = "configuration_error" }
    else if trusted_ready
    then record { action = act_none; reason = "bridge_ready" }
    else if leb max_startup_failure_streak s.startup_failure_streak
    then record { action = act_latch; reason = "startup_failure_budget_exhausted" }
    else if leb cfg.failures_to_reset (length s.ble_failures)
    then (if budget_spent s c cfg
        then record { action = act_latch; reason = "budget_exhausted" }
        else record { action = act_recover; reason = "repeated_ble_failure" })
    else if str_eq unit.active_state "failed"
    then (if leb max_plain_restart_streak s.plain_restart_streak
        then record { action = act_latch; reason = "bridge_keeps_failing" }
        else if leb max_plain_restarts_per_window (length s.plain_restarts)
        then record { action = act_none; reason = "bridge_failed_restart_budget_used" }
        else record { action = act_restart; reason = "bridge_failed" })
    else record { action = act_none; reason = "no_repeated_ble_failure" }
