-- ===== src/Supervisor/Recover.antt =====
-- scripts/bridge_recovery.py: recover, restart_bridge, stop_terminally and run_once.
use Prim.Native.String.{String}
use Prim.Native.String.{◌++◌ as str_append}
use casambi_mqtt.Prelude.{
  ◌+◌, Bool, true, false, Option, none, some, [], ◌∷◌, ◌++◌, length, leb, if◌then◌else◌,
}
use casambi_mqtt.Supervisor.Clock.{Clock, stamp, recent}
use casambi_mqtt.Supervisor.State.{Settings, RecordView, UnitView, State, trusted_record}
use casambi_mqtt.Supervisor.Decide.{
  observe, decide, Decision, act_none, act_recover, act_restart, act_latch, act_stop,
}
use casambi_mqtt.Supervisor.Store.{load_state}
use casambi_mqtt.Supervisor.Machine.{
  Env, Machine, done, failed, Verb, stop, start, restart, reset_failed, bluetooth_unit, get,
  text_is, from_properties, action, show, save, consume_exits, Poll, wait_until, is_stopped, shows,
  recovered,
}

-- How the `try` block of `recover` ends: at its end, or with a reason to fail and whether the bridge
-- is then stopped.
pub data Attempt (A : Type 0) : Type 0 where
  went_on : A → Attempt A
  gave_up : String → Bool → Attempt A

abbrev pub latch : String → State → State
latch reason s = record s {
  recovery_failed = true;
  terminal_stop_pending = true;
  reason = reason;
  last_result = "recovery_failed";
}

abbrev pub charge : Clock → State → State
charge c s = record s { resets = s.resets ++ (stamp c ∷ []); last_result = "in_progress" }

-- f"service_manager_{error.args[0]}"
abbrev pub manager_error : String → String
manager_error e = str_append "service_manager_" e

module _ {W : Type 0} (env : Env W) (cfg : Settings) where
  abbrev pub Step : Type 0 → Type 0
  Step A = Machine W → Attempt A × Machine W

  abbrev pub after : {A B : Type 0} → Attempt A → (A → Step B) → Step B
  after (went_on a) f m = f a m
  after (gave_up reason stopped) f m = (gave_up reason stopped, m)

  infixl 5 ◌>>=◌ ◌>>◌
  abbrev pub ◌>>=◌ : {A B : Type 0} → Step A → (A → Step B) → Step B
  ◌>>=◌ f g m = let (r, m') = f m in after r g m'

  abbrev pub ◌>>◌ : {A B : Type 0} → Step A → Step B → Step B
  m >> k = m >>= λ _. k

  -- `manager.action` in the `try` block
  abbrev pub order : Bool → Verb → String → Step (Unit {0})
  order stopped verb unit m =
      let (o, m') = action env cfg verb unit m in
      (elim o [ done ↦ went_on tt | failed e ↦ gave_up (manager_error e) stopped ], m')

  -- `if not _wait_until(…): return fail(…)`
  abbrev pub await : Poll env cfg → String → Step (Unit {0})
  await predicate reason m =
      let (held, m') = wait_until env cfg predicate cfg.stop_timeout m in
      (if held then went_on tt else gave_up reason true, m')

  -- `consume_exits(settings)`, its entries dropped
  abbrev pub drop_exits : Step (Unit {0})
  drop_exits m = (went_on tt, (consume_exits env cfg m).1)

  -- `if manager.show(bridge).get("Result") == "start-limit-hit": …`
  abbrev pub clear_start_limit : Step (Unit {0})
  clear_start_limit m =
      let (ps, m') = show env cfg cfg.bridge_unit m in
      elim ps [
        | none ↦ (gave_up (manager_error "show") true, m')
        | some properties ↦
            if text_is (get "Result" properties) "start-limit-hit"
            then order true reset_failed cfg.bridge_unit m'
            else (went_on tt, m')
      ]

  abbrev pub bridge_stopped : Poll env cfg
  bridge_stopped = shows env cfg cfg.bridge_unit (is_stopped env cfg)

  abbrev pub bluetooth_active : Poll env cfg
  bluetooth_active = shows env cfg bluetooth_unit (λ ps. text_is (get "ActiveState" ps) "active")

  -- The `try` block of `recover`, behind `bridge_stopped = True` and from its start.
  unfoldable pub reset_when_stopped : Step (Unit {0})
  reset_when_stopped = do
    await bridge_stopped "bridge_stop_timeout"
    drop_exits
    order true restart bluetooth_unit
    await bluetooth_active "bluetooth_restart_timeout"
    clear_start_limit
    order true start cfg.bridge_unit

  unfoldable pub reset_bluetooth : Step (Unit {0})
  reset_bluetooth = do order false stop cfg.bridge_unit; reset_when_stopped

  -- `fail`
  unfoldable pub fail : String → State → Machine W → State × Machine W
  fail reason s m = (latch reason s, save env cfg (latch reason s) m)

  -- The `finally` clause: the best-effort start.
  abbrev pub start_again : Bool → Machine W → Machine W
  start_again true m = (action env cfg start cfg.bridge_unit m).1
  start_again false m = m

  -- What follows the `try` block.
  unfoldable pub verify : Option String → State → Machine W → Bool × State × Machine W
  verify previous s m =
      let (held, m1) = wait_until env cfg (recovered env cfg previous) cfg.verify_seconds m in
      let good : State = record s {
        ble_failures = [];
        startup_failure_streak = 0;
        last_result = "recovered";
      } in
      let bad : State = record s { last_result = "verify_failed" } in
      let (worse, m2) = fail "verify_failed_budget_exhausted" bad m1 in
      if held
      then (true, good, save env cfg good m1)
      else if leb cfg.max_resets_long
          (length (recent s.resets (env.clock m1.world) cfg.long_window))
      then (false, worse, m2)
      else (false, bad, save env cfg bad m1)

  abbrev pub instance_of : Option RecordView → Option String
  instance_of none = none
  instance_of (some r) = some r.instance_id

  -- After the `try` block: `except` and `finally`, or the verification.
  abbrev pub recover_end :
      Attempt (Unit {0}) → Option String → State → Machine W → Bool × State × Machine W
  recover_end (went_on _) previous s m = verify previous s m
  recover_end (gave_up reason stopped) previous s m =
      let (s', m') = fail reason s m in (false, s', start_again stopped m')

  unfoldable pub recover : State → Option RecordView → Machine W → Bool × State × Machine W
  recover s previous m =
      let charged = charge (env.clock m.world) s in
      let (r, m1) = reset_bluetooth (save env cfg charged m) in
      recover_end r (instance_of previous) charged m1

  -- `reset-failed`, then `start`; the first error ends it.
  abbrev pub try_restart : Machine W → Bool × Machine W
  try_restart m =
      let (o1, m1) = action env cfg reset_failed cfg.bridge_unit m in
      elim o1 [
        | failed e ↦ (false, m1)
        | done ↦
            let (o2, m2) = action env cfg start cfg.bridge_unit m1 in
            elim o2 [ failed e ↦ (false, m2) | done ↦ (true, m2) ]
      ]

  unfoldable pub restart_bridge : State → Machine W → State × Machine W
  restart_bridge s m =
      let counted : State = record s {
        plain_restarts = s.plain_restarts ++ (stamp (env.clock m.world) ∷ []);
        plain_restart_streak = s.plain_restart_streak + 1;
      } in
      let (ok, m') = try_restart m in
      (
        record counted { last_result = if ok then "bridge_restarted" else "bridge_restart_failed" },
        m',
      )

  unfoldable pub stop_terminally : State → Machine W → Machine W
  stop_terminally s m =
      let (o, m1) = action env cfg stop cfg.bridge_unit m in
      elim o [
        | failed e ↦ m1
        | done ↦
            let (held, m2) = wait_until env cfg bridge_stopped cfg.stop_timeout m1 in
            if held then save env cfg (record s { terminal_stop_pending = false }) m2 else m2
      ]

  -- The pass of `run_once` after the decision.
  unfoldable pub act : Decision → State → Option RecordView → Machine W → String × Machine W
  act d s previous m = elim d.action [
    | act_latch ↦ let s' = latch d.reason s in (d.reason, stop_terminally s' (save env cfg s' m))
    | act_restart ↦ let (s', m') = restart_bridge s m in (s'.last_result, save env cfg s' m')
    | act_stop ↦ (d.reason, stop_terminally s (save env cfg s m))
    | act_none ↦ (d.reason, save env cfg s m)
    | act_recover ↦
        let (_, s', m') = recover s previous (save env cfg s m) in
        (s'.last_result, if s'.recovery_failed then stop_terminally s' m' else m')
  ]

  -- `run_once` once it holds the lock and knows the unit.
  unfoldable pub pass : UnitView → Machine W → String × Machine W
  pass unit m =
      let view = env.read_record m.world in
      let (exits, m1) = consume_exits env cfg m in
      let s = observe (load_state m.disk) unit view (env.observe_clock m1.world) cfg exits in
      act (decide s unit view (env.decide_clock m1.world) cfg) s (trusted_record view unit) m1

  unfoldable pub run_once : Machine W → String × Machine W
  run_once m =
      let (shown, m1) = show env cfg cfg.bridge_unit m in
      if env.acquire m.world
      then elim shown [
        | none ↦ ("systemd_unavailable", m1)
        | some ps ↦ pass (from_properties ps) m1
      ]
      else ("locked", m)
