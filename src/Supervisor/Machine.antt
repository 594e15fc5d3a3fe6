-- ===== src/Supervisor/Machine.antt =====
-- scripts/bridge_recovery.py: Systemctl, the exit log's consumption, save_state and _wait_until, over
-- an explicit world. Everything outside the process is a parameter: systemd behind `subprocess.run`,
-- the clocks, the record file, the exit log that the stop hook writes, the lock.
use Prim.Native.Char.{code}
use Prim.Native.String.{String}
use text.Mathlib.Text.{◌==◌ as str_eq}
use casambi_mqtt.Prelude.{
  ℕ, zero, suc, ◌+◌, ◌-◌, ◌*◌, ◌/◌, Bool, true, false, not, ◌&&◌, ◌||◌, Option, none, some, List,
  [], ◌∷◌, any, leb, ◌==◌, if◌then◌else◌,
}
use casambi_mqtt.Prelude.Text.{is_digit}
use casambi_mqtt.Supervisor.Clock.{Clock, seconds}
use casambi_mqtt.Supervisor.State.{
  Settings, RecordView, UnitView, State, ExitEntry, trusted_record, ready_record,
}
use casambi_mqtt.Supervisor.Store.{StateFile, save_state}

-- Systemctl.VERBS
pub data Verb : Type 0 where
  stop start restart reset_failed : Verb

abbrev pub verb_name : Verb → String
verb_name stop = "stop"
verb_name start = "start"
verb_name restart = "restart"
verb_name reset_failed = "reset-failed"

abbrev pub bluetooth_unit : String
bluetooth_unit = "bluetooth.service"

-- `key=value` lines, split at the first `=` and stripped
abbrev pub Properties : Type 0
Properties = List (String × String)

-- What `systemctl` left: its exit status (0 or not) and the lines of its output.
pub record Completed : Type 0 where
  pub returncode : ℕ
  pub stdout : Properties

-- `clock` is what a reading says; `observe` and `decide`, which run before, have a reading each.
pub record Env (W : Type 0) : Type 0 where
  pub clock : W → Clock
  pub observe_clock : W → Clock
  pub decide_clock : W → Clock
  pub sleep : ℕ → W → W
  -- `none` where subprocess.run raises OSError or TimeoutExpired; the time-out is in milliseconds
  pub systemctl : List String → ℕ → W → Option Completed × W
  pub read_record : W → Option RecordView
  pub exits : W → List ExitEntry
  pub clear_exits : W → W
  pub acquire : W → Bool

-- What a run has done to the outside, for the statements about it.
pub data Effect : Type 0 where
  command : Verb → String → Effect
  saved : State → Effect

-- The world, the state file, and the effects so far, the newest first.
pub record Machine (W : Type 0) : Type 0 where
  pub world : W
  pub disk : StateFile
  pub trace : List Effect

-- How a call of `Systemctl.action` ends: `failed` carries the ServiceManagerError's argument.
pub data Outcome : Type 0 where
  done : Outcome
  failed : String → Outcome

abbrev pub get : String → Properties → Option String
get key [] = none
get key ((k, v) ∷ ps) = if str_eq k key then some v else get key ps

-- `properties[key] = value`
abbrev pub put : String → String → Properties → Properties
put key v [] = (key, v) ∷ []
put key v ((k, w) ∷ ps) = if str_eq k key then (k, v) ∷ ps else (k, w) ∷ put key v ps

abbrev pub unit_properties : List String
unit_properties = "ActiveState" ∷ "SubState" ∷ "MainPID" ∷ "Result" ∷ "ExecMainStatus" ∷ []

-- The loop over the lines of `systemctl show`: the last line of a property counts.
unfoldable pub read_properties : Properties → Properties → Properties
read_properties [] properties = properties
read_properties ((k, v) ∷ lines) properties =
    read_properties lines
      (if any (λ p. str_eq k p) unit_properties then put k v properties else properties)

-- `int(text)` of an unsigned decimal; a sign, spaces and underscores are read as no number here, and
-- systemd prints none of them for these two properties.
abbrev pub decimal_from : ℕ → String → Option ℕ
decimal_from n String.[] = some n
decimal_from n (String.◌∷◌ c s) =
    if is_digit (code c) then decimal_from (n * 10 + (code c - 48)) s else none

abbrev pub to_int : Option String → Option ℕ
to_int none = none
to_int (some String.[]) = none
to_int (some s) = decimal_from 0 s

abbrev pub value_or {ℓ} : {A : Type ℓ} → A → Option A → A
value_or a none = a
value_or a (some b) = b

-- `UnitView.from_properties`
unfoldable pub from_properties : Properties → UnitView
from_properties ps = record {
  active_state = value_or "unknown" (get "ActiveState" ps);
  main_pid = value_or 0 (to_int (get "MainPID" ps));
  result = value_or "unknown" (get "Result" ps);
  exec_main_status = to_int (get "ExecMainStatus" ps);
}

abbrev pub text_is : Option String → String → Bool
text_is none s = false
text_is (some t) s = str_eq t s

-- `self.allowed_units`, as `main` builds it
abbrev pub allowed : Settings → String → Bool
allowed cfg unit = str_eq unit cfg.bridge_unit || str_eq unit bluetooth_unit

module _ {W : Type 0} (env : Env W) (cfg : Settings) where
  -- `Systemctl.action`, with the stop timeout that every caller passes
  unfoldable pub action : Verb → String → Machine W → Outcome × Machine W
  action verb unit m =
      let (result, w) =
        env.systemctl (verb_name verb ∷ unit ∷ []) (seconds cfg.stop_timeout) m.world in
      let m' : Machine W = record m { world = w; trace = command verb unit ∷ m.trace } in
      if allowed cfg unit
      then elim result [
        | none ↦ (failed (verb_name verb), m')
        | some c ↦ (if c.returncode == 0 then done else failed (verb_name verb), m')
      ]
      else (failed "unit is not allowlisted", m)

  -- `Systemctl.show`; `none` is a ServiceManagerError
  unfoldable pub show : String → Machine W → Option Properties × Machine W
  show unit m =
      let (result, w) = env.systemctl ("show" ∷ unit ∷ []) (seconds 15) m.world in
      let m' : Machine W = record m { world = w } in
      if allowed cfg unit
      then elim result [
        | none ↦ (none, m')
        | some c ↦ (if c.returncode == 0 then some (read_properties c.stdout []) else none, m')
      ]
      else (none, m)

  -- `save_state`, and the `persist` of `recover`
  unfoldable pub save : State → Machine W → Machine W
  save s m = record m { disk = save_state s; trace = saved s ∷ m.trace }

  -- `consume_exits`: the log is written again only if it held something.
  unfoldable pub consume_exits : Machine W → List ExitEntry × Machine W
  consume_exits m =
      let entries = env.exits m.world in
      (entries, elim entries [ [] ↦ m | e ∷ es ↦ record m { world = env.clear_exits m.world } ])

  -- A predicate of `_wait_until`: `none` where it raises a ServiceManagerError.
  abbrev pub Poll : Type 0
  Poll = Machine W → Option Bool × Machine W

  abbrev pub nap : Machine W → Machine W
  nap m = record m { world = env.sleep cfg.poll_interval m.world }

  -- The loop of `_wait_until`, on fuel.
  unfoldable pub wait_loop : ℕ → ℕ → Poll → Machine W → Bool × Machine W
  wait_loop zero deadline predicate m = (false, m)
  wait_loop (suc fuel) deadline predicate m =
      let (held, m') = predicate m in
      elim held [
        | some true ↦ (true, m')
        | _ ↦ elim (leb deadline (env.clock m'.world).monotonic) [
          | true ↦ (false, m')
          | false ↦ wait_loop fuel deadline predicate (nap m')
        ]
      ]

  -- Each round but the last sleeps for the poll interval.
  abbrev pub rounds : ℕ → ℕ
  rounds timeout = seconds timeout / cfg.poll_interval + 2

  unfoldable pub wait_until : Poll → ℕ → Machine W → Bool × Machine W
  wait_until predicate timeout m =
      wait_loop (rounds timeout) ((env.clock m.world).monotonic + seconds timeout) predicate m

  -- `_fully_stopped`
  abbrev pub is_stopped : Properties → Bool
  is_stopped ps =
      text_is (get "MainPID" ps) "0"
      && (text_is (get "ActiveState" ps) "inactive" || text_is (get "ActiveState" ps) "failed")

  abbrev pub polled : (Properties → Bool) → Option Properties → Option Bool
  polled p none = none
  polled p (some ps) = some (p ps)

  -- A predicate that asks systemd about a unit.
  unfoldable pub shows : String → (Properties → Bool) → Poll
  shows unit p m = let (ps, m') = show unit m in (polled p ps, m')

  -- What `recovered` looks for: a new instance's trusted record that shows ready.
  abbrev pub is_new_ready : Option String → Option RecordView → Bool
  is_new_ready previous none = false
  is_new_ready previous (some r) = ready_record (some r) && not (text_is previous r.instance_id)

  unfoldable pub recovered : Option String → Poll
  recovered previous m =
      let (ps, m') = show cfg.bridge_unit m in
      (
        polled
            (λ ps.
              is_new_ready previous
                (trusted_record (env.read_record m'.world) (from_properties ps)))
            ps,
        m',
      )
