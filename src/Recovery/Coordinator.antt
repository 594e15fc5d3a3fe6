-- ===== src/Recovery/Coordinator.antt =====
-- recovery.py: ConsumerState and HealthCoordinator, which turns the observer's evidence into one state
-- and asks the manager for a recovery. The clocks are read once a call; the listeners are left out.
use Prim.Native.String.{String}
use text.Mathlib.Text.{◌==◌ as str_eq}
use casambi_mqtt.Prelude.{
  ℕ, suc, ◌+◌, ◌*◌, Bool, true, false, not, ◌||◌, Option, none, some, ltb, if◌then◌else◌,
}
use casambi_mqtt.Supervisor.Clock.{seconds}
use casambi_mqtt.Health.Bridge.{
  HealthSettings, just_starting, healthy, impaired, unavailable, unknown, unsupported,
}
use casambi_mqtt.Health.Probe.{
  status_probe, consumer_probe, ProbeOutcome, passed, no_reply, bridge_failed, bridge_busy,
  delivery_incomplete, consumer_partial, consumer_stale, no_units, superseded, ProbeResult,
}
use casambi_mqtt.Health.Observer.{HealthObserver, bridge_state, is_healthy, schedule}
use casambi_mqtt.Recovery.Manager.{
  Clocks, RecoveryManager, clear_streak, record_stale, request_recovery,
}

pub data ConsumerState : Type 0 where
  starting working bridge_unavailable stale recovering recovery_failed bridge_unsupported degraded :
      ConsumerState

-- `unsupported_issue` is none until the first update; `has_unsupported_issue` is Home Assistant's.
pub record HealthCoordinator : Type 0 where
  pub observer : HealthObserver
  pub manager : RecoveryManager
  pub settings : HealthSettings
  pub last_consumer_ok : Option String
  pub state : ConsumerState
  pub reason : String
  pub unsupported_issue : Option Bool
  pub has_unsupported_issue : Bool
  pub last_consumer : Option ProbeResult

-- `HealthCoordinator(…)`
abbrev pub new_coordinator :
    HealthObserver → RecoveryManager → HealthSettings → Bool → HealthCoordinator
new_coordinator observer manager settings issue = record {
  observer = observer;
  manager = manager;
  settings = settings;
  last_consumer_ok = none;
  state = starting;
  reason = "startup";
  unsupported_issue = none;
  has_unsupported_issue = issue;
  last_consumer = none;
}

-- `ProbeOutcome.value`
abbrev pub outcome_text : ProbeOutcome → String
outcome_text passed = "ok"
outcome_text no_reply = "no_reply"
outcome_text bridge_failed = "bridge_failed"
outcome_text bridge_busy = "bridge_busy"
outcome_text delivery_incomplete = "delivery_incomplete"
outcome_text consumer_partial = "consumer_partial"
outcome_text consumer_stale = "consumer_stale"
outcome_text no_units = "no_units"
outcome_text superseded = "superseded"

-- The error of the last status, or else the state's own text.
abbrev pub bridge_reason : String → HealthObserver → String
bridge_reason text o = elim o.bridge.status [
  | none ↦ text
  | some s ↦ if str_eq s.error "none" then text else s.error
]

-- What the last probe of the consumer says.
abbrev pub verdict : Option ProbeResult → ConsumerState × String
verdict none = (starting, "waiting_for_consumer_probe")
verdict (some r) = elim r.outcome [
  | passed ↦ (working, outcome_text r.outcome)
  | consumer_stale ↦ (stale, outcome_text r.outcome)
  | no_reply ↦ (bridge_unavailable, outcome_text r.outcome)
  | bridge_failed ↦ (bridge_unavailable, outcome_text r.outcome)
  | delivery_incomplete ↦ (bridge_unavailable, outcome_text r.outcome)
  | _ ↦ (degraded, outcome_text r.outcome)
]

unfoldable pub compute : ℕ → HealthCoordinator → ConsumerState × String
compute now c =
    if c.manager.in_progress
    then (recovering, "reloading_entry")
    else if c.manager.failed
    then (recovery_failed, c.manager.reason)
    else elim (bridge_state c.observer now) [
      | just_starting ↦ (starting, "startup")
      | unsupported ↦ (bridge_unsupported, "bridge_without_health_protocol")
      | unknown ↦ (starting, "waiting_for_bridge_status")
      | unavailable ↦ (bridge_unavailable, bridge_reason "unavailable" c.observer)
      | impaired ↦ (bridge_unavailable, bridge_reason "degraded" c.observer)
      | healthy ↦ verdict c.last_consumer
    ]

abbrev pub is_unsupported : ConsumerState → Bool
is_unsupported bridge_unsupported = true
is_unsupported _ = false

abbrev pub same_flag : Bool → Option Bool → Bool
same_flag b none = false
same_flag b (some b') = if b then b' else not b'

-- The issue is created or deleted when what it tells has changed.
unfoldable pub update_unsupported_issue : ConsumerState → HealthCoordinator → HealthCoordinator
update_unsupported_issue state c =
    let unsupported = is_unsupported state in
    if same_flag unsupported c.unsupported_issue
    then c
    else record c { unsupported_issue = some unsupported; has_unsupported_issue = unsupported }

unfoldable pub async_update : ℕ → HealthCoordinator → HealthCoordinator
async_update now c =
    let (state, reason) = compute now c in
    record (update_unsupported_issue state c) { state = state; reason = reason }

-- The greatest time between two proofs of the same fault.
abbrev pub max_gap : HealthSettings → ℕ
max_gap s =
    3 * s.stale_confirm_seconds + s.probe_deadline_seconds + s.consumer_probe_interval_seconds

-- The first proof is checked again, the second asks for a recovery.
unfoldable pub take_proof : Clocks → HealthCoordinator → HealthCoordinator
take_proof clocks c =
    let confirm = c.settings.stale_confirm_seconds in
    let (agreed, manager) = record_stale confirm (max_gap c.settings) clocks.monotonic c.manager in
    if agreed
    then record c { manager = (request_recovery c.settings clocks.wall manager).1 }
    else record c {
      manager = manager;
      observer = schedule consumer_probe (seconds confirm) clocks.monotonic c.observer;
    }

unfoldable pub on_consumer_stale : Clocks → HealthCoordinator → HealthCoordinator
on_consumer_stale clocks c =
    if not c.settings.recovery_enabled
    then c
    else if not (is_healthy (bridge_state c.observer clocks.monotonic))
    then record c { manager = clear_streak c.manager }
    else take_proof clocks c

-- A result that says nothing of the consumer keeps the last verdict.
abbrev pub keeps_verdict : ProbeOutcome → Bool
keeps_verdict bridge_busy = true
keeps_verdict superseded = true
keeps_verdict _ = false

-- A success ends a streak and a latch.
abbrev pub on_consumer_ok : String → HealthCoordinator → HealthCoordinator
on_consumer_ok utc c =
    let m = c.manager in
    record c {
      last_consumer_ok = some utc;
      manager = if ltb 0 m.stale_streak || m.failed then record m { marks = suc m.marks } else m;
    }

abbrev pub on_outcome : Clocks → ProbeOutcome → HealthCoordinator → HealthCoordinator
on_outcome clocks passed c = on_consumer_ok clocks.utc c
on_outcome clocks consumer_stale c = on_consumer_stale clocks c
on_outcome clocks bridge_busy c = c
on_outcome clocks _ c = record c { manager = clear_streak c.manager }

unfoldable pub on_probe_result : Clocks → ProbeResult → HealthCoordinator → HealthCoordinator
on_probe_result clocks r c = async_update clocks.monotonic (elim r.kind [
  | status_probe ↦ c
  | consumer_probe ↦
      on_outcome clocks r.outcome
        (record c { last_consumer = if keeps_verdict r.outcome then c.last_consumer else some r })
])
