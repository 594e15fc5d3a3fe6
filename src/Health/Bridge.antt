-- ===== src/Health/Bridge.antt =====
-- custom_components/casambi_mqtt/health.py: HealthSettings and BridgeStatusTracker. Times are in
-- milliseconds, settings in seconds; `now - t < w` is written `now < t + w`.
use Prim.Native.String.{String}
use text.Mathlib.Text.{◌==◌ as str_eq}
use casambi_mqtt.Prelude.{
  ℕ, suc, ◌+◌, Bool, true, false, not, ◌&&◌, Option, none, some, List, [], ◌∷◌, ◌++◌, any, ltb, leb,
  ◌==◌, if◌then◌else◌,
}
use casambi_mqtt.Prelude.Int.{pos}
use casambi_mqtt.Json.{Value, int, bool, Fields, get_or, as_count}
use casambi_mqtt.Supervisor.Clock.{seconds}
use casambi_mqtt.Supervisor.State.{Phase, ready, degraded, offline}
use casambi_mqtt.Supervisor.Decide.{last}
use casambi_mqtt.Health.Protocol.{protocol_version, BridgeStatus}
use casambi_mqtt.Health.Wire.{parse_status, protocol_version_of}

pub record HealthSettings : Type 0 where
  pub stale_seconds : ℕ
  pub startup_grace_seconds : ℕ
  pub probe_interval_seconds : ℕ
  pub consumer_probe_interval_seconds : ℕ
  pub probe_deadline_seconds : ℕ
  pub recovery_cooldown_seconds : ℕ
  pub stale_confirm_seconds : ℕ
  pub recovery_verify_seconds : ℕ
  pub recovery_enabled : Bool

-- An option, if it is an integer of its range, or else the default.
unfoldable pub setting : Fields → String → (default minimum maximum : ℕ) → ℕ
setting options key default minimum maximum =
    elim (as_count (get_or key (int (pos default)) options)) [
      | none ↦ default
      | some n ↦ if leb minimum n && leb n maximum then n else default
    ]

abbrev pub bool_or : Bool → Value → Bool
bool_or default (Value.bool b) = b
bool_or default _ = default

-- SETTING_RANGES and `HealthSettings.from_options`
unfoldable pub from_options : Fields → HealthSettings
from_options options = record {
  stale_seconds = setting options "health_stale_seconds" 120 60 3600;
  startup_grace_seconds = setting options "health_startup_grace_seconds" 90 30 1800;
  probe_interval_seconds = setting options "health_probe_interval_seconds" 300 300 86400;
  consumer_probe_interval_seconds =
      setting options "health_consumer_probe_interval_seconds" 900 300 86400;
  probe_deadline_seconds = setting options "health_probe_deadline_seconds" 20 5 120;
  recovery_cooldown_seconds = setting options "health_recovery_cooldown_seconds" 600 600 86400;
  stale_confirm_seconds = setting options "health_stale_confirm_seconds" 90 90 3600;
  recovery_verify_seconds = setting options "health_recovery_verify_seconds" 180 60 900;
  recovery_enabled = bool_or true (get_or "health_recovery_enabled" (bool true) options);
}

pub data BridgeState : Type 0 where
  just_starting healthy impaired unavailable unknown unsupported : BridgeState

abbrev pub retired_instance_memory : ℕ
retired_instance_memory = 8

pub record BridgeStatusTracker : Type 0 where
  pub settings : HealthSettings
  pub started_at : ℕ
  pub status : Option BridgeStatus
  pub received_at : Option ℕ
  pub retained : Option BridgeStatus
  pub unsupported_version : Bool
  pub ignored : ℕ
  pub retired : List String
  pub max_sequence : Option ℕ

-- `BridgeStatusTracker(settings, started_at)`
abbrev pub new_tracker : HealthSettings → ℕ → BridgeStatusTracker
new_tracker settings started_at = record {
  settings = settings;
  started_at = started_at;
  status = none;
  received_at = none;
  retained = none;
  unsupported_version = false;
  ignored = 0;
  retired = [];
  max_sequence = none;
}

abbrev pub is_retired : String → List String → Bool
is_retired i retired = any (λ r. str_eq r i) retired

-- Is the status one of the current instance?
abbrev pub is_current : BridgeStatus → Option BridgeStatus → Bool
is_current s none = false
is_current s (some current) = str_eq s.instance_id current.instance_id

-- `status.sequence <= self._max_sequence`, where both are known
abbrev pub is_old : Option ℕ → Option ℕ → Bool
is_old (some n) (some m) = leb n m
is_old _ _ = false

abbrev pub newer : Option ℕ → Option ℕ → Option ℕ
newer none m = m
newer (some n) m = some n

-- `self._retired.append(…)`, `del self._retired[:-RETIRED_INSTANCE_MEMORY]`
abbrev pub retire : Option BridgeStatus → List String → List String
retire none retired = retired
retire (some current) retired = last retired_instance_memory (retired ++ (current.instance_id ∷ []))

abbrev pub ignore : BridgeStatusTracker → BridgeStatusTracker
ignore t = record t { ignored = suc t.ignored }

-- The status is taken as the bridge's own, now.
unfoldable pub accept : BridgeStatus → ℕ → BridgeStatusTracker → BridgeStatusTracker
accept s now t =
    let same = is_current s t.status in
    record t {
      status = some s;
      received_at = some now;
      retired = if same then t.retired else retire t.status t.retired;
      max_sequence = newer s.sequence (if same then t.max_sequence else none);
    }

-- `on_message` behind the parsing: retained, retired, old, or accepted.
unfoldable pub on_live : BridgeStatus → ℕ → BridgeStatusTracker → Bool × BridgeStatusTracker
on_live s now t =
    if is_retired s.instance_id t.retired
    then (false, ignore t)
    else if is_current s t.status && is_old s.sequence t.max_sequence
    then (false, ignore t)
    else (true, accept s now t)

abbrev pub is_foreign : Option ℕ → Bool
is_foreign none = false
is_foreign (some version) = not (version == protocol_version)

unfoldable pub on_message :
    Option Value → Bool → ℕ → BridgeStatusTracker → Bool × BridgeStatusTracker
on_message payload retain now t =
    if is_foreign (protocol_version_of payload)
    then (false, record t { unsupported_version = true })
    else elim (parse_status payload) [
      | none ↦ (false, ignore t)
      | some s ↦ if retain then (false, record t { retained = some s }) else on_live s now t
    ]

-- What a phase says of a fresh bridge.
abbrev pub phase_state : Phase → BridgeState
phase_state ready = healthy
phase_state degraded = impaired
phase_state offline = unavailable
phase_state _ = just_starting

abbrev pub unanswered : BridgeStatusTracker → ℕ → BridgeState
unanswered t now =
    if ltb now (t.started_at + seconds t.settings.startup_grace_seconds)
    then just_starting
    else if t.unsupported_version
    then unsupported
    else unknown

unfoldable pub evaluate : BridgeStatusTracker → ℕ → BridgeState
evaluate t now = elim t.status [
  | none ↦ unanswered t now
  | some s ↦ elim t.received_at [
    | none ↦ unanswered t now
    | some received ↦
        if ltb (received + seconds t.settings.stale_seconds) now
        then unavailable
        else phase_state s.phase
  ]
]
