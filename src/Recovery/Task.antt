-- ===== src/Recovery/Task.antt =====
-- recovery.py: RecoveryManager's coroutines. The event loop changes over only where one of them awaits;
-- each piece between two awaits is a step. A save writes the data that its call took, when it ends.
use Prim.Native.String.{String}
use text.Mathlib.Text.{◌==◌ as str_eq}
use casambi_mqtt.Prelude.{
  ℕ, zero, suc, max, ◌+◌, Bool, true, false, not, ◌&&◌, Option, none, some, List, [], ◌∷◌, ◌++◌,
  length, ltb, leb, all, if◌then◌else◌,
}
use casambi_mqtt.Json.{Value}
use casambi_mqtt.Supervisor.Clock.{seconds}
use casambi_mqtt.Health.Bridge.{HealthSettings}
use casambi_mqtt.Health.Observer.{HealthObserver, bridge_state, is_healthy}
use casambi_mqtt.Recovery.Manager.{
  max_reloads_per_window, Clocks, no_task, created, charging, reloading, verifying, succeeding,
  unverified, latching, RecoveryManager, saved_data, recent_reloads, clear_streak,
}

abbrev pub verify_poll_seconds : ℕ
verify_poll_seconds = 5

abbrev pub verify_probe_spacing_seconds : ℕ
verify_probe_spacing_seconds = 30

-- What `_async_latch` does before its save.
unfoldable pub latch : String → RecoveryManager → RecoveryManager
latch reason m = record m { failed = true; reason = reason; last_result = "recovery_failed" }

-- `_async_latch(reason)`, called by `_async_recover`
abbrev pub latch_task : Bool → String → RecoveryManager → RecoveryManager
latch_task handler reason m =
    let latched = latch reason m in record latched { task = latching handler (saved_data latched) }

-- The `except` clause.
abbrev pub recover_error : RecoveryManager → RecoveryManager
recover_error m = latch_task true "reload_error" m

-- The `finally` clause.
unfoldable pub end_recovery : RecoveryManager → RecoveryManager
end_recovery m = record m { in_progress = false; task = no_task }

abbrev pub put_store : Value → RecoveryManager → RecoveryManager
put_store v m = record m { hass = record m.hass { store = some v } }

abbrev pub create_failed_issue : RecoveryManager → RecoveryManager
create_failed_issue m = record m { hass = record m.hass { issue = true } }

abbrev pub delete_issue : RecoveryManager → RecoveryManager
delete_issue m = record m { hass = record m.hass { issue = false } }

abbrev pub announce_recovery : RecoveryManager → RecoveryManager
announce_recovery m = record m { hass = record m.hass { announcements = suc m.hass.announcements } }

-- The task begins: the budget is charged before anything is done.
unfoldable pub charge : ℕ → RecoveryManager → RecoveryManager
charge now m =
    let charged = clear_streak (record m { reloads = recent_reloads now m ++ (now ∷ []) }) in
    record charged { task = charging (saved_data charged) }

unfoldable pub begin_recovery : ℕ → RecoveryManager → RecoveryManager
begin_recovery now m = elim m.task [ created ↦ charge now m | _ ↦ m ]

-- The reload is asked for, with the entry's light entities as the targets.
abbrev pub ask_reload : List String → RecoveryManager → RecoveryManager
ask_reload targets m = record m {
  task = reloading targets;
  hass = record m.hass { reload_calls = suc m.hass.reload_calls };
}

-- A save of `_async_recover` ends, and has stored its data or raised.
unfoldable pub end_save : Bool → List String → RecoveryManager → RecoveryManager
end_save stored targets m = elim m.task [
  | charging v ↦ if stored then ask_reload targets (put_store v m) else recover_error m
  | succeeding v ↦
      if stored then end_recovery (announce_recovery (put_store v m)) else recover_error m
  | unverified v ↦ if stored then end_recovery (put_store v m) else recover_error m
  | latching handler v ↦
      if stored
      then end_recovery (create_failed_issue (put_store v m))
      else if handler
      then end_recovery m
      else recover_error m
  | _ ↦ m
]

-- How `async_reload` ends.
pub data Reload : Type 0 where
  reloaded refused raised : Reload

-- `_async_verify` begins: how long it may take.
abbrev pub verify_seconds : HealthSettings → ℕ
verify_seconds s =
    max s.recovery_verify_seconds (s.startup_grace_seconds + s.probe_deadline_seconds + 60)

unfoldable pub end_reload : HealthSettings → Reload → ℕ → RecoveryManager → RecoveryManager
end_reload settings result now m = elim m.task [
  | reloading targets ↦ elim result [
    | reloaded ↦ record m {
      task = verifying targets (now + seconds (verify_seconds settings)) none;
    }
    | refused ↦ latch_task false "reload_failed" m
    | raised ↦ recover_error m
  ]
  | _ ↦ m
]

-- What a poll sees: the observer of the entry's coordinator and whether its subscriptions are ready, if
-- the entry is loaded, and the states of the entities.
pub record Poll : Type 0 where
  pub coordinator : Option (HealthObserver × Bool)
  pub states : String → Option String

abbrev pub is_available : Option String → Bool
is_available none = false
is_available (some state) = not (str_eq state "unavailable")

unfoldable pub targets_available : (String → Option String) → List String → Bool
targets_available states targets = all (λ entity_id. is_available (states entity_id)) targets

-- Has a consumer probe of the reloaded entry succeeded, and is every target there again?
unfoldable pub is_verified : List String → Poll → Bool
is_verified targets p = elim p.coordinator [
  | none ↦ false
  | some (o, consumer_ready) ↦ elim o.last_ok.of_consumer [
    | none ↦ false
    | some t ↦ targets_available p.states targets
  ]
]

-- Is it time for a probe of the consumer?
unfoldable pub wants_probe : Option ℕ → ℕ → Poll → Bool
wants_probe last_probe_at now p = elim p.coordinator [
  | none ↦ false
  | some (o, consumer_ready) ↦ elim o.probes.pending [
    | some probe ↦ false
    | none ↦ is_healthy (bridge_state o now) && consumer_ready && elim last_probe_at [
      | none ↦ true
      | some t ↦ leb (t + seconds verify_probe_spacing_seconds) now
    ]
  ]
]

abbrev pub request_probe : RecoveryManager → RecoveryManager
request_probe m = record m { hass = record m.hass { probe_requests = suc m.hass.probe_requests } }

-- `_async_succeeded`, before its save
abbrev pub succeed : String → RecoveryManager → RecoveryManager
succeed utc m =
    let done = record (clear_streak m) { last_result = "recovered"; last_recovery = some utc } in
    record done { task = succeeding (saved_data done) }

-- What follows an `_async_verify` that returns false.
abbrev pub give_up : ℕ → RecoveryManager → RecoveryManager
give_up now m =
    let failing : RecoveryManager = record m { last_result = "verify_failed" } in
    if leb max_reloads_per_window (length (recent_reloads now failing))
    then latch_task false "verify_failed" failing
    else record failing { task = unverified (saved_data failing) }

-- One pass of the loop of `_async_verify`.
unfoldable pub poll : Poll → Clocks → RecoveryManager → RecoveryManager
poll p c m = elim m.task [
  | verifying targets deadline last_probe_at ↦
      if not (ltb c.monotonic deadline)
      then give_up c.wall m
      else if is_verified targets p
      then succeed c.utc m
      else if wants_probe last_probe_at c.monotonic p
      then record (request_probe m) { task = verifying targets deadline (some c.monotonic) }
      else m
  | _ ↦ m
]

-- A task of request_recovery's begins `_async_latch("budget_exhausted")`.
unfoldable pub begin_latch : RecoveryManager → RecoveryManager
begin_latch m = elim m.latches [
  | zero ↦ m
  | suc n ↦
      let latched = latch "budget_exhausted" m in
      record latched { latches = n; latch_saves = m.latch_saves ++ (saved_data latched ∷ []) }
]

unfoldable pub end_latch : Bool → RecoveryManager → RecoveryManager
end_latch stored m = elim m.latch_saves [
  | [] ↦ m
  | v ∷ rest ↦
      let left : RecoveryManager = record m { latch_saves = rest } in
      if stored then create_failed_issue (put_store v left) else left
]

-- `async_mark_healthy` and `async_acknowledge`, before their saves
unfoldable pub mark_healthy : String → RecoveryManager → RecoveryManager
mark_healthy utc m =
    let cleared = clear_streak m in
    let healthy : RecoveryManager = record cleared {
      failed = false;
      reason = "none";
      last_result = "recovered";
      last_recovery = some utc;
    } in
    if cleared.failed
    then record healthy { healings = cleared.healings ++ (saved_data healthy ∷ []) }
    else cleared

-- A task of the coordinator's begins `async_mark_healthy`.
unfoldable pub begin_mark : String → RecoveryManager → RecoveryManager
begin_mark utc m = elim m.marks [ zero ↦ m | suc n ↦ mark_healthy utc (record m { marks = n }) ]

unfoldable pub acknowledge : RecoveryManager → RecoveryManager
acknowledge m =
    let done =
      clear_streak (record m { failed = false; reason = "none"; last_result = "acknowledged" }) in
    record done { acknowledgements = m.acknowledgements ++ (saved_data done ∷ []) }

unfoldable pub end_mark_healthy : Bool → RecoveryManager → RecoveryManager
end_mark_healthy stored m = elim m.healings [
  | [] ↦ m
  | v ∷ rest ↦
      let left : RecoveryManager = record m { healings = rest } in
      if stored then announce_recovery (delete_issue (put_store v left)) else left
]

unfoldable pub end_acknowledge : Bool → RecoveryManager → RecoveryManager
end_acknowledge stored m = elim m.acknowledgements [
  | [] ↦ m
  | v ∷ rest ↦
      let left : RecoveryManager = record m { acknowledgements = rest } in
      if stored then delete_issue (put_store v left) else left
]
