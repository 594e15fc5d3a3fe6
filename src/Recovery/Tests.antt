-- ===== src/Recovery/Tests.antt =====
-- The recovery manager's theorems at concrete runs, probe results and stored data.
use casambi_mqtt.Prelude.{
  ℕ, ◌+◌, ◌≤◌, ◌≡◌, refl, true, false, none, some, List, [], ◌∷◌, ◌++◌, arith, length,
}
use casambi_mqtt.Supervisor.State.{ready}
use casambi_mqtt.Health.Protocol.{BridgeStatus}
use casambi_mqtt.Health.Bridge.{HealthSettings, evaluate}
use casambi_mqtt.Health.Probe.{ProbeResult, consumer_probe, consumer_stale}
use casambi_mqtt.Health.Observer.{new_observer, bridge_state}
use casambi_mqtt.Recovery.Manager.{
  Clocks, Hass, RecoveryManager, new_manager, recent_reloads, clear_streak, record_stale,
  request_recovery, within, saved_data, async_load,
}
use casambi_mqtt.Recovery.Task.{
  refused, begin_recovery, charge, end_save, end_reload, latch, end_recovery, acknowledge,
}
use casambi_mqtt.Recovery.Events.{
  Event, requested, begun, save_ended, reload_ended, acknowledged, step, run, charges, end_time,
}
use casambi_mqtt.Recovery.Coordinator.{
  HealthCoordinator, new_coordinator, compute, update_unsupported_issue, async_update, take_proof,
  on_consumer_stale, on_probe_result,
}
use casambi_mqtt.Recovery.Budget.{run_budget}
use casambi_mqtt.Recovery.Started.{Evidence, on_probe_result-Evidence}
use casambi_mqtt.Recovery.Store.{with_data, async_load-saved_data}

abbrev settings : HealthSettings
settings = record {
  stale_seconds = 120;
  startup_grace_seconds = 90;
  probe_interval_seconds = 300;
  consumer_probe_interval_seconds = 900;
  probe_deadline_seconds = 20;
  recovery_cooldown_seconds = 600;
  stale_confirm_seconds = 90;
  recovery_verify_seconds = 180;
  recovery_enabled = true;
}

abbrev hass : Hass
hass = record {
  store = none;
  issue = false;
  reload_calls = 0;
  probe_requests = 0;
  announcements = 0;
}

abbrev at : ℕ → Clocks
at n = record { wall = n; monotonic = n; utc = "2026-01-01T00:00:00+00:00" }

-- One recovery whose reload is refused, and two more requests after an acknowledgement.
abbrev events : List (Clocks × Event)
events =
    (at 10000, requested)
    ∷ (at 10001, begun)
    ∷ (at 10002, save_ended true ("light.a" ∷ []))
    ∷ (at 10003, requested)
    ∷ (at 10010, reload_ended refused)
    ∷ (at 10020, save_ended true [])
    ∷ (at 10030, acknowledged)
    ∷ (at 700000, requested)
    ∷ (at 700001, begun)
    ∷ []

charges-events : charges settings events (new_manager hass) ≡ 10001 ∷ 700001 ∷ []
unfolding charges step request_recovery recent_reloads begin_recovery charge clear_streak end_save
    end_reload latch end_recovery acknowledge
charges-events = refl

run_budget_example :
    (length (within (end_time 0 events) ([] ++ charges settings events (new_manager hass))) ≤ 2)
    × ((run settings events (new_manager hass)).hass.reload_calls
        ≤ 0 + length (charges settings events (new_manager hass)))
run_budget_example = run_budget settings events 0 (new_manager hass) (omega arith) refl (
  omega arith,
  (
    omega arith,
    (
      omega arith,
      (omega arith, (omega arith, (omega arith, (omega arith, (omega arith, (omega arith, tt)))))),
    ),
  ),
)

abbrev status : BridgeStatus
status = record {
  instance_id = "0123456789abcdef0123456789abcdef";
  sequence = some 4;
  phase = ready;
  ble = "connected";
  mqtt = "connected";
  uptime_s = some 60;
  snapshot = record { generation = 1; units = 1; scenes = 0; failed = 0; age_s = none };
  error = "none";
  time = none;
}

-- A ready bridge, and a first proof of the fault 100 seconds ago.
abbrev coordinator : HealthCoordinator
coordinator =
    let o = new_observer settings "casambi/" 0 in
    let m = new_manager hass in
    new_coordinator
      (record o {
        bridge = record o.bridge {
          status = some status;
          received_at = some 190000;
          max_sequence = some 4;
        };
      })
      (record m { stale_streak = 1; last_stale_at = some 100000 }) settings false

abbrev proof_result : ProbeResult
proof_result = record {
  kind = consumer_probe;
  outcome = consumer_stale;
  finished_at = 200000;
  expected_units = some 1;
  raw_units = 1;
  processed_units = 0;
}

on_probe_result-starts :
    (on_probe_result (at 200000) proof_result coordinator).manager.in_progress ≡ true
unfolding on_probe_result async_update update_unsupported_issue on_consumer_stale take_proof
    record_stale request_recovery recent_reloads clear_streak bridge_state evaluate compute
on_probe_result-starts = refl

on_probe_result-Evidence_example : Evidence (at 200000) proof_result coordinator
on_probe_result-Evidence_example =
    on_probe_result-Evidence (at 200000) proof_result coordinator refl on_probe_result-starts

abbrev latched : RecoveryManager
latched = record (new_manager hass) {
  reloads = 1000 ∷ 2000 ∷ [];
  failed = true;
  reason = "verify_failed";
  last_result = "recovery_failed";
}

async_load-saved_data_example :
    async_load (some (saved_data latched)) (new_manager hass)
    ≡ with_data hass true (1000 ∷ 2000 ∷ []) "verify_failed" "recovery_failed" none
async_load-saved_data_example =
    async_load-saved_data latched hass
      (record { reason = omega arith; last_result = omega arith; last_recovery = tt })
