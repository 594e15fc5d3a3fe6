-- ===== src/Recovery/Frame.antt =====
-- recovery.py: what the steps of a RecoveryManager leave alone. Only `request_recovery` makes a task,
-- only its beginning charges the budget, and only a charged task asks for a reload.
use casambi_mqtt.Prelude.{
  ℕ, zero, suc, ◌||◌, ◌==◌, ltb, leb, not, inl, inr, ◌+◌, ◌≤◌, ◌≡◌, refl, Bool, false, Option, none,
  some, List, [], ◌∷◌, arith, length, by_test, Bool-cases,
}
use Prim.Native.String.{String}
use casambi_mqtt.Json.{Value}
use casambi_mqtt.Supervisor.Clock.{seconds}
use casambi_mqtt.Health.Bridge.{HealthSettings}
use casambi_mqtt.Recovery.Manager.{
  Clocks, Task, no_task, created, charging, reloading, verifying, succeeding, unverified, latching,
  RecoveryManager, clear_streak, record_stale, recent_reloads, max_reloads_per_window, saved_data,
}
use casambi_mqtt.Recovery.Task.{
  Reload, reloaded, refused, raised, Poll, give_up, succeed, latch_task, request_probe, is_verified,
  wants_probe, end_save, end_reload, poll, begin_latch, end_latch, begin_mark, end_mark_healthy,
  acknowledge, end_acknowledge, latch, end_recovery, mark_healthy,
}

-- A task that has still to charge the budget, and one that has charged it and not asked for the reload.
abbrev pub owed : Task → ℕ
owed created = 1
owed _ = 0

abbrev pub paid : Task → ℕ
paid (charging v) = 1
paid _ = 0

pub record Frame (m m' : RecoveryManager) : Type 0 where
  pub reloads : m'.reloads ≡ m.reloads
  pub owes : owed m'.task ≤ owed m.task
  pub calls : m'.hass.reload_calls + paid m'.task ≤ m.hass.reload_calls + paid m.task

module _ {m m' : RecoveryManager} where
  same_task :
      m'.reloads ≡ m.reloads
      → m'.task ≡ m.task
      → m'.hass.reload_calls ≡ m.hass.reload_calls
      → Frame m m'
  same_task r t h = record {
    reloads = r;
    owes = rw t (omega arith);
    calls = rw (t, h) (omega arith);
  }

  -- A task that is neither created nor charging comes next.
  goes_on :
      m'.reloads ≡ m.reloads
      → owed m'.task ≡ 0
      → paid m'.task ≡ 0
      → m'.hass.reload_calls ≡ m.hass.reload_calls
      → Frame m m'
  goes_on r o d h = record { reloads = r; owes = omega arith; calls = omega arith }

record_stale_at :
    (last : Option ℕ) (confirm gap now : ℕ) (m : RecoveryManager)
    → m.last_stale_at ≡ last
    → Frame m (record_stale confirm gap now m).1
unfolding record_stale clear_streak
record_stale_at none confirm gap now m e = rw e (same_task refl refl refl)
record_stale_at (some t) confirm gap now m e =
    rw e (elim (Bool-cases (m.stale_streak == 0 || ltb (t + seconds gap) now)) [
      | inl first ↦ rw first (same_task refl refl refl)
      | inr later ↦ rw later (elim (Bool-cases (ltb now (t + seconds confirm))) [
        | inl soon ↦ rw soon (same_task refl refl refl)
        | inr agreed ↦ rw agreed (same_task refl refl refl)
      ])
    ])

pub record_stale-Frame :
    (confirm gap now : ℕ) (m : RecoveryManager) → Frame m (record_stale confirm gap now m).1
record_stale-Frame confirm gap now m = record_stale_at m.last_stale_at confirm gap now m refl

end_save_at :
    (t : Task) (stored : Bool) (targets : List String) (m : RecoveryManager)
    → m.task ≡ t
    → Frame m (end_save stored targets m)
unfolding end_save end_recovery latch
end_save_at (charging v) stored targets m e = rw e (
    by_test (Frame _) stored _ _
      (record { reloads = refl; owes = omega arith; calls = omega arith })
      (goes_on refl refl refl refl))
end_save_at (succeeding v) stored targets m e =
    rw e (by_test (Frame _) stored _ _ (goes_on refl refl refl refl) (goes_on refl refl refl refl))
end_save_at (unverified v) stored targets m e =
    rw e (by_test (Frame _) stored _ _ (goes_on refl refl refl refl) (goes_on refl refl refl refl))
end_save_at (latching handler v) stored targets m e = rw e (
    by_test (Frame _) stored _ _ (goes_on refl refl refl refl)
      (by_test (Frame _) handler _ _ (goes_on refl refl refl refl) (goes_on refl refl refl refl)))
end_save_at no_task stored targets m e = rw e (same_task refl refl refl)
end_save_at created stored targets m e = rw e (same_task refl refl refl)
end_save_at (reloading ts) stored targets m e = rw e (same_task refl refl refl)
end_save_at (verifying ts d l) stored targets m e = rw e (same_task refl refl refl)

pub end_save-Frame :
    (stored : Bool) (targets : List String) (m : RecoveryManager)
    → Frame m (end_save stored targets m)
end_save-Frame stored targets m = end_save_at m.task stored targets m refl

end_reload_at :
    (t : Task) (s : HealthSettings) (result : Reload) (now : ℕ) (m : RecoveryManager)
    → m.task ≡ t
    → Frame m (end_reload s result now m)
unfolding end_reload latch
end_reload_at (reloading ts) s reloaded now m e = rw e (goes_on refl refl refl refl)
end_reload_at (reloading ts) s refused now m e = rw e (goes_on refl refl refl refl)
end_reload_at (reloading ts) s raised now m e = rw e (goes_on refl refl refl refl)
end_reload_at no_task s result now m e = rw e (same_task refl refl refl)
end_reload_at created s result now m e = rw e (same_task refl refl refl)
end_reload_at (charging v) s result now m e = rw e (same_task refl refl refl)
end_reload_at (verifying ts d l) s result now m e = rw e (same_task refl refl refl)
end_reload_at (succeeding v) s result now m e = rw e (same_task refl refl refl)
end_reload_at (unverified v) s result now m e = rw e (same_task refl refl refl)
end_reload_at (latching handler v) s result now m e = rw e (same_task refl refl refl)

pub end_reload-Frame :
    (s : HealthSettings) (result : Reload) (now : ℕ) (m : RecoveryManager)
    → Frame m (end_reload s result now m)
end_reload-Frame s result now m = end_reload_at m.task s result now m refl

give_up-Frame : (now : ℕ) (m : RecoveryManager) → Frame m (give_up now m)
unfolding latch
give_up-Frame now m =
    let failing : RecoveryManager = record m { last_result = "verify_failed" } in
    by_test (Frame m) (leb max_reloads_per_window (length (recent_reloads now failing)))
      (latch_task false "verify_failed" failing)
      (record failing { task = unverified (saved_data failing) }) (goes_on refl refl refl refl)
      (goes_on refl refl refl refl)

succeed-Frame : (utc : String) (m : RecoveryManager) → Frame m (succeed utc m)
unfolding clear_streak
succeed-Frame utc m = goes_on refl refl refl refl

poll_at :
    (t : Task) (p : Poll) (c : Clocks) (m : RecoveryManager) → m.task ≡ t → Frame m (poll p c m)
unfolding poll
poll_at (verifying ts d l) p c m e =
    let m0 : RecoveryManager = record m { task = verifying ts d l } in
    let asked : RecoveryManager = record (request_probe m0) {
      task = verifying ts d (some c.monotonic);
    } in
    rw e (
      by_test (Frame m0) (not (ltb c.monotonic d)) _ _ (give_up-Frame c.wall m0) (
        by_test (Frame m0) (is_verified ts p) _ _ (succeed-Frame c.utc m0) (
          by_test (Frame m0) (wants_probe l c.monotonic p) asked m0 (goes_on refl refl refl refl)
            (same_task refl refl refl))))
poll_at no_task p c m e = rw e (same_task refl refl refl)
poll_at created p c m e = rw e (same_task refl refl refl)
poll_at (charging v) p c m e = rw e (same_task refl refl refl)
poll_at (reloading ts) p c m e = rw e (same_task refl refl refl)
poll_at (succeeding v) p c m e = rw e (same_task refl refl refl)
poll_at (unverified v) p c m e = rw e (same_task refl refl refl)
poll_at (latching handler v) p c m e = rw e (same_task refl refl refl)

pub poll-Frame : (p : Poll) (c : Clocks) (m : RecoveryManager) → Frame m (poll p c m)
poll-Frame p c m = poll_at m.task p c m refl

begin_latch_at : (n : ℕ) (m : RecoveryManager) → m.latches ≡ n → Frame m (begin_latch m)
unfolding begin_latch latch
begin_latch_at zero m e = rw e (same_task refl refl refl)
begin_latch_at (suc n) m e = rw e (same_task refl refl refl)

pub begin_latch-Frame : (m : RecoveryManager) → Frame m (begin_latch m)
begin_latch-Frame m = begin_latch_at m.latches m refl

end_latch_at :
    (vs : List Value) (stored : Bool) (m : RecoveryManager)
    → m.latch_saves ≡ vs
    → Frame m (end_latch stored m)
unfolding end_latch
end_latch_at [] stored m e = rw e (same_task refl refl refl)
end_latch_at (v ∷ vs) stored m e =
    rw e (by_test (Frame _) stored _ _ (same_task refl refl refl) (same_task refl refl refl))

pub end_latch-Frame : (stored : Bool) (m : RecoveryManager) → Frame m (end_latch stored m)
end_latch-Frame stored m = end_latch_at m.latch_saves stored m refl

begin_mark_at :
    (n : ℕ) (utc : String) (m : RecoveryManager) → m.marks ≡ n → Frame m (begin_mark utc m)
unfolding begin_mark mark_healthy clear_streak
begin_mark_at zero utc m e = rw e (same_task refl refl refl)
begin_mark_at (suc n) utc m e =
    rw e (by_test (Frame _) m.failed _ _ (same_task refl refl refl) (same_task refl refl refl))

pub begin_mark-Frame : (utc : String) (m : RecoveryManager) → Frame m (begin_mark utc m)
begin_mark-Frame utc m = begin_mark_at m.marks utc m refl

end_mark_healthy_at :
    (vs : List Value) (stored : Bool) (m : RecoveryManager)
    → m.healings ≡ vs
    → Frame m (end_mark_healthy stored m)
unfolding end_mark_healthy
end_mark_healthy_at [] stored m e = rw e (same_task refl refl refl)
end_mark_healthy_at (v ∷ vs) stored m e =
    rw e (by_test (Frame _) stored _ _ (same_task refl refl refl) (same_task refl refl refl))

pub end_mark_healthy-Frame :
    (stored : Bool) (m : RecoveryManager) → Frame m (end_mark_healthy stored m)
end_mark_healthy-Frame stored m = end_mark_healthy_at m.healings stored m refl

end_acknowledge_at :
    (vs : List Value) (stored : Bool) (m : RecoveryManager)
    → m.acknowledgements ≡ vs
    → Frame m (end_acknowledge stored m)
unfolding end_acknowledge
end_acknowledge_at [] stored m e = rw e (same_task refl refl refl)
end_acknowledge_at (v ∷ vs) stored m e =
    rw e (by_test (Frame _) stored _ _ (same_task refl refl refl) (same_task refl refl refl))

pub end_acknowledge-Frame :
    (stored : Bool) (m : RecoveryManager) → Frame m (end_acknowledge stored m)
end_acknowledge-Frame stored m = end_acknowledge_at m.acknowledgements stored m refl

pub clear_streak-Frame : (m : RecoveryManager) → Frame m (clear_streak m)
unfolding clear_streak
clear_streak-Frame m = same_task refl refl refl

pub acknowledge-Frame : (m : RecoveryManager) → Frame m (acknowledge m)
unfolding acknowledge clear_streak
acknowledge-Frame m = same_task refl refl refl

pub mark-Frame : (m : RecoveryManager) → Frame m (record m { marks = suc m.marks })
mark-Frame m = same_task refl refl refl
