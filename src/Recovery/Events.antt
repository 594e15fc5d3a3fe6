-- ===== src/Recovery/Events.antt =====
-- recovery.py: what may happen to a RecoveryManager, one piece of code between two awaits at a time.
use casambi_mqtt.Prelude.{ℕ, suc, ◌≤◌, Bool, true, false, List, [], ◌∷◌, if◌then◌else◌}
use Prim.Native.String.{String}
use casambi_mqtt.Health.Bridge.{HealthSettings}
use casambi_mqtt.Recovery.Manager.{
  Clocks, Task, created, RecoveryManager, clear_streak, record_stale, request_recovery,
}
use casambi_mqtt.Recovery.Task.{
  Reload, Poll, begin_recovery, end_save, end_reload, poll, begin_latch, end_latch, begin_mark,
  end_mark_healthy, acknowledge, end_acknowledge,
}

-- `stale_proved` is a call of record_stale with its two bounds, and `succeeded` the coordinator's
-- creation of an `async_mark_healthy` task.
pub data Event : Type 0 where
  stale_proved : ℕ → ℕ → Event
  requested begun : Event
  save_ended : Bool → List String → Event
  reload_ended : Reload → Event
  polled : Poll → Event
  latch_begun : Event
  latch_ended : Bool → Event
  streak_cleared succeeded mark_begun : Event
  mark_ended : Bool → Event
  acknowledged : Event
  acknowledge_ended : Bool → Event

unfoldable pub step : HealthSettings → Clocks → Event → RecoveryManager → RecoveryManager
step s c (stale_proved confirm gap) m = (record_stale confirm gap c.monotonic m).1
step s c requested m = (request_recovery s c.wall m).1
step s c begun m = begin_recovery c.wall m
step s c (save_ended stored targets) m = end_save stored targets m
step s c (reload_ended result) m = end_reload s result c.monotonic m
step s c (polled p) m = poll p c m
step s c latch_begun m = begin_latch m
step s c (latch_ended stored) m = end_latch stored m
step s c streak_cleared m = clear_streak m
step s c succeeded m = record m { marks = suc m.marks }
step s c mark_begun m = begin_mark c.utc m
step s c (mark_ended stored) m = end_mark_healthy stored m
step s c acknowledged m = acknowledge m
step s c (acknowledge_ended stored) m = end_acknowledge stored m

unfoldable pub run : HealthSettings → List (Clocks × Event) → RecoveryManager → RecoveryManager
run s [] m = m
run s ((c, e) ∷ es) m = run s es (step s c e m)

-- Does the event charge the budget?
abbrev pub charges_now : Event → Task → Bool
charges_now begun created = true
charges_now _ _ = false

-- The wall clock's times at which a run charges the budget.
unfoldable pub charges : HealthSettings → List (Clocks × Event) → RecoveryManager → List ℕ
charges s [] m = []
charges s ((c, e) ∷ es) m =
    let rest = charges s es (step s c e m) in if charges_now e m.task then c.wall ∷ rest else rest

-- The wall clock is at `now` first, and never goes back.
abbrev pub Forward : ℕ → List (Clocks × Event) → Type 0
Forward now [] = Unit
Forward now ((c, e) ∷ es) = (now ≤ c.wall) × Forward c.wall es

-- The wall clock at the end.
abbrev pub end_time : ℕ → List (Clocks × Event) → ℕ
end_time now [] = now
end_time now ((c, e) ∷ es) = end_time c.wall es
