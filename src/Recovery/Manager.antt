-- ===== src/Recovery/Manager.antt =====
-- recovery.py: RecoveryManager, what it keeps and stores, its stale streak and its requests. Times are
-- in milliseconds, settings in seconds as in the source; `now - t < w` is written `now < t + w`. The
-- listeners, the log and the lock are left out: `in_progress` lets only one recovery run.
use Prim.Native.String.{String}
use casambi_mqtt.Prelude.{
  ℕ, suc, max, ◌+◌, ◌*◌, Bool, true, false, ◌||◌, Option, none, some, List, [], ◌∷◌, length, keep,
  ltb, leb, ◌==◌, if◌then◌else◌,
}
use casambi_mqtt.Prelude.Int.{pos, negsuc}
use casambi_mqtt.Prelude.Maybe.{◌>>=◌}
use casambi_mqtt.Prelude.Text.{clip}
use casambi_mqtt.Json.{
  Value, null, bool, int, float, str, arr, obj, end, field, Items, no_item, item, get, as_items,
  as_text, as_bool,
}
use casambi_mqtt.Supervisor.Clock.{seconds}
use casambi_mqtt.Health.Bridge.{HealthSettings}

abbrev pub recovery_window_seconds : ℕ
recovery_window_seconds = 1800

abbrev pub max_reloads_per_window : ℕ
max_reloads_per_window = 2

-- What a call reads: `time.time()`, `time.monotonic()` and `utcnow()`.
pub record Clocks : Type 0 where
  pub wall : ℕ
  pub monotonic : ℕ
  pub utc : String

-- Where `_async_recover` stands: its task has not begun, or it awaits a save of the data given, the
-- reload, the next poll of `_async_verify`, or a save after which it ends. `latching` tells whether the
-- `except` clause has called `_async_latch`.
pub data Task : Type 0 where
  no_task created : Task
  charging : Value → Task
  reloading : List String → Task
  verifying : List String → (deadline : ℕ) → (last_probe_at : Option ℕ) → Task
  succeeding unverified : Value → Task
  latching : (handler : Bool) → Value → Task

-- What Home Assistant holds for the entry: the stored data, the repair issue, and how often it was
-- asked for a reload, a probe and a notification.
pub record Hass : Type 0 where
  pub store : Option Value
  pub issue : Bool
  pub reload_calls : ℕ
  pub probe_requests : ℕ
  pub announcements : ℕ

-- `latches` counts the `_async_latch` tasks of request_recovery that have not begun, and `marks` the
-- coordinator's `async_mark_healthy` tasks; `latch_saves`,
-- `healings` and `acknowledgements` hold the saves that these, async_mark_healthy and
-- async_acknowledge await.
pub record RecoveryManager : Type 0 where
  pub in_progress : Bool
  pub reloads : List ℕ
  pub failed : Bool
  pub reason : String
  pub last_result : String
  pub last_recovery : Option String
  pub stale_streak : ℕ
  pub last_stale_at : Option ℕ
  pub task : Task
  pub latches : ℕ
  pub latch_saves : List Value
  pub marks : ℕ
  pub healings : List Value
  pub acknowledgements : List Value
  pub hass : Hass

-- `RecoveryManager(hass, entry_id)`
abbrev pub new_manager : Hass → RecoveryManager
new_manager hass = record {
  in_progress = false;
  reloads = [];
  failed = false;
  reason = "none";
  last_result = "none";
  last_recovery = none;
  stale_streak = 0;
  last_stale_at = none;
  task = no_task;
  latches = 0;
  latch_saves = [];
  marks = 0;
  healings = [];
  acknowledgements = [];
  hass = hass;
}

abbrev pub time_items : List ℕ → Items
time_items [] = no_item
time_items (t ∷ ts) = item (float (pos t)) (time_items ts)

-- The numbers of a list, or nothing if an item is no number. Times before 1970 are left out.
abbrev pub read_times : Items → Option (List ℕ)
read_times no_item = some []
read_times (item v vs) = do
  ts ← read_times vs
  elim v [
    | int (pos n) ↦ some (n * 1000 ∷ ts)
    | int (negsuc n) ↦ some ts
    | float (pos n) ↦ some (n ∷ ts)
    | float (negsuc n) ↦ some ts
    | _ ↦ none
  ]

abbrev pub last_recovery_json : Option String → Value
last_recovery_json none = null
last_recovery_json (some s) = str s

-- What `_async_save` writes.
unfoldable pub saved_data : RecoveryManager → Value
saved_data m = obj (
    field "reloads" (arr (time_items m.reloads)) (
      field "failed" (bool m.failed) (
        field "reason" (str m.reason) (
          field "last_result" (str m.last_result)
            (field "last_recovery" (last_recovery_json m.last_recovery) end)))))

-- `data.get(key)`, if it is of the type that is asked for, or else what is there
abbrev pub loaded : {A : Type 0} → (Value → Option A) → Option Value → A → A
loaded read none old = old
loaded read (some v) old = elim (read v) [ none ↦ old | some a ↦ a ]

abbrev pub as_times : Value → Option (List ℕ)
as_times v = do vs ← as_items v; read_times vs

abbrev pub clipped : ℕ → Value → Option String
clipped n v = do s ← as_text v; some (clip n s)

abbrev pub clipped_some : ℕ → Value → Option (Option String)
clipped_some n v = do s ← as_text v; some (some (clip n s))

-- `async_load`, with the data that the store yields
unfoldable pub async_load : Option Value → RecoveryManager → RecoveryManager
async_load (some (obj d)) m =
    let failed = loaded as_bool (get "failed" d) m.failed in
    record m {
      reloads = loaded as_times (get "reloads" d) m.reloads;
      failed = failed;
      reason = loaded (clipped 64) (get "reason" d) m.reason;
      last_result = loaded (clipped 64) (get "last_result" d) m.last_result;
      last_recovery = loaded (clipped_some 40) (get "last_recovery" d) m.last_recovery;
      hass = record m.hass { issue = if failed then true else m.hass.issue };
    }
async_load _ m = m

-- Is the reload at `t` in the window that ends now? One that lies in the future is.
abbrev pub in_window : ℕ → ℕ → Bool
in_window now t = ltb now (t + seconds recovery_window_seconds)

abbrev pub within : ℕ → List ℕ → List ℕ
within now ts = keep (in_window now) ts

unfoldable pub recent_reloads : ℕ → RecoveryManager → List ℕ
recent_reloads now m = within now m.reloads

unfoldable pub clear_streak : RecoveryManager → RecoveryManager
clear_streak m = record m { stale_streak = 0; last_stale_at = none }

abbrev pub start_streak : ℕ → RecoveryManager → RecoveryManager
start_streak now m = record m { stale_streak = 1; last_stale_at = some now }

-- `record_stale(confirm_seconds, max_gap)`: is the fault proved twice?
unfoldable pub record_stale : ℕ → ℕ → ℕ → RecoveryManager → Bool × RecoveryManager
record_stale confirm max_gap now m = elim m.last_stale_at [
  | none ↦ (false, start_streak now m)
  | some t ↦
      if m.stale_streak == 0 || ltb (t + seconds max_gap) now
      then (false, start_streak now m)
      else if ltb now (t + seconds confirm)
      then (false, m)
      else (true, clear_streak m)
]

-- `max(…)` of a list that is not empty
abbrev pub latest : List ℕ → Option ℕ
latest [] = none
latest (t ∷ ts) = elim (latest ts) [ none ↦ some t | some u ↦ some (max t u) ]

-- `recent and wall - max(recent) < cooldown`
abbrev pub is_cooling : ℕ → ℕ → List ℕ → Bool
is_cooling cooldown now recent = elim (latest recent) [
  | none ↦ false
  | some t ↦ ltb now (t + seconds cooldown)
]

-- The texts that `request_recovery` returns.
pub data Answer : Type 0 where
  already_in_progress recovery_failed budget_exhausted cooldown started : Answer

unfoldable pub request_recovery : HealthSettings → ℕ → RecoveryManager → Answer × RecoveryManager
request_recovery settings now m =
    let recent = recent_reloads now m in
    if m.in_progress
    then (already_in_progress, m)
    else if m.failed
    then (recovery_failed, m)
    else if leb max_reloads_per_window (length recent)
    then (budget_exhausted, record m { latches = suc m.latches })
    else if is_cooling settings.recovery_cooldown_seconds now recent
    then (cooldown, m)
    else (started, record m { in_progress = true; last_result = "recovering"; task = created })
