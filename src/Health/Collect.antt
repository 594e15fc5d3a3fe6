-- ===== src/Health/Collect.antt =====
-- custom_components/casambi_mqtt/health.py, ProbeTracker: record_raw, record_processed, supersede and
-- cancel, and every operation as one step.
use Prim.Native.String.{String}
use text.Mathlib.Text.{◌==◌ as str_eq}
use casambi_mqtt.Prelude.{ℕ, suc, Bool, false, not, ◌||◌, Option, none, some, if◌then◌else◌}
use casambi_mqtt.Json.{Value}
use casambi_mqtt.Health.Probe.{
  ProbeKind, superseded, PendingProbe, ProbeResult, ProbeTracker, message_key, add_key, collecting,
  finish, start, check, on_reply,
}

-- The tracker once a message without an identity has taken a fresh object.
abbrev pub spend : Option ℕ → ProbeTracker → ProbeTracker
spend none t = record t { fresh = suc t.fresh }
spend (some identity) t = t

unfoldable pub record_raw : String → ℕ → Option ℕ → ProbeTracker → Option ProbeResult × ProbeTracker
record_raw topic now identity t = elim t.pending [
  | none ↦ check now t
  | some p ↦
      let added : PendingProbe = record p {
        raw_messages = add_key (message_key topic identity t) p.raw_messages;
      } in
      if collecting p now
      then check now (record (spend identity t) { pending = some added })
      else check now t
]

unfoldable pub record_processed :
    String → ℕ → Option ℕ → ProbeTracker → Option ProbeResult × ProbeTracker
record_processed topic now identity t = elim t.pending [
  | none ↦ check now t
  | some p ↦
      let added : PendingProbe = record p {
        processed_messages = add_key (message_key topic identity t) p.processed_messages;
      } in
      if collecting p now
      then check now (record (spend identity t) { pending = some added })
      else check now t
]

-- `known is not None and known != instance_id`
abbrev pub differs : Option String → String → Bool
differs none i = false
differs (some known) i = not (str_eq known i)

abbrev pub replied_by : PendingProbe → Option String
replied_by p = elim p.reply [ none ↦ none | some r ↦ some r.instance_id ]

unfoldable pub supersede : ℕ → Option String → ProbeTracker → Option ProbeResult × ProbeTracker
supersede now instance_id t = elim t.pending [
  | none ↦ (none, t)
  | some p ↦ elim instance_id [
    | none ↦ (none, t)
    | some i ↦
        if differs p.instance_id i || differs (replied_by p) i
        then finish p superseded now t
        else (none, t)
  ]
]

unfoldable pub cancel : ProbeTracker → ProbeTracker
cancel t = record t { pending = none }

-- What may happen to the tracker.
pub data Event : Type 0 where
  started : ProbeKind → String → ℕ → Option String → Event
  replied : Option Value → ℕ → Option String → Event
  raw_seen processed_seen : String → ℕ → Option ℕ → Event
  instance_seen : ℕ → Option String → Event
  checked : ℕ → Event
  cancelled : Event

unfoldable pub step : Event → ProbeTracker → Option ProbeResult × ProbeTracker
step (started kind token now instance_id) t = (none, (start kind token now instance_id t).1)
step (replied payload now instance_id) t = on_reply payload now instance_id t
step (raw_seen topic now identity) t = record_raw topic now identity t
step (processed_seen topic now identity) t = record_processed topic now identity t
step (instance_seen now instance_id) t = supersede now instance_id t
step (checked now) t = check now t
step cancelled t = (none, cancel t)
