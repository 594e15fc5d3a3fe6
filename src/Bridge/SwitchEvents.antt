-- ===== src/Bridge/SwitchEvents.antt =====
-- server.py: sanitize_switch_event, switch_event_dedup_key and SwitchEventPublisher. The event loop runs
-- one piece of code at a time: a call that queues an event, and the worker that takes one and publishes
-- it. What fails to reach the broker changes nothing here. Times are in milliseconds.
use Prim.Native.String.{String}
use text.Mathlib.Text.{◌==◌ as str_eq}
use casambi_mqtt.Prelude.{
  ℕ, suc, ◌+◌, Bool, false, ◌&&◌, Option, none, some, List, [], ◌∷◌, ◌++◌, length, any, leb, ltb,
  ◌==◌, if◌then◌else◌,
}
use casambi_mqtt.Prelude.Int.{pos}
use casambi_mqtt.Prelude.Maybe.{◌>>=◌}
use casambi_mqtt.Json.{int, str, Fields, end, field}
use casambi_mqtt.Bridge.State.{BridgeDiagnostics, no_diagnostics}

abbrev pub switch_event_queue_max : ℕ
switch_event_queue_max = 64

abbrev pub switch_event_dedup_ms : ℕ
switch_event_dedup_ms = 250

-- An event as a callback hands it over: its name, its button and unit if they are integers of at least
-- 0, and the decoder's identity (unit, control, origin), if it has one.
pub record SwitchEvent : Type 0 where
  pub event : Option String
  pub button : Option ℕ
  pub unit_id : Option ℕ
  pub dedup_identity : Option (ℕ × ℕ × ℕ)

-- The public fields.
pub record Public : Type 0 where
  pub unit : ℕ
  pub public_button : ℕ
  pub name : String

-- The record that `sanitize_switch_event` returns, as it is published.
abbrev pub public_json : Public → Fields
public_json p =
    field "unit_id" (int (pos p.unit))
      (field "button" (int (pos p.public_button)) (field "event" (str p.name) end))

abbrev pub is_supported : String → Bool
is_supported name =
    any (λ s. str_eq s name) ("PRESS" ∷ "RELEASE" ∷ "HOLD" ∷ "RELEASE_AFTER_HOLD" ∷ [])

abbrev pub max_switch_event_value : ℕ
max_switch_event_value = 255

abbrev pub public_fields : String → ℕ → ℕ → Option Public
public_fields name button unit =
    if is_supported name && (leb button max_switch_event_value && leb unit max_switch_event_value)
    then some (record { unit = unit; public_button = button; name = name })
    else none

unfoldable pub sanitize_switch_event : SwitchEvent → Option Public
sanitize_switch_event e = do
  name ← e.event
  button ← e.button
  unit ← e.unit_id
  public_fields name button unit

-- `switch_event_dedup_key`
pub data Key : Type 0 where
  decoded : ℕ × ℕ × ℕ → Key
  callback : Public → Key

abbrev pub dedup_key : SwitchEvent → Public → Key
dedup_key e p = elim e.dedup_identity [ none ↦ callback p | some identity ↦ decoded identity ]

abbrev pub key_eq : Key → Key → Bool
key_eq (decoded (u, c, o)) (decoded (u', c', o')) = u == u' && (c == c' && o == o')
key_eq (callback p) (callback q) =
    p.unit == q.unit && (p.public_button == q.public_button && str_eq p.name q.name)
key_eq _ _ = false

-- The dictionary of the times at which a key was published last, by its lookup.
abbrev pub LastSeen : Type 0
LastSeen = Key → Option ℕ

-- `previous is not None and now - previous < SWITCH_EVENT_DEDUP_SECONDS`
abbrev pub is_recent : ℕ → Option ℕ → Bool
is_recent now none = false
is_recent now (some t) = ltb now (t + switch_event_dedup_ms)

-- `_purge_expired`: `seen_at <= now - window` is written `seen_at + window <= now`.
abbrev pub purge_time : ℕ → Option ℕ → Option ℕ
purge_time now none = none
purge_time now (some t) = if leb (t + switch_event_dedup_ms) now then none else some t

unfoldable pub purge_expired : ℕ → LastSeen → LastSeen
purge_expired now seen k = purge_time now (seen k)

abbrev pub put_seen : Key → ℕ → LastSeen → LastSeen
put_seen key now seen k = if key_eq key k then some now else seen k

-- `sent` is what `publish` has handed to the broker.
pub record SwitchEventPublisher : Type 0 where
  pub last_seen : LastSeen
  pub dropped : ℕ
  pub queue : List SwitchEvent
  pub diagnostics : BridgeDiagnostics
  pub sent : List Public

abbrev pub new_switch_publisher : SwitchEventPublisher
new_switch_publisher = record {
  last_seen = λ k. none;
  dropped = 0;
  queue = [];
  diagnostics = no_diagnostics;
  sent = [];
}

-- `publish(event)`, where the clock shows `now`
unfoldable pub publish : ℕ → SwitchEvent → SwitchEventPublisher → SwitchEventPublisher
publish now e p = elim (sanitize_switch_event e) [
  | none ↦ p
  | some fields ↦
      let purged = purge_expired now p.last_seen in
      let key = dedup_key e fields in
      if is_recent now (purged key)
      then record p { last_seen = purged }
      else record p { last_seen = put_seen key now purged; sent = p.sent ++ (fields ∷ []) }
]

-- `__call__(event)`
unfoldable pub enqueue : SwitchEvent → SwitchEventPublisher → SwitchEventPublisher
enqueue e p =
    let d = p.diagnostics in
    if ltb (length p.queue) switch_event_queue_max
    then record p {
      queue = p.queue ++ (e ∷ []);
      diagnostics = record d { switch_queue_depth = length (p.queue ++ (e ∷ [])) };
    }
    else record p {
      dropped = suc p.dropped;
      diagnostics = record d {
        switch_dropped = suc d.switch_dropped;
        switch_queue_depth = length p.queue;
      };
    }

-- One round of `_worker`: the oldest event is taken and published.
unfoldable pub work : ℕ → SwitchEventPublisher → SwitchEventPublisher
work now p = elim p.queue [
  | [] ↦ p
  | e ∷ rest ↦
      let d = p.diagnostics in
      publish now e (record p {
        queue = rest;
        diagnostics = record d {
          switch_queue_depth = length rest;
          switch_publish_attempted = suc d.switch_publish_attempted;
        };
      })
]
