-- ===== src/Health/Verdicts.antt =====
-- custom_components/casambi_mqtt/health.py, ProbeTracker: what a verdict rests on.
use Prim.Native.String.{String}
use text.Mathlib.Text.{◌==◌ as str_eq}
use casambi_mqtt.Prelude.{
  ℕ, ◌≤◌, ◌<◌, ◌≡◌, ◌⊎◌, inl, inr, refl, sym, ap, true, Option, none, some, arith, length,
  Option-cases,
}
use casambi_mqtt.Prelude.Maybe.{Each}
use casambi_mqtt.Json.{Value}
use casambi_mqtt.Health.Protocol.{status_reply, snapshot_reply, ok, HealthReply}
use casambi_mqtt.Health.Wire.{parse_reply}
use casambi_mqtt.Health.Probe.{
  status_probe, consumer_probe, PendingProbe, ProbeResult, ProbeTracker, message_key, add_key,
  all_handled, raw_topics, units_or_zero, finish, start, check, check_pending, take_reply, on_reply,
  fits_kind, from_instance,
}
use casambi_mqtt.Health.Collect.{
  spend, record_raw, record_processed, supersede, cancel, Event, started, replied, raw_seen,
  processed_seen, instance_seen, checked, cancelled, step,
}

-- A reply that a probe keeps while it goes on waiting.
abbrev pub Matches : PendingProbe → HealthReply → Type 0
Matches p r =
    (str_eq r.request_id p.request_id ≡ true)
    × (r.result ≡ ok)
    × (p.kind ≡ consumer_probe)
    × (r.type ≡ snapshot_reply)
    × (0 < units_or_zero r)

abbrev pub IsSoundProbe : PendingProbe → Type 0
IsSoundProbe p = Each (Matches p) p.reply

abbrev pub IsSound : ProbeTracker → Type 0
IsSound t = Each IsSoundProbe t.pending

-- What a step adds to the pending probe: the reply that its payload carries, if there is none yet and it
-- is from the instance, or one delivered or handled message, or nothing.
abbrev pub AddedBy : Event → ProbeTracker → PendingProbe → PendingProbe → Type 0
AddedBy (replied payload now i) t q p =
    (r : HealthReply) × (parse_reply payload ≡ some r)
    × (q.reply ≡ none)
    × (from_instance i r.instance_id ≡ true)
    × (p ≡ record q { reply = some r })
AddedBy (raw_seen topic now identity) t q p =
    (p ≡ q)
    ⊎ (p ≡ record q { raw_messages = add_key (message_key topic identity t) q.raw_messages })
AddedBy (processed_seen topic now identity) t q p =
    (p ≡ q)
    ⊎ (p ≡ record q {
      processed_messages = add_key (message_key topic identity t) q.processed_messages;
    })
AddedBy _ t q p = p ≡ q

-- What a success in a step rests on: the probe that was pending, and the probe that it is with what the
-- step adds to it, and nothing else.
pub record Evidence (e : Event) (t : ProbeTracker) (res : ProbeResult) : Type 0 where
  pub asked : PendingProbe
  pub was_pending : t.pending ≡ some asked
  pub probe : PendingProbe
  pub added : AddedBy e t asked probe
  pub reply : HealthReply
  pub answered : probe.reply ≡ some reply
  pub own_reply : str_eq reply.request_id asked.request_id ≡ true
  pub is_ok : reply.result ≡ ok
  pub in_time : res.finished_at ≤ asked.deadline_at
  pub proof :
      ((probe.kind ≡ status_probe) × (reply.type ≡ status_reply))
      ⊎ ((probe.kind ≡ consumer_probe)
          × (reply.type ≡ snapshot_reply)
          × (0 < units_or_zero reply)
          × (units_or_zero reply ≤ length (raw_topics probe))
          × (all_handled probe ≡ true))

check_pending-IsSound :
    (p : PendingProbe) (now : ℕ) (t : ProbeTracker)
    → t.pending ≡ some p
    → IsSound t
    → IsSound (check_pending p now t).1
unfolding check_pending finish
check_pending-IsSound p now t e h = elim (Option-cases p.reply) [
  | inl silent ↦ ground (arith, silent, h)
  | inr (r, answered) ↦ ground (arith, answered, h)
]

check-IsSound : (now : ℕ) (t : ProbeTracker) → IsSound t → IsSound (check now t).1
unfolding check
check-IsSound now t h = elim (Option-cases t.pending) [
  | inl idle ↦ ground (arith, idle, h)
  | inr (p, e) ↦ ground (arith, e, check_pending-IsSound p now t e h)
]

take_reply-IsSound :
    (p : PendingProbe) (r : HealthReply) (now : ℕ) (t : ProbeTracker)
    → p.reply ≡ some r
    → str_eq r.request_id p.request_id ≡ true
    → fits_kind p.kind r.type ≡ true
    → IsSound t
    → IsSound (take_reply p r now t).1
unfolding take_reply finish
take_reply-IsSound p r now t answered own fits h = ground (
  arith,
  answered,
  own,
  fits,
  λ (k : IsSound (record t { pending = some p })).
      check-IsSound now (record t { pending = some p }) k,
)

on_reply-IsSound :
    (payload : Option Value) (now : ℕ) (i : Option String) (t : ProbeTracker)
    → IsSound t
    → IsSound (on_reply payload now i t).1
unfolding on_reply
on_reply-IsSound payload now i t h = elim (Option-cases (parse_reply payload)) [
  | inl bad ↦ ground (arith, bad, h)
  | inr (r, good) ↦ elim (Option-cases t.pending) [
    | inl idle ↦ ground (arith, good, idle, h)
    | inr (p, e) ↦
        ground (arith, good, e, h, take_reply-IsSound (record p { reply = some r }) r now t refl)
  ]
]

pub sound_pending :
    (t : ProbeTracker) (p : PendingProbe) → t.pending ≡ some p → IsSound t → IsSoundProbe p
sound_pending t p e h = rw (sym (ap (λ o. Each IsSoundProbe o) e)) h

record_raw-IsSound :
    (topic : String) (now : ℕ) (identity : Option ℕ) (t : ProbeTracker)
    → IsSound t
    → IsSound (record_raw topic now identity t).1
unfolding record_raw
record_raw-IsSound topic now identity t h = elim (Option-cases t.pending) [
  | inl idle ↦ ground (arith, idle, check-IsSound now t h)
  | inr (p, e) ↦
      let q : PendingProbe = record p {
        raw_messages = add_key (message_key topic identity t) p.raw_messages;
      } in
      let k =
        check-IsSound now (record (spend identity t) { pending = some q })
          (sound_pending t p e h) in
      ground (arith, e, k, check-IsSound now t h)
]

record_processed-IsSound :
    (topic : String) (now : ℕ) (identity : Option ℕ) (t : ProbeTracker)
    → IsSound t
    → IsSound (record_processed topic now identity t).1
unfolding record_processed
record_processed-IsSound topic now identity t h = elim (Option-cases t.pending) [
  | inl idle ↦ ground (arith, idle, check-IsSound now t h)
  | inr (p, e) ↦
      let q : PendingProbe = record p {
        processed_messages = add_key (message_key topic identity t) p.processed_messages;
      } in
      let k =
        check-IsSound now (record (spend identity t) { pending = some q })
          (sound_pending t p e h) in
      ground (arith, e, k, check-IsSound now t h)
]

-- Every step of the tracker keeps the invariant that a reply which a waiting probe has kept is its
-- own, an `ok` snapshot reply with units, and that the probe is one of the consumer.
pub step-IsSound : (e : Event) (t : ProbeTracker) → IsSound t → IsSound (step e t).1
unfolding step start record_raw record_processed supersede cancel finish
step-IsSound (started kind token now i) t h = ground (arith, h)
step-IsSound (replied payload now i) t h = on_reply-IsSound payload now i t h
step-IsSound (raw_seen topic now identity) t h = record_raw-IsSound topic now identity t h
step-IsSound (processed_seen topic now identity) t h =
    record_processed-IsSound topic now identity t h
step-IsSound (instance_seen now i) t h = ground (arith, h)
step-IsSound (checked now) t h = check-IsSound now t h
step-IsSound cancelled t h = ground (arith, h)
