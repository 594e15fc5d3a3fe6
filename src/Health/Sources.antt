-- ===== src/Health/Sources.antt =====
-- custom_components/casambi_mqtt/health.py, ProbeTracker: where the reply and the delivered messages of a
-- waiting probe come from.
use Prim.Native.String.{String}
use casambi_mqtt.Prelude.{
  ℕ, ◌≡◌, ◌⊎◌, inl, inr, refl, sym, ap, Option, none, some, List, [], ◌∷◌, All, arith, Option-cases,
  by_test,
}
use casambi_mqtt.Prelude.Maybe.{Each}
use casambi_mqtt.Json.{Value}
use casambi_mqtt.Health.Protocol.{HealthReply}
use casambi_mqtt.Health.Wire.{parse_reply}
use casambi_mqtt.Health.Probe.{
  PendingProbe, ProbeTracker, MessageKey, message_key, add_key, holds_key, finish, start, check,
  check_pending, take_reply, on_reply,
}
use casambi_mqtt.Health.Collect.{
  spend, record_raw, record_processed, supersede, cancel, Event, started, replied, raw_seen,
  processed_seen, instance_seen, checked, cancelled, step,
}

-- The event carries the reply, or tells that a message of the topic was delivered.
abbrev pub Carries : Event → HealthReply → Type 0
Carries (replied payload now i) r = parse_reply payload ≡ some r
Carries _ r = ⊥

abbrev pub Delivers : Event → String → Type 0
Delivers (raw_seen topic now identity) u = topic ≡ u
Delivers _ u = ⊥

-- One of the events does.
abbrev pub Carried : List Event → HealthReply → Type 0
Carried [] r = ⊥
Carried (e ∷ es) r = Carries e r ⊎ Carried es r

abbrev pub Delivered : List Event → String → Type 0
Delivered [] u = ⊥
Delivered (e ∷ es) u = Delivers e u ⊎ Delivered es u

module _ (P : HealthReply → Type 0) (D : String → Type 0) where
  -- The probe's reply and the topics of its messages are as they should be.
  abbrev pub IsFrom : PendingProbe → Type 0
  IsFrom p = Each P p.reply × All (λ (k : MessageKey). D k.0) p.raw_messages

  abbrev pub AllFrom : ProbeTracker → Type 0
  AllFrom t = Each IsFrom t.pending

  pending-IsFrom : (t : ProbeTracker) (p : PendingProbe) → t.pending ≡ some p → AllFrom t → IsFrom p
  pending-IsFrom t p e h = rw (sym (ap (λ o. Each IsFrom o) e)) h

  add_key-All :
      (k : MessageKey) (ks : List MessageKey)
      → D k.0
      → All (λ (k : MessageKey). D k.0) ks
      → All (λ (k : MessageKey). D k.0) (add_key k ks)
  add_key-All k ks d h =
      by_test (All (λ (k : MessageKey). D k.0)) (holds_key k ks) ks (k ∷ ks) h (d, h)

  check_pending-AllFrom :
      (p : PendingProbe) (now : ℕ) (t : ProbeTracker)
      → AllFrom t
      → AllFrom (check_pending p now t).1
  unfolding check_pending finish
  check_pending-AllFrom p now t h = elim (Option-cases p.reply) [
    | inl silent ↦ ground (arith, silent, h)
    | inr (r, answered) ↦ ground (arith, answered, h)
  ]

  check-AllFrom : (now : ℕ) (t : ProbeTracker) → AllFrom t → AllFrom (check now t).1
  unfolding check
  check-AllFrom now t h = elim (Option-cases t.pending) [
    | inl idle ↦ ground (arith, idle, h)
    | inr (p, e) ↦ ground (arith, e, check_pending-AllFrom p now t h)
  ]

  take_reply-AllFrom :
      (p : PendingProbe) (r : HealthReply) (now : ℕ) (t : ProbeTracker)
      → IsFrom p
      → AllFrom (take_reply p r now t).1
  unfolding take_reply finish
  take_reply-AllFrom p r now t h =
      ground (arith, check-AllFrom now (record t { pending = some p }) h)

  on_reply-AllFrom :
      (payload : Option Value) (now : ℕ) (i : Option String) (t : ProbeTracker)
      → ((r : HealthReply) → parse_reply payload ≡ some r → P r)
      → AllFrom t
      → AllFrom (on_reply payload now i t).1
  unfolding on_reply
  on_reply-AllFrom payload now i t f h = elim (Option-cases (parse_reply payload)) [
    | inl bad ↦ ground (arith, bad, h)
    | inr (r, good) ↦ elim (Option-cases t.pending) [
      | inl idle ↦ ground (arith, good, idle, h)
      | inr (p, e) ↦ ground (
        arith,
        good,
        e,
        h,
        take_reply-AllFrom (record p { reply = some r }) r now t
            (f r good, (pending-IsFrom t p e h).1),
      )
    ]
  ]

  record_raw-AllFrom :
      (topic : String) (now : ℕ) (identity : Option ℕ) (t : ProbeTracker)
      → D topic
      → AllFrom t
      → AllFrom (record_raw topic now identity t).1
  unfolding record_raw
  record_raw-AllFrom topic now identity t d h = elim (Option-cases t.pending) [
    | inl idle ↦ ground (arith, idle, check-AllFrom now t h)
    | inr (p, e) ↦
        let q : PendingProbe = record p {
          raw_messages = add_key (message_key topic identity t) p.raw_messages;
        } in
        let (a, b) = pending-IsFrom t p e h in
        let k =
          check-AllFrom now (record (spend identity t) { pending = some q })
            (a, add_key-All (message_key topic identity t) p.raw_messages (keyed identity) b) in
        ground (arith, e, k, check-AllFrom now t h)
  ]
    where
      keyed : (o : Option ℕ) → D (message_key topic o t).0
      keyed none = d
      keyed (some n) = d

  record_processed-AllFrom :
      (topic : String) (now : ℕ) (identity : Option ℕ) (t : ProbeTracker)
      → AllFrom t
      → AllFrom (record_processed topic now identity t).1
  unfolding record_processed
  record_processed-AllFrom topic now identity t h = elim (Option-cases t.pending) [
    | inl idle ↦ ground (arith, idle, check-AllFrom now t h)
    | inr (p, e) ↦
        let q : PendingProbe = record p {
          processed_messages = add_key (message_key topic identity t) p.processed_messages;
        } in
        let k =
          check-AllFrom now (record (spend identity t) { pending = some q })
            (pending-IsFrom t p e h) in
        ground (arith, e, k, check-AllFrom now t h)
  ]

  -- A step adds only the reply that it carries and the message that it tells of.
  pub step-AllFrom :
      (e : Event) (t : ProbeTracker)
      → ((r : HealthReply) → Carries e r → P r)
      → ((u : String) → Delivers e u → D u)
      → AllFrom t
      → AllFrom (step e t).1
  unfolding step start supersede cancel finish
  step-AllFrom (started kind token now i) t f g h = ground (arith, h)
  step-AllFrom (replied payload now i) t f g h = on_reply-AllFrom payload now i t f h
  step-AllFrom (raw_seen topic now identity) t f g h =
      record_raw-AllFrom topic now identity t (g topic refl) h
  step-AllFrom (processed_seen topic now identity) t f g h =
      record_processed-AllFrom topic now identity t h
  step-AllFrom (instance_seen now i) t f g h = ground (arith, h)
  step-AllFrom (checked now) t f g h = check-AllFrom now t h
  step-AllFrom cancelled t f g h = ground (arith, h)
