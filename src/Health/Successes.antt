-- ===== src/Health/Successes.antt =====
-- custom_components/casambi_mqtt/health.py, ProbeTracker: what a success rests on, and how a
-- probe ends.
use Prim.Native.String.{String}
use text.Mathlib.Text.{◌==◌ as str_eq}
use casambi_mqtt.Prelude.{
  ℕ, leb, ◌≤◌, ◌<◌, ◌≡◌, ◌⊎◌, inl, inr, refl, sym, ap, true, Option, some, arith, length,
  Option-cases, Bool-cases,
}
use casambi_mqtt.Prelude.Maybe.{Each}
use casambi_mqtt.Json.{Value}
use casambi_mqtt.Health.Protocol.{ok, HealthReply}
use casambi_mqtt.Health.Wire.{parse_reply}
use casambi_mqtt.Health.Probe.{
  status_probe, consumer_probe, passed, PendingProbe, ProbeResult, ProbeTracker, message_key,
  add_key, all_handled, raw_topics, units_or_zero, finish, check, check_pending, take_reply,
  on_reply, is_accepted, fits_kind, collecting,
}
use casambi_mqtt.Health.Collect.{
  spend, record_raw, record_processed, supersede, Event, started, replied, raw_seen, processed_seen,
  instance_seen, checked, cancelled, step,
}
use casambi_mqtt.Health.Verdicts.{IsSound, IsSoundProbe, Matches, AddedBy, Evidence, sound_pending}

check_answered :
    (p : PendingProbe) (r : HealthReply) (now : ℕ) (t : ProbeTracker) {res : ProbeResult}
    → p.reply ≡ some r
    → (check_pending p now t).0 ≡ some res
    → res.outcome ≡ passed
    → (res.finished_at ≤ p.deadline_at)
      × (p.kind ≡ consumer_probe)
      × (0 < units_or_zero r)
      × (units_or_zero r ≤ length (raw_topics p))
      × (all_handled p ≡ true)
unfolding check_pending finish
check_answered p r now t {res} answered e won = ground (arith, answered)

check_pending_passed :
    (p : PendingProbe) (now : ℕ) (t : ProbeTracker) {res : ProbeResult}
    → (check_pending p now t).0 ≡ some res
    → res.outcome ≡ passed
    → (r : HealthReply) × (p.reply ≡ some r)
      × (res.finished_at ≤ p.deadline_at)
      × (p.kind ≡ consumer_probe)
      × (0 < units_or_zero r)
      × (units_or_zero r ≤ length (raw_topics p))
      × (all_handled p ≡ true)
unfolding check_pending finish
check_pending_passed p now t {res} e won = elim (Option-cases p.reply) [
  | inl silent ↦ ground (arith, silent)
  | inr (r, answered) ↦
      let (a, b, c, d, f) = check_answered p r now t answered e won in (r, answered, a, b, c, d, f)
]

sound_reply : (p : PendingProbe) (r : HealthReply) → p.reply ≡ some r → IsSoundProbe p → Matches p r
sound_reply p r e h = rw (sym (ap (λ o. Each (Matches p) o) e)) h

-- A success of `check` on a probe `p`, told of the probe `q` that it was before.
check-Evidence :
    (ev : Event) (t u : ProbeTracker) (q p : PendingProbe) (now : ℕ) {res : ProbeResult}
    → t.pending ≡ some q
    → u.pending ≡ some p
    → p.request_id ≡ q.request_id
    → p.deadline_at ≡ q.deadline_at
    → AddedBy ev t q p
    → IsSoundProbe p
    → (check now u).0 ≡ some res
    → res.outcome ≡ passed
    → Evidence ev t res
unfolding check
check-Evidence ev t u q p now {res} eq ep same_id same_end added h e won =
    let (r, answered, in_time, k, many, enough, handled) =
      check_pending_passed p now u {res = res} (ground (arith, ep)) won in
    let (own, fine, _, type, _) = sound_reply p r answered h in
    record {
      asked = q;
      was_pending = eq;
      probe = p;
      added = added;
      reply = r;
      answered = answered;
      own_reply = rw (sym same_id) own;
      is_ok = fine;
      in_time = rw (sym same_end) in_time;
      proof = inr (k, type, many, enough, handled);
    }

take_reply_passed :
    (p : PendingProbe) (r : HealthReply) (now : ℕ) (t : ProbeTracker) {res : ProbeResult}
    → (take_reply p r now t).0 ≡ some res
    → res.outcome ≡ passed
    → (r.result ≡ ok)
      × (((p.kind ≡ status_probe) × (res.finished_at ≡ now))
          ⊎ ((p.kind ≡ consumer_probe)
              × (0 < units_or_zero r)
              × ((check now (record t { pending = some p })).0 ≡ some res)))
unfolding take_reply finish
take_reply_passed p r now t {res} e won = ground arith

take_reply-Evidence :
    (payload : Option Value) (i : Option String) (t : ProbeTracker) (q : PendingProbe)
    (r : HealthReply) (now : ℕ) {res : ProbeResult}
    → t.pending ≡ some q
    → AddedBy (replied payload now i) t q (record q { reply = some r })
    → str_eq r.request_id q.request_id ≡ true
    → leb now q.deadline_at ≡ true
    → fits_kind q.kind r.type ≡ true
    → (take_reply (record q { reply = some r }) r now t).0 ≡ some res
    → res.outcome ≡ passed
    → Evidence (replied payload now i) t res
take_reply-Evidence payload i t q r now {res} e added own early fits h won =
    let p : PendingProbe = record q { reply = some r } in
    let (fine, how) = take_reply_passed p r now t {res = res} h won in
    elim how [
      | inl (k, at) ↦ record {
        asked = q;
        was_pending = e;
        probe = p;
        added = added;
        reply = r;
        answered = refl;
        own_reply = own;
        is_ok = fine;
        in_time = ground arith;
        proof = inl (k, ground arith);
      }
      | inr (k, many, c) ↦
          check-Evidence (replied payload now i) t (record t { pending = some p }) q p now e refl
            refl refl added (own, fine, k, ground arith, many) c won
    ]

on_reply-Evidence :
    (payload : Option Value) (now : ℕ) (i : Option String) (t : ProbeTracker) {res : ProbeResult}
    → (on_reply payload now i t).0 ≡ some res
    → res.outcome ≡ passed
    → Evidence (replied payload now i) t res
unfolding on_reply
on_reply-Evidence payload now i t {res} h won = elim (Option-cases (parse_reply payload)) [
  | inl bad ↦ ground (arith, bad)
  | inr (r, good) ↦ elim (Option-cases t.pending) [
    | inl idle ↦ ground (arith, good, idle)
    | inr (q, e) ↦
        let taken : (is_accepted q r now i ≡ true)
            × ((take_reply (record q { reply = some r }) r now t).0 ≡ some res) =
          ground (arith, good, e) in
        let (accepted, h') = taken in
        take_reply-Evidence payload i t q r now e (r, good, ground arith, ground arith, refl)
          (ground arith) (ground arith) (ground arith) h' won
  ]
]

-- What `check` after a message that may have been added comes to.
checked_Evidence :
    (ev : Event) (now : ℕ) (t : ProbeTracker) {res : ProbeResult}
    → ((p : PendingProbe) → AddedBy ev t p p)
    → IsSound t
    → (check now t).0 ≡ some res
    → res.outcome ≡ passed
    → Evidence ev t res
checked_Evidence ev now t {res} nothing h e won = elim (Option-cases t.pending) [
  | inl idle ↦ unfold check in ground (arith, idle)
  | inr (p, is_p) ↦
      check-Evidence ev t t p p now is_p is_p refl refl (nothing p) (sound_pending t p is_p h) e won
]

record_raw-Evidence :
    (topic : String) (now : ℕ) (identity : Option ℕ) (t : ProbeTracker) {res : ProbeResult}
    → IsSound t
    → (record_raw topic now identity t).0 ≡ some res
    → res.outcome ≡ passed
    → Evidence (raw_seen topic now identity) t res
unfolding record_raw
record_raw-Evidence topic now identity t {res} h e won = elim (Option-cases t.pending) [
  | inl idle ↦
      checked_Evidence (raw_seen topic now identity) now t (λ q. inl refl) h (ground (arith, idle))
        won
  | inr (p, is_p) ↦
      let q : PendingProbe = record p {
        raw_messages = add_key (message_key topic identity t) p.raw_messages;
      } in
      let u : ProbeTracker = record (spend identity t) { pending = some q } in
      elim (Bool-cases (collecting p now)) [
        | inl on ↦
            check-Evidence (raw_seen topic now identity) t u p q now is_p refl refl refl (inr refl)
              (sound_pending t p is_p h) (ground (arith, is_p, on)) won
        | inr off ↦
            checked_Evidence (raw_seen topic now identity) now t (λ q. inl refl) h
              (ground (arith, is_p, off)) won
      ]
]

record_processed-Evidence :
    (topic : String) (now : ℕ) (identity : Option ℕ) (t : ProbeTracker) {res : ProbeResult}
    → IsSound t
    → (record_processed topic now identity t).0 ≡ some res
    → res.outcome ≡ passed
    → Evidence (processed_seen topic now identity) t res
unfolding record_processed
record_processed-Evidence topic now identity t {res} h e won = elim (Option-cases t.pending) [
  | inl idle ↦
      checked_Evidence (processed_seen topic now identity) now t (λ q. inl refl) h
        (ground (arith, idle)) won
  | inr (p, is_p) ↦
      let q : PendingProbe = record p {
        processed_messages = add_key (message_key topic identity t) p.processed_messages;
      } in
      let u : ProbeTracker = record (spend identity t) { pending = some q } in
      elim (Bool-cases (collecting p now)) [
        | inl on ↦
            check-Evidence (processed_seen topic now identity) t u p q now is_p refl refl refl
              (inr refl) (sound_pending t p is_p h) (ground (arith, is_p, on)) won
        | inr off ↦
            checked_Evidence (processed_seen topic now identity) now t (λ q. inl refl) h
              (ground (arith, is_p, off)) won
      ]
]

-- A probe succeeds only on evidence: it was pending, its own reply, kept or in this step's payload, is
-- `ok`, and the success itself is no later than the deadline; a probe of the consumer further
-- needs a snapshot of at least one unit, as many distinct unit topics delivered as the bridge
-- published, and every delivered message handled.
pub step-Evidence :
    (ev : Event) (t : ProbeTracker) {res : ProbeResult}
    → IsSound t
    → (step ev t).0 ≡ some res
    → res.outcome ≡ passed
    → Evidence ev t res
unfolding step record_raw record_processed supersede finish on_reply
step-Evidence (started kind token now i) t h e won = cc
step-Evidence cancelled t h e won = cc
step-Evidence (instance_seen now i) t h e won = ground arith
step-Evidence (checked now) t h e won = checked_Evidence (checked now) now t (λ p. refl) h e won
step-Evidence (replied payload now i) t h e won = on_reply-Evidence payload now i t e won
step-Evidence (raw_seen topic now identity) t h e won =
    record_raw-Evidence topic now identity t h e won
step-Evidence (processed_seen topic now identity) t h e won =
    record_processed-Evidence topic now identity t h e won
