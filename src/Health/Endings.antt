-- ===== src/Health/Endings.antt =====
-- custom_components/casambi_mqtt/health.py, ProbeTracker: one probe at a time, none is lost, each ends
-- by its deadline; and successes over whole runs.
use Prim.Native.String.{String}
use casambi_mqtt.Prelude.{
  ℕ, ◌<◌, ◌≡◌, ◌≢◌, ◌⊎◌, inl, inr, refl, Option, none, some, List, [], ◌∷◌, arith, Option-cases,
}
use casambi_mqtt.Prelude.Maybe.{Each}
use casambi_mqtt.Json.{Value}
use casambi_mqtt.Health.Protocol.{HealthReply}
use casambi_mqtt.Health.Wire.{parse_reply}
use casambi_mqtt.Health.Bridge.{HealthSettings}
use casambi_mqtt.Health.Probe.{
  passed, PendingProbe, ProbeResult, ProbeTracker, new_probes, message_key, add_key, finish, start,
  check, check_pending, take_reply, on_reply,
}
use casambi_mqtt.Health.Collect.{
  spend, record_raw, record_processed, supersede, Event, started, replied, raw_seen, processed_seen,
  instance_seen, checked, cancelled, step,
}
use casambi_mqtt.Health.Verdicts.{IsSound, step-IsSound, Evidence}
use casambi_mqtt.Health.Sources.{Carried, Delivered, IsFrom, AllFrom, step-AllFrom}
use casambi_mqtt.Health.Successes.{step-Evidence}

-- The tracker after some events.
unfoldable pub run : List Event → ProbeTracker → ProbeTracker
run [] t = t
run (e ∷ es) t = run es (step e t).1

run-IsSound : (es : List Event) (t : ProbeTracker) → IsSound t → IsSound (run es t)
unfolding run
run-IsSound [] t h = h
run-IsSound (e ∷ es) t h = run-IsSound es (step e t).1 (step-IsSound e t h)

run-AllFrom :
    (P : HealthReply → Type 0) (D : String → Type 0) (es : List Event) (t : ProbeTracker)
    → ((r : HealthReply) → Carried es r → P r)
    → ((u : String) → Delivered es u → D u)
    → AllFrom P D t
    → AllFrom P D (run es t)
unfolding run
run-AllFrom P D [] t f g h = h
run-AllFrom P D (e ∷ es) t f g h =
    run-AllFrom P D es (step e t).1 (λ r c. f r (inr c)) (λ u c. g u (inr c))
      (step-AllFrom P D e t (λ r c. f r (inl c)) (λ u c. g u (inl c)) h)

-- However a new tracker is used, a probe that succeeds in the next step succeeds on evidence: it was
-- pending, its own reply, kept from before or parsed from the step's payload, is `ok`, and the success
-- is no later than its deadline; a probe of the consumer further needs a snapshot reply with at least
-- one unit, at least as many distinct topics among its delivered messages as that reply counts units,
-- and every one of these messages among the handled ones. The messages are those that were pending and
-- at most the one that the step tells of; the reply that was kept is one that an earlier event carried,
-- and the topics delivered before are ones that earlier events told of.
pub run-Evidence :
    (settings : HealthSettings) (es : List Event) (e : Event) {res : ProbeResult}
    → (step e (run es (new_probes settings))).0 ≡ some res
    → res.outcome ≡ passed
    → let t = run es (new_probes settings) in
      Evidence e t res × Each (IsFrom (Carried es) (Delivered es)) t.pending
run-Evidence settings es e h won =
    let fresh = new_probes settings in
    (
      step-Evidence e (run es fresh) (run-IsSound es fresh tt) h won,
      run-AllFrom (Carried es) (Delivered es) es fresh (λ r c. c) (λ u c. c) tt,
    )

-- The same request with the same deadline.
abbrev pub SameProbe : PendingProbe → PendingProbe → Type 0
SameProbe p q = (q.request_id ≡ p.request_id) × (q.deadline_at ≡ p.deadline_at) × (q.kind ≡ p.kind)

-- The probe ends with a result, or it goes on.
abbrev pub GoesOn : PendingProbe → Option ProbeResult × ProbeTracker → Type 0
GoesOn p r =
    ((r.0 ≢ none) × (r.1.pending ≡ none))
    ⊎ ((r.0 ≡ none) × (r.1.pending ≢ none) × Each (SameProbe p) r.1.pending)

check-GoesOn :
    (now : ℕ) (t : ProbeTracker) (p : PendingProbe) → t.pending ≡ some p → GoesOn p (check now t)
unfolding check check_pending finish
check-GoesOn now t p e = ground (arith, e)

-- Once the deadline has passed, a check ends the pending probe with a result.
pub check_ends :
    (now : ℕ) (t : ProbeTracker) (p : PendingProbe)
    → t.pending ≡ some p
    → p.deadline_at < now
    → ((check now t).0 ≢ none) × ((check now t).1.pending ≡ none)
unfolding check check_pending finish
check_ends now t p e late = ground (arith, e)

-- The probe that the tracker then holds stands in for `p`.
stands_in :
    (now : ℕ) (t : ProbeTracker) (p q : PendingProbe)
    → t.pending ≡ some q
    → SameProbe p q
    → GoesOn p (check now t)
unfolding check check_pending finish
stands_in now t p q e same = ground (arith, e, same)

take_reply-GoesOn :
    (p q : PendingProbe) (r : HealthReply) (now : ℕ) (t : ProbeTracker)
    → SameProbe p q
    → GoesOn p (take_reply q r now t)
unfolding take_reply finish
take_reply-GoesOn p q r now t same =
    ground (arith, same, stands_in now (record t { pending = some q }) p q refl same)

on_reply-GoesOn :
    (payload : Option Value) (now : ℕ) (i : Option String) (t : ProbeTracker) (p : PendingProbe)
    → t.pending ≡ some p
    → GoesOn p (on_reply payload now i t)
unfolding on_reply
on_reply-GoesOn payload now i t p e = elim (Option-cases (parse_reply payload)) [
  | inl bad ↦ ground (arith, bad, e)
  | inr (r, good) ↦
      ground (
        arith,
        good,
        e,
        take_reply-GoesOn p (record p { reply = some r }) r now t (refl, refl, refl),
      )
]

record_raw-GoesOn :
    (topic : String) (now : ℕ) (identity : Option ℕ) (t : ProbeTracker) (p : PendingProbe)
    → t.pending ≡ some p
    → GoesOn p (record_raw topic now identity t)
unfolding record_raw
record_raw-GoesOn topic now identity t p e =
    let q : PendingProbe = record p {
      raw_messages = add_key (message_key topic identity t) p.raw_messages;
    } in
    let u : ProbeTracker = record (spend identity t) { pending = some q } in
    ground (arith, e, check-GoesOn now t p e, stands_in now u p q refl (refl, refl, refl))

record_processed-GoesOn :
    (topic : String) (now : ℕ) (identity : Option ℕ) (t : ProbeTracker) (p : PendingProbe)
    → t.pending ≡ some p
    → GoesOn p (record_processed topic now identity t)
unfolding record_processed
record_processed-GoesOn topic now identity t p e =
    let q : PendingProbe = record p {
      processed_messages = add_key (message_key topic identity t) p.processed_messages;
    } in
    let u : ProbeTracker = record (spend identity t) { pending = some q } in
    ground (arith, e, check-GoesOn now t p e, stands_in now u p q refl (refl, refl, refl))

-- While a probe is pending, every step but a cancellation ends it with a result or leaves the same
-- request pending with the same deadline and kind: no step replaces a probe, drops it silently, or
-- gives it more time.
pub step-GoesOn :
    (e : Event) (t : ProbeTracker) (p : PendingProbe)
    → t.pending ≡ some p
    → e ≢ cancelled
    → GoesOn p (step e t)
unfolding step start supersede finish
step-GoesOn (started kind token now i) t p e n = ground (arith, e)
step-GoesOn (replied payload now i) t p e n = on_reply-GoesOn payload now i t p e
step-GoesOn (raw_seen topic now identity) t p e n = record_raw-GoesOn topic now identity t p e
step-GoesOn (processed_seen topic now identity) t p e n =
    record_processed-GoesOn topic now identity t p e
step-GoesOn (instance_seen now i) t p e n = ground (arith, e)
step-GoesOn (checked now) t p e n = check-GoesOn now t p e
step-GoesOn cancelled t p e n = absurd (n refl)
