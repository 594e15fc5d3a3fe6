-- ===== src/Health/Ticking.antt =====
-- custom_components/casambi_mqtt/health.py, HealthObserver: when a tick sends a probe.
use Prim.Native.String.{String}
use casambi_mqtt.Prelude.{
  ℕ, ◌+◌, ◌≤◌, ◌≡◌, ◌≢◌, ◌⊎◌, inl, inr, refl, sym, ap, ◌∙◌, Bool, true, Option, none, some, arith,
}
use casambi_mqtt.Health.Bridge.{healthy, evaluate}
use casambi_mqtt.Health.Probe.{
  ProbeKind, status_probe, consumer_probe, PendingProbe, ProbeResult, ProbeTracker, start, check,
}
use casambi_mqtt.Health.Observer.{
  HealthObserver, at_kind, interval, may_start, publish_result, schedule, start_probe, tick,
}

start_probe_inv :
    (kind : ProbeKind) (token : String) (now : ℕ) (o : HealthObserver) {p : PendingProbe}
    → (start_probe kind token now o).0 ≡ some p
    → (p.kind ≡ kind)
      × ((start_probe kind token now o).1.probes.pending ≡ some p)
      × (at_kind kind (start_probe kind token now o).1.next_due ≡ now + interval kind o.settings)
unfolding start_probe start schedule
start_probe_inv status_probe token now o {p} e = ground arith
start_probe_inv consumer_probe token now o {p} e = ground arith

-- Publishing a result leaves the bridge, the settings and the due times.
publish_keeps :
    (r : Option ProbeResult × ProbeTracker) (o : HealthObserver)
    → ((publish_result r o).bridge ≡ o.bridge)
      × ((publish_result r o).settings ≡ o.settings)
      × ((publish_result r o).next_due ≡ o.next_due)
      × ((publish_result r o).probes ≡ r.1)
unfolding publish_result
publish_keeps (none, t) o = (refl, refl, refl, refl)
publish_keeps (some r, t) o = (refl, refl, refl, refl)

-- What a tick has started, if it has.
tick_selects :
    (consumer_ready : Bool) (token : String) (now : ℕ) (o : HealthObserver) {p : PendingProbe}
    → (tick consumer_ready token now o).0 ≡ some p
    → let o' = publish_result (check now o.probes) o in
      (o'.probes.pending ≡ none)
      × (((may_start status_probe consumer_ready now o' ≡ true)
            × (tick consumer_ready token now o ≡ start_probe status_probe token now o'))
          ⊎ ((may_start consumer_probe consumer_ready now o' ≡ true)
              × (tick consumer_ready token now o ≡ start_probe consumer_probe token now o')))
unfolding tick
tick_selects consumer_ready token now o {p} e = ground arith

-- A tick that sends a probe does so only when none is pending once the old one has been checked, and
-- makes it the pending one; the next of its kind is due an interval later. A probe of the consumer is
-- sent only while the bridge is healthy and the consumer is ready.
pub tick_sends :
    (consumer_ready : Bool) (token : String) (now : ℕ) (o : HealthObserver) {p : PendingProbe}
    → (tick consumer_ready token now o).0 ≡ some p
    → let o' = (tick consumer_ready token now o).1 in
      ((check now o.probes).1.pending ≡ none)
      × (o'.probes.pending ≡ some p)
      × (at_kind p.kind o'.next_due ≡ now + interval p.kind o.settings)
      × ((p.kind ≡ status_probe)
          ⊎ ((p.kind ≡ consumer_probe)
              × (evaluate o.bridge now ≡ healthy)
              × (consumer_ready ≡ true)))
tick_sends consumer_ready token now o {p} e =
    let o' = publish_result (check now o.probes) o in
    let (idle, how) = tick_selects consumer_ready token now o e in
    let (b, s, d, t) = publish_keeps (check now o.probes) o in
    elim how [
      | inl (may, same) ↦
          let (k, held, due) =
            start_probe_inv status_probe token now o' {p = p} (sym (ap (λ x. x.0) same) ∙ e) in
          (
            sym (ap (λ x. x.pending) t) ∙ idle,
            ap (λ x. x.1.probes.pending) same ∙ held,
            cc (k, same, due, s),
            inl k,
          )
      | inr (may, same) ↦
          let (k, held, due) =
            start_probe_inv consumer_probe token now o' {p = p} (sym (ap (λ x. x.0) same) ∙ e) in
          (
            sym (ap (λ x. x.pending) t) ∙ idle,
            ap (λ x. x.1.probes.pending) same ∙ held,
            cc (k, same, due, s),
            inr (k, ground (arith, may, b), ground (arith, may)),
          )
    ]

start_probe_sends :
    (kind : ProbeKind) (token : String) (now : ℕ) (o : HealthObserver)
    → o.probes.pending ≡ none
    → (start_probe kind token now o).0 ≢ none
unfolding start_probe start
start_probe_sends kind token now o idle = ground (arith, idle)

-- A tick starves no kind: if no probe is pending once the old one has been checked and a status probe
-- is due, then the tick sends a probe.
pub tick_lively :
    (consumer_ready : Bool) (token : String) (now : ℕ) (o : HealthObserver)
    → (check now o.probes).1.pending ≡ none
    → o.next_due.of_status ≤ now
    → (tick consumer_ready token now o).0 ≢ none
unfolding tick
tick_lively consumer_ready token now o idle due =
    let o' = publish_result (check now o.probes) o in
    let (b, s, d, t) = publish_keeps (check now o.probes) o in
    let idle' : o'.probes.pending ≡ none = ap (λ x. x.pending) t ∙ idle in
    let due' : o'.next_due.of_status ≤ now = rw d due in
    let first = start_probe_sends status_probe token now o' idle' in
    let second = start_probe_sends consumer_probe token now o' idle' in
    ground (arith, idle', due', first, second)
