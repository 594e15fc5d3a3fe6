-- ===== src/Health/ProbeTests.antt =====
-- The probe tracker's and the observer's theorems at a probe of the consumer.
use casambi_mqtt.Prelude.{◌+◌, ◌≡◌, ◌≢◌, ◌⊎◌, refl, true, none, some, List, [], ◌∷◌, arith}
use casambi_mqtt.Health.Protocol.{status_dict, snapshot_dict}
use casambi_mqtt.Health.Wire.{
  parse_reply, reply_dict, status_from_dict, status_fields, combine, parse_snapshot,
}
use casambi_mqtt.Health.Bridge.{healthy, evaluate}
use casambi_mqtt.Health.Probe.{
  status_probe, consumer_probe, passed, PendingProbe, ProbeResult, ProbeTracker, new_probes, start,
  check, check_pending, finish, take_reply, on_reply, probe_for,
}
use casambi_mqtt.Health.Collect.{
  Event, started, replied, raw_seen, processed_seen, checked, step, record_raw, record_processed,
}
use casambi_mqtt.Prelude.Maybe.{Each}
use casambi_mqtt.Health.Verdicts.{Evidence}
use casambi_mqtt.Health.Sources.{Carried, Delivered, IsFrom}
use casambi_mqtt.Health.Endings.{run, run-Evidence, GoesOn, check_ends, step-GoesOn}
use casambi_mqtt.Health.Observer.{
  HealthObserver, new_observer, tick, at_kind, interval, publish_result, start_probe, schedule,
}
use casambi_mqtt.Health.Ticking.{tick_sends}
use casambi_mqtt.Health.Tests.{defaults, reply}

-- A probe of the consumer is sent, answered, and its one unit delivered.
abbrev told : List Event
told =
    started consumer_probe "ha-1" 0 none
    ∷ replied (some (reply_dict reply)) 1000 none
    ∷ raw_seen "casambi/unit" 1500 (some 5)
    ∷ []

abbrev handled : Event
handled = processed_seen "casambi/unit" 2000 (some 5)

abbrev success : ProbeResult
success = record {
  kind = consumer_probe;
  outcome = passed;
  finished_at = 2000;
  expected_units = some 1;
  raw_units = 1;
  processed_units = 1;
}

told_passes : (step handled (run told (new_probes defaults))).0 ≡ some success
unfolding run step start on_reply take_reply check check_pending finish record_raw record_processed
    parse_reply reply_dict status_dict snapshot_dict status_from_dict status_fields combine
    parse_snapshot
told_passes = refl

run-Evidence_example :
    let t = run told (new_probes defaults) in
    Evidence handled t success × Each (IsFrom (Carried told) (Delivered told)) t.pending
run-Evidence_example = run-Evidence defaults told handled told_passes refl

abbrev asked : PendingProbe
asked = probe_for status_probe "ha-2" none 0 (new_probes defaults)

abbrev waiting : ProbeTracker
waiting = record (new_probes defaults) { pending = some asked }

check_ends_example : ((check 20001 waiting).0 ≢ none) × ((check 20001 waiting).1.pending ≡ none)
check_ends_example = check_ends 20001 waiting asked refl (omega arith)

step-GoesOn_example : GoesOn asked (step (checked 5000) waiting)
step-GoesOn_example = step-GoesOn (checked 5000) waiting asked refl (λ e. cc e)

abbrev observer : HealthObserver
observer = new_observer defaults "casambi/" 0

abbrev sent : PendingProbe
sent = probe_for status_probe "ha-3" none 90000 (new_probes defaults)

observer_sends : (tick true "ha-3" 90000 observer).0 ≡ some sent
unfolding tick publish_result start_probe schedule start check
observer_sends = refl

tick_sends_example :
    let o' = (tick true "ha-3" 90000 observer).1 in
    ((check 90000 observer.probes).1.pending ≡ none)
    × (o'.probes.pending ≡ some sent)
    × (at_kind status_probe o'.next_due ≡ 90000 + interval status_probe defaults)
    × ((status_probe ≡ status_probe)
        ⊎ ((status_probe ≡ consumer_probe)
            × (evaluate observer.bridge 90000 ≡ healthy)
            × (true ≡ true)))
tick_sends_example = tick_sends true "ha-3" 90000 observer observer_sends

observer_idle : (check 90000 observer.probes).1.pending ≡ none
unfolding check
observer_idle = refl
