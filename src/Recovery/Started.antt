-- ===== src/Recovery/Started.antt =====
-- recovery.py, HealthCoordinator: what a recovery needs before a probe's result starts it.
use casambi_mqtt.Prelude.{
  ℕ, ◌≡◌, refl, sym, subst, ap, ◌∙◌, not, ◌||◌, ltb, true, false, some, if◌then◌else◌, by_test,
  by_equation,
}
use casambi_mqtt.Health.Probe.{
  ProbeKind, status_probe, consumer_probe, ProbeOutcome, passed, no_reply, bridge_failed,
  bridge_busy, delivery_incomplete, consumer_partial, consumer_stale, no_units, superseded,
  ProbeResult,
}
use casambi_mqtt.Health.Observer.{bridge_state, is_healthy}
use casambi_mqtt.Recovery.Manager.{
  Clocks, RecoveryManager, clear_streak, record_stale, request_recovery,
}
use casambi_mqtt.Recovery.Coordinator.{
  HealthCoordinator, max_gap, compute, keeps_verdict, same_flag, is_unsupported,
  update_unsupported_issue, async_update, take_proof, on_consumer_stale, on_outcome,
  on_probe_result,
}
use casambi_mqtt.Recovery.Proved.{
  IsProved, IsFree, false_is_not, of_not, record_stale-in_progress, record_stale-IsProved,
  request_recovery-IsFree, clear_streak-IsFree, clear_streak-in_progress,
}

-- What stands behind a recovery that a probe's result has started.
pub record Evidence (clocks : Clocks) (r : ProbeResult) (c : HealthCoordinator) : Type 0 where
  pub kind : r.kind ≡ consumer_probe
  pub outcome : r.outcome ≡ consumer_stale
  pub enabled : c.settings.recovery_enabled ≡ true
  pub bridge : is_healthy (bridge_state c.observer clocks.monotonic) ≡ true
  pub proved :
      IsProved c.settings.stale_confirm_seconds (max_gap c.settings) clocks.monotonic c.manager
  pub free : IsFree c.settings clocks.wall c.manager

async_update-manager : (now : ℕ) (c : HealthCoordinator) → (async_update now c).manager ≡ c.manager
unfolding async_update update_unsupported_issue
async_update-manager now c =
    let state = (compute now c).0 in
    by_test (λ (d : HealthCoordinator). d.manager ≡ c.manager)
      (same_flag (is_unsupported state) c.unsupported_issue) c
      (record c {
        unsupported_issue = some (is_unsupported state);
        has_unsupported_issue = is_unsupported state;
      })
      refl refl

-- A proof of the fault starts a recovery only as the second of two, and within the budget.
take_proof-started :
    (clocks : Clocks) (c : HealthCoordinator)
    → c.manager.in_progress ≡ false
    → (take_proof clocks c).manager.in_progress ≡ true
    → IsProved c.settings.stale_confirm_seconds (max_gap c.settings) clocks.monotonic c.manager
      × IsFree c.settings clocks.wall c.manager
unfolding take_proof
take_proof-started clocks c quiet =
    let s = c.settings in
    let m = c.manager in
    let confirm = s.stale_confirm_seconds in
    let P = λ (d : HealthCoordinator).
      d.manager.in_progress ≡ true
      → IsProved confirm (max_gap s) clocks.monotonic m × IsFree s clocks.wall m in
    let r = record_stale confirm (max_gap s) clocks.monotonic m in
    by_equation P (r.0) (record c { manager = (request_recovery s clocks.wall (r.1)).1 }) _
      (λ agreed h.
        let (proved, cleared) =
          record_stale-IsProved confirm (max_gap s) clocks.monotonic m agreed in
        let h' = subst (λ x. (request_recovery s clocks.wall x).1.in_progress ≡ true) cleared h in
        (
          proved,
          clear_streak-IsFree s clocks.wall m (
              request_recovery-IsFree s clocks.wall (clear_streak m)
                (clear_streak-in_progress m ∙ quiet) h'),
        ))
      (λ first h.
        elim (false_is_not (record_stale-in_progress confirm (max_gap s) clocks.monotonic m ∙ quiet)
          h) [ ])

on_consumer_stale-started :
    (clocks : Clocks) (c : HealthCoordinator)
    → c.manager.in_progress ≡ false
    → (on_consumer_stale clocks c).manager.in_progress ≡ true
    → (c.settings.recovery_enabled ≡ true)
      × (is_healthy (bridge_state c.observer clocks.monotonic) ≡ true)
      × IsProved c.settings.stale_confirm_seconds (max_gap c.settings) clocks.monotonic c.manager
      × IsFree c.settings clocks.wall c.manager
unfolding on_consumer_stale
on_consumer_stale-started clocks c quiet =
    let s = c.settings in
    let P = λ (d : HealthCoordinator).
      d.manager.in_progress ≡ true
      → (s.recovery_enabled ≡ true)
        × (is_healthy (bridge_state c.observer clocks.monotonic) ≡ true)
        × IsProved s.stale_confirm_seconds (max_gap s) clocks.monotonic c.manager
        × IsFree s clocks.wall c.manager in
    by_equation P (not s.recovery_enabled) c _ (λ off h. elim (false_is_not quiet h) [ ])
      (λ on.
        by_equation P (not (is_healthy (bridge_state c.observer clocks.monotonic)))
          (record c { manager = clear_streak c.manager }) (take_proof clocks c)
          (λ ill h. elim (false_is_not (clear_streak-in_progress c.manager ∙ quiet) h) [ ])
          (λ well h.
            let (proved, free) = take_proof-started clocks c quiet h in
            (of_not _ on, of_not _ well, proved, free)))

on_outcome-started :
    (outcome : ProbeOutcome) (clocks : Clocks) (c : HealthCoordinator)
    → c.manager.in_progress ≡ false
    → (on_outcome clocks outcome c).manager.in_progress ≡ true
    → (outcome ≡ consumer_stale) × ((on_consumer_stale clocks c).manager.in_progress ≡ true)
on_outcome-started consumer_stale clocks c quiet h = (refl, h)
on_outcome-started passed clocks c quiet h =
    elim (false_is_not
      (by_test (λ (m : RecoveryManager). m.in_progress ≡ false)
        (ltb 0 c.manager.stale_streak || c.manager.failed) _ _ quiet quiet)
      h) [ ]
on_outcome-started bridge_busy clocks c quiet h = elim (false_is_not quiet h) [ ]
on_outcome-started no_reply clocks c quiet h =
    elim (false_is_not (clear_streak-in_progress c.manager ∙ quiet) h) [ ]
on_outcome-started bridge_failed clocks c quiet h =
    elim (false_is_not (clear_streak-in_progress c.manager ∙ quiet) h) [ ]
on_outcome-started delivery_incomplete clocks c quiet h =
    elim (false_is_not (clear_streak-in_progress c.manager ∙ quiet) h) [ ]
on_outcome-started consumer_partial clocks c quiet h =
    elim (false_is_not (clear_streak-in_progress c.manager ∙ quiet) h) [ ]
on_outcome-started no_units clocks c quiet h =
    elim (false_is_not (clear_streak-in_progress c.manager ∙ quiet) h) [ ]
on_outcome-started superseded clocks c quiet h =
    elim (false_is_not (clear_streak-in_progress c.manager ∙ quiet) h) [ ]

by_kind :
    (P : HealthCoordinator → Type 0) (k : ProbeKind) (a b : HealthCoordinator)
    → (k ≡ status_probe → P a)
    → (k ≡ consumer_probe → P b)
    → P (elim k [ status_probe ↦ a | consumer_probe ↦ b ])
by_kind P status_probe a b ha hb = ha refl
by_kind P consumer_probe a b ha hb = hb refl

-- A probe's result starts a recovery only if it is a proof of a stale consumer, recovery is enabled and
-- the bridge healthy, a first proof stands that is neither younger than the time of confirmation nor
-- older than the greatest gap, and the latch, the budget and the cooldown let it.
pub on_probe_result-Evidence :
    (clocks : Clocks) (r : ProbeResult) (c : HealthCoordinator)
    → c.manager.in_progress ≡ false
    → (on_probe_result clocks r c).manager.in_progress ≡ true
    → Evidence clocks r c
unfolding on_probe_result
on_probe_result-Evidence clocks r c quiet h =
    let P = λ (d : HealthCoordinator). d.manager.in_progress ≡ true → Evidence clocks r c in
    let c' : HealthCoordinator = record c {
      last_consumer = if keeps_verdict r.outcome then c.last_consumer else some r;
    } in
    by_kind P r.kind c (on_outcome clocks r.outcome c') (λ e g. elim (false_is_not quiet g) [ ])
      (λ kind g.
        let (outcome, g') = on_outcome-started r.outcome clocks c' quiet g in
        let (enabled, bridge, proved, free) = on_consumer_stale-started clocks c' quiet g' in
        record {
          kind = kind;
          outcome = outcome;
          enabled = enabled;
          bridge = bridge;
          proved = proved;
          free = free;
        })
      (sym (ap (λ (m : RecoveryManager). m.in_progress) (async_update-manager clocks.monotonic _))
        ∙ h)
