-- ===== src/Recovery/Budget.antt =====
-- recovery.py: the reload budget, whatever interleaves. A run may start from what `async_load` restored.
use casambi_mqtt.Prelude.{
  ℕ, suc, ◌+◌, ◌≤◌, ◌≡◌, refl, sym, ap, ◌∙◌, leb, Bool, true, false, List, [], ◌∷◌, ◌++◌, arith,
  if◌then◌else◌, by_test, by_equation, length, length-append, keep-append, keep_narrower, keep-keep,
  length-keep, append_assoc, append-nil,
}
use casambi_mqtt.Health.Bridge.{HealthSettings}
use casambi_mqtt.Recovery.Manager.{
  max_reloads_per_window, Clocks, Task, no_task, created, charging, reloading, verifying,
  succeeding, unverified, latching, RecoveryManager, in_window, within, recent_reloads,
  clear_streak, is_cooling, Answer, already_in_progress, recovery_failed, budget_exhausted,
  cooldown, started, request_recovery,
}
use casambi_mqtt.Recovery.Task.{charge, begin_recovery}
use casambi_mqtt.Recovery.Events.{
  Event, stale_proved, requested, begun, save_ended, reload_ended, polled, latch_begun, latch_ended,
  streak_cleared, succeeded, mark_begun, mark_ended, acknowledged, acknowledge_ended, step, run,
  charges_now, charges, Forward, end_time,
}
use casambi_mqtt.Recovery.Frame.{
  owed, paid, Frame, record_stale-Frame, end_save-Frame, end_reload-Frame, poll-Frame,
  begin_latch-Frame, end_latch-Frame, begin_mark-Frame, end_mark_healthy-Frame,
  end_acknowledge-Frame, clear_streak-Frame, acknowledge-Frame, mark-Frame,
}

in_window_later :
    (now later t : ℕ) → now ≤ later → in_window later t ≡ true → in_window now t ≡ true
in_window_later now later t le h = ground arith

in_window_now : (now : ℕ) → in_window now now ≡ true
in_window_now now = ground arith

within_later :
    (now later : ℕ) (ts : List ℕ) → now ≤ later → within later (within now ts) ≡ within later ts
within_later now later ts le =
    keep_narrower (in_window now) (in_window later) ts (λ t. in_window_later now later t le)

within_shorter :
    (now later : ℕ) (ts : List ℕ) → now ≤ later → length (within later ts) ≤ length (within now ts)
within_shorter now later ts le =
    rw (sym (within_later now later ts le)) (length-keep (in_window later) (within now ts))

-- With `history` the times of all charges; the first `base` of them were made when the reload calls
-- were `calls`.
record IsBudgeted (calls base now : ℕ) (history : List ℕ) (m : RecoveryManager) : Type 0 where
  kept : within now history ≡ within now m.reloads
  budget : length (within now m.reloads) + owed m.task ≤ 2
  counted : m.hass.reload_calls + paid m.task + base ≤ calls + length history

under_budget : (k : ℕ) → leb max_reloads_per_window k ≡ false → k + 1 ≤ 2
under_budget k h = ground arith

module _ (n base : ℕ) where
  later-IsBudgeted :
      (now later : ℕ) (history : List ℕ) (m : RecoveryManager)
      → now ≤ later
      → IsBudgeted n base now history m
      → IsBudgeted n base later history m
  later-IsBudgeted now later history m le b = record {
    kept =
        sym (within_later now later history le) ∙ rw (b.kept) (within_later now later m.reloads le);
    budget = let s = within_shorter now later m.reloads le in let u = b.budget in omega arith;
    counted = b.counted;
  }

  Frame-IsBudgeted :
      (now : ℕ) (history : List ℕ) (m m' : RecoveryManager)
      → Frame m m'
      → IsBudgeted n base now history m
      → IsBudgeted n base now history m'
  Frame-IsBudgeted now history m m' f b =
      let u = b.budget in
      let v = f.owes in
      let w = f.calls in
      let k = b.counted in
      record {
        kept = rw (f.reloads) (b.kept);
        budget = rw (f.reloads) (omega arith);
        counted = omega arith;
      }

  request_recovery-IsBudgeted :
      (s : HealthSettings) (now : ℕ) (history : List ℕ) (m : RecoveryManager)
      → IsBudgeted n base now history m
      → IsBudgeted n base now history (request_recovery s now m).1
  unfolding request_recovery recent_reloads
  request_recovery-IsBudgeted s now history m b =
      let P = λ (r : Answer × RecoveryManager). IsBudgeted n base now history (r.1) in
      let recent = recent_reloads now m in
      by_test P m.in_progress (already_in_progress, m) _ b
        (by_test P m.failed (recovery_failed, m) _ b
          (by_equation P (leb max_reloads_per_window (length recent))
            (budget_exhausted, record m { latches = suc m.latches }) _
            (λ full. record { kept = b.kept; budget = b.budget; counted = b.counted })
            (λ free.
              by_test P (is_cooling s.recovery_cooldown_seconds now recent) (cooldown, m)
                (
                  started,
                  record m { in_progress = true; last_result = "recovering"; task = created },
                )
                b
                (record {
                  kept = b.kept;
                  budget = under_budget (length recent) free;
                  counted = let k = b.counted in omega arith;
                }))))

  charge-IsBudgeted :
      (now : ℕ) (history : List ℕ) (m : RecoveryManager)
      → m.task ≡ created
      → IsBudgeted n base now history m
      → IsBudgeted n base now (history ++ (now ∷ [])) (charge now m)
  unfolding charge recent_reloads clear_streak
  charge-IsBudgeted now history m e b =
      let this = now ∷ [] in
      let again : within now (within now m.reloads ++ this)
          ≡ within now m.reloads ++ within now this =
        keep-append (in_window now) (within now m.reloads) this
        ∙ ap (λ ts. ts ++ within now this) (keep-keep (in_window now) m.reloads) in
      let one : length (within now this) ≤ 1 = length-keep (in_window now) this in
      let owes : owed m.task ≡ 1 = rw e refl in
      let u = b.budget in
      let k = b.counted in
      record {
        kept = keep-append (in_window now) history this ∙ rw (b.kept) (sym again);
        budget = rw again (omega (arith, length-append (within now m.reloads) (within now this)));
        counted = omega (arith, length-append history this);
      }

  begin_place :
      (t : Task) (now : ℕ) (history : List ℕ) (m a : RecoveryManager)
      → (t ≡ created → IsBudgeted n base now (history ++ (now ∷ [])) a)
      → IsBudgeted n base now history m
      → IsBudgeted n base now
          (if charges_now begun t then history ++ (now ∷ []) else history)
          (elim t [ created ↦ a | _ ↦ m ])
  begin_place no_task now history m a begin still = still
  begin_place created now history m a begin still = begin refl
  begin_place (charging v) now history m a begin still = still
  begin_place (reloading ts) now history m a begin still = still
  begin_place (verifying ts d l) now history m a begin still = still
  begin_place (succeeding v) now history m a begin still = still
  begin_place (unverified v) now history m a begin still = still
  begin_place (latching handler v) now history m a begin still = still

  step-IsBudgeted :
      (s : HealthSettings) (c : Clocks) (e : Event) (history : List ℕ) (m : RecoveryManager)
      → IsBudgeted n base c.wall history m
      → IsBudgeted n base c.wall
          (if charges_now e m.task then history ++ (c.wall ∷ []) else history)
          (step s c e m)
  unfolding step begin_recovery
  step-IsBudgeted s c (stale_proved confirm gap) h m b =
      Frame-IsBudgeted c.wall h m _ (record_stale-Frame confirm gap c.monotonic m) b
  step-IsBudgeted s c requested h m b = request_recovery-IsBudgeted s c.wall h m b
  step-IsBudgeted s c begun h m b =
      begin_place m.task c.wall h m (charge c.wall m) (λ e. charge-IsBudgeted c.wall h m e b) b
  step-IsBudgeted s c (save_ended stored targets) h m b =
      Frame-IsBudgeted c.wall h m _ (end_save-Frame stored targets m) b
  step-IsBudgeted s c (reload_ended result) h m b =
      Frame-IsBudgeted c.wall h m _ (end_reload-Frame s result c.monotonic m) b
  step-IsBudgeted s c (polled p) h m b = Frame-IsBudgeted c.wall h m _ (poll-Frame p c m) b
  step-IsBudgeted s c latch_begun h m b = Frame-IsBudgeted c.wall h m _ (begin_latch-Frame m) b
  step-IsBudgeted s c (latch_ended stored) h m b =
      Frame-IsBudgeted c.wall h m _ (end_latch-Frame stored m) b
  step-IsBudgeted s c streak_cleared h m b = Frame-IsBudgeted c.wall h m _ (clear_streak-Frame m) b
  step-IsBudgeted s c succeeded h m b = Frame-IsBudgeted c.wall h m _ (mark-Frame m) b
  step-IsBudgeted s c mark_begun h m b = Frame-IsBudgeted c.wall h m _ (begin_mark-Frame c.utc m) b
  step-IsBudgeted s c (mark_ended stored) h m b =
      Frame-IsBudgeted c.wall h m _ (end_mark_healthy-Frame stored m) b
  step-IsBudgeted s c acknowledged h m b = Frame-IsBudgeted c.wall h m _ (acknowledge-Frame m) b
  step-IsBudgeted s c (acknowledge_ended stored) h m b =
      Frame-IsBudgeted c.wall h m _ (end_acknowledge-Frame stored m) b

  history_grows :
      (t : Bool) (now : ℕ) (history rest : List ℕ)
      → (if t then history ++ (now ∷ []) else history) ++ rest
        ≡ history ++ (if t then now ∷ rest else rest)
  history_grows true now history rest = append_assoc history (now ∷ []) rest
  history_grows false now history rest = refl

  run-IsBudgeted :
      (s : HealthSettings) (es : List (Clocks × Event)) (now : ℕ) (history : List ℕ)
      (m : RecoveryManager)
      → Forward now es
      → IsBudgeted n base now history m
      → IsBudgeted n base (end_time now es) (history ++ charges s es m) (run s es m)
  unfolding run charges
  run-IsBudgeted s [] now history m f b = rw (append-nil history) b
  run-IsBudgeted s ((c, e) ∷ es) now history m f b =
      let b' = step-IsBudgeted s c e history m (later-IsBudgeted now c.wall history m f.0 b) in
      rw (sym (history_grows (charges_now e m.task) c.wall history (charges s es (step s c e m))))
        (run-IsBudgeted s es c.wall _ (step s c e m) f.1 b')

-- From a state with at most two charges in the window and no recovery under way: while the wall clock
-- does not go back, however requests, proofs, saves, reloads, polls and acknowledgements interleave, at
-- most two charges, older ones included, lie in the last 30 minutes, and each reload has its own charge.
pub run_budget :
    (s : HealthSettings) (es : List (Clocks × Event)) (now : ℕ) (m : RecoveryManager)
    → length (within now m.reloads) ≤ 2
    → m.task ≡ no_task
    → Forward now es
    → (length (within (end_time now es) (m.reloads ++ charges s es m)) ≤ 2)
      × ((run s es m).hass.reload_calls ≤ m.hass.reload_calls + length (charges s es m))
run_budget s es now m few idle f =
    let calls = m.hass.reload_calls in
    let base = length m.reloads in
    let nothing_owed : owed m.task ≡ 0 = rw idle refl in
    let nothing_paid : paid m.task ≡ 0 = rw idle refl in
    let start : IsBudgeted calls base now m.reloads m = record {
      kept = refl;
      budget = omega arith;
      counted = omega arith;
    } in
    let b = run-IsBudgeted calls base s es now m.reloads m f start in
    let u = b.budget in
    let k = b.counted in
    (rw (b.kept) (omega arith), omega (arith, length-append m.reloads (charges s es m)))
