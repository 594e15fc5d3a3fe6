-- ===== src/Recovery/Proved.antt =====
-- recovery.py, RecoveryManager: what two agreeing proofs and a started recovery need.
use casambi_mqtt.Prelude.{
  ℕ, suc, ◌+◌, ◌≤◌, ◌<◌, ◌≡◌, ◌≢◌, refl, sym, not, ◌||◌, ◌==◌, ltb, leb, Bool, true, false, some,
  arith, length, by_test, by_equation, by_option,
}
use casambi_mqtt.Supervisor.Clock.{seconds}
use casambi_mqtt.Health.Bridge.{HealthSettings}
use casambi_mqtt.Recovery.Manager.{
  max_reloads_per_window, created, RecoveryManager, recent_reloads, clear_streak, start_streak,
  is_cooling, record_stale, Answer, already_in_progress, recovery_failed, budget_exhausted,
  cooldown, started, request_recovery,
}

-- A first proof of the fault stands, neither too young nor too old.
pub record IsProved (confirm gap now : ℕ) (m : RecoveryManager) : Type 0 where
  first : ℕ
  pub stands : m.last_stale_at ≡ some first
  pub streak : (m.stale_streak == 0) ≡ false
  pub confirmed : first + seconds confirm ≤ now
  pub recent : now ≤ first + seconds gap

pub record IsFree (s : HealthSettings) (now : ℕ) (m : RecoveryManager) : Type 0 where
  pub unlatched : m.failed ≡ false
  pub budget : length (recent_reloads now m) < max_reloads_per_window
  pub cool : is_cooling s.recovery_cooldown_seconds now (recent_reloads now m) ≡ false

pub false_is_not : {b : Bool} → b ≡ false → b ≢ true
false_is_not e = λ h. cc

pub of_not : (b : Bool) → not b ≡ false → b ≡ true
of_not true h = refl
of_not false h = sym h

no_streak : (a b : Bool) → a || b ≡ false → a ≡ false
no_streak false b h = refl
no_streak true b h = h

not_later : (a : Bool) (t now : ℕ) → a || ltb t now ≡ false → now ≤ t
not_later false t now h = ground arith
not_later true t now h = elim (false_is_not h refl) [ ]

pub record_stale-in_progress :
    (confirm gap now : ℕ) (m : RecoveryManager)
    → (record_stale confirm gap now m).1.in_progress ≡ m.in_progress
unfolding record_stale clear_streak
record_stale-in_progress confirm gap now m =
    let P = λ (r : Bool × RecoveryManager). r.1.in_progress ≡ m.in_progress in
    let begin : Bool × RecoveryManager = (false, start_streak now m) in
    by_option P m.last_stale_at begin _ (λ e. refl)
      (λ t e.
        by_test P (m.stale_streak == 0 || ltb (t + seconds gap) now) begin _ refl
          (by_test P (ltb now (t + seconds confirm)) (false, m) (true, clear_streak m) refl refl))

-- Two proofs agree only with a first one that stands, and then the streak is cleared.
pub record_stale-IsProved :
    (confirm gap now : ℕ) (m : RecoveryManager)
    → (record_stale confirm gap now m).0 ≡ true
    → IsProved confirm gap now m × ((record_stale confirm gap now m).1 ≡ clear_streak m)
unfolding record_stale
record_stale-IsProved confirm gap now m =
    let P = λ (r : Bool × RecoveryManager).
      r.0 ≡ true → IsProved confirm gap now m × (r.1 ≡ clear_streak m) in
    let begin : Bool × RecoveryManager = (false, start_streak now m) in
    by_option P m.last_stale_at begin _ (λ e h. elim (false_is_not refl h) [ ])
      (λ t e.
        by_equation P (m.stale_streak == 0 || ltb (t + seconds gap) now) begin _
          (λ old h. elim (false_is_not refl h) [ ])
          (λ young.
            by_equation P (ltb now (t + seconds confirm)) (false, m) (true, clear_streak m)
              (λ soon h. elim (false_is_not refl h) [ ])
              (λ late h. (
                record {
                  first = t;
                  stands = e;
                  streak = no_streak (m.stale_streak == 0) _ young;
                  confirmed = ground arith;
                  recent = not_later _ (t + seconds gap) now young;
                },
                refl,
              ))))

pub request_recovery-IsFree :
    (s : HealthSettings) (now : ℕ) (m : RecoveryManager)
    → m.in_progress ≡ false
    → (request_recovery s now m).1.in_progress ≡ true
    → IsFree s now m
unfolding request_recovery
request_recovery-IsFree s now m quiet =
    let P = λ (r : Answer × RecoveryManager). r.1.in_progress ≡ true → IsFree s now m in
    let recent = recent_reloads now m in
    by_test P m.in_progress (already_in_progress, m) _ (λ h. elim (false_is_not quiet h) [ ])
      (by_equation P m.failed (recovery_failed, m) _ (λ e h. elim (false_is_not quiet h) [ ])
        (λ unlatched.
          by_equation P (leb max_reloads_per_window (length recent))
            (budget_exhausted, record m { latches = suc m.latches }) _
            (λ full h. elim (false_is_not quiet h) [ ])
            (λ free.
              by_equation P (is_cooling s.recovery_cooldown_seconds now recent) (cooldown, m)
                (
                  started,
                  record m { in_progress = true; last_result = "recovering"; task = created },
                )
                (λ e h. elim (false_is_not quiet h) [ ])
                (λ cool h. record { unlatched = unlatched; budget = ground arith; cool = cool }))))

pub clear_streak-IsFree :
    (s : HealthSettings) (now : ℕ) (m : RecoveryManager)
    → IsFree s now (clear_streak m)
    → IsFree s now m
unfolding clear_streak recent_reloads
clear_streak-IsFree s now m f = record { unlatched = f.unlatched; budget = f.budget; cool = f.cool }

pub clear_streak-in_progress : (m : RecoveryManager) → (clear_streak m).in_progress ≡ m.in_progress
unfolding clear_streak
clear_streak-in_progress m = refl
