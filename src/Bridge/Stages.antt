-- ===== src/Bridge/Stages.antt =====
-- server.py, run_startup_stage: which attempt decides, and how long the stage takes.
use casambi_mqtt.Prelude.{
  ℕ, zero, suc, ◌+◌, ◌≤◌, ◌<◌, ◌≡◌, ◌⊎◌, refl, sym, subst, ap, ◌∙◌, Bool, true, false, not, ◌&&◌,
  Option, none, some, arith, inl, inr, Bool-cases,
}
use casambi_mqtt.Supervisor.State.{Phase}
use casambi_mqtt.Bridge.State.{BridgeHealth}
use casambi_mqtt.Bridge.Startup.{
  Category, is_transient, Error, timeout_error, Attempt, returned, raised, wedged, interrupted,
  StartupEnv, Outcome, completed, failed, cancelled, Startup, classify_startup_error, attempts_from,
  run_startup_stage, begin_attempt, note_failure, sleep, startup_backoff,
}

-- Does an attempt fail in a way after which the stage tries again?
abbrev pub is_retried : {A : Type 0} → Phase → StartupEnv A → ℕ → Bool
is_retried stage env n = elim (env.operation n) [
  | raised e ↦ not (env.cleanup_wedges n) && is_transient (classify_startup_error e stage)
  | _ ↦ false
]

-- What the stage's result is if it is this attempt's.
abbrev pub outcome_at : {A : Type 0} → Phase → StartupEnv A → ℕ → Outcome A
outcome_at stage env n = elim (env.operation n) [
  | returned a ↦ completed a
  | wedged ↦ failed (classify_startup_error timeout_error stage) true
  | interrupted ↦ cancelled
  | raised e ↦ failed (classify_startup_error e stage) (env.cleanup_wedges n)
]

-- One attempt decides: every attempt before it is retried, and it is not, or it is the last one.
pub record IsDecided {A : Type 0} (stage : Phase) (env : StartupEnv A) (left attempt n : ℕ)
    (r : Outcome A × Startup) : Type 0 where
  pub deciding : ℕ
  pub within : deciding ≤ left
  pub earlier : (j : ℕ) → j < deciding → is_retried stage env (attempt + j) ≡ true
  pub final : (is_retried stage env (attempt + deciding) ≡ false) ⊎ (deciding ≡ left)
  pub outcome : r.0 ≡ outcome_at stage env (attempt + deciding)
  pub count : r.1.attempts ≡ n + suc deciding

module _ {A : Type 0} (stage : Phase) (env : StartupEnv A) where
  decided_now :
      (left attempt n : ℕ) (r : Outcome A × Startup)
      → (is_retried stage env attempt ≡ false) ⊎ (0 ≡ left)
      → r.0 ≡ outcome_at stage env attempt
      → r.1.attempts ≡ suc n
      → IsDecided stage env left attempt n r
  decided_now left attempt n r last o c =
      let here : attempt ≡ attempt + 0 = omega arith in
      record {
        deciding = 0;
        within = omega arith;
        earlier = λ j h. ground arith;
        final = subst (λ i. (is_retried stage env i ≡ false) ⊎ (0 ≡ left)) here last;
        outcome = subst (λ i. r.0 ≡ outcome_at stage env i) here o;
        count = omega arith;
      }

  shifted :
      (attempt k : ℕ)
      → is_retried stage env attempt ≡ true
      → ((j : ℕ) → j < k → is_retried stage env (suc attempt + j) ≡ true)
      → (j : ℕ) → j < suc k
      → is_retried stage env (attempt + j) ≡ true
  shifted attempt k now later zero h =
      subst (λ i. is_retried stage env i ≡ true) (let e : attempt ≡ attempt + 0 = omega arith in e)
        now
  shifted attempt k now later (suc j) h =
      let next : suc attempt + j ≡ attempt + suc j = omega arith in
      subst (λ i. is_retried stage env i ≡ true) next (later j (omega arith))

  decided_later :
      (left attempt n : ℕ) (r : Outcome A × Startup)
      → is_retried stage env attempt ≡ true
      → IsDecided stage env left (suc attempt) (suc n) r
      → IsDecided stage env (suc left) attempt n r
  decided_later left attempt n r now d =
      let k = d.deciding in
      let next : suc attempt + k ≡ attempt + suc k = omega arith in
      let w = d.within in
      let c = d.count in
      record {
        deciding = suc k;
        within = omega arith;
        earlier = shifted attempt k now d.earlier;
        final =
            subst (λ i. (is_retried stage env i ≡ false) ⊎ (suc k ≡ suc left)) next
              (elim d.final [ inl f ↦ inl f | inr e ↦ inr (ap suc e) ]);
        outcome = subst (λ i. r.0 ≡ outcome_at stage env i) next d.outcome;
        count = omega arith;
      }

  Attempt-cases :
      (a : Attempt A)
      → ((x : A) × (a ≡ returned x))
        ⊎ (((e : Error) × (a ≡ raised e)) ⊎ ((a ≡ wedged) ⊎ (a ≡ interrupted)))
  Attempt-cases (returned x) = inl (x, refl)
  Attempt-cases (raised e) = inr (inl (e, refl))
  Attempt-cases wedged = inr (inr (inl refl))
  Attempt-cases interrupted = inr (inr (inr refl))

  -- What is left after a failure that is retried: the pause, unless it was the last attempt.
  abbrev pub paused : ℕ → ℕ → Startup → Startup
  paused left attempt s = elim left [
    | zero ↦ s
    | suc n ↦ sleep (startup_backoff attempt (env.rng attempt)) s
  ]

  module _ (left attempt : ℕ) (last : Option Category) (s : Startup) where
    abbrev begun : Startup
    begun = begin_attempt stage last (env.before attempt) s

    abbrev noted : Category → Startup
    noted c = note_failure stage c (env.after attempt) begun

    attempts_from-wedged :
        (e : Error)
        → env.operation attempt ≡ raised e
        → env.cleanup_wedges attempt ≡ true
        → attempts_from (suc left) attempt last stage env s
          ≡ (failed (classify_startup_error e stage) true, begun)
    unfolding attempts_from
    attempts_from-wedged e o w = rw (o, w, attempts_from) refl

    attempts_from-final :
        (e : Error)
        → env.operation attempt ≡ raised e
        → env.cleanup_wedges attempt ≡ false
        → is_transient (classify_startup_error e stage) ≡ false
        → attempts_from (suc left) attempt last stage env s
          ≡ (failed (classify_startup_error e stage) false, noted (classify_startup_error e stage))
    unfolding attempts_from
    attempts_from-final e o w t = rw (o, w, t, attempts_from) refl

    attempts_from-retried :
        (e : Error)
        → env.operation attempt ≡ raised e
        → env.cleanup_wedges attempt ≡ false
        → is_transient (classify_startup_error e stage) ≡ true
        → attempts_from (suc left) attempt last stage env s
          ≡ attempts_from left
              (suc attempt)
              (some (classify_startup_error e stage))
              stage
              env
              (paused left attempt (noted (classify_startup_error e stage)))
    unfolding attempts_from
    attempts_from-retried e o w t = rw (o, w, t, attempts_from) refl

    is_retried-wedged :
        (e : Error)
        → env.operation attempt ≡ raised e
        → env.cleanup_wedges attempt ≡ true
        → is_retried stage env attempt ≡ false
    is_retried-wedged e o w = rw (o, is_retried) (rw w refl)

    is_retried-clean :
        (e : Error)
        → env.operation attempt ≡ raised e
        → env.cleanup_wedges attempt ≡ false
        → is_retried stage env attempt ≡ is_transient (classify_startup_error e stage)
    is_retried-clean e o w = rw (o, is_retried) (rw w refl)

    outcome_at-raised :
        (e : Error) (b : Bool)
        → env.operation attempt ≡ raised e
        → env.cleanup_wedges attempt ≡ b
        → outcome_at stage env attempt ≡ failed (classify_startup_error e stage) b
    outcome_at-raised e b o w = rw (o, outcome_at) (rw w refl)

  -- Every attempt but a retried one decides at once.
  settled :
      (left attempt : ℕ) (last : Option Category) (s : Startup)
      → ((e : Error)
          → env.operation attempt ≡ raised e
          → env.cleanup_wedges attempt ≡ false
          → is_transient (classify_startup_error e stage) ≡ true
          → IsDecided stage env left attempt s.attempts
              (attempts_from (suc left) attempt last stage env s))
      → IsDecided stage env left attempt s.attempts
          (attempts_from (suc left) attempt last stage env s)
  unfolding attempts_from
  settled left attempt last s retry = elim (Attempt-cases (env.operation attempt)) [
    | inl (x, e) ↦
        decided_now left attempt s.attempts _ (inl (rw (e, is_retried) refl))
          (rw (e, outcome_at, attempts_from) refl) (rw (e, attempts_from) refl)
    | inr (inl (err, e)) ↦ elim (Bool-cases (env.cleanup_wedges attempt)) [
      | inl w ↦ rw (attempts_from-wedged left attempt last s err e w) (
          decided_now left attempt s.attempts _
            (inl (is_retried-wedged left attempt last s err e w))
            (sym (outcome_at-raised left attempt last s err true e w)) refl)
      | inr w ↦ elim (Bool-cases (is_transient (classify_startup_error err stage))) [
        | inl t ↦ retry err e w t
        | inr t ↦ rw (attempts_from-final left attempt last s err e w t) (
            decided_now left attempt s.attempts _
              (inl (is_retried-clean left attempt last s err e w ∙ t))
              (sym (outcome_at-raised left attempt last s err false e w)) refl)
      ]
    ]
    | inr (inr (inl e)) ↦
        decided_now left attempt s.attempts _ (inl (rw (e, is_retried) refl))
          (rw (e, outcome_at, attempts_from) refl) (rw (e, attempts_from) refl)
    | inr (inr (inr e)) ↦
        decided_now left attempt s.attempts _ (inl (rw (e, is_retried) refl))
          (rw (e, outcome_at, attempts_from) refl) (rw (e, attempts_from) refl)
  ]

  attempts_from-IsDecided :
      (left attempt : ℕ) (last : Option Category) (s : Startup)
      → IsDecided stage env left attempt s.attempts
          (attempts_from (suc left) attempt last stage env s)
  attempts_from-IsDecided zero attempt last s = settled zero attempt last s (λ e o w t.
      rw (attempts_from-retried zero attempt last s e o w t) (
        unfold attempts_from in
        decided_now zero attempt s.attempts _ (inr refl)
          (sym (outcome_at-raised zero attempt last s e false o w)) refl))
  attempts_from-IsDecided (suc left) attempt last s = settled (suc left) attempt last s (λ e o w t.
      rw (attempts_from-retried (suc left) attempt last s e o w t) (
        decided_later left attempt s.attempts _ (is_retried-clean left attempt last s e o w ∙ t)
          (attempts_from-IsDecided left (suc attempt) _ _)))

  -- A stage makes at most six attempts, and one of them decides: those before it have failed in a way
  -- that is retried, it has not, or it is the sixth; the stage's result is that attempt's.
  pub run_startup_stage-IsDecided :
      (h : BridgeHealth) → IsDecided stage env 5 0 0 (run_startup_stage stage env h)
  unfolding run_startup_stage
  run_startup_stage-IsDecided h = attempts_from-IsDecided 5 0 none _
