-- ===== src/Supervisor/Restarted.antt =====
-- The `try`, `except` and `finally` of recover: what it latches, and that it starts the bridge again.
use Prim.Native.String.{String}
use casambi_mqtt.Prelude.{
  ◌≡◌, ◌⊎◌, inl, refl, Bool, true, false, Option, none, some, List, [], ◌∷◌, arith,
}
use text.Mathlib.TextPositions.{eq_refl}
use casambi_mqtt.Supervisor.State.{Settings, State, RecordView}
use casambi_mqtt.Supervisor.Machine.{
  Env, Machine, Effect, command, saved, done, Verb, stop, start, restart, bluetooth_unit, Poll,
  action, save, wait_until, recovered,
}
use casambi_mqtt.Supervisor.Recover.{
  Attempt, went_on, gave_up, charge, fail, verify, recover_end, recover, instance_of, Step, ◌>>=◌,
  after, order, await, drop_exits, clear_start_limit, reset_bluetooth, reset_when_stopped,
  bridge_stopped, bluetooth_active,
}
use casambi_mqtt.Supervisor.Effects.{wait_until-Quiet, recovered-Quiet}

-- The last command given to systemd.
abbrev pub newest_command : List Effect → Option (Verb × String)
newest_command [] = none
newest_command (command verb unit ∷ t) = some (verb, unit)
newest_command (saved s ∷ t) = newest_command t

module _ {W : Type 0} (env : Env W) (cfg : Settings) where
  abbrev pub Started : Machine W → Type 0
  Started m = newest_command m.trace ≡ some (start, cfg.bridge_unit)

  -- A step of the `try` block behind the stop: it gives up with the bridge stopped.
  record Behind {A : Type 0} (f : Step env cfg A) : Type 0 where
    flagged : (m : Machine W) {reason : String} {b : Bool} → (f m).0 ≡ gave_up reason b → b ≡ true

  -- And if it goes on, the bridge has been started last.
  record Ends {A : Type 0} (f : Step env cfg A) : Type 0 where
    behind : Behind f
    started : (m : Machine W) {a : A} → (f m).0 ≡ went_on a → Started (f m).1

  action-allowed :
      (verb : Verb) (unit : String) (m : Machine W)
      → (action env cfg verb unit m).0 ≡ done
      → (action env cfg verb unit m).1.trace ≡ command verb unit ∷ m.trace
  unfolding action
  action-allowed verb unit m e = ground arith

  order-Behind : (verb : Verb) (unit : String) → Behind (order env cfg true verb unit)
  order-Behind verb unit = record { flagged = λ m e. ground arith }

  await-Behind : (p : Poll env cfg) (reason : String) → Behind (await env cfg p reason)
  await-Behind p reason = record { flagged = λ m e. ground arith }

  drop_exits-Behind : Behind (drop_exits env cfg)
  drop_exits-Behind = record { flagged = λ m e. cc }

  clear_start_limit-Behind : Behind (clear_start_limit env cfg)
  clear_start_limit-Behind = record { flagged = λ m e. ground arith }

  order-Ends : Ends (order env cfg true start cfg.bridge_unit)
  order-Ends = record {
    behind = order-Behind start cfg.bridge_unit;
    started = λ m e. ground (arith, action-allowed start cfg.bridge_unit m);
  }

  -- What `after` hands on, for a first part that ended in `r`.
  after_flagged :
      {A B : Type 0} (r : Attempt A) (g : A → Step env cfg B) (m : Machine W)
      → ((reason : String) (b : Bool) → r ≡ gave_up reason b → b ≡ true)
      → ((a : A) → Behind (g a))
      → {reason : String} {b : Bool} → (after env cfg r g m).0 ≡ gave_up reason b
      → b ≡ true
  after_flagged (went_on a) g m f h e = (h a).flagged m e
  after_flagged (gave_up reason b) g m f h {reason = r'} {b = b'} e =
      ground (arith, f reason b refl)

  bind-Behind :
      {A B : Type 0} (f : Step env cfg A) (g : A → Step env cfg B)
      → Behind f
      → ((a : A) → Behind (g a))
      → Behind (◌>>=◌ env cfg f g)
  bind-Behind f g hf hg = record {
    flagged = λ m e. after_flagged (f m).0 g (f m).1 (λ r b p. hf.flagged m p) hg e;
  }

  after-Started :
      {A B : Type 0} (r : Attempt A) (g : A → Step env cfg B) (m : Machine W)
      → ((a : A) → Ends (g a))
      → {b : B} → (after env cfg r g m).0 ≡ went_on b
      → Started (after env cfg r g m).1
  after-Started (went_on a) g m h e = (h a).started m e
  after-Started (gave_up reason stopped) g m h e = cc

  bind-Ends :
      {A B : Type 0} (f : Step env cfg A) (g : A → Step env cfg B)
      → Behind f
      → ((a : A) → Ends (g a))
      → Ends (◌>>=◌ env cfg f g)
  bind-Ends f g hf hg = record {
    behind = bind-Behind f g hf (λ a. (hg a).behind);
    started = λ m e. after-Started (f m).0 g (f m).1 hg e;
  }

  reset_when_stopped-Ends : Ends (reset_when_stopped env cfg)
  unfolding reset_when_stopped
  reset_when_stopped-Ends =
      bind-Ends _ _ (await-Behind (bridge_stopped env cfg) "bridge_stop_timeout") λ _.
        bind-Ends _ _ drop_exits-Behind λ _.
          bind-Ends _ _ (order-Behind restart bluetooth_unit) λ _.
            bind-Ends _ _ (await-Behind (bluetooth_active env cfg) "bluetooth_restart_timeout")
              λ _. bind-Ends _ _ clear_start_limit-Behind λ _. order-Ends

  action-bridge :
      (verb : Verb) (m : Machine W)
      → newest_command (action env cfg verb cfg.bridge_unit m).1.trace
        ≡ some (verb, cfg.bridge_unit)
  unfolding action
  action-bridge verb m = ground (arith, eq_refl cfg.bridge_unit)

  save-Started : (s : State) (m : Machine W) → Started m → Started (save env cfg s m)
  unfolding save
  save-Started s m h = h

  verify-Started :
      (previous : Option String) (s : State) (m : Machine W)
      → Started m
      → Started (verify env cfg previous s m).2
  unfolding verify fail save
  verify-Started previous s m h =
      let m1 = (wait_until env cfg (recovered env cfg previous) cfg.verify_seconds m).1 in
      let q =
        wait_until-Quiet env cfg (recovered env cfg previous) cfg.verify_seconds m
          (recovered-Quiet env cfg previous) in
      let h1 : Started m1 = rw q.same_trace h in ground (arith, h1)

  recover_end-Started :
      (r : Attempt (Unit {0})) (previous : Option String) (s : State) (m : Machine W)
      → ((a : Unit {0}) → r ≡ went_on a → Started m)
      → ((reason : String) (b : Bool) → r ≡ gave_up reason b → b ≡ true)
      → Started (recover_end env cfg r previous s m).2
  recover_end-Started (went_on a) previous s m h f = verify-Started previous s m (h a refl)
  recover_end-Started (gave_up reason true) previous s m h f = action-bridge start _
  recover_end-Started (gave_up reason false) previous s m h f = cc (f reason false refl)

  -- Once systemd has stopped the bridge for a recovery, the last command that the recovery gives,
  -- however it goes on, is to start the bridge.
  pub recover-Started :
      (s : State) (previous : Option RecordView) (m : Machine W)
      → (action env cfg stop cfg.bridge_unit (save env cfg (charge (env.clock m.world) s) m)).0
        ≡ done
      → Started (recover env cfg s previous m).2
  unfolding recover reset_bluetooth
  recover-Started s previous m h =
      let charged = charge (env.clock m.world) s in
      let m1 = save env cfg charged m in
      let m2 = (action env cfg stop cfg.bridge_unit m1).1 in
      let (r, m3) = reset_when_stopped env cfg m2 in
      let e = reset_when_stopped-Ends in
      rw (h, after)
        (recover_end-Started r (instance_of env cfg previous) charged m3 (λ a p. e.started m2 p)
          (λ x b p. e.behind.flagged m2 p))

  -- A recovery that reports failure has latched itself with a terminal stop pending, or it ends as
  -- `verify_failed` with the latch as it was.
  pub recover-false :
      (s : State) (previous : Option RecordView) (m : Machine W)
      → (recover env cfg s previous m).0 ≡ false
      → let s' = (recover env cfg s previous m).1 in
        ((s'.recovery_failed ≡ true) × (s'.terminal_stop_pending ≡ true))
        ⊎ ((s'.last_result ≡ "verify_failed") × (s'.recovery_failed ≡ s.recovery_failed))
  unfolding recover
  recover-false s previous m h =
      let charged = charge (env.clock m.world) s in
      let (r, m1) = reset_bluetooth env cfg (save env cfg charged m) in
      recover_end_false r (instance_of env cfg previous) charged m1 h
    where
      recover_end_false :
          (r : Attempt (Unit {0})) (p : Option String) (c : State) (m1 : Machine W)
          → (recover_end env cfg r p c m1).0 ≡ false
          → let s' = (recover_end env cfg r p c m1).1 in
            ((s'.recovery_failed ≡ true) × (s'.terminal_stop_pending ≡ true))
            ⊎ ((s'.last_result ≡ "verify_failed") × (s'.recovery_failed ≡ c.recovery_failed))
      recover_end_false (went_on _) p c m1 e = unfold verify fail in ground arith
      recover_end_false (gave_up reason stopped) p c m1 e = unfold fail in inl (refl, refl)
