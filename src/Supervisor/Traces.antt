-- ===== src/Supervisor/Traces.antt =====
-- An operation keeps every predicate of the trace that its own commands and saves keep.
use Prim.Native.String.{String}
use casambi_mqtt.Prelude.{◌≡◌, refl, Bool, true, false, Option, List, [], ◌∷◌, arith}
use casambi_mqtt.Supervisor.State.{Settings, State, RecordView}
use casambi_mqtt.Supervisor.Store.{StateFile, save_state}
use casambi_mqtt.Supervisor.Machine.{
  Env, Machine, Effect, command, saved, Verb, stop, start, restart, reset_failed, bluetooth_unit,
  action, show, save, Poll, wait_until, recovered,
}
use casambi_mqtt.Supervisor.Recover.{
  Attempt, went_on, gave_up, latch, charge, Step, ◌>>=◌, after, order, await, drop_exits,
  clear_start_limit, reset_bluetooth, reset_when_stopped, fail, start_again, verify, recover,
  restart_bridge, stop_terminally, instance_of, recover_end, bridge_stopped, bluetooth_active,
}
use casambi_mqtt.Supervisor.Effects.{
  Quiet, show-Quiet, consume_exits-Quiet, IsQuietPoll, shows-Quiet, recovered-Quiet,
  wait_until-Quiet,
}

-- What an effect leaves in the state file.
abbrev pub disk_after : Effect → StateFile → StateFile
disk_after (command verb unit) disk = disk
disk_after (saved s) disk = save_state s

-- `G` is a condition on the effects so far and on the state file.
module _ {W : Type 0} (env : Env W) (cfg : Settings) (G : List Effect → StateFile → Type 0) where
  abbrev pub Good : Machine W → Type 0
  Good m = G m.trace m.disk

  -- The effect may come next.
  abbrev pub MayFollow : Effect → Type 0
  MayFollow e = (t : List Effect) (disk : StateFile) → G t disk → G (e ∷ t) (disk_after e disk)

  pub Quiet-Good : (m m' : Machine W) → Quiet env cfg m m' → Good m → Good m'
  Quiet-Good m m' q h = rw (q.same_trace, q.same_disk) h

  pub action-Good :
      (verb : Verb) (unit : String) (m : Machine W)
      → MayFollow (command verb unit)
      → Good m
      → Good (action env cfg verb unit m).1
  unfolding action
  action-Good verb unit m p h = ground (arith, p m.trace m.disk h)

  pub save-Good :
      (s : State) (m : Machine W) → MayFollow (saved s) → Good m → Good (save env cfg s m)
  unfolding save
  save-Good s m p h = p m.trace m.disk h

  pub record IsGoodStep {A : Type 0} (f : Step env cfg A) : Type 0 where
    pub keeps : (m : Machine W) → Good m → Good (f m).1

  after-Good :
      {A B : Type 0} (r : Attempt A) (g : A → Step env cfg B) (m : Machine W)
      → ((a : A) → IsGoodStep (g a))
      → Good m
      → Good (after env cfg r g m).1
  after-Good (went_on a) g m hg h = (hg a).keeps m h
  after-Good (gave_up reason stopped) g m hg h = h

  bind-Good :
      {A B : Type 0} (f : Step env cfg A) (g : A → Step env cfg B)
      → IsGoodStep f
      → ((a : A) → IsGoodStep (g a))
      → IsGoodStep (◌>>=◌ env cfg f g)
  bind-Good f g hf hg = record { keeps = λ m h. after-Good (f m).0 g (f m).1 hg (hf.keeps m h) }

  order-Good :
      (stopped : Bool) (verb : Verb) (unit : String)
      → MayFollow (command verb unit)
      → IsGoodStep (order env cfg stopped verb unit)
  order-Good stopped verb unit p = record { keeps = λ m h. action-Good verb unit m p h }

  await-Good :
      (p : Poll env cfg) (reason : String)
      → IsQuietPoll env cfg p
      → IsGoodStep (await env cfg p reason)
  await-Good p reason q = record {
    keeps = λ m h. Quiet-Good _ _ (wait_until-Quiet env cfg p cfg.stop_timeout m q) h;
  }

  drop_exits-Good : IsGoodStep (drop_exits env cfg)
  drop_exits-Good = record { keeps = λ m h. Quiet-Good _ _ (consume_exits-Quiet env cfg m) h }

  clear_keeps :
      MayFollow (command reset_failed cfg.bridge_unit)
      → (m : Machine W) → Good m
      → Good (clear_start_limit env cfg m).1
  clear_keeps p m h =
      let (ps, m') = show env cfg cfg.bridge_unit m in
      let q = Quiet-Good m m' (show-Quiet env cfg cfg.bridge_unit m) h in
      ground (arith, q, action-Good reset_failed cfg.bridge_unit m' p q)

  clear_start_limit-Good :
      MayFollow (command reset_failed cfg.bridge_unit) → IsGoodStep (clear_start_limit env cfg)
  clear_start_limit-Good p = record { keeps = λ m h. clear_keeps p m h }

  -- The commands of the `try` block of `recover`.
  pub record AllowsReset : Type 0 where
    pub stops : MayFollow (command stop cfg.bridge_unit)
    pub restarts : MayFollow (command restart bluetooth_unit)
    pub clears : MayFollow (command reset_failed cfg.bridge_unit)
    pub starts : MayFollow (command start cfg.bridge_unit)

  reset_bluetooth-Good : AllowsReset → IsGoodStep (reset_bluetooth env cfg)
  unfolding reset_bluetooth reset_when_stopped
  reset_bluetooth-Good a = bind-Good _ _ (order-Good false stop cfg.bridge_unit a.stops) λ _.
      bind-Good _ _
        (await-Good (bridge_stopped env cfg) "bridge_stop_timeout" (shows-Quiet env cfg _ _))
        λ _. bind-Good _ _ drop_exits-Good λ _.
          bind-Good _ _ (order-Good true restart bluetooth_unit a.restarts) λ _.
            bind-Good _ _
              (await-Good (bluetooth_active env cfg) "bluetooth_restart_timeout"
                (shows-Quiet env cfg _ _))
              λ _.
                bind-Good _ _ (clear_start_limit-Good a.clears)
                  λ _. order-Good true start cfg.bridge_unit a.starts

  -- What may be saved: a state with the resets that are charged, in a recovery or after it.
  abbrev pub Saves : State → Type 0
  Saves s = (t : State) → t.resets ≡ s.resets → MayFollow (saved t)

  verify-Good :
      (previous : Option String) (s : State) (m : Machine W)
      → Saves s
      → Good m
      → Good (verify env cfg previous s m).2
  unfolding verify fail
  verify-Good previous s m a h =
      let (held, m1) = wait_until env cfg (recovered env cfg previous) cfg.verify_seconds m in
      let q =
        Quiet-Good m m1
          (wait_until-Quiet env cfg _ cfg.verify_seconds m (recovered-Quiet env cfg previous)) h in
      ground (
        arith,
        save-Good _ m1
            (a
              (record s {
                ble_failures = [];
                startup_failure_streak = 0;
                last_result = "recovered";
              })
              refl)
            q,
        save-Good _ m1 (a (record s { last_result = "verify_failed" }) refl) q,
        save-Good _ m1 (a (latch "verify_failed_budget_exhausted" s) refl) q,
      )

  start_again-Good :
      (stopped : Bool) (m : Machine W)
      → MayFollow (command start cfg.bridge_unit)
      → Good m
      → Good (start_again env cfg stopped m)
  start_again-Good true m p h = action-Good start cfg.bridge_unit m p h
  start_again-Good false m p h = h

  recover_end-Good :
      (r : Attempt (Unit {0})) (previous : Option String) (s : State) (m : Machine W)
      → AllowsReset
      → Saves s
      → Good m
      → Good (recover_end env cfg r previous s m).2
  unfolding fail
  recover_end-Good (went_on _) previous s m a b h = verify-Good previous s m b h
  recover_end-Good (gave_up reason stopped) previous s m a b h =
      start_again-Good stopped _ a.starts (save-Good _ m (b (latch reason s) refl) h)

  pub recover-Good :
      (s : State) (previous : Option RecordView) (m : Machine W)
      → AllowsReset
      → Saves (charge (env.clock m.world) s)
      → Good (save env cfg (charge (env.clock m.world) s) m)
      → Good (recover env cfg s previous m).2
  unfolding recover
  recover-Good s previous m a b h =
      let charged = charge (env.clock m.world) s in
      let m1 = save env cfg charged m in
      let (r, m2) = reset_bluetooth env cfg m1 in
      recover_end-Good r (instance_of env cfg previous) charged m2 a b
        ((reset_bluetooth-Good a).keeps m1 h)

  pub restart_bridge-Good :
      (s : State) (m : Machine W)
      → MayFollow (command reset_failed cfg.bridge_unit)
      → MayFollow (command start cfg.bridge_unit)
      → Good m
      → Good (restart_bridge env cfg s m).1
  unfolding restart_bridge
  restart_bridge-Good s m p q h =
      let (o, m1) = action env cfg reset_failed cfg.bridge_unit m in
      let h1 = action-Good reset_failed cfg.bridge_unit m p h in
      ground (arith, h1, action-Good start cfg.bridge_unit m1 q h1)

  pub stop_terminally-Good :
      (s : State) (m : Machine W)
      → MayFollow (command stop cfg.bridge_unit)
      → MayFollow (saved (record s { terminal_stop_pending = false }))
      → Good m
      → Good (stop_terminally env cfg s m)
  unfolding stop_terminally
  stop_terminally-Good s m p q h =
      let (o, m1) = action env cfg stop cfg.bridge_unit m in
      let h1 = action-Good stop cfg.bridge_unit m p h in
      let (held, m2) = wait_until env cfg (bridge_stopped env cfg) cfg.stop_timeout m1 in
      let h2 =
        Quiet-Good m1 m2 (wait_until-Quiet env cfg _ cfg.stop_timeout m1 (shows-Quiet env cfg _ _))
          h1 in
      ground (arith, h1, h2, save-Good (record s { terminal_stop_pending = false }) m2 q h2)
