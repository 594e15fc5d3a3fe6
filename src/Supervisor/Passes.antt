-- ===== src/Supervisor/Passes.antt =====
-- What one supervisor pass may do to systemd and to the state file: run_once over any world.
use Prim.Native.String.{String}
use casambi_mqtt.Prelude.{
  ◌≡◌, ◌⊎◌, inl, inr, refl, sym, true, false, Option, List, arith, Bool-cases, Option-cases, subst,
}
use casambi_mqtt.Supervisor.Clock.{Clock}
use casambi_mqtt.Supervisor.State.{Settings, State, RecordView, UnitView, ExitEntry, trusted_record}
use casambi_mqtt.Supervisor.Decide.{
  Action, act_none, act_recover, act_restart, act_latch, act_stop, observe, decide,
}
use casambi_mqtt.Supervisor.Decisions.{latched_acts, left_alone}
use casambi_mqtt.Supervisor.Observations.{observe-latch}
use casambi_mqtt.Supervisor.Store.{StateFile, load_state}
use casambi_mqtt.Supervisor.Machine.{
  Env, Machine, Effect, command, saved, stop, show, save, consume_exits, from_properties,
}
use casambi_mqtt.Supervisor.Recover.{
  Attempt, went_on, gave_up, latch, charge, fail, verify, recover_end, recover, restart_bridge, act,
  pass, run_once,
}
use casambi_mqtt.Supervisor.Effects.{show-Quiet, consume_exits-Quiet}
use casambi_mqtt.Supervisor.Traces.{
  Good, MayFollow, AllowsReset, Saves, Quiet-Good, save-Good, recover-Good, restart_bridge-Good,
  stop_terminally-Good,
}

module _ {W : Type 0} (env : Env W) (cfg : Settings) where
  -- The machine on which a pass decides.
  abbrev pub deciding : Machine W → Machine W
  deciding m = (consume_exits env cfg (show env cfg cfg.bridge_unit m).1).1

-- A pass adds a reset to the state only by charging it, before the recovery.
module _ {W : Type 0} (env : Env W) (cfg : Settings) where
  recover_end-resets :
      (r : Attempt (Unit {0})) (previous : Option String) (s : State) (m : Machine W)
      → (recover_end env cfg r previous s m).1.resets ≡ s.resets
  unfolding verify fail
  recover_end-resets (went_on _) previous s m = ground arith
  recover_end-resets (gave_up reason stopped) previous s m = refl

  recover-resets :
      (s : State) (previous : Option RecordView) (m : Machine W)
      → (recover env cfg s previous m).1.resets ≡ (charge (env.clock m.world) s).resets
  unfolding recover
  recover-resets s previous m = recover_end-resets _ _ _ _

  restart_bridge-resets :
      (s : State) (m : Machine W) → (restart_bridge env cfg s m).0.resets ≡ s.resets
  unfolding restart_bridge
  restart_bridge-resets s m = refl

module _ {W : Type 0} (env : Env W) (cfg : Settings) (G : List Effect → StateFile → Type 0) where
  -- A condition on states that their resets decide, under which they may be saved.
  pub record SavesIf (K : State → Type 0) : Type 0 where
    pub by_resets : (s t : State) → t.resets ≡ s.resets → K s → K t
    pub savable : (s : State) → K s → MayFollow env cfg G (saved s)

  act-Good :
      (K : State → Type 0) (a : Action) (reason : String) (s : State) (previous : Option RecordView)
      (m : Machine W)
      → SavesIf K
      → AllowsReset env cfg G
      → K s
      → (a ≡ act_recover → K (charge (env.clock m.world) s))
      → Good env cfg G m
      → Good env cfg G (act env cfg (record { action = a; reason = reason }) s previous m).1
  unfolding act save
  act-Good K act_none reason s previous m k c ks kc h = save-Good env cfg G s m (k.savable s ks) h
  act-Good K act_latch reason s previous m k c ks kc h =
      let s' = latch reason s in
      let ks' = k.by_resets s s' refl ks in
      let done_s : State = record s' { terminal_stop_pending = false } in
      stop_terminally-Good env cfg G s' _ c.stops (k.savable done_s (k.by_resets s done_s refl ks))
        (save-Good env cfg G s' m (k.savable s' ks') h)
  act-Good K act_stop reason s previous m k c ks kc h =
      let done_s : State = record s { terminal_stop_pending = false } in
      stop_terminally-Good env cfg G s _ c.stops (k.savable done_s (k.by_resets s done_s refl ks))
        (save-Good env cfg G s m (k.savable s ks) h)
  act-Good K act_restart reason s previous m k c ks kc h =
      let (s', m') = restart_bridge env cfg s m in
      save-Good env cfg G s' m'
        (k.savable s' (k.by_resets s s' (restart_bridge-resets env cfg s m) ks))
        (restart_bridge-Good env cfg G s m c.clears c.starts h)
  act-Good K act_recover reason s previous m k c ks kc h =
      let m1 = save env cfg s m in
      let h1 = save-Good env cfg G s m (k.savable s ks) h in
      let charged = charge (env.clock m1.world) s in
      let kch : K charged = kc refl in
      let (_, s', m') = recover env cfg s previous m1 in
      let saves : Saves env cfg G charged = λ t e. k.savable t (k.by_resets charged t e kch) in
      let h2 =
        recover-Good env cfg G s previous m1 c saves
          (save-Good env cfg G charged m1 (saves charged refl) h1) in
      let stopped : State = record s' { terminal_stop_pending = false } in
      let h3 =
        stop_terminally-Good env cfg G s' m' c.stops
          (saves stopped (recover-resets env cfg s previous m1)) h2 in
      ground (arith, h2, h3)

  -- The condition holds of what is observed in the pass, and of what a recovery charges.
  abbrev pub Ready :
      (State → Type 0) → StateFile → W → UnitView → Option RecordView → List ExitEntry → Type 0
  Ready K disk w unit view exits =
      let s = observe (load_state disk) unit view (env.observe_clock w) cfg exits in
      K s
      × ((decide s unit view (env.decide_clock w) cfg).action ≡ act_recover
          → K (charge (env.clock w) s))

  pass-Good :
      (K : State → Type 0) (unit : UnitView) (m : Machine W)
      → SavesIf K
      → AllowsReset env cfg G
      → ((view : Option RecordView) (exits : List ExitEntry)
          → Ready K m.disk (consume_exits env cfg m).1.world unit view exits)
      → Good env cfg G m
      → Good env cfg G (pass env cfg unit m).1
  unfolding pass
  pass-Good K unit m k a ready h =
      let view = env.read_record m.world in
      let (exits, m1) = consume_exits env cfg m in
      let s = observe (load_state m.disk) unit view (env.observe_clock m1.world) cfg exits in
      let d = decide s unit view (env.decide_clock m1.world) cfg in
      let (ks, kc) = ready view exits in
      act-Good K d.action d.reason s (trusted_record view unit) m1 k a ks kc
        (Quiet-Good env cfg G m m1 (consume_exits-Quiet env cfg m) h)

  pub run_once-Good :
      (K : State → Type 0) (m : Machine W)
      → SavesIf K
      → AllowsReset env cfg G
      → ((unit : UnitView) (view : Option RecordView) (exits : List ExitEntry)
          → Ready K m.disk (deciding env cfg m).world unit view exits)
      → Good env cfg G m
      → Good env cfg G (run_once env cfg m).1
  unfolding run_once
  run_once-Good K m k a ready h =
      let (shown, m1) = show env cfg cfg.bridge_unit m in
      let q = show-Quiet env cfg cfg.bridge_unit m in
      let h1 = Quiet-Good env cfg G m m1 q h in
      elim (Option-cases shown) [
        | inl gone ↦ ground (arith, h, h1, gone)
        | inr (ps, e) ↦
            let h2 =
              pass-Good K (from_properties ps) m1 k a
                (λ view exits.
                  subst (λ d. Ready K d (deciding env cfg m).world (from_properties ps) view exits)
                    (sym q.same_disk) (ready (from_properties ps) view exits))
                h1 in
            ground (arith, h, h2, e)
      ]

  -- A pass that finds recovery latched: it saves, and it stops the bridge at most.
  latched-Good :
      (a : Action) (reason : String) (s : State) (previous : Option RecordView) (m : Machine W)
      → (a ≡ act_none) ⊎ (a ≡ act_stop)
      → ((t : State) → MayFollow env cfg G (saved t))
      → MayFollow env cfg G (command stop cfg.bridge_unit)
      → Good env cfg G m
      → Good env cfg G (act env cfg (record { action = a; reason = reason }) s previous m).1
  unfolding act
  latched-Good act_none reason s previous m k saves stops h = save-Good env cfg G s m (saves s) h
  latched-Good act_stop reason s previous m k saves stops h =
      stop_terminally-Good env cfg G s _ stops (saves _) (save-Good env cfg G s m (saves s) h)
  latched-Good act_latch reason s previous m k saves stops h = ground arith
  latched-Good act_restart reason s previous m k saves stops h = ground arith
  latched-Good act_recover reason s previous m k saves stops h = ground arith

  latched_decides :
      (s : State) (unit : UnitView) (view : Option RecordView) (c c' : Clock)
      (exits : List ExitEntry)
      → s.recovery_failed ≡ true
      → let a = (decide (observe s unit view c cfg exits) unit view c' cfg).action in
        (a ≡ act_none) ⊎ (a ≡ act_stop)
  latched_decides s unit view c c' exits h =
      let s' = observe s unit view c cfg exits in
      elim (Bool-cases s'.recovery_failed) [
        | inl still ↦ ground (arith, latched_acts s' unit view c' cfg still)
        | inr cleared ↦
            let (r, _, trusted, ready_r, _, _, _, _, _) =
              observe-latch s unit view c cfg exits (λ e. cc) in
            inl (left_alone s' unit view c' cfg (inl (rw trusted ready_r)))
      ]

  pub latched_run-Good :
      (m : Machine W)
      → (load_state m.disk).recovery_failed ≡ true
      → ((t : State) → MayFollow env cfg G (saved t))
      → MayFollow env cfg G (command stop cfg.bridge_unit)
      → Good env cfg G m
      → Good env cfg G (run_once env cfg m).1
  unfolding run_once pass
  latched_run-Good m latched saves stops h =
      let (shown, m1) = show env cfg cfg.bridge_unit m in
      let q = show-Quiet env cfg cfg.bridge_unit m in
      let h1 = Quiet-Good env cfg G m m1 q h in
      elim (Option-cases shown) [
        | inl gone ↦ ground (arith, h, h1, gone)
        | inr (ps, e) ↦
            let unit = from_properties ps in
            let view = env.read_record m1.world in
            let (exits, m2) = consume_exits env cfg m1 in
            let c = env.observe_clock m2.world in
            let c' = env.decide_clock m2.world in
            let loaded = load_state m1.disk in
            let s = observe loaded unit view c cfg exits in
            let d = decide s unit view c' cfg in
            let still : loaded.recovery_failed ≡ true = rw q.same_disk latched in
            let h2 = Quiet-Good env cfg G m1 m2 (consume_exits-Quiet env cfg m1) h1 in
            let h3 =
              latched-Good d.action d.reason s (trusted_record view unit) m2
                (latched_decides loaded unit view c c' exits still) saves stops h2 in
            ground (arith, h, h3, e)
      ]
