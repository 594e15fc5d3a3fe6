-- ===== src/Supervisor/Guarantees.antt =====
-- What a supervisor pass never does, whatever systemd, the record and the state file say.
use casambi_mqtt.Prelude.{
  ◌≤◌, ◌≡◌, ◌⊎◌, inl, inr, refl, ap, true, Option, List, [], ◌∷◌, ◌++◌, All, arith, length, Bool,
  ◌+◌, keep,
}
use casambi_mqtt.Supervisor.Clock.{Clock, Stamp, recent, is_recent, stamp}
use casambi_mqtt.Supervisor.State.{Settings, State, RecordView, UnitView, ExitEntry}
use casambi_mqtt.Supervisor.Decide.{act_recover, observe, decide}
use casambi_mqtt.Supervisor.Decisions.{recover_iff}
use casambi_mqtt.Supervisor.Observations.{observe-resets}
use casambi_mqtt.Supervisor.Store.{StateFile, load_state, save_state}
use casambi_mqtt.Supervisor.Persistence.{load-save_resets}
use casambi_mqtt.Supervisor.Machine.{
  Env, Machine, Effect, command, saved, stop, restart, bluetooth_unit, save,
}
use casambi_mqtt.Supervisor.Recover.{charge, recover, run_once}
use casambi_mqtt.Supervisor.Traces.{recover-Good}
use casambi_mqtt.Supervisor.Passes.{deciding, Ready, run_once-Good, latched_run-Good}

-- A command for the bridge, or the restart of Bluetooth.
abbrev pub IsAllowed : Settings → Effect → Type 0
IsAllowed cfg (command verb unit) =
    (unit ≡ cfg.bridge_unit) ⊎ ((unit ≡ bluetooth_unit) × (verb ≡ restart))
IsAllowed cfg (saved s) = Unit

abbrev pub IsStop : Settings → Effect → Type 0
IsStop cfg (command verb unit) = (verb ≡ stop) × (unit ≡ cfg.bridge_unit)
IsStop cfg (saved s) = Unit

-- What is recent at the second reading was recent at the first: no reset becomes recent again.
abbrev pub IsNoEarlier : Settings → Clock → Clock → Type 0
IsNoEarlier cfg c c' =
    (x : Stamp) → is_recent x c' cfg.long_window ≡ true → is_recent x c cfg.long_window ≡ true

-- At a reading of the clock, at most as many resets are recent as the long window allows.
abbrev pub WithinBudget : Settings → Clock → State → Type 0
WithinBudget cfg c s = length (recent s.resets c cfg.long_window) ≤ cfg.max_resets_long

abbrev pub SavedWithinBudget : Settings → Clock → Effect → Type 0
SavedWithinBudget cfg c (command verb unit) = Unit
SavedWithinBudget cfg c (saved s) = WithinBudget cfg c s

length-keep-keep :
    (p q : Stamp → Bool) (xs : List Stamp) → length (keep p (keep q xs)) ≤ length (keep p xs)
length-keep-keep p q [] = omega arith
length-keep-keep p q (x ∷ xs) = ground (arith, length-keep-keep p q xs)

length-keep_mono :
    (p q : Stamp → Bool) (xs : List Stamp)
    → ((x : Stamp) → p x ≡ true → q x ≡ true)
    → length (keep p xs) ≤ length (keep q xs)
length-keep_mono p q [] h = omega arith
length-keep_mono p q (x ∷ xs) h = ground (arith, h x, length-keep_mono p q xs h)

length-keep_last :
    (p : Stamp → Bool) (xs : List Stamp) (y : Stamp)
    → length (keep p (xs ++ (y ∷ []))) ≤ length (keep p xs) + 1
length-keep_last p [] y = ground arith
length-keep_last p (x ∷ xs) y = ground (arith, length-keep_last p xs y)

-- The trace has grown out of an earlier one.
abbrev pub GrownFrom : List Effect → List Effect → Type 0
GrownFrom base t = (later : List Effect) × (t ≡ later ++ base)

grow :
    (base : List Effect) (e : Effect) (t : List Effect) → GrownFrom base t → GrownFrom base (e ∷ t)
grow base e t (later, p) = (e ∷ later, ap (λ x. e ∷ x) p)

module _ {W : Type 0} (env : Env W) (cfg : Settings) where
  -- From an empty trace, every command of a pass is one for the configured bridge unit, or the
  -- restart of bluetooth.service: nothing else is ever stopped, started, restarted or reset.
  pub commands-IsAllowed :
      (m : Machine W) → m.trace ≡ [] → All (IsAllowed cfg) (run_once env cfg m).1.trace
  commands-IsAllowed m e =
      run_once-Good env cfg (λ t d. All (IsAllowed cfg) t) (λ s. Unit) m
        (record { by_resets = λ s t p k. tt; savable = λ s k t d h. (tt, h) })
        (record {
          stops = λ t d h. (inl refl, h);
          restarts = λ t d h. (inr (refl, refl), h);
          clears = λ t d h. (inl refl, h);
          starts = λ t d h. (inl refl, h);
        })
        (λ unit view exits. (tt, λ _. tt)) (rw e tt)

  charge-WithinBudget :
      (s : State) (unit : UnitView) (c at later : Clock) (view : Option RecordView)
      → IsNoEarlier cfg c later
      → (decide s unit view c cfg).action ≡ act_recover
      → WithinBudget cfg later (charge at s)
  charge-WithinBudget s unit c at later view after d =
      let (_, _, _, _, room) = (recover_iff s unit view c cfg).0 d in
      omega (
        arith,
        room,
        length-keep_last (λ x. is_recent x later cfg.long_window) s.resets (stamp at),
        length-keep_mono (λ x. is_recent x later cfg.long_window)
            (λ x. is_recent x c cfg.long_window) s.resets after,
      )

  observed-WithinBudget :
      (later : Clock) (disk : StateFile) (w : W) (unit : UnitView) (view : Option RecordView)
      (exits : List ExitEntry)
      → IsNoEarlier cfg (env.decide_clock w) later
      → WithinBudget cfg later (load_state disk)
      → Ready env cfg (λ t d. Unit) (WithinBudget cfg later) disk w unit view exits
  observed-WithinBudget later disk w unit view exits after h =
      let c = env.observe_clock w in
      let loaded = load_state disk in
      let s = observe loaded unit view c cfg exits in
      let e = observe-resets loaded unit view c cfg exits in
      (
        omega (
          arith,
          ap (λ rs. length (recent rs later cfg.long_window)) e,
          length-keep-keep (λ x. is_recent x later cfg.long_window)
              (λ x. is_recent x c cfg.long_window) loaded.resets,
        ),
        λ d. charge-WithinBudget s unit (env.decide_clock w) (env.clock w) later view after d,
      )

  loaded-WithinBudget :
      (c : Clock) (s : State)
      → WithinBudget cfg c s
      → WithinBudget cfg c (load_state (save_state s))
  loaded-WithinBudget c s h = elim (load-save_resets s) [
    | inl bad ↦ rw bad (omega arith)
    | inr same ↦ rw same h
  ]

  -- Take a reading of the clock at which no reset is recent that was not so when the pass decided. From
  -- an empty trace, if at most as many of the state file's resets are recent at that reading as the long
  -- window allows, then so it is for every state that the pass saves, and for the state file after the
  -- pass. observe, decide and the charge have a reading of the clock each.
  pub run_once-WithinBudget :
      (m : Machine W) (later : Clock)
      → m.trace ≡ []
      → IsNoEarlier cfg (env.decide_clock (deciding env cfg m).world) later
      → WithinBudget cfg later (load_state m.disk)
      → All (SavedWithinBudget cfg later) (run_once env cfg m).1.trace
        × WithinBudget cfg later (load_state (run_once env cfg m).1.disk)
  run_once-WithinBudget m later e after h =
      run_once-Good env cfg
        (λ t d. All (SavedWithinBudget cfg later) t × WithinBudget cfg later (load_state d))
        (WithinBudget cfg later) m
        (record {
          by_resets = λ s t p k. rw p k;
          savable = λ s k t d h. ((k, h.0), loaded-WithinBudget later s k);
        })
        (record {
          stops = λ t d h. ((tt, h.0), h.1);
          restarts = λ t d h. ((tt, h.0), h.1);
          clears = λ t d h. ((tt, h.0), h.1);
          starts = λ t d h. ((tt, h.0), h.1);
        })
        (λ unit view exits. observed-WithinBudget later m.disk _ unit view exits after h)
        (rw e (tt, h))

  -- The first thing that a recovery does, before any command, is to save the state with the reset
  -- charged: a crash in the middle leaves no free reset behind.
  pub recover_charges_first :
      (s : State) (previous : Option RecordView) (m : Machine W)
      → GrownFrom
          (saved (charge (env.clock m.world) s) ∷ m.trace)
          (recover env cfg s previous m).2.trace
  recover_charges_first s previous m =
      let charged = charge (env.clock m.world) s in
      recover-Good env cfg (λ t d. GrownFrom (saved charged ∷ m.trace) t) s previous m
        (record {
          stops = λ t d h. grow _ _ t h;
          restarts = λ t d h. grow _ _ t h;
          clears = λ t d h. grow _ _ t h;
          starts = λ t d h. grow _ _ t h;
        })
        (λ t p u d h. grow _ _ u h) ([], unfold save in refl)

  -- A pass that loads a latched state gives systemd no command but the stop of the bridge.
  pub latched_only_stops :
      (m : Machine W)
      → m.trace ≡ []
      → (load_state m.disk).recovery_failed ≡ true
      → All (IsStop cfg) (run_once env cfg m).1.trace
  latched_only_stops m e latched =
      latched_run-Good env cfg (λ t d. All (IsStop cfg) t) m latched (λ s t d h. (tt, h))
        (λ t d h. ((refl, refl), h)) (rw e tt)
