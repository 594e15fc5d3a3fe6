-- ===== src/Supervisor/Observations.antt =====
-- observe: how exits, stamps and the record move the state, and what can clear the latch.
use text.Mathlib.Text.{◌==◌ as str_eq}
use casambi_mqtt.Prelude.{
  ℕ, suc, ◌+◌, ◌≤◌, ◌≡◌, ◌≢◌, true, false, Option, some, List, [], ◌∷◌, arith, if◌then◌else◌, inl,
  inr, Option-cases,
}
use casambi_mqtt.Supervisor.Clock.{Clock, Stamp, is_recent, recent}
use casambi_mqtt.Supervisor.State.{
  Settings, RecordView, UnitView, State, ExitEntry, trusted_record, ready_record, is_ready,
  configuration_failure,
}
use casambi_mqtt.Supervisor.Decide.{
  is_startup_exit, count_exit, count_exits, prune, observe_ready, observe_not_ready, observe_record,
  observe, decide, act_latch,
}

-- How many of the exits are failed startups.
abbrev pub startup_exits : List ExitEntry → ℕ
startup_exits [] = 0
startup_exits (e ∷ es) = if is_startup_exit e then suc (startup_exits es) else startup_exits es

count_exits-streak :
    (es : List ExitEntry) (s : State)
    → (count_exits es s).startup_failure_streak ≡ s.startup_failure_streak + startup_exits es
unfolding count_exits count_exit
count_exits-streak [] s = omega arith
count_exits-streak (e ∷ es) s = ground (arith, count_exits-streak es (count_exit e s))

-- What an exit does not touch.
record SameLatch (s s' : State) : Type 0 where
  same_failed : s'.recovery_failed ≡ s.recovery_failed
  same_pending : s'.terminal_stop_pending ≡ s.terminal_stop_pending
  same_resets : s'.resets ≡ s.resets
  same_instance : s'.ready_instance ≡ s.ready_instance
  same_since : s'.ready_since ≡ s.ready_since

count_exits-SameLatch : (es : List ExitEntry) (s : State) → SameLatch s (count_exits es s)
unfolding count_exits count_exit
count_exits-SameLatch [] s = ground arith
count_exits-SameLatch (e ∷ es) s = ground (arith, count_exits-SameLatch es (count_exit e s))

module _ (s : State) (unit : UnitView) (view : Option RecordView) (c : Clock) (cfg : Settings)
    (exits : List ExitEntry) where
  -- A pending terminal stop stays pending under every observation.
  pub observe-pending :
      (observe s unit view c cfg exits).terminal_stop_pending ≡ s.terminal_stop_pending
  unfolding observe observe_record observe_ready observe_not_ready prune
  observe-pending = ground (arith, count_exits-SameLatch exits s)

  -- An observation only ever drops resets from the budget's list, never adds one.
  pub observe-resets : (observe s unit view c cfg exits).resets ≡ recent s.resets c cfg.long_window
  unfolding observe observe_record observe_ready observe_not_ready prune
  observe-resets = ground (arith, count_exits-SameLatch exits s)

  -- The latch changes in one case only: a trusted record shows the same ready instance that was
  -- seen ready before, its healthy period began longer ago than the setting asks, and no terminal
  -- stop is pending. Then, and only then, it is cleared.
  pub observe-latch :
      (observe s unit view c cfg exits).recovery_failed ≢ s.recovery_failed
      → (r : RecordView) × (since : Stamp) × (trusted_record view unit ≡ some r)
        × (is_ready r.phase ≡ true)
        × (str_eq s.ready_instance r.instance_id ≡ true)
        × (s.ready_since ≡ some since)
        × (is_recent since c cfg.healthy_reset_seconds ≡ false)
        × (s.terminal_stop_pending ≡ false)
        × (s.recovery_failed ≡ true)
  unfolding observe observe_record observe_ready observe_not_ready prune
  observe-latch h =
      let same = count_exits-SameLatch exits s in
      elim (Option-cases (trusted_record view unit)) [
        | inl untrusted ↦ ground (arith, same, untrusted)
        | inr (r, trusted) ↦ elim (Option-cases s.ready_since) [
          | inl unseen ↦ ground (arith, same, trusted, unseen)
          | inr (since, seen) ↦ (
            r,
            since,
            trusted,
            ground (arith, same, trusted, seen),
            ground (arith, same, trusted, seen),
            seen,
            ground (arith, same, trusted, seen),
            ground (arith, same, trusted, seen),
            ground (arith, same, trusted, seen),
          )
        ]
      ]

  -- Failed startups add up until a ready bridge is observed.
  pub observe-streak :
      ready_record (trusted_record view unit) ≡ false
      → (observe s unit view c cfg exits).startup_failure_streak
        ≡ s.startup_failure_streak + startup_exits exits
  unfolding observe observe_record observe_ready observe_not_ready prune
  observe-streak h = ground (arith, count_exits-streak exits s)

  pub observe-unlatched :
      s.recovery_failed ≡ false → (observe s unit view c cfg exits).recovery_failed ≡ false
  unfolding observe observe_record observe_ready observe_not_ready prune
  observe-unlatched h = ground (arith, count_exits-SameLatch exits s)

  -- If the failed startups counted so far and those of the consumed exits are six or more, no
  -- trusted record shows a ready bridge, recovery is not latched and the unit did not stop on a
  -- configuration error, then the pass gives up, whatever the budgets and windows say.
  pub six_startups_latch :
      ready_record (trusted_record view unit) ≡ false
      → configuration_failure unit ≡ false
      → s.recovery_failed ≡ false
      → 6 ≤ s.startup_failure_streak + startup_exits exits
      → (decide (observe s unit view c cfg exits) unit view c cfg).action ≡ act_latch
  unfolding decide
  six_startups_latch unready configured unlatched many =
      ground (arith, observe-unlatched unlatched, observe-streak unready)
