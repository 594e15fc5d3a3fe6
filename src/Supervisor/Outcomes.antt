-- ===== src/Supervisor/Outcomes.antt =====
-- How recover ends: what success rests on, what failure latches, and that the bridge is started.
use Prim.Native.String.{String}
use casambi_mqtt.Prelude.{
  ◌≡◌, refl, inl, inr, true, false, Option, some, [], arith, Option-cases, Bool-cases,
}
use casambi_mqtt.Supervisor.State.{Settings, State, RecordView, trusted_record, is_ready}
use casambi_mqtt.Supervisor.Machine.{
  Env, Machine, Properties, text_is, from_properties, show, save, wait_until, recovered,
}
use casambi_mqtt.Supervisor.Recover.{
  Attempt, went_on, gave_up, charge, verify, recover_end, recover, instance_of, reset_bluetooth,
}
use casambi_mqtt.Supervisor.Waiting.{Polled, wait_until-held}

module _ {W : Type 0} (env : Env W) (cfg : Settings) where
  -- While `_wait_until` polls, from `start` on, systemd and the record, read one after the other, show a
  -- live main process of the bridge that is ready and is another instance than before.
  pub record SeenReady (previous : Option String) (start : Machine W) : Type 0 where
    pub at : Machine W
    pub polled : Polled env cfg (recovered env cfg previous) start at
    pub properties : Properties
    pub shown : (show env cfg cfg.bridge_unit at).0 ≡ some properties
    pub view : RecordView
    pub trusted :
        trusted_record
          (env.read_record (show env cfg cfg.bridge_unit at).1.world)
          (from_properties properties)
        ≡ some view
    pub is_ready_now : is_ready view.phase ≡ true
    pub another : text_is previous view.instance_id ≡ false

  recovered-SeenReady :
      (previous : Option String) (start m : Machine W)
      → Polled env cfg (recovered env cfg previous) start m
      → (recovered env cfg previous m).0 ≡ some true
      → SeenReady previous start
  unfolding recovered
  recovered-SeenReady previous start m polled h =
      elim (Option-cases (show env cfg cfg.bridge_unit m).0) [
        | inl gone ↦ ground (arith, gone)
        | inr (ps, e) ↦
            elim (Option-cases (
              trusted_record (env.read_record (show env cfg cfg.bridge_unit m).1.world)
                (from_properties ps))) [
                  | inl untrusted ↦ ground (arith, e, untrusted)
                  | inr (r, t) ↦ record {
                    at = m;
                    polled = polled;
                    properties = ps;
                    shown = e;
                    view = r;
                    trusted = t;
                    is_ready_now = ground (arith, e, t);
                    another = ground (arith, e, t);
                  }
                ]
      ]

  verify-true :
      (previous : Option String) (s : State) (m : Machine W)
      → (verify env cfg previous s m).0 ≡ true
      → SeenReady previous m
        × ((verify env cfg previous s m).1
            ≡ record s { ble_failures = []; startup_failure_streak = 0; last_result = "recovered" })
  unfolding verify
  verify-true previous s m h =
      elim (Bool-cases (wait_until env cfg (recovered env cfg previous) cfg.verify_seconds m).0) [
        | inl held ↦
            let (seen, polled, ok, _) =
              wait_until-held env cfg (recovered env cfg previous) cfg.verify_seconds m held in
            (recovered-SeenReady previous m seen polled ok, ground (arith, held))
        | inr never ↦ ground (arith, never)
      ]

  -- A recovery reports success only if its Bluetooth reset went through, and only after systemd and a
  -- trusted record, polled behind that reset, have shown a ready bridge process of another instance than
  -- the one before; its state then has no BLE failures and no
  -- startup streak left, and is otherwise the charged one: a latch is not cleared.
  pub recover-true :
      (s : State) (previous : Option RecordView) (m : Machine W)
      → (recover env cfg s previous m).0 ≡ true
      → let after_reset = reset_bluetooth env cfg (save env cfg (charge (env.clock m.world) s) m) in
        (after_reset.0 ≡ went_on tt)
        × SeenReady (instance_of env cfg previous) after_reset.1
        × ((recover env cfg s previous m).1 ≡ record (charge (env.clock m.world) s) {
          ble_failures = [];
          startup_failure_streak = 0;
          last_result = "recovered";
        })
  unfolding recover
  recover-true s previous m h =
      recover_end_true (reset_bluetooth env cfg (save env cfg (charge (env.clock m.world) s) m)).0 _
        _ _ h
    where
      recover_end_true :
          (r : Attempt (Unit {0})) (p : Option String) (c : State) (m1 : Machine W)
          → (recover_end env cfg r p c m1).0 ≡ true
          → (r ≡ went_on tt)
            × SeenReady p m1
            × ((recover_end env cfg r p c m1).1 ≡ record c {
              ble_failures = [];
              startup_failure_streak = 0;
              last_result = "recovered";
            })
      recover_end_true (went_on _) p c m1 e =
          let (seen, same) = verify-true p c m1 e in (refl, seen, same)
      recover_end_true (gave_up reason stopped) p c m1 e = cc
