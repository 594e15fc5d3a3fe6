-- ===== src/Supervisor/Waiting.antt =====
-- _wait_until: its loop ends by its own tests, not by the fuel, if a sleep lets the clock advance by
-- the interval and a poll does not turn it back; and what a wait that succeeds has seen.
use casambi_mqtt.Prelude.{
  ℕ, zero, suc, ◌-◌, ◌⊎◌, ap, sym, ◌∙◌, ◌+◌, ◌*◌, ◌/◌, ◌≤◌, ◌<◌, ◌≡◌, true, false, some, arith, inl,
  inr,
}
use native.Mathlib.Nat.{div-add-mod, mod-lt}
use casambi_mqtt.Supervisor.Clock.{seconds}
use casambi_mqtt.Supervisor.State.{Settings}
use casambi_mqtt.Supervisor.Machine.{Env, Machine, Poll, nap, wait_loop, wait_until, rounds}

interval_covers : (t i : ℕ) → 0 < i → t ≤ (t / i + 1) * i
interval_covers t i h = grind (arith, div-add-mod t i, mod-lt t h)

module _ {W : Type 0} (env : Env W) (cfg : Settings) where
  abbrev now : Machine W → ℕ
  now m = (env.clock m.world).monotonic

  -- A sleep lasts at least as long as it was asked to.
  abbrev pub SleepAdvances : Type 0
  SleepAdvances =
      (ms : ℕ) (w : W) → (env.clock w).monotonic + ms ≤ (env.clock (env.sleep ms w)).monotonic

  -- A poll does not turn the clock back.
  abbrev pub PollAdvances : Poll env cfg → Type 0
  PollAdvances p = (m : Machine W) → now m ≤ now (p m).1

  wait_loop-fuel :
      (fuel more deadline : ℕ) (p : Poll env cfg) (m : Machine W)
      → SleepAdvances
      → PollAdvances p
      → fuel ≤ more
      → deadline ≤ now m + fuel * cfg.poll_interval
      → wait_loop env cfg (suc more) deadline p m ≡ wait_loop env cfg (suc fuel) deadline p m
  unfolding wait_loop
  wait_loop-fuel zero more deadline p m s q le h = ground (arith, q m)
  wait_loop-fuel (suc fuel) zero deadline p m s q le h = absurd (omega arith)
  wait_loop-fuel (suc fuel) (suc more) deadline p m s q le h =
      let m' = (p m).1 in
      let slept = s cfg.poll_interval m'.world in
      let same =
        wait_loop-fuel fuel more deadline p (nap env cfg m') s q (omega arith)
          (grind (arith, q m)) in
      ground (arith, q m, same)

  -- With a poll interval above zero, clocks that a sleep advances by its length and a poll does not
  -- turn back, the loop's result is the same with any more rounds than `_wait_until` gives it: it
  -- ends because the predicate held or because the deadline has passed, never for want of rounds.
  pub wait_until-ends :
      (timeout more : ℕ) (p : Poll env cfg) (m : Machine W)
      → 0 < cfg.poll_interval
      → SleepAdvances
      → PollAdvances p
      → rounds env cfg timeout ≤ more
      → wait_loop env cfg more (now m + seconds timeout) p m ≡ wait_until env cfg p timeout m
  unfolding wait_until
  wait_until-ends timeout more p m pos s q le =
      let k = seconds timeout / cfg.poll_interval + 1 in
      let e1 : rounds env cfg timeout ≡ suc k = omega arith in
      let e2 : more ≡ suc (more - 1) = omega arith in
      let enough : seconds timeout ≤ k * cfg.poll_interval =
        interval_covers (seconds timeout) cfg.poll_interval pos in
      let same =
        wait_loop-fuel k (more - 1) (now m + seconds timeout) p m s q (omega arith) (omega arith) in
      rw (e1, e2) same

  -- One round: the predicate held, the deadline has passed, or the loop goes on.
  wait_loop-round :
      (fuel deadline : ℕ) (p : Poll env cfg) (m : Machine W)
      → let w = wait_loop env cfg (suc fuel) deadline p m in
        ((p m).0 ≡ some true) × (w ≡ (true, (p m).1))
        ⊎ (w ≡ (false, (p m).1))
        ⊎ (w ≡ wait_loop env cfg fuel deadline p (nap env cfg (p m).1))
  unfolding wait_loop
  wait_loop-round fuel deadline p m = ground arith

  -- A machine that a wait polls: the one that it begins with, or one after a poll and a sleep.
  pub data Polled (p : Poll env cfg) : Machine W → Machine W → Type 0 where
    at_once : {m : Machine W} → Polled p m m
    afterwards : {m seen : Machine W} → Polled p (nap env cfg (p m).1) seen → Polled p m seen

  -- What the predicate has seen in the round in which the wait succeeded.
  wait_loop-held :
      (fuel deadline : ℕ) (p : Poll env cfg) (m : Machine W)
      → (wait_loop env cfg fuel deadline p m).0 ≡ true
      → (seen : Machine W) × Polled p m seen
        × ((p seen).0 ≡ some true)
        × ((wait_loop env cfg fuel deadline p m).1 ≡ (p seen).1)
  wait_loop-held zero deadline p m h = unfold wait_loop in cc
  wait_loop-held (suc fuel) deadline p m h = elim (wait_loop-round fuel deadline p m) [
    | inl (held, e) ↦ (m, at_once, held, rw e)
    | inr (inl e) ↦ ground (arith, e)
    | inr (inr e) ↦
        let (seen, polled, held, same) =
          wait_loop-held fuel deadline p (nap env cfg (p m).1) (sym (ap (λ t. t.0) e) ∙ h) in
        (seen, afterwards polled, held, ap (λ t. t.1) e ∙ same)
  ]

  pub wait_until-held :
      (p : Poll env cfg) (timeout : ℕ) (m : Machine W)
      → (wait_until env cfg p timeout m).0 ≡ true
      → (seen : Machine W) × Polled p m seen
        × ((p seen).0 ≡ some true)
        × ((wait_until env cfg p timeout m).1 ≡ (p seen).1)
  unfolding wait_until
  wait_until-held p timeout m h = wait_loop-held _ _ p m h
