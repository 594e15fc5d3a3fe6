-- ===== src/Supervisor/Effects.antt =====
-- What a predicate of effects must allow so that every effect of a supervisor pass satisfies it.
use Prim.Native.String.{String}
use casambi_mqtt.Prelude.{ℕ, zero, suc, ◌≡◌, ◌∙◌, Bool, Option, arith}
use casambi_mqtt.Supervisor.State.{Settings}
use casambi_mqtt.Supervisor.Machine.{
  Env, Machine, Properties, show, consume_exits, Poll, nap, wait_loop, wait_until, shows, recovered,
}

module _ {W : Type 0} (env : Env W) (cfg : Settings) where
  -- Nothing was commanded and nothing saved.
  pub record Quiet (m m' : Machine W) : Type 0 where
    pub same_trace : m'.trace ≡ m.trace
    pub same_disk : m'.disk ≡ m.disk

  Quiet-trans : (a b c : Machine W) → Quiet a b → Quiet b c → Quiet a c
  Quiet-trans a b c p q = record {
    same_trace = q.same_trace ∙ p.same_trace;
    same_disk = q.same_disk ∙ p.same_disk;
  }

  pub show-Quiet : (unit : String) (m : Machine W) → Quiet m (show env cfg unit m).1
  unfolding show
  show-Quiet unit m = ground arith

  pub consume_exits-Quiet : (m : Machine W) → Quiet m (consume_exits env cfg m).1
  unfolding consume_exits
  consume_exits-Quiet m = ground arith

  abbrev pub IsQuietPoll : Poll env cfg → Type 0
  IsQuietPoll p = (m : Machine W) → Quiet m (p m).1

  pub shows-Quiet : (unit : String) (p : Properties → Bool) → IsQuietPoll (shows env cfg unit p)
  unfolding shows
  shows-Quiet unit p m = show-Quiet unit m

  pub recovered-Quiet : (previous : Option String) → IsQuietPoll (recovered env cfg previous)
  unfolding recovered
  recovered-Quiet previous m = show-Quiet cfg.bridge_unit m

  wait_loop-Quiet :
      (fuel deadline : ℕ) (p : Poll env cfg) (m : Machine W)
      → IsQuietPoll p
      → Quiet m (wait_loop env cfg fuel deadline p m).1
  unfolding wait_loop
  wait_loop-Quiet zero deadline p m q = ground arith
  wait_loop-Quiet (suc fuel) deadline p m q =
      ground (arith, q m, wait_loop-Quiet fuel deadline p (nap env cfg (p m).1) q)

  pub wait_until-Quiet :
      (p : Poll env cfg) (timeout : ℕ) (m : Machine W)
      → IsQuietPoll p
      → Quiet m (wait_until env cfg p timeout m).1
  unfolding wait_until
  wait_until-Quiet p timeout m q = wait_loop-Quiet _ _ p m q
