-- ===== src/Bridge/Sound.antt =====
-- server.py, UnitStatePublisher: the invariant of its state and counters, kept by every step.
use Prim.Native.String.{String}
use casambi_mqtt.Prelude.{
  ℕ, suc, ◌+◌, ◌≡◌, ◌≢◌, ◌⊎◌, inl, inr, refl, sym, ◌∙◌, Bool, true, false, List, [], ◌∷◌, length,
  arith, by_test, if◌then◌else◌, Bool-cases,
}
use casambi_mqtt.Bridge.Units.{
  Topics, assign, is_in, Worker, waiting, publishing, pausing, UnitStatePublisher, new_publisher,
  submit, drain, confirmed, refused, rested, Event, submitted, woken, answered, pause_over, step,
  run,
}
use casambi_mqtt.Bridge.Newest.{IsDict, assign-IsDict}

-- The publishes that have no answer yet.
abbrev pub on_its_way : {U : Type 0} → Worker U → ℕ
on_its_way waiting = 0
on_its_way (publishing topic u) = 1
on_its_way pausing = 0

-- A worker that waits is going to wake up when there is work.
abbrev pub IsAwake : {U : Type 0} → Worker U → Bool → Topics U → Type 0
IsAwake waiting wakeup pending = (pending ≡ []) ⊎ (wakeup ≡ true)
IsAwake (publishing topic u) wakeup pending = Unit
IsAwake pausing wakeup pending = Unit

abbrev pub IsIdle : {U : Type 0} → Bool → Worker U → Topics U → Type 0
IsIdle idle w pending = (idle ≡ false) ⊎ ((pending ≡ []) × (w ≡ waiting))

-- Every attempt is counted with its outcome, the depth is the queue's, no wake-up is lost, and an idle
-- publisher has nothing left to do.
pub record IsSound {U : Type 0} (p : UnitStatePublisher U) : Type 0 where
  pub keys : IsDict p.pending
  pub tally :
      p.diagnostics.unit_publish_attempted
      ≡ p.diagnostics.unit_publish_confirmed
        + p.diagnostics.unit_publish_failed
        + on_its_way p.worker
  pub depth : p.diagnostics.unit_queue_depth ≡ length p.pending
  pub awake : IsAwake p.worker p.wakeup p.pending
  pub rest : IsIdle p.idle p.worker p.pending

cons-nil : {A : Type 0} {a : A} {rest : List A} → (a ∷ rest) ≢ []
cons-nil = λ e. cc

module _ {U : Type 0} where
  pub drain-empty :
      (p : UnitStatePublisher U)
      → p.pending ≡ []
      → drain p ≡ record p { idle = true; worker = waiting }
  unfolding drain
  drain-empty p e = rw e refl

  pub drain-next :
      (p : UnitStatePublisher U) (k : String) (u : U) (rest : Topics U)
      → p.pending ≡ (k, u) ∷ rest
      → drain p ≡ (
          let d = p.diagnostics in
          record p {
            pending = rest;
            worker = publishing k u;
            diagnostics = record d {
              unit_queue_depth = length rest;
              unit_publish_attempted = suc d.unit_publish_attempted;
            };
          })
  unfolding drain
  drain-next p k u rest e = rw e refl

  woken-IsAwake : (w : Worker U) (d : Topics U) → IsAwake w true d
  woken-IsAwake waiting d = inr refl
  woken-IsAwake (publishing topic u) d = tt
  woken-IsAwake pausing d = tt

  -- Where the worker awaits decides which of three states comes next.
  pub by_place :
      (P : UnitStatePublisher U → Type 0) (w : Worker U) (a c : UnitStatePublisher U)
      (b : String → U → UnitStatePublisher U)
      → (w ≡ waiting → P a)
      → ((topic : String) (u : U) → w ≡ publishing topic u → P (b topic u))
      → (w ≡ pausing → P c)
      → P (elim w [ waiting ↦ a | publishing topic u ↦ b topic u | pausing ↦ c ])
  by_place P waiting a c b at_rest busy pause = at_rest refl
  by_place P (publishing topic u) a c b at_rest busy pause = busy topic u refl
  by_place P pausing a c b at_rest busy pause = pause refl

  publishing-waiting : {topic : String} {u : U} → publishing topic u ≢ waiting
  publishing-waiting = λ e. cc

  busy_is_not_idle :
      {topic : String} {u : U} (p : UnitStatePublisher U)
      → p.worker ≡ publishing topic u
      → IsIdle p.idle p.worker p.pending
      → p.idle ≡ false
  busy_is_not_idle p w (inl busy) = busy
  busy_is_not_idle p w (inr (e, still)) = elim (publishing-waiting (sym w ∙ still)) [ ]

  pausing-waiting : ◌≢◌ {A = Worker U} pausing waiting
  pausing-waiting = λ e. cc

  rested_IsIdle :
      (d : Topics U) (idle : Bool) (w : Worker U)
      → IsIdle idle w d
      → w ≡ pausing
      → IsIdle (elim d [ [] ↦ true | e ∷ rest ↦ idle ]) waiting d
  rested_IsIdle [] idle w i h = inr (refl, refl)
  rested_IsIdle (e ∷ rest) idle w (inl busy) h = inl busy
  rested_IsIdle (e ∷ rest) idle w (inr (i, still)) h = elim (pausing-waiting (sym h ∙ still)) [ ]

  requeue-IsDict :
      (topic : String) (u : U) (d : Topics U)
      → IsDict d
      → IsDict (if is_in topic d then d else assign topic u d)
  requeue-IsDict topic u d h = elim (Bool-cases (is_in topic d)) [
    | inl e ↦ rw e h
    | inr e ↦ rw e (assign-IsDict topic u d h)
  ]

  drain_from :
      (d : Topics U) (p : UnitStatePublisher U)
      → p.pending ≡ d
      → IsDict d
      → p.diagnostics.unit_publish_attempted
        ≡ p.diagnostics.unit_publish_confirmed + p.diagnostics.unit_publish_failed
      → p.diagnostics.unit_queue_depth ≡ length d
      → (p.idle ≡ false) ⊎ (d ≡ [])
      → IsSound (drain p)
  drain_from [] p e keys tally depth idle = rw (drain-empty p e) (record {
    keys = rw e tt;
    tally = omega arith;
    depth = rw e depth;
    awake = inl e;
    rest = inr (e, refl);
  })
  drain_from ((k, u) ∷ rest) p e keys tally depth idle = rw (drain-next p k u rest e) (record {
    keys = keys.1;
    tally = omega arith;
    depth = refl;
    awake = tt;
    rest = elim idle [ inl f ↦ inl f | inr e ↦ elim (cons-nil e) [ ] ];
  })

  submit-IsSound :
      (topic : String) (u : U) (p : UnitStatePublisher U) → IsSound p → IsSound (submit topic u p)
  unfolding submit
  submit-IsSound topic u p s = record {
    keys = assign-IsDict topic u p.pending s.keys;
    tally = s.tally;
    depth = refl;
    awake = woken-IsAwake p.worker (assign topic u p.pending);
    rest = inl refl;
  }

  confirmed-IsSound :
      (topic : String) (u : U) (p : UnitStatePublisher U)
      → IsSound p
      → p.worker ≡ publishing topic u
      → IsSound (confirmed topic u p)
  unfolding confirmed
  confirmed-IsSound topic u p s w =
      let busy : on_its_way p.worker ≡ 1 = rw w refl in
      drain_from p.pending _ refl s.keys (let t = s.tally in omega arith) s.depth
        (inl (busy_is_not_idle p w s.rest))

  refused-IsSound :
      (topic : String) (u : U) (p : UnitStatePublisher U)
      → IsSound p
      → p.worker ≡ publishing topic u
      → IsSound (refused topic u p)
  unfolding refused
  refused-IsSound topic u p s w =
      let busy : on_its_way p.worker ≡ 1 = rw w refl in
      record {
        keys = requeue-IsDict topic u p.pending s.keys;
        tally = let t = s.tally in omega arith;
        depth = refl;
        awake = tt;
        rest = inl (busy_is_not_idle p w s.rest);
      }

  rested-IsSound : (p : UnitStatePublisher U) → IsSound p → p.worker ≡ pausing → IsSound (rested p)
  unfolding rested
  rested-IsSound p s w = record {
    keys = s.keys;
    tally = let none_out : on_its_way p.worker ≡ 0 = rw w refl in let t = s.tally in omega arith;
    depth = s.depth;
    awake = inr refl;
    rest = rested_IsIdle p.pending p.idle p.worker s.rest w;
  }

  wake-IsSound :
      (p : UnitStatePublisher U)
      → IsSound p
      → p.worker ≡ waiting
      → IsSound (drain (record p { wakeup = false }))
  wake-IsSound p s w =
      let none_out : on_its_way p.worker ≡ 0 = rw w refl in
      drain_from p.pending (record p { wakeup = false }) refl s.keys
        (let t = s.tally in omega arith) s.depth (elim s.rest [ inl f ↦ inl f | inr e ↦ inr (e.0) ])

  pub step-IsSound : (e : Event U) (p : UnitStatePublisher U) → IsSound p → IsSound (step e p)
  unfolding step
  step-IsSound (submitted topic u) p s = submit-IsSound topic u p s
  step-IsSound woken p s =
      by_place IsSound p.worker _ _ _ (λ w. by_test IsSound p.wakeup _ _ (wake-IsSound p s w) s)
        (λ topic u w. s) (λ w. s)
  step-IsSound (answered ok) p s =
      by_place IsSound p.worker _ _ _ (λ w. s)
        (λ topic u w.
          by_test IsSound ok _ _ (confirmed-IsSound topic u p s w) (refused-IsSound topic u p s w))
        (λ w. s)
  step-IsSound pause_over p s =
      by_place IsSound p.worker _ _ _ (λ w. s) (λ topic u w. s) (λ w. rested-IsSound p s w)

  run_from-IsSound :
      (es : List (Event U)) (p : UnitStatePublisher U) → IsSound p → IsSound (run es p)
  unfolding run
  run_from-IsSound [] p s = s
  run_from-IsSound (e ∷ es) p s = run_from-IsSound es (step e p) (step-IsSound e p s)

  pub new-IsSound : IsSound {U = U} new_publisher
  new-IsSound = record {
    keys = tt;
    tally = refl;
    depth = refl;
    awake = inl refl;
    rest = inr (refl, refl);
  }

  -- However the publisher is used from its start: each attempt is counted as confirmed, failed or on its
  -- way; the counted depth is the queue's, in which no topic occurs twice; a waiting worker with work
  -- left is going to wake up; and an idle publisher has nothing queued or on its way.
  pub run-IsSound : (es : List (Event U)) → IsSound (run es new_publisher)
  run-IsSound es = run_from-IsSound es new_publisher new-IsSound
