-- ===== src/Bridge/Delivery.antt =====
-- server.py, UnitStatePublisher against what it promises: the broker ends up with the newest state of
-- every unit, whatever was submitted, and whatever failed, in between.
use Prim.Native.String.{String}
use text.Mathlib.Text.{◌==◌ as str_eq}
use casambi_mqtt.Prelude.{
  ℕ, zero, suc, ◌≡◌, ◌≢◌, ◌≤◌, ◌⊎◌, inl, inr, refl, sym, ◌∙◌, Bool, true, false, Option, none, some,
  List, [], ◌∷◌, length, arith, by_test, subst, if◌then◌else◌,
}
use casambi_mqtt.Bridge.Units.{
  Topics, find, Worker, waiting, publishing, pausing, UnitStatePublisher, new_publisher, drain,
  confirmed, rested, Event, submitted, woken, answered, pause_over, step, run,
}
use casambi_mqtt.Bridge.Newest.{
  newest, or_else, or_else-none, or_else_assoc, drain-newest, confirmed-newest, refused-newest,
  submit-newest,
}
use casambi_mqtt.Bridge.Sound.{
  IsSound, IsAwake, by_place, drain-empty, drain-next, step-IsSound, new-IsSound, run-IsSound,
}

-- What an event says of a topic's state.
abbrev pub said : {U : Type 0} → Event U → String → Option U
said (submitted topic u) k = if str_eq topic k then some u else none
said woken k = none
said (answered ok) k = none
said pause_over k = none

-- The state that was submitted last for a topic: all that a publisher has to remember.
unfoldable pub last_submitted : {U : Type 0} → List (Event U) → String → Option U
last_submitted [] k = none
last_submitted (e ∷ es) k = or_else (last_submitted es k) (said e k)

-- The broker confirms the next `n` publishes.
unfoldable pub confirms : {U : Type 0} → ℕ → List (Event U)
confirms zero = []
confirms (suc n) = answered true ∷ confirms n

module _ {U : Type 0} where
  or_else_if :
      (t : Bool) (u : U) (o : Option U)
      → (if t then some u else o) ≡ or_else (if t then some u else none) o
  or_else_if true u o = refl
  or_else_if false u o = refl

  settled-newest :
      (p : UnitStatePublisher U) (k : String)
      → p.worker ≡ waiting
      → or_else (find k p.pending) (find k p.retained) ≡ newest p k
  settled-newest p k w = rw w refl

  rested-newest :
      (p : UnitStatePublisher U) (k : String)
      → p.worker ≡ pausing
      → newest (rested p) k ≡ newest p k
  unfolding rested
  rested-newest p k w = rw w refl

  step-newest :
      (e : Event U) (p : UnitStatePublisher U) (k : String)
      → IsSound p
      → newest (step e p) k ≡ or_else (said e k) (newest p k)
  unfolding step
  step-newest (submitted topic u) p k s =
      submit-newest topic u p k ∙ or_else_if (str_eq topic k) u (newest p k)
  step-newest woken p k s =
      by_place (λ q. newest q k ≡ newest p k) p.worker _ _ _
        (λ w.
          by_test (λ q. newest q k ≡ newest p k) p.wakeup _ _
            (drain-newest (record p { wakeup = false }) k s.keys ∙ settled-newest p k w) refl)
        (λ topic u w. refl) (λ w. refl)
  step-newest (answered ok) p k s =
      by_place (λ q. newest q k ≡ newest p k) p.worker _ _ _ (λ w. refl)
        (λ topic u w.
          by_test (λ q. newest q k ≡ newest p k) ok _ _ (confirmed-newest topic u p k w s.keys)
            (refused-newest topic u p k w))
        (λ w. refl)
  step-newest pause_over p k s =
      by_place (λ q. newest q k ≡ newest p k) p.worker _ _ _ (λ w. refl) (λ topic u w. refl)
        (λ w. rested-newest p k w)

  run_from-newest :
      (es : List (Event U)) (p : UnitStatePublisher U) (k : String)
      → IsSound p
      → newest (run es p) k ≡ or_else (last_submitted es k) (newest p k)
  unfolding run last_submitted
  run_from-newest [] p k s = refl
  run_from-newest (e ∷ es) p k s =
      run_from-newest es (step e p) k (step-IsSound e p s)
      ∙ rw (step-newest e p k s) (sym (or_else_assoc (last_submitted es k) (said e k) (newest p k)))

  -- Whatever happens, the newest state that the publisher knows of a topic, waiting, on its way or
  -- confirmed, is the one submitted last.
  run-newest :
      (es : List (Event U)) (k : String) → newest (run es new_publisher) k ≡ last_submitted es k
  unfolding last_submitted find
  run-newest es k =
      run_from-newest es new_publisher k new-IsSound ∙ or_else-none (last_submitted es k)

-- What lets a publisher catch up: a pause ends, the worker wakes up, and the broker confirms a publish
-- for each topic in the queue and for the one on its way.
abbrev pub catch_up : {U : Type 0} → UnitStatePublisher U → UnitStatePublisher U
catch_up p = run (pause_over ∷ woken ∷ confirms (suc (length p.pending))) p

-- With nothing left to publish, or with fewer publishes left than `n`.
IsClearing : {U : Type 0} → ℕ → UnitStatePublisher U → Type 0
IsClearing {U} n p =
    ((p.pending ≡ []) × (p.worker ≡ waiting))
    ⊎ ((topic : String) × (u : U) × (p.worker ≡ publishing topic u) × (suc (length p.pending) ≤ n))

module _ {U : Type 0} where
  clash : {w : Worker U} {topic : String} {u : U} → w ≡ publishing topic u → w ≢ waiting
  clash a = λ b. cc

  drain_from-IsClearing :
      (d : Topics U) (p : UnitStatePublisher U) (n : ℕ)
      → p.pending ≡ d
      → length d ≤ n
      → IsClearing n (drain p)
  unfolding IsClearing
  drain_from-IsClearing [] p n e h = rw (drain-empty p e) (inl (e, refl))
  drain_from-IsClearing ((k, u) ∷ rest) p n e h = rw (drain-next p k u rest e) (inr (k, u, refl, h))

  drain-IsClearing :
      (p : UnitStatePublisher U) (n : ℕ) → length p.pending ≤ n → IsClearing n (drain p)
  drain-IsClearing p n h = drain_from-IsClearing p.pending p n refl h

  -- One confirmed publish brings the end nearer by one.
  answered-IsClearing :
      (p : UnitStatePublisher U) (n : ℕ)
      → IsClearing (suc n) p
      → IsClearing n (step (answered true) p)
  unfolding step IsClearing confirmed
  answered-IsClearing p n (inl (e, w)) =
      by_place (IsClearing n) p.worker _ _ _ (λ i. inl (e, w)) (λ topic v i. elim (clash i w) [ ])
        (λ i. cc)
  answered-IsClearing p n (inr (k, u, w, h)) =
      by_place (IsClearing n) p.worker _ _ _ (λ i. elim (clash w i) [ ])
        (λ topic v i. drain-IsClearing _ n (omega arith)) (λ i. cc)

  confirms-IsClearing :
      (n : ℕ) (p : UnitStatePublisher U)
      → IsClearing n p
      → ((run (confirms n) p).pending ≡ []) × ((run (confirms n) p).worker ≡ waiting)
  unfolding run confirms IsClearing
  confirms-IsClearing zero p (inl done) = done
  confirms-IsClearing zero p (inr (k, u, w, h)) = ground arith
  confirms-IsClearing (suc n) p h =
      confirms-IsClearing n (step (answered true) p) (answered-IsClearing p n h)

  -- A confirmation says nothing of what was submitted.
  confirms-last_submitted : (n : ℕ) (k : String) → last_submitted (confirms {U = U} n) k ≡ none
  unfolding last_submitted confirms
  confirms-last_submitted zero k = refl
  confirms-last_submitted (suc n) k = rw (confirms-last_submitted n k) refl

  waiting-IsClearing :
      (p : UnitStatePublisher U)
      → p.worker ≡ waiting
      → IsAwake {U = U} waiting p.wakeup p.pending
      → IsClearing
          (suc (length p.pending))
          (if p.wakeup then drain (record p { wakeup = false }) else p)
  unfolding IsClearing
  waiting-IsClearing p w (inl e) =
      by_test (IsClearing (suc (length p.pending))) p.wakeup _ _
        (drain-IsClearing _ (suc (length p.pending)) (omega arith)) (inl (e, w))
  waiting-IsClearing p w (inr e) =
      rw e (drain-IsClearing (record p { wakeup = false }) (suc (length p.pending)) (omega arith))

  awake-IsClearing :
      (p : UnitStatePublisher U)
      → IsSound p
      → IsClearing (suc (length p.pending)) (step woken (step pause_over p))
  unfolding step rested IsClearing
  awake-IsClearing p s =
      by_place (λ q. IsClearing (suc (length p.pending)) (step woken q)) p.worker _ _ _
        (λ w.
          by_place (IsClearing (suc (length p.pending))) p.worker _ _ _
            (λ i. waiting-IsClearing p w (subst (λ v. IsAwake v p.wakeup p.pending) w s.awake))
            (λ topic u i. elim (clash i w) [ ]) (λ i. cc))
        (λ topic u w.
          by_place (IsClearing (suc (length p.pending))) p.worker _ _ _ (λ i. elim (clash w i) [ ])
            (λ k v i. inr (topic, u, w, omega arith)) (λ i. cc))
        (λ w. drain-IsClearing _ (suc (length p.pending)) (omega arith))

  -- Whatever was submitted and whatever failed before: once the broker confirms what is left, it holds
  -- for every topic the state that was submitted last.
  pub catch_up-last_submitted :
      (es : List (Event U)) (k : String)
      → find k (catch_up (run es new_publisher)).retained ≡ last_submitted es k
  unfolding run last_submitted find
  catch_up-last_submitted es k =
      let p : UnitStatePublisher U = run es new_publisher in
      let n = suc (length p.pending) in
      let q = catch_up p in
      let s : IsSound p = run-IsSound es in
      let (e, w) = confirms-IsClearing n (step woken (step pause_over p)) (awake-IsClearing p s) in
      let all_out : newest q k ≡ find k q.retained = rw (e, w) refl in
      sym all_out
      ∙ run_from-newest (pause_over ∷ woken ∷ confirms n) p k s
      ∙ rw (confirms-last_submitted n k) (run-newest es k)
