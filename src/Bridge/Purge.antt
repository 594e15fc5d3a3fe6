-- ===== src/Bridge/Purge.antt =====
-- server.py, SwitchEventPublisher: that forgetting old events changes no decision, and what is sent.
use casambi_mqtt.Prelude.{
  ℕ, ◌≤◌, ◌≡◌, refl, ap, ◌∙◌, Bool, true, false, Option, none, some, List, [], ◌∷◌, ◌++◌,
  if◌then◌else◌, arith, inl, inr, Bool-cases,
}
use casambi_mqtt.Bridge.SwitchEvents.{
  SwitchEvent, Public, sanitize_switch_event, Key, dedup_key, key_eq, LastSeen, is_recent,
  purge_time, purge_expired, put_seen, SwitchEventPublisher, publish, new_switch_publisher,
}

-- The policy without the purge: everything that was ever published is remembered.
pub record Memory : Type 0 where
  pub seen : LastSeen
  pub told : List Public

abbrev pub remember_all : ℕ → SwitchEvent → Memory → Memory
remember_all now e m = elim (sanitize_switch_event e) [
  | none ↦ m
  | some fields ↦
      let key = dedup_key e fields in
      if is_recent now (m.seen key)
      then m
      else record { seen = put_seen key now m.seen; told = m.told ++ (fields ∷ []) }
]

-- Runs of events with the clock's reading for each.
abbrev pub publish_all : List (ℕ × SwitchEvent) → SwitchEventPublisher → SwitchEventPublisher
publish_all [] p = p
publish_all ((now, e) ∷ es) p = publish_all es (publish now e p)

abbrev pub remember : List (ℕ × SwitchEvent) → Memory → Memory
remember [] m = m
remember ((now, e) ∷ es) m = remember es (remember_all now e m)

abbrev pub Forward : ℕ → List (ℕ × SwitchEvent) → Type 0
Forward now [] = Unit
Forward now ((t, e) ∷ es) = (now ≤ t) × Forward t es

-- What is left of a time that is too old to suppress anything.
purge_time-is_recent :
    (now later : ℕ) (o : Option ℕ)
    → now ≤ later
    → is_recent later (purge_time now o) ≡ is_recent later o
purge_time-is_recent now later none h = refl
purge_time-is_recent now later (some t) h = ground arith

-- From `now` on, both remember the same of every key.
record Agree (now : ℕ) (p : SwitchEventPublisher) (m : Memory) : Type 0 where
  same :
      (k : Key) (later : ℕ)
      → now ≤ later
      → is_recent later (p.last_seen k) ≡ is_recent later (m.seen k)
  told : p.sent ≡ m.told

purged-same :
    (now t : ℕ) (p : SwitchEventPublisher) (m : Memory)
    → now ≤ t
    → Agree now p m
    → (k : Key) (later : ℕ) → t ≤ later
    → is_recent later (purge_expired t p.last_seen k) ≡ is_recent later (m.seen k)
unfolding purge_expired
purged-same now t p m h a k later le =
    purge_time-is_recent t later (p.last_seen k) le ∙ a.same k later (omega arith)

-- Two computations that decide alike agree if their branches do.
option_both :
    {A B C : Type 0} (R : A → B → Type 0) (o : Option C) (a : A) (b : B) (f : C → A) (g : C → B)
    → R a b
    → ((c : C) → R (f c) (g c))
    → R (elim o [ none ↦ a | some c ↦ f c ]) (elim o [ none ↦ b | some c ↦ g c ])
option_both R none a b f g h k = h
option_both R (some c) a b f g h k = k c

test_both :
    {A B : Type 0} (R : A → B → Type 0) (s t : Bool) (a a' : A) (b b' : B)
    → s ≡ t
    → R a b
    → R a' b'
    → R (if s then a else a') (if t then b else b')
test_both R true true a a' b b' e h k = h
test_both R false false a a' b b' e h k = k
test_both R true false a a' b b' e h k = cc
test_both R false true a a' b b' e h k = cc

put-same :
    (key k : Key) (t later : ℕ) (f g : LastSeen)
    → is_recent later (f k) ≡ is_recent later (g k)
    → is_recent later (put_seen key t f k) ≡ is_recent later (put_seen key t g k)
put-same key k t later f g h = elim (Bool-cases (key_eq key k)) [
  | inl e ↦ rw e refl
  | inr e ↦ rw e h
]

publish-Agree :
    (now t : ℕ) (e : SwitchEvent) (p : SwitchEventPublisher) (m : Memory)
    → now ≤ t
    → Agree now p m
    → Agree t (publish t e p) (remember_all t e m)
unfolding publish
publish-Agree now t e p m h a =
    option_both (Agree t) (sanitize_switch_event e) p m _ _
      (record { same = λ k later le. a.same k later (omega arith); told = a.told })
      (λ fields.
        let key = dedup_key e fields in
        let purged = purge_expired t p.last_seen in
        let agree = purged-same now t p m h a in
        test_both (Agree t) (is_recent t (purged key)) (is_recent t (m.seen key))
          (record p { last_seen = purged })
          (record p { last_seen = put_seen key t purged; sent = p.sent ++ (fields ∷ []) }) m
          (record { seen = put_seen key t m.seen; told = m.told ++ (fields ∷ []) })
          (agree key t (omega arith)) (record { same = agree; told = a.told })
          (record {
            same = λ k later le. put-same key k t later purged m.seen (agree k later le);
            told = ap (λ ts. ts ++ (fields ∷ [])) a.told;
          }))

run-Agree :
    (now : ℕ) (es : List (ℕ × SwitchEvent)) (p : SwitchEventPublisher) (m : Memory)
    → Forward now es
    → Agree now p m
    → (publish_all es p).sent ≡ (remember es m).told
run-Agree now [] p m f a = a.told
run-Agree now ((t, e) ∷ es) p m f a = run-Agree t es _ _ f.1 (publish-Agree now t e p m f.0 a)

-- While the clock does not go back, the publisher, which forgets what is older than its window, sends
-- exactly what it would send if it forgot nothing.
pub publish_all-remember :
    (es : List (ℕ × SwitchEvent))
    → Forward 0 es
    → (publish_all es new_switch_publisher).sent
      ≡ (remember es (record { seen = λ k. none; told = [] })).told
publish_all-remember es f =
    run-Agree 0 es new_switch_publisher _ f (record { same = λ k later le. refl; told = refl })
