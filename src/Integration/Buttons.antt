-- ===== src/Integration/Buttons.antt =====
-- custom_components/casambi_mqtt/event.py: the button entities that async_add_switch_buttons adds.
use casambi_mqtt.Prelude.{
  ℕ, ◌<◌, ◌≡◌, refl, sym, ap, subst, ◌∙◌, inl, inr, Bool, true, false, not, List, [], ◌∷◌, keep,
  ◌==◌, ==_iff, if◌then◌else◌, arith, Bool-cases, by_test,
}
use casambi_mqtt.Prelude.Dict.{member, insert_all-IsSorted, Above, IsSorted, below_absent}
use casambi_mqtt.Integration.Runtime.{
  default_switch_buttons, RuntimeData, observed_buttons, switch_buttons, has_button,
  missing_buttons, Effect, save_buttons, add_button_entity, send_button, send_event, Entry, enter,
  tell, async_add_switch_buttons,
}

-- The button entities that were added, the newest first.
abbrev pub added : List Effect → List (ℕ × ℕ)
added [] = []
added (add_button_entity u b ∷ before) = (u, b) ∷ added before
added (save_buttons d ∷ before) = added before
added (send_button u b t ∷ before) = added before
added (send_event u b t ∷ before) = added before

-- No button entity is added twice.
abbrev pub Once : List (ℕ × ℕ) → Type 0
Once [] = Unit
Once (k ∷ known) = (has_button known k.0 k.1 ≡ false) × Once known

-- Whatever is sent for a button is sent after its entity was added.
abbrev pub Heard : List Effect → Type 0
Heard [] = Unit
Heard (send_button u b t ∷ before) = (has_button (added before) u b ≡ true) × Heard before
Heard (send_event u b t ∷ before) = (has_button (added before) u b ≡ true) × Heard before
Heard (add_button_entity u b ∷ before) = Heard before
Heard (save_buttons d ∷ before) = Heard before

added-tell :
    (u : ℕ) (bs : List ℕ) (done : List Effect) → added (tell u bs done) ≡ enter u bs (added done)
added-tell u [] done = refl
added-tell u (b ∷ bs) done = added-tell u bs (add_button_entity u b ∷ done)

tell-Heard : (u : ℕ) (bs : List ℕ) (done : List Effect) → Heard done → Heard (tell u bs done)
tell-Heard u [] done h = h
tell-Heard u (b ∷ bs) done h = tell-Heard u bs (add_button_entity u b ∷ done) h

enter-keeps :
    (u : ℕ) (bs : List ℕ) (known : List (ℕ × ℕ)) (v c : ℕ)
    → has_button known v c ≡ true
    → has_button (enter u bs known) v c ≡ true
enter-keeps u [] known v c h = h
enter-keeps u (b ∷ bs) known v c h = enter-keeps u bs ((u, b) ∷ known) v c (ground arith)

enter-has :
    (u : ℕ) (bs : List ℕ) (known : List (ℕ × ℕ)) (c : ℕ)
    → member c bs ≡ true
    → has_button (enter u bs known) u c ≡ true
enter-has u [] known c h = cc
enter-has u (b ∷ bs) known c h = elim (Bool-cases (b == c)) [
  | inl e ↦ enter-keeps u bs ((u, b) ∷ known) u c (ground arith)
  | inr e ↦ enter-has u bs ((u, b) ∷ known) c (ground arith)
]

-- None of the buttons is known.
abbrev Fresh : ℕ → List ℕ → List (ℕ × ℕ) → Type 0
Fresh u bs known = (c : ℕ) → member c bs ≡ true → has_button known u c ≡ false

enter-Once :
    (u : ℕ) (bs : List ℕ) (known : List (ℕ × ℕ))
    → IsSorted bs
    → Fresh u bs known
    → Once known
    → Once (enter u bs known)
enter-Once u [] known s f h = h
enter-Once u (b ∷ bs) known (a, s) f h =
    let here : (b == b) ≡ true = ground arith in
    let first : has_button known u b ≡ false = f b (ground arith) in
    let rest : Fresh u bs ((u, b) ∷ known) = λ c m. elim (Bool-cases (b == c)) [
      | inl e ↦ let absent = below_absent c b bs (ground arith) a s in absurd (ground arith)
      | inr e ↦ let old = f c (ground arith) in ground arith
    ] in
    enter-Once u bs ((u, b) ∷ known) s rest (first, h)

Above-below : (a x : ℕ) (xs : List ℕ) → a < x → Above x xs → Above a xs
Above-below a x [] h k = tt
Above-below a x (y ∷ xs) h k = omega arith

Above-keep : (p : ℕ → Bool) (a : ℕ) (xs : List ℕ) → Above a xs → IsSorted xs → Above a (keep p xs)
Above-keep p a [] h s = h
Above-keep p a (x ∷ xs) h (k, s) =
    by_test (Above a) (p x) (x ∷ keep p xs) (keep p xs) h
      (Above-keep p a xs (Above-below a x xs h k) s)

keep-IsSorted : (p : ℕ → Bool) (xs : List ℕ) → IsSorted xs → IsSorted (keep p xs)
keep-IsSorted p [] h = h
keep-IsSorted p (x ∷ xs) (a, h) =
    let rest = keep-IsSorted p xs h in
    by_test IsSorted (p x) (x ∷ keep p xs) (keep p xs) (Above-keep p x xs a h, rest) rest

member-keep :
    (p : ℕ → Bool) (c : ℕ) (xs : List ℕ)
    → member c (keep p xs) ≡ (if p c then member c xs else false)
member-keep p c [] = by_test (λ b. false ≡ b) (p c) false false refl refl
member-keep p c (x ∷ xs) = elim (Bool-cases (x == c)) [
  | inl e ↦
      let same : p x ≡ p c = ap p ((==_iff x c).0 e) in
      elim (Bool-cases (p c)) [
        | inl f ↦ rw (same, f, e) refl
        | inr f ↦ rw (same, f) (member-keep p c xs ∙ rw f refl)
      ]
  | inr e ↦ elim (Bool-cases (p x)) [
    | inl f ↦ rw (f, e) (member-keep p c xs)
    | inr f ↦ rw (f, e) (member-keep p c xs)
  ]
]

pub switch_buttons-IsSorted : (r : RuntimeData) (u : ℕ) → IsSorted (switch_buttons r u)
unfolding switch_buttons
switch_buttons-IsSorted r u =
    insert_all-IsSorted (observed_buttons u r) default_switch_buttons (omega arith)

not_first : (a b : Bool) → (if not a then b else false) ≡ true → a ≡ false
not_first true b h = cc
not_first false b h = refl

missing-Fresh : (r : RuntimeData) (u : ℕ) → Fresh u (missing_buttons r u) r.switch_button_events
missing-Fresh r u c m =
    not_first (has_button r.switch_button_events u c) (member c (switch_buttons r u))
      (sym (member-keep _ c (switch_buttons r u)) ∙ m)

-- After the entities of a unit were added, each of its buttons has one.
pub missing-has :
    (r : RuntimeData) (u c : ℕ)
    → member c (switch_buttons r u) ≡ true
    → has_button (enter u (missing_buttons r u) r.switch_button_events) u c ≡ true
missing-has r u c m = elim (Bool-cases (has_button r.switch_button_events u c)) [
  | inl e ↦ enter-keeps u (missing_buttons r u) r.switch_button_events u c e
  | inr e ↦
      enter-has u (missing_buttons r u) r.switch_button_events c
        (member-keep _ c (switch_buttons r u) ∙ rw e m)
]

-- What holds of an entry whose event platform is set up: the entities that were added are the ones that
-- are entered, each once, and whatever was sent for a button was sent after its entity was added.
pub record Sound (e : Entry) : Type 0 where
  pub platform : e.runtime.event_platform ≡ true
  pub entered : added e.done ≡ e.runtime.switch_button_events
  pub once : Once e.runtime.switch_button_events
  pub heard : Heard e.done

-- What changes neither the platform, nor the entities, nor what was sent.
pub still-Sound :
    {e e' : Entry}
    → e.runtime.event_platform ≡ e'.runtime.event_platform
    → e.runtime.switch_button_events ≡ e'.runtime.switch_button_events
    → added e.done ≡ added e'.done
    → (Heard e.done → Heard e'.done)
    → Sound e
    → Sound e'
still-Sound platform events entities sent h = record {
  platform = sym platform ∙ h.platform;
  entered = sym entities ∙ h.entered ∙ events;
  once = subst Once events h.once;
  heard = sent h.heard;
}

pub add_buttons-Sound : (u : ℕ) (e : Entry) → Sound e → Sound (async_add_switch_buttons u e)
unfolding async_add_switch_buttons
add_buttons-Sound u e h =
    let missing = missing_buttons e.runtime u in
    by_test Sound e.runtime.event_platform
      (record e {
        runtime = record e.runtime {
          switch_button_events = enter u missing e.runtime.switch_button_events;
        };
        done = tell u missing e.done;
      })
      e
      (record {
        platform = h.platform;
        entered = added-tell u missing e.done ∙ ap (enter u missing) h.entered;
        once =
            enter-Once u missing e.runtime.switch_button_events
              (keep-IsSorted _ (switch_buttons e.runtime u) (switch_buttons-IsSorted e.runtime u))
              (missing-Fresh e.runtime u) h.once;
        heard = tell-Heard u missing e.done h.heard;
      })
      h
