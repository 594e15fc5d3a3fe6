-- ===== src/Integration/Handling.antt =====
-- custom_components/casambi_mqtt/__init__.py, _async_process_switch_event: the buttons of the units, and
-- what entering an event's button keeps.
use casambi_mqtt.Prelude.{
  ℕ, ◌≡◌, refl, sym, ap, ◌∙◌, subst, inl, inr, Bool, true, false, Option, none, some, List, [], ◌∷◌,
  ◌++◌, ◌==◌, ==_iff, arith, All, All-append, Bool-cases, by_equation, by_test,
}
use casambi_mqtt.Prelude.Dict.{find, find-put, find-put_other, member, member-insert_all}
use casambi_mqtt.Integration.Runtime.{
  default_switch_buttons, Press, SwitchUnit, RuntimeData, put_unit, stored_switch_buttons,
  observed_buttons, switch_buttons, has_button, missing_buttons, save_buttons, Entry, enter, tell,
  async_add_switch_buttons,
}
use casambi_mqtt.Integration.Switches.{finish_switch_event, observe_button}
use casambi_mqtt.Integration.Buttons.{added, missing-has, Sound, still-Sound, add_buttons-Sound}

abbrev pub same_unit : ℕ → ℕ → Bool
same_unit i j = i == j

-- The buttons of the unit include the event's.
abbrev pub IsObserved : RuntimeData → Press → Type 0
IsObserved r p = member p.button (observed_buttons p.unit_id r) ≡ true

-- No unit loses a button.
abbrev Grows : RuntimeData → RuntimeData → Type 0
Grows r r' =
    (u c : ℕ) → member c (observed_buttons u r) ≡ true → member c (observed_buttons u r') ≡ true

abbrev pub buttons_of : Option SwitchUnit → List ℕ
buttons_of o = elim o [ none ↦ [] | some s ↦ s.buttons ]

-- The unit that is put has its buttons, and the others keep theirs.
pub observed-put :
    (u : ℕ) (s : SwitchUnit) (r : RuntimeData) → observed_buttons u (put_unit u s r) ≡ s.buttons
observed-put u s r = ap buttons_of (find-put same_unit ==_iff u s r.switch_units)

pub observed-put_other :
    (u v : ℕ) (s : SwitchUnit) (r : RuntimeData)
    → (u == v) ≡ false
    → observed_buttons v (put_unit u s r) ≡ observed_buttons v r
observed-put_other u v s r h =
    ap buttons_of (find-put_other same_unit ==_iff u v s r.switch_units h)

put_unit-Grows :
    (u : ℕ) (s : SwitchUnit) (r : RuntimeData)
    → ((c : ℕ) → member c (observed_buttons u r) ≡ true → member c s.buttons ≡ true)
    → Grows r (put_unit u s r)
put_unit-Grows u s r more v c h = elim (Bool-cases (u == v)) [
  | inl e ↦
      let same = (==_iff u v).0 e in
      let here : member c (observed_buttons u r) ≡ true =
        subst (λ w. member c (observed_buttons w r) ≡ true) (sym same) h in
      subst (λ w. member c (observed_buttons w (put_unit u s r)) ≡ true) same
        (ap (member c) (observed-put u s r) ∙ more c here)
  | inr e ↦ ap (member c) (observed-put_other u v s r e) ∙ h
]

waiting-Grows :
    (r r' : RuntimeData) (ps : List Press)
    → Grows r r'
    → All (IsObserved r) ps
    → All (IsObserved r') ps
waiting-Grows r r' [] g h = tt
waiting-Grows r r' (p ∷ ps) g (now, later) =
    (g p.unit_id p.button now, waiting-Grows r r' ps g later)

-- Every waiting handler has entered its button, and the entities and signals are in order.
pub record Held (e : Entry) : Type 0 where
  pub sound : Sound e
  pub waiting : All (IsObserved e.runtime) e.saving

pub add_buttons-units :
    (u : ℕ) (e : Entry)
    → (async_add_switch_buttons u e).runtime.switch_units ≡ e.runtime.switch_units
unfolding async_add_switch_buttons
add_buttons-units u e =
    by_test (λ (x : Entry). x.runtime.switch_units ≡ e.runtime.switch_units)
      e.runtime.event_platform _ e refl refl

pub add_buttons-saving : (u : ℕ) (e : Entry) → (async_add_switch_buttons u e).saving ≡ e.saving
unfolding async_add_switch_buttons
add_buttons-saving u e =
    by_test (λ (x : Entry). x.saving ≡ e.saving) e.runtime.event_platform _ e refl refl

add_buttons-has :
    (u c : ℕ) (e : Entry)
    → e.runtime.event_platform ≡ true
    → member c (switch_buttons e.runtime u) ≡ true
    → has_button (async_add_switch_buttons u e).runtime.switch_button_events u c ≡ true
unfolding async_add_switch_buttons
add_buttons-has u c e ready m =
    by_equation (λ (x : Entry). has_button x.runtime.switch_button_events u c ≡ true)
      e.runtime.event_platform
      (record e {
        runtime = record e.runtime {
          switch_button_events =
              enter u (missing_buttons e.runtime u) e.runtime.switch_button_events;
        };
        done = tell u (missing_buttons e.runtime u) e.done;
      })
      e (λ h. missing-has e.runtime u c m) (λ h. cc)

observed-offered :
    (r : RuntimeData) (p : Press)
    → IsObserved r p
    → member p.button (switch_buttons r p.unit_id) ≡ true
unfolding switch_buttons
observed-offered r p h =
    member-insert_all p.button (observed_buttons p.unit_id r) default_switch_buttons ∙ rw h refl

pub finish-Held :
    (p : Press) (e : Entry) → IsObserved e.runtime p → Held e → Held (finish_switch_event p e)
unfolding finish_switch_event
finish-Held p e o h =
    let e' = async_add_switch_buttons p.unit_id e in
    let s = add_buttons-Sound p.unit_id e h.sound in
    let has =
      add_buttons-has p.unit_id p.button e h.sound.platform (observed-offered e.runtime p o) in
    let there : has_button (added e'.done) p.unit_id p.button ≡ true =
      subst (λ k. has_button k p.unit_id p.button ≡ true) (sym s.entered) has in
    let grows : Grows e.runtime e'.runtime = λ u c m.
      (subst (λ us. member c (buttons_of (find same_unit u us)) ≡ true)
        (sym (add_buttons-units p.unit_id e)) m) in
    record {
      sound = record {
        platform = s.platform;
        entered = s.entered;
        once = s.once;
        heard = (there, (there, s.heard));
      };
      waiting =
          subst (All (IsObserved e'.runtime)) (sym (add_buttons-saving p.unit_id e))
            (waiting-Grows e.runtime e'.runtime e.saving grows h.waiting);
    }

pub observe_button-Held :
    (p : Press) (s : SwitchUnit) (e : Entry)
    → observed_buttons p.unit_id e.runtime ≡ s.buttons
    → Held e
    → Held (observe_button p s e)
observe_button-Held p s e same h =
    let more : SwitchUnit = record s { buttons = p.button ∷ s.buttons } in
    let added_one = put_unit p.unit_id more e.runtime in
    by_equation Held (member p.button s.buttons) _
      (record e {
        runtime = added_one;
        done = save_buttons (stored_switch_buttons added_one) ∷ e.done;
        saving = e.saving ++ (p ∷ []);
      })
      (λ m.
        finish-Held p (record e { runtime = put_unit p.unit_id s e.runtime })
          (ap (member p.button) (observed-put p.unit_id s e.runtime) ∙ m)
          (record {
            sound = still-Sound refl refl refl (λ x. x) h.sound;
            waiting =
                waiting-Grows e.runtime (put_unit p.unit_id s e.runtime) e.saving
                  (put_unit-Grows p.unit_id s e.runtime (λ c k. ap (member c) (sym same) ∙ k))
                  h.waiting;
          }))
      (λ m. (record {
        sound = still-Sound refl refl refl (λ x. x) h.sound;
        waiting =
            All-append (IsObserved added_one) e.saving (p ∷ [])
              (waiting-Grows e.runtime added_one e.saving
                (put_unit-Grows p.unit_id more e.runtime (λ c k.
                  let old : member c s.buttons ≡ true = ap (member c) (sym same) ∙ k in
                  ground arith))
                h.waiting)
              (ap (member p.button) (observed-put p.unit_id more e.runtime) ∙ ground arith, tt);
      }))
