-- ===== src/Integration/Repeats.antt =====
-- custom_components/casambi_mqtt: runtime_data.py, is_duplicate_switch_event, and what __init__.py,
-- _async_process_switch_event, does with an event that is new and with one that is repeated.
use Prim.Native.String.{String}
use text.Mathlib.Text.{◌==◌ as str_eq}
use text.Mathlib.TextPositions.{eq_refl}
use casambi_mqtt.Prelude.{
  ℕ, ◌+◌, ◌<◌, ◌≡◌, ◌⊎◌, refl, ap, ◌∙◌, subst, inl, inr, Bool, true, false, Option, some, List, [],
  ◌∷◌, ◌++◌, ◌==◌, ==_iff, lt→ltb, if◌then◌else◌, by_test, by_option,
}
use casambi_mqtt.Prelude.Dict.{member}
use casambi_mqtt.Integration.Runtime.{
  Press, decode_switch_event, is_duplicate_switch_event, is_recent, unit_of, press_eq,
  stored_switch_buttons, put_unit, SwitchUnit, Effect, save_buttons, send_button, send_event,
  Device, Entry, async_add_switch_buttons, tell, missing_buttons,
}
use casambi_mqtt.Integration.Names.{switch_identifier}
use casambi_mqtt.Integration.Switches.{
  get_device, Message, process_switch_event, observe_switch_event, finish_switch_event,
  observe_button, get_or_create, with_device, Step, message, run,
}
use casambi_mqtt.Integration.Handling.{add_buttons-saving}

press_eq_refl : (p : Press) → press_eq p p ≡ true
press_eq_refl p =
    let u : (p.unit_id == p.unit_id) ≡ true = (==_iff _ _).1 refl in
    let b : (p.button == p.button) ≡ true = (==_iff _ _).1 refl in
    rw (u, b, eq_refl p.event_type) refl

-- The event is sent on at once, behind what may be new button entities of its unit, or its handler waits
-- for the buttons to be saved: what is done and what waits, before and after.
abbrev pub Told : Press → List Effect → List Press → Entry → Type 0
Told p done saving e' =
    ((bs : List ℕ) × (e'.done
        ≡ send_event p.unit_id p.button p.event_type
          ∷ send_button p.unit_id p.button p.event_type
          ∷ tell p.unit_id bs done)
      × (e'.saving ≡ saving))
    ⊎ ((e'.done ≡ save_buttons (stored_switch_buttons e'.runtime) ∷ done)
        × (e'.saving ≡ saving ++ (p ∷ [])))

-- What an event leads to, by whether it is recent: nothing changes but the times, or it is told.
abbrev pub Outcome : Bool → Press → Entry → Entry → Type 0
Outcome true p e e' =
    e'
    ≡ record e { runtime = record e.runtime { last_switch_events = e'.runtime.last_switch_events } }
Outcome false p e e' = Told p e.done e.saving e'

-- The times of the events that were heard.
abbrev Times : Type 0
Times = Press → Option ℕ

abbrev times : Entry → Times
times e = e.runtime.last_switch_events

add_buttons-times : (u : ℕ) (e : Entry) → times (async_add_switch_buttons u e) ≡ times e
unfolding async_add_switch_buttons
add_buttons-times u e =
    by_test (λ (x : Entry). times x ≡ times e) e.runtime.event_platform _ e refl refl

add_buttons-tell :
    (u : ℕ) (e : Entry) → (bs : List ℕ) × ((async_add_switch_buttons u e).done ≡ tell u bs e.done)
unfolding async_add_switch_buttons
add_buttons-tell u e =
    by_test (λ (x : Entry). (bs : List ℕ) × (x.done ≡ tell u bs e.done)) e.runtime.event_platform _
      e (missing_buttons e.runtime u, refl) ([], refl)

observe_button-Told :
    (p : Press) (s : SwitchUnit) (e : Entry)
    → Told p e.done e.saving (observe_button p s e) × (times (observe_button p s e) ≡ times e)
unfolding finish_switch_event
observe_button-Told p s e =
    let seen : Entry = record e { runtime = put_unit p.unit_id s e.runtime } in
    let (bs, told) = add_buttons-tell p.unit_id seen in
    let added = put_unit p.unit_id (record s { buttons = p.button ∷ s.buttons }) e.runtime in
    by_test (λ (x : Entry). Told p e.done e.saving x × (times x ≡ times e))
      (member p.button s.buttons) (finish_switch_event p seen)
      (record e {
        runtime = added;
        done = save_buttons (stored_switch_buttons added) ∷ e.done;
        saving = e.saving ++ (p ∷ []);
      })
      (
        inl (
          bs,
          ap
              (λ d.
                send_event p.unit_id p.button p.event_type
                ∷ send_button p.unit_id p.button p.event_type
                ∷ d)
              told,
          add_buttons-saving p.unit_id seen,
        ),
        add_buttons-times p.unit_id seen,
      )
      (inr (refl, refl), refl)

-- The registry's device changes nothing else.
created-same :
    (new_id : ℕ → String) (u : ℕ) (e : Entry)
    → let e' = (get_or_create new_id u e).1 in
      (e'.done ≡ e.done) × (e'.saving ≡ e.saving) × (times e' ≡ times e)
unfolding get_or_create
created-same new_id u e =
    by_option
      (λ (x : Device × Entry).
        (x.1.done ≡ e.done) × (x.1.saving ≡ e.saving) × (times x.1 ≡ times e))
      (get_device (switch_identifier e.entry_id u) e.devices) _ (λ d. (d, e))
      (λ none_here. (refl, refl, refl)) (λ d some_here. (refl, refl, refl))

observe-Told :
    (new_id : ℕ → String) (p : Press) (e : Entry)
    → Told p e.done e.saving (observe_switch_event new_id p e)
      × (times (observe_switch_event new_id p e) ≡ times e)
unfolding observe_switch_event
observe-Told new_id p e =
    let found = get_or_create new_id p.unit_id e in
    let (done, saving, heard) = created-same new_id p.unit_id e in
    let s = with_device (unit_of p.unit_id found.1.runtime) found.0.device_id in
    let (told, same) = observe_button-Told p s found.1 in
    (
      subst (λ d. Told p d e.saving (observe_button p s found.1)) done
          (subst (λ w. Told p found.1.done w (observe_button p s found.1)) saving told),
      same ∙ heard,
    )

-- An event whose time is remembered, and that is told unless it is recent.
heard-Outcome :
    (new_id : ℕ → String) (now : ℕ) (e : Entry) (p : Press) (recent : Bool) (heard : Entry)
    → heard ≡ record e { runtime = record e.runtime { last_switch_events = times heard } }
    → times heard p ≡ some now
    → let e' = (if recent then heard else observe_switch_event new_id p heard) in
      Outcome recent p e e' × (times e' p ≡ some now)
heard-Outcome new_id now e p true heard same seen = (same, seen)
heard-Outcome new_id now e p false heard only seen =
    let done = ap (λ (x : Entry). x.done) only in
    let saving = ap (λ (x : Entry). x.saving) only in
    let (told, same) = observe-Told new_id p heard in
    let e' = observe_switch_event new_id p heard in
    (
      subst (λ d. Told p d e.saving e') done (subst (λ w. Told p heard.done w e') saving told),
      ap (λ (t : Times). t p) same ∙ seen,
    )

-- A message on the topic, not retained, with an event: its time is remembered. If the same event was
-- heard less than a quarter of a second ago, the entry changes in nothing but the times. Otherwise the
-- event is sent to its button and as an event, after no other effect than that entities of its unit's
-- buttons may be added; or the buttons are given to the store and its handler waits for them.
pub process_switch_event-Outcome :
    (new_id : ℕ → String) (topic : String) (now : ℕ) (m : Message) (e : Entry) (p : Press)
    → str_eq m.topic topic ≡ true
    → m.retain ≡ false
    → decode_switch_event m.payload ≡ some p
    → let e' = process_switch_event new_id topic now m e in
      Outcome (is_recent now (e.runtime.last_switch_events p)) p e e'
      × (e'.runtime.last_switch_events p ≡ some now)
unfolding process_switch_event is_duplicate_switch_event
process_switch_event-Outcome new_id topic now m e p on_topic live decoded =
    rw (on_topic, live, decoded)
      (heard-Outcome new_id now e p (is_recent now (e.runtime.last_switch_events p))
        (record e { runtime = (is_duplicate_switch_event now p e.runtime).1 }) refl
        (rw (press_eq_refl p) refl))

-- Repetitions, each less than a quarter of a second after the one before.
abbrev pub IsBurst : ℕ → List ℕ → Type 0
IsBurst t [] = Unit
IsBurst t (now ∷ ts) = (now < t + 250) × IsBurst now ts

abbrev pub repeated : Message → List ℕ → List Step
repeated m [] = []
repeated m (t ∷ ts) = message t m ∷ repeated m ts

-- However long an event goes on to be repeated, each time less than a quarter of a second after the
-- time before, nothing is sent, saved or added for it.
pub run-burst :
    (new_id : ℕ → String) (topic : String) (m : Message) (p : Press) (ts : List ℕ) (t : ℕ)
    (e : Entry)
    → str_eq m.topic topic ≡ true
    → m.retain ≡ false
    → decode_switch_event m.payload ≡ some p
    → e.runtime.last_switch_events p ≡ some t
    → IsBurst t ts
    → let e' = run new_id topic (repeated m ts) e in (e'.done ≡ e.done) × (e'.saving ≡ e.saving)
run-burst new_id topic m p [] t e on_topic live decoded heard burst = (refl, refl)
run-burst new_id topic m p (now ∷ ts) t e on_topic live decoded heard (soon, burst) =
    let e1 = process_switch_event new_id topic now m e in
    let (outcome, seen) =
      process_switch_event-Outcome new_id topic now m e p on_topic live decoded in
    let recent : is_recent now (e.runtime.last_switch_events p) ≡ true =
      rw heard (lt→ltb now (t + 250) soon) in
    let only = subst (λ b. Outcome b p e e1) recent outcome in
    let (done', saving') = run-burst new_id topic m p ts now e1 on_topic live decoded seen burst in
    (done' ∙ ap (λ (x : Entry). x.done) only, saving' ∙ ap (λ (x : Entry). x.saving) only)
