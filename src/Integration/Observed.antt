-- ===== src/Integration/Observed.antt =====
-- custom_components/casambi_mqtt/__init__.py, _async_process_switch_event: the range of an event, its
-- device in the registry, and the button that it enters.
use Prim.Native.String.{String}
use text.Mathlib.TextPositions.{eq_refl}
use casambi_mqtt.Prelude.{
  ℕ, ◌≤◌, ◌≡◌, ◌⊎◌, refl, sym, ◌∙◌, subst, inl, inr, true, ◌&&◌, Option, none, some, List, [], ◌∷◌,
  ◌++◌, leb, leb→le, arith, by_test, by_option,
}
use casambi_mqtt.Prelude.Maybe.{some_inj, bind-some}
use casambi_mqtt.Prelude.Cut.{and_left, and_right}
use casambi_mqtt.Prelude.Dict.{member}
use casambi_mqtt.Json.{Value, Fields, get, has_keys, as_object, as_text, as_count, require-some}
use casambi_mqtt.Integration.Names.{switch_identifier}
use casambi_mqtt.Integration.Runtime.{
  Press, is_event_type, decode_switch_event, SwitchUnit, RuntimeData, unit_of, put_unit,
  stored_switch_buttons, save_buttons, Device, Entry,
}
use casambi_mqtt.Integration.Switches.{
  get_device, create_device, get_or_create, finish_switch_event, observe_button,
}
use casambi_mqtt.Integration.Handling.{buttons_of}
use casambi_mqtt.Integration.Stored.{IsKnown}
use casambi_mqtt.Integration.Kept.{
  last_requested, IsNewest, Kept, finish-Kept, put-Distinct, put-AllKnown, stored-put,
  get_device-append, get_device-last,
}

-- What is decoded is in range.
pub decode-in_range :
    (payload : Option Value) (p : Press)
    → decode_switch_event payload ≡ some p
    → (p.unit_id ≤ 255) × (p.button ≤ 255)
unfolding decode_switch_event
decode-in_range payload p h =
    let (v, e1, h1) = bind-some payload _ p h in
    let (d, e2, h2) = bind-some (as_object v) _ p h1 in
    let (keys, h3) = require-some (has_keys ("unit_id" ∷ "button" ∷ "event" ∷ []) d) _ p h2 in
    let (x, e4, h4) = bind-some (get "unit_id" d) _ p h3 in
    let (y, e5, h5) = bind-some (get "button" d) _ p h4 in
    let (z, e6, h6) = bind-some (get "event" d) _ p h5 in
    let (u, e7, h7) = bind-some (as_count x) _ p h6 in
    let (b, e8, h8) = bind-some (as_count y) _ p h7 in
    let (t, e9, h9) = bind-some (as_text z) _ p h8 in
    let (ok, same) = require-some (leb u 255 && (leb b 255 && is_event_type t)) _ p h9 in
    let eq = some_inj same in
    let low = leb→le u 255 (and_left (leb u 255) _ ok) in
    let rest = and_right (leb u 255) _ ok in
    let low' = leb→le b 255 (and_left (leb b 255) _ rest) in
    subst (λ (q : Press). (q.unit_id ≤ 255) × (q.button ≤ 255)) eq (low, low')

-- The device of the event is registered, and every other one stays registered.
pub registers :
    (new_id : ℕ → String) (u : ℕ) (e : Entry)
    → Kept e
    → let found = get_or_create new_id u e in
      Kept found.1
      × (get_device (switch_identifier found.1.entry_id u) found.1.devices ≡ some found.0)
      × (found.1.runtime ≡ e.runtime)
unfolding get_or_create
registers new_id u e h =
    let value = switch_identifier e.entry_id u in
    let d = create_device (new_id u) e.entry_id u in
    by_option
      (λ (x : Device × Entry).
        Kept x.1
        × (get_device (switch_identifier x.1.entry_id u) x.1.devices ≡ some x.0)
        × (x.1.runtime ≡ e.runtime))
      (get_device value e.devices) (d, record e { devices = e.devices ++ (d ∷ []) }) (λ x. (x, e))
      (λ none_here. (
        record {
          known = λ v s found.
              let k = h.known v s found in
              record {
                in_range = k.in_range;
                buttons_in_range = k.buttons_in_range;
                device = k.device;
                registered =
                    get_device-append (switch_identifier e.entry_id v) e.devices (d ∷ []) k.device
                      k.registered;
              };
          distinct = h.distinct;
          saved_now = h.saved_now;
        },
        get_device-last value e.devices d none_here (rw (eq_refl value) refl),
        refl,
      ))
      (λ x some_here. (h, some_here, refl))

pub still-IsNewest :
    (o : Option Fields) (r r' : RuntimeData)
    → stored_switch_buttons r ≡ stored_switch_buttons r'
    → IsNewest r o
    → IsNewest r' o
still-IsNewest none r r' e h = tt
still-IsNewest (some d) r r' e h = h ∙ e

member-cons : (c b : ℕ) (bs : List ℕ) → member c (b ∷ bs) ≡ true → (b ≡ c) ⊎ (member c bs ≡ true)
member-cons c b bs h = ground arith

pub observe_button-Kept :
    (p : Press) (s : SwitchUnit) (e : Entry)
    → p.button ≤ 255
    → buttons_of (unit_of p.unit_id e.runtime) ≡ s.buttons
    → IsKnown e.entry_id e.devices p.unit_id s
    → Kept e
    → Kept (observe_button p s e)
unfolding stored_switch_buttons
observe_button-Kept p s e low same k h =
    let more : SwitchUnit = record s { buttons = p.button ∷ s.buttons } in
    let added_one = put_unit p.unit_id more e.runtime in
    let wider : IsKnown e.entry_id e.devices p.unit_id more = record {
      in_range = k.in_range;
      buttons_in_range = λ c m. elim (member-cons c p.button s.buttons m) [
        | inl is_new ↦ subst (λ x. x ≤ 255) is_new low
        | inr is_old ↦ k.buttons_in_range c is_old
      ];
      device = k.device;
      registered = k.registered;
    } in
    by_test Kept (member p.button s.buttons)
      (finish_switch_event p (record e { runtime = put_unit p.unit_id s e.runtime }))
      (record e {
        runtime = added_one;
        done = save_buttons (stored_switch_buttons added_one) ∷ e.done;
        saving = e.saving ++ (p ∷ []);
      })
      (finish-Kept p (record e { runtime = put_unit p.unit_id s e.runtime })
        (record {
          known = put-AllKnown e.entry_id e.devices p.unit_id s e.runtime.switch_units k h.known;
          distinct = put-Distinct p.unit_id s e.runtime.switch_units h.distinct;
          saved_now =
              still-IsNewest (last_requested e.done) e.runtime (put_unit p.unit_id s e.runtime)
                (sym (stored-put p.unit_id s e.runtime.switch_units same)) h.saved_now;
        }))
      (record {
        known =
            put-AllKnown e.entry_id e.devices p.unit_id more e.runtime.switch_units wider h.known;
        distinct = put-Distinct p.unit_id more e.runtime.switch_units h.distinct;
        saved_now = refl;
      })
