-- ===== src/Integration/Started.antt =====
-- custom_components/casambi_mqtt/__init__.py: the entities and the signals of an entry's switches, from
-- its setup on.
use Prim.Native.String.{String}
use text.Mathlib.Text.{◌==◌ as str_eq}
use casambi_mqtt.Prelude.{
  ℕ, ◌≡◌, ◌∙◌, refl, sym, subst, true, Option, none, some, List, [], ◌∷◌, by_test, by_option, All,
}
use casambi_mqtt.Prelude.Int.{ℤ}
use casambi_mqtt.Json.{Value, obj, arr, Fields, end, field}
use casambi_mqtt.Integration.Names.{domain}
use casambi_mqtt.Integration.Runtime.{
  RuntimeData, new_runtime, put_unit, add_switch_unit, Device, Entry, async_add_switch_buttons,
  add_all, unit_numbers, setup_event_platform,
}
use casambi_mqtt.Integration.Switches.{
  identified_unit, stored_unit, adopt_identifiers, registered_switch_units, restore_unit,
  restore_units, restore_switch_buttons, setup_switches, Step, run,
}
use casambi_mqtt.Integration.Buttons.{added, Once, Heard, Sound, add_buttons-Sound}
use casambi_mqtt.Integration.Handling.{IsObserved, Held, add_buttons-saving}
use casambi_mqtt.Integration.Runs.{run-Held}

-- No button has an entity yet.
abbrev NoEntity : RuntimeData → Type 0
NoEntity r = r.switch_button_events ≡ []

module _ (int : String → Option ℤ) (entry_id : String) (ds : List Device) where
  adopt-NoEntity :
      (id : String) (ids : List (String × String)) (r : RuntimeData)
      → NoEntity r
      → NoEntity (adopt_identifiers int entry_id id ids r)
  unfolding add_switch_unit
  adopt-NoEntity id [] r h = h
  adopt-NoEntity id ((name, value) ∷ rest) r h = adopt-NoEntity id rest _ (
      by_test NoEntity (str_eq name domain) _ r
        (by_option NoEntity (identified_unit int entry_id value) r (λ u. add_switch_unit u id r)
          (λ none_here. h) (λ u some_here. h))
        h)

  registered-NoEntity :
      (devices : List Device) (r : RuntimeData)
      → NoEntity r
      → NoEntity (registered_switch_units int entry_id devices r)
  unfolding registered_switch_units
  registered-NoEntity [] r h = h
  registered-NoEntity (d ∷ devices) r h =
      registered-NoEntity devices _ (adopt-NoEntity d.device_id d.identifiers r h)

  restore_unit-NoEntity :
      (raw : String) (v : Value) (r : RuntimeData)
      → NoEntity r
      → NoEntity (restore_unit int entry_id ds raw v r)
  restore_unit-NoEntity raw (arr bs) r h =
      by_option NoEntity (stored_unit int entry_id ds raw bs) r (λ us. put_unit us.0 us.1 r)
        (λ none_here. h) (λ us some_here. h)
  restore_unit-NoEntity raw Value.null r h = h
  restore_unit-NoEntity raw (Value.bool b) r h = h
  restore_unit-NoEntity raw (Value.int i) r h = h
  restore_unit-NoEntity raw (Value.float i) r h = h
  restore_unit-NoEntity raw (Value.str s) r h = h
  restore_unit-NoEntity raw (obj d) r h = h

  restore_units-NoEntity :
      (stored : Fields) (r : RuntimeData)
      → NoEntity r
      → NoEntity (restore_units int entry_id ds stored r)
  restore_units-NoEntity end r h = h
  restore_units-NoEntity (field raw v rest) r h =
      restore_units-NoEntity rest _ (restore_unit-NoEntity raw v r h)

  restore-NoEntity :
      (stored : Option Value) → NoEntity (restore_switch_buttons int entry_id ds stored new_runtime)
  unfolding restore_switch_buttons
  restore-NoEntity none = registered-NoEntity ds new_runtime refl
  restore-NoEntity (some (obj d)) =
      restore_units-NoEntity d _ (registered-NoEntity ds new_runtime refl)
  restore-NoEntity (some (arr bs)) = registered-NoEntity ds new_runtime refl
  restore-NoEntity (some Value.null) = registered-NoEntity ds new_runtime refl
  restore-NoEntity (some (Value.bool b)) = registered-NoEntity ds new_runtime refl
  restore-NoEntity (some (Value.int i)) = registered-NoEntity ds new_runtime refl
  restore-NoEntity (some (Value.float i)) = registered-NoEntity ds new_runtime refl
  restore-NoEntity (some (Value.str s)) = registered-NoEntity ds new_runtime refl

add_all-Sound : (us : List ℕ) (e : Entry) → Sound e → Sound (add_all us e)
add_all-Sound [] e h = h
add_all-Sound (u ∷ us) e h =
    add_all-Sound us (async_add_switch_buttons u e) (add_buttons-Sound u e h)

add_all-saving : (us : List ℕ) (e : Entry) → e.saving ≡ [] → (add_all us e).saving ≡ []
add_all-saving [] e h = h
add_all-saving (u ∷ us) e h =
    add_all-saving us (async_add_switch_buttons u e) (add_buttons-saving u e ∙ h)

setup-Held :
    (int : String → Option ℤ) (entry_id : String) (ds : List Device) (stored : Option Value)
    → Held (setup_switches int entry_id ds stored)
unfolding setup_switches setup_event_platform
setup-Held int entry_id ds stored =
    let r = restore_switch_buttons int entry_id ds stored new_runtime in
    let none_yet = restore-NoEntity int entry_id ds stored in
    let ready : RuntimeData = record r { event_platform = true } in
    let e : Entry = record {
      entry_id = entry_id;
      runtime = ready;
      devices = ds;
      done = [];
      saving = [];
    } in
    record {
      sound = add_all-Sound (unit_numbers r.switch_units) e (record {
        platform = refl;
        entered = sym none_yet;
        once = subst Once (sym none_yet) tt;
        heard = tt;
      });
      waiting =
          subst (All (IsObserved (add_all (unit_numbers r.switch_units) e).runtime))
            (sym (add_all-saving (unit_numbers r.switch_units) e refl)) tt;
    }

-- From the setup of an entry on, whatever messages arrive and however its saves end, no button's entity
-- is added twice, and whatever is sent for a button is sent after its entity was added.
pub run-heard :
    (int : String → Option ℤ) (new_id : ℕ → String) (topic entry_id : String) (ds : List Device)
    (stored : Option Value) (steps : List Step)
    → let e = run new_id topic steps (setup_switches int entry_id ds stored) in
      Once (added e.done) × Heard e.done
run-heard int new_id topic entry_id ds stored steps =
    let h =
      (run-Held new_id topic steps (setup_switches int entry_id ds stored)
        (setup-Held int entry_id ds stored)).sound in
    (subst Once (sym h.entered) h.once, h.heard)
