-- ===== src/Integration/Switches.antt =====
-- custom_components/casambi_mqtt/__init__.py: _async_process_switch_event, _registered_switch_units and
-- _restore_switch_buttons. Python's `int()` of a text is a parameter, as is the id that Home Assistant
-- gives to a new device. The handler is cut at its await, where the store saves.
use Prim.Native.String.{String}
use text.Mathlib.Text.{◌==◌ as str_eq}
use casambi_mqtt.Prelude.{
  ℕ, zero, suc, Bool, not, ◌&&◌, ◌||◌, Option, none, some, List, [], ◌∷◌, ◌++◌, any, leb,
  if◌then◌else◌,
}
use casambi_mqtt.Prelude.Maybe.{◌>>=◌}
use casambi_mqtt.Prelude.Int.{ℤ, pos, negsuc}
use casambi_mqtt.Prelude.Cut.{strip_prefix, ◌+++◌}
use casambi_mqtt.Prelude.Dict.{member}
use casambi_mqtt.Json.{Value, arr, obj, Fields, end, field, Items, no_item, item, as_count, require}
use casambi_mqtt.Integration.Names.{domain, switch_identifier}
use casambi_mqtt.Integration.Runtime.{
  max_switch_value, Press, decode_switch_event, SwitchUnit, RuntimeData, is_duplicate_switch_event,
  unit_of, put_unit, add_switch_unit, stored_switch_buttons, save_buttons, send_button, send_event,
  Device, Entry, async_add_switch_buttons, setup_event_platform, new_runtime,
}

-- `registry.async_get_device(identifiers={(DOMAIN, value)})`
abbrev pub has_identifier : String → Device → Bool
has_identifier value d = any (λ i. str_eq i.0 domain && str_eq i.1 value) d.identifiers

abbrev pub get_device : String → List Device → Option Device
get_device value [] = none
get_device value (d ∷ ds) = if has_identifier value d then some d else get_device value ds

-- What an MQTT message is to the handlers, and what its payload loads to.
pub record Message : Type 0 where
  pub topic : String
  pub retain : Bool
  pub payload : Option Value

-- The device of a switch, as it is registered or newly created.
abbrev pub create_device : String → String → ℕ → Device
create_device new_id entry_id u = record {
  device_id = new_id;
  identifiers = (domain, switch_identifier entry_id u) ∷ [];
}

unfoldable pub get_or_create : (ℕ → String) → ℕ → Entry → Device × Entry
get_or_create new_id u e = elim (get_device (switch_identifier e.entry_id u) e.devices) [
  | some d ↦ (d, e)
  | none ↦
      let d = create_device (new_id u) e.entry_id u in
      (d, record e { devices = e.devices ++ (d ∷ []) })
]

-- The switch unit with the device that the registry has now.
abbrev pub with_device : Option SwitchUnit → String → SwitchUnit
with_device none device_id = record { device_id = device_id; buttons = [] }
with_device (some s) device_id = record s { device_id = device_id }

-- From `async_add_switch_buttons` to the end.
unfoldable pub finish_switch_event : Press → Entry → Entry
finish_switch_event p e =
    let e' = async_add_switch_buttons p.unit_id e in
    record e' {
      done =
          send_event p.unit_id p.button p.event_type
          ∷ send_button p.unit_id p.button p.event_type
          ∷ e'.done;
    }

-- A button that is not known yet is entered and saved first.
abbrev pub observe_button : Press → SwitchUnit → Entry → Entry
observe_button p s e =
    let seen = put_unit p.unit_id s e.runtime in
    let added = put_unit p.unit_id (record s { buttons = p.button ∷ s.buttons }) e.runtime in
    if member p.button s.buttons
    then finish_switch_event p (record e { runtime = seen })
    else record e {
      runtime = added;
      done = save_buttons (stored_switch_buttons added) ∷ e.done;
      saving = e.saving ++ (p ∷ []);
    }

unfoldable pub observe_switch_event : (ℕ → String) → Press → Entry → Entry
observe_switch_event new_id p e =
    let (d, e') = get_or_create new_id p.unit_id e in
    observe_button p (with_device (unit_of p.unit_id e'.runtime) d.device_id) e'

-- `_async_process_switch_event`, up to the await
unfoldable pub process_switch_event : (ℕ → String) → String → ℕ → Message → Entry → Entry
process_switch_event new_id topic now m e =
    if not (str_eq m.topic topic) || m.retain then e else elim (decode_switch_event m.payload) [
      | none ↦ e
      | some p ↦
          let (duplicate, r) = is_duplicate_switch_event now p e.runtime in
          let heard : Entry = record e { runtime = r } in
          if duplicate then heard else observe_switch_event new_id p heard
    ]

-- The n-th waiting handler and the others.
abbrev pub pick : ℕ → List Press → Option (Press × List Press)
pick n [] = none
pick zero (p ∷ ps) = some (p, ps)
pick (suc n) (p ∷ ps) = do (q, qs) ← pick n ps; some (q, p ∷ qs)

-- The store has saved for the n-th waiting handler, which goes on, or has raised, which ends it.
unfoldable pub save_ended : ℕ → Bool → Entry → Entry
save_ended n saved e = elim (pick n e.saving) [
  | none ↦ e
  | some pq ↦
      let (p, ps) = pq in
      let on : Entry = record e { saving = ps } in if saved then finish_switch_event p on else on
]

-- A step of the entry, once its platforms are set up.
pub data Step : Type 0 where
  message : ℕ → Message → Step
  saved : ℕ → Bool → Step

module _ (new_id : ℕ → String) (topic : String) where
  abbrev pub step : Step → Entry → Entry
  step (message now m) e = process_switch_event new_id topic now m e
  step (saved n ok) e = save_ended n ok e

  abbrev pub run : List Step → Entry → Entry
  run [] e = e
  run (s ∷ ss) e = run ss (step s e)

abbrev pub as_button : Value → Option ℕ
as_button v = do n ← as_count v; require (leb n max_switch_value) (some n)

-- A list of integers from 0 to 255.
abbrev pub as_buttons : Items → Option (List ℕ)
as_buttons no_item = some []
as_buttons (item v rest) = do b ← as_button v; bs ← as_buttons rest; some (b ∷ bs)

-- The unit that an identifier's value names, from 0 to 255.
abbrev pub unit_in_range : Option ℤ → Option ℕ
unit_in_range none = none
unit_in_range (some (negsuc n)) = none
unit_in_range (some (pos u)) = require (leb u max_switch_value) (some u)

module _ (int : String → Option ℤ) where
  unfoldable pub identified_unit : String → String → Option ℕ
  identified_unit entry_id value = do
    rest ← strip_prefix (entry_id +++ ":switch:") value
    unit_in_range (int rest)

  abbrev pub adopt_identifiers :
      String → String → List (String × String) → RuntimeData → RuntimeData
  adopt_identifiers entry_id device_id [] r = r
  adopt_identifiers entry_id device_id ((name, value) ∷ rest) r =
      adopt_identifiers entry_id device_id rest (
        if str_eq name domain
        then elim (identified_unit entry_id value) [
          | none ↦ r
          | some u ↦ add_switch_unit u device_id r
        ]
        else r)

  -- `_registered_switch_units`
  unfoldable pub registered_switch_units : String → List Device → RuntimeData → RuntimeData
  registered_switch_units entry_id [] r = r
  registered_switch_units entry_id (d ∷ ds) r =
      registered_switch_units entry_id ds (adopt_identifiers entry_id d.device_id d.identifiers r)

  -- One entry of the stored dictionary: the switch unit that it restores, if it is valid and its device
  -- is registered.
  abbrev pub stored_unit : String → List Device → String → Items → Option (ℕ × SwitchUnit)
  stored_unit entry_id ds raw raw_buttons = do
    u ← unit_in_range (int raw)
    bs ← as_buttons raw_buttons
    d ← get_device (switch_identifier entry_id u) ds
    some (u, record { device_id = d.device_id; buttons = bs })

  abbrev pub restore_unit : String → List Device → String → Value → RuntimeData → RuntimeData
  restore_unit entry_id ds raw (arr raw_buttons) r =
      elim (stored_unit entry_id ds raw raw_buttons) [ none ↦ r | some us ↦ put_unit us.0 us.1 r ]
  restore_unit entry_id ds raw _ r = r

  abbrev pub restore_units : String → List Device → Fields → RuntimeData → RuntimeData
  restore_units entry_id ds end r = r
  restore_units entry_id ds (field raw v rest) r =
      restore_units entry_id ds rest (restore_unit entry_id ds raw v r)

  -- `_restore_switch_buttons`
  unfoldable pub restore_switch_buttons :
      String → List Device → Option Value → RuntimeData → RuntimeData
  restore_switch_buttons entry_id ds (some (obj stored)) r =
      restore_units entry_id ds stored (registered_switch_units entry_id ds r)
  restore_switch_buttons entry_id ds _ r = registered_switch_units entry_id ds r

  -- `async_setup_entry` as far as the switches: the stored buttons are restored before the event
  -- platform is set up.
  unfoldable pub setup_switches : String → List Device → Option Value → Entry
  setup_switches entry_id ds stored = setup_event_platform (record {
    entry_id = entry_id;
    runtime = restore_switch_buttons entry_id ds stored new_runtime;
    devices = ds;
    done = [];
    saving = [];
  })
