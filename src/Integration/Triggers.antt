-- ===== src/Integration/Triggers.antt =====
-- custom_components/casambi_mqtt/device_trigger.py. The registries of Home Assistant are parameters: its
-- devices and config entries by their ids. A raised InvalidDeviceAutomationConfig or a refusal of the
-- schema is `none`; the job that a trigger runs is left out.
use Prim.Native.String.{String}
use text.Mathlib.Text.{◌==◌ as str_eq}
use casambi_mqtt.Prelude.{
  ℕ, Bool, ◌&&◌, Option, none, some, List, [], ◌∷◌, ◌++◌, any, map, leb, if◌then◌else◌,
}
use casambi_mqtt.Prelude.Int.{ℤ}
use casambi_mqtt.Prelude.Maybe.{◌>>=◌}
use casambi_mqtt.Prelude.Cut.{◌+++◌, strip_prefix, lower, upper}
use casambi_mqtt.Prelude.Dict.{insert_all}
use casambi_mqtt.Json.{require}
use casambi_mqtt.Integration.Names.{domain, switch_event_signal}
use casambi_mqtt.Integration.Runtime.{
  max_switch_value, default_switch_buttons, supported_switch_events, RuntimeData, observed_buttons,
}
use casambi_mqtt.Integration.Switches.{unit_in_range}

abbrev pub event_types : List String
event_types = map lower supported_switch_events

-- A config entry: its id, its integration, and its runtime data, if it has been set up.
pub record ConfigEntry : Type 0 where
  pub entry_id : String
  pub integration : String
  pub runtime_data : Option RuntimeData

-- A device, with the entries that it belongs to and its identifiers.
pub record RegisteredDevice : Type 0 where
  pub config_entries : List String
  pub identifiers : List (String × String)

pub record Registries : Type 0 where
  pub device : String → Option RegisteredDevice
  pub entry : String → Option ConfigEntry
  pub int : String → Option ℤ

-- What follows the prefix in each identifier of the domain that has it.
abbrev pub switch_values : String → List (String × String) → List String
switch_values identifier_prefix [] = []
switch_values identifier_prefix ((name, value) ∷ rest) =
    let others = switch_values identifier_prefix rest in
    if str_eq name domain
    then elim (strip_prefix identifier_prefix value) [ none ↦ others | some v ↦ v ∷ others ]
    else others

abbrev pub single : List String → Option String
single (v ∷ []) = some v
single _ = none

-- The unit that the device is in one entry.
unfoldable pub unit_of_entry : Registries → RegisteredDevice → String → Option (ConfigEntry × ℕ)
unit_of_entry h d id = do
  e ← h.entry id
  require (str_eq e.integration domain) (do
    v ← single (switch_values (e.entry_id +++ ":switch:") d.identifiers)
    u ← unit_in_range (h.int v)
    some (e, u))

abbrev pub first_entry : Registries → RegisteredDevice → List String → Option (ConfigEntry × ℕ)
first_entry h d [] = none
first_entry h d (id ∷ ids) = elim (unit_of_entry h d id) [
  | some found ↦ some found
  | none ↦ first_entry h d ids
]

unfoldable pub switch_for_device : Registries → String → Option (ConfigEntry × ℕ)
switch_for_device h device_id = do d ← h.device device_id; first_entry h d d.config_entries

unfoldable pub trigger_buttons : ConfigEntry → ℕ → List ℕ
trigger_buttons e u =
    insert_all (elim e.runtime_data [ none ↦ [] | some r ↦ observed_buttons u r ])
      default_switch_buttons

pub record Trigger : Type 0 where
  pub device_id : String
  pub event_type : String
  pub subtype : ℕ

abbrev pub triggers_of_button : String → ℕ → List String → List Trigger
triggers_of_button id b [] = []
triggers_of_button id b (t ∷ ts) =
    record { device_id = id; event_type = t; subtype = b } ∷ triggers_of_button id b ts

abbrev pub triggers_of_buttons : String → List ℕ → List Trigger
triggers_of_buttons id [] = []
triggers_of_buttons id (b ∷ bs) = triggers_of_button id b event_types ++ triggers_of_buttons id bs

-- Of each button, one trigger for each phase; none for what is no switch.
abbrev pub listed_triggers : String → Option (ConfigEntry × ℕ) → List Trigger
listed_triggers device_id none = []
listed_triggers device_id (some (e, u)) = triggers_of_buttons device_id (trigger_buttons e u)

unfoldable pub async_get_triggers : Registries → String → List Trigger
async_get_triggers h device_id = listed_triggers device_id (switch_for_device h device_id)

-- `TRIGGER_SCHEMA`
abbrev pub trigger_schema : Trigger → Bool
trigger_schema t = any (λ e. str_eq e t.event_type) event_types && leb t.subtype max_switch_value

unfoldable pub async_validate_trigger_config : Registries → Trigger → Option Trigger
async_validate_trigger_config h t =
    require (trigger_schema t) (do found ← switch_for_device h t.device_id; some t)

-- The signal that `async_attach_trigger` connects the trigger to.
unfoldable pub async_attach_trigger : Registries → Trigger → Option String
async_attach_trigger h t = require (trigger_schema t) (do
  eu ← switch_for_device h t.device_id
  some (switch_event_signal eu.0.entry_id eu.1 t.subtype (upper t.event_type)))
