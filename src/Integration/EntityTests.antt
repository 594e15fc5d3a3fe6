-- ===== src/Integration/EntityTests.antt =====
-- The theorems on triggers, lights and networks at a concrete device, unit and sequence of flows.
use Prim.Native.String.{String}
use text.Mathlib.Text.{◌==◌ as str_eq}
use casambi_mqtt.Prelude.{
  ℕ, ◌≤◌, ◌≡◌, refl, true, false, none, some, Option, List, [], ◌∷◌, not, keep, arith, All,
  if◌then◌else◌,
}
use casambi_mqtt.Prelude.Int.{ℤ, pos}
use casambi_mqtt.Prelude.Text.{all_chars, is_digit}
use casambi_mqtt.Prelude.Cut.{value_of}
use casambi_mqtt.Prelude.Dict.{member}
use casambi_mqtt.Json.{end, field, int}
use casambi_mqtt.Health.Bridge.{from_options}
use casambi_mqtt.Health.Observer.{new_observer, on_processed_unit}
use casambi_mqtt.Bridge.Commands.{Network}
use casambi_mqtt.Bridge.Conversion.{BtUnit, to_unit_type, unit_event_topic, as_network_unit}
use casambi_mqtt.Integration.Names.{domain, event_prefix, configured_network_name}
use casambi_mqtt.Integration.Triggers.{
  ConfigEntry, Registries, unit_of_entry, switch_for_device, trigger_buttons, async_get_triggers,
}
use casambi_mqtt.Integration.Firing.{Fires, async_get_triggers-Fires}
use casambi_mqtt.Integration.Entities.{unit_kind, type_light}
use casambi_mqtt.Integration.Lights.{Light, Consumer, lookup, event_processor}
use casambi_mqtt.Integration.Control.{unit_message, Controls, published-controlled}
use casambi_mqtt.Integration.Migration.{RegistryEntry, MigratedEntry, EntityRegistry}
use casambi_mqtt.Integration.Options.{from_options-chosen}
use casambi_mqtt.Integration.Flows.{
  chosen_options, FlowStep, add, change, flow_run, async_step_user,
}
use casambi_mqtt.Integration.Separate.{Separate}
use casambi_mqtt.Integration.Networks.{HasNewIds, AtMostOne, flow_run-AtMostOne}

abbrev read_int : String → Option ℤ
read_int s = if all_chars is_digit s then some (pos (value_of s 0)) else none

abbrev entry : ConfigEntry
entry = record { entry_id = "e1"; integration = domain; runtime_data = none }

abbrev registries : Registries
registries = record {
  device = λ id.
      some (record { config_entries = "e1" ∷ []; identifiers = (domain, "e1:switch:7") ∷ [] });
  entry = λ id. some entry;
  int = read_int;
}

switch_7 : switch_for_device registries "device" ≡ some (entry, 7)
unfolding switch_for_device unit_of_entry
switch_7 = refl

low_buttons : (b : ℕ) → member b (trigger_buttons entry 7) ≡ true → b ≤ 255
unfolding trigger_buttons
low_buttons b h = ground arith

async_get_triggers-Fires_example :
    All (Fires registries entry 7) (async_get_triggers registries "device")
async_get_triggers-Fires_example =
    async_get_triggers-Fires registries "device" entry 7 switch_7 low_buttons

-- A dimmable unit without an address.
abbrev lamp : BtUnit
lamp = record {
  address = "";
  device_id = 3;
  is_on = true;
  name = "Lamp";
  online = true;
  state = some (some 128);
  uuid = "u1";
  unit_type = record {
    id = 1;
    manufacturer = "Casambi";
    mode = "DIM";
    model = "D1";
    state_length = 1;
    controls =
        record {
          default = 0;
          length = 8;
          offset = 0;
          readonly = false;
          type_name = "DIMMER";
          type_value = 0;
        }
        ∷ [];
  };
}

abbrev consumer : Consumer
consumer = record {
  light_platform = true;
  scene_platform = true;
  lights = [];
  scenes = [];
  health = new_observer (from_options end) "casambi/home/events/" 0;
}

abbrev network : Network
network = record { units = as_network_unit lamp ∷ []; scenes = [] }

lamp_topic : unit_event_topic (λ s. s) "home" lamp ≡ some "casambi/home/events/uuid/u1"
unfolding unit_event_topic event_prefix
lamp_topic = refl

lamp_kind : unit_kind (to_unit_type lamp.unit_type) ≡ type_light
unfolding unit_kind
lamp_kind = refl

published-controlled_example :
    let c' =
      event_processor
        (λ s. s)
        "home"
        "e1"
        5000
        (unit_message "casambi/home/events/uuid/u1" lamp (some 9))
        consumer in
    ((l : Light) × (lookup "casambi/home/events/uuid/u1" c'.lights ≡ some l)
      × Controls network lamp l)
    × (c'.health ≡ on_processed_unit "casambi/home/events/uuid/u1" (some 9) 5000 consumer.health)
published-controlled_example =
    published-controlled (λ s. s) "home" "e1" "casambi/home/events/uuid/u1" 5000 network lamp
      (some 9) consumer lamp_topic lamp_kind refl tt

abbrev flow_steps : List FlowStep
flow_steps = add "e1" "home" ∷ add "e2" "home" ∷ change "e1" "office" end ∷ []

new_ids : HasNewIds flow_steps []
unfolding async_step_user configured_network_name
new_ids = (refl, (refl, tt))

flow_run-AtMostOne_example :
    Separate (flow_run flow_steps []) × AtMostOne "casambi/home/events/a1" (flow_run flow_steps [])
flow_run-AtMostOne_example = flow_run-AtMostOne flow_steps "casambi/home/events/a1" new_ids

-- A registry that is a list of entities of one entry; a unique ID that is in use is refused.
abbrev renamed : String → String → List RegistryEntry → List RegistryEntry
renamed id unique_id [] = []
renamed id unique_id (e ∷ es) =
    (if str_eq e.entity_id id then record e { unique_id = unique_id } else e)
    ∷ renamed id unique_id es

abbrev holder : String → List RegistryEntry → Option String
holder unique_id [] = none
holder unique_id (e ∷ es) =
    if str_eq e.unique_id unique_id then some e.entity_id else holder unique_id es

abbrev listed : EntityRegistry (List RegistryEntry)
listed = record {
  entries_for = λ r id. r;
  entity_of = λ r d u. holder u r;
  update_entity = λ r id u. elim (holder u r) [ none ↦ some (renamed id u r) | some other ↦ none ];
  remove = λ r id. keep (λ (e : RegistryEntry). not (str_eq e.entity_id id)) r;
}

abbrev old_entry : MigratedEntry
old_entry = record { entry_id = "e1"; version = 1; unique_id = none; options = end; fixed = end }

abbrev old_light : RegistryEntry
old_light = record {
  entity_id = "light.lamp";
  entity_domain = "light";
  platform = domain;
  unique_id = "casambi_mqtt_light_a1";
}

from_options-chosen_example :
    from_options (chosen_options "home" (field "health_stale_seconds" (int (pos 90)) end))
    ≡ from_options (field "health_stale_seconds" (int (pos 90)) end)
from_options-chosen_example =
    from_options-chosen "home" (field "health_stale_seconds" (int (pos 90)) end)
