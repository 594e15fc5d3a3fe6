-- ===== src/Bridge/Conversion.antt =====
-- server.py: what the bridge publishes of a unit and of a scene, the conversions to_entity and to_scene
-- and unit_event_topic. The units of casambi-bt enter by the attributes that the bridge reads; a unit
-- without an address has the empty one. `quote` of urllib is a parameter.
use Prim.Native.String.{String}
use text.Mathlib.Text.{◌==◌ as str_eq}
use casambi_mqtt.Prelude.{ℕ, Bool, Option, none, some, List, map, if◌then◌else◌}
use casambi_mqtt.Prelude.Int.{pos}
use casambi_mqtt.Prelude.Cut.{◌+++◌, decimal}
use casambi_mqtt.Json.{null, int, str}
use casambi_mqtt.Integration.Names.{event_prefix, scene_prefix}
use casambi_mqtt.Integration.Entities.{
  UnitControlType, UnitControl, UnitType, UnitState, UnitEntity, Scene,
}
use casambi_mqtt.Bridge.Commands.{NetworkUnit}

-- The types of casambi-bt.
pub record BtControl : Type 0 where
  pub default : ℕ
  pub length : ℕ
  pub offset : ℕ
  pub readonly : Bool
  pub type_name : String
  pub type_value : ℕ

pub record BtUnitType : Type 0 where
  pub id : ℕ
  pub manufacturer : String
  pub mode : String
  pub model : String
  pub state_length : ℕ
  pub controls : List BtControl

-- The state is None, or has a dimmer that is an integer, None or missing.
pub record BtUnit : Type 0 where
  pub address : String
  pub device_id : ℕ
  pub is_on : Bool
  pub name : String
  pub online : Bool
  pub state : Option (Option ℕ)
  pub uuid : String
  pub unit_type : BtUnitType

pub record BtScene : Type 0 where
  pub scene_id : ℕ
  pub name : String

abbrev pub to_unit_control_type : BtControl → UnitControlType
to_unit_control_type c = record { name = c.type_name; value = c.type_value }

abbrev pub to_unit_control : BtControl → UnitControl
to_unit_control c = record {
  default = c.default;
  length = c.length;
  offset = c.offset;
  readonly = c.readonly;
  control_type = to_unit_control_type c;
}

abbrev pub to_unit_type : BtUnitType → UnitType
to_unit_type t = record {
  id = t.id;
  manufacturer = t.manufacturer;
  mode = t.mode;
  model = t.model;
  state_length = t.state_length;
  controls = map to_unit_control t.controls;
}

abbrev pub to_unit_state : Option (Option ℕ) → UnitState
to_unit_state none = record { dimmer = null }
to_unit_state (some none) = record { dimmer = null }
to_unit_state (some (some n)) = record { dimmer = int (pos n) }

unfoldable pub to_entity : BtUnit → UnitEntity
to_entity u = record {
  address = str u.address;
  device_id = u.device_id;
  is_on = u.is_on;
  name = u.name;
  online = u.online;
  state = some (to_unit_state u.state);
  uuid = str u.uuid;
  unit_type = to_unit_type u.unit_type;
}

unfoldable pub to_scene : BtScene → Scene
to_scene s = record { scene_id = int (pos s.scene_id); name = s.name }

unfoldable pub unit_event_topic : (String → String) → String → BtUnit → Option String
unit_event_topic quote network_name u =
    if str_eq u.address ""
    then (if str_eq u.uuid ""
        then none
        else some (event_prefix network_name +++ ("uuid/" +++ quote u.uuid)))
    else some (event_prefix network_name +++ u.address)

-- The topic on which `publish_entities` publishes a scene.
unfoldable pub scene_topic : String → BtScene → String
scene_topic network_name s = scene_prefix network_name +++ decimal s.scene_id

-- The unit, as far as commands look at it.
abbrev pub as_network_unit : BtUnit → NetworkUnit
as_network_unit u = record { address = u.address; uuid = u.uuid }
