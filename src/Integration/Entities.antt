-- ===== src/Integration/Entities.antt =====
-- custom_components/casambi_mqtt/entities: entities.py and commands.py. dataclasses_json, which writes and
-- reads the entities, stands outside: a payload is what `from_json` makes of it. It does not check types,
-- so that the fields which the integration checks itself are any JSON value.
use Prim.Native.String.{String}
use text.Mathlib.Text.{◌==◌ as str_eq}
use casambi_mqtt.Prelude.{ℕ, Bool, true, false, Option, none, some, List, any, if◌then◌else◌}
use casambi_mqtt.Prelude.Int.{pos}
use casambi_mqtt.Prelude.Cut.{strip_prefix, lower}
use casambi_mqtt.Json.{Value, int, str, Fields, end, field}

pub record UnitControlType : Type 0 where
  pub name : String
  pub value : ℕ

pub record UnitControl : Type 0 where
  pub default : ℕ
  pub length : ℕ
  pub offset : ℕ
  pub readonly : Bool
  pub control_type : UnitControlType

pub record UnitType : Type 0 where
  pub id : ℕ
  pub manufacturer : String
  pub mode : String
  pub model : String
  pub state_length : ℕ
  pub controls : List UnitControl

pub record UnitState : Type 0 where
  pub dimmer : Value

pub record UnitEntity : Type 0 where
  pub address : Value
  pub device_id : ℕ
  pub is_on : Bool
  pub name : String
  pub online : Bool
  pub state : Option UnitState
  pub uuid : Value
  pub unit_type : UnitType

pub record Scene : Type 0 where
  pub scene_id : Value
  pub name : String

pub data UnitKind : Type 0 where
  type_light : UnitKind
  type_switch : UnitKind
  type_unknown : UnitKind

-- `needle in s`
abbrev pub contains : String → String → Bool
contains needle String.[] = elim (strip_prefix needle "") [ none ↦ false | some rest ↦ true ]
contains needle (String.◌∷◌ c s) =
    let later = contains needle s in
    elim (strip_prefix needle (String.◌∷◌ c s)) [ none ↦ later | some rest ↦ true ]

-- `Unit.type()`
unfoldable pub unit_kind : UnitType → UnitKind
unit_kind t =
    if any (λ (c : UnitControl). str_eq c.control_type.name "DIMMER") t.controls
    then type_light
    else if contains "switch" (lower t.mode)
    then type_switch
    else type_unknown

-- The commands, with `to_json`: the fields of the data class, then the action.
pub data OutCommand : Type 0 where
  set_level : String → ℕ → String → OutCommand
  turn_on : String → String → OutCommand
  publish_entities : OutCommand
  set_scene : ℕ → OutCommand

unfoldable pub command_json : OutCommand → Fields
command_json (set_level address value unit_uuid) = field "address" (str address) (
    field "value" (int (pos value))
      (field "unit_uuid" (str unit_uuid) (field "action" (str "SET_LEVEL") end)))
command_json (turn_on address unit_uuid) =
    field "address" (str address)
      (field "unit_uuid" (str unit_uuid) (field "action" (str "TURN_ON") end))
command_json publish_entities = field "action" (str "PUBLISH_ENTITIES") end
command_json (set_scene scene_id) =
    field "scene_id" (int (pos scene_id)) (field "action" (str "SET_SCENE") end)
