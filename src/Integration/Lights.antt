-- ===== src/Integration/Lights.antt =====
-- custom_components/casambi_mqtt: light.py, scene.py and button.py, and the message handlers
-- event_processor and scene_processor of __init__.py. `quote` of urllib is a parameter. That an entity is
-- disabled, so that its state is not written, is the user's: only what the entity holds is modelled.
use Prim.Native.String.{String}
use text.Mathlib.Text.{◌==◌ as str_eq}
use casambi_mqtt.Prelude.{
  ℕ, suc, Bool, true, false, not, ◌&&◌, ◌||◌, Option, none, some, List, if◌then◌else◌,
}
use casambi_mqtt.Prelude.Int.{ℤ, pos}
use casambi_mqtt.Prelude.Maybe.{◌>>=◌}
use casambi_mqtt.Prelude.Cut.{◌+++◌, strip_prefix}
use casambi_mqtt.Prelude.Dict.{find, put}
use casambi_mqtt.Json.{Value, null, int, as_text, require}
use casambi_mqtt.Health.Observer.{HealthObserver, on_processed_unit}
use casambi_mqtt.Integration.Names.{event_prefix, entry_scoped_unique_id}
use casambi_mqtt.Integration.Entities.{
  UnitEntity, UnitKind, type_light, unit_kind, OutCommand, set_level, turn_on,
}

-- A unit whose fields have the types that the integration checks.
pub record ValidUnit : Type 0 where
  pub name : String
  pub address : String
  pub uuid : String
  pub dimmer : ℤ
  pub kind : UnitKind

-- `dimmer or 0`, of an integer or None
abbrev pub dimmer_of : Value → Option ℤ
dimmer_of null = some (pos 0)
dimmer_of (int n) = some n
dimmer_of _ = none

unfoldable pub valid_unit : UnitEntity → Option ValidUnit
valid_unit u = do
  address ← as_text u.address
  uuid ← as_text u.uuid
  state ← u.state
  dimmer ← dimmer_of state.dimmer
  some (record {
    name = u.name;
    address = address;
    uuid = uuid;
    dimmer = dimmer;
    kind = unit_kind u.unit_type;
  })

pub record Light : Type 0 where
  pub name : String
  pub unique_id : String
  pub is_on : Bool
  pub brightness : ℤ
  pub topic : String
  pub bt_address : String
  pub unit_uuid : String

-- `dimmer > 0`
abbrev pub is_positive : ℤ → Bool
is_positive (pos (suc n)) = true
is_positive _ = false

abbrev pub light_unique_id : ValidUnit → String
light_unique_id u =
    if str_eq u.address ""
    then "casambi_mqtt_light_uuid_" +++ u.uuid
    else "casambi_mqtt_light_" +++ u.address

unfoldable pub new_light : String → String → ValidUnit → Light
new_light topic entry_id u = record {
  name = u.name;
  unique_id = entry_scoped_unique_id entry_id (light_unique_id u);
  is_on = is_positive u.dimmer;
  brightness = u.dimmer;
  topic = topic;
  bt_address = u.address;
  unit_uuid = u.uuid;
}

unfoldable pub update_light : ValidUnit → Light → Light
update_light u l = record l {
  unit_uuid = u.uuid;
  is_on = is_positive u.dimmer;
  brightness = u.dimmer;
}

-- `async_turn_on`, with the brightness that is asked for, if one is
unfoldable pub async_turn_on : Option ℕ → Light → OutCommand
async_turn_on none l = turn_on l.bt_address l.unit_uuid
async_turn_on (some brightness) l = set_level l.bt_address brightness l.unit_uuid

unfoldable pub async_turn_off : Light → OutCommand
async_turn_off l = set_level l.bt_address 0 l.unit_uuid

pub record SceneEntity : Type 0 where
  pub casambi_id : ℤ
  pub unique_id : String
  pub name : String

-- The runtime data, as far as lights and scenes go, and the health observer.
pub record Consumer : Type 0 where
  pub light_platform : Bool
  pub scene_platform : Bool
  pub lights : List (String × Light)
  pub scenes : List (String × SceneEntity)
  pub health : HealthObserver

-- A message: its topic, whether its payload is empty, and what it carries, if that can be read.
pub record EntityMessage (A : Type 0) : Type 0 where
  pub topic : String
  pub has_payload : Bool
  pub entity : Option A
  pub timestamp : Option ℕ

abbrev pub lookup : {A : Type 0} → String → List (String × A) → Option A
lookup topic d = find (λ a b. str_eq a b) topic d

abbrev pub place : {A : Type 0} → String → A → List (String × A) → List (String × A)
place topic a d = put (λ x y. str_eq x y) topic a d

-- `health.on_processed_unit`, once the message is handled
unfoldable pub processed : ℕ → EntityMessage UnitEntity → Consumer → Consumer
processed now m c = record c { health = on_processed_unit m.topic m.timestamp now c.health }

-- Does the topic go with the unit?
abbrev pub fits_topic : (String → String) → String → ValidUnit → Bool
fits_topic quote suffix u =
    if str_eq u.address ""
    then not (str_eq u.uuid "") && str_eq suffix ("uuid/" +++ quote u.uuid)
    else str_eq suffix u.address

-- The light of the topic is created or updated.
abbrev pub show_light : String → String → ValidUnit → Consumer → Consumer
show_light entry_id topic u c = record c {
  lights =
      place topic
        (elim (lookup topic c.lights) [
          | none ↦ new_light topic entry_id u
          | some l ↦ update_light u l
        ])
        c.lights;
}

abbrev pub is_light : UnitKind → Bool
is_light type_light = true
is_light _ = false

abbrev pub handle_unit :
    (String → String)
    → String
    → ℕ
    → EntityMessage UnitEntity
    → String
    → ValidUnit
    → Consumer
    → Consumer
handle_unit quote entry_id now m suffix u c =
    if not (is_light u.kind)
    then processed now m c
    else if not (fits_topic quote suffix u) || not c.light_platform
    then c
    else processed now m (show_light entry_id m.topic u c)

-- What follows the prefix, if the message has a payload and something follows.
abbrev pub suffix_of : {A : Type 0} → String → EntityMessage A → Option String
suffix_of prefix m =
    require m.has_payload
      (do suffix ← strip_prefix prefix m.topic; require (not (str_eq suffix "")) (some suffix))

-- The unit that a message carries, and what follows the prefix in its topic.
abbrev pub read_unit : String → EntityMessage UnitEntity → Option (String × ValidUnit)
read_unit network_name m = do
  suffix ← suffix_of (event_prefix network_name) m
  u ← m.entity
  v ← valid_unit u
  some (suffix, v)

unfoldable pub event_processor :
    (String → String) → String → String → ℕ → EntityMessage UnitEntity → Consumer → Consumer
event_processor quote network_name entry_id now m c = elim (read_unit network_name m) [
  | none ↦ c
  | some sv ↦ handle_unit quote entry_id now m sv.0 sv.1 c
]
