-- ===== src/Integration/Scenes.antt =====
-- custom_components/casambi_mqtt: scene.py and button.py, and scene_processor of __init__.py.
use Prim.Native.String.{String}
use text.Mathlib.Text.{◌==◌ as str_eq}
use casambi_mqtt.Prelude.{ℕ, suc, ◌&&◌, Option, none, some}
use casambi_mqtt.Prelude.Int.{ℤ, pos, negsuc}
use casambi_mqtt.Prelude.Maybe.{◌>>=◌}
use casambi_mqtt.Prelude.Cut.{◌+++◌, decimal}
use casambi_mqtt.Json.{Value, int, require}
use casambi_mqtt.Integration.Names.{scene_prefix, entry_scoped_unique_id}
use casambi_mqtt.Integration.Entities.{Scene, OutCommand, set_scene, publish_entities}
use casambi_mqtt.Integration.Lights.{SceneEntity, Consumer, EntityMessage, lookup, place, suffix_of}

-- `str(n)` of an integer
abbrev pub signed_decimal : ℤ → String
signed_decimal (pos n) = decimal n
signed_decimal (negsuc n) = "-" +++ decimal (suc n)

abbrev pub scene_number : Value → Option ℤ
scene_number (int n) = some n
scene_number _ = none

abbrev pub new_scene : String → ℤ → String → SceneEntity
new_scene entry_id id name = record {
  casambi_id = id;
  unique_id = entry_scoped_unique_id entry_id ("casambi_mqtt_scene_" +++ signed_decimal id);
  name = name;
}

abbrev pub show_scene : String → String → ℤ → String → Consumer → Consumer
show_scene entry_id topic id name c = record c {
  scenes =
      place topic
        (elim (lookup topic c.scenes) [
          | none ↦ new_scene entry_id id name
          | some s ↦ record s { name = name }
        ])
        c.scenes;
}

abbrev pub read_scene : String → EntityMessage Scene → Consumer → Option (ℤ × String)
read_scene network_name m c = do
  suffix ← suffix_of (scene_prefix network_name) m
  s ← m.entity
  id ← scene_number s.scene_id
  require (str_eq suffix (signed_decimal id) && c.scene_platform) (some (id, s.name))

unfoldable pub scene_processor : String → String → EntityMessage Scene → Consumer → Consumer
scene_processor network_name entry_id m c = elim (read_scene network_name m c) [
  | none ↦ c
  | some sn ↦ show_scene entry_id m.topic sn.0 sn.1 c
]

-- `async_activate` of a scene and `async_press` of the button that reloads the entities
unfoldable pub async_activate : ℕ → OutCommand
async_activate id = set_scene id

unfoldable pub async_press : OutCommand
async_press = publish_entities
