-- ===== src/Integration/Names.antt =====
-- custom_components/casambi_mqtt/const.py, and the topics that __init__.py makes of a network's name.
use Prim.Native.String.{String}
use text.Mathlib.Text.{◌==◌ as str_eq}
use casambi_mqtt.Prelude.{ℕ, Bool, false, not, ◌&&◌, Option, none, some, if◌then◌else◌}
use casambi_mqtt.Prelude.Maybe.{◌>>=◌}
use casambi_mqtt.Prelude.Cut.{◌+++◌, decimal, is_free}
use casambi_mqtt.Json.{Value, Fields, get, as_text}

abbrev pub domain : String
domain = "casambi_mqtt"

abbrev pub mqtt_topic_prefix : String
mqtt_topic_prefix = "casambi"

abbrev pub conf_network_name : String
conf_network_name = "mqtt_network_name"

abbrev pub default_network_name : String
default_network_name = "default"

-- `v or fallback`, where the mapping has a text under the key or nothing
abbrev pub text_or : Option Value → String → String
text_or given fallback = elim (given >>= as_text) [
  | none ↦ fallback
  | some s ↦ if str_eq s "" then fallback else s
]

unfoldable pub configured_network_name : Fields → Fields → String
configured_network_name options fixed =
    text_or (get conf_network_name options)
      (text_or (get conf_network_name fixed) default_network_name)

abbrev pub is_valid_text : String → Bool
is_valid_text s =
    not (str_eq s "") && (is_free b'/' s && (is_free b'+' s && (is_free b'#' s && is_free 0 s)))

unfoldable pub is_valid_network_name : Value → Bool
is_valid_network_name v = elim (as_text v) [ none ↦ false | some s ↦ is_valid_text s ]

abbrev pub signal_prefix : String → String
signal_prefix entry_id = domain +++ "_" +++ entry_id +++ "_switch_"

unfoldable pub switch_event_signal : String → ℕ → ℕ → String → String
switch_event_signal entry_id unit_id button event_type =
    signal_prefix entry_id +++ (decimal unit_id +++ "_" +++ (decimal button +++ "_" +++ event_type))

unfoldable pub switch_button_signal : String → ℕ → ℕ → String
switch_button_signal entry_id unit_id button =
    signal_prefix entry_id +++ (decimal unit_id +++ "_" +++ decimal button)

unfoldable pub entry_scoped_unique_id : String → String → String
entry_scoped_unique_id entry_id legacy_unique_id = entry_id +++ "_" +++ legacy_unique_id

-- The value of a switch device's identifier.
unfoldable pub switch_identifier : String → ℕ → String
switch_identifier entry_id unit_id = entry_id +++ ":switch:" +++ decimal unit_id

unfoldable pub event_prefix : String → String
event_prefix network_name = mqtt_topic_prefix +++ "/" +++ network_name +++ "/events/"

unfoldable pub scene_prefix : String → String
scene_prefix network_name = mqtt_topic_prefix +++ "/" +++ network_name +++ "/scenes/"

unfoldable pub switch_event_topic : String → String
switch_event_topic network_name = mqtt_topic_prefix +++ "/" +++ network_name +++ "/switch_events"

unfoldable pub command_topic : String → String
command_topic network_name = mqtt_topic_prefix +++ "/" +++ network_name +++ "/commands"
