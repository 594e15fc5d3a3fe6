-- ===== src/Integration/Flows.antt =====
-- custom_components/casambi_mqtt/config_flow.py, and __init__.py: the removal of an entry and the listener
-- to its options. A step of a flow shows a form, with an error or without, or ends; Home Assistant's
-- config entries are a list, and the id of a new entry is its own. The schemas are left out.
use Prim.Native.String.{String}
use text.Mathlib.Text.{◌==◌ as str_eq}
use casambi_mqtt.Prelude.{
  Bool, not, Option, none, some, List, [], ◌∷◌, ◌++◌, any, keep, map, if◌then◌else◌,
}
use casambi_mqtt.Json.{Value, str, Fields, end, field, get}
use casambi_mqtt.Integration.Names.{conf_network_name, configured_network_name, is_valid_text}

-- A config entry of this integration.
pub record FlowEntry : Type 0 where
  pub entry_id : String
  pub unique_id : String
  pub fixed : Fields
  pub options : Fields

abbrev pub name_of : FlowEntry → String
name_of e = configured_network_name e.options e.fixed

-- `configured_network_names`, of every entry or of every other one
abbrev pub configured_network_names : Option String → List FlowEntry → List String
configured_network_names none es = map name_of es
configured_network_names (some id) es =
    map name_of (keep (λ (e : FlowEntry). not (str_eq e.entry_id id)) es)

abbrev pub among : String → List String → Bool
among s names = any (λ n. str_eq n s) names

pub data FlowResult : Type 0 where
  invalid_network_name : FlowResult
  network_name_in_use : FlowResult
  aborted : FlowResult
  finished : FlowResult

-- `async_step_user` with an input; Home Assistant aborts if an entry has the unique ID.
unfoldable pub async_step_user : String → String → List FlowEntry → FlowResult × List FlowEntry
async_step_user new_id network_name es =
    if not (is_valid_text network_name)
    then (invalid_network_name, es)
    else if among network_name (configured_network_names none es)
    then (network_name_in_use, es)
    else if any (λ (e : FlowEntry). str_eq e.unique_id network_name) es
    then (aborted, es)
    else (
      finished,
      es
          ++ (record {
            entry_id = new_id;
            unique_id = network_name;
            fixed = field conf_network_name (str network_name) end;
            options = end;
          }
              ∷ []),
    )

-- The keys of SETTING_RANGES and CONF_RECOVERY_ENABLED.
abbrev pub setting_keys : List String
setting_keys =
    "health_stale_seconds" ∷ "health_startup_grace_seconds" ∷ "health_probe_interval_seconds"
    ∷ "health_consumer_probe_interval_seconds" ∷ "health_probe_deadline_seconds"
    ∷ "health_recovery_cooldown_seconds" ∷ "health_stale_confirm_seconds"
    ∷ "health_recovery_verify_seconds" ∷ "health_recovery_enabled" ∷ []

abbrev pub copy_one : String → Option Value → Fields → Fields
copy_one k none rest = rest
copy_one k (some v) rest = field k v rest

-- `{key: user_input[key] for key in keys if key in user_input}`
abbrev pub copied : List String → Fields → Fields
copied [] input = end
copied (k ∷ ks) input = copy_one k (get k input) (copied ks input)

abbrev pub chosen_options : String → Fields → Fields
chosen_options network_name input =
    field conf_network_name (str network_name) (copied setting_keys input)

-- The entry with this id gets a unique ID and options.
abbrev pub change_entry : String → String → Fields → List FlowEntry → List FlowEntry
change_entry id unique_id options [] = []
change_entry id unique_id options (e ∷ es) =
    (if str_eq e.entry_id id then record e { unique_id = unique_id; options = options } else e)
    ∷ change_entry id unique_id options es

-- `async_step_init` of the options flow, with an input
unfoldable pub async_step_init :
    String → String → Fields → List FlowEntry → FlowResult × List FlowEntry
async_step_init id network_name input es =
    if not (is_valid_text network_name)
    then (invalid_network_name, es)
    else if among network_name (configured_network_names (some id) es)
    then (network_name_in_use, es)
    else (finished, change_entry id network_name (chosen_options network_name input) es)

-- What a user can do to the entries.
pub data FlowStep : Type 0 where
  add : String → String → FlowStep
  change : String → String → Fields → FlowStep
  remove : String → FlowStep

abbrev pub flow_step : FlowStep → List FlowEntry → List FlowEntry
flow_step (add new_id network_name) es = (async_step_user new_id network_name es).1
flow_step (change id network_name input) es = (async_step_init id network_name input es).1
flow_step (remove id) es = keep (λ (e : FlowEntry). not (str_eq e.entry_id id)) es

abbrev pub flow_run : List FlowStep → List FlowEntry → List FlowEntry
flow_run [] es = es
flow_run (s ∷ ss) es = flow_run ss (flow_step s es)
