-- ===== src/Integration/Migration.antt =====
-- custom_components/casambi_mqtt/__init__.py: async_migrate_entry. Home Assistant's entity registry is a
-- parameter: its entries of a config entry, the entity that has a unique ID, and what updating and
-- removing an entity make of it; an update that raises ValueError is `none`.
use Prim.Native.String.{String}
use text.Mathlib.Text.{◌==◌ as str_eq}
use casambi_mqtt.Prelude.{
  ℕ, Bool, true, false, not, ◌&&◌, ◌||◌, Option, none, some, List, [], ◌∷◌, any, ◌==◌,
  if◌then◌else◌,
}
use casambi_mqtt.Prelude.Maybe.{◌>>=◌}
use casambi_mqtt.Prelude.Cut.{◌+++◌, strip_prefix}
use casambi_mqtt.Json.{Fields, require}
use casambi_mqtt.Integration.Names.{domain, configured_network_name, entry_scoped_unique_id}

abbrev pub legacy_addressless_light_unique_id : String
legacy_addressless_light_unique_id = "casambi_mqtt_light_"

abbrev pub config_entry_version : ℕ
config_entry_version = 2

pub record RegistryEntry : Type 0 where
  pub entity_id : String
  pub entity_domain : String
  pub platform : String
  pub unique_id : String

pub record MigratedEntry : Type 0 where
  pub entry_id : String
  pub version : ℕ
  pub unique_id : Option String
  pub options : Fields
  pub fixed : Fields

pub record EntityRegistry (R : Type 0) : Type 0 where
  pub entries_for : R → String → List RegistryEntry
  pub entity_of : R → String → String → Option String
  pub update_entity : R → String → String → Option R
  pub remove : R → String → R

abbrev pub starts : String → String → Bool
starts s prefix = elim (strip_prefix prefix s) [ none ↦ false | some rest ↦ true ]

-- `_migrated_unique_id`: the new unique ID, none for an entity to remove, or an unexpected one.
pub data Migrated : Type 0 where
  scoped : String → Migrated
  obsolete : Migrated
  unexpected : Migrated

unfoldable pub migrated_unique_id : String → String → Migrated
migrated_unique_id entry_id unique_id =
    if str_eq unique_id legacy_addressless_light_unique_id
    then obsolete
    else if starts unique_id "casambi_mqtt_light_"
        || (starts unique_id "casambi_mqtt_scene_"
            || starts unique_id "casambi_mqtt_reload_entities")
    then scoped (entry_scoped_unique_id entry_id unique_id)
    else unexpected

-- What is to be done to the entities: their new unique IDs, and the ones to remove.
pub record Plan : Type 0 where
  pub updates : List (String × String)
  pub removals : List String

abbrev pub add_update : String → String → Plan → Plan
add_update id unique_id p = record p { updates = (id, unique_id) ∷ p.updates }

abbrev pub add_removal : String → Plan → Plan
add_removal id p = record p { removals = id ∷ p.removals }

-- `existing_entity_id in (None, entity_id)`
abbrev pub is_free_for : String → Option String → Bool
is_free_for id none = true
is_free_for id (some other) = str_eq other id

abbrev pub is_settled : String → RegistryEntry → Bool
is_settled entry_id e = not (str_eq e.platform domain) || starts e.unique_id (entry_id +++ "_")

module _ {R : Type 0} (registry : EntityRegistry R) where
  -- One entity, before the plan of the entities after it.
  abbrev pub plan_as : R → RegistryEntry → Migrated → Option Plan → Option Plan
  plan_as r e obsolete rest = do p ← rest; some (add_removal e.entity_id p)
  plan_as r e unexpected rest = none
  plan_as r e (scoped unique_id) rest =
      require (is_free_for e.entity_id (registry.entity_of r e.entity_domain unique_id))
        (do p ← rest; some (add_update e.entity_id unique_id p))

  abbrev pub plan_entity : R → String → RegistryEntry → Option Plan → Option Plan
  plan_entity r entry_id e rest = plan_as r e (migrated_unique_id entry_id e.unique_id) rest

  -- The loop over the entities, none if one cannot be migrated.
  unfoldable pub plan_entities : R → String → List RegistryEntry → Option Plan
  plan_entities r entry_id [] = some (record { updates = []; removals = [] })
  plan_entities r entry_id (e ∷ es) =
      let rest = plan_entities r entry_id es in
      let here = plan_entity r entry_id e rest in if is_settled entry_id e then rest else here

  -- The updates in turn: false once one raises; what was updated before it stays.
  abbrev pub update_all : List (String × String) → R → Bool × R
  update_all [] r = (true, r)
  update_all ((id, unique_id) ∷ ups) r = elim (registry.update_entity r id unique_id) [
    | none ↦ (false, r)
    | some r' ↦ update_all ups r'
  ]

  abbrev pub remove_all : List String → R → R
  remove_all [] r = r
  remove_all (id ∷ rest) r = remove_all rest (registry.remove r id)

  abbrev pub apply_plan : Plan → MigratedEntry → R → Bool × (MigratedEntry × R)
  apply_plan p e r =
      let (updated, r') = update_all p.updates r in
      if updated
      then (
        true,
        (
          record e {
            version = config_entry_version;
            unique_id = some (configured_network_name e.options e.fixed);
          },
          remove_all p.removals r',
        ),
      )
      else (false, (e, r'))

  -- Another entry has the same network name.
  abbrev pub collides : MigratedEntry → List MigratedEntry → Bool
  collides e others =
      any
        (λ (c : MigratedEntry).
          not (str_eq c.entry_id e.entry_id)
          && str_eq (configured_network_name c.options c.fixed)
              (configured_network_name e.options e.fixed))
        others

  unfoldable pub async_migrate_entry :
      List MigratedEntry → MigratedEntry → R → Bool × (MigratedEntry × R)
  async_migrate_entry all_entries e r =
      if e.version == config_entry_version
      then (true, (e, r))
      else if not (e.version == 1)
      then (false, (e, r))
      else if collides e all_entries
      then (false, (e, r))
      else elim (plan_entities r e.entry_id (registry.entries_for r e.entry_id)) [
        | none ↦ (false, (e, r))
        | some p ↦ apply_plan p e r
      ]

-- `_remove_legacy_addressless_light`, where `owner` is the config entry of an entity
unfoldable pub remove_legacy_addressless_light :
    {R : Type 0} → EntityRegistry R → (R → String → Option String) → String → R → R
remove_legacy_addressless_light registry owner entry_id r =
    elim (registry.entity_of r "light" legacy_addressless_light_unique_id) [
      | none ↦ r
      | some id ↦ elim (owner r id) [
        | none ↦ r
        | some o ↦ if str_eq o entry_id then registry.remove r id else r
      ]
    ]
