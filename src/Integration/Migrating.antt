-- ===== src/Integration/Migrating.antt =====
-- custom_components/casambi_mqtt/__init__.py, async_migrate_entry: what it leaves behind, whether it
-- succeeds or not.
use casambi_mqtt.Prelude.{◌≡◌, ◌≢◌, ◌⊎◌, Bool, true, false, some, List}
use casambi_mqtt.Integration.Names.{configured_network_name}
use casambi_mqtt.Integration.Migration.{
  config_entry_version, MigratedEntry, EntityRegistry, Plan, update_all, remove_all, collides,
}
use casambi_mqtt.Integration.Plans.{Planned, Blocked}

-- A migration that goes ahead: version 1, a network name of its own, and a plan for its entities.
pub record GoesAhead {R : Type 0} (registry : EntityRegistry R) (all_entries : List MigratedEntry)
    (e : MigratedEntry) (r : R) (p : Plan) : Type 0 where
  pub is_first : e.version ≡ 1
  pub is_alone : collides registry e all_entries ≡ false
  pub planned : Planned registry r e.entry_id (registry.entries_for r e.entry_id) p

-- How a migration ends.
pub data Ended {R : Type 0} (registry : EntityRegistry R) (all_entries : List MigratedEntry)
    (e : MigratedEntry) (r : R) : Bool × (MigratedEntry × R) → Type 0 where
  already : e.version ≡ config_entry_version → Ended registry all_entries e r (true, (e, r))
  refused :
      e.version ≢ config_entry_version
      → (e.version ≢ 1)
        ⊎ (collides registry e all_entries ≡ true)
        ⊎ Blocked registry r e.entry_id (registry.entries_for r e.entry_id)
      → Ended registry all_entries e r (false, (e, r))
  raised :
      (p : Plan) (r' : R)
      → GoesAhead registry all_entries e r p
      → update_all registry p.updates r ≡ (false, r')
      → Ended registry all_entries e r (false, (e, r'))
  migrated :
      (p : Plan) (r' : R)
      → GoesAhead registry all_entries e r p
      → update_all registry p.updates r ≡ (true, r')
      → Ended registry all_entries e r (
        true,
        (
          record e {
            version = config_entry_version;
            unique_id = some (configured_network_name e.options e.fixed);
          },
          remove_all registry p.removals r',
        ),
      )
