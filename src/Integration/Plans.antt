-- ===== src/Integration/Plans.antt =====
-- custom_components/casambi_mqtt/__init__.py, async_migrate_entry: the plan for the entities of an entry.
use Prim.Native.String.{String}
use text.Mathlib.Text.{◌==◌ as str_eq}
use text.Mathlib.TextEquality.{eq_iff}
use casambi_mqtt.Prelude.{
  ◌≡◌, ◌⊎◌, inl, inr, arith, Bool-cases, none, refl, sym, ap, ◌∙◌, subst, Bool, true, false, not,
  ◌||◌, Option, some, List, [], ◌∷◌, by_equation, by_test,
}
use casambi_mqtt.Prelude.Maybe.{none-some, some_inj, bind-some}
use casambi_mqtt.Prelude.Cut.{◌+++◌, strip_prefix, strip_prefix-append, append_assoc}
use casambi_mqtt.Json.{require-some}
use casambi_mqtt.Integration.Names.{domain, entry_scoped_unique_id}
use casambi_mqtt.Integration.Migration.{
  legacy_addressless_light_unique_id, RegistryEntry, EntityRegistry, starts, Migrated, scoped,
  obsolete, unexpected, migrated_unique_id, Plan, add_update, add_removal, is_free_for, is_settled,
  plan_as, plan_entity, plan_entities,
}

-- An entity that is another integration's, or has the entry's prefix already; and one that is neither.
abbrev pub IsDone : String → RegistryEntry → Type 0
IsDone entry_id e =
    (str_eq e.platform domain ≡ false) ⊎ (starts e.unique_id (entry_id +++ "_") ≡ true)

abbrev pub IsDue : String → RegistryEntry → Type 0
IsDue entry_id e =
    (str_eq e.platform domain ≡ true) × (starts e.unique_id (entry_id +++ "_") ≡ false)

module _ {R : Type 0} (registry : EntityRegistry R) (r : R) (entry_id : String) where
  -- No other entity has the entity's new unique ID.
  abbrev pub is_free : RegistryEntry → Bool
  is_free e =
      is_free_for e.entity_id
        (registry.entity_of r e.entity_domain (entry_scoped_unique_id entry_id e.unique_id))

  -- The plan for some entities: an entity that is done is left alone, the legacy light is removed, any
  -- other one gets the prefix, which is then its new unique ID's; and the plan does nothing else.
  pub data Planned : List RegistryEntry → Plan → Type 0 where
    nothing : Planned [] (record { updates = []; removals = [] })
    settled :
        {e : RegistryEntry} {es : List RegistryEntry} {p : Plan}
        → IsDone entry_id e
        → Planned es p
        → Planned (e ∷ es) p
    renamed :
        {e : RegistryEntry} {es : List RegistryEntry} {p : Plan}
        → IsDue entry_id e
        → is_free e ≡ true
        → starts (entry_scoped_unique_id entry_id e.unique_id) (entry_id +++ "_") ≡ true
        → Planned es p
        → Planned (e ∷ es) (add_update e.entity_id (entry_scoped_unique_id entry_id e.unique_id) p)
    removed :
        {e : RegistryEntry} {es : List RegistryEntry} {p : Plan}
        → IsDue entry_id e
        → e.unique_id ≡ legacy_addressless_light_unique_id
        → Planned es p
        → Planned (e ∷ es) (add_removal e.entity_id p)

  -- One of the entities stands in the way: it is due, and its unique ID is none of the old ones or its
  -- new unique ID is another entity's.
  pub data Blocked : List RegistryEntry → Type 0 where
    here :
        {e : RegistryEntry} {es : List RegistryEntry}
        → IsDue entry_id e
        → (migrated_unique_id entry_id e.unique_id ≡ unexpected) ⊎ (is_free e ≡ false)
        → Blocked (e ∷ es)
    later : {e : RegistryEntry} {es : List RegistryEntry} → Blocked es → Blocked (e ∷ es)

done_cases : (a b : Bool) → (not a || b) ≡ true → (a ≡ false) ⊎ (b ≡ true)
done_cases true b h = inr h
done_cases false b h = inl refl

due_cases : (a b : Bool) → (not a || b) ≡ false → (a ≡ true) × (b ≡ false)
due_cases true b h = (refl, h)
due_cases false b h = cc

scoped-starts :
    (entry_id u : String) → starts (entry_scoped_unique_id entry_id u) (entry_id +++ "_") ≡ true
unfolding entry_scoped_unique_id
scoped-starts entry_id u =
    let cut : strip_prefix (entry_id +++ "_") (entry_id +++ "_" +++ u) ≡ some u =
      ap (strip_prefix (entry_id +++ "_")) (sym (append_assoc entry_id "_" u))
      ∙ strip_prefix-append (entry_id +++ "_") u in
    rw (starts, cut) refl

migrated-legacy :
    (entry_id u : String)
    → migrated_unique_id entry_id u ≡ obsolete
    → u ≡ legacy_addressless_light_unique_id
unfolding migrated_unique_id
migrated-legacy entry_id u =
    by_equation (λ m. m ≡ obsolete → u ≡ legacy_addressless_light_unique_id)
      (str_eq u legacy_addressless_light_unique_id) obsolete _
      (λ e h. (eq_iff u legacy_addressless_light_unique_id).0 e)
      (λ e.
        by_test (λ m. m ≡ obsolete → u ≡ legacy_addressless_light_unique_id) _
          (scoped (entry_scoped_unique_id entry_id u)) unexpected (λ h. cc) (λ h. cc))

migrated-scoped :
    (entry_id u new : String)
    → migrated_unique_id entry_id u ≡ scoped new
    → new ≡ entry_scoped_unique_id entry_id u
unfolding migrated_unique_id
migrated-scoped entry_id u new =
    by_test (λ m. m ≡ scoped new → new ≡ entry_scoped_unique_id entry_id u)
      (str_eq u legacy_addressless_light_unique_id) obsolete _ (λ h. cc)
      (by_test (λ m. m ≡ scoped new → new ≡ entry_scoped_unique_id entry_id u) _
        (scoped (entry_scoped_unique_id entry_id u)) unexpected (λ h. cc) (λ h. cc))

module _ {R : Type 0} (registry : EntityRegistry R) (r : R) (entry_id : String) where
  plan_head :
      (m : Migrated) (e : RegistryEntry) (es : List RegistryEntry) (rest : Option Plan) (p : Plan)
      → migrated_unique_id entry_id e.unique_id ≡ m
      → IsDue entry_id e
      → ((q : Plan) → rest ≡ some q → Planned registry r entry_id es q)
      → plan_as registry r e m rest ≡ some p
      → Planned registry r entry_id (e ∷ es) p
  plan_head obsolete e es rest p m due ih h =
      let (q, found, k) = bind-some rest _ p h in
      subst (Planned registry r entry_id (e ∷ es)) (some_inj k)
        (removed due (migrated-legacy entry_id e.unique_id m) (ih q found))
  plan_head unexpected e es rest p m due ih h = elim (none-some h) [ ]
  plan_head (scoped u) e es rest p m due ih h =
      let (free, k) =
        require-some (is_free_for e.entity_id (registry.entity_of r e.entity_domain u)) _ p h in
      let (q, found, k') = bind-some rest _ p k in
      let new = migrated-scoped entry_id e.unique_id u m in
      subst (Planned registry r entry_id (e ∷ es))
        (ap (λ n. add_update e.entity_id n q) (sym new) ∙ some_inj k')
        (renamed due
          (subst (λ n. is_free_for e.entity_id (registry.entity_of r e.entity_domain n) ≡ true) new
            free)
          (scoped-starts entry_id e.unique_id) (ih q found))

  -- The plan of the entities is the one that leaves alone, renames and removes just what it should.
  pub plan_entities-Planned :
      (es : List RegistryEntry) (p : Plan)
      → plan_entities registry r entry_id es ≡ some p
      → Planned registry r entry_id es p
  unfolding plan_entities
  plan_entities-Planned [] p = λ h. subst (Planned registry r entry_id []) (some_inj h) nothing
  plan_entities-Planned (e ∷ es) p =
      let rest = plan_entities registry r entry_id es in
      by_equation (λ o. o ≡ some p → Planned registry r entry_id (e ∷ es) p) (is_settled entry_id e)
        rest (plan_entity registry r entry_id e rest)
        (λ done h. settled (done_cases _ _ done) (plan_entities-Planned es p h))
        (λ unsettled h.
          plan_head (migrated_unique_id entry_id e.unique_id) e es rest p refl
            (due_cases _ _ unsettled) (plan_entities-Planned es) h)

  head-Blocked :
      (m : Migrated) (e : RegistryEntry) (es : List RegistryEntry) (rest : Option Plan)
      → migrated_unique_id entry_id e.unique_id ≡ m
      → IsDue entry_id e
      → (rest ≡ none → Blocked registry r entry_id es)
      → plan_as registry r e m rest ≡ none
      → Blocked registry r entry_id (e ∷ es)
  head-Blocked obsolete e es none m due ih h = later (ih refl)
  head-Blocked obsolete e es (some q) m due ih h = elim (none-some (sym h)) [ ]
  head-Blocked unexpected e es rest m due ih h = here due (inl m)
  head-Blocked (scoped u) e es none m due ih h = later (ih refl)
  head-Blocked (scoped u) e es (some q) m due ih h =
      let new = migrated-scoped entry_id e.unique_id u m in
      elim (Bool-cases (is_free_for e.entity_id (registry.entity_of r e.entity_domain u))) [
        | inl free ↦ ground (arith, free, h)
        | inr taken ↦ here due (
            inr (
              subst (λ n. is_free_for e.entity_id (registry.entity_of r e.entity_domain n) ≡ false)
                new taken))
      ]

  pub plan_entities-Blocked :
      (es : List RegistryEntry)
      → plan_entities registry r entry_id es ≡ none
      → Blocked registry r entry_id es
  unfolding plan_entities
  plan_entities-Blocked [] = λ h. elim (none-some (sym h)) [ ]
  plan_entities-Blocked (e ∷ es) =
      let rest = plan_entities registry r entry_id es in
      by_equation (λ o. o ≡ none → Blocked registry r entry_id (e ∷ es)) (is_settled entry_id e)
        rest (plan_entity registry r entry_id e rest) (λ done h. later (plan_entities-Blocked es h))
        (λ unsettled h.
          head-Blocked (migrated_unique_id entry_id e.unique_id) e es rest refl
            (due_cases _ _ unsettled) (plan_entities-Blocked es) h)
