-- ===== src/Integration/Restored.antt =====
-- custom_components/casambi_mqtt/__init__.py, _restore_switch_buttons: what is restored from the stored
-- buttons, and from the devices of the registry.
use Prim.Native.String.{String}
use text.Mathlib.Text.{◌==◌ as str_eq}
use casambi_mqtt.Prelude.{
  ℕ, ◌≡◌, refl, sym, ap, ◌∙◌, subst, inl, inr, Bool, true, false, Option, some, List, [], ◌∷◌, ◌==◌,
  ==_iff, if◌then◌else◌, arith, Bool-cases, by_test, by_option,
}
use casambi_mqtt.Prelude.Int.{ℤ}
use casambi_mqtt.Prelude.Dict.{
  member, insert_all, member-insert_all, insert_all-IsSorted, sorted_ext, IsSorted,
}
use casambi_mqtt.Json.{obj}
use casambi_mqtt.Integration.Names.{domain}
use casambi_mqtt.Integration.Runtime.{
  RuntimeData, new_runtime, add_switch_unit, default_switch_buttons, stored_switch_buttons,
  observed_buttons, switch_buttons, Device,
}
use casambi_mqtt.Integration.Switches.{
  identified_unit, adopt_identifiers, registered_switch_units, restore_switch_buttons,
}
use casambi_mqtt.Integration.Handling.{observed-put, observed-put_other}
use casambi_mqtt.Integration.Stored.{Distinct, AllKnown, ReadsNumbers, restore_present}

if_again :
    (a b : Bool) → (if (if a then true else false) then true else b) ≡ (if a then true else b)
if_again true b = refl
if_again false b = refl

-- Sorting twice sorts once.
offers :
    (bs : List ℕ)
    → insert_all (insert_all bs []) default_switch_buttons ≡ insert_all bs default_switch_buttons
offers bs =
    let default_sorted : IsSorted default_switch_buttons = omega arith in
    sorted_ext _ _ (insert_all-IsSorted (insert_all bs []) default_switch_buttons default_sorted)
      (insert_all-IsSorted bs default_switch_buttons default_sorted)
      (λ c.
        member-insert_all c (insert_all bs []) default_switch_buttons
        ∙ ap (λ b. if b then true else member c default_switch_buttons) (member-insert_all c bs [])
        ∙ if_again (member c bs) (member c default_switch_buttons)
        ∙ sym (member-insert_all c bs default_switch_buttons))

module _ (int : String → Option ℤ) (reads : ReadsNumbers int) (entry_id : String)
    (ds : List Device) where
  -- No unit has a button.
  abbrev Blank : RuntimeData → Type 0
  Blank r = (v : ℕ) → observed_buttons v r ≡ []

  add_unit-Blank :
      (u : ℕ) (id : String) (r : RuntimeData) → Blank r → Blank (add_switch_unit u id r)
  unfolding add_switch_unit
  add_unit-Blank u id r h v = elim (Bool-cases (u == v)) [
    | inl e ↦
        subst (λ w. observed_buttons w (add_switch_unit u id r) ≡ []) ((==_iff u v).0 e)
          (observed-put u (record { device_id = id; buttons = [] }) r)
    | inr e ↦ observed-put_other u v (record { device_id = id; buttons = [] }) r e ∙ h v
  ]

  adopt-Blank :
      (id : String) (ids : List (String × String)) (r : RuntimeData)
      → Blank r
      → Blank (adopt_identifiers int entry_id id ids r)
  adopt-Blank id [] r h = h
  adopt-Blank id ((name, value) ∷ rest) r h = adopt-Blank id rest _ (
      by_test Blank (str_eq name domain) _ r
        (by_option Blank (identified_unit int entry_id value) r _ (λ none_here. h)
          (λ u some_here. add_unit-Blank u id r h))
        h)

  registered-Blank :
      (devices : List Device) (r : RuntimeData)
      → Blank r
      → Blank (registered_switch_units int entry_id devices r)
  unfolding registered_switch_units
  registered-Blank [] r h = h
  registered-Blank (d ∷ devices) r h =
      registered-Blank devices _ (adopt-Blank d.device_id d.identifiers r h)

  -- A reload offers the buttons that were stored: the standard ones and those that were observed.
  pub restore-offers :
      (r : RuntimeData) (u : ℕ)
      → AllKnown entry_id ds r.switch_units
      → Distinct r.switch_units
      → switch_buttons
          (restore_switch_buttons int entry_id ds
            (some (obj (stored_switch_buttons r)))
            new_runtime)
          u
        ≡ switch_buttons r u
  unfolding stored_switch_buttons restore_switch_buttons switch_buttons
  restore-offers r u known dist =
      let blank = registered-Blank ds new_runtime (λ v. refl) u in
      rw
        (restore_present int reads entry_id ds u r.switch_units
          (registered_switch_units int entry_id ds new_runtime) known dist blank)
        (offers (observed_buttons u r))
