-- ===== src/Integration/Firing.antt =====
-- custom_components/casambi_mqtt/device_trigger.py: which events fire the triggers that it lists.
use Prim.Native.String.{String}
use text.Mathlib.Text.{◌==◌ as str_eq}
use text.Mathlib.TextEquality.{eq_iff}
use casambi_mqtt.Prelude.{
  ℕ, ◌≤◌, ◌≡◌, ◌↔◌, refl, sym, ap, ◌∙◌, subst, inl, inr, true, ◌||◌, some, List, [], ◌∷◌, any, leb,
  arith, All, All-append, Bool-cases,
}
use casambi_mqtt.Prelude.Cut.{lower, upper}
use casambi_mqtt.Prelude.Dict.{member}
use casambi_mqtt.Integration.Names.{switch_event_signal}
use casambi_mqtt.Integration.Topics.{switch_event_signal_inj}
use casambi_mqtt.Integration.Runtime.{
  Press, is_event_type, max_switch_value, supported_switch_events,
}
use casambi_mqtt.Integration.Triggers.{
  event_types, ConfigEntry, Registries, switch_for_device, trigger_buttons, Trigger,
  triggers_of_button, triggers_of_buttons, listed_triggers, async_get_triggers,
  async_attach_trigger,
}

-- The trigger can be attached, and the signal that it waits for is sent for the unit's events of its
-- button and its phase, and for no others.
pub record Fires (h : Registries) (e : ConfigEntry) (u : ℕ) (t : Trigger) : Type 0 where
  pub signal : String
  pub attached : async_attach_trigger h t ≡ some signal
  pub fires :
      (p : Press)
      → is_event_type p.event_type ≡ true
      → (switch_event_signal e.entry_id p.unit_id p.button p.event_type ≡ signal)
        ↔ ((p.unit_id ≡ u) × (p.button ≡ t.subtype) × (lower p.event_type ≡ t.event_type))

-- What holds of every text of a list holds of one that equals some of them.
any-All :
    (P : String → Type 0) (xs : List String) (e : String)
    → All P xs
    → any (λ s. str_eq s e) xs ≡ true
    → P e
any-All P [] e h k = cc
any-All P (x ∷ xs) e (now, later) k = elim (Bool-cases (str_eq x e)) [
  | inl f ↦ subst P ((eq_iff x e).0 f) now
  | inr f ↦ any-All P xs e later (subst (λ b. (b || any (λ s. str_eq s e) xs) ≡ true) f k)
]

-- A supported phase is told by its name in lower case.
upper-lower : (e : String) → is_event_type e ≡ true → upper (lower e) ≡ e
upper-lower e =
    any-All (λ s. upper (lower s) ≡ s) supported_switch_events e (refl, (refl, (refl, (refl, tt))))

lower-upper : (t : String) → any (λ s. str_eq s t) event_types ≡ true → lower (upper t) ≡ t
lower-upper t = any-All (λ s. lower (upper s) ≡ s) event_types t (refl, (refl, (refl, (refl, tt))))

module _ (h : Registries) (id : String) (e : ConfigEntry) (u : ℕ) where
  listed-Fires :
      switch_for_device h id ≡ some (e, u)
      → (b : ℕ) → b ≤ 255
      → (t : String) → any (λ s. str_eq s t) event_types ≡ true
      → Fires h e u (record { device_id = id; event_type = t; subtype = b })
  unfolding async_attach_trigger
  listed-Fires found b low t known = record {
    signal = switch_event_signal e.entry_id u b (upper t);
    attached =
        (let le : leb b max_switch_value ≡ true = ground arith in rw (known, le, found) refl);
    fires = λ p supported. (
      λ same.
          (let (units, buttons, phases) =
              switch_event_signal_inj e.entry_id p.unit_id u p.button b p.event_type (upper t)
                same in
            (units, buttons, ap lower phases ∙ lower-upper t known)),
      λ same.
          (let (units, buttons, phases) = same in
            let name : p.event_type ≡ upper t =
              sym (upper-lower p.event_type supported) ∙ ap upper phases in
            rw (units, buttons, name) refl),
    );
  }

  of_button-Fires :
      switch_for_device h id ≡ some (e, u)
      → (b : ℕ) → b ≤ 255
      → (ts : List String) → All (λ t. any (λ s. str_eq s t) event_types ≡ true) ts
      → All (Fires h e u) (triggers_of_button id b ts)
  of_button-Fires found b low [] known = tt
  of_button-Fires found b low (t ∷ ts) (now, later) =
      (listed-Fires found b low t now, of_button-Fires found b low ts later)

  of_buttons-Fires :
      switch_for_device h id ≡ some (e, u)
      → (bs : List ℕ) → ((b : ℕ) → member b bs ≡ true → b ≤ 255)
      → All (Fires h e u) (triggers_of_buttons id bs)
  of_buttons-Fires found [] low = tt
  of_buttons-Fires found (b ∷ bs) low =
      All-append (Fires h e u) (triggers_of_button id b event_types) (triggers_of_buttons id bs)
        (of_button-Fires found b (low b (ground arith)) event_types
          (refl, (refl, (refl, (refl, tt)))))
        (of_buttons-Fires found bs (λ c m. low c (ground arith)))

-- Every trigger that is listed for a switch's device can be attached, and waits for the signal that is
-- sent for the events of this unit, of its button and of its phase, and for those alone, if the buttons
-- that were observed are at most 255.
pub async_get_triggers-Fires :
    (h : Registries) (id : String) (e : ConfigEntry) (u : ℕ)
    → switch_for_device h id ≡ some (e, u)
    → ((b : ℕ) → member b (trigger_buttons e u) ≡ true → b ≤ 255)
    → All (Fires h e u) (async_get_triggers h id)
unfolding async_get_triggers
async_get_triggers-Fires h id e u found low =
    subst (λ o. All (Fires h e u) (listed_triggers id o)) (sym found)
      (of_buttons-Fires h id e u found (trigger_buttons e u) low)
