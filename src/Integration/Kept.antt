-- ===== src/Integration/Kept.antt =====
-- custom_components/casambi_mqtt: what the runtime data, the registry and the store have in common, as
-- far as putting a switch unit, creating a device and adding entities keep it.
use Prim.Native.String.{String}
use casambi_mqtt.Prelude.{
  ℕ, ◌≡◌, refl, sym, ap, ◌∙◌, subst, inl, inr, true, false, Option, none, some, List, [], ◌∷◌, ◌++◌,
  ◌==◌, ==_iff, if◌then◌else◌, arith, Bool-cases, by_equation, by_test,
}
use casambi_mqtt.Prelude.Maybe.{none-some, some_inj}
use casambi_mqtt.Prelude.Dict.{put, find-put, find-put_other}
use casambi_mqtt.Json.{Fields}
use casambi_mqtt.Integration.Runtime.{
  Press, SwitchUnit, RuntimeData, store_buttons, stored_units, stored_switch_buttons,
  missing_buttons, Effect, save_buttons, add_button_entity, send_button, send_event, Device, Entry,
  enter, tell, async_add_switch_buttons,
}
use casambi_mqtt.Integration.Switches.{get_device, has_identifier, finish_switch_event}
use casambi_mqtt.Integration.Handling.{same_unit, buttons_of}
use casambi_mqtt.Integration.Stored.{Units, unit_in, Distinct, IsKnown, AllKnown}

-- What the store was last asked to save, whether or not that save succeeds.
abbrev pub last_requested : List Effect → Option Fields
last_requested [] = none
last_requested (save_buttons d ∷ before) = some d
last_requested (add_button_entity u b ∷ before) = last_requested before
last_requested (send_button u b t ∷ before) = last_requested before
last_requested (send_event u b t ∷ before) = last_requested before

abbrev pub IsNewest : RuntimeData → Option Fields → Type 0
IsNewest r none = Unit
IsNewest r (some d) = d ≡ stored_switch_buttons r

-- The switches of the entry are known, and what the store was last asked to save is what it would be
-- asked to save now.
pub record Kept (e : Entry) : Type 0 where
  pub known : AllKnown e.entry_id e.devices e.runtime.switch_units
  pub distinct : Distinct e.runtime.switch_units
  pub saved_now : IsNewest e.runtime (last_requested e.done)

requested-tell :
    (u : ℕ) (bs : List ℕ) (done : List Effect)
    → last_requested (tell u bs done) ≡ last_requested done
requested-tell u [] done = refl
requested-tell u (b ∷ bs) done = requested-tell u bs (add_button_entity u b ∷ done)

add_buttons-Kept : (u : ℕ) (e : Entry) → Kept e → Kept (async_add_switch_buttons u e)
unfolding async_add_switch_buttons stored_switch_buttons
add_buttons-Kept u e h =
    let missing = missing_buttons e.runtime u in
    let r : RuntimeData = record e.runtime {
      switch_button_events = enter u missing e.runtime.switch_button_events;
    } in
    by_test Kept e.runtime.event_platform (record e { runtime = r; done = tell u missing e.done }) e
      (record {
        known = h.known;
        distinct = h.distinct;
        saved_now = subst (IsNewest e.runtime) (sym (requested-tell u missing e.done)) h.saved_now;
      })
      h

pub finish-Kept : (p : Press) (e : Entry) → Kept e → Kept (finish_switch_event p e)
unfolding finish_switch_event
finish-Kept p e h =
    let k = add_buttons-Kept p.unit_id e h in
    record { known = k.known; distinct = k.distinct; saved_now = k.saved_now }

absent-put :
    (u v : ℕ) (s : SwitchUnit) (us : Units)
    → (u == v) ≡ false
    → unit_in v us ≡ none
    → unit_in v (put same_unit u s us) ≡ none
absent-put u v s us h k = find-put_other same_unit ==_iff u v s us h ∙ k

pub put-Distinct :
    (u : ℕ) (s : SwitchUnit) (us : Units) → Distinct us → Distinct (put same_unit u s us)
put-Distinct u s [] h = (refl, tt)
put-Distinct u s ((v, t) ∷ us) (new, h) =
    by_equation Distinct (v == u) ((v, s) ∷ us) ((v, t) ∷ put same_unit u s us) (λ e. (new, h))
      (λ e. (absent-put u v s us (ground arith) new, put-Distinct u s us h))

pub put-AllKnown :
    (entry_id : String) (ds : List Device) (u : ℕ) (s : SwitchUnit) (us : Units)
    → IsKnown entry_id ds u s
    → AllKnown entry_id ds us
    → AllKnown entry_id ds (put same_unit u s us)
put-AllKnown entry_id ds u s us k known v t found = elim (Bool-cases (u == v)) [
  | inl e ↦
      let eq = (==_iff u v).0 e in
      let at : unit_in v (put same_unit u s us) ≡ some s =
        subst (λ w. unit_in w (put same_unit u s us) ≡ some s) eq
          (find-put same_unit ==_iff u s us) in
      let same : s ≡ t = some_inj (sym at ∙ found) in
      subst (λ x. IsKnown entry_id ds v x) same (subst (λ w. IsKnown entry_id ds w s) eq k)
  | inr e ↦ known v t (sym (find-put_other same_unit ==_iff u v s us e) ∙ found)
]

-- To put the same buttons changes nothing that is stored.
pub stored-put :
    (u : ℕ) (s : SwitchUnit) (us : Units)
    → buttons_of (unit_in u us) ≡ s.buttons
    → stored_units (put same_unit u s us) ≡ stored_units us
stored-put u s [] h = rw (sym h) refl
stored-put u s ((v, t) ∷ us) h = elim (Bool-cases (v == u)) [
  | inl e ↦
      let same : t.buttons ≡ s.buttons =
        subst (λ b. buttons_of (if b then some t else unit_in u us) ≡ s.buttons) e h in
      rw e (ap (λ bs. store_buttons v bs (stored_units us)) (sym same))
  | inr e ↦
      let rest : buttons_of (unit_in u us) ≡ s.buttons =
        subst (λ b. buttons_of (if b then some t else unit_in u us) ≡ s.buttons) e h in
      rw e (ap (store_buttons v t.buttons) (stored-put u s us rest))
]

pub get_device-append :
    (value : String) (ds more : List Device) (d : Device)
    → get_device value ds ≡ some d
    → get_device value (ds ++ more) ≡ some d
get_device-append value [] more d h = elim (none-some h) [ ]
get_device-append value (x ∷ ds) more d h = elim (Bool-cases (has_identifier value x)) [
  | inl e ↦ rw e (subst (λ b. (if b then some x else get_device value ds) ≡ some d) e h)
  | inr e ↦ rw e (
      get_device-append value ds more d
        (subst (λ b. (if b then some x else get_device value ds) ≡ some d) e h))
]

pub get_device-last :
    (value : String) (ds : List Device) (d : Device)
    → get_device value ds ≡ none
    → has_identifier value d ≡ true
    → get_device value (ds ++ (d ∷ [])) ≡ some d
get_device-last value [] d h k = rw k refl
get_device-last value (x ∷ ds) d h k = elim (Bool-cases (has_identifier value x)) [
  | inl e ↦
      let never = subst (λ b. (if b then some x else get_device value ds) ≡ none) e h in
      elim (none-some (sym never)) [ ]
  | inr e ↦ rw e (
      get_device-last value ds d
        (subst (λ b. (if b then some x else get_device value ds) ≡ none) e h) k)
]
