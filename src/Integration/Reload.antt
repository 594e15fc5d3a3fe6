-- ===== src/Integration/Reload.antt =====
-- custom_components/casambi_mqtt/__init__.py, _async_process_switch_event: that the store is asked to save
-- the buttons of every switch, and that a reload of the entry gives them back from such a save.
use Prim.Native.String.{String}
use text.Mathlib.Text.{◌==◌ as str_eq}
use casambi_mqtt.Prelude.{
  ℕ, ◌≤◌, ◌≡◌, refl, sym, ap, ◌∙◌, subst, Bool, not, ◌||◌, Option, none, some, List, [], ◌∷◌,
  by_test, by_option,
}
use casambi_mqtt.Prelude.Int.{ℤ}
use casambi_mqtt.Json.{Value, obj, Fields}
use casambi_mqtt.Integration.Names.{switch_identifier}
use casambi_mqtt.Integration.Runtime.{
  Press, decode_switch_event, SwitchUnit, new_runtime, is_duplicate_switch_event, unit_of,
  stored_switch_buttons, switch_buttons, Device, Entry,
}
use casambi_mqtt.Integration.Switches.{
  get_device, get_or_create, Message, with_device, finish_switch_event, observe_switch_event,
  process_switch_event, pick, save_ended, Step, message, saved, run, restore_switch_buttons,
}
use casambi_mqtt.Integration.Runs.{with_device-buttons}
use casambi_mqtt.Integration.Stored.{IsKnown, ReadsNumbers}
use casambi_mqtt.Integration.Restored.{restore-offers}
use casambi_mqtt.Integration.Kept.{last_requested, IsNewest, Kept, finish-Kept}
use casambi_mqtt.Integration.Observed.{
  decode-in_range, registers, still-IsNewest, observe_button-Kept,
}

-- What a unit's buttons were is what they are with the registry's device.
unit-IsKnown :
    (o : Option SwitchUnit) (u : ℕ) (d : Device) (e : Entry)
    → unit_of u e.runtime ≡ o
    → u ≤ 255
    → get_device (switch_identifier e.entry_id u) e.devices ≡ some d
    → Kept e
    → IsKnown e.entry_id e.devices u (with_device o d.device_id)
unit-IsKnown none u d e h le g k = record {
  in_range = le;
  buttons_in_range = λ b m. cc;
  device = d;
  registered = g;
}
unit-IsKnown (some s) u d e h le g k = record {
  in_range = le;
  buttons_in_range = (k.known u s h).buttons_in_range;
  device = d;
  registered = g;
}

observe-Kept :
    (new_id : ℕ → String) (p : Press) (e : Entry)
    → p.unit_id ≤ 255
    → p.button ≤ 255
    → Kept e
    → Kept (observe_switch_event new_id p e)
unfolding observe_switch_event
observe-Kept new_id p e le low h =
    let found = get_or_create new_id p.unit_id e in
    let (k, g, same) = registers new_id p.unit_id e h in
    let o = unit_of p.unit_id found.1.runtime in
    observe_button-Kept p (with_device o found.0.device_id) found.1 low
      (with_device-buttons o found.0.device_id)
      (unit-IsKnown o p.unit_id found.0 found.1 refl le g k) k

seen-Kept :
    (now : ℕ) (p : Press) (e : Entry)
    → Kept e
    → Kept (record e { runtime = (is_duplicate_switch_event now p e.runtime).1 })
unfolding is_duplicate_switch_event stored_switch_buttons
seen-Kept now p e h = record {
  known = h.known;
  distinct = h.distinct;
  saved_now =
      still-IsNewest (last_requested e.done) e.runtime (is_duplicate_switch_event now p e.runtime).1
        refl h.saved_now;
}

process-Kept :
    (new_id : ℕ → String) (topic : String) (now : ℕ) (m : Message) (e : Entry)
    → Kept e
    → Kept (process_switch_event new_id topic now m e)
unfolding process_switch_event
process-Kept new_id topic now m e h = by_test Kept (not (str_eq m.topic topic) || m.retain) e _ h (
    by_option Kept (decode_switch_event m.payload) e _ (λ none_here. h)
      (λ p decoded.
        let heard : Entry = record e { runtime = (is_duplicate_switch_event now p e.runtime).1 } in
        let k = seen-Kept now p e h in
        let (le, low) = decode-in_range m.payload p decoded in
        by_test Kept (is_duplicate_switch_event now p e.runtime).0 heard
          (observe_switch_event new_id p heard) k (observe-Kept new_id p heard le low k)))

save_ended-Kept : (n : ℕ) (ok : Bool) (e : Entry) → Kept e → Kept (save_ended n ok e)
unfolding save_ended
save_ended-Kept n ok e h =
    by_option Kept (pick n e.saving) e _ (λ none_here. h)
      (λ pq found.
        let (p, ps) = pq in
        let on : Entry = record e { saving = ps } in
        let k : Kept on = record {
          known = h.known;
          distinct = h.distinct;
          saved_now = h.saved_now;
        } in
        by_test Kept ok (finish_switch_event p on) on (finish-Kept p on k) k)

run-Kept :
    (new_id : ℕ → String) (topic : String) (steps : List Step) (e : Entry)
    → Kept e
    → Kept (run new_id topic steps e)
run-Kept new_id topic [] e h = h
run-Kept new_id topic (message now m ∷ ss) e h =
    run-Kept new_id topic ss _ (process-Kept new_id topic now m e h)
run-Kept new_id topic (saved n ok ∷ ss) e h = run-Kept new_id topic ss _ (save_ended-Kept n ok e h)

-- If `int()` reads what `str()` writes, then however an entry whose switches are known goes on, it asks
-- the store to save enough: a reload that finds in the store what the entry last asked it to save
-- restores every switch to the buttons that the entry offered. What it finds after a save that failed
-- is left open.
pub run-reload :
    (int : String → Option ℤ)
    → ReadsNumbers int
    → (new_id : ℕ → String) (topic : String) (steps : List Step) (e : Entry) → Kept e
    → (d : Fields) → last_requested (run new_id topic steps e).done ≡ some d
    → (loaded : Option Value) → loaded ≡ some (obj d)
    → (u : ℕ)
    → let e' = run new_id topic steps e in
      switch_buttons (restore_switch_buttons int e'.entry_id e'.devices loaded new_runtime) u
      ≡ switch_buttons e'.runtime u
run-reload int reads new_id topic steps e h d newest loaded found u =
    let e' = run new_id topic steps e in
    let k = run-Kept new_id topic steps e h in
    let same : d ≡ stored_switch_buttons e'.runtime =
      subst (IsNewest e'.runtime) newest k.saved_now in
    subst
      (λ x.
        switch_buttons (restore_switch_buttons int e'.entry_id e'.devices x new_runtime) u
        ≡ switch_buttons e'.runtime u)
      (sym (found ∙ ap (λ x. some (obj x)) same))
      (restore-offers int reads e'.entry_id e'.devices e'.runtime u k.known k.distinct)
