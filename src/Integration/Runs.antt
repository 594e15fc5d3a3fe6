-- ===== src/Integration/Runs.antt =====
-- custom_components/casambi_mqtt/__init__.py: what every run of _async_process_switch_event keeps.
use Prim.Native.String.{String}
use text.Mathlib.Text.{◌==◌ as str_eq}
use casambi_mqtt.Prelude.{
  ℕ, zero, suc, ◌≡◌, refl, subst, Bool, not, ◌||◌, Option, none, some, List, [], ◌∷◌, All, by_test,
  by_option,
}
use casambi_mqtt.Integration.Runtime.{
  Press, SwitchUnit, is_duplicate_switch_event, unit_of, decode_switch_event, Device, Entry,
}
use casambi_mqtt.Prelude.Maybe.{bind-some}
use casambi_mqtt.Integration.Names.{switch_identifier}
use casambi_mqtt.Integration.Switches.{
  Message, get_device, get_or_create, with_device, finish_switch_event, observe_switch_event,
  process_switch_event, pick, save_ended, Step, message, saved, run,
}
use casambi_mqtt.Integration.Buttons.{still-Sound}
use casambi_mqtt.Integration.Handling.{
  IsObserved, buttons_of, Held, finish-Held, observe_button-Held,
}

-- What the registry's device does not change: the buttons.
pub with_device-buttons :
    (o : Option SwitchUnit) (id : String) → buttons_of o ≡ (with_device o id).buttons
with_device-buttons none id = refl
with_device-buttons (some s) id = refl

get_or_create-runtime :
    (new_id : ℕ → String) (u : ℕ) (e : Entry) → Held e → Held (get_or_create new_id u e).1
unfolding get_or_create
get_or_create-runtime new_id u e h =
    by_option (λ (x : Device × Entry). Held x.1)
      (get_device (switch_identifier e.entry_id u) e.devices) _ (λ d. (d, e))
      (λ none_here. (record {
        sound = still-Sound refl refl refl (λ x. x) h.sound;
        waiting = h.waiting;
      }))
      (λ d some_here. h)

observe-Held :
    (new_id : ℕ → String) (p : Press) (e : Entry) → Held e → Held (observe_switch_event new_id p e)
unfolding observe_switch_event
observe-Held new_id p e h =
    let found = get_or_create new_id p.unit_id e in
    let e' = found.1 in
    let s = with_device (unit_of p.unit_id e'.runtime) found.0.device_id in
    observe_button-Held p s e'
      (with_device-buttons (unit_of p.unit_id e'.runtime) found.0.device_id)
      (get_or_create-runtime new_id p.unit_id e h)

seen-Held :
    (now : ℕ) (p : Press) (e : Entry)
    → Held e
    → Held (record e { runtime = (is_duplicate_switch_event now p e.runtime).1 })
unfolding is_duplicate_switch_event
seen-Held now p e h = record {
  sound = still-Sound refl refl refl (λ x. x) h.sound;
  waiting = h.waiting;
}

process-Held :
    (new_id : ℕ → String) (topic : String) (now : ℕ) (m : Message) (e : Entry)
    → Held e
    → Held (process_switch_event new_id topic now m e)
unfolding process_switch_event
process-Held new_id topic now m e h = by_test Held (not (str_eq m.topic topic) || m.retain) e _ h (
    by_option Held (decode_switch_event m.payload) e _ (λ none_here. h)
      (λ p some_here.
        let heard : Entry = record e { runtime = (is_duplicate_switch_event now p e.runtime).1 } in
        let k = seen-Held now p e h in
        by_test Held (is_duplicate_switch_event now p e.runtime).0 heard
          (observe_switch_event new_id p heard) k (observe-Held new_id p heard k)))

-- The picked handler and the others are among the waiting ones.
pick-All :
    (P : Press → Type 0) (n : ℕ) (ps : List Press) (p : Press) (rest : List Press)
    → pick n ps ≡ some (p, rest)
    → All P ps
    → P p × All P rest
pick-All P n [] p rest h k = cc
pick-All P zero (q ∷ qs) p rest h (now, later) =
    let same : q ≡ p = cc in
    let others : qs ≡ rest = cc in (subst P same now, subst (All P) others later)
pick-All P (suc n) (q ∷ qs) p rest h (now, later) =
    let (found, k, e) = bind-some (pick n qs) _ (p, rest) h in
    let (r, rs) = found in
    let (one, others) = pick-All P n qs r rs k later in
    let same : r ≡ p = cc in
    let ends : (q ∷ rs) ≡ rest = cc in (subst P same one, subst (All P) ends (now, others))

save_ended-Held : (n : ℕ) (ok : Bool) (e : Entry) → Held e → Held (save_ended n ok e)
unfolding save_ended
save_ended-Held n ok e h =
    by_option Held (pick n e.saving) e _ (λ none_here. h)
      (λ pq found.
        let (p, ps) = pq in
        let (now, later) = pick-All (IsObserved e.runtime) n e.saving p ps found h.waiting in
        let on : Entry = record e { saving = ps } in
        let k : Held on = record {
          sound = still-Sound refl refl refl (λ x. x) h.sound;
          waiting = later;
        } in
        by_test Held ok (finish_switch_event p on) on (finish-Held p on now k) k)

pub run-Held :
    (new_id : ℕ → String) (topic : String) (steps : List Step) (e : Entry)
    → Held e
    → Held (run new_id topic steps e)
run-Held new_id topic [] e h = h
run-Held new_id topic (message now m ∷ ss) e h =
    run-Held new_id topic ss _ (process-Held new_id topic now m e h)
run-Held new_id topic (saved n ok ∷ ss) e h = run-Held new_id topic ss _ (save_ended-Held n ok e h)
