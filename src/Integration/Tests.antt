-- ===== src/Integration/Tests.antt =====
-- The theorems on the integration at concrete devices, messages and units.
use Prim.Native.String.{String}
use casambi_mqtt.Prelude.{
  ℕ, ◌≡◌, refl, true, false, none, some, Option, List, [], ◌∷◌, arith, All, if◌then◌else◌,
}
use casambi_mqtt.Prelude.Int.{ℤ, pos}
use casambi_mqtt.Prelude.Maybe.{none-some}
use casambi_mqtt.Prelude.Text.{all_chars, is_digit}
use casambi_mqtt.Prelude.Cut.{value_of, value_of-decimal, decimal-digit}
use casambi_mqtt.Json.{obj, str, int, arr, end, field, no_item, item}
use casambi_mqtt.Bridge.SwitchEvents.{SwitchEvent, new_switch_publisher}
use casambi_mqtt.Bridge.Purge.{publish_all}
use casambi_mqtt.Integration.Names.{switch_identifier}
use casambi_mqtt.Integration.Runtime.{
  Press, decode_switch_event, is_duplicate_switch_event, new_runtime, stored_switch_buttons,
  switch_buttons, Entry, async_add_switch_buttons,
}
use casambi_mqtt.Integration.Switches.{
  get_or_create, Message, finish_switch_event, observe_switch_event, process_switch_event,
  save_ended, Step, message, saved, run, restore_switch_buttons, setup_switches,
}
use casambi_mqtt.Integration.Buttons.{added, Once, Heard}
use casambi_mqtt.Integration.Stored.{ReadsNumbers}
use casambi_mqtt.Integration.Kept.{last_requested, Kept}
use casambi_mqtt.Integration.Reload.{run-reload}
use casambi_mqtt.Integration.Started.{run-heard}
use casambi_mqtt.Integration.Repeats.{Outcome, process_switch_event-Outcome, repeated, run-burst}
use casambi_mqtt.Integration.Published.{IsDecoded, publish_all-IsDecoded}

-- `int()` on the numerals of natural numbers.
abbrev read_int : String → Option ℤ
read_int s = if all_chars is_digit s then some (pos (value_of s 0)) else none

read_int-ReadsNumbers : ReadsNumbers read_int
read_int-ReadsNumbers n = rw (read_int, decimal-digit n, value_of-decimal n) refl

abbrev device_name : ℕ → String
device_name u = "device"

-- A press of the sixth button of unit 7.
abbrev press : Message
press = record {
  topic = "casambi/home/switch_events";
  retain = false;
  payload = some (
      obj (
        field "unit_id" (int (pos 7))
          (field "button" (int (pos 6)) (field "event" (str "PRESS") end))));
}

abbrev steps : List Step
steps = message 1000 press ∷ message 1100 press ∷ saved 0 true ∷ message 2000 press ∷ []

abbrev empty_entry : Entry
empty_entry = record {
  entry_id = "e1";
  runtime = record new_runtime { event_platform = true };
  devices = [];
  done = [];
  saving = [];
}

empty_entry-Kept : Kept empty_entry
empty_entry-Kept = record { known = λ u s h. elim (none-some h) [ ]; distinct = tt; saved_now = tt }

saved_fields :
    last_requested (run device_name "casambi/home/switch_events" steps empty_entry).done
    ≡ some (field "7" (arr (item (int (pos 6)) no_item)) end)
unfolding process_switch_event decode_switch_event is_duplicate_switch_event observe_switch_event
    get_or_create finish_switch_event save_ended async_add_switch_buttons switch_buttons
    stored_switch_buttons switch_identifier
saved_fields = refl

run-reload_example :
    let e' = run device_name "casambi/home/switch_events" steps empty_entry in
    switch_buttons
      (restore_switch_buttons read_int e'.entry_id e'.devices
        (some (obj (field "7" (arr (item (int (pos 6)) no_item)) end)))
        new_runtime)
      7
    ≡ switch_buttons e'.runtime 7
run-reload_example =
    run-reload read_int read_int-ReadsNumbers device_name "casambi/home/switch_events" steps
      empty_entry empty_entry-Kept (field "7" (arr (item (int (pos 6)) no_item)) end) saved_fields
      (some (obj (field "7" (arr (item (int (pos 6)) no_item)) end))) refl 7

run-heard_example :
    let e =
      run device_name "casambi/home/switch_events" steps (setup_switches read_int "e1" [] none) in
    Once (added e.done) × Heard e.done
run-heard_example = run-heard read_int device_name "casambi/home/switch_events" "e1" [] none steps

abbrev pressed : Press
pressed = record { unit_id = 7; button = 6; event_type = "PRESS" }

press_decoded : decode_switch_event press.payload ≡ some pressed
unfolding decode_switch_event
press_decoded = refl

process_switch_event-Outcome_example :
    let e' = process_switch_event device_name "casambi/home/switch_events" 1000 press empty_entry in
    Outcome false pressed empty_entry e' × (e'.runtime.last_switch_events pressed ≡ some 1000)
process_switch_event-Outcome_example =
    process_switch_event-Outcome device_name "casambi/home/switch_events" 1000 press empty_entry
      pressed refl refl press_decoded

-- The press has been heard at 1000.
abbrev heard_entry : Entry
heard_entry = record empty_entry {
  runtime = record new_runtime { event_platform = true; last_switch_events = λ p. some 1000 };
}

run-burst_example :
    let e' =
      run device_name "casambi/home/switch_events"
        (repeated press (1200 ∷ 1400 ∷ 1600 ∷ []))
        heard_entry in
    (e'.done ≡ heard_entry.done) × (e'.saving ≡ heard_entry.saving)
run-burst_example =
    run-burst device_name "casambi/home/switch_events" press pressed (1200 ∷ 1400 ∷ 1600 ∷ []) 1000
      heard_entry refl refl press_decoded refl (omega arith, (omega arith, (omega arith, tt)))

abbrev bridge_events : List (ℕ × SwitchEvent)
bridge_events =
    (
      1000,
      record {
        event = some "PRESS";
        button = some 6;
        unit_id = some 7;
        dedup_identity = some (7, 0, 5);
      },
    )
    ∷ []

publish_all-IsDecoded_example : All IsDecoded (publish_all bridge_events new_switch_publisher).sent
publish_all-IsDecoded_example = publish_all-IsDecoded bridge_events
