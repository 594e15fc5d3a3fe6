-- ===== src/Integration/Runtime.antt =====
-- custom_components/casambi_mqtt: runtime_data.py, switch_events.py and event.py. Times are in
-- milliseconds. The device registry is its switches of this entry, each unit with its device's id;
-- what the integration hands to Home Assistant is the trace `done`, the newest first.
use Prim.Native.String.{String}
use text.Mathlib.Text.{◌==◌ as str_eq}
use casambi_mqtt.Prelude.{
  ℕ, ◌+◌, Bool, false, ◌&&◌, Option, none, some, List, [], ◌∷◌, any, keep, not, true, leb, ltb,
  ◌==◌, if◌then◌else◌,
}
use casambi_mqtt.Prelude.Maybe.{◌>>=◌}
use casambi_mqtt.Prelude.Dict.{find, put, insert, insert_all}
use casambi_mqtt.Prelude.Cut.{decimal}
use casambi_mqtt.Json.{
  Value, int, arr, Fields, end, field, Items, no_item, item, has_keys, get, as_object, as_text,
  as_count, require,
}
use casambi_mqtt.Prelude.Int.{pos}

abbrev pub max_switch_value : ℕ
max_switch_value = 255

abbrev pub default_switch_buttons : List ℕ
default_switch_buttons = 1 ∷ 2 ∷ 3 ∷ 4 ∷ []

abbrev pub supported_switch_events : List String
supported_switch_events = "PRESS" ∷ "RELEASE" ∷ "HOLD" ∷ "RELEASE_AFTER_HOLD" ∷ []

-- A decoded event: what `decode_switch_event` returns, and the key of the events seen.
pub record Press : Type 0 where
  pub unit_id : ℕ
  pub button : ℕ
  pub event_type : String

abbrev pub is_event_type : String → Bool
is_event_type e = any (λ s. str_eq s e) supported_switch_events

abbrev pub checked_press : ℕ → ℕ → String → Option Press
checked_press u b e =
    require (leb u max_switch_value && (leb b max_switch_value && is_event_type e))
      (some (record { unit_id = u; button = b; event_type = e }))

unfoldable pub decode_switch_event : Option Value → Option Press
decode_switch_event payload = do
  v ← payload
  d ← as_object v
  require (has_keys ("unit_id" ∷ "button" ∷ "event" ∷ []) d) (do
    unit_id ← get "unit_id" d
    button ← get "button" d
    event_type ← get "event" d
    u ← as_count unit_id
    b ← as_count button
    e ← as_text event_type
    checked_press u b e)

pub record SwitchUnit : Type 0 where
  pub device_id : String
  pub buttons : List ℕ

abbrev pub press_eq : Press → Press → Bool
press_eq p q = p.unit_id == q.unit_id && (p.button == q.button && str_eq p.event_type q.event_type)

-- What the switches need of CasambiMqttRuntimeData: `event_platform` tells whether
-- `event_add_entities` is set, and the dictionary of the times is its lookup.
pub record RuntimeData : Type 0 where
  pub event_platform : Bool
  pub switch_units : List (ℕ × SwitchUnit)
  pub switch_button_events : List (ℕ × ℕ)
  pub last_switch_events : Press → Option ℕ

abbrev pub new_runtime : RuntimeData
new_runtime = record {
  event_platform = false;
  switch_units = [];
  switch_button_events = [];
  last_switch_events = λ p. none;
}

abbrev pub switch_event_dedup_ms : ℕ
switch_event_dedup_ms = 250

-- `previous is not None and now - previous < SWITCH_EVENT_DEDUP_SECONDS`
abbrev pub is_recent : ℕ → Option ℕ → Bool
is_recent now none = false
is_recent now (some t) = ltb now (t + switch_event_dedup_ms)

unfoldable pub is_duplicate_switch_event : ℕ → Press → RuntimeData → Bool × RuntimeData
is_duplicate_switch_event now p r = (
  is_recent now (r.last_switch_events p),
  record r { last_switch_events = λ q. if press_eq p q then some now else r.last_switch_events q },
)

abbrev pub unit_of : ℕ → RuntimeData → Option SwitchUnit
unit_of u r = find (λ i j. i == j) u r.switch_units

abbrev pub put_unit : ℕ → SwitchUnit → RuntimeData → RuntimeData
put_unit u s r = record r { switch_units = put (λ i j. i == j) u s r.switch_units }

unfoldable pub add_switch_unit : ℕ → String → RuntimeData → RuntimeData
add_switch_unit u device_id r = put_unit u (record { device_id = device_id; buttons = [] }) r

abbrev pub number_items : List ℕ → Items
number_items [] = no_item
number_items (b ∷ bs) = item (int (pos b)) (number_items bs)

-- One unit's entry, if it has buttons.
abbrev pub store_buttons : ℕ → List ℕ → Fields → Fields
store_buttons u [] others = others
store_buttons u (b ∷ bs) others =
    field (decimal u) (arr (number_items (insert_all (b ∷ bs) []))) others

abbrev pub stored_units : List (ℕ × SwitchUnit) → Fields
stored_units [] = end
stored_units ((u, s) ∷ rest) = store_buttons u s.buttons (stored_units rest)

unfoldable pub stored_switch_buttons : RuntimeData → Fields
stored_switch_buttons r = stored_units r.switch_units

-- event.py
abbrev pub observed_buttons : ℕ → RuntimeData → List ℕ
observed_buttons u r = elim (unit_of u r) [ none ↦ [] | some s ↦ s.buttons ]

unfoldable pub switch_buttons : RuntimeData → ℕ → List ℕ
switch_buttons r u = insert_all (observed_buttons u r) default_switch_buttons

abbrev pub has_button : List (ℕ × ℕ) → ℕ → ℕ → Bool
has_button known u b = any (λ k. k.0 == u && k.1 == b) known

abbrev pub missing_buttons : RuntimeData → ℕ → List ℕ
missing_buttons r u = keep (λ b. not (has_button r.switch_button_events u b)) (switch_buttons r u)

-- What Home Assistant is asked for.
pub data Effect : Type 0 where
  save_buttons : Fields → Effect
  add_button_entity : ℕ → ℕ → Effect
  send_button : ℕ → ℕ → String → Effect
  send_event : ℕ → ℕ → String → Effect

-- A device of the registry, with its identifiers: a domain and a value each.
pub record Device : Type 0 where
  pub device_id : String
  pub identifiers : List (String × String)

-- One config entry of the integration: its runtime data, the devices of the registry, what was asked
-- for, and the events whose handler waits for the store to save.
pub record Entry : Type 0 where
  pub entry_id : String
  pub runtime : RuntimeData
  pub devices : List Device
  pub done : List Effect
  pub saving : List Press

abbrev pub enter : ℕ → List ℕ → List (ℕ × ℕ) → List (ℕ × ℕ)
enter u [] known = known
enter u (b ∷ bs) known = enter u bs ((u, b) ∷ known)

abbrev pub tell : ℕ → List ℕ → List Effect → List Effect
tell u [] done = done
tell u (b ∷ bs) done = tell u bs (add_button_entity u b ∷ done)

-- `async_add_switch_buttons`; with nothing missing, nothing is entered and nothing is added.
unfoldable pub async_add_switch_buttons : ℕ → Entry → Entry
async_add_switch_buttons u e =
    let missing = missing_buttons e.runtime u in
    let r : RuntimeData = record e.runtime {
      switch_button_events = enter u missing e.runtime.switch_button_events;
    } in
    if e.runtime.event_platform then record e { runtime = r; done = tell u missing e.done } else e

abbrev pub add_all : List ℕ → Entry → Entry
add_all [] e = e
add_all (u ∷ us) e = add_all us (async_add_switch_buttons u e)

-- The numbers of the units, sorted.
abbrev pub unit_numbers : List (ℕ × SwitchUnit) → List ℕ
unit_numbers [] = []
unit_numbers ((u, s) ∷ rest) = insert u (unit_numbers rest)

-- `async_setup_entry` of event.py
unfoldable pub setup_event_platform : Entry → Entry
setup_event_platform e =
    let r : RuntimeData = record e.runtime { event_platform = true } in
    add_all (unit_numbers r.switch_units) (record e { runtime = r })
