-- ===== src/Integration/Control.antt =====
-- The bridge and the integration together: what the bridge publishes of a unit becomes a light that
-- shows its state, and whose commands move this unit.
use Prim.Native.Char.{Char}
use Prim.Native.String.{String}
use text.Mathlib.Text.{◌==◌ as str_eq}
use text.Mathlib.TextPositions.{eq_refl}
use text.Mathlib.TextEquality.{eq_iff}
use casambi_mqtt.Prelude.{
  ℕ, ◌≡◌, refl, sym, ap, ◌∙◌, inl, inr, true, false, Option, none, some, if◌then◌else◌, by_equation,
  Bool-cases,
}
use casambi_mqtt.Prelude.Int.{pos}
use casambi_mqtt.Prelude.Cut.{◌+++◌, strip_prefix, strip_prefix-append}
use casambi_mqtt.Prelude.Dict.{find-put}
use casambi_mqtt.Prelude.Maybe.{none-some, some_inj}
use casambi_mqtt.Json.{obj}
use casambi_mqtt.Health.Observer.{on_processed_unit}
use casambi_mqtt.Bridge.Commands.{Network, process_command}
use casambi_mqtt.Bridge.Conversion.{
  BtUnit, to_unit_state, to_unit_type, to_entity, unit_event_topic, as_network_unit,
}
use casambi_mqtt.Integration.Names.{event_prefix}
use casambi_mqtt.Integration.Entities.{command_json, unit_kind, type_light, UnitEntity}
use casambi_mqtt.Integration.Lights.{
  ValidUnit, dimmer_of, valid_unit, fits_topic, Light, Consumer, EntityMessage, lookup, processed,
  new_light, update_light, is_positive, show_light, read_unit, event_processor,
}
use casambi_mqtt.Integration.Calls.{Call, command_of, wanted, IsBrightness, IsOnly, call-reaches}

-- The level that a published state shows.
abbrev pub level_of : Option (Option ℕ) → ℕ
level_of none = 0
level_of (some none) = 0
level_of (some (some n)) = n

dimmer-level :
    (o : Option (Option ℕ)) → dimmer_of (to_unit_state o).dimmer ≡ some (pos (level_of o))
dimmer-level none = refl
dimmer-level (some none) = refl
dimmer-level (some (some n)) = refl

-- What the integration reads of a published unit.
abbrev pub read_back : BtUnit → ValidUnit
read_back b = record {
  name = b.name;
  address = b.address;
  uuid = b.uuid;
  dimmer = pos (level_of b.state);
  kind = unit_kind (to_unit_type b.unit_type);
}

valid_unit-to_entity : (b : BtUnit) → valid_unit (to_entity b) ≡ some (read_back b)
unfolding valid_unit to_entity
valid_unit-to_entity b = rw (dimmer-level b.state) refl

-- The topic of a unit is the prefix and a suffix that goes with the unit.
record Suffix (quote : String → String) (network_name topic : String) (b : BtUnit) : Type 0 where
  suffix : String
  is_topic : topic ≡ event_prefix network_name +++ suffix
  not_empty : str_eq suffix "" ≡ false
  fits : fits_topic quote suffix (read_back b) ≡ true

cons_not_empty : (c : Char) (s : String) → str_eq (String.◌∷◌ c s) "" ≡ false
cons_not_empty c s = elim (Bool-cases (str_eq (String.◌∷◌ c s) "")) [
  | inl e ↦ let same : String.◌∷◌ c s ≡ "" = (eq_iff (String.◌∷◌ c s) "").0 e in cc
  | inr e ↦ e
]

topic-Suffix :
    (quote : String → String) (network_name topic : String) (b : BtUnit)
    → unit_event_topic quote network_name b ≡ some topic
    → Suffix quote network_name topic b
unfolding unit_event_topic
topic-Suffix quote network_name topic b =
    by_equation (λ o. o ≡ some topic → Suffix quote network_name topic b) (str_eq b.address "")
      (if str_eq b.uuid ""
        then none
        else some (event_prefix network_name +++ ("uuid/" +++ quote b.uuid)))
      (some (event_prefix network_name +++ b.address))
      (λ e.
        by_equation (λ o. o ≡ some topic → Suffix quote network_name topic b) (str_eq b.uuid "")
          none (some (event_prefix network_name +++ ("uuid/" +++ quote b.uuid)))
          (λ f h. elim (none-some h) [ ])
          (λ f h. (record {
            suffix = "uuid/" +++ quote b.uuid;
            is_topic = sym (some_inj h);
            not_empty = cons_not_empty _ _;
            fits = rw (e, f, eq_refl ("uuid/" +++ quote b.uuid)) refl;
          })))
      (λ e h. (record {
        suffix = b.address;
        is_topic = sym (some_inj h);
        not_empty = e;
        fits = rw (e, eq_refl b.address) refl;
      }))

-- The message that publishes the unit.
abbrev pub unit_message : String → BtUnit → Option ℕ → EntityMessage UnitEntity
unit_message topic b timestamp = record {
  topic = topic;
  has_payload = true;
  entity = some (to_entity b);
  timestamp = timestamp;
}

-- The light shows the unit's state, and if the unit's UUID is not empty and its own alone, the bridge does
-- with this unit what is asked of the light.
pub record Controls (n : Network) (b : BtUnit) (l : Light) : Type 0 where
  pub shows : l.brightness ≡ pos (level_of b.state)
  pub lit : l.is_on ≡ is_positive (pos (level_of b.state))
  pub reaches :
      IsOnly n (as_network_unit b)
      → (call : Call) → IsBrightness call
      → process_command n true (some (obj (command_json (command_of l call))))
        ≡ some (wanted (as_network_unit b) call)

-- A light that the topic already has is the unit's.
abbrev pub IsOwn : BtUnit → Option Light → Type 0
IsOwn b none = Unit
IsOwn b (some l) = l.bt_address ≡ b.address

abbrev shown : String → String → ValidUnit → Option Light → Light
shown entry_id topic u o = elim o [ none ↦ new_light topic entry_id u | some l ↦ update_light u l ]

shown-Controls :
    (n : Network) (b : BtUnit) (entry_id topic : String) (o : Option Light)
    → IsOwn b o
    → Controls n b (shown entry_id topic (read_back b) o)
unfolding new_light update_light
shown-Controls n b entry_id topic none own = record {
  shows = refl;
  lit = refl;
  reaches = λ alone call h.
      call-reaches n (as_network_unit b) alone (new_light topic entry_id (read_back b)) call refl
        refl h;
}
shown-Controls n b entry_id topic (some l) own = record {
  shows = refl;
  lit = refl;
  reaches = λ alone call h.
      call-reaches n (as_network_unit b) alone (update_light (read_back b) l) call own refl h;
}

handled :
    (quote : String → String) (network_name entry_id topic : String) (now : ℕ) (b : BtUnit)
    (timestamp : Option ℕ) (c : Consumer)
    → unit_event_topic quote network_name b ≡ some topic
    → unit_kind (to_unit_type b.unit_type) ≡ type_light
    → c.light_platform ≡ true
    → event_processor quote network_name entry_id now (unit_message topic b timestamp) c
      ≡ processed now (unit_message topic b timestamp) (show_light entry_id topic (read_back b) c)
unfolding event_processor event_prefix processed
handled quote network_name entry_id topic now b timestamp c published kind ready =
    let x = topic-Suffix quote network_name topic b published in
    let strip : strip_prefix (event_prefix network_name) topic ≡ some x.suffix =
      ap (strip_prefix (event_prefix network_name)) x.is_topic
      ∙ strip_prefix-append (event_prefix network_name) x.suffix in
    let read : read_unit network_name (unit_message topic b timestamp)
        ≡ some (x.suffix, read_back b) =
      rw (read_unit, strip, x.not_empty, valid_unit-to_entity b) refl in
    rw (read, kind, x.fits, ready) refl

-- If the bridge publishes a dimmable unit on its topic, the light platform is ready, and the topic has no
-- light but the unit's, then the message leaves a light on the topic that shows the unit's level, and
-- counts as processed. If the unit's UUID is not empty and its own alone in the network, then what is
-- asked of this light (on, a level up to 255, off) makes the bridge do just that with this unit.
pub published-controlled :
    (quote : String → String) (network_name entry_id topic : String) (now : ℕ) (n : Network)
    (b : BtUnit) (timestamp : Option ℕ) (c : Consumer)
    → unit_event_topic quote network_name b ≡ some topic
    → unit_kind (to_unit_type b.unit_type) ≡ type_light
    → c.light_platform ≡ true
    → IsOwn b (lookup topic c.lights)
    → let c' = event_processor quote network_name entry_id now (unit_message topic b timestamp) c in
      ((l : Light) × (lookup topic c'.lights ≡ some l) × Controls n b l)
      × (c'.health ≡ on_processed_unit topic timestamp now c.health)
unfolding processed
published-controlled quote network_name entry_id topic now n b timestamp c published kind ready
      own =
    let e = handled quote network_name entry_id topic now b timestamp c published kind ready in
    let l = shown entry_id topic (read_back b) (lookup topic c.lights) in
    (
      (
        l,
        ap (λ (x : Consumer). lookup topic x.lights) e
            ∙ find-put (λ x y. str_eq x y) eq_iff topic l c.lights,
        shown-Controls n b entry_id topic (lookup topic c.lights) own,
      ),
      ap (λ (x : Consumer). x.health) e,
    )
