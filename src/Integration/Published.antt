-- ===== src/Integration/Published.antt =====
-- The bridge's switch events and the integration: what the one publishes, the other decodes and sends on.
use Prim.Native.String.{String}
use casambi_mqtt.Prelude.{
  ℕ, ◌≡◌, refl, subst, true, ◌&&◌, none, some, List, [], ◌∷◌, ◌++◌, leb, All, All-append,
  by_equation, by_test, by_option,
}
use casambi_mqtt.Prelude.Maybe.{some_inj, bind-some}
use casambi_mqtt.Prelude.Cut.{and_left, and_right}
use casambi_mqtt.Json.{obj}
use casambi_mqtt.Bridge.SwitchEvents.{
  SwitchEvent, Public, public_json, public_fields, is_supported, sanitize_switch_event,
  SwitchEventPublisher, publish, dedup_key, purge_expired, put_seen, new_switch_publisher,
}
use casambi_mqtt.Bridge.SwitchEvents
use casambi_mqtt.Bridge.Purge.{publish_all}
use casambi_mqtt.Integration.Runtime.{Press, decode_switch_event}

-- The event that the integration is to see.
abbrev pub press_of : Public → Press
press_of p = record { unit_id = p.unit; button = p.public_button; event_type = p.name }

-- The integration decodes it from what is published.
abbrev pub IsDecoded : Public → Type 0
IsDecoded p = decode_switch_event (some (obj (public_json p))) ≡ some (press_of p)

-- What passes the bridge's checks passes the integration's.
fields-IsDecoded :
    (name : String) (button unit : ℕ) (p : Public)
    → public_fields name button unit ≡ some p
    → IsDecoded p
unfolding decode_switch_event
fields-IsDecoded name button unit p =
    by_equation (λ o. o ≡ some p → IsDecoded p)
      (is_supported name && (leb button 255 && leb unit 255))
      (some (record { unit = unit; public_button = button; name = name })) none
      (λ e h. subst IsDecoded (some_inj h) (
        let supported : is_supported name ≡ true = and_left (is_supported name) _ e in
        let rest = and_right (is_supported name) _ e in
        let low : leb button 255 ≡ true = and_left (leb button 255) _ rest in
        let low' : leb unit 255 ≡ true = and_right (leb button 255) _ rest in
        rw (low', low, supported) refl))
      (λ e h. cc)

sanitize-IsDecoded : (e : SwitchEvent) (p : Public) → sanitize_switch_event e ≡ some p → IsDecoded p
unfolding sanitize_switch_event
sanitize-IsDecoded e p h =
    let (name, a, h1) = bind-some e.event _ p h in
    let (button, b, h2) = bind-some e.button _ p h1 in
    let (unit, c, h3) = bind-some e.unit_id _ p h2 in fields-IsDecoded name button unit p h3

publish-IsDecoded :
    (now : ℕ) (e : SwitchEvent) (s : SwitchEventPublisher)
    → All IsDecoded s.sent
    → All IsDecoded (publish now e s).sent
unfolding publish
publish-IsDecoded now e s h =
    by_option (λ (x : SwitchEventPublisher). All IsDecoded x.sent) (sanitize_switch_event e) s _
      (λ none_here. h)
      (λ p found.
        by_test (λ (x : SwitchEventPublisher). All IsDecoded x.sent)
          (SwitchEvents.is_recent now (purge_expired now s.last_seen (dedup_key e p)))
          (record s { last_seen = purge_expired now s.last_seen })
          (record s {
            last_seen = put_seen (dedup_key e p) now (purge_expired now s.last_seen);
            sent = s.sent ++ (p ∷ []);
          })
          h (All-append IsDecoded s.sent (p ∷ []) h (sanitize-IsDecoded e p found, tt)))

publish_all-sent :
    (es : List (ℕ × SwitchEvent)) (s : SwitchEventPublisher)
    → All IsDecoded s.sent
    → All IsDecoded (publish_all es s).sent
publish_all-sent [] s h = h
publish_all-sent ((now, e) ∷ es) s h =
    publish_all-sent es (publish now e s) (publish-IsDecoded now e s h)

-- Whatever events the bridge is given, the integration decodes each that it publishes, to just its unit,
-- its button and its phase.
pub publish_all-IsDecoded :
    (es : List (ℕ × SwitchEvent)) → All IsDecoded (publish_all es new_switch_publisher).sent
publish_all-IsDecoded es = publish_all-sent es new_switch_publisher tt
