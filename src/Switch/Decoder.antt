-- ===== src/Switch/Decoder.antt =====
-- switch_decoder.py: SwitchEventPhase, SwitchEvent and SwitchEventDecoder. Times are in milliseconds,
-- so that the half-second window is a number; `now - t < w` is written `now < t + w`, which is the
-- same test also where the clock reads less than `t`.
use casambi_mqtt.Prelude.{
  ℕ, suc, ◌+◌, ◌-◌, ◌/◌, ◌%◌, Bool, true, false, ◌&&◌, Option, none, some, List, [], ◌∷◌, keep, ltb,
  leb, ◌==◌, if◌then◌else◌,
}
use casambi_mqtt.Switch.Frame.{InvocationFrame, unit_id, target_type, parse_invocation_stream}

abbrev pub button_event_base : ℕ
button_event_base = 29

abbrev pub button_event_last : ℕ
button_event_last = 36

abbrev pub input_event_base : ℕ
input_event_base = 64

abbrev pub input_event_last : ℕ
input_event_last = 71

abbrev pub target_type_button : ℕ
target_type_button = 0x06

abbrev pub target_type_input : ℕ
target_type_input = 0x12

-- RETRANSMIT_WINDOW_SECONDS, 0.5
abbrev pub retransmit_window : ℕ
retransmit_window = 500

-- `origin & 0x02`
abbrev pub is_release_origin : ℕ → Bool
is_release_origin origin = origin / 2 % 2 == 1

pub data SwitchEventPhase : Type 0 where
  press release hold release_after_hold : SwitchEventPhase

-- `SwitchEventPhase(code)`, with the ValueError as `none`
abbrev pub phase_of_code : ℕ → Option SwitchEventPhase
phase_of_code code =
    if code == 0x01
    then some press
    else if code == 0x02
    then some release
    else if code == 0x09
    then some hold
    else if code == 0x0C
    then some release_after_hold
    else none

-- (unit, control, origin)
abbrev pub Key : Type 0
Key = ℕ × ℕ × ℕ

abbrev pub key_eq : Key → Key → Bool
key_eq (u, c, o) (u', c', o') = u == u' && c == c' && o == o'

pub record SwitchEvent : Type 0 where
  pub unit_id : ℕ
  pub button : ℕ
  pub event : SwitchEventPhase
  pub dedup_identity : Option Key

-- The dictionary `_seen`.
abbrev pub Seen : Type 0
Seen = List (Key × ℕ)

abbrev pub lookup : Key → Seen → Option ℕ
lookup k [] = none
lookup k ((j, t) ∷ seen) = if key_eq k j then some t else lookup k seen

abbrev pub insert : Key → ℕ → Seen → Seen
insert k t [] = (k, t) ∷ []
insert k t ((j, u) ∷ seen) = if key_eq k j then (k, t) ∷ seen else (j, u) ∷ insert k t seen

-- now - seen_at < RETRANSMIT_WINDOW_SECONDS
abbrev pub within_window : ℕ → ℕ → Bool
within_window now seen_at = ltb now (seen_at + retransmit_window)

unfoldable pub expire : ℕ → Seen → Seen
expire now seen = keep (λ e. within_window now (e.1)) seen

-- The decoder, with the number of readings that it has taken of its clock.
pub record SwitchEventDecoder : Type 0 where
  pub seen : Seen
  pub readings : ℕ

-- `reset`
unfoldable pub reset : SwitchEventDecoder → SwitchEventDecoder
reset d = record d { seen = [] }

-- The part of `_decode_frame` before the retransmit test: the control and the phase of a frame that
-- is published at all.
abbrev pub button_phase : ℕ → SwitchEventPhase
button_phase origin = if is_release_origin origin then release else press

-- The input stream's press and release codes are dropped.
abbrev pub input_phase : List ℕ → Option SwitchEventPhase
input_phase [] = none
input_phase (code ∷ _) = elim (phase_of_code code) [
  | none ↦ none
  | some phase ↦ elim phase [ press ↦ none | release ↦ none | held ↦ some held ]
]

unfoldable pub classify : InvocationFrame → Option (ℕ × SwitchEventPhase)
classify f =
    if target_type f == target_type_button
      && (leb button_event_base f.opcode && leb f.opcode button_event_last)
    then some (f.opcode - button_event_base, button_phase f.origin)
    else if target_type f == target_type_input
        && (leb input_event_base f.opcode && leb f.opcode input_event_last)
    then elim (input_phase f.payload) [
      | none ↦ none
      | some phase ↦ some (f.opcode - input_event_base, phase)
    ]
    else none

-- `events.append(event)`, if there is one, before those of the later frames.
abbrev pub collect : Option SwitchEvent → List SwitchEvent → List SwitchEvent
collect none events = events
collect (some event) events = event ∷ events

-- The clock is a parameter: what its n-th reading says.
module _ (monotonic : ℕ → ℕ) where
  -- `_is_retransmit`
  unfoldable pub is_retransmit : Key → SwitchEventDecoder → Bool × SwitchEventDecoder
  is_retransmit key d =
      let now = monotonic d.readings in
      let read : SwitchEventDecoder = record d { readings = suc d.readings } in
      let fresh : SwitchEventDecoder = record {
        seen = expire now (insert key now d.seen);
        readings = suc d.readings;
      } in
      elim (lookup key d.seen) [
        | none ↦ (false, fresh)
        | some previous ↦ if within_window now previous then (true, read) else (false, fresh)
      ]

  -- `_decode_frame`
  unfoldable pub decode_frame :
      InvocationFrame → SwitchEventDecoder → Option SwitchEvent × SwitchEventDecoder
  decode_frame f d = elim (classify f) [
    | none ↦ (none, d)
    | some (control, phase) ↦
        let key : Key = (unit_id f, control, f.origin) in
        let (again, d') = is_retransmit key d in
        if again then (none, d') else (
          some (record {
            unit_id = unit_id f;
            button = suc control;
            event = phase;
            dedup_identity = some key;
          }),
          d',
        )
  ]

  unfoldable pub decode_frames :
      List InvocationFrame → SwitchEventDecoder → List SwitchEvent × SwitchEventDecoder
  decode_frames [] d = ([], d)
  decode_frames (f ∷ fs) d =
      let (event, d1) = decode_frame f d in
      let (events, d2) = decode_frames fs d1 in (collect event events, d2)

  unfoldable pub decode : List ℕ → SwitchEventDecoder → List SwitchEvent × SwitchEventDecoder
  decode bytes d = decode_frames (parse_invocation_stream bytes) d

-- install_switch_event_decoder: what casambi-bt's client module holds under `parseSwitchEvents`. Its
-- own parser is not modelled; `ours` is this decoder, `absent` that the name is gone.
pub data Seam : Type 0 where
  absent theirs : Seam
  ours : SwitchEventDecoder → Seam

-- `none` is the RuntimeError. A decoder that is installed already stays, with what it has seen.
unfoldable pub install_switch_event_decoder : Seam → Option Seam
install_switch_event_decoder absent = none
install_switch_event_decoder theirs = some (ours (record { seen = []; readings = 0 }))
install_switch_event_decoder (ours d) = some (ours d)
