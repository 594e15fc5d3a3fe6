-- ===== src/Switch/Tests.antt =====
-- The theorems at packets of a PTM215B: button 1 is pressed on unit 3, twice and retransmitted.
use casambi_mqtt.Prelude.{
  ℕ, ◌*◌, ◌-◌, ◌≤◌, ◌≡◌, ◌≢◌, ◌⊎◌, refl, none, some, List, [], ◌∷◌, ◌++◌, All, arith,
}
use casambi_mqtt.Switch.Frame.{
  InvocationFrame, unit_id, next_frame, frame_body, parse_from, parse_invocation_stream,
}
use casambi_mqtt.Switch.Codec.{encode_all}
use casambi_mqtt.Switch.Stream.{Parses, parse_sound, parse-encode, next_frame-none}
use casambi_mqtt.Switch.Decoder.{
  SwitchEvent, SwitchEventDecoder, press, classify, is_retransmit, expire, decode_frame,
  decode_frames, decode,
}
use casambi_mqtt.Switch.Policy.{IsButtonFrame, IsInputFrame, decode_frame_policy}
use casambi_mqtt.Switch.Window.{once_per_window}

-- Two payload bytes, no handle; opcode 29, origin 0x0100, target unit 3 and stream 0x06.
abbrev pressed : InvocationFrame
pressed = record {
  flags = 2;
  opcode = 29;
  origin = 256;
  target = 774;
  age = 0;
  origin_handle = none;
  payload = 7 ∷ 8 ∷ [];
}

-- The input stream, with a handle: a hold.
abbrev held : InvocationFrame
held = record {
  flags = 513;
  opcode = 64;
  origin = 256;
  target = 786;
  age = 0;
  origin_handle = some 5;
  payload = 9 ∷ [];
}

abbrev packet : List ℕ
packet = encode_all (pressed ∷ held ∷ []) ++ (1 ∷ 2 ∷ [])

packet-parse : parse_invocation_stream packet ≡ pressed ∷ held ∷ []
unfolding parse_invocation_stream parse_from next_frame frame_body
packet-parse = refl

parse_sound_example : (rest : List ℕ) × Parses packet (parse_invocation_stream packet) rest
parse_sound_example = parse_sound packet (omega arith)

parse-encode_example : parse_invocation_stream packet ≡ pressed ∷ held ∷ []
parse-encode_example =
    parse-encode (pressed ∷ held ∷ []) (1 ∷ 2 ∷ []) (ground arith) (omega arith)
      (next_frame-none (1 ∷ 2 ∷ []) (unfold next_frame in refl))

-- A clock that ticks 100 ms a reading.
abbrev ticking : ℕ → ℕ
ticking n = 100 * n

abbrev start : SwitchEventDecoder
start = record { seen = []; readings = 0 }

decode-packet :
    (decode ticking (packet ++ packet) start).0
    ≡ record { unit_id = 3; button = 1; event = press; dedup_identity = some (3, 0, 256) } ∷ []
unfolding decode parse_invocation_stream parse_from next_frame frame_body decode_frames decode_frame
    classify is_retransmit expire
decode-packet = refl

abbrev press_event : SwitchEvent
press_event = record { unit_id = 3; button = 1; event = press; dedup_identity = some (3, 0, 256) }

decode_frame-pressed : (decode_frame ticking pressed start).0 ≡ some press_event
unfolding decode_frame classify is_retransmit
decode_frame-pressed = refl

decode_frame_policy_example :
    (1 ≤ press_event.button)
    × (press_event.button ≤ 8)
    × (press_event.unit_id ≡ unit_id pressed)
    × (press_event.dedup_identity ≡ some (unit_id pressed, press_event.button - 1, pressed.origin))
    × (IsButtonFrame pressed press_event.button press_event.event
        ⊎ IsInputFrame pressed press_event.button press_event.event)
decode_frame_policy_example = decode_frame_policy ticking pressed start decode_frame-pressed

once_per_window_example :
    All
      (λ later. later.dedup_identity ≢ some (3, 0, 256))
      (decode_frames ticking
        (pressed ∷ held ∷ pressed ∷ [])
        (decode_frame ticking pressed start).1).0
once_per_window_example =
    once_per_window ticking pressed (pressed ∷ held ∷ pressed ∷ []) start (λ n. omega arith)
      decode_frame-pressed refl (omega arith)
