-- ===== src/Switch/Frame.antt =====
-- switch_decoder.py: InvocationFrame and parse_invocation_stream. A byte is a number below 256, and
-- Python's `&` with a mask of low bits is `%`, `>>` is `/`.
use casambi_mqtt.Prelude.{
  ℕ, zero, suc, ◌+◌, ◌*◌, ◌/◌, ◌%◌, Bool, Option, none, some, List, [], ◌∷◌, length, take, drop,
  ltb, ◌==◌, if◌then◌else◌,
}
use casambi_mqtt.Prelude.Maybe.{◌>>=◌}

abbrev pub header_length : ℕ
header_length = 9

-- `flags & 0x0200`
abbrev pub has_origin_handle : ℕ → Bool
has_origin_handle flags = flags / 512 % 2 == 1

pub record InvocationFrame : Type 0 where
  pub flags : ℕ
  pub opcode : ℕ
  pub origin : ℕ
  pub target : ℕ
  pub age : ℕ
  pub origin_handle : Option ℕ
  pub payload : List ℕ

-- `flags & 0x3f`
abbrev pub payload_len : ℕ → ℕ
payload_len flags = flags % 64

abbrev pub unit_id : InvocationFrame → ℕ
unit_id f = f.target / 256

abbrev pub target_type : InvocationFrame → ℕ
target_type f = f.target % 256

-- `int.from_bytes` of two bytes, big-endian
abbrev pub u16 : ℕ → ℕ → ℕ
u16 hi lo = hi * 256 + lo

-- The handle byte, read only if the flag asks for it.
abbrev pub take_handle : ℕ → List ℕ → Option (Option ℕ × List ℕ)
take_handle flags rest =
    if has_origin_handle flags
    then elim rest [ [] ↦ none | b ∷ tail ↦ some (some b, tail) ]
    else some (none, rest)

abbrev pub take_payload : ℕ → List ℕ → Option (List ℕ × List ℕ)
take_payload n rest = if ltb (length rest) n then none else some (take n rest, drop n rest)

-- What follows the header of a frame.
unfoldable pub frame_body :
    (flags opcode origin target age : ℕ) → List ℕ → Option (InvocationFrame × List ℕ)
frame_body flags opcode origin target age rest = do
  (origin_handle, after_handle) ← take_handle flags rest
  (payload, after) ← take_payload (payload_len flags) after_handle
  some (
    record {
      flags = flags;
      opcode = opcode;
      origin = origin;
      target = target;
      age = age;
      origin_handle = origin_handle;
      payload = payload;
    },
    after,
  )

-- One round of the `while` loop: a frame and the bytes after it, or the end of the loop, by its
-- condition (fewer than nine bytes) or by a `break` (a truncated frame).
unfoldable pub next_frame : List ℕ → Option (InvocationFrame × List ℕ)
next_frame (f1 ∷ f0 ∷ opcode ∷ o1 ∷ o0 ∷ t1 ∷ t0 ∷ a1 ∷ a0 ∷ rest) =
    frame_body (u16 f1 f0) opcode (u16 o1 o0) (u16 t1 t0) (u16 a1 a0) rest
next_frame _ = none

-- The loop, on fuel.
unfoldable pub parse_from : ℕ → List ℕ → List InvocationFrame
parse_from zero bytes = []
parse_from (suc fuel) bytes = elim (next_frame bytes) [
  | none ↦ []
  | some (frame, rest) ↦ frame ∷ parse_from fuel rest
]

-- Each round takes nine bytes or more, so as many rounds as there are bytes are enough.
unfoldable pub parse_invocation_stream : List ℕ → List InvocationFrame
unfolding parse_from
parse_invocation_stream bytes = parse_from (length bytes) bytes
