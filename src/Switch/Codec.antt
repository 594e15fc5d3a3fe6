-- ===== src/Switch/Codec.antt =====
-- The wire format of a frame written out as an encoder, and the parser against it.
use casambi_mqtt.Prelude.{
  ℕ, ◌/◌, ◌%◌, ◌<◌, ◌≡◌, true, false, Option, none, some, List, [], ◌∷◌, ◌++◌, append_assoc, length,
  take, drop, All, All-split, length-append, take-length-append, drop-length-append,
  take-append-drop, length-take, arith, inl, inr, Option-cases,
}
use casambi_mqtt.Switch.Frame.{
  InvocationFrame, has_origin_handle, payload_len, u16, take_handle, take_payload, frame_body,
  next_frame,
}

abbrev pub IsByte : ℕ → Type 0
IsByte b = b < 256

-- The handle byte is there exactly if the flag says so.
abbrev HandleFits : ℕ → Option ℕ → Type 0
HandleFits flags none = has_origin_handle flags ≡ false
HandleFits flags (some b) = (has_origin_handle flags ≡ true) × IsByte b

-- The frames that the wire format can carry.
pub record IsWire (f : InvocationFrame) : Type 0 where
  pub flags_fit : f.flags < 65536
  pub opcode_fits : f.opcode < 256
  pub origin_fits : f.origin < 65536
  pub target_fits : f.target < 65536
  pub age_fits : f.age < 65536
  pub handle_fits : HandleFits f.flags f.origin_handle
  pub payload_fits : length f.payload ≡ payload_len f.flags
  pub payload_bytes : All IsByte f.payload

abbrev handle_bytes : Option ℕ → List ℕ
handle_bytes none = []
handle_bytes (some b) = b ∷ []

-- flags, opcode, origin, target, age, the handle if there is one, the payload; big-endian.
abbrev pub encode : InvocationFrame → List ℕ
encode f =
    f.flags / 256
    ∷ f.flags % 256
    ∷ f.opcode
    ∷ f.origin / 256
    ∷ f.origin % 256
    ∷ f.target / 256
    ∷ f.target % 256
    ∷ f.age / 256
    ∷ f.age % 256
    ∷ (handle_bytes f.origin_handle ++ f.payload)

abbrev pub encode_all : List InvocationFrame → List ℕ
encode_all [] = []
encode_all (f ∷ fs) = encode f ++ encode_all fs

u16-split : (x : ℕ) → u16 (x / 256) (x % 256) ≡ x
u16-split x = omega arith

take_handle-bytes :
    (flags : ℕ) (h : Option ℕ) (rest : List ℕ)
    → HandleFits flags h
    → take_handle flags (handle_bytes h ++ rest) ≡ some (h, rest)
take_handle-bytes flags none rest fits = rw fits
take_handle-bytes flags (some b) rest fits = rw (fits.0)

take_payload-append :
    (payload rest : List ℕ) → take_payload (length payload) (payload ++ rest) ≡ some (payload, rest)
take_payload-append payload rest = ground (
  arith,
  length-append payload rest,
  take-length-append payload rest,
  drop-length-append payload rest,
)

frame_body-encode :
    (f : InvocationFrame) (rest : List ℕ)
    → IsWire f
    → frame_body f.flags f.opcode f.origin f.target f.age
        (handle_bytes f.origin_handle ++ (f.payload ++ rest))
      ≡ some (f, rest)
unfolding frame_body
frame_body-encode f rest w =
    rw (take_handle-bytes f.flags f.origin_handle (f.payload ++ rest) w.handle_fits)
      (rw (← w.payload_fits) (rw (take_payload-append f.payload rest)))

pub next_frame-encode :
    (f : InvocationFrame) (rest : List ℕ)
    → IsWire f
    → next_frame (encode f ++ rest) ≡ some (f, rest)
unfolding next_frame
next_frame-encode f rest w =
    rw (append_assoc, u16-split f.flags, u16-split f.origin, u16-split f.target, u16-split f.age)
      (frame_body-encode f rest w)

abbrev Read : List ℕ → InvocationFrame → List ℕ → Type 0
Read bytes f rest = IsWire f × (encode f ++ rest ≡ bytes)

take_handle_inv :
    (flags : ℕ) (bytes : List ℕ) {h : Option ℕ} {rest : List ℕ}
    → All IsByte bytes
    → take_handle flags bytes ≡ some (h, rest)
    → HandleFits flags h × (handle_bytes h ++ rest ≡ bytes) × All IsByte rest
take_handle_inv flags bytes b e = ground arith

take_payload_inv :
    (n : ℕ) (bytes : List ℕ) {payload rest : List ℕ}
    → All IsByte bytes
    → take_payload n bytes ≡ some (payload, rest)
    → (length payload ≡ n) × (payload ++ rest ≡ bytes) × All IsByte payload × All IsByte rest
take_payload_inv n bytes b e = ground (
  arith,
  length-take n bytes,
  take-append-drop n bytes,
  All-split IsByte (take n bytes) (drop n bytes),
)

frame_body_inv :
    (flags opcode origin target age : ℕ) (bytes : List ℕ) {f : InvocationFrame} {rest : List ℕ}
    → flags < 65536
    → opcode < 256
    → origin < 65536
    → target < 65536
    → age < 65536
    → All IsByte bytes
    → frame_body flags opcode origin target age bytes ≡ some (f, rest)
    → IsWire f
      × (handle_bytes f.origin_handle ++ (f.payload ++ rest) ≡ bytes)
      × (f.flags ≡ flags)
      × (f.opcode ≡ opcode)
      × (f.origin ≡ origin)
      × (f.target ≡ target)
      × (f.age ≡ age)
      × All IsByte rest
unfolding frame_body
frame_body_inv flags opcode origin target age bytes hf ho hg ht ha b e =
    elim (Option-cases (take_handle flags bytes)) [
      | inl cut ↦ ground (arith, cut)
      | inr ((h, after), e1) ↦ elim (Option-cases (take_payload (payload_len flags) after)) [
        | inl cut ↦ ground (arith, cut, e1)
        | inr ((payload, rest'), e2) ↦
            let (hf1, hb, hy) = take_handle_inv flags bytes b e1 in
            let (pl, pb, py, ry) = take_payload_inv (payload_len flags) after hy e2 in
            ground (arith, e1, e2)
      ]
    ]

u16_lt : (hi lo : ℕ) → IsByte hi → IsByte lo → u16 hi lo < 65536
u16_lt hi lo h l = omega arith

u16-div : (hi lo : ℕ) → IsByte lo → u16 hi lo / 256 ≡ hi
u16-div hi lo l = omega arith

u16-mod : (hi lo : ℕ) → IsByte lo → u16 hi lo % 256 ≡ lo
u16-mod hi lo l = omega arith

-- A frame that is read is one of the wire format, and its encoding is what was consumed.
pub next_frame_inv :
    (bytes : List ℕ) (f : InvocationFrame) (rest : List ℕ)
    → All IsByte bytes
    → next_frame bytes ≡ some (f, rest)
    → IsWire f × (encode f ++ rest ≡ bytes) × All IsByte rest
unfolding next_frame
next_frame_inv (f1 ∷ f0 ∷ op ∷ o1 ∷ o0 ∷ t1 ∷ t0 ∷ a1 ∷ a0 ∷ bytes) f rest b e =
    let (b1, (b0, (bo, (c1, (c0, (d1, (d0, (g1, (g0, br))))))))) = b in
    let (w, body, ef, eo, eg, et, ea, r) =
      frame_body_inv (u16 f1 f0) op (u16 o1 o0) (u16 t1 t0) (u16 a1 a0) bytes {f = f} {rest = rest}
        (u16_lt f1 f0 b1 b0) bo (u16_lt o1 o0 c1 c0) (u16_lt t1 t0 d1 d0) (u16_lt a1 a0 g1 g0) br
        e in
    (
      w,
      ground (
        arith,
        u16-div f1 f0 b0,
        u16-mod f1 f0 b0,
        u16-div o1 o0 c0,
        u16-mod o1 o0 c0,
        u16-div t1 t0 d0,
        u16-mod t1 t0 d0,
        u16-div a1 a0 g0,
        u16-mod a1 a0 g0,
        append_assoc (handle_bytes f.origin_handle) f.payload rest,
      ),
      r,
    )
next_frame_inv _ f rest b e = cc
