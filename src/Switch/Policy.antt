-- ===== src/Switch/Policy.antt =====
-- What SwitchEventDecoder publishes: which stream owns which phase, and which control is named.
use casambi_mqtt.Prelude.{◌-◌, Option-cases, inl, inr, ℕ, suc, ◌+◌, ◌≤◌, ◌≡◌, ◌⊎◌, ◌<◌, some, arith}
use casambi_mqtt.Switch.Frame.{InvocationFrame, unit_id, target_type}
use casambi_mqtt.Switch.Decoder.{
  SwitchEventPhase, press, release, hold, release_after_hold, SwitchEvent, SwitchEventDecoder,
  classify, decode_frame,
}

-- The button stream names the phase in its origin; the input stream in the first payload byte.
abbrev pub IsButtonFrame : InvocationFrame → ℕ → SwitchEventPhase → Type 0
IsButtonFrame f button phase =
    (target_type f ≡ 0x06) × (f.opcode + 1 ≡ 29 + button) × ((phase ≡ press) ⊎ (phase ≡ release))

abbrev pub IsInputFrame : InvocationFrame → ℕ → SwitchEventPhase → Type 0
IsInputFrame f button phase =
    (target_type f ≡ 0x12)
    × (f.opcode + 1 ≡ 64 + button)
    × ((phase ≡ hold) ⊎ (phase ≡ release_after_hold))

pub classify_policy :
    (f : InvocationFrame) (control : ℕ) (phase : SwitchEventPhase)
    → classify f ≡ some (control, phase)
    → (control < 8) × (IsButtonFrame f (suc control) phase ⊎ IsInputFrame f (suc control) phase)
unfolding classify
classify_policy f control phase e = ground arith

module _ (monotonic : ℕ → ℕ) where
  decode_frame_inv :
      (f : InvocationFrame) (d : SwitchEventDecoder) {e : SwitchEvent}
      → (decode_frame monotonic f d).0 ≡ some e
      → (control : ℕ) × (classify f ≡ some (control, e.event))
        × (e.button ≡ suc control)
        × (e.unit_id ≡ unit_id f)
        × (e.dedup_identity ≡ some (unit_id f, control, f.origin))
  unfolding decode_frame
  decode_frame_inv f d {e} h = elim (Option-cases (classify f)) [
    | inl dropped ↦ ground (arith, dropped)
    | inr ((control, phase), c) ↦
        (control, ground (arith, c), ground (arith, c), ground (arith, c), ground (arith, c))
  ]

  -- An event that is published names a button 1 to 8 by the opcode of its stream's range, the unit
  -- of the frame's target, and the identity (unit, control, origin); press and release come from
  -- the button stream alone, hold and release-after-hold from the input stream alone.
  pub decode_frame_policy :
      (f : InvocationFrame) (d : SwitchEventDecoder) {e : SwitchEvent}
      → (decode_frame monotonic f d).0 ≡ some e
      → (1 ≤ e.button)
        × (e.button ≤ 8)
        × (e.unit_id ≡ unit_id f)
        × (e.dedup_identity ≡ some (unit_id f, e.button - 1, f.origin))
        × (IsButtonFrame f e.button e.event ⊎ IsInputFrame f e.button e.event)
  decode_frame_policy f d {e} h =
      let (control, c, b, u, k) = decode_frame_inv f d h in
      let p = classify_policy f control e.event c in ground (arith, p, c, b, u, k)
