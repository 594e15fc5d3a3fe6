-- ===== src/Switch/Window.antt =====
-- The retransmit window of SwitchEventDecoder: what `_seen` remembers, and what it suppresses.
use casambi_mqtt.Prelude.{
  ◌-◌, subst, ℕ, suc, zero, ◌+◌, ◌≤◌, ◌<◌, ◌≡◌, ◌≢◌, refl, ◌⊎◌, Option, none, some, List, [], ◌∷◌,
  arith, true, false, All, length, Option-cases, inl, inr, Bool-cases, if◌then◌else◌, ◌↔◌,
}
use native.Mathlib.Nat.{add-zero, add-suc}
use casambi_mqtt.Switch.Frame.{InvocationFrame, unit_id}
use casambi_mqtt.Switch.Decoder.{
  SwitchEventPhase, SwitchEvent, SwitchEventDecoder, Key, key_eq, Seen, lookup, insert, expire,
  retransmit_window, classify, is_retransmit, decode_frame, decode_frames, collect,
}

key_eq_iff : (k j : Key) → (key_eq k j ≡ true) ↔ (k ≡ j)
key_eq_iff (u, c, o) (u', c', o') = ground arith

lookup-insert :
    (k j : Key) (t : ℕ) (seen : Seen)
    → lookup k (insert j t seen) ≡ (if key_eq j k then some t else lookup k seen)
lookup-insert k j t [] = ground (arith, key_eq_iff k j, key_eq_iff j k)
lookup-insert k j t ((i, u) ∷ seen) = ground (
  arith,
  key_eq_iff k j,
  key_eq_iff j k,
  key_eq_iff k i,
  key_eq_iff j i,
  lookup-insert k j t seen,
)

-- An entry that can still suppress something survives.
lookup-expire :
    (k : Key) (now t : ℕ) (seen : Seen)
    → lookup k seen ≡ some t
    → now < t + retransmit_window
    → lookup k (expire now seen) ≡ some t
unfolding expire
lookup-expire k now t [] e h = cc
lookup-expire k now t ((j, u) ∷ seen) e h = ground (arith, lookup-expire k now t seen)

-- Every entry left was taken less than the window ago.
abbrev pub IsFresh : ℕ → Seen → Type 0
IsFresh now seen = All (λ e. now < e.1 + retransmit_window) seen

pub expire-IsFresh : (now : ℕ) (seen : Seen) → IsFresh now (expire now seen)
unfolding expire
expire-IsFresh now [] = tt
expire-IsFresh now ((k, t) ∷ seen) = ground (arith, expire-IsFresh now seen)

-- Not an event of the key.
abbrev NotOf : Key → Option SwitchEvent → Type 0
NotOf k none = Unit
NotOf k (some e) = e.dedup_identity ≢ some k

collect-All :
    (k : Key) (ev : Option SwitchEvent) (events : List SwitchEvent)
    → NotOf k ev
    → All (λ e. e.dedup_identity ≢ some k) events
    → All (λ e. e.dedup_identity ≢ some k) (collect ev events)
collect-All k none events h rest = rest
collect-All k (some e) events h rest = (h, rest)

module _ (monotonic : ℕ → ℕ) where
  -- A key that was let through less than the window ago is a retransmission, and changes nothing;
  -- any other is let through and remembered with the time read.
  is_retransmit-cases :
      (k : Key) (d : SwitchEventDecoder)
      → let now = monotonic d.readings in
        let (again, d') = is_retransmit monotonic k d in
        (again ≡ true) × (d'.seen ≡ d.seen) × (d'.readings ≡ suc d.readings)
        ⊎ (again ≡ false)
          × (d'.seen ≡ expire now (insert k now d.seen))
          × (d'.readings ≡ suc d.readings)
  unfolding is_retransmit
  is_retransmit-cases k d = ground arith

  is_retransmit-IsFresh :
      (k : Key) (d : SwitchEventDecoder)
      → (is_retransmit monotonic k d).0 ≡ false
      → IsFresh (monotonic d.readings) (is_retransmit monotonic k d).1.seen
  is_retransmit-IsFresh k d new = elim (is_retransmit-cases k d) [
    | inl (again, _, _) ↦ cc
    | inr (_, e, _) ↦
        rw e (expire-IsFresh (monotonic d.readings) (insert k (monotonic d.readings) d.seen))
  ]

  is_retransmit_iff :
      (k : Key) (d : SwitchEventDecoder)
      → ((is_retransmit monotonic k d).0 ≡ true)
        ↔ ((t : ℕ) × (lookup k d.seen ≡ some t) × (monotonic d.readings < t + retransmit_window))
  unfolding is_retransmit
  is_retransmit_iff k d = elim (Option-cases (lookup k d.seen)) [
    | inl e ↦ (λ h. ground (arith, e), λ (t, p, q). cc)
    | inr (t, e) ↦ (λ h. (t, e, ground (arith, e)), λ (u, p, q). ground (arith, e))
  ]

  -- The key is remembered as let through at `t`.
  abbrev Holds : Key → ℕ → SwitchEventDecoder → Type 0
  Holds k t d = lookup k d.seen ≡ some t

  is_retransmit-Holds :
      (k j : Key) (t : ℕ) (d : SwitchEventDecoder)
      → Holds k t d
      → monotonic d.readings < t + retransmit_window
      → Holds k t (is_retransmit monotonic j d).1
        × ((is_retransmit monotonic j d).0 ≡ false → j ≢ k)
  unfolding is_retransmit
  is_retransmit-Holds k j t d h w = elim (Bool-cases (key_eq j k)) [
    | inl same ↦
        (ground (arith, (key_eq_iff j k).0 same), λ e p. ground (arith, (key_eq_iff j k).0 same))
    | inr other ↦ (
      ground (
        arith,
        other,
        lookup-insert k j (monotonic d.readings) d.seen,
        lookup-expire k (monotonic d.readings) t (insert j (monotonic d.readings) d.seen),
      ),
      λ e p. cc (other, (key_eq_iff j k).1 p),
    )
  ]

  decode_frame-Holds :
      (k : Key) (f : InvocationFrame) (t : ℕ) (d : SwitchEventDecoder)
      → Holds k t d
      → monotonic d.readings < t + retransmit_window
      → Holds k t (decode_frame monotonic f d).1 × NotOf k (decode_frame monotonic f d).0
  unfolding decode_frame
  decode_frame-Holds k f t d h w = elim (Option-cases (classify f)) [
    | inl dropped ↦ rw (dropped, decode_frame) (h, tt)
    | inr ((control, phase), c) ↦
        let (kept, other) = is_retransmit-Holds k (unit_id f, control, f.origin) t d h w in
        rw (c, decode_frame)
          (elim (Bool-cases (is_retransmit monotonic (unit_id f, control, f.origin) d).0) [
            | inl again ↦ rw again (kept, tt)
            | inr new ↦ rw new (kept, λ same. other new (cc))
          ])
  ]

  decode_frame_readings :
      (f : InvocationFrame) (d : SwitchEventDecoder)
      → (decode_frame monotonic f d).1.readings ≤ suc d.readings
  unfolding decode_frame is_retransmit
  decode_frame_readings f d = ground arith

  decode_frame-remembers :
      (f : InvocationFrame) (d : SwitchEventDecoder) {e : SwitchEvent} {k : Key}
      → (decode_frame monotonic f d).0 ≡ some e
      → e.dedup_identity ≡ some k
      → Holds k (monotonic d.readings) (decode_frame monotonic f d).1
  unfolding decode_frame is_retransmit
  decode_frame-remembers f d {e} {k} h i = elim (Option-cases (classify f)) [
    | inl dropped ↦ ground (arith, dropped)
    | inr ((control, phase), c) ↦
        let now = monotonic d.readings in
        let j : Key = (unit_id f, control, f.origin) in
        ground (
          arith,
          c,
          key_eq_iff j j,
          key_eq_iff j k,
          lookup-insert j j now d.seen,
          lookup-expire j now now (insert j now d.seen),
        )
  ]

  -- The clock does not go back.
  abbrev pub IsSteady : Type 0
  IsSteady = (n : ℕ) → monotonic n ≤ monotonic (suc n)

  steady_add : IsSteady → (n k : ℕ) → monotonic n ≤ monotonic (n + k)
  steady_add s n zero = rw add-zero (omega arith)
  steady_add s n (suc k) = rw add-suc (omega (arith, steady_add s n k, s (n + k)))

  steady_le : IsSteady → (n m : ℕ) → n ≤ m → monotonic n ≤ monotonic m
  steady_le s n m h =
      let e : n + (m - n) ≡ m = omega arith in
      subst (λ x. monotonic n ≤ monotonic x) e (steady_add s n (m - n))

  suppressed :
      (k : Key) (t : ℕ) (fs : List InvocationFrame) (d : SwitchEventDecoder)
      → IsSteady
      → Holds k t d
      → monotonic (d.readings + length fs) < t + retransmit_window
      → All (λ e. e.dedup_identity ≢ some k) (decode_frames monotonic fs d).0
  unfolding decode_frames
  suppressed k t [] d s h w = tt
  suppressed k t (f ∷ fs) d s h w =
      let (ev, d') = decode_frame monotonic f d in
      let later = decode_frame_readings f d in
      let soon = steady_le s d.readings (d.readings + suc (length fs)) (omega arith) in
      let (kept, other) = decode_frame-Holds k f t d h (omega arith) in
      let next =
        steady_le s (d'.readings + length fs) (d.readings + suc (length fs)) (omega arith) in
      let rest = suppressed k t fs d' s kept (omega arith) in
      collect-All k ev (decode_frames monotonic fs d').0 other rest

  -- Once an event has been published for a frame, none of the following frames, of the same packet
  -- or of later ones, is published again under the same (unit, control, origin) while the readings
  -- of a clock that does not go back stay within half a second of the first.
  pub once_per_window :
      (f : InvocationFrame) (fs : List InvocationFrame) (d : SwitchEventDecoder) {e : SwitchEvent}
      {k : Key}
      → IsSteady
      → (decode_frame monotonic f d).0 ≡ some e
      → e.dedup_identity ≡ some k
      → monotonic (suc d.readings + length fs) < monotonic d.readings + retransmit_window
      → All
          (λ later. later.dedup_identity ≢ some k)
          (decode_frames monotonic fs (decode_frame monotonic f d).1).0
  once_per_window f fs d {k = k} s p i w =
      let later = decode_frame_readings f d in
      let d' = (decode_frame monotonic f d).1 in
      suppressed k (monotonic d.readings) fs d' s (decode_frame-remembers f d p i) (
        omega
          (arith, steady_le s (d'.readings + length fs) (suc d.readings + length fs) (omega arith)))

  -- A frame that names a control and a phase is published exactly unless its (unit, control,
  -- origin) was remembered less than half a second before the decoder's next clock reading; and
  -- once it has been published, every entry that is still remembered is less than half a second old.
  pub published_iff :
      (f : InvocationFrame) (d : SwitchEventDecoder) {control : ℕ} {phase : SwitchEventPhase}
      → classify f ≡ some (control, phase)
      → (((decode_frame monotonic f d).0 ≡ none) ↔ (
          (t : ℕ) × (lookup (unit_id f, control, f.origin) d.seen ≡ some t)
          × (monotonic d.readings < t + retransmit_window)))
        × ((decode_frame monotonic f d).0 ≢ none
            → IsFresh (monotonic d.readings) (decode_frame monotonic f d).1.seen)
  unfolding decode_frame
  published_iff f d {control} {phase} c =
      let k : Key = (unit_id f, control, f.origin) in
      let (to, from) = is_retransmit_iff k d in
      rw (c, decode_frame)
        (elim (Bool-cases (is_retransmit monotonic k d).0) [
          | inl again ↦ rw again ((λ _. to again, λ _. refl), λ h. absurd (h refl))
          | inr new ↦ rw new ((λ h. cc, λ h. cc (new, from h)), λ h. is_retransmit-IsFresh k d new)
        ])
