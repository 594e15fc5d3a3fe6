-- ===== src/Switch/Stream.antt =====
-- parse_invocation_stream over a whole packet: what it reads, what it leaves, and that it ends.
use casambi_mqtt.Prelude.{
  ℕ, zero, suc, ◌+◌, ◌≤◌, ◌≡◌, ◌≢◌, refl, ap, ◌∙◌, none, List, [], ◌∷◌, ◌++◌, append_assoc, length,
  length-append, All, arith, inl, inr, Option-cases,
}
use casambi_mqtt.Switch.Frame.{InvocationFrame, next_frame, parse_from, parse_invocation_stream}
use casambi_mqtt.Switch.Codec.{
  IsByte, IsWire, encode, encode_all, next_frame-encode, next_frame_inv,
}

-- No complete frame starts here.
abbrev pub NoFrame : List ℕ → Type 0
NoFrame bytes = (f : InvocationFrame) (tail : List ℕ) → IsWire f → encode f ++ tail ≢ bytes

pub next_frame-none : (bytes : List ℕ) → next_frame bytes ≡ none → NoFrame bytes
next_frame-none bytes e f tail w p = cc (next_frame-encode f tail w, ap next_frame p)

next_frame_of_NoFrame :
    (bytes : List ℕ) → All IsByte bytes → NoFrame bytes → next_frame bytes ≡ none
next_frame_of_NoFrame bytes b n = elim (Option-cases (next_frame bytes)) [
  | inl e ↦ e
  | inr ((f, rest), e) ↦ let (w, p, _) = next_frame_inv bytes f rest b e in absurd (n f rest w p)
]

-- The parse of a packet that ends in `rest`: the frames make up what stands before it.
pub record Parses (bytes : List ℕ) (fs : List InvocationFrame) (rest : List ℕ) : Type 0 where
  pub wire : All IsWire fs
  pub consumed : encode_all fs ++ rest ≡ bytes
  pub stopped : NoFrame rest

length-encode : (f : InvocationFrame) (rest : List ℕ) → length rest + 9 ≤ length (encode f ++ rest)
length-encode f rest = omega (arith, length-append {0} (encode f) rest)

parse_from-Parses :
    (fuel : ℕ) (bytes : List ℕ)
    → All IsByte bytes
    → length bytes ≤ fuel
    → (rest : List ℕ) × Parses bytes (parse_from fuel bytes) rest
unfolding parse_from
parse_from-Parses zero [] b h = (
  [],
  record { wire = tt; consumed = refl; stopped = next_frame-none [] (unfold next_frame in refl) },
)
parse_from-Parses zero (x ∷ bytes) b h = absurd (omega arith)
parse_from-Parses (suc fuel) bytes b h = elim (Option-cases (next_frame bytes)) [
  | inl e ↦ (
    bytes,
    rw (e, parse_from) (record { wire = tt; consumed = refl; stopped = next_frame-none bytes e }),
  )
  | inr ((f, tail), e) ↦
      let (w, p, bt) = next_frame_inv bytes f tail b e in
      let (rest, q) =
        parse_from-Parses fuel tail bt (omega (arith, length-encode f tail, ap length p)) in
      (
        rest,
        rw (e, parse_from)
            (record {
              wire = (w, q.wire);
              consumed = append_assoc (encode f) _ rest ∙ ap (λ t. encode f ++ t) q.consumed ∙ p;
              stopped = q.stopped;
            }),
      )
]

-- Over any bytes the parser yields frames of the wire format whose encodings, in order, make up the
-- packet up to some rest, and no complete frame starts at that rest: nothing is skipped, nothing
-- is invented, and the fuel is enough.
pub parse_sound :
    (bytes : List ℕ)
    → All IsByte bytes
    → (rest : List ℕ) × Parses bytes (parse_invocation_stream bytes) rest
unfolding parse_invocation_stream
parse_sound bytes b = parse_from-Parses (length bytes) bytes b (omega arith)

parse_from-encode :
    (fuel : ℕ) (fs : List InvocationFrame) (rest : List ℕ)
    → All IsWire fs
    → next_frame rest ≡ none
    → length (encode_all fs ++ rest) ≤ fuel
    → parse_from fuel (encode_all fs ++ rest) ≡ fs
unfolding parse_from
parse_from-encode zero [] rest w n h = refl
parse_from-encode zero (f ∷ fs) rest w n h = absurd (omega arith)
parse_from-encode (suc fuel) [] rest w n h = rw (n, parse_from)
parse_from-encode (suc fuel) (f ∷ fs) rest w n h =
    rw
      (
        append_assoc (encode f) (encode_all fs) rest,
        next_frame-encode f (encode_all fs ++ rest) w.0,
        parse_from,
      )
      (ap (λ t. f ∷ t)
        (parse_from-encode fuel fs rest w.1 n (
          omega (
            arith,
            length-encode f (encode_all fs ++ rest),
            ap length (append_assoc (encode f) (encode_all fs) rest),
          ))))

-- A packet that is the encoding of frames of the wire format, with any bytes behind them at which
-- no complete frame starts, is parsed back to exactly those frames.
pub parse-encode :
    (fs : List InvocationFrame) (rest : List ℕ)
    → All IsWire fs
    → All IsByte rest
    → NoFrame rest
    → parse_invocation_stream (encode_all fs ++ rest) ≡ fs
unfolding parse_invocation_stream
parse-encode fs rest w b n =
    parse_from-encode _ fs rest w (next_frame_of_NoFrame rest b n) (omega arith)
