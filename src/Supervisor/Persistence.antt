-- ===== src/Supervisor/Persistence.antt =====
-- What the supervisor saves is what its next pass loads, and what it cannot read is latched.
use Prim.Native.String.{String}
use casambi_mqtt.Prelude.{
  zero, suc, ℕ, ◌-◌, ◌≤◌, ◌≡◌, refl, true, Option, none, some, List, [], ◌∷◌, length, drop, All,
  arith, inl, inr, Option-cases, length-drop, ◌⊎◌, Bool-cases,
}
use casambi_mqtt.Prelude.Text.{str_length, clip_short, is_hex_id, length-clip}
use casambi_mqtt.Json.{Value, Items, no_item, item, Fields, as_matching, get, get_or, equals_int}
use casambi_mqtt.Supervisor.Clock.{Stamp}
use casambi_mqtt.Supervisor.State.{State}
use casambi_mqtt.Supervisor.Decide.{last}
use casambi_mqtt.Supervisor.Store.{
  stamp_json, stamps_json, texts_json, as_stamp, as_all, as_optional_stamp, optional_stamp_json,
  opt, as_list, to_json, check_fields, cut, parse_state, save_state, load_state, StateFile,
  unreadable,
}

-- The states that the file format holds without loss.
pub record IsStorable (s : State) : Type 0 where
  pub instance_short : str_length s.ready_instance ≤ 32
  pub stuck_few : length s.stuck_counted ≤ 32
  pub stuck_ids : All (λ i. is_hex_id i ≡ true) s.stuck_counted
  pub reason_short : str_length s.reason ≤ 64
  pub result_short : str_length s.last_result ≤ 64

as_stamp-json : (s : Stamp) → as_stamp (stamp_json s) ≡ some s
unfolding as_stamp
as_stamp-json s = ground arith

as_all-stamps : (ss : List Stamp) → as_all as_stamp (stamps_json ss) ≡ some ss
unfolding as_all
as_all-stamps [] = refl
as_all-stamps (s ∷ ss) = rw (as_stamp-json s) (rw (as_all-stamps ss))

as_all-texts :
    (ss : List String)
    → All (λ i. is_hex_id i ≡ true) ss
    → as_all (as_matching is_hex_id) (texts_json ss) ≡ some ss
unfolding as_all
as_all-texts [] h = refl
as_all-texts (s ∷ ss) h = rw (h.0) (rw (as_all-texts ss h.1))

as_optional-json : (o : Option Stamp) → as_optional_stamp (some (optional_stamp_json o)) ≡ some o
as_optional-json none = refl
as_optional-json (some s) = rw (as_stamp-json s)

last_short {ℓ} : {A : Type ℓ} (n : ℕ) (xs : List A) → length xs ≤ n → last n xs ≡ xs
last_short n xs h = let e : length xs - n ≡ 0 = omega arith in rw e

-- A state whose texts and list of instances keep to the lengths that the file format cuts to, and
-- whose counted instances are hexadecimal IDs, is loaded back exactly as it was saved.
pub load-save : (s : State) → IsStorable s → load_state (save_state s) ≡ s
unfolding load_state save_state parse_state to_json check_fields cut
load-save s h = simp (
  as_all-stamps,
  as_optional-json,
  as_all-texts s.stuck_counted h.stuck_ids,
  last_short 32 s.stuck_counted h.stuck_few,
  clip_short 32 s.ready_instance h.instance_short,
  clip_short 64 s.reason h.reason_short,
  clip_short 64 s.last_result h.result_short,
)

as_all-ids :
    (items : Items) {ss : List String}
    → as_all (as_matching is_hex_id) items ≡ some ss
    → All (λ i. is_hex_id i ≡ true) ss
unfolding as_all
as_all-ids no_item {ss} e = ground arith
as_all-ids (item v rest) {ss} e = elim (Option-cases (as_all (as_matching is_hex_id) rest)) [
  | inl bad ↦ ground (arith, bad)
  | inr (others, ok) ↦ ground (arith, ok, as_all-ids rest ok)
]

All-drop {ℓ κ} : {A : Type ℓ} (P : A → Type κ) (n : ℕ) (xs : List A) → All P xs → All P (drop n xs)
All-drop P zero xs h = h
All-drop P (suc n) [] h = tt
All-drop P (suc n) (x ∷ xs) h = All-drop P n xs h.1

ids_of_field :
    (o : Option Value) {ss : List String}
    → opt (as_list (as_matching is_hex_id)) o ≡ some ss
    → All (λ i. is_hex_id i ≡ true) ss
ids_of_field none e = cc
ids_of_field (some (Value.arr items)) e = as_all-ids items e
ids_of_field (some _) e = cc

check_fields-stuck :
    (d : Fields) {s : State}
    → check_fields d ≡ some s
    → All (λ i. is_hex_id i ≡ true) s.stuck_counted
unfolding check_fields
check_fields-stuck d {s} e =
    elim (Option-cases (opt (as_list (as_matching is_hex_id)) (get "stuck_counted" d))) [
      | inl bad ↦ ground (arith, bad)
      | inr (ss, ok) ↦
          let ids = ids_of_field (get "stuck_counted" d) ok in
          let same : s.stuck_counted ≡ ss = ground (arith, ok) in rw same ids
    ]

cut-IsStorable : (s : State) → All (λ i. is_hex_id i ≡ true) s.stuck_counted → IsStorable (cut s)
unfolding cut
cut-IsStorable s ids = record {
  instance_short = length-clip 32 s.ready_instance;
  stuck_few = omega (arith, length-drop {0} (length s.stuck_counted - 32) s.stuck_counted);
  stuck_ids = All-drop _ (length s.stuck_counted - 32) s.stuck_counted ids;
  reason_short = length-clip 64 s.reason;
  result_short = length-clip 64 s.last_result;
}

unreadable-IsStorable : IsStorable unreadable
unreadable-IsStorable = omega arith

parse_state-cases :
    (loaded : Option Value)
    → (parse_state loaded ≡ unreadable)
      ⊎ ((d : Fields) × (s : State) × (check_fields d ≡ some s) × (parse_state loaded ≡ cut s))
unfolding parse_state
parse_state-cases none = inl refl
parse_state-cases (some (Value.obj d)) =
    elim (Bool-cases (equals_int (get_or "version" Value.null d) 1)) [
      | inl known ↦ elim (Option-cases (check_fields d)) [
        | inl bad ↦ inl (rw (known, bad))
        | inr (s, ok) ↦ inr (d, s, ok, rw (known, ok))
      ]
      | inr other ↦ inl (rw other)
    ]
parse_state-cases (some _) = inl refl

stored : (f : StateFile) → IsStorable (load_state f)
unfolding load_state
stored StateFile.missing = omega arith
stored StateFile.unread = unreadable-IsStorable
stored (StateFile.content loaded) = elim (parse_state-cases loaded) [
  | inl bad ↦ rw bad unreadable-IsStorable
  | inr (d, s, ok, e) ↦ rw e (cut-IsStorable s (check_fields-stuck d ok))
]

-- Whatever the state file holds, a text of any kind included, what is loaded from it is a state
-- that the file format holds without loss: saving it at once and loading again changes nothing.
pub load_state-IsStorable :
    (f : StateFile)
    → IsStorable (load_state f) × (load_state (save_state (load_state f)) ≡ load_state f)
load_state-IsStorable f = (stored f, load-save (load_state f) (stored f))

-- Where a state cannot be read back it is read as unreadable, with no reset charged.
pub load-save_resets :
    (s : State)
    → (load_state (save_state s) ≡ unreadable) ⊎ ((load_state (save_state s)).resets ≡ s.resets)
unfolding load_state save_state parse_state to_json check_fields cut
load-save_resets s =
    elim (Option-cases (as_all (as_matching is_hex_id) (texts_json s.stuck_counted))) [
      | inl bad ↦ inl (simp (as_all-stamps, as_optional-json, bad))
      | inr (ids, ok) ↦ inr (simp (as_all-stamps, as_optional-json, ok))
    ]
