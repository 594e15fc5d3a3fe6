-- ===== src/Integration/Options.antt =====
-- custom_components/casambi_mqtt: that the options flow stores the settings that were chosen.
use Prim.Native.String.{String}
use text.Mathlib.Text.{◌==◌ as str_eq}
use text.Mathlib.TextEquality.{eq_iff}
use text.Mathlib.TextPositions.{eq_refl}
use casambi_mqtt.Prelude.{
  ℕ, ◌≡◌, refl, sym, ap, ◌∙◌, subst, inl, inr, Bool, true, false, Option, none, some, List, [], ◌∷◌,
  leb, ◌&&◌, if◌then◌else◌, Bool-cases, Option-cases,
}
use casambi_mqtt.Prelude.Int.{pos}
use casambi_mqtt.Json.{Value, int, bool, str, Fields, end, field, get, get_or, as_count}
use casambi_mqtt.Health.Bridge.{from_options, setting, bool_or}
use casambi_mqtt.Integration.Names.{conf_network_name}
use casambi_mqtt.Integration.Flows.{among, setting_keys, copy_one, copied, chosen_options}

value_or : Value → Option Value → Value
value_or d none = d
value_or d (some v) = v

get_or-get : (k : String) (d : Value) (f : Fields) → get_or k d f ≡ value_or d (get k f)
unfolding value_or
get_or-get k d end = refl
get_or-get k d (field name v rest) = elim (Bool-cases (str_eq name k)) [
  | inl e ↦ rw (get_or, e) refl
  | inr e ↦ rw (get_or, e) (get_or-get k d rest)
]

copy_one-get_or :
    (k x : String) (d : Value) (o : Option Value) (rest : Fields)
    → str_eq x k ≡ false
    → get_or k d (copy_one x o rest) ≡ get_or k d rest
copy_one-get_or k x d none rest h = refl
copy_one-get_or k x d (some v) rest h = rw h refl

either : (b : Bool) (v : Value) → (if b then v else v) ≡ v
either true v = refl
either false v = refl

same_key :
    (k : String) (d : Value) (rest input : Fields) (b : Bool)
    → get_or k d rest ≡ (if b then get_or k d input else d)
    → get_or k d (copy_one k (get k input) rest) ≡ get_or k d input
unfolding value_or
same_key k d rest input b h = elim (Option-cases (get k input)) [
  | inl missing ↦
      let none_there : get_or k d input ≡ d = get_or-get k d input ∙ ap (value_or d) missing in
      ap (λ o. get_or k d (copy_one k o rest)) missing
      ∙ h
      ∙ ap (λ v. if b then v else d) none_there
      ∙ either b d
      ∙ sym none_there
  | inr (v, found) ↦
      let here : get_or k d (field k v rest) ≡ v = rw (eq_refl k) refl in
      ap (λ o. get_or k d (copy_one k o rest)) found
      ∙ here
      ∙ sym (get_or-get k d input ∙ ap (value_or d) found)
]

-- What is copied is found again, and nothing else is.
copied-get_or :
    (k : String) (d : Value) (ks : List String) (input : Fields)
    → get_or k d (copied ks input) ≡ (if among k ks then get_or k d input else d)
copied-get_or k d [] input = refl
copied-get_or k d (x ∷ ks) input =
    let ih = copied-get_or k d ks input in
    elim (Bool-cases (str_eq x k)) [
      | inl e ↦
          let same = same_key k d (copied ks input) input (among k ks) ih in
          rw e (
            subst (λ y. get_or k d (copy_one y (get y input) (copied ks input)) ≡ get_or k d input)
              (sym ((eq_iff x k).0 e)) same)
      | inr e ↦ rw e (copy_one-get_or k x d (get x input) (copied ks input) e ∙ ih)
    ]

module _ (name : String) (input : Fields) where
  chosen-get_or :
      (k : String) (d : Value)
      → among k setting_keys ≡ true
      → str_eq conf_network_name k ≡ false
      → get_or k d (chosen_options name input) ≡ get_or k d input
  chosen-get_or k d known other =
      copy_one-get_or k conf_network_name d (some (str name)) (copied setting_keys input) other
      ∙ copied-get_or k d setting_keys input
      ∙ ap (λ b. if b then get_or k d input else d) known

  chosen-setting :
      (k : String) (default minimum maximum : ℕ)
      → among k setting_keys ≡ true
      → str_eq conf_network_name k ≡ false
      → setting (chosen_options name input) k default minimum maximum
        ≡ setting input k default minimum maximum
  unfolding setting
  chosen-setting k default minimum maximum known other =
      ap
        (λ v. elim (as_count v) [
          | none ↦ default
          | some n ↦ if leb minimum n && leb n maximum then n else default
        ])
        (chosen-get_or k (int (pos default)) known other)

  -- The settings that are read from the options that the form stores are those that are read from its
  -- input.
  pub from_options-chosen : from_options (chosen_options name input) ≡ from_options input
  unfolding from_options
  from_options-chosen = λ i. record {
    stale_seconds = chosen-setting "health_stale_seconds" 120 60 3600 refl refl i;
    startup_grace_seconds = chosen-setting "health_startup_grace_seconds" 90 30 1800 refl refl i;
    probe_interval_seconds =
        chosen-setting "health_probe_interval_seconds" 300 300 86400 refl refl i;
    consumer_probe_interval_seconds =
        chosen-setting "health_consumer_probe_interval_seconds" 900 300 86400 refl refl i;
    probe_deadline_seconds = chosen-setting "health_probe_deadline_seconds" 20 5 120 refl refl i;
    recovery_cooldown_seconds =
        chosen-setting "health_recovery_cooldown_seconds" 600 600 86400 refl refl i;
    stale_confirm_seconds = chosen-setting "health_stale_confirm_seconds" 90 90 3600 refl refl i;
    recovery_verify_seconds =
        chosen-setting "health_recovery_verify_seconds" 180 60 900 refl refl i;
    recovery_enabled =
        bool_or true (chosen-get_or "health_recovery_enabled" (bool true) refl refl i);
  }
