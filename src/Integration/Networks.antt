-- ===== src/Integration/Networks.antt =====
-- custom_components/casambi_mqtt/config_flow.py: what the options flow keeps, and which entries listen to
-- which topics, however entries are added, changed and removed.
use Prim.Native.String.{String}
use text.Mathlib.Text.{◌==◌ as str_eq}
use text.Mathlib.TextEquality.{eq_iff}
use casambi_mqtt.Prelude.{
  ◌≡◌, refl, sym, ap, ◌∙◌, subst, inl, inr, Bool, true, false, not, ◌||◌, none, some, List, [], ◌∷◌,
  keep, if◌then◌else◌, Bool-cases, Option-cases, ◌≢◌, by_equation, by_test,
}
use casambi_mqtt.Prelude.Cut.{strip_prefix}
use casambi_mqtt.Json.{Fields}
use casambi_mqtt.Integration.Names.{configured_network_name, is_valid_text, event_prefix}
use casambi_mqtt.Integration.Topics.{event_prefix_inj}
use casambi_mqtt.Integration.Flows.{
  FlowEntry, FlowResult, name_of, configured_network_names, among, copied, chosen_options,
  setting_keys, change_entry, async_step_init, FlowStep, add, change, remove, flow_step, flow_run,
}
use casambi_mqtt.Integration.Separate.{
  ids, network_names, Separate, or_false, eq_swap, negated, accepted, keep-Separate, user-Separate,
}

module _ (id name : String) (options : Fields) where
  change_ids : (es : List FlowEntry) → ids (change_entry id name options es) ≡ ids es
  change_ids [] = refl
  change_ids (e ∷ es) =
      let rest = change_ids es in
      by_test
        (λ (x : FlowEntry).
          (x.entry_id ∷ ids (change_entry id name options es)) ≡ e.entry_id ∷ ids es)
        (str_eq e.entry_id id) _ e (ap (λ t. e.entry_id ∷ t) rest) (ap (λ t. e.entry_id ∷ t) rest)

  -- Without the entry, nothing is changed, and nothing is left out.
  change_absent :
      (es : List FlowEntry)
      → among id (ids es) ≡ false
      → (change_entry id name options es ≡ es)
        × (keep (λ (e : FlowEntry). not (str_eq e.entry_id id)) es ≡ es)
  change_absent [] h = (refl, refl)
  change_absent (e ∷ es) h =
      let (here, later) = or_false (str_eq e.entry_id id) (among id (ids es)) h in
      let (same, all_kept) = change_absent es later in
      (rw (here, same) refl, rw (here, all_kept) refl)

  change_among :
      (s : String) (es : List FlowEntry)
      → ((f : Fields) → configured_network_name options f ≡ name)
      → str_eq name s ≡ false
      → among s (network_names es) ≡ false
      → among s (network_names (change_entry id name options es)) ≡ false
  change_among s [] named apart h = refl
  change_among s (e ∷ es) named apart h =
      let (here, later) = or_false (str_eq (name_of e) s) (among s (network_names es)) h in
      let rest = change_among s es named apart later in
      by_test
        (λ (x : FlowEntry).
          (str_eq (name_of x) s || among s (network_names (change_entry id name options es)))
          ≡ false)
        (str_eq e.entry_id id) (record e { unique_id = name; options = options }) e
        (rw (named e.fixed, apart, rest) refl) (rw (here, rest) refl)

  -- What the check leaves of the other entries' names.
  others : List FlowEntry → List FlowEntry
  others es = keep (λ (e : FlowEntry). not (str_eq e.entry_id id)) es

  change-Separate :
      (es : List FlowEntry)
      → is_valid_text name ≡ true
      → ((f : Fields) → configured_network_name options f ≡ name)
      → among name (network_names (others es)) ≡ false
      → Separate es
      → Separate (change_entry id name options es)
  unfolding others
  change-Separate [] valid named free h = tt
  change-Separate (e ∷ es) valid named free (v, own, fresh, h) =
      let tail = change_entry id name options es in
      let other_ids : among e.entry_id (ids tail) ≡ false =
        subst (λ i. among e.entry_id i ≡ false) (sym (change_ids es)) fresh in
      let left =
        λ (b : Bool). among name (network_names (if b then e ∷ others es else others es)) ≡ false in
      by_equation (λ (x : FlowEntry). Separate (x ∷ tail)) (str_eq e.entry_id id)
        (record e { unique_id = name; options = options }) e
        (λ same.
          let eq = (eq_iff e.entry_id id).0 same in
          let (unchanged, all_kept) =
            change_absent es (subst (λ i. among i (ids es) ≡ false) eq fresh) in
          let free_here : among name (network_names (others es)) ≡ false =
            subst left (ap not same) free in
          let free_rest : among name (network_names tail) ≡ false =
            subst (λ x. among name (network_names x) ≡ false) (all_kept ∙ sym unchanged)
              free_here in
          (
            rw (named e.fixed) valid,
            rw (named e.fixed) free_rest,
            other_ids,
            subst Separate (sym unchanged) h,
          ))
        (λ other.
          let (here, later) =
            or_false (str_eq (name_of e) name) (among name (network_names (others es)))
              (subst left (ap not other) free) in
          (
            v,
            change_among (name_of e) es named (eq_swap (name_of e) name here) own,
            other_ids,
            change-Separate es valid named later h,
          ))

init-Separate :
    (id name : String) (input : Fields) (es : List FlowEntry)
    → Separate es
    → Separate (async_step_init id name input es).1
unfolding async_step_init others
init-Separate id name input es h =
    let P = λ (x : FlowResult × List FlowEntry). Separate x.1 in
    by_equation P (not (is_valid_text name)) _ _ (λ invalid. h)
      (λ valid.
        by_equation P (among name (configured_network_names (some id) es)) _ _ (λ used. h)
          (λ free.
            let v = negated (is_valid_text name) valid in
            change-Separate id name (chosen_options name input) es v
              (λ f. accepted name f (copied setting_keys input) v) free h))

-- A new entry gets an id that no entry has: Home Assistant's part.
abbrev pub HasNewIds : List FlowStep → List FlowEntry → Type 0
HasNewIds [] es = Unit
HasNewIds (add new_id name ∷ ss) es =
    (among new_id (ids es) ≡ false) × HasNewIds ss (flow_step (add new_id name) es)
HasNewIds (change id name input ∷ ss) es = HasNewIds ss (flow_step (change id name input) es)
HasNewIds (remove id ∷ ss) es = HasNewIds ss (flow_step (remove id) es)

flow_run-Separate :
    (ss : List FlowStep) (es : List FlowEntry)
    → HasNewIds ss es
    → Separate es
    → Separate (flow_run ss es)
flow_run-Separate [] es new h = h
flow_run-Separate (add new_id name ∷ ss) es (fresh, new) h =
    flow_run-Separate ss _ new (user-Separate new_id name es fresh h)
flow_run-Separate (change id name input ∷ ss) es new h =
    flow_run-Separate ss _ new (init-Separate id name input es h)
flow_run-Separate (remove id ∷ ss) es new h =
    flow_run-Separate ss _ new (keep-Separate (λ (e : FlowEntry). not (str_eq e.entry_id id)) es h)

-- The entries that listen to a topic for events of units: those below whose prefix it is.
abbrev pub listens : String → FlowEntry → Bool
listens topic e = elim (strip_prefix (event_prefix (name_of e)) topic) [
  | none ↦ false
  | some suffix ↦ true
]

true-false : true ≢ false
true-false = λ h. cc

listens-some :
    (topic : String) (e : FlowEntry)
    → listens topic e ≡ true
    → (s : String) × (strip_prefix (event_prefix (name_of e)) topic ≡ some s)
listens-some topic e h = elim (Option-cases (strip_prefix (event_prefix (name_of e)) topic)) [
  | inl x ↦
      let never : false ≡ true = subst (λ o. elim o [ none ↦ false | some s ↦ true ] ≡ true) x h in
      elim (true-false (sym never)) [ ]
  | inr x ↦ x
]

-- Is at most one of the entries of this list one that listens?
abbrev pub AtMostOne : String → List FlowEntry → Type 0
AtMostOne topic [] = Unit
AtMostOne topic (e ∷ es) =
    (listens topic e ≡ true → keep (listens topic) es ≡ []) × AtMostOne topic es

no_other :
    (topic : String) (e : FlowEntry) (es : List FlowEntry)
    → is_valid_text (name_of e) ≡ true
    → among (name_of e) (network_names es) ≡ false
    → Separate es
    → listens topic e ≡ true
    → keep (listens topic) es ≡ []
no_other topic e [] v own h here = refl
no_other topic e (x ∷ es) v own (v', own', fresh, h) here =
    let (apart, own_rest) = or_false (str_eq (name_of x) (name_of e)) _ own in
    let rest = no_other topic e es v own_rest h here in
    elim (Bool-cases (listens topic x)) [
      | inl there ↦
          let (s, a) = listens-some topic e here in
          let (s', a') = listens-some topic x there in
          let (same, _) = event_prefix_inj (name_of x) (name_of e) topic s' s v' v a' a in
          let never : str_eq (name_of x) (name_of e) ≡ true = (eq_iff _ _).1 same in
          elim (true-false (sym never ∙ apart)) [ ]
      | inr away ↦ rw away rest
    ]

Separate-AtMostOne : (topic : String) (es : List FlowEntry) → Separate es → AtMostOne topic es
Separate-AtMostOne topic [] h = tt
Separate-AtMostOne topic (e ∷ es) (v, own, fresh, h) =
    (no_other topic e es v own h, Separate-AtMostOne topic es h)

-- However entries are added, changed and removed, if each new one gets an id of its own: the entries keep
-- valid network names and no two the same one, and no topic is below the events of two of them.
pub flow_run-AtMostOne :
    (ss : List FlowStep) (topic : String)
    → HasNewIds ss []
    → Separate (flow_run ss []) × AtMostOne topic (flow_run ss [])
flow_run-AtMostOne ss topic new =
    let h = flow_run-Separate ss [] new tt in (h, Separate-AtMostOne topic (flow_run ss []) h)
