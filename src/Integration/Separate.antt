-- ===== src/Integration/Separate.antt =====
-- custom_components/casambi_mqtt/config_flow.py: that the entries keep valid and distinct network names,
-- and what that means for the topics that they listen to.
use Prim.Native.String.{String}
use text.Mathlib.Text.{◌==◌ as str_eq}
use text.Mathlib.TextEquality.{eq_iff}
use casambi_mqtt.Prelude.{
  ◌≡◌, refl, sym, subst, inl, inr, Bool, true, false, not, ◌||◌, List, [], ◌∷◌, ◌++◌, any, keep,
  map, Bool-cases, by_equation, by_test,
}
use casambi_mqtt.Json.{str, Fields, end, field}
use casambi_mqtt.Integration.Names.{conf_network_name, configured_network_name, is_valid_text}
use casambi_mqtt.Integration.Flows.{FlowEntry, FlowResult, name_of, among, async_step_user}

abbrev pub ids : List FlowEntry → List String
ids es = map (λ (e : FlowEntry). e.entry_id) es

abbrev pub network_names : List FlowEntry → List String
network_names es = map name_of es

-- Every entry's network name is valid, and no other entry has it, or the entry's id.
abbrev pub Separate : List FlowEntry → Type 0
Separate [] = Unit
Separate (e ∷ es) =
    (is_valid_text (name_of e) ≡ true)
    × (among (name_of e) (network_names es) ≡ false)
    × (among e.entry_id (ids es) ≡ false)
    × Separate es

pub or_false : (a b : Bool) → (a || b) ≡ false → (a ≡ false) × (b ≡ false)
or_false true b h = cc
or_false false b h = (refl, h)

pub negated : (b : Bool) → not b ≡ false → b ≡ true
negated true h = refl
negated false h = cc

pub eq_swap : (s t : String) → str_eq s t ≡ false → str_eq t s ≡ false
eq_swap s t h = elim (Bool-cases (str_eq t s)) [
  | inl e ↦ let same : str_eq s t ≡ true = (eq_iff s t).1 (sym ((eq_iff t s).0 e)) in cc
  | inr e ↦ e
]

valid_named : (name : String) → is_valid_text name ≡ true → str_eq name "" ≡ false
valid_named name v = elim (Bool-cases (str_eq name "")) [
  | inl e ↦
      let empty : is_valid_text "" ≡ true =
        subst (λ s. is_valid_text s ≡ true) ((eq_iff name "").0 e) v in
      cc
  | inr e ↦ e
]

-- A name that the form accepted is the name of the entry.
pub accepted :
    (name : String) (fixed rest : Fields)
    → is_valid_text name ≡ true
    → configured_network_name (field conf_network_name (str name) rest) fixed ≡ name
unfolding configured_network_name
accepted name fixed rest v = rw (valid_named name v) refl

created :
    (name : String)
    → is_valid_text name ≡ true
    → configured_network_name end (field conf_network_name (str name) end) ≡ name
unfolding configured_network_name
created name v = rw (valid_named name v) refl

-- What is not among some texts is not among those that a test keeps.
among-keep :
    (f : FlowEntry → String) (p : FlowEntry → Bool) (s : String) (es : List FlowEntry)
    → among s (map f es) ≡ false
    → among s (map f (keep p es)) ≡ false
among-keep f p s [] h = refl
among-keep f p s (e ∷ es) h =
    let (here, later) = or_false (str_eq (f e) s) (among s (map f es)) h in
    let rest = among-keep f p s es later in
    by_test (λ x. among s (map f x) ≡ false) (p e) (e ∷ keep p es) (keep p es)
      (rw (here, rest) refl) rest

pub keep-Separate :
    (p : FlowEntry → Bool) (es : List FlowEntry) → Separate es → Separate (keep p es)
keep-Separate p [] h = tt
keep-Separate p (e ∷ es) (valid, own, fresh, h) =
    let rest = keep-Separate p es h in
    by_test Separate (p e) (e ∷ keep p es) (keep p es)
      (
        valid,
        among-keep name_of p (name_of e) es own,
        among-keep (λ (x : FlowEntry). x.entry_id) p e.entry_id es fresh,
        rest,
      )
      rest

among-append :
    (f : FlowEntry → String) (s : String) (es : List FlowEntry) (e : FlowEntry)
    → among s (map f es) ≡ false
    → str_eq (f e) s ≡ false
    → among s (map f (es ++ (e ∷ []))) ≡ false
among-append f s [] e h k = rw k refl
among-append f s (x ∷ es) e h k =
    let (here, later) = or_false (str_eq (f x) s) (among s (map f es)) h in
    rw (here, among-append f s es e later k) refl

append-Separate :
    (es : List FlowEntry) (e : FlowEntry)
    → is_valid_text (name_of e) ≡ true
    → among (name_of e) (network_names es) ≡ false
    → among e.entry_id (ids es) ≡ false
    → Separate es
    → Separate (es ++ (e ∷ []))
append-Separate [] e v a i h = (v, refl, refl, tt)
append-Separate (x ∷ es) e v a i (valid, own, fresh, h) =
    let (here, later) = or_false (str_eq (name_of x) (name_of e)) _ a in
    let (here', later') = or_false (str_eq x.entry_id e.entry_id) _ i in
    (
      valid,
      among-append name_of (name_of x) es e own (eq_swap (name_of x) (name_of e) here),
      among-append (λ (y : FlowEntry). y.entry_id) x.entry_id es e fresh
          (eq_swap x.entry_id e.entry_id here'),
      append-Separate es e v later later' h,
    )

pub user-Separate :
    (new_id name : String) (es : List FlowEntry)
    → among new_id (ids es) ≡ false
    → Separate es
    → Separate (async_step_user new_id name es).1
unfolding async_step_user
user-Separate new_id name es fresh h =
    let P = λ (x : FlowResult × List FlowEntry). Separate x.1 in
    by_equation P (not (is_valid_text name)) _ _ (λ invalid. h)
      (λ valid.
        by_equation P (among name (network_names es)) _ _ (λ used. h)
          (λ free. by_test P (any (λ (e : FlowEntry). str_eq e.unique_id name) es) _ _ h (
            let v = negated (is_valid_text name) valid in
            append-Separate es _ (rw (created name v) v) (rw (created name v) free) fresh h)))
