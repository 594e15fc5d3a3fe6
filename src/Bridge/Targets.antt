-- ===== src/Bridge/Targets.antt =====
-- server.py, process_command: which command moves which unit.
use Prim.Native.String.{String}
use text.Mathlib.Text.{◌==◌ as str_eq}
use text.Mathlib.TextEquality.{eq_iff}
use casambi_mqtt.Prelude.{
  ℕ, ◌≤◌, ◌≡◌, ◌≢◌, inl, inr, sym, ap, ◌∙◌, subst, Bool, true, not, Option, none, some, List, [],
  ◌∷◌, keep, leb, leb→le, if◌then◌else◌, by_test, Bool-cases, arith,
}
use casambi_mqtt.Prelude.Maybe.{none-some, some_inj, bind-some}
use casambi_mqtt.Json.{
  Value, null, str, obj, Fields, get, as_object, as_text, as_count, require-some,
}
use casambi_mqtt.Bridge.Commands.{
  NetworkUnit, Network, Command, set_level, turn_on, switch_to_scene, snapshot_request,
  status_request, only, command_unit, optional_uuid, light_target, max_brightness,
  validate_brightness, validate_command_keys, find_scene, request_id, by_action, process_command,
}

-- The command names the unit, by its address or by its UUID, and no other unit of the network has that.
pub data IsTarget (n : Network) (d : Fields) (u : NetworkUnit) : Type 0 where
  by_address :
      u.address ≢ "" → keep (λ w. str_eq w.address u.address) n.units ≡ u ∷ [] → IsTarget n d u
  by_uuid :
      get "unit_uuid" d ≡ some (str u.uuid)
      → keep (λ w. str_eq w.uuid u.uuid) n.units ≡ u ∷ []
      → IsTarget n d u

only-some : {A : Type 0} (xs : List A) (a : A) → only xs ≡ some a → xs ≡ a ∷ []
only-some [] a h = elim (none-some h) [ ]
only-some (x ∷ []) a h = ap (λ y. y ∷ []) (some_inj h)
only-some (x ∷ (y ∷ rest)) a h = elim (none-some h) [ ]

keep_head : {A : Type 0} (p : A → Bool) (xs : List A) (a : A) → keep p xs ≡ a ∷ [] → p a ≡ true
keep_head p [] a h = cc
keep_head p (x ∷ xs) a h = elim (Bool-cases (p x)) [
  | inl e ↦
      let k : (x ∷ keep p xs) ≡ a ∷ [] =
        subst (λ t. (if t then x ∷ keep p xs else keep p xs) ≡ a ∷ []) e h in
      let same : x ≡ a = cc in subst (λ y. p y ≡ true) same e
  | inr e ↦ keep_head p xs a (subst (λ t. (if t then x ∷ keep p xs else keep p xs) ≡ a ∷ []) e h)
]

as_text-str : (v : Value) (s : String) → as_text v ≡ some s → v ≡ str s
as_text-str (str t) s h = ap str (some_inj h)
as_text-str null s h = cc
as_text-str (Value.bool b) s h = cc
as_text-str (Value.int i) s h = cc
as_text-str (Value.float i) s h = cc
as_text-str (Value.arr xs) s h = cc
as_text-str (obj d) s h = cc

as_object-obj : (v : Value) (d : Fields) → as_object v ≡ some d → v ≡ obj d
as_object-obj (obj e) d h = ap obj (some_inj h)
as_object-obj null d h = cc
as_object-obj (str s) d h = cc
as_object-obj (Value.bool b) d h = cc
as_object-obj (Value.int i) d h = cc
as_object-obj (Value.float i) d h = cc
as_object-obj (Value.arr xs) d h = cc

optional_uuid-str :
    (o : Option Value) (s : String) → optional_uuid o ≡ some (some s) → o ≡ some (str s)
optional_uuid-str none s h = cc
optional_uuid-str (some null) s h = cc
optional_uuid-str (some (str t)) s h =
    let (valid, e) = require-some (not (str_eq t "")) (some (some t)) (some s) h in
    ap (λ x. some (str x)) (some_inj (some_inj e))
optional_uuid-str (some (Value.bool b)) s h = cc
optional_uuid-str (some (Value.int i)) s h = cc
optional_uuid-str (some (Value.float i)) s h = cc
optional_uuid-str (some (Value.arr xs)) s h = cc
optional_uuid-str (some (obj d)) s h = cc

not_empty : (s : String) → not (str_eq s "") ≡ true → s ≢ ""
not_empty s h = λ e. (let same : str_eq s "" ≡ true = (eq_iff s "").1 e in cc)

module _ (n : Network) (d : Fields) where
  command_unit-IsTarget :
      (address : String) (uuid : Option String) (u : NetworkUnit)
      → optional_uuid (get "unit_uuid" d) ≡ some uuid
      → command_unit n address uuid ≡ some u
      → (u.address ≡ address) × IsTarget n d u
  unfolding command_unit
  command_unit-IsTarget address none u g h =
      let (named, o) = require-some (not (str_eq address "")) _ u h in
      let k = only-some _ u o in
      let same : u.address ≡ address =
        (eq_iff u.address address).0
          (keep_head (λ (w : NetworkUnit). str_eq w.address address) n.units u k) in
      (
        same,
        by_address (λ e. not_empty address named (sym same ∙ e))
            (subst (λ a. keep (λ (w : NetworkUnit). str_eq w.address a) n.units ≡ u ∷ []) (sym same)
              k),
      )
  command_unit-IsTarget address (some uuid) u g h =
      let (w, o, r) =
        bind-some (only (keep (λ (w : NetworkUnit). str_eq w.uuid uuid) n.units)) _ u h in
      let (there, e) = require-some (str_eq w.address address) (some w) u r in
      let this : w ≡ u = some_inj e in
      let k =
        subst (λ x. keep (λ (w : NetworkUnit). str_eq w.uuid uuid) n.units ≡ x ∷ []) this
          (only-some _ w o) in
      let same : u.uuid ≡ uuid =
        (eq_iff u.uuid uuid).0 (keep_head (λ (w : NetworkUnit). str_eq w.uuid uuid) n.units u k) in
      let address_same : u.address ≡ address =
        subst (λ (x : NetworkUnit). x.address ≡ address) this
          ((eq_iff w.address address).0 there) in
      (
        address_same,
        by_uuid (optional_uuid-str (get "unit_uuid" d) uuid g ∙ ap (λ s. some (str s)) (sym same)) (
            subst (λ s. keep (λ (w : NetworkUnit). str_eq w.uuid s) n.units ≡ u ∷ []) (sym same) k),
      )

  light_target-IsTarget :
      (u : NetworkUnit)
      → light_target n d ≡ some u
      → (get "address" d ≡ some (str u.address)) × IsTarget n d u
  unfolding light_target
  light_target-IsTarget u h =
      let (v, g, h1) = bind-some (get "address" d) _ u h in
      let (address, t, h2) = bind-some (as_text v) _ u h1 in
      let (uuid, o, h3) = bind-some (optional_uuid (get "unit_uuid" d)) _ u h2 in
      let (same, target) = command_unit-IsTarget address uuid u o h3 in
      (g ∙ ap some (as_text-str v address t) ∙ ap (λ s. some (str s)) (sym same), target)

  -- What a command may do: move the unit that it names to a level of at most 255, or turn it on, or
  -- switch to a scene of the network; the other commands move nothing.
  abbrev pub IsAllowed : Command → Type 0
  IsAllowed (set_level u v) = (get "address" d ≡ some (str u.address)) × IsTarget n d u × (v ≤ 255)
  IsAllowed (turn_on u) = (get "address" d ≡ some (str u.address)) × IsTarget n d u
  IsAllowed (switch_to_scene s) = find_scene s n.scenes ≡ some s
  IsAllowed (snapshot_request id) = Unit
  IsAllowed (status_request id) = Unit

  set_level-IsAllowed :
      (u : NetworkUnit) (given : Value) (v : ℕ)
      → light_target n d ≡ some u
      → validate_brightness given ≡ some v
      → IsAllowed (set_level u v)
  unfolding validate_brightness
  set_level-IsAllowed u given v t b =
      let (address, target) = light_target-IsTarget u t in
      let (k, c, r) = bind-some (as_count given) _ v b in
      let (low, e) = require-some (leb k max_brightness) (some k) v r in
      let same : k ≡ v = some_inj e in
      (address, target, subst (λ x. x ≤ 255) same (leb→le k 255 low))

  find_scene_again :
      (id : ℕ) (ss : List ℕ) (s : ℕ) → find_scene id ss ≡ some s → find_scene s ss ≡ some s
  find_scene_again id [] s h = cc
  find_scene_again id (x ∷ ss) s h = ground (arith, find_scene_again id ss s)

  by_action-IsAllowed :
      (action : String) (c : Command) → by_action n d action ≡ some c → IsAllowed c
  by_action-IsAllowed action c =
      let P = λ (o : Option Command). o ≡ some c → IsAllowed c in
      by_test P (str_eq action "SET_LEVEL") _ _
        (λ h.
          let (given, g, h1) = bind-some (get "value" d) _ c h in
          let (v, b, h2) = bind-some (validate_brightness given) _ c h1 in
          let (u, t, h3) = bind-some (light_target n d) _ c h2 in
          subst IsAllowed (some_inj h3) (set_level-IsAllowed u given v t b))
        (by_test P (str_eq action "TURN_ON") _ _
          (λ h.
            let (u, t, h1) = bind-some (light_target n d) _ c h in
            subst IsAllowed (some_inj h1) (light_target-IsTarget u t))
          (by_test P (str_eq action "PUBLISH_ENTITIES") _ _ (λ h. subst IsAllowed (some_inj h) tt)
            (by_test P (str_eq action "GET_STATUS") _ _
              (λ h.
                let (id, g, h1) = bind-some (request_id d) _ c h in
                subst IsAllowed (some_inj h1) tt)
              (by_test P (str_eq action "SET_SCENE") _ none
                (λ h.
                  let (v, g, h1) = bind-some (get "scene_id" d) _ c h in
                  let (id, i, h2) = bind-some (as_count v) _ c h1 in
                  let (s, f, h3) = bind-some (find_scene id n.scenes) _ c h2 in
                  subst IsAllowed (some_inj h3) (find_scene_again id n.scenes s f))
                (λ h. elim (none-some h) [ ])))))

-- A message leads to a command only on the command topic, and if it is an object with the keys of its
-- action; then the command is allowed: it moves none but the one unit that it names by its address, and
-- by its UUID where the address does not suffice, to no level above 255, or switches to a scene that the
-- network has.
pub process_command-IsAllowed :
    (n : Network) (on_topic : Bool) (payload : Option Value) (c : Command)
    → process_command n on_topic payload ≡ some c
    → (on_topic ≡ true)
      × (d : Fields) × (action : String) × (payload ≡ some (obj d))
      × (get "action" d ≡ some (str action))
      × (validate_command_keys d action ≡ true)
      × IsAllowed n d c
unfolding process_command
process_command-IsAllowed n on_topic payload c h =
    let (on, h1) = require-some on_topic _ c h in
    let (v, p, h2) = bind-some payload _ c h1 in
    let (d, o, h3) = bind-some (as_object v) _ c h2 in
    let (a, g, h4) = bind-some (get "action" d) _ c h3 in
    let (action, t, h5) = bind-some (as_text a) _ c h4 in
    let (valid, h6) = require-some (validate_command_keys d action) _ c h5 in
    (
      on,
      d,
      action,
      p ∙ ap some (as_object-obj v d o),
      g ∙ ap some (as_text-str a action t),
      valid,
      by_action-IsAllowed n d action c h6,
    )
