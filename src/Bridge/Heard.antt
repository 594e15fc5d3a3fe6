-- ===== src/Bridge/Heard.antt =====
-- server.py and custom_components/casambi_mqtt/health.py: what the bridge publishes, the integration
-- takes. Each status is of the v1 shape, and a tracker that has heard only earlier ones accepts it.
use Prim.Native.String.{String}
use text.Mathlib.Text.{◌==◌ as str_eq}
use text.Mathlib.TextEquality.{eq_iff}
use casambi_mqtt.Prelude.{
  ℕ, suc, zero, List, [], ◌∷◌, ◌++◌, drop, ◌≤◌, ◌<◌, ◌≡◌, ◌⊎◌, inl, inr, refl, sym, subst, ap, Bool,
  true, false, Option, none, some, arith, any, if◌then◌else◌, Option-cases, Bool-cases,
}
use casambi_mqtt.Prelude.Maybe.{Each}
use casambi_mqtt.Prelude.Text.{str_length}
use casambi_mqtt.Supervisor.Record.{errors}
use casambi_mqtt.Health.Protocol.{max_counter, BridgeStatus, status_dict}
use casambi_mqtt.Health.Wire.{protocol_version_of}
use casambi_mqtt.Health.RoundTrip.{IsCounter, IsAmong, IsStatus, parse_status-dict}
use casambi_mqtt.Health.Bridge.{
  BridgeStatusTracker, is_retired, is_current, is_old, newer, retire, is_foreign, on_message,
  on_live, accept,
}
use casambi_mqtt.Bridge.State.{Moment, BridgeHealth}
use casambi_mqtt.Bridge.Status.{build_status, whole_seconds, snapshot_age, publishes_late}
use casambi_mqtt.Bridge.Trust.{IsEnumerated}

-- The counters that a status carries are within 2 ** 53, and the UTC text is short.
pub record IsBounded (m : Moment) (h : BridgeHealth) : Type 0 where
  pub sequence : h.sequence < max_counter
  pub clock : m.now ≤ max_counter
  pub text : str_length m.time ≤ 40
  pub generation : IsCounter h.snapshot.generation
  pub units : IsCounter h.snapshot.units
  pub scenes : IsCounter h.snapshot.scenes
  pub failed : IsCounter h.snapshot.failed

whole_seconds-IsCounter : (now since : ℕ) → now ≤ max_counter → IsCounter (whole_seconds now since)
whole_seconds-IsCounter now since h = omega arith

age-IsCounter : (now : ℕ) (at : Option ℕ) → now ≤ max_counter → Each IsCounter (snapshot_age now at)
age-IsCounter now none h = tt
age-IsCounter now (some at) h = omega arith

either-IsAmong :
    (xs : List String) (b : Bool) (s t : String)
    → IsAmong xs s
    → IsAmong xs t
    → IsAmong xs (if b then s else t)
either-IsAmong xs true s t hs ht = hs
either-IsAmong xs false s t hs ht = ht

-- Every status that the bridge builds is of the v1 shape, as long as its counters are within 2 ** 53.
build_status-IsStatus :
    (m : Moment) (h : BridgeHealth) → IsEnumerated h → IsBounded m h → IsStatus (build_status m h).0
unfolding build_status
build_status-IsStatus m h e b =
    let counted : BridgeHealth = record h { sequence = suc h.sequence } in
    record {
      instance = e.instance;
      sequence = omega (arith, b.sequence);
      sequenced = refl;
      ble = e.ble;
      mqtt = e.mqtt;
      uptime = whole_seconds-IsCounter m.now h.started b.clock;
      snapshot = record {
        generation = b.generation;
        units = b.units;
        scenes = b.scenes;
        failed = b.failed;
        age = age-IsCounter m.now h.snapshot_completed_at b.clock;
      };
      error =
          either-IsAmong errors (publishes_late counted) "state_publish_failed" counted.error refl
            e.error;
      time = b.text;
    }

-- Does the tracker hold a status of the bridge's instance?
abbrev pub hears : BridgeHealth → Option BridgeStatus → Bool
hears h none = false
hears h (some c) = str_eq h.instance_id c.instance_id

-- The tracker has heard only what the bridge has sent so far, or another instance.
pub record IsBehind (t : BridgeStatusTracker) (h : BridgeHealth) : Type 0 where
  pub current : is_retired h.instance_id t.retired ≡ false
  pub behind : (hears h t.status ≡ false) ⊎ Each (λ n. n ≤ h.sequence) t.max_sequence

any-drop :
    (p : String → Bool) (n : ℕ) (xs : List String) → any p xs ≡ false → any p (drop n xs) ≡ false
any-drop p zero xs h = h
any-drop p (suc n) [] h = refl
any-drop p (suc n) (x ∷ xs) h = any-drop p n xs (ground arith)

any_append :
    (p : String → Bool) (xs : List String) (y : String)
    → any p xs ≡ false
    → p y ≡ false
    → any p (xs ++ (y ∷ [])) ≡ false
any_append p [] y h e = ground arith
any_append p (x ∷ xs) y h e = ground (arith, any_append p xs y)

-- Retiring another instance does not retire this one.
retire_other :
    (i : String) (o : Option BridgeStatus) (c : BridgeStatus) (retired : List String)
    → o ≡ some c
    → str_eq c.instance_id i ≡ false
    → is_retired i retired ≡ false
    → is_retired i (retire o retired) ≡ false
retire_other i o c retired e d h = rw e (
    any-drop (λ r. str_eq r i) _ (retired ++ (c.instance_id ∷ []))
      (any_append (λ r. str_eq r i) retired c.instance_id h d))

str_eq-false : (a b : String) → str_eq a b ≡ false → str_eq b a ≡ false
str_eq-false a b h = ground (arith, eq_iff a b, eq_iff b a)

-- A live status of the v1 shape that is neither retired nor old is accepted.
taken_live :
    (s : BridgeStatus) (now : ℕ) (t : BridgeStatusTracker)
    → IsStatus s
    → is_retired s.instance_id t.retired ≡ false
    → (is_current s t.status ≡ false) ⊎ (is_old s.sequence t.max_sequence ≡ false)
    → on_message (some (status_dict s)) false now t ≡ (true, accept s now t)
unfolding on_message on_live
taken_live s now t h r c =
    let known : is_foreign (protocol_version_of (some (status_dict s))) ≡ false =
      unfold protocol_version_of status_dict in refl in
    rw (known, parse_status-dict s h) (ground (arith, r, c))

other_instance :
    (s : BridgeStatus) (h : BridgeHealth) (c : BridgeStatus) (t : BridgeStatusTracker)
    → s.instance_id ≡ h.instance_id
    → t.status ≡ some c
    → is_current s t.status ≡ false
    → str_eq c.instance_id h.instance_id ≡ false
other_instance s h c t i e d =
    let d' : str_eq s.instance_id c.instance_id ≡ false = rw (sym (ap (is_current s) e)) d in
    str_eq-false h.instance_id c.instance_id (rw (sym i) d')

newest_bound :
    (s : BridgeStatus) (h : BridgeHealth) (o : Option ℕ)
    → s.sequence ≡ some h.sequence
    → Each (λ n. n ≤ h.sequence) (newer s.sequence o)
newest_bound s h o n = rw n (omega arith)

accept-IsBehind :
    (s : BridgeStatus) (now : ℕ) (t : BridgeStatusTracker) (h : BridgeHealth)
    → s.instance_id ≡ h.instance_id
    → s.sequence ≡ some h.sequence
    → is_retired h.instance_id t.retired ≡ false
    → IsBehind (accept s now t) h
unfolding accept
accept-IsBehind s now t h i n r = record {
  current = elim (Option-cases t.status) [
    | inl silent ↦ rw silent r
    | inr (c, e) ↦
        let other : str_eq c.instance_id h.instance_id ≡ false
            → is_retired h.instance_id (retire t.status t.retired) ≡ false =
          λ d. retire_other h.instance_id t.status c t.retired e d r in
        elim (Bool-cases (is_current s t.status)) [
          | inl same ↦ rw same r
          | inr differs ↦ rw differs (other (other_instance s h c t i e differs))
        ]
  ];
  behind = inr (newest_bound s h (if is_current s t.status then t.max_sequence else none) n);
}

-- The next status is not one of those that the tracker has passed.
next_not_old :
    (m : Moment) (h : BridgeHealth) (t : BridgeStatusTracker)
    → IsBehind t h
    → let s = (build_status m h).0 in
      (is_current s t.status ≡ false) ⊎ (is_old s.sequence t.max_sequence ≡ false)
unfolding build_status
next_not_old m h t f = elim f.behind [
  | inl other ↦ inl (elim (Option-cases t.status) [
    | inl silent ↦ rw silent refl
    | inr (c, e) ↦ rw e (rw (sym (ap (hears h) e)) other)
  ])
  | inr bound ↦ inr (elim (Option-cases t.max_sequence) [
    | inl unknown ↦ rw unknown refl
    | inr (n, e) ↦ rw e (ground (arith, subst (λ o. Each (λ n. n ≤ h.sequence) o) e bound))
  ])
]

-- A heartbeat is heard: a tracker that has heard only earlier statuses of this bridge process, or
-- another instance, takes the next one that the bridge publishes as live, and is then again only
-- behind what the bridge sends next.
pub heartbeat_heard :
    (m : Moment) (h : BridgeHealth) (t : BridgeStatusTracker) (now : ℕ)
    → IsEnumerated h
    → IsBounded m h
    → IsBehind t h
    → let (s, h') = build_status m h in
      let (taken, t') = on_message (some (status_dict s)) false now t in
      (taken ≡ true) × (t'.status ≡ some s) × (t'.received_at ≡ some now) × IsBehind t' h'
unfolding build_status
heartbeat_heard m h t now e b f =
    let s = (build_status m h).0 in
    let h' = (build_status m h).1 in
    let same : s.instance_id ≡ h.instance_id = unfold build_status in refl in
    let not_old : (is_current s t.status ≡ false) ⊎ (is_old s.sequence t.max_sequence ≡ false) =
      next_not_old m h t f in
    let current : is_retired s.instance_id t.retired ≡ false = rw same f.current in
    let taken = taken_live s now t (build_status-IsStatus m h e b) current not_old in
    rw taken (
      refl,
      unfold accept in refl,
      unfold accept in refl,
      accept-IsBehind s now t h' refl refl f.current,
    )
