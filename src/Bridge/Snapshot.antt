-- ===== src/Bridge/Snapshot.antt =====
-- server.py: publish_snapshot, which awaits one publish after the other. `confirmed` tells of each, by
-- its number, whether the broker confirms it; a unit without a UUID has the empty one.
use Prim.Native.String.{String}
use text.Mathlib.Text.{◌==◌ as str_eq}
use casambi_mqtt.Prelude.{
  ℕ, zero, suc, ◌+◌, ◌<◌, ◌≡◌, refl, sym, subst, ap, inl, inr, ==_iff, ◌∙◌, Bool, true, false, not,
  ◌&&◌, ◌||◌, List, [], ◌∷◌, ◌++◌, map, keep, length, ◌==◌, if◌then◌else◌, arith, Bool-cases, none,
  Option-cases, by_test, some,
}
use casambi_mqtt.Health.Protocol.{Result, ok}
use casambi_mqtt.Supervisor.State.{Phase, ready, degraded}
use casambi_mqtt.Bridge.State.{
  Moment, BridgeHealth, SnapshotResult, is_ok, set_phase, enter_phase, persist, record_snapshot,
}
use casambi_mqtt.Bridge.Status.{publish_reply, build_status}
use casambi_mqtt.Bridge.Commands.{NetworkUnit, Network, end_snapshot_request}

abbrev pub has_address : NetworkUnit → Bool
has_address u = not (str_eq u.address "")

-- A unit without an address is published if it has a UUID that no other such unit has.
abbrev pub is_published : List NetworkUnit → NetworkUnit → Bool
is_published units u =
    has_address u
    || (not (str_eq u.uuid "")
        && length (keep (λ w. not (has_address w) && str_eq w.uuid u.uuid) units) == 1)

-- The messages of a snapshot: the empty one that clears the topic of units without address first.
pub data Message : Type 0 where
  tombstone : Message
  unit_state : NetworkUnit → Message
  scene_message : ℕ → Message

unfoldable pub snapshot_messages : Network → List Message
snapshot_messages n =
    tombstone ∷ (map unit_state (keep (is_published n.units) n.units) ++ map scene_message n.scenes)

-- Counts a message with its fate.
unfoldable pub count_message : Bool → Message → SnapshotResult → SnapshotResult
count_message false m r = record r { failed = suc r.failed }
count_message true tombstone r = r
count_message true (unit_state u) r = record r { units = suc r.units }
count_message true (scene_message s) r = record r { scenes = suc r.scenes }

unfoldable pub publish_messages : (ℕ → Bool) → ℕ → List Message → SnapshotResult → SnapshotResult
publish_messages confirmed i [] r = r
publish_messages confirmed i (m ∷ ms) r =
    publish_messages confirmed (suc i) ms (count_message (confirmed i) m r)

unfoldable pub publish_snapshot : (ℕ → Bool) → Network → SnapshotResult
publish_snapshot confirmed n =
    publish_messages confirmed 0 (snapshot_messages n)
      (record { units = 0; scenes = 0; failed = 0 })

-- The messages for units and for scenes.
abbrev unit_count : List Message → ℕ
unit_count [] = 0
unit_count (tombstone ∷ ms) = unit_count ms
unit_count (unit_state u ∷ ms) = suc (unit_count ms)
unit_count (scene_message s ∷ ms) = unit_count ms

abbrev scene_count : List Message → ℕ
scene_count [] = 0
scene_count (tombstone ∷ ms) = scene_count ms
scene_count (unit_state u ∷ ms) = scene_count ms
scene_count (scene_message s ∷ ms) = suc (scene_count ms)

-- A result that counts no failure: nothing failed, and every message was confirmed and counted.
record IsComplete (confirmed : ℕ → Bool) (i : ℕ) (ms : List Message) (r r' : SnapshotResult)
    : Type 0 where
  clean : r.failed ≡ 0
  units : r'.units ≡ r.units + unit_count ms
  scenes : r'.scenes ≡ r.scenes + scene_count ms
  all_confirmed : (j : ℕ) → j < length ms → confirmed (i + j) ≡ true

counted :
    (b : Bool) (m : Message) (ms : List Message) (r : SnapshotResult)
    → (count_message b m r).failed ≡ 0
    → (b ≡ true)
      × (r.failed ≡ 0)
      × ((count_message b m r).units + unit_count ms ≡ r.units + unit_count (m ∷ ms))
      × ((count_message b m r).scenes + scene_count ms ≡ r.scenes + scene_count (m ∷ ms))
unfolding count_message
counted false m ms r h = ground arith
counted true tombstone ms r h = (refl, h, refl, refl)
counted true (unit_state u) ms r h = (refl, h, omega arith, refl)
counted true (scene_message s) ms r h = (refl, h, refl, omega arith)

from_head :
    (confirmed : ℕ → Bool) (i k : ℕ)
    → confirmed i ≡ true
    → ((j : ℕ) → j < k → confirmed (suc i + j) ≡ true)
    → (j : ℕ) → j < suc k
    → confirmed (i + j) ≡ true
from_head confirmed i k now later zero h =
    let here : i ≡ i + 0 = omega arith in subst (λ n. confirmed n ≡ true) here now
from_head confirmed i k now later (suc j) h =
    let next : suc i + j ≡ i + suc j = omega arith in
    subst (λ n. confirmed n ≡ true) next (later j (omega arith))

complete :
    (confirmed : ℕ → Bool) (i : ℕ) (ms : List Message) (r : SnapshotResult)
    → (publish_messages confirmed i ms r).failed ≡ 0
    → IsComplete confirmed i ms r (publish_messages confirmed i ms r)
unfolding publish_messages
complete confirmed i [] r h = record {
  clean = h;
  units = omega arith;
  scenes = omega arith;
  all_confirmed = λ j le. ground arith;
}
complete confirmed i (m ∷ ms) r h =
    let rest = complete confirmed (suc i) ms (count_message (confirmed i) m r) h in
    let (sent, clean, units, scenes) = counted (confirmed i) m ms r rest.clean in
    record {
      clean = clean;
      units = rest.units ∙ units;
      scenes = rest.scenes ∙ scenes;
      all_confirmed = from_head confirmed i (length ms) sent rest.all_confirmed;
    }

unit_count-map :
    (us : List NetworkUnit) (ss : List ℕ)
    → (unit_count (map unit_state us ++ map scene_message ss) ≡ length us)
      × (scene_count (map unit_state us ++ map scene_message ss) ≡ length ss)
unit_count-map [] [] = (refl, refl)
unit_count-map [] (s ∷ ss) = let (u, v) = unit_count-map [] ss in (u, ap suc v)
unit_count-map (u ∷ us) ss = let (a, b) = unit_count-map us ss in (ap suc a, b)

ok_clean : (r : SnapshotResult) → (if is_ok r then ok else Result.failed) ≡ ok → r.failed ≡ 0
ok_clean r h = elim (Bool-cases (r.failed == 0)) [
  | inl e ↦ (==_iff r.failed 0).0 e
  | inr e ↦
      let no : Result.failed ≡ ok =
        rw (sym (ap (λ (b : Bool). if b then ok else Result.failed) e)) h in
      cc
]

set_phase-snapshot :
    (phase : Phase) (error : String) (m : Moment) (h : BridgeHealth)
    → (set_phase phase error m h).snapshot ≡ h.snapshot
unfolding set_phase enter_phase persist
set_phase-snapshot phase error m h = elim (Option-cases h.record_file) [
  | inl e ↦ ground (arith, e)
  | inr (r, e) ↦ ground (arith, e)
]

record_snapshot-snapshot :
    (r : SnapshotResult) (m : Moment) (h : BridgeHealth)
    → (record_snapshot r m h).snapshot ≡ record {
      generation = h.snapshot.generation + 1;
      units = r.units;
      scenes = r.scenes;
      failed = r.failed;
      age_s = none;
    }
unfolding record_snapshot
record_snapshot-snapshot r m h =
    by_test
      (λ (x : BridgeHealth). x.snapshot ≡ record {
        generation = h.snapshot.generation + 1;
        units = r.units;
        scenes = r.scenes;
        failed = r.failed;
        age_s = none;
      })
      (is_ok r) _ _ (set_phase-snapshot ready "none" m _)
      (set_phase-snapshot degraded "snapshot_publish_failed" m _)

-- A snapshot request is answered with `ok` only if the broker has confirmed every message of the
-- snapshot; the reply's counters and the health's snapshot then both count all units that are published,
-- all scenes and no failure, under the next generation.
pub end_snapshot_request-ok :
    (m : Moment) (id : String) (h : BridgeHealth) (confirmed : ℕ → Bool) (n : Network)
    → (end_snapshot_request m id (publish_snapshot confirmed n) h).0.result ≡ ok
    → ((j : ℕ) → j < length (snapshot_messages n) → confirmed j ≡ true)
      × ((end_snapshot_request m id (publish_snapshot confirmed n) h).0.counters
          ≡ some (record {
            units = length (keep (is_published n.units) n.units);
            scenes = length n.scenes;
            failed = 0;
            generation = h.snapshot.generation + 1;
          }))
      × ((end_snapshot_request m id (publish_snapshot confirmed n) h).1.snapshot ≡ record {
        generation = h.snapshot.generation + 1;
        units = length (keep (is_published n.units) n.units);
        scenes = length n.scenes;
        failed = 0;
        age_s = none;
      })
unfolding end_snapshot_request publish_reply build_status publish_snapshot snapshot_messages
end_snapshot_request-ok m id h confirmed n e =
    let start : SnapshotResult = record { units = 0; scenes = 0; failed = 0 } in
    let r = publish_messages confirmed 0 (snapshot_messages n) start in
    let none_failed : r.failed ≡ 0 = ok_clean r e in
    let c = complete confirmed 0 (snapshot_messages n) start none_failed in
    let (us, ss) = unit_count-map (keep (is_published n.units) n.units) n.scenes in
    let units : r.units ≡ length (keep (is_published n.units) n.units) =
      c.units ∙ omega (arith, us) in
    let scenes : r.scenes ≡ length n.scenes = c.scenes ∙ omega (arith, ss) in
    (
      λ j l.
          (let zero_j : 0 + j ≡ j = omega arith in
            subst (λ k. confirmed k ≡ true) zero_j (c.all_confirmed j l)),
      rw (units, scenes, none_failed) refl,
      record_snapshot-snapshot r m h ∙ rw (units, scenes, none_failed) refl,
    )
