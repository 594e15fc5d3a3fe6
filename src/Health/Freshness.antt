-- ===== src/Health/Freshness.antt =====
-- custom_components/casambi_mqtt/health.py, BridgeStatusTracker: what a healthy bridge rests on, which
-- messages count, and what the tracker keeps in order.
use Prim.Native.String.{String}
use text.Mathlib.Text.{◌==◌ as str_eq}
use text.Mathlib.TextPositions.{eq_refl}
use casambi_mqtt.Prelude.{
  ℕ, zero, suc, ◌+◌, ◌≤◌, ◌<◌, ◌≡◌, ◌↔◌, ◌⊎◌, inl, inr, Bool, true, false, Option, some, List, [],
  ◌∷◌, ◌++◌, length, drop, any, arith, Option-cases, length-append,
}
use casambi_mqtt.Json.{Value, Fields}
use casambi_mqtt.Supervisor.Clock.{seconds}
use casambi_mqtt.Supervisor.State.{ready}
use casambi_mqtt.Health.Protocol.{BridgeStatus}
use casambi_mqtt.Health.Wire.{parse_status, protocol_version_of}
use casambi_mqtt.Health.Bridge.{
  setting, from_options, BridgeStatusTracker, healthy, is_retired, is_current, is_old, retire,
  accept, on_live, on_message, is_foreign, evaluate,
}

-- The bridge is healthy exactly if a live status says that it is ready and it was received no longer
-- ago than the setting allows, by the local clock.
pub evaluate_iff :
    (t : BridgeStatusTracker) (now : ℕ)
    → (evaluate t now ≡ healthy) ↔ (
        (s : BridgeStatus) × (received : ℕ) × (t.status ≡ some s)
        × (t.received_at ≡ some received)
        × (s.phase ≡ ready)
        × (now ≤ received + seconds t.settings.stale_seconds))
unfolding evaluate
evaluate_iff t now = elim (Option-cases t.status) [
  | inl silent ↦ (ground (arith, silent), λ (s, received, e, r, p, f). cc (e, silent))
  | inr (s, live) ↦ elim (Option-cases t.received_at) [
    | inl untimed ↦ (ground (arith, live, untimed), λ (s', received, e, r, p, f). cc (r, untimed))
    | inr (received, timed) ↦ (
      λ h. (s, received, live, timed, ground (arith, live, timed), ground (arith, live, timed)),
      λ (s', received', e, r, p, f). ground (arith, live, timed),
    )
  ]
]

-- Which messages are taken as live: a status that parses, of a known version, not retained, not of a
-- retired instance, and, from the current instance, not of a sequence that is already passed.
pub on_message_iff :
    (payload : Option Value) (retain : Bool) (now : ℕ) (t : BridgeStatusTracker)
    → ((on_message payload retain now t).0 ≡ true) ↔ (
        (s : BridgeStatus) × (parse_status payload ≡ some s)
        × (is_foreign (protocol_version_of payload) ≡ false)
        × (retain ≡ false)
        × (is_retired s.instance_id t.retired ≡ false)
        × ((is_current s t.status ≡ false) ⊎ (is_old s.sequence t.max_sequence ≡ false)))
unfolding on_message on_live
on_message_iff payload retain now t = elim (Option-cases (parse_status payload)) [
  | inl bad ↦ (ground (arith, bad), λ (s, e, v, r, q, o). cc (e, bad))
  | inr (s, good) ↦ (
    λ h. (
      s,
      good,
      ground (arith, good),
      ground (arith, good),
      ground (arith, good),
      ground (arith, good),
    ),
    λ (s', e, v, r, q, o). ground (arith, good),
  )
]

any_last :
    (p : String → Bool) (n : ℕ) (xs : List String) (x : String)
    → p x ≡ true
    → n ≤ length xs
    → any p (drop n (xs ++ (x ∷ []))) ≡ true
any_last p zero [] x h le = ground arith
any_last p (suc n) [] x h le = absurd (omega arith)
any_last p zero (y ∷ xs) x h le = ground (arith, any_last p 0 xs x h (omega arith))
any_last p (suc n) (y ∷ xs) x h le = any_last p n xs x h (omega arith)

retire-is_retired :
    (c : BridgeStatus) (retired : List String)
    → is_retired c.instance_id (retire (some c) retired) ≡ true
retire-is_retired c retired =
    any_last (λ r. str_eq r c.instance_id) _ retired c.instance_id (eq_refl c.instance_id)
      (omega (arith, length-append {0} retired (c.instance_id ∷ [])))

-- What an accepted message does: the status that its payload carries becomes the current one, received
-- now. From the same
-- instance its sequence is above the highest so far, so that neither a late heartbeat nor one that is
-- delivered again undoes an `offline`; from another instance, the instance before is retired.
pub accepted_advances :
    (payload : Option Value) (retain : Bool) (now : ℕ) (t : BridgeStatusTracker)
    → (on_message payload retain now t).0 ≡ true
    → let t' = (on_message payload retain now t).1 in
      (s : BridgeStatus) × (parse_status payload ≡ some s)
      × (t'.status ≡ some s)
      × (t'.received_at ≡ some now)
      × ((m n : ℕ)
          → is_current s t.status ≡ true
          → t.max_sequence ≡ some m
          → s.sequence ≡ some n
          → (m < n) × (t'.max_sequence ≡ some n))
      × ((c : BridgeStatus)
          → t.status ≡ some c
          → is_current s t.status ≡ false
          → is_retired c.instance_id t'.retired ≡ true)
unfolding on_message on_live accept
accepted_advances payload retain now t h = elim (Option-cases (parse_status payload)) [
  | inl bad ↦ ground (arith, bad)
  | inr (s, good) ↦ (
    s,
    good,
    ground (arith, good),
    ground (arith, good),
    λ m n same highest e. ground (arith, good),
    λ c current other. ground (arith, good, retire-is_retired c t.retired),
  )
]

-- What a message that is not accepted leaves: the current status, its time, the highest sequence and
-- the retired instances. So it can neither refresh the bridge nor take it down.
pub rejected_keeps :
    (payload : Option Value) (retain : Bool) (now : ℕ) (t : BridgeStatusTracker)
    → (on_message payload retain now t).0 ≡ false
    → let t' = (on_message payload retain now t).1 in
      (t'.status ≡ t.status)
      × (t'.received_at ≡ t.received_at)
      × (t'.max_sequence ≡ t.max_sequence)
      × (t'.retired ≡ t.retired)
unfolding on_message on_live
rejected_keeps payload retain now t h = ground arith

-- Whatever the stored options hold, each setting is in its range.
pub from_options-InRange :
    (options : Fields)
    → let s = from_options options in
      (60 ≤ s.stale_seconds)
      × (s.stale_seconds ≤ 3600)
      × (30 ≤ s.startup_grace_seconds)
      × (300 ≤ s.probe_interval_seconds)
      × (300 ≤ s.consumer_probe_interval_seconds)
      × (5 ≤ s.probe_deadline_seconds)
      × (s.probe_deadline_seconds ≤ 120)
      × (600 ≤ s.recovery_cooldown_seconds)
      × (90 ≤ s.stale_confirm_seconds)
      × (60 ≤ s.recovery_verify_seconds)
      × (s.recovery_verify_seconds ≤ 900)
unfolding from_options setting
from_options-InRange options = ground arith
