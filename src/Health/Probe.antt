-- ===== src/Health/Probe.antt =====
-- custom_components/casambi_mqtt/health.py: PendingProbe and ProbeTracker. A probe's sets are lists
-- without a repetition; the token of a new request is an argument.
use Prim.Native.String.{String}
use text.Mathlib.Text.{◌==◌ as str_eq}
use casambi_mqtt.Prelude.{
  ℕ, suc, ◌+◌, Bool, true, false, not, ◌&&◌, ◌||◌, Option, none, some, List, [], ◌∷◌, length, any,
  all, ltb, leb, ◌==◌, if◌then◌else◌,
}
use casambi_mqtt.Json.{Value}
use casambi_mqtt.Supervisor.Clock.{seconds}
use casambi_mqtt.Health.Protocol.{
  ReplyType, status_reply, snapshot_reply, ok, failed, rate_limited, busy, HealthReply,
}
use casambi_mqtt.Health.Wire.{parse_reply}
use casambi_mqtt.Health.Bridge.{HealthSettings}

pub data ProbeKind : Type 0 where
  status_probe consumer_probe : ProbeKind

pub data ProbeOutcome : Type 0 where
  passed no_reply bridge_failed bridge_busy delivery_incomplete consumer_partial consumer_stale
        no_units superseded :
      ProbeOutcome

-- What identifies a message: its receipt stamp, or `object()`, which is equal to no other.
pub data Identity : Type 0 where
  stamped : ℕ → Identity
  unique : ℕ → Identity

abbrev pub identity_eq : Identity → Identity → Bool
identity_eq (stamped m) (stamped n) = m == n
identity_eq (unique m) (unique n) = m == n
identity_eq _ _ = false

-- (topic, identity)
abbrev pub MessageKey : Type 0
MessageKey = String × Identity

abbrev pub key_same : MessageKey → MessageKey → Bool
key_same (t, i) (t', i') = str_eq t t' && identity_eq i i'

abbrev pub holds_key : MessageKey → List MessageKey → Bool
holds_key k ks = any (key_same k) ks

-- `set.add`
abbrev pub add_key : MessageKey → List MessageKey → List MessageKey
add_key k ks = if holds_key k ks then ks else k ∷ ks

-- The distinct topics of the messages.
abbrev pub topics : List MessageKey → List String
topics [] = []
topics ((t, i) ∷ ks) = if any (λ u. str_eq u t) (topics ks) then topics ks else t ∷ topics ks

pub record PendingProbe : Type 0 where
  pub kind : ProbeKind
  pub request_id : String
  pub sent_at : ℕ
  pub deadline_at : ℕ
  pub instance_id : Option String
  pub reply : Option HealthReply
  pub raw_messages : List MessageKey
  pub processed_messages : List MessageKey

-- `raw_messages <= processed_messages`, and `bool(raw_messages & processed_messages)`
abbrev pub all_handled : PendingProbe → Bool
all_handled p = all (λ k. holds_key k p.processed_messages) p.raw_messages

abbrev pub any_handled : PendingProbe → Bool
any_handled p = any (λ k. holds_key k p.processed_messages) p.raw_messages

abbrev pub raw_topics : PendingProbe → List String
raw_topics p = topics p.raw_messages

-- Has every message of the topic been handled?
abbrev pub topic_handled : PendingProbe → String → Bool
topic_handled p t =
    all (λ k. not (str_eq (k.0) t) || holds_key k p.processed_messages) p.raw_messages

abbrev pub count_handled : PendingProbe → List String → ℕ
count_handled p [] = 0
count_handled p (t ∷ ts) =
    let rest = count_handled p ts in if topic_handled p t then suc rest else rest

pub record ProbeResult : Type 0 where
  pub kind : ProbeKind
  pub outcome : ProbeOutcome
  pub finished_at : ℕ
  pub expected_units : Option ℕ
  pub raw_units : ℕ
  pub processed_units : ℕ

-- `fresh` counts the objects that stood in for a missing identity.
pub record ProbeTracker : Type 0 where
  pub settings : HealthSettings
  pub pending : Option PendingProbe
  pub rejected_replies : ℕ
  pub fresh : ℕ

abbrev pub new_probes : HealthSettings → ProbeTracker
new_probes settings = record {
  settings = settings;
  pending = none;
  rejected_replies = 0;
  fresh = 0;
}

abbrev pub message_key : String → Option ℕ → ProbeTracker → MessageKey
message_key topic none t = (topic, unique t.fresh)
message_key topic (some identity) t = (topic, stamped identity)

-- `reply.units`
abbrev pub reply_units : HealthReply → Option ℕ
reply_units r = elim r.counters [ none ↦ none | some c ↦ some c.units ]

-- `reply.units or 0`
abbrev pub units_or_zero : HealthReply → ℕ
units_or_zero r = elim (reply_units r) [ none ↦ 0 | some n ↦ n ]

abbrev pub expected_units : Option HealthReply → Option ℕ
expected_units none = none
expected_units (some r) = reply_units r

-- `_finish`, of the pending probe
unfoldable pub finish :
    PendingProbe → ProbeOutcome → ℕ → ProbeTracker → Option ProbeResult × ProbeTracker
finish p outcome now t = (
  some (record {
    kind = p.kind;
    outcome = outcome;
    finished_at = now;
    expected_units = expected_units p.reply;
    raw_units = length (raw_topics p);
    processed_units = count_handled p (raw_topics p);
  }),
  record t { pending = none },
)

abbrev pub probe_for : ProbeKind → String → Option String → ℕ → ProbeTracker → PendingProbe
probe_for kind token instance_id now t = record {
  kind = kind;
  request_id = token;
  sent_at = now;
  deadline_at = now + seconds t.settings.probe_deadline_seconds;
  instance_id = instance_id;
  reply = none;
  raw_messages = [];
  processed_messages = [];
}

unfoldable pub start :
    ProbeKind → String → ℕ → Option String → ProbeTracker → Option PendingProbe × ProbeTracker
start kind token now instance_id t = elim t.pending [
  | some p ↦ (none, t)
  | none ↦ let p = probe_for kind token instance_id now t in (some p, record t { pending = some p })
]

-- The consumer has delivered and handled what the bridge says it published.
abbrev pub has_succeeded : PendingProbe → HealthReply → Bool
has_succeeded p r = elim p.kind [
  | status_probe ↦ false
  | consumer_probe ↦
      not (units_or_zero r == 0) && (leb (units_or_zero r) (length (raw_topics p)) && all_handled p)
]

-- What the deadline makes of a probe that was answered.
abbrev pub expired : PendingProbe → HealthReply → ProbeOutcome
expired p r =
    if ltb (length (raw_topics p)) (units_or_zero r)
    then delivery_incomplete
    else if not (any_handled p)
    then consumer_stale
    else consumer_partial

unfoldable pub check_pending : PendingProbe → ℕ → ProbeTracker → Option ProbeResult × ProbeTracker
check_pending p now t = elim p.reply [
  | none ↦ if leb now p.deadline_at then (none, t) else finish p no_reply now t
  | some r ↦
      if leb now p.deadline_at
      then (if has_succeeded p r then finish p passed now t else (none, t))
      else finish p (expired p r) now t
]

unfoldable pub check : ℕ → ProbeTracker → Option ProbeResult × ProbeTracker
check now t = elim t.pending [ none ↦ (none, t) | some p ↦ check_pending p now t ]

abbrev pub fits_kind : ProbeKind → ReplyType → Bool
fits_kind status_probe status_reply = true
fits_kind consumer_probe snapshot_reply = true
fits_kind _ _ = false

-- `instance_id is None or reply.instance_id == instance_id`
abbrev pub from_instance : Option String → String → Bool
from_instance none s = true
from_instance (some i) s = str_eq s i

-- The tests on a reply to a probe that is waiting for one.
abbrev pub is_accepted : PendingProbe → HealthReply → ℕ → Option String → Bool
is_accepted p r now instance_id = elim p.reply [
  | some earlier ↦ false
  | none ↦
      str_eq r.request_id p.request_id
      && (leb now p.deadline_at
          && (from_instance instance_id r.instance_id && fits_kind p.kind r.type))
]

-- What an accepted reply makes of the probe that it is now part of.
unfoldable pub take_reply :
    PendingProbe → HealthReply → ℕ → ProbeTracker → Option ProbeResult × ProbeTracker
take_reply p r now t = elim r.result [
  | rate_limited ↦ finish p bridge_busy now t
  | busy ↦ finish p bridge_busy now t
  | failed ↦ finish p bridge_failed now t
  | ok ↦ elim p.kind [
    | status_probe ↦ finish p passed now t
    | consumer_probe ↦
        if units_or_zero r == 0
        then finish p no_units now t
        else check now (record t { pending = some p })
  ]
]

abbrev pub reject : ProbeTracker → Option ProbeResult × ProbeTracker
reject t = (none, record t { rejected_replies = suc t.rejected_replies })

unfoldable pub on_reply :
    Option Value → ℕ → Option String → ProbeTracker → Option ProbeResult × ProbeTracker
on_reply payload now instance_id t = elim (parse_reply payload) [
  | none ↦ reject t
  | some r ↦ elim t.pending [
    | none ↦ reject t
    | some p ↦
        if is_accepted p r now instance_id
        then take_reply (record p { reply = some r }) r now t
        else reject t
  ]
]

-- `_collecting`
abbrev pub collecting : PendingProbe → ℕ → Bool
collecting p now = elim p.kind [ status_probe ↦ false | consumer_probe ↦ leb now p.deadline_at ]
