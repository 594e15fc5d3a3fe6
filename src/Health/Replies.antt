-- ===== src/Health/Replies.antt =====
-- custom_components/casambi_mqtt/health_protocol.py: a reply that is written is read back.
use text.Mathlib.Text.{◌==◌ as str_eq}
use casambi_mqtt.Prelude.{◌≡◌, refl, true, Option, none, some}
use casambi_mqtt.Prelude.Text.{is_hex_id}
use casambi_mqtt.Health.Protocol.{
  ReplyType, status_reply, snapshot_reply, Result, ok, failed, rate_limited, busy, result_of,
  result_name, is_request_id, Counters, HealthReply,
}
use casambi_mqtt.Health.Wire.{reply_dict, parse_reply}
use casambi_mqtt.Health.RoundTrip.{IsCounter, IsStatus, counter_back, status_back}

pub record AreCounters (c : Counters) : Type 0 where
  pub units : IsCounter c.units
  pub scenes : IsCounter c.scenes
  pub failed_units : IsCounter c.failed
  pub generation : IsCounter c.generation

-- A snapshot reply has its counters, a status reply none.
abbrev pub FitsType : ReplyType → Option Counters → Type 0
FitsType status_reply c = c ≡ none
FitsType snapshot_reply none = ⊥
FitsType snapshot_reply (some c) = AreCounters c

pub record IsReply (r : HealthReply) : Type 0 where
  pub request : is_request_id r.request_id ≡ true
  pub instance : str_eq r.instance_id r.status.instance_id ≡ true
  pub instance_id : is_hex_id r.instance_id ≡ true
  pub status : IsStatus r.status
  pub counters : FitsType r.type r.counters

result_back : (r : Result) → result_of (result_name r) ≡ some r
result_back ok = refl
result_back failed = refl
result_back rate_limited = refl
result_back busy = refl

-- The reply with another type and counters.
abbrev retyped : HealthReply → ReplyType → Option Counters → HealthReply
retyped r t c = record r { type = t; counters = c }

retyped_back :
    (r : HealthReply) (t : ReplyType) (c : Option Counters)
    → IsReply (retyped r t c)
    → parse_reply (some (reply_dict (retyped r t c))) ≡ some (retyped r t c)
unfolding parse_reply reply_dict
retyped_back r status_reply none h =
    simp (status_back r.status h.status, h.request, h.instance_id, h.instance, result_back)
retyped_back r status_reply (some c) h = cc (h.counters)
retyped_back r snapshot_reply none h = absurd h.counters
retyped_back r snapshot_reply (some c) h =
    let f = h.counters in
    simp (
      counter_back c.units f.units,
      counter_back c.scenes f.scenes,
      counter_back c.failed f.failed_units,
      counter_back c.generation f.generation,
      status_back r.status h.status,
      h.request,
      h.instance_id,
      h.instance,
      result_back,
    )

-- A reply that is written is read back exactly, if its request ID is one that may be sent, its
-- instance is the one of its status, the status is of the v1 shape, and the counters of a snapshot
-- reply, which a status reply does not have, are within 2 ** 53.
pub parse_reply-dict : (r : HealthReply) → IsReply r → parse_reply (some (reply_dict r)) ≡ some r
parse_reply-dict r h = retyped_back r r.type r.counters h
