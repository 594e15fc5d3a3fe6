-- ===== src/Health/Tests.antt =====
-- The health observation's theorems at concrete messages, probes and observers.
use Prim.Native.String.{String}
use casambi_mqtt.Prelude.{ℕ, ◌≤◌, ◌<◌, ◌≡◌, refl, true, false, Option, none, some, arith}
use casambi_mqtt.Json.{Value, end}
use casambi_mqtt.Supervisor.State.{ready}
use casambi_mqtt.Health.Protocol.{BridgeStatus, HealthReply, snapshot_reply, ok, status_dict}
use casambi_mqtt.Health.Wire.{parse_status, parse_reply, reply_dict, protocol_version_of}
use casambi_mqtt.Health.RoundTrip.{IsStatus, parse_status-dict}
use casambi_mqtt.Health.Replies.{IsReply, parse_reply-dict}
use casambi_mqtt.Health.Bridge.{
  HealthSettings, from_options, setting, BridgeStatusTracker, new_tracker, is_retired, is_current,
  on_message, on_live,
}
use casambi_mqtt.Health.Freshness.{accepted_advances, rejected_keeps, from_options-InRange}

abbrev instance_a : String
instance_a = "0123456789abcdef0123456789abcdef"

abbrev status : BridgeStatus
status = record {
  instance_id = instance_a;
  sequence = some 4;
  phase = ready;
  ble = "connected";
  mqtt = "connected";
  uptime_s = some 60;
  snapshot = record { generation = 1; units = 1; scenes = 0; failed = 0; age_s = none };
  error = "none";
  time = none;
}

status-IsStatus : IsStatus status
status-IsStatus = record {
  instance = refl;
  sequence = omega arith;
  sequenced = refl;
  ble = refl;
  mqtt = refl;
  uptime = omega arith;
  snapshot = record {
    generation = omega arith;
    units = omega arith;
    scenes = omega arith;
    failed = omega arith;
    age = tt;
  };
  error = refl;
  time = tt;
}

parse_status-dict_example : parse_status (some (status_dict status)) ≡ some status
parse_status-dict_example = parse_status-dict status status-IsStatus

abbrev pub reply : HealthReply
reply = record {
  type = snapshot_reply;
  request_id = "ha-1";
  instance_id = instance_a;
  result = ok;
  status = status;
  counters = some (record { units = 1; scenes = 0; failed = 0; generation = 1 });
}

reply-IsReply : IsReply reply
reply-IsReply = record {
  request = refl;
  instance = refl;
  instance_id = refl;
  status = status-IsStatus;
  counters = record {
    units = omega arith;
    scenes = omega arith;
    failed_units = omega arith;
    generation = omega arith;
  };
}

parse_reply-dict_example : parse_reply (some (reply_dict reply)) ≡ some reply
parse_reply-dict_example = parse_reply-dict reply reply-IsReply

abbrev pub defaults : HealthSettings
defaults = record {
  stale_seconds = 120;
  startup_grace_seconds = 90;
  probe_interval_seconds = 300;
  consumer_probe_interval_seconds = 900;
  probe_deadline_seconds = 20;
  recovery_cooldown_seconds = 600;
  stale_confirm_seconds = 90;
  recovery_verify_seconds = 180;
  recovery_enabled = true;
}

from_options-defaults : from_options end ≡ defaults
unfolding from_options setting
from_options-defaults = refl

from_options-InRange_example :
    let s = from_options end in
    (60 ≤ s.stale_seconds)
    × (s.stale_seconds ≤ 3600)
    × (30 ≤ s.startup_grace_seconds)
    × (300 ≤ s.probe_interval_seconds)
    × (300 ≤ s.consumer_probe_interval_seconds)
    × (5 ≤ s.probe_deadline_seconds)
    × (s.probe_deadline_seconds ≤ 120)
    × (600 ≤ s.recovery_cooldown_seconds)
    × (90 ≤ s.stale_confirm_seconds)
    × (60 ≤ s.recovery_verify_seconds)
    × (s.recovery_verify_seconds ≤ 900)
from_options-InRange_example = from_options-InRange end

-- A tracker that has taken the status with an earlier sequence.
abbrev heard : BridgeStatusTracker
heard = record (new_tracker defaults 0) {
  status = some (record status { sequence = some 3 });
  received_at = some 1000;
  max_sequence = some 3;
}

abbrev payload : Option Value
payload = some (status_dict status)

payload_taken : (on_message payload false 2000 heard).0 ≡ true
unfolding on_message on_live status_dict protocol_version_of
payload_taken = rw parse_status-dict_example refl

accepted_advances_example :
    let t' = (on_message payload false 2000 heard).1 in
    (s : BridgeStatus) × (parse_status payload ≡ some s)
    × (t'.status ≡ some s)
    × (t'.received_at ≡ some 2000)
    × ((m n : ℕ)
        → is_current s heard.status ≡ true
        → heard.max_sequence ≡ some m
        → s.sequence ≡ some n
        → (m < n) × (t'.max_sequence ≡ some n))
    × ((c : BridgeStatus)
        → heard.status ≡ some c
        → is_current s heard.status ≡ false
        → is_retired c.instance_id t'.retired ≡ true)
accepted_advances_example = accepted_advances payload false 2000 heard payload_taken

payload_retained : (on_message payload true 2000 heard).0 ≡ false
unfolding on_message on_live status_dict protocol_version_of
payload_retained = rw parse_status-dict_example refl

rejected_keeps_example :
    let t' = (on_message payload true 2000 heard).1 in
    (t'.status ≡ heard.status)
    × (t'.received_at ≡ heard.received_at)
    × (t'.max_sequence ≡ heard.max_sequence)
    × (t'.retired ≡ heard.retired)
rejected_keeps_example = rejected_keeps payload true 2000 heard payload_retained

pub reply_read : parse_reply (some (reply_dict reply)) ≡ some reply
reply_read = parse_reply-dict reply reply-IsReply
