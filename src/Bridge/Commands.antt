-- ===== src/Bridge/Commands.antt =====
-- server.py: command_unit, the validations and process_command, which a command's payload enters as
-- what `json.loads` makes of it, or nothing if it raises. What a command leads to is a value; every
-- command that is refused, for whatever reason, is ignored alike, with a log line that is left out, as
-- are the counts of rate-limited requests. A unit without an address has the empty one.
use Prim.Native.String.{String}
use text.Mathlib.Text.{◌==◌ as str_eq}
use casambi_mqtt.Prelude.{
  ℕ, ◌+◌, Bool, true, false, not, ◌&&◌, ◌||◌, Option, none, some, List, [], ◌∷◌, keep, all, any,
  leb, ◌==◌, if◌then◌else◌,
}
use casambi_mqtt.Prelude.Maybe.{◌>>=◌}
use casambi_mqtt.Json.{Value, null, str, Fields, get, names, as_object, as_text, as_count, require}
use casambi_mqtt.Health.Protocol.{
  Counters, HealthReply, ok, failed, rate_limited, is_request_id, snapshot_reply, status_reply,
}
use casambi_mqtt.Bridge.State.{Moment, BridgeHealth, SnapshotResult, is_ok, record_snapshot}
use casambi_mqtt.Bridge.Status.{reply_allowed, snapshot_request_allowed, counters_of, publish_reply}

-- A unit of the network, as far as commands look at it.
pub record NetworkUnit : Type 0 where
  pub address : String
  pub uuid : String

pub record Network : Type 0 where
  pub units : List NetworkUnit
  pub scenes : List ℕ

-- What a command leads to.
pub data Command : Type 0 where
  set_level : NetworkUnit → ℕ → Command
  turn_on : NetworkUnit → Command
  switch_to_scene : ℕ → Command
  snapshot_request : Option String → Command
  status_request : String → Command

abbrev pub only : {A : Type 0} → List A → Option A
only [] = none
only (a ∷ []) = some a
only (a ∷ (b ∷ rest)) = none

unfoldable pub command_unit : Network → String → Option String → Option NetworkUnit
command_unit n address none =
    require (not (str_eq address "")) (only (keep (λ u. str_eq u.address address) n.units))
command_unit n address (some uuid) = do
  u ← only (keep (λ u. str_eq u.uuid uuid) n.units)
  require (str_eq u.address address) (some u)

-- A UUID that is not empty, or null: none if it is neither.
abbrev pub optional_uuid : Option Value → Option (Option String)
optional_uuid none = some none
optional_uuid (some null) = some none
optional_uuid (some (str s)) = require (not (str_eq s "")) (some (some s))
optional_uuid (some v) = none

-- `validate_light_command`, and the unit that the command names
unfoldable pub light_target : Network → Fields → Option NetworkUnit
light_target n d = do
  v ← get "address" d
  address ← as_text v
  uuid ← optional_uuid (get "unit_uuid" d)
  command_unit n address uuid

abbrev pub max_brightness : ℕ
max_brightness = 255

unfoldable pub validate_brightness : Value → Option ℕ
validate_brightness v = do n ← as_count v; require (leb n max_brightness) (some n)

abbrev pub among : List String → String → Bool
among xs k = any (λ x. str_eq x k) xs

abbrev pub has : Fields → String → Bool
has d k = among (names d) k

-- The keys that an action may have besides `action`, the ones that it must have first.
abbrev pub Keys : Type 0
Keys = List String × List String

unfoldable pub keys_of : String → Option Keys
keys_of action =
    if str_eq action "SET_LEVEL"
    then some ("address" ∷ "value" ∷ [], "unit_uuid" ∷ [])
    else if str_eq action "TURN_ON"
    then some ("address" ∷ [], "unit_uuid" ∷ [])
    else if str_eq action "PUBLISH_ENTITIES"
    then some ([], "request_id" ∷ [])
    else if str_eq action "SET_SCENE"
    then some ("scene_id" ∷ [], [])
    else if str_eq action "GET_STATUS"
    then some ("request_id" ∷ [], [])
    else none

abbrev pub valid_request_id : Option Value → Bool
valid_request_id none = true
valid_request_id (some v) = elim (as_text v) [ none ↦ false | some s ↦ is_request_id s ]

abbrev pub fits : Keys → Fields → Bool
fits (required, optional) d =
    all (λ k. str_eq k "action" || (among required k || among optional k)) (names d)
    && all (has d) required

unfoldable pub validate_command_keys : Fields → String → Bool
validate_command_keys d action = elim (keys_of action) [
  | none ↦ true
  | some keys ↦ fits keys d && valid_request_id (get "request_id" d)
]

abbrev pub find_scene : ℕ → List ℕ → Option ℕ
find_scene id [] = none
find_scene id (s ∷ rest) = if s == id then some s else find_scene id rest

abbrev pub request_id : Fields → Option String
request_id d = do v ← get "request_id" d; as_text v

abbrev pub by_action : Network → Fields → String → Option Command
by_action n d action =
    if str_eq action "SET_LEVEL"
    then (do
      given ← get "value" d
      let target = light_target n d
      value ← validate_brightness given
      u ← target
      some (set_level u value))
    else if str_eq action "TURN_ON"
    then (do u ← light_target n d; some (turn_on u))
    else if str_eq action "PUBLISH_ENTITIES"
    then some (snapshot_request (request_id d))
    else if str_eq action "GET_STATUS"
    then (do id ← request_id d; some (status_request id))
    else if str_eq action "SET_SCENE"
    then (do
      v ← get "scene_id" d
      id ← as_count v
      s ← find_scene id n.scenes
      some (switch_to_scene s))
    else none

-- `process_command`, up to what it does; `on_topic` tells whether the message has the expected topic.
unfoldable pub process_command : Network → Bool → Option Value → Option Command
process_command n on_topic payload = require on_topic (do
  v ← payload
  d ← as_object v
  a ← get "action" d
  action ← as_text a
  require (validate_command_keys d action) (by_action n d action))

-- `_handle_status_request`: the reply, if one may be sent now.
unfoldable pub handle_status_request :
    Moment → String → BridgeHealth → Option HealthReply × BridgeHealth
handle_status_request m id h =
    let (allowed, h') = reply_allowed status_reply m.now h in
    if allowed
    then (let (reply, h'') = publish_reply m id ok none h' in (some reply, h''))
    else (none, h')

-- `_handle_snapshot_request` up to the snapshot: whether it is published, or else the reply, if one may
-- be sent.
unfoldable pub begin_snapshot_request :
    Moment → String → BridgeHealth → (Bool × Option HealthReply) × BridgeHealth
begin_snapshot_request m id h =
    let (allowed, h') = snapshot_request_allowed m.now h in
    let (answers, h'') = reply_allowed snapshot_reply m.now h' in
    let nothing : Counters = record { units = 0; scenes = 0; failed = 0; generation = 0 } in
    if allowed
    then ((true, none), h')
    else if answers
    then (let (reply, h3) = publish_reply m id rate_limited (some nothing) h'' in
        ((false, some reply), h3))
    else ((false, none), h'')

-- What follows the snapshot: its result is recorded and told.
unfoldable pub end_snapshot_request :
    Moment → String → SnapshotResult → BridgeHealth → HealthReply × BridgeHealth
end_snapshot_request m id r h =
    let counters : Counters = counters_of r (h.snapshot.generation + 1) in
    publish_reply m id (if is_ok r then ok else failed) (some counters) (record_snapshot r m h)
