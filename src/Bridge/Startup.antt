-- ===== src/Bridge/Startup.antt =====
-- server.py: the starting up. run_startup_stage with its bounded retries, and how a failure is
-- classified. An attempt is `run_bounded(operation(), deadline)` with how it ends; what asyncio, bleak
-- and the client library do there is a parameter, as are the cleanups, the clock and the jitter.
use Prim.Native.String.{String}
use text.Mathlib.Text.{◌==◌ as str_eq, starts_with}
use casambi_mqtt.Prelude.{
  ℕ, zero, suc, ◌+◌, ◌*◌, ◌/◌, Bool, true, false, ◌||◌, Option, none, some, List, [], ◌∷◌, any,
  take, if◌then◌else◌,
}
use casambi_mqtt.Supervisor.State.{Phase, discovering}
use casambi_mqtt.Bridge.State.{Moment, BridgeHealth, set_phase}

-- What is read of one exception of a chain: its D-Bus error, its first argument if that is a text, and
-- the names of its class and of the classes above it.
pub record Item : Type 0 where
  pub dbus_error : Option String
  pub first_arg : Option String
  pub classes : List String

-- An exception with its causes, as `_exception_chain` follows them.
pub record Error : Type 0 where
  pub head : Item
  pub causes : List Item

abbrev pub max_exception_chain : ℕ
max_exception_chain = 8

-- `_exception_chain`
unfoldable pub exception_chain : Error → List Item
exception_chain e = take max_exception_chain (e.head ∷ e.causes)

abbrev pub code_of : Item → Option String
code_of i =
    let second : Option String = elim i.first_arg [
      | none ↦ none
      | some s ↦ if starts_with s "org.bluez." then some s else none
    ] in
    elim i.dbus_error [ none ↦ second | some s ↦ if starts_with s "org." then some s else second ]

abbrev pub first_code : List Item → Option String
first_code [] = none
first_code (i ∷ rest) = elim (code_of i) [ none ↦ first_code rest | some s ↦ some s ]

unfoldable pub bluez_error_code : Error → Option String
bluez_error_code e = first_code (exception_chain e)

abbrev pub is_code : String → Option String → Bool
is_code code none = false
is_code code (some s) = str_eq s code

abbrev pub is_class : String → Item → Bool
is_class name i = any (λ c. str_eq c name) i.classes

-- Is a class of this name above one of the exceptions?
abbrev pub names_class : String → Error → Bool
names_class name e = any (is_class name) (exception_chain e)

-- The fixed categories of a failed startup.
pub data Category : Type 0 where
  discovery_in_progress discovery_failed connect_failed network_not_found configuration
        unclassified :
      Category

abbrev pub category_text : Category → String
category_text discovery_in_progress = "ble_discovery_in_progress"
category_text discovery_failed = "ble_discovery_failed"
category_text connect_failed = "ble_connect_failed"
category_text network_not_found = "network_not_found"
category_text configuration = "configuration"
category_text unclassified = "unknown"

-- BLE_STARTUP_FAILURES and _TRANSIENT_STARTUP_ERRORS
abbrev pub is_ble_failure : Category → Bool
is_ble_failure discovery_in_progress = true
is_ble_failure discovery_failed = true
is_ble_failure connect_failed = true
is_ble_failure _ = false

abbrev pub is_transient : Category → Bool
is_transient network_not_found = true
is_transient c = is_ble_failure c

abbrev pub is_discovering : Phase → Bool
is_discovering discovering = true
is_discovering _ = false

unfoldable pub classify_startup_error : Error → Phase → Category
classify_startup_error e stage =
    if is_code "org.bluez.Error.InProgress" (bluez_error_code e)
    then discovery_in_progress
    else if is_class "_NetworkNotFoundError" e.head || names_class "NetworkNotFoundError" e
    then network_not_found
    else if names_class "AuthenticationError" e
        || (names_class "UnsupportedProtocolVersion" e || names_class "BridgeConfigurationError" e)
    then configuration
    else if is_class "TimeoutError" e.head
        || (names_class "BluetoothError" e || names_class "BleakError" e)
    then (if is_discovering stage then discovery_failed else connect_failed)
    else unclassified

-- `TimeoutError()`
abbrev pub timeout_error : Error
timeout_error = record {
  head = record {
    dbus_error = none;
    first_arg = none;
    classes = "TimeoutError" ∷ "OSError" ∷ "Exception" ∷ "BaseException" ∷ "object" ∷ [];
  };
  causes = [];
}

abbrev pub startup_attempts : ℕ
startup_attempts = 6

-- STARTUP_BACKOFF_SECONDS with its cap, in seconds
abbrev pub backoff_base : ℕ → ℕ
backoff_base zero = 1
backoff_base (suc zero) = 2
backoff_base (suc (suc zero)) = 4
backoff_base (suc (suc (suc zero))) = 8
backoff_base (suc (suc (suc (suc zero)))) = 16
backoff_base _ = 30

-- The wait after an attempt, in milliseconds; `rng` is in thousandths, and the jitter a fifth of it.
unfoldable pub startup_backoff : ℕ → ℕ → ℕ
startup_backoff attempt rng = backoff_base attempt * 1000 + backoff_base attempt * rng / 5

-- How an attempt ends: `raised` includes the TimeoutError of run_bounded, `wedged` is its
-- `_BleWedgedError`, and `interrupted` a cancellation of the bridge.
pub data Attempt (A : Type 0) : Type 0 where
  returned : A → Attempt A
  raised : Error → Attempt A
  wedged interrupted : Attempt A

-- By the attempt: the operation, whether its cleanup wedges, the jitter, and the two moments at which
-- the phase is set.
pub record StartupEnv (A : Type 0) : Type 0 where
  pub operation : ℕ → Attempt A
  pub cleanup_wedges : ℕ → Bool
  pub rng : ℕ → ℕ
  pub before : ℕ → Moment
  pub after : ℕ → Moment

pub data Outcome (A : Type 0) : Type 0 where
  completed : A → Outcome A
  failed : Category → (is_wedged : Bool) → Outcome A
  cancelled : Outcome A

-- The health of the bridge, how many attempts were made, and how long was slept between them.
pub record Startup : Type 0 where
  pub health : BridgeHealth
  pub attempts : ℕ
  pub slept : ℕ

abbrev pub begin_attempt : Phase → Option Category → Moment → Startup → Startup
begin_attempt stage last m s =
    let error : String = elim last [ none ↦ "none" | some c ↦ category_text c ] in
    record s { health = set_phase stage error m s.health; attempts = suc s.attempts }

abbrev pub note_failure : Phase → Category → Moment → Startup → Startup
note_failure stage c m s = record s { health = set_phase stage (category_text c) m s.health }

abbrev pub sleep : ℕ → Startup → Startup
sleep d s = record s { slept = s.slept + d }

-- `last` is the category of the attempt before; `left` counts the attempts that are left.
unfoldable pub attempts_from :
    {A : Type 0} → ℕ → ℕ → Option Category → Phase → StartupEnv A → Startup → Outcome A × Startup
attempts_from zero attempt last stage env s =
    (failed (elim last [ none ↦ unclassified | some c ↦ c ]) false, s)
attempts_from (suc left) attempt last stage env s =
    let begun = begin_attempt stage last (env.before attempt) s in
    elim (env.operation attempt) [
      | returned a ↦ (completed a, begun)
      | wedged ↦ (failed (classify_startup_error timeout_error stage) true, begun)
      | interrupted ↦ (cancelled, begun)
      | raised e ↦
          let c = classify_startup_error e stage in
          let noted = note_failure stage c (env.after attempt) begun in
          elim (env.cleanup_wedges attempt) [
            | true ↦ (failed c true, begun)
            | false ↦ elim (is_transient c) [
              | false ↦ (failed c false, noted)
              | true ↦ attempts_from left (suc attempt) (some c) stage env (elim left [
                | zero ↦ noted
                | suc n ↦ sleep (startup_backoff attempt (env.rng attempt)) noted
              ])
            ]
          ]
    ]

-- `run_startup_stage(stage, …)`
unfoldable pub run_startup_stage :
    {A : Type 0} → Phase → StartupEnv A → BridgeHealth → Outcome A × Startup
run_startup_stage stage env h =
    attempts_from startup_attempts 0 none stage env (record { health = h; attempts = 0; slept = 0 })
