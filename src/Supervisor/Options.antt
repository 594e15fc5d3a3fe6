-- ===== src/Supervisor/Options.antt =====
-- scripts/bridge_recovery.py: Settings.from_env. The environment is a function; `int` is a parameter,
-- `none` where it raises a ValueError, and so are the paths' own values, which nothing here reads.
use Prim.Native.Char.{code}
use Prim.Native.String.{String}
use text.Mathlib.Text.{◌==◌ as str_eq, starts_with}
use casambi_mqtt.Prelude.{
  ℕ, zero, suc, ◌≤◌, ◌<◌, ◌≡◌, refl, Bool, true, false, not, ◌&&◌, ◌||◌, Option, none, some, leb,
  ◌==◌, if◌then◌else◌, arith,
}
use casambi_mqtt.Prelude.Int.{ℤ, pos}
use casambi_mqtt.Prelude.Text.{is_letter, is_digit}
use casambi_mqtt.Json.{require}
use casambi_mqtt.Supervisor.State.{Settings}
use casambi_mqtt.Supervisor.Machine.{bluetooth_unit}

-- [A-Za-z0-9]
abbrev is_alphanumeric : ℕ → Bool
is_alphanumeric c = is_letter c || is_digit c

-- [A-Za-z0-9@._-]
abbrev is_unit_char : ℕ → Bool
is_unit_char c = is_alphanumeric c || (c == b'@' || (c == b'.' || (c == b'_' || c == b'-')))

-- At most `n` of these characters, then `.service`.
abbrev is_unit_rest : ℕ → String → Bool
is_unit_rest zero s = str_eq s ".service"
is_unit_rest (suc n) String.[] = false
is_unit_rest (suc n) (String.◌∷◌ c s) =
    str_eq (String.◌∷◌ c s) ".service" || (is_unit_char (code c) && is_unit_rest n s)

-- UNIT_NAME under fullmatch
abbrev pub is_unit_name : String → Bool
is_unit_name String.[] = false
is_unit_name (String.◌∷◌ c s) = is_alphanumeric (code c) && is_unit_rest 200 s

-- The settings, if every number is in its range.
unfoldable pub of_numbers :
    String
    → (failures_to_reset failure_window max_resets_short short_window max_resets_long
        long_window : Option ℕ)
    → (stop_timeout verify_seconds healthy_reset_seconds : Option ℕ) → Option Settings
of_numbers unit (some a) (some b) (some c) (some d) (some e) (some f) (some g) (some h) (some i) =
    require (leb c e) (
      some (record {
        bridge_unit = unit;
        failures_to_reset = a;
        failure_window = b;
        max_resets_short = c;
        short_window = d;
        max_resets_long = e;
        long_window = f;
        stop_timeout = g;
        verify_seconds = h;
        healthy_reset_seconds = i;
        poll_interval = 2000;
      }))
of_numbers unit _ _ _ _ _ _ _ _ _ = none

require_inv :
    {A : Type 0} (b : Bool) (o : Option A) {a : A}
    → require b o ≡ some a
    → (b ≡ true) × (o ≡ some a)
require_inv true o e = (refl, e)
require_inv false o e = cc

of_numbers_inv :
    (unit : String) (a b c d e f g h i : Option ℕ) {s : Settings}
    → of_numbers unit a b c d e f g h i ≡ some s
    → (s.bridge_unit ≡ unit)
      × (a ≡ some s.failures_to_reset)
      × (c ≡ some s.max_resets_short)
      × (e ≡ some s.max_resets_long)
      × (g ≡ some s.stop_timeout)
      × (s.max_resets_short ≤ s.max_resets_long)
      × (s.poll_interval ≡ 2000)
unfolding of_numbers
of_numbers_inv unit a b c d e f g h i {s} p = ground arith

module _ (to_int : String → Option ℤ) (env : String → Option String) where
  -- `env.get(key, default)`
  abbrev pub env_or : String → String → String
  env_or key default = elim (env key) [ none ↦ default | some s ↦ s ]

  -- `Path(…).is_absolute()`, which is all that is asked of the two paths.
  abbrev pub has_absolute : String → String → Bool
  has_absolute key default = starts_with (env_or key default) "/"

  -- `int(env.get(key, str(default)))`
  abbrev pub int_or : String → ℕ → Option ℤ
  int_or key default = elim (env key) [ none ↦ some (pos default) | some raw ↦ to_int raw ]

  -- A number of its range, or nothing: a SettingsError.
  unfoldable pub number : String → (default minimum maximum : ℕ) → Option ℕ
  number key default minimum maximum = elim (int_or key default) [
    | some (pos n) ↦ if leb minimum n && leb n maximum then some n else none
    | _ ↦ none
  ]

  abbrev pub is_bridge_unit : String → Bool
  is_bridge_unit s =
      is_unit_name s && (not (str_eq s bluetooth_unit) && not (str_eq s "dbus.service"))

  abbrev pub unit_of_env : String
  unit_of_env = env_or "RECOVERY_BRIDGE_UNIT" "casambi-mqtt.service"

  abbrev pub texts_valid : Bool
  texts_valid =
      is_bridge_unit unit_of_env
      && (has_absolute "RECOVERY_HEALTH_RECORD" "/run/casambi-mqtt/health.json"
          && has_absolute "RECOVERY_STATE_DIR" "/var/lib/casambi-mqtt-recovery")

  -- SETTING_RANGES
  unfoldable pub numbers_of_env : Option Settings
  numbers_of_env =
      of_numbers unit_of_env (number "RECOVERY_FAILURES_TO_RESET" 2 2 10)
        (number "RECOVERY_FAILURE_WINDOW_SECONDS" 7200 1800 86400)
        (number "RECOVERY_MAX_RESETS_SHORT" 1 1 5)
        (number "RECOVERY_SHORT_WINDOW_SECONDS" 600 300 86400)
        (number "RECOVERY_MAX_RESETS_LONG" 2 1 10)
        (number "RECOVERY_LONG_WINDOW_SECONDS" 1800 600 604800)
        (number "RECOVERY_STOP_TIMEOUT_SECONDS" 60 5 600)
        (number "RECOVERY_VERIFY_SECONDS" 180 30 1800)
        (number "RECOVERY_HEALTHY_RESET_SECONDS" 3600 600 604800)

  -- `none` is a SettingsError.
  unfoldable pub from_env : Option Settings
  from_env = require texts_valid numbers_of_env

  number-InRange :
      (key : String) (default minimum maximum : ℕ) {n : ℕ}
      → number key default minimum maximum ≡ some n
      → (minimum ≤ n) × (n ≤ maximum)
  unfolding number
  number-InRange key default minimum maximum {n} e = ground arith

  -- Settings that are read at all are usable: the unit is a plain service name, neither Bluetooth's
  -- nor the message bus's; two failures or more make a reset; at least one reset is allowed in the
  -- short window, no more there than in the long one, and at most ten in the long one; the stop
  -- time-out is at least five seconds, and the poll interval is above zero.
  pub from_env-IsUsable :
      {s : Settings}
      → from_env ≡ some s
      → (is_bridge_unit s.bridge_unit ≡ true)
        × (2 ≤ s.failures_to_reset)
        × (1 ≤ s.max_resets_short)
        × (s.max_resets_short ≤ s.max_resets_long)
        × (s.max_resets_long ≤ 10)
        × (5 ≤ s.stop_timeout)
        × (0 < s.poll_interval)
  unfolding from_env numbers_of_env
  from_env-IsUsable {s} e =
      let (valid, e') = require_inv texts_valid numbers_of_env e in
      let (u, a, c, l, g, le, poll) =
        of_numbers_inv unit_of_env (number "RECOVERY_FAILURES_TO_RESET" 2 2 10)
          (number "RECOVERY_FAILURE_WINDOW_SECONDS" 7200 1800 86400)
          (number "RECOVERY_MAX_RESETS_SHORT" 1 1 5)
          (number "RECOVERY_SHORT_WINDOW_SECONDS" 600 300 86400)
          (number "RECOVERY_MAX_RESETS_LONG" 2 1 10)
          (number "RECOVERY_LONG_WINDOW_SECONDS" 1800 600 604800)
          (number "RECOVERY_STOP_TIMEOUT_SECONDS" 60 5 600)
          (number "RECOVERY_VERIFY_SECONDS" 180 30 1800)
          (number "RECOVERY_HEALTHY_RESET_SECONDS" 3600 600 604800) e' in
      (
        rw u (ground (arith, valid)),
        (number-InRange "RECOVERY_FAILURES_TO_RESET" 2 2 10 a).0,
        (number-InRange "RECOVERY_MAX_RESETS_SHORT" 1 1 5 c).0,
        le,
        (number-InRange "RECOVERY_MAX_RESETS_LONG" 2 1 10 l).1,
        (number-InRange "RECOVERY_STOP_TIMEOUT_SECONDS" 60 5 600 g).0,
        omega (arith, poll),
      )
