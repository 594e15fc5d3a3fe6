-- ===== src/Integration/Calls.antt =====
-- The integration's light commands and the bridge: what is asked of a light reaches its unit.
use text.Mathlib.Text.{◌==◌ as str_eq}
use text.Mathlib.TextPositions.{eq_refl}
use casambi_mqtt.Prelude.{ℕ, ◌≤◌, ◌≡◌, refl, true, false, none, some, [], ◌∷◌, keep, leb, arith}
use casambi_mqtt.Json.{obj}
use casambi_mqtt.Bridge.Commands.{
  NetworkUnit, Network, Command, set_level, turn_on, process_command, validate_command_keys,
  keys_of, light_target, command_unit, validate_brightness,
}
use casambi_mqtt.Integration.Entities.{command_json, OutCommand}
use casambi_mqtt.Integration.Lights.{Light, async_turn_on, async_turn_off}

-- What can be asked of a light.
pub data Call : Type 0 where
  on : Call
  on_at : ℕ → Call
  off : Call

abbrev pub command_of : Light → Call → OutCommand
command_of l on = async_turn_on none l
command_of l (on_at n) = async_turn_on (some n) l
command_of l off = async_turn_off l

-- What the bridge is to do with the unit.
abbrev pub wanted : NetworkUnit → Call → Command
wanted w on = turn_on w
wanted w (on_at n) = set_level w n
wanted w off = set_level w 0

abbrev pub IsBrightness : Call → Type 0
IsBrightness on = Unit
IsBrightness (on_at n) = n ≤ 255
IsBrightness off = Unit

-- The network has one unit with this UUID, which is not empty.
pub record IsOnly (n : Network) (w : NetworkUnit) : Type 0 where
  pub named : str_eq w.uuid "" ≡ false
  pub alone : keep (λ u. str_eq u.uuid w.uuid) n.units ≡ w ∷ []

module _ (n : Network) (w : NetworkUnit) (only_one : IsOnly n w) where
  set_level-reaches :
      (v : ℕ)
      → v ≤ 255
      → process_command n true (some (obj (command_json (OutCommand.set_level w.address v w.uuid))))
        ≡ some (set_level w v)
  unfolding process_command validate_command_keys keys_of light_target command_unit
      validate_brightness command_json
  set_level-reaches v low =
      let le : leb v 255 ≡ true = ground arith in
      rw (le, only_one.named, only_one.alone, eq_refl w.address) refl

  turn_on-reaches :
      process_command n true (some (obj (command_json (OutCommand.turn_on w.address w.uuid))))
      ≡ some (turn_on w)
  unfolding process_command validate_command_keys keys_of light_target command_unit command_json
  turn_on-reaches = rw (only_one.named, only_one.alone, eq_refl w.address) refl

  pub call-reaches :
      (l : Light) (call : Call)
      → l.bt_address ≡ w.address
      → l.unit_uuid ≡ w.uuid
      → IsBrightness call
      → process_command n true (some (obj (command_json (command_of l call))))
        ≡ some (wanted w call)
  unfolding async_turn_on async_turn_off
  call-reaches l on a u h = rw (a, u) turn_on-reaches
  call-reaches l (on_at v) a u h = rw (a, u) (set_level-reaches v h)
  call-reaches l off a u h = rw (a, u) (set_level-reaches 0 (omega arith))
