-- ===== src/Supervisor/Clock.antt =====
-- scripts/bridge_recovery.py: Clock, its stamps and is_recent. Times are in milliseconds, settings in
-- seconds as in the source; `now - t < w` is written `now < t + w`, the same test also where the clock
-- reads less than `t`.
use Prim.Native.String.{String}
use text.Mathlib.Text.{◌==◌ as str_eq}
use casambi_mqtt.Prelude.{
  ℕ, ◌+◌, ◌*◌, Bool, false, Option, none, some, List, keep, ltb, if◌then◌else◌,
}

-- What the clocks of `Clock` say at one instant. A pass has a reading for observe,
-- one for decide and others for what follows, each for all the tests of a call; otherwise time passes
-- with a command or a sleep.
pub record Clock : Type 0 where
  pub wall : ℕ
  pub monotonic : ℕ
  pub boottime : ℕ
  pub boot_id : Option String

abbrev pub seconds : ℕ → ℕ
seconds n = n * 1000

-- `{"boot": …, "t": …, "wall": …}`
pub record Stamp : Type 0 where
  pub boot : Option String
  pub t : ℕ
  pub wall : ℕ

-- `Clock.stamp`
abbrev pub stamp : Clock → Stamp
stamp c = record { boot = c.boot_id; t = c.boottime; wall = c.wall }

-- `boot is not None and stamp["boot"] == boot`
abbrev pub same_boot : Option String → Option String → Bool
same_boot none stamped = false
same_boot (some boot) none = false
same_boot (some boot) (some stamped) = str_eq stamped boot

unfoldable pub is_recent : Stamp → Clock → ℕ → Bool
is_recent s c window =
    if same_boot c.boot_id s.boot
    then ltb c.boottime (s.t + seconds window)
    else ltb c.wall (s.wall + seconds window)

-- `_recent`
abbrev pub recent : List Stamp → Clock → ℕ → List Stamp
recent stamps c window = keep (λ s. is_recent s c window) stamps
