-- ===== src/Recovery/Store.antt =====
-- recovery.py: what a restart of Home Assistant restores of a RecoveryManager.
use Prim.Native.String.{String}
use casambi_mqtt.Prelude.{
  ◌≤◌, ◌≡◌, refl, ap, Bool, true, Option, none, some, List, [], ◌∷◌, ℕ, if◌then◌else◌,
}
use casambi_mqtt.Prelude.Maybe.{Each}
use casambi_mqtt.Prelude.Text.{str_length, clip_short}
use casambi_mqtt.Json.{str, arr}
use casambi_mqtt.Recovery.Manager.{
  Hass, RecoveryManager, new_manager, time_items, read_times, saved_data, async_load,
  last_recovery_json, loaded, as_times, clipped, clipped_some,
}

-- The texts are short enough to be read back whole.
pub record IsShort (m : RecoveryManager) : Type 0 where
  pub reason : str_length m.reason ≤ 64
  pub last_result : str_length m.last_result ≤ 64
  pub last_recovery : Each (λ s. str_length s ≤ 40) m.last_recovery

read-time_items : (ts : List ℕ) → read_times (time_items ts) ≡ some ts
read-time_items [] = refl
read-time_items (t ∷ ts) = rw (read-time_items ts) refl

loaded-time_items : (ts : List ℕ) → loaded as_times (some (arr (time_items ts))) [] ≡ ts
loaded-time_items ts =
    ap (λ (o : Option (List ℕ)). elim o [ none ↦ [] | some a ↦ a ]) (read-time_items ts)

loaded-clipped : (s : String) → str_length s ≤ 64 → loaded (clipped 64) (some (str s)) "none" ≡ s
loaded-clipped s h = clip_short 64 s h

loaded-last_recovery :
    (o : Option String)
    → Each (λ s. str_length s ≤ 40) o
    → loaded (clipped_some 40) (some (last_recovery_json o)) none ≡ o
loaded-last_recovery none h = refl
loaded-last_recovery (some s) h = ap some (clip_short 40 s h)

-- A new manager with the data of a store.
abbrev pub with_data : Hass → Bool → List ℕ → String → String → Option String → RecoveryManager
with_data hass failed reloads reason last_result last_recovery = record (new_manager hass) {
  reloads = reloads;
  failed = failed;
  reason = reason;
  last_result = last_result;
  last_recovery = last_recovery;
  hass = record hass { issue = if failed then true else hass.issue };
}

restored :
    (hass : Hass) (failed : Bool) {ts ts' : List ℕ} {r r' l l' : String} {o o' : Option String}
    → ts ≡ ts'
    → r ≡ r'
    → l ≡ l'
    → o ≡ o'
    → with_data hass failed ts r l o ≡ with_data hass failed ts' r' l' o'
restored hass failed a b c d = rw (a, b, c, d) refl

-- What a manager has saved is what a new one loads: the charges of the budget, the latch with its
-- reason, the last result and its time; and with the latch its repair issue is there again.
pub async_load-saved_data :
    (m : RecoveryManager) (hass : Hass)
    → IsShort m
    → async_load (some (saved_data m)) (new_manager hass)
      ≡ with_data hass m.failed m.reloads m.reason m.last_result m.last_recovery
unfolding async_load saved_data
async_load-saved_data m hass short =
    restored hass m.failed (loaded-time_items m.reloads) (loaded-clipped m.reason short.reason)
      (loaded-clipped m.last_result short.last_result)
      (loaded-last_recovery m.last_recovery short.last_recovery)
