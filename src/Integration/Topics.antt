-- ===== src/Integration/Topics.antt =====
-- const.py and __init__.py: that topics tell networks apart, and signals switches, buttons and phases.
use Prim.Native.String.{String}
use casambi_mqtt.Prelude.{ℕ, ◌≡◌, refl, sym, ◌∙◌, true, not, some}
use text.Mathlib.Text.{◌==◌ as str_eq}
use casambi_mqtt.Prelude.Cut.{
  ◌+++◌, decimal, decimal_inj, decimal-free, strip_prefix, strip_prefix-some, append_cancel,
  cut_inj, is_free, append_assoc, and_left, and_right,
}
use casambi_mqtt.Integration.Names.{is_valid_text, signal_prefix, switch_event_signal, event_prefix}

-- A valid name is no empty text and has no `/`.
valid-free : (name : String) → is_valid_text name ≡ true → is_free b'/' name ≡ true
valid-free name v = and_left (is_free b'/' name) _ (and_right (not (str_eq name "")) _ v)

-- A topic below two networks' names is below one: the names are the same, and so is what follows.
below_inj :
    (name name' middle topic suffix suffix' : String)
    → is_free b'/' name ≡ true
    → is_free b'/' name' ≡ true
    → topic ≡ ("casambi/" +++ name +++ "/" +++ middle) +++ suffix
    → topic ≡ ("casambi/" +++ name' +++ "/" +++ middle) +++ suffix'
    → (name ≡ name') × (suffix ≡ suffix')
below_inj name name' middle topic suffix suffix' f f' h h' =
    let parts =
      sym (append_assoc name ("/" +++ middle) suffix)
      ∙ append_cancel "casambi/" _ _ (sym h ∙ h')
      ∙ append_assoc name' ("/" +++ middle) suffix' in
    let (same, rest) = cut_inj "/" name name' (middle +++ suffix) (middle +++ suffix') f f' parts in
    (same, append_cancel middle suffix suffix' rest)

-- A topic below the events of two networks with valid names is below those of one: the names are the
-- same, and what follows the prefix is the same.
pub event_prefix_inj :
    (name name' topic suffix suffix' : String)
    → is_valid_text name ≡ true
    → is_valid_text name' ≡ true
    → strip_prefix (event_prefix name) topic ≡ some suffix
    → strip_prefix (event_prefix name') topic ≡ some suffix'
    → (name ≡ name') × (suffix ≡ suffix')
unfolding event_prefix
event_prefix_inj name name' topic suffix suffix' v v' h h' =
    below_inj name name' "events/" topic suffix suffix' (valid-free name v) (valid-free name' v')
      (strip_prefix-some (event_prefix name) topic suffix h)
      (strip_prefix-some (event_prefix name') topic suffix' h')

-- Signals of one entry are equal only for the same unit, the same button and the same phase.
pub switch_event_signal_inj :
    (entry_id : String) (u u' b b' : ℕ) (e e' : String)
    → switch_event_signal entry_id u b e ≡ switch_event_signal entry_id u' b' e'
    → (u ≡ u') × (b ≡ b') × (e ≡ e')
unfolding switch_event_signal
switch_event_signal_inj entry_id u u' b b' e e' h =
    let cut = append_cancel (signal_prefix entry_id) _ _ h in
    let (units, rest) =
      cut_inj "_" (decimal u) (decimal u') (decimal b +++ "_" +++ e) (decimal b' +++ "_" +++ e')
        (decimal-free b'_' u refl) (decimal-free b'_' u' refl) cut in
    let (buttons, phases) =
      cut_inj "_" (decimal b) (decimal b') e e' (decimal-free b'_' b refl)
        (decimal-free b'_' b' refl) rest in
    (decimal_inj u u' units, decimal_inj b b' buttons, phases)
