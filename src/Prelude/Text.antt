-- ===== src/Prelude/Text.antt =====
-- Texts by their characters: slices from the start, and the character classes of the program's
-- regular expressions.
use Prim.Native.Nat.{ℕ, zero, suc, ◌≤◌}
use Prim.Native.Char.{code}
use Prim.Native.String.{String}
use mathlib.Core.Path.{◌≡◌, refl, ap}
use mathlib.Core.Bool.{Bool, true, ◌&&◌, ◌||◌}
use native.Mathlib.Omega.{arith}
use casambi_mqtt.Prelude.Tests.{leb, ◌==◌}

-- `len(s)`
abbrev pub str_length : String → ℕ
str_length String.[] = 0
str_length (String.◌∷◌ c s) = suc (str_length s)

-- `s[:n]`
abbrev pub clip : ℕ → String → String
clip zero s = ""
clip (suc n) String.[] = ""
clip (suc n) (String.◌∷◌ c s) = String.◌∷◌ c (clip n s)

-- Every character, by its code point, passes the test: `[…]*` under fullmatch.
abbrev pub all_chars : (ℕ → Bool) → String → Bool
all_chars p String.[] = true
all_chars p (String.◌∷◌ c s) = p (code c) && all_chars p s

abbrev pub between : ℕ → ℕ → ℕ → Bool
between lo hi c = leb lo c && leb c hi

abbrev pub is_digit : ℕ → Bool
is_digit = between b'0' b'9'

-- [0-9a-f]
abbrev pub is_hex : ℕ → Bool
is_hex c = is_digit c || between b'a' b'f' c

abbrev pub is_letter : ℕ → Bool
is_letter c = between b'A' b'Z' c || between b'a' b'z' c

-- [0-9a-f]{32}
abbrev pub is_hex_id : String → Bool
is_hex_id s = str_length s == 32 && all_chars is_hex s

pub clip_short : (n : ℕ) (s : String) → str_length s ≤ n → clip n s ≡ s
clip_short zero String.[] h = refl
clip_short zero (String.◌∷◌ c s) h = absurd (omega arith)
clip_short (suc n) String.[] h = refl
clip_short (suc n) (String.◌∷◌ c s) h = ap (λ t. String.◌∷◌ c t) (clip_short n s (omega arith))

pub length-clip : (n : ℕ) (s : String) → str_length (clip n s) ≤ n
length-clip zero s = omega arith
length-clip (suc n) String.[] = omega arith
length-clip (suc n) (String.◌∷◌ c s) = omega (arith, length-clip n s)
