-- ===== src/Json.antt =====
-- The values that Python's `json` reads and writes, and the tests that the program makes on them.
-- The texts themselves, `json.loads` and `json.dumps`, are the library's and stay outside: a payload
-- enters as the value that it loads to, or as nothing where `json.loads` raises.
use Prim.Native.String.{String}
use text.Mathlib.Text.{◌==◌ as str_eq}
use casambi_mqtt.Prelude.{
  ℕ, ◌*◌, Bool, true, false, ◌&&◌, Option, none, some, List, [], ◌∷◌, ◌==◌, if◌then◌else◌, all, any,
  length, ◌≡◌, refl,
}
use casambi_mqtt.Prelude.Int.{ℤ, pos}
use casambi_mqtt.Prelude.Maybe.{◌>>=◌, none-some}

-- A Python float is counted in thousandths: the times that the program stores are in seconds, and
-- finer fractions, infinities and NaN are left out. The fields of an object have distinct names, as
-- a dictionary's keys have.
mutual
  pub data Value : Type 0 where
    null : Value
    bool : Bool → Value
    int : ℤ → Value
    float : ℤ → Value
    str : String → Value
    arr : Items → Value
    obj : Fields → Value

  pub data Fields : Type 0 where
    end : Fields
    field : String → Value → Fields → Fields

  pub data Items : Type 0 where
    no_item : Items
    item : Value → Items → Items

-- `d.get(key)`, with `none` for a missing key
abbrev pub get : String → Fields → Option Value
get key end = none
get key (field name v rest) = if str_eq name key then some v else get key rest

-- `d.get(key, default)`
abbrev pub get_or : String → Value → Fields → Value
get_or key default end = default
get_or key default (field name v rest) = if str_eq name key then v else get_or key default rest

abbrev pub names : Fields → List String
names end = []
names (field name v rest) = name ∷ names rest

-- `set(d) == {…}`, where the names on the right are distinct
abbrev pub has_keys : List String → Fields → Bool
has_keys keys d = length (names d) == length keys && all (λ n. any (λ k. str_eq n k) keys) (names d)

-- isinstance(v, dict), and the like
abbrev pub as_object : Value → Option Fields
as_object (obj d) = some d
as_object _ = none

abbrev pub as_items : Value → Option Items
as_items (arr xs) = some xs
as_items _ = none

abbrev pub as_text : Value → Option String
as_text (str s) = some s
as_text _ = none

abbrev pub as_bool : Value → Option Bool
as_bool (bool b) = some b
as_bool _ = none

-- An `int` that is no `bool`, at least 0.
abbrev pub as_count : Value → Option ℕ
as_count (int (pos n)) = some n
as_count _ = none

-- An `int` or a `float` that is no `bool`, at least 0, in thousandths.
abbrev pub as_time : Value → Option ℕ
as_time (int (pos n)) = some (n * 1000)
as_time (float (pos n)) = some n
as_time _ = none

-- Python's `v == n`: `True == 1` and `1.0 == 1`.
abbrev pub equals_int : Value → ℕ → Bool
equals_int (bool b) n = n == (if b then 1 else 0)
equals_int (int (pos m)) n = m == n
equals_int (float (pos m)) n = m == n * 1000
equals_int _ n = false

-- A text that passes a test.
abbrev pub as_matching : (String → Bool) → Value → Option String
as_matching p v = do s ← as_text v; if p s then some s else none

-- Go on with what a test has passed.
abbrev pub require {ℓ} : {A : Type ℓ} → Bool → Option A → Option A
require true next = next
require false next = none

pub require-some {ℓ} :
    {A : Type ℓ} (t : Bool) (o : Option A) (a : A)
    → require t o ≡ some a
    → (t ≡ true) × (o ≡ some a)
require-some true o a h = (refl, h)
require-some false o a h = elim (none-some h) [ ]
