-- ===== src/Prelude/Cut.antt =====
-- Texts put together and cut: prefixes, separators, and the numerals that `str(n)` writes.
use Prim.Native.Nat.{ℕ, zero, suc, ◌+◌, ◌*◌, ◌/◌, ◌%◌, ◌-◌, ◌≤◌, ◌<◌}
use Prim.Native.Char.{Char, code}
use Prim.Native.String.{String}
use mathlib.Core.Logic.{◌≢◌, inl, inr}
use mathlib.Core.Path.{◌≡◌, refl, sym, ap, ◌∙◌, subst}
use mathlib.Core.Bool.{Bool, true, false, not, ◌&&◌}
use mathlib.Core.Option.{Option, none, some}
use native.Mathlib.Omega.{arith}
use text.Mathlib.TextEquality.{Char-path}
use casambi_mqtt.Prelude.Tests.{ltb, ◌==◌, ==_iff, if◌then◌else◌, Bool-cases}
use casambi_mqtt.Prelude.Text.{all_chars, between, is_digit}

-- `s + t`
infixr 65 ◌+++◌
abbrev pub ◌+++◌ : String → String → String
String.[] +++ t = t
(String.◌∷◌ c s) +++ t = String.◌∷◌ c (s +++ t)

-- `t[len(p):]` if `t.startswith(p)`
abbrev pub strip_prefix : String → String → Option String
strip_prefix String.[] t = some t
strip_prefix (String.◌∷◌ c p) String.[] = none
strip_prefix (String.◌∷◌ c p) (String.◌∷◌ d t) = if code c == code d then strip_prefix p t else none

abbrev pub char_from : ℕ → String → Char
char_from k String.[] = "0"
char_from zero (String.◌∷◌ c s) = c
char_from (suc k) (String.◌∷◌ c s) = char_from k s

abbrev pub digit_char : ℕ → Char
digit_char k = char_from k "0123456789"

-- `str.lower()` and `str.upper()`, of letters from A to Z
abbrev pub lower_char : Char → Char
lower_char c =
    if between b'A' b'Z' (code c) then char_from (code c - b'A') "abcdefghijklmnopqrstuvwxyz" else c

abbrev pub upper_char : Char → Char
upper_char c =
    if between b'a' b'z' (code c) then char_from (code c - b'a') "ABCDEFGHIJKLMNOPQRSTUVWXYZ" else c

abbrev pub lower : String → String
lower String.[] = ""
lower (String.◌∷◌ c s) = String.◌∷◌ (lower_char c) (lower s)

abbrev pub upper : String → String
upper String.[] = ""
upper (String.◌∷◌ c s) = String.◌∷◌ (upper_char c) (upper s)

-- The digits of a number in front of a text, on fuel: each digit takes at least one off the number.
abbrev pub digits : ℕ → ℕ → String → String
digits zero n out = out
digits (suc fuel) n out =
    let longer = digits fuel (n / 10) (String.◌∷◌ (digit_char (n % 10)) out) in
    if ltb n 10 then String.◌∷◌ (digit_char (n % 10)) out else longer

-- `str(n)`
abbrev pub decimal : ℕ → String
decimal n = digits (suc n) n ""

-- What a text of digits stands for, behind the number `n`.
abbrev pub value_of : String → ℕ → ℕ
value_of String.[] n = n
value_of (String.◌∷◌ c s) n = value_of s (n * 10 + (code c - 48))

digit_code : (k : ℕ) → k < 10 → code (digit_char k) ≡ 48 + k
digit_code zero h = refl
digit_code (suc zero) h = refl
digit_code (suc (suc zero)) h = refl
digit_code (suc (suc (suc zero))) h = refl
digit_code (suc (suc (suc (suc zero)))) h = refl
digit_code (suc (suc (suc (suc (suc zero))))) h = refl
digit_code (suc (suc (suc (suc (suc (suc zero)))))) h = refl
digit_code (suc (suc (suc (suc (suc (suc (suc zero))))))) h = refl
digit_code (suc (suc (suc (suc (suc (suc (suc (suc zero)))))))) h = refl
digit_code (suc (suc (suc (suc (suc (suc (suc (suc (suc zero))))))))) h = refl
digit_code (suc (suc (suc (suc (suc (suc (suc (suc (suc (suc k)))))))))) h = absurd (omega arith)

value_of-digits :
    (fuel n : ℕ) (out : String) → n < fuel → value_of (digits fuel n out) 0 ≡ value_of out n
value_of-digits zero n out h = absurd (omega arith)
value_of-digits (suc fuel) n out h =
    let d = digit_code (n % 10) (omega arith) in
    elim (Bool-cases (ltb n 10)) [
      | inl e ↦ rw e (ap (value_of out) (ground (arith, d)))
      | inr e ↦
          let big : 10 ≤ n = ground arith in
          rw e
            (value_of-digits fuel (n / 10) _ (omega arith) ∙ ap (value_of out) (omega (arith, d)))
    ]

-- A number is read back from its numeral.
pub value_of-decimal : (n : ℕ) → value_of (decimal n) 0 ≡ n
value_of-decimal n = value_of-digits (suc n) n "" (omega arith)

digit_is_digit : (k : ℕ) → k < 10 → is_digit (code (digit_char k)) ≡ true
digit_is_digit k h = rw (digit_code k h) (ground arith)

digits-digit :
    (fuel n : ℕ) (out : String)
    → all_chars is_digit out ≡ true
    → all_chars is_digit (digits fuel n out) ≡ true
digits-digit zero n out h = h
digits-digit (suc fuel) n out h =
    let next : (is_digit (code (digit_char (n % 10))) && all_chars is_digit out) ≡ true =
      rw (digit_is_digit (n % 10) (omega arith), h) refl in
    elim (Bool-cases (ltb n 10)) [
      | inl e ↦ rw e next
      | inr e ↦ rw e (digits-digit fuel (n / 10) _ next)
    ]

pub decimal-digit : (n : ℕ) → all_chars is_digit (decimal n) ≡ true
decimal-digit n = digits-digit (suc n) n "" refl

pub decimal_inj : (m n : ℕ) → decimal m ≡ decimal n → m ≡ n
decimal_inj m n h = sym (value_of-decimal m) ∙ ap (λ s. value_of s 0) h ∙ value_of-decimal n

pub and_left : (a b : Bool) → (a && b) ≡ true → a ≡ true
and_left true b h = refl
and_left false b h = cc

pub and_right : (a b : Bool) → (a && b) ≡ true → b ≡ true
and_right true b h = h
and_right false b h = cc

-- No character of the text is the separator.
abbrev pub is_free : ℕ → String → Bool
is_free sep s = all_chars (λ c. not (c == sep)) s

is_free-head : (sep d : Char) (s : String) → is_free (code sep) (String.◌∷◌ d s) ≡ true → sep ≢ d
is_free-head sep d s f = λ e.
    (let same : (code d == code sep) ≡ true = (==_iff (code d) (code sep)).1 (ap code (sym e)) in
      let never : false ≡ true = subst (λ b. (not b && is_free (code sep) s) ≡ true) same f in cc)

is_free-tail :
    (sep d : Char) (s : String)
    → is_free (code sep) (String.◌∷◌ d s) ≡ true
    → is_free (code sep) s ≡ true
is_free-tail sep d s f = and_right (not (code d == code sep)) (is_free (code sep) s) f

-- Two texts that are cut at the first separator agree on both sides of it.
pub cut_inj :
    (sep : Char) (s s' t t' : String)
    → is_free (code sep) s ≡ true
    → is_free (code sep) s' ≡ true
    → s +++ String.◌∷◌ sep t ≡ s' +++ String.◌∷◌ sep t'
    → (s ≡ s') × (t ≡ t')
cut_inj sep String.[] String.[] t t' f f' h = (refl, cc)
cut_inj sep String.[] (String.◌∷◌ d s') t t' f f' h =
    let same : sep ≡ d = cc in elim (is_free-head sep d s' f' same) [ ]
cut_inj sep (String.◌∷◌ c s) String.[] t t' f f' h =
    let same : sep ≡ c = cc in elim (is_free-head sep c s f same) [ ]
cut_inj sep (String.◌∷◌ c s) (String.◌∷◌ d s') t t' f f' h =
    let same : c ≡ d = cc in
    let (front, back) =
      cut_inj sep s s' t t' (is_free-tail sep c s f) (is_free-tail sep d s' f') cc in
    (cc, back)

pub append_cancel : (p s t : String) → p +++ s ≡ p +++ t → s ≡ t
append_cancel String.[] s t h = h
append_cancel (String.◌∷◌ c p) s t h = append_cancel p s t cc

pub strip_prefix-append : (p s : String) → strip_prefix p (p +++ s) ≡ some s
strip_prefix-append String.[] s = refl
strip_prefix-append (String.◌∷◌ c p) s =
    let same : (code c == code c) ≡ true = (==_iff _ _).1 refl in rw same (strip_prefix-append p s)

pub strip_prefix-some : (p t s : String) → strip_prefix p t ≡ some s → t ≡ p +++ s
strip_prefix-some String.[] t s h = cc
strip_prefix-some (String.◌∷◌ c p) String.[] s h = cc
strip_prefix-some (String.◌∷◌ c p) (String.◌∷◌ d t) s h = elim (Bool-cases (code c == code d)) [
  | inl e ↦
      let rest : strip_prefix p t ≡ some s =
        subst (λ b. (if b then strip_prefix p t else none) ≡ some s) e h in
      let same : c ≡ d = Char-path c d ((==_iff (code c) (code d)).0 e) in
      rw (sym same) (ap (λ u. String.◌∷◌ c u) (strip_prefix-some p t s rest))
  | inr e ↦
      let never : none ≡ some s =
        subst (λ b. (if b then strip_prefix p t else none) ≡ some s) e h in
      cc
]

digits_free :
    (sep : ℕ) (s : String)
    → is_digit sep ≡ false
    → all_chars is_digit s ≡ true
    → is_free sep s ≡ true
digits_free sep String.[] apart h = refl
digits_free sep (String.◌∷◌ c s) apart h =
    let rest = digits_free sep s apart (and_right (is_digit (code c)) (all_chars is_digit s) h) in
    elim (Bool-cases (code c == sep)) [
      | inl e ↦
          let same : is_digit (code c) ≡ false =
            subst (λ x. is_digit x ≡ false) (sym ((==_iff (code c) sep).0 e)) apart in
          let never : false ≡ true = subst (λ b. (b && all_chars is_digit s) ≡ true) same h in cc
      | inr e ↦ rw e rest
    ]

-- A numeral has no separator in it that is no digit.
pub decimal-free : (sep n : ℕ) → is_digit sep ≡ false → is_free sep (decimal n) ≡ true
decimal-free sep n apart = digits_free sep (decimal n) apart (decimal-digit n)

pub append_assoc : (s t u : String) → (s +++ t) +++ u ≡ s +++ (t +++ u)
append_assoc String.[] t u = refl
append_assoc (String.◌∷◌ c s) t u = ap (λ x. String.◌∷◌ c x) (append_assoc s t u)
