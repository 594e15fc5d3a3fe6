-- ===== src/Prelude/Dict.antt =====
-- Python's dictionaries as lists of entries, looked up by a test of equality of their keys, and its sets
-- of numbers as the sorted lists that `sorted` makes of them.
use Prim.Native.Nat.{ℕ, ◌<◌, ◌≤◌}
use mathlib.Core.Path.{◌≡◌, refl, sym, ap, ◌∙◌}
use mathlib.Core.Logic.{◌↔◌, inl, inr}
use mathlib.Core.Bool.{Bool, true, false}
use mathlib.Core.Option.{Option, none, some}
use mathlib.Core.List.{List, [], ◌∷◌}
use native.Mathlib.Omega.{arith}
use casambi_mqtt.Prelude.Tests.{ltb, ◌==◌, if◌then◌else◌, Bool-cases}

module _ {ℓ κ} {K : Type ℓ} {V : Type κ} where
  -- `d.get(k)`
  abbrev pub find : (K → K → Bool) → K → List (K × V) → Option V
  find eq k [] = none
  find eq k ((j, v) ∷ d) = if eq j k then some v else find eq k d

  -- `d[k] = v`: an entry keeps its place, a new one goes to the end.
  abbrev pub put : (K → K → Bool) → K → V → List (K × V) → List (K × V)
  put eq k v [] = (k, v) ∷ []
  put eq k v ((j, w) ∷ d) = let rest = put eq k v d in if eq j k then (j, v) ∷ d else (j, w) ∷ rest

  -- `k in d`
  abbrev pub has_key : (K → K → Bool) → K → List (K × V) → Bool
  has_key eq k d = elim (find eq k d) [ none ↦ false | some v ↦ true ]

  module _ (eq : K → K → Bool) (law : (a b : K) → (eq a b ≡ true) ↔ (a ≡ b)) where
    pub find-put : (k : K) (v : V) (d : List (K × V)) → find eq k (put eq k v d) ≡ some v
    find-put k v [] = let same : eq k k ≡ true = (law k k).1 refl in rw same refl
    find-put k v ((j, w) ∷ d) = elim (Bool-cases (eq j k)) [
      | inl e ↦ rw (e, e) refl
      | inr e ↦ rw (e, e) (find-put k v d)
    ]

    pub find-put_other :
        (k i : K) (v : V) (d : List (K × V))
        → eq k i ≡ false
        → find eq i (put eq k v d) ≡ find eq i d
    find-put_other k i v [] h = rw h refl
    find-put_other k i v ((j, w) ∷ d) h = elim (Bool-cases (eq j k)) [
      | inl e ↦ let other : eq j i ≡ false = rw ((law j k).0 e) h in rw e (rw other refl)
      | inr e ↦ rw e (ap (λ o. if eq j i then some w else o) (find-put_other k i v d h))
    ]

-- `b in s`
abbrev pub member : ℕ → List ℕ → Bool
member b [] = false
member b (x ∷ xs) = if x == b then true else member b xs

-- A number goes to its place in a sorted list, unless it is there already.
abbrev pub insert : ℕ → List ℕ → List ℕ
insert b [] = b ∷ []
insert b (x ∷ xs) =
    let rest = insert b xs in if ltb b x then b ∷ (x ∷ xs) else if x == b then x ∷ xs else x ∷ rest

-- `sorted(s | xs)` for a sorted list `s`
abbrev pub insert_all : List ℕ → List ℕ → List ℕ
insert_all [] s = s
insert_all (x ∷ xs) s = insert x (insert_all xs s)

-- Every number of the list is above `a`.
abbrev pub Above : ℕ → List ℕ → Type 0
Above a [] = Unit
Above a (x ∷ xs) = a < x

abbrev pub IsSorted : List ℕ → Type 0
IsSorted [] = Unit
IsSorted (x ∷ xs) = Above x xs × IsSorted xs

Above-insert : (a b : ℕ) (s : List ℕ) → a < b → Above a s → Above a (insert b s)
Above-insert a b [] h k = h
Above-insert a b (x ∷ xs) h k = ground arith

pub insert-IsSorted : (b : ℕ) (s : List ℕ) → IsSorted s → IsSorted (insert b s)
insert-IsSorted b [] h = (tt, tt)
insert-IsSorted b (x ∷ xs) (a, h) = elim (Bool-cases (ltb b x)) [
  | inl e ↦ rw e (ground arith, (a, h))
  | inr e ↦ elim (Bool-cases (x == b)) [
    | inl f ↦ rw (e, f) (a, h)
    | inr f ↦ rw (e, f) (Above-insert x b xs (ground arith) a, insert-IsSorted b xs h)
  ]
]

pub insert_all-IsSorted : (xs s : List ℕ) → IsSorted s → IsSorted (insert_all xs s)
insert_all-IsSorted [] s h = h
insert_all-IsSorted (x ∷ xs) s h = insert-IsSorted x (insert_all xs s) (insert_all-IsSorted xs s h)

pub member-insert :
    (c b : ℕ) (s : List ℕ) → member c (insert b s) ≡ (if b == c then true else member c s)
member-insert c b [] = refl
member-insert c b (x ∷ xs) = ground (arith, member-insert c b xs)

pub member-insert_all :
    (c : ℕ) (xs s : List ℕ)
    → member c (insert_all xs s) ≡ (if member c xs then true else member c s)
member-insert_all c [] s = refl
member-insert_all c (x ∷ xs) s =
    ground (arith, member-insert c x (insert_all xs s), member-insert_all c xs s)

-- What is not above the head is not in a sorted list.
pub below_absent : (c a : ℕ) (s : List ℕ) → c ≤ a → Above a s → IsSorted s → member c s ≡ false
below_absent c a [] le h k = refl
below_absent c a (x ∷ xs) le h (k, k') =
    let rest = below_absent c x xs (omega arith) k k' in
    let apart : (x == c) ≡ false = ground arith in rw apart rest

module _ (x y : ℕ) (s t : List ℕ) where
  first_le :
      IsSorted (x ∷ s) → IsSorted (y ∷ t) → ((c : ℕ) → member c (x ∷ s) ≡ member c (y ∷ t)) → y ≤ x
  first_le (h, h') (k, k') same = elim (Bool-cases (ltb x y)) [
    | inl e ↦
        let apart : (y == x) ≡ false = ground arith in
        let absent = below_absent x y t (ground arith) k k' in
        let here : (x == x) ≡ true = ground arith in let at_x = same x in absurd (ground arith)
    | inr e ↦ ground arith
  ]

  same_tail :
      x ≡ y
      → IsSorted (x ∷ s)
      → IsSorted (y ∷ t)
      → ((c : ℕ) → member c (x ∷ s) ≡ member c (y ∷ t))
      → (c : ℕ) → member c s ≡ member c t
  same_tail e (h, h') (k, k') same c = elim (Bool-cases (x == c)) [
    | inl f ↦ below_absent c x s (ground arith) h h' ∙ sym (below_absent c y t (ground arith) k k')
    | inr f ↦ ground (arith, same c)
  ]

-- Sorted lists with the same entries are equal.
pub sorted_ext :
    (s t : List ℕ) → IsSorted s → IsSorted t → ((c : ℕ) → member c s ≡ member c t) → s ≡ t
sorted_ext [] [] h k same = refl
sorted_ext [] (y ∷ t) h k same =
    let here : (y == y) ≡ true = ground arith in absurd (ground (arith, same y))
sorted_ext (x ∷ s) [] h k same =
    let here : (x == x) ≡ true = ground arith in absurd (ground (arith, same x))
sorted_ext (x ∷ s) (y ∷ t) h k same =
    let low = first_le x y s t h k same in
    let high = first_le y x t s k h (λ c. sym (same c)) in
    let e : x ≡ y = omega arith in
    let rest = sorted_ext s t h.1 k.1 (same_tail x y s t e h k same) in rw (e, rest) refl
