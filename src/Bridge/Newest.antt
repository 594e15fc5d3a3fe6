-- ===== src/Bridge/Newest.antt =====
-- server.py, UnitStatePublisher: what is submitted is never lost and never overtaken by an older state.
-- The abstract view of the publisher is one map from topics to states, which only a submission changes.
use Prim.Native.String.{String}
use text.Mathlib.Text.{◌==◌ as str_eq}
use text.Mathlib.TextEquality.{eq_iff}
use casambi_mqtt.Prelude.{
  ◌≡◌, inl, inr, refl, sym, ◌∙◌, true, false, Option, none, some, [], ◌∷◌, arith, if◌then◌else◌,
  Option-cases, Bool-cases,
}
use casambi_mqtt.Bridge.Units.{
  Topics, find, assign, is_in, Worker, waiting, publishing, pausing, UnitStatePublisher, submit,
  drain, confirmed, refused,
}

find-assign :
    {U : Type 0} (k j : String) (u : U) (d : Topics U)
    → find j (assign k u d) ≡ (if str_eq k j then some u else find j d)
unfolding find assign
find-assign k j u [] = refl
find-assign k j u ((i, v) ∷ d) =
    ground (arith, eq_iff k j, eq_iff i k, eq_iff i j, find-assign k j u d)

-- What the worker holds for a topic.
abbrev pub in_flight : {U : Type 0} → String → Worker U → Option U
in_flight k waiting = none
in_flight k (publishing topic u) = if str_eq topic k then some u else none
in_flight k pausing = none

abbrev pub or_else : {A : Type 0} → Option A → Option A → Option A
or_else none o = o
or_else (some a) o = some a

pub or_else-none : {A : Type 0} (o : Option A) → or_else o none ≡ o
or_else-none none = refl
or_else-none (some a) = refl

pub or_else_assoc :
    {A : Type 0} (a b c : Option A) → or_else (or_else a b) c ≡ or_else a (or_else b c)
or_else_assoc none b c = refl
or_else_assoc (some a) b c = refl

-- The newest state of a topic that the publisher knows: waiting, on its way, or confirmed.
abbrev pub newest : {U : Type 0} → UnitStatePublisher U → String → Option U
newest p k = or_else (find k p.pending) (or_else (in_flight k p.worker) (find k p.retained))

-- The keys are distinct.
abbrev pub IsDict : {U : Type 0} → Topics U → Type 0
IsDict [] = Unit
IsDict ((k, u) ∷ d) = (find k d ≡ none) × IsDict d

str_eq_ne : (a b : String) → str_eq a b ≡ false → str_eq b a ≡ false
str_eq_ne a b h = ground (arith, eq_iff a b, eq_iff b a)

pub assign-IsDict :
    {U : Type 0} (k : String) (u : U) (d : Topics U) → IsDict d → IsDict (assign k u d)
unfolding assign find
assign-IsDict k u [] h = (refl, tt)
assign-IsDict k u ((j, v) ∷ d) h = elim (Bool-cases (str_eq j k)) [
  | inl same ↦ rw same (let e : j ≡ k = (eq_iff j k).0 same in rw (sym e) h)
  | inr other ↦
      rw other (find-assign k j u d ∙ (rw (str_eq_ne j k other) (h.0)), assign-IsDict k u d h.1)
]

module _ {U : Type 0} where
  -- What is known without the worker's own unit.
  abbrev settled : UnitStatePublisher U → String → Option U
  settled p k = or_else (find k p.pending) (find k p.retained)

  drain_from :
      (d : Topics U) (p : UnitStatePublisher U) (k : String)
      → p.pending ≡ d
      → IsDict d
      → newest (drain p) k ≡ or_else (find k d) (find k p.retained)
  unfolding drain find
  drain_from [] p k e h = rw e
  drain_from ((j, u) ∷ rest) p k e h = rw e (elim (Bool-cases (str_eq j k)) [
    | inl same ↦
        let i : j ≡ k = (eq_iff j k).0 same in
        let gone : find k rest ≡ none = rw (sym i) (h.0) in rw (same, gone)
    | inr other ↦ rw other
  ])

  pub drain-newest :
      (p : UnitStatePublisher U) (k : String) → IsDict p.pending → newest (drain p) k ≡ settled p k
  drain-newest p k h = drain_from p.pending p k refl h

  pub confirmed-newest :
      (topic : String) (u : U) (p : UnitStatePublisher U) (k : String)
      → p.worker ≡ publishing topic u
      → IsDict p.pending
      → newest (confirmed topic u p) k ≡ newest p k
  unfolding confirmed
  confirmed-newest topic u p k w h =
      drain-newest _ k h
      ∙ rw w (
          rw (find-assign topic k u p.retained)
            (elim (Bool-cases (str_eq topic k)) [ inl e ↦ rw e | inr e ↦ rw e ]))

  -- What `refused` puts back: an older value never covers a newer one.
  find-requeue :
      (topic : String) (u : U) (d : Topics U) (k : String)
      → find k (if is_in topic d then d else assign topic u d)
        ≡ or_else (find k d) (if str_eq topic k then some u else none)
  find-requeue topic u d k = elim (Option-cases (find topic d)) [
    | inl gone ↦
        let absent : is_in topic d ≡ false = rw (gone, is_in) refl in
        rw absent (
          find-assign topic k u d ∙ elim (Bool-cases (str_eq topic k)) [
            | inl same ↦
                let i : topic ≡ k = (eq_iff topic k).0 same in
                let gone' : find k d ≡ none = rw (sym i) gone in rw (same, gone')
            | inr other ↦ rw other (sym (or_else-none (find k d)))
          ])
    | inr (v, newer) ↦
        let present : is_in topic d ≡ true = rw (newer, is_in) refl in
        rw present (elim (Bool-cases (str_eq topic k)) [
          | inl same ↦
              let i : topic ≡ k = (eq_iff topic k).0 same in
              let newer' : find k d ≡ some v = rw (sym i) newer in rw newer'
          | inr other ↦ rw other (sym (or_else-none (find k d)))
        ])
  ]

  pub refused-newest :
      (topic : String) (u : U) (p : UnitStatePublisher U) (k : String)
      → p.worker ≡ publishing topic u
      → newest (refused topic u p) k ≡ newest p k
  unfolding refused
  refused-newest topic u p k w = rw (find-requeue topic u p.pending k) (
      rw w (
        or_else_assoc (find k p.pending) (if str_eq topic k then some u else none)
          (find k p.retained)))

  pub submit-newest :
      (topic : String) (u : U) (p : UnitStatePublisher U) (k : String)
      → newest (submit topic u p) k ≡ (if str_eq topic k then some u else newest p k)
  unfolding submit
  submit-newest topic u p k =
      rw (find-assign topic k u p.pending)
        (elim (Bool-cases (str_eq topic k)) [ inl e ↦ rw e | inr e ↦ rw e ])
