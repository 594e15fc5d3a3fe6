-- ===== src/Integration/Stored.antt =====
-- custom_components/casambi_mqtt/__init__.py, _restore_switch_buttons: what is restored from the buttons
-- that stored_switch_buttons stores.
use Prim.Native.String.{String}
use casambi_mqtt.Prelude.{
  ℕ, ◌≤◌, ◌≡◌, refl, sym, ap, ◌∙◌, subst, inl, inr, Bool, true, false, Option, none, some, List, [],
  ◌∷◌, ◌==◌, ==_iff, leb, if◌then◌else◌, arith, Bool-cases,
}
use casambi_mqtt.Prelude.Int.{ℤ, pos}
use casambi_mqtt.Prelude.Maybe.{none-some}
use casambi_mqtt.Prelude.Cut.{decimal}
use casambi_mqtt.Prelude.Dict.{find, member, insert_all, member-insert_all}
use casambi_mqtt.Json.{arr, Fields}
use casambi_mqtt.Integration.Names.{switch_identifier}
use casambi_mqtt.Integration.Runtime.{
  SwitchUnit, RuntimeData, put_unit, number_items, store_buttons, stored_units, observed_buttons,
  Device,
}
use casambi_mqtt.Integration.Switches.{
  get_device, as_buttons, stored_unit, restore_unit, restore_units,
}
use casambi_mqtt.Integration.Handling.{same_unit, buttons_of, observed-put, observed-put_other}

abbrev pub Units : Type 0
Units = List (ℕ × SwitchUnit)

abbrev pub unit_in : ℕ → Units → Option SwitchUnit
unit_in u us = find same_unit u us

-- No unit is entered twice.
abbrev pub Distinct : Units → Type 0
Distinct [] = Unit
Distinct ((u, s) ∷ rest) = (unit_in u rest ≡ none) × Distinct rest

-- A unit from 0 to 255, whose buttons are from 0 to 255, and whose device is registered.
pub record IsKnown (entry_id : String) (ds : List Device) (u : ℕ) (s : SwitchUnit) : Type 0 where
  pub in_range : u ≤ 255
  pub buttons_in_range : (b : ℕ) → member b s.buttons ≡ true → b ≤ 255
  pub device : Device
  pub registered : get_device (switch_identifier entry_id u) ds ≡ some device

abbrev pub AllKnown : String → List Device → Units → Type 0
AllKnown entry_id ds us = (u : ℕ) (s : SwitchUnit) → unit_in u us ≡ some s → IsKnown entry_id ds u s

as_buttons-number_items :
    (bs : List ℕ)
    → ((b : ℕ) → member b bs ≡ true → b ≤ 255)
    → as_buttons (number_items bs) ≡ some bs
as_buttons-number_items [] h = refl
as_buttons-number_items (b ∷ bs) h =
    let low : leb b 255 ≡ true = (let le = h b (ground arith) in ground arith) in
    rw low (rw (as_buttons-number_items bs (λ c m. h c (ground arith))) refl)

not_there : (b : Bool) → (if b then true else false) ≡ true → b ≡ true
not_there true h = refl
not_there false h = h

-- `int()` reads what `str()` writes.
abbrev pub ReadsNumbers : (String → Option ℤ) → Type 0
ReadsNumbers int = (n : ℕ) → int (decimal n) ≡ some (pos n)

module _ (int : String → Option ℤ) (reads : ReadsNumbers int) (entry_id : String)
    (ds : List Device) where
  restore_unit-put :
      (u : ℕ) (bs : List ℕ) (d : Device) (r : RuntimeData)
      → u ≤ 255
      → ((b : ℕ) → member b bs ≡ true → b ≤ 255)
      → get_device (switch_identifier entry_id u) ds ≡ some d
      → restore_unit int entry_id ds (decimal u) (arr (number_items bs)) r
        ≡ put_unit u (record { device_id = d.device_id; buttons = bs }) r
  restore_unit-put u bs d r le h g =
      let low : leb u 255 ≡ true = ground arith in
      rw (restore_unit, stored_unit, reads u, low, as_buttons-number_items bs h, g) refl

  -- The buttons that were stored, with the device that is registered now.
  abbrev put_back : ℕ → List ℕ → Device → RuntimeData → RuntimeData
  put_back u [] d r = r
  put_back u (b ∷ bs) d r =
      put_unit u (record { device_id = d.device_id; buttons = insert_all (b ∷ bs) [] }) r

  restore_one :
      (u : ℕ) (bs : List ℕ) (others : Fields) (d : Device) (r : RuntimeData)
      → u ≤ 255
      → ((b : ℕ) → member b bs ≡ true → b ≤ 255)
      → get_device (switch_identifier entry_id u) ds ≡ some d
      → restore_units int entry_id ds (store_buttons u bs others) r
        ≡ restore_units int entry_id ds others (put_back u bs d r)
  restore_one u [] others d r le h g = refl
  restore_one u (b ∷ bs) others d r le h g = ap (restore_units int entry_id ds others) (
      restore_unit-put u (insert_all (b ∷ bs) []) d r le
        (λ c m. h c (not_there (member c (b ∷ bs)) (sym (member-insert_all c (b ∷ bs) []) ∙ m))) g)

  observed-put_back :
      (u : ℕ) (bs : List ℕ) (d : Device) (r : RuntimeData)
      → observed_buttons u r ≡ []
      → observed_buttons u (put_back u bs d r) ≡ insert_all bs []
  observed-put_back u [] d r h = h
  observed-put_back u (b ∷ bs) d r h = observed-put u _ r

  observed-put_back_other :
      (u v : ℕ) (bs : List ℕ) (d : Device) (r : RuntimeData)
      → (u == v) ≡ false
      → observed_buttons v (put_back u bs d r) ≡ observed_buttons v r
  observed-put_back_other u v [] d r h = refl
  observed-put_back_other u v (b ∷ bs) d r h = observed-put_other u v _ r h

  known_tail :
      (u : ℕ) (s : SwitchUnit) (us : Units)
      → Distinct ((u, s) ∷ us)
      → AllKnown entry_id ds ((u, s) ∷ us)
      → AllKnown entry_id ds us
  known_tail u s us (new, d) known v t found = elim (Bool-cases (u == v)) [
    | inl e ↦
        let same = (==_iff u v).0 e in
        let never : none ≡ some t = sym new ∙ subst (λ w. unit_in w us ≡ some t) (sym same) found in
        elim (none-some never) [ ]
    | inr e ↦ known v t (rw e found)
  ]

  restore_head :
      (u : ℕ) (s : SwitchUnit) (us : Units) (r : RuntimeData)
      → AllKnown entry_id ds ((u, s) ∷ us)
      → (d : Device) × (restore_units int entry_id ds (stored_units ((u, s) ∷ us)) r
          ≡ restore_units int entry_id ds (stored_units us) (put_back u s.buttons d r))
  restore_head u s us r known =
      let here : (u == u) ≡ true = ground arith in
      let k = known u s (rw here refl) in
      (
        k.device,
        restore_one u s.buttons (stored_units us) k.device r k.in_range k.buttons_in_range
            k.registered,
      )

  -- A unit that is not stored keeps what it has.
  restore_absent :
      (v : ℕ) (us : Units) (r : RuntimeData)
      → AllKnown entry_id ds us
      → Distinct us
      → unit_in v us ≡ none
      → observed_buttons v (restore_units int entry_id ds (stored_units us) r)
        ≡ observed_buttons v r
  restore_absent v [] r known dist absent = refl
  restore_absent v ((u, s) ∷ us) r known dist absent =
      let (d, e) = restore_head u s us r known in
      elim (Bool-cases (u == v)) [
        | inl same ↦
            let never : some s ≡ none =
              subst (λ b. (if b then some s else unit_in v us) ≡ none) same absent in
            cc
        | inr apart ↦
            let rest : unit_in v us ≡ none =
              subst (λ b. (if b then some s else unit_in v us) ≡ none) apart absent in
            ap (observed_buttons v) e
            ∙ restore_absent v us (put_back u s.buttons d r) (known_tail u s us dist known) dist.1
                rest
            ∙ observed-put_back_other u v s.buttons d r apart
      ]

  -- Every unit gets back the buttons that were stored, sorted.
  pub restore_present :
      (v : ℕ) (us : Units) (r : RuntimeData)
      → AllKnown entry_id ds us
      → Distinct us
      → observed_buttons v r ≡ []
      → observed_buttons v (restore_units int entry_id ds (stored_units us) r)
        ≡ insert_all (buttons_of (unit_in v us)) []
  restore_present v [] r known dist blank = blank
  restore_present v ((u, s) ∷ us) r known dist blank =
      let (d, e) = restore_head u s us r known in
      elim (Bool-cases (u == v)) [
        | inl same ↦
            let eq = (==_iff u v).0 same in
            let absent : unit_in v us ≡ none = subst (λ w. unit_in w us ≡ none) eq dist.0 in
            let put : observed_buttons v (put_back u s.buttons d r) ≡ insert_all s.buttons [] =
              subst (λ w. observed_buttons w (put_back u s.buttons d r) ≡ insert_all s.buttons [])
                eq
                (observed-put_back u s.buttons d r
                  (subst (λ w. observed_buttons w r ≡ []) (sym eq) blank)) in
            rw same (
              ap (observed_buttons v) e
              ∙ restore_absent v us (put_back u s.buttons d r) (known_tail u s us dist known) dist.1
                  absent
              ∙ put)
        | inr apart ↦ rw apart (
            ap (observed_buttons v) e
            ∙ restore_present v us (put_back u s.buttons d r) (known_tail u s us dist known) dist.1
                (observed-put_back_other u v s.buttons d r apart ∙ blank))
      ]
