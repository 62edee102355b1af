-- ===== src/Hdint/Override.antt =====
-- What an interrupt source override of the MADT does to the I/O APIC.
use titanium.Base.{ℕ, ◌+◌, ◌*◌, ◌/◌, ◌%◌, ◌^◌, ◌<◌, ◌≡◌, ◌≢◌, refl, sym, ap, ◌∙◌, subst}
use titanium.Base.{true, false, none, some, arith, inl, inr, ◌⊎◌}
use titanium.Base.{◌==◌, if◌then◌else◌, lt→ltb, ==_refl, ==_ne}
use titanium.Hdint.Devices.{BitField, IoApicDevice}
use titanium.Hdint.IoApic.{
  IoApic, IoApicOverrideEntry, ApicIrqPolarity, ApicIrqTrigger, active_lo, active_hi, edge, level,
  get_entry, set_entry, polarity, trigger, override_polarity, override_trigger, register_override,
  set_active_low, set_level_triggered,
}
use titanium.Hdint.Redirection.{n_entries, entry, SameReadOnly, update_lem, get_entry_lem, entry_lt}

-- The digit that an override leaves where `b` was.
abbrev pub low_digit : ApicIrqPolarity → ℕ → ℕ
low_digit ApicIrqPolarity.no_override b = b
low_digit active_lo b = 1
low_digit active_hi b = 0
low_digit ApicIrqPolarity.reserved b = b

abbrev pub level_digit : ApicIrqTrigger → ℕ → ℕ
level_digit ApicIrqTrigger.no_override b = b
level_digit level b = 1
level_digit edge b = 0
level_digit ApicIrqTrigger.reserved b = b

-- `e1` is `e` with the digit at place `i` set to `b`.
abbrev DigitSet : ℕ → ℕ → ℕ → ℕ → Type 0
DigitSet i b e e1 =
    (e1 / 2 ^ i % 2 ≡ b) × (e1 % 2 ^ i ≡ e % 2 ^ i) × (e1 / 2 ^ (i + 1) ≡ e / 2 ^ (i + 1))

-- An entry `e'` that has the polarity and trigger asked for and else the digits of `e`.
abbrev pub Overridden : ApicIrqPolarity → ApicIrqTrigger → ℕ → ℕ → Type 0
Overridden p t e e' =
    (e' / 2 ^ 13 % 2 ≡ low_digit p (e / 2 ^ 13 % 2))
    × (e' / 2 ^ 15 % 2 ≡ level_digit t (e / 2 ^ 15 % 2))
    × (e' % 2 ^ 13 ≡ e % 2 ^ 13)
    × (e' / 2 ^ 14 % 2 ≡ e / 2 ^ 14 % 2)
    × (e' / 2 ^ 16 ≡ e / 2 ^ 16)

both_set :
    (p : ApicIrqPolarity) (t : ApicIrqTrigger) (e e1 e2 : ℕ)
    → e < 2 ^ 64
    → DigitSet 13 (low_digit p (e / 2 ^ 13 % 2)) e e1
    → DigitSet 15 (level_digit t (e1 / 2 ^ 15 % 2)) e1 e2
    → Overridden p t e e2 × (e2 < 2 ^ 64) × SameReadOnly e2 e
both_set p t e e1 e2 e_lt (d1, low1, high1) (d2, low2, high2) =
    let kept : e1 / 2 ^ 15 % 2 ≡ e / 2 ^ 15 % 2 = omega arith in
    (
      (omega arith, d2 ∙ ap (level_digit t) kept, omega arith, omega arith, omega arith),
      omega arith,
      (omega arith, omega arith, omega arith, omega arith),
    )

module _ (f : BitField) where
  override_polarity_lem :
      (p : ApicIrqPolarity) (e : ℕ)
      → ((p ≡ ApicIrqPolarity.reserved) × (override_polarity f p e ≡ none))
        ⊎ ((e1 : ℕ) × (override_polarity f p e ≡ some e1)
            × DigitSet 13 (low_digit p (e / 2 ^ 13 % 2)) e e1)
  unfolding override_polarity
  override_polarity_lem ApicIrqPolarity.no_override e = inr (e, refl, (refl, refl, refl))
  override_polarity_lem active_lo e =
      let wrote = f.set_bit-replaced e 13 true in
      inr (
        set_active_low f e true,
        refl,
        (omega (arith, wrote), omega (arith, wrote), omega (arith, wrote)),
      )
  override_polarity_lem active_hi e =
      let wrote = f.set_bit-replaced e 13 false in
      inr (
        set_active_low f e false,
        refl,
        (omega (arith, wrote), omega (arith, wrote), omega (arith, wrote)),
      )
  override_polarity_lem ApicIrqPolarity.reserved e = inl (refl, refl)

  override_trigger_lem :
      (t : ApicIrqTrigger) (e : ℕ)
      → ((t ≡ ApicIrqTrigger.reserved) × (override_trigger f t e ≡ none))
        ⊎ ((e1 : ℕ) × (override_trigger f t e ≡ some e1)
            × DigitSet 15 (level_digit t (e / 2 ^ 15 % 2)) e e1)
  unfolding override_trigger
  override_trigger_lem ApicIrqTrigger.no_override e = inr (e, refl, (refl, refl, refl))
  override_trigger_lem level e =
      let wrote = f.set_bit-replaced e 15 true in
      inr (
        set_level_triggered f e true,
        refl,
        (omega (arith, wrote), omega (arith, wrote), omega (arith, wrote)),
      )
  override_trigger_lem edge e =
      let wrote = f.set_bit-replaced e 15 false in
      inr (
        set_level_triggered f e false,
        refl,
        (omega (arith, wrote), omega (arith, wrote), omega (arith, wrote)),
      )
  override_trigger_lem ApicIrqTrigger.reserved e = inl (refl, refl)

  module _ {W : Type 0} (d : IoApicDevice W) where
    abbrev led : IoApic → IoApicOverrideEntry → IoApic
    led a ovr = record a { irqs = λ i. if ovr.irq_source == i then ovr.gsi else a.irqs i }

    -- The call, by the outcome of its steps.
    stopped_early :
        (a : IoApic) (ovr : IoApicOverrideEntry) (w w1 : W) (e : ℕ)
        → ovr.irq_source < 32
        → get_entry d w ovr.gsi ≡ some (e, w1)
        → override_polarity f (polarity ovr.flags) e ≡ none
        → register_override d f a ovr w ≡ none
    unfolding register_override
    stopped_early a ovr w w1 e hs got stops = rw (lt→ltb ovr.irq_source 32 hs, got, stops) refl

    stopped_late :
        (a : IoApic) (ovr : IoApicOverrideEntry) (w w1 : W) (e e1 : ℕ)
        → ovr.irq_source < 32
        → get_entry d w ovr.gsi ≡ some (e, w1)
        → override_polarity f (polarity ovr.flags) e ≡ some e1
        → override_trigger f (trigger ovr.flags) e1 ≡ none
        → register_override d f a ovr w ≡ none
    unfolding register_override
    stopped_late a ovr w w1 e e1 hs got next stops =
        rw (lt→ltb ovr.irq_source 32 hs, got, next, stops) refl

    finished :
        (a : IoApic) (ovr : IoApicOverrideEntry) (w w1 w2 : W) (e e1 e2 : ℕ)
        → ovr.irq_source < 32
        → get_entry d w ovr.gsi ≡ some (e, w1)
        → override_polarity f (polarity ovr.flags) e ≡ some e1
        → override_trigger f (trigger ovr.flags) e1 ≡ some e2
        → set_entry d w1 ovr.gsi e2 ≡ some w2
        → register_override d f a ovr w ≡ some (led a ovr, w2)
    unfolding register_override
    finished a ovr w w1 w2 e e1 e2 hs got next last put =
        rw (lt→ltb ovr.irq_source 32 hs, got, next, last, put) refl

    -- Where the input is one of the 120 that the index register reaches, an override of an irq below
    -- 32 panics only for a reserved polarity or trigger mode. Otherwise the irq, and no other, is
    -- led to the input that it names, and the polarity and trigger digits of that input's entry are
    -- those that the flags ask for, or as before if they ask for none; the other digits of the entry
    -- and the other registers are as before.
    pub register_override_lem :
        (a : IoApic) (ovr : IoApicOverrideEntry) (w : W)
        → ovr.irq_source < 32
        → ovr.gsi < n_entries
        → let p = polarity ovr.flags in
          let t = trigger ovr.flags in
          let e = entry d w ovr.gsi in
          (((p ≡ ApicIrqPolarity.reserved) ⊎ (t ≡ ApicIrqTrigger.reserved))
            × (register_override d f a ovr w ≡ none))
          ⊎ ((a' : IoApic) × (w' : W) × (register_override d f a ovr w ≡ some (a', w'))
              × (a'.irqs ovr.irq_source ≡ ovr.gsi)
              × ((i : ℕ) → ovr.irq_source ≢ i → a'.irqs i ≡ a.irqs i)
              × Overridden p t e (entry d w' ovr.gsi)
              × ((q : ℕ)
                  → 0x10 + ovr.gsi * 2 ≢ q
                  → 0x10 + ovr.gsi * 2 + 1 ≢ q
                  → d.reg w' q ≡ d.reg w q))
    register_override_lem a ovr w hs hg =
        let g = ovr.gsi in
        let e = entry d w g in
        elim (override_polarity_lem (polarity ovr.flags) e) [
          | inl (bad, stops) ↦
              let (w1, got, keeps) = get_entry_lem d w g hg in
              inl (inl bad, stopped_early a ovr w w1 e hs got stops)
          | inr (e1, next, s1) ↦ elim (override_trigger_lem (trigger ovr.flags) e1) [
            | inl (bad, stops) ↦
                let (w1, got, keeps) = get_entry_lem d w g hg in
                inl (inr bad, stopped_late a ovr w w1 e e1 hs got next stops)
            | inr (e2, last, s2) ↦
                let (asked, e2_lt, same) =
                  both_set (polarity ovr.flags) (trigger ovr.flags) e e1 e2 (entry_lt d f w g) s1
                    s2 in
                let (w1, w2, got, put, holds, others) = update_lem d w g (λ x. e2) hg e2_lt same in
                inr (
                  led a ovr,
                  w2,
                  finished a ovr w w1 w2 e e1 e2 hs got next last put,
                  rw (==_refl ovr.irq_source) refl,
                  λ i other. rw (==_ne ovr.irq_source i other) refl,
                  subst (Overridden (polarity ovr.flags) (trigger ovr.flags) e) (sym holds) asked,
                  others,
                )
          ]
        ]
