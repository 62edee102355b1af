-- ===== src/Hdint/PitInput.antt =====
-- What enabling and disabling the PIT does to the I/O APIC's entry for it.
use titanium.Base.{ℕ, ◌+◌, ◌*◌, ◌/◌, ◌%◌, ◌^◌, ◌<◌, ◌≡◌, ◌≢◌, refl, sym, ap, ◌∙◌, subst}
use titanium.Base.{false, some, arith}
use titanium.Idt.Table.{irq_pit}
use titanium.Hdint.Devices.{BitField, IoApicDevice}
use titanium.Hdint.IoApic.{IoApic, set_vector, set_mask, enable_pit, disable_pit}
use titanium.Hdint.Redirection.{
  n_entries, entry, SameReadOnly, update_lem, same_registers, entry_lt,
}

module _ {W : Type 0} (d : IoApicDevice W) (f : BitField) where
  -- The digits of an entry that is unmasked and has a new vector.
  unmasked :
      (e v : ℕ)
      → e < 2 ^ 64
      → v < 2 ^ 8
      → let e' = set_vector f (set_mask f e false) v in
        (e' < 2 ^ 64)
        × SameReadOnly e' e
        × (e' % 2 ^ 8 ≡ v)
        × (e' / 2 ^ 16 % 2 ≡ 0)
        × (e' / 2 ^ 8 % 2 ^ 8 ≡ e / 2 ^ 8 % 2 ^ 8)
        × (e' / 2 ^ 17 ≡ e / 2 ^ 17)
  unmasked e v e_lt small =
      let mid = set_mask f e false in
      let shape : set_vector f mid v ≡ e / 2 ^ 17 * 2 ^ 17 + e % 2 ^ 16 / 2 ^ 8 * 2 ^ 8 + v =
        omega (
          arith,
          f.set_bit-replaced e 16 false,
          f.set_range-replaced mid 7 0 v (omega arith) small,
        ) in
      rw shape (
        omega arith,
        (omega arith, omega arith, omega arith, omega arith),
        omega arith,
        omega arith,
        omega arith,
        omega arith,
      )

  enable_pit_lem :
      (a : IoApic) (w : W)
      → a.irqs 0 < n_entries
      → let g = a.irqs 0 in
        (w1 : W) × (enable_pit d f a w ≡ some w1)
        × (entry d w1 g ≡ set_vector f (set_mask f (entry d w g) false) irq_pit)
        × ((q : ℕ) → 0x10 + g * 2 ≢ q → 0x10 + g * 2 + 1 ≢ q → d.reg w1 q ≡ d.reg w q)
  unfolding enable_pit
  enable_pit_lem a w h =
      let g = a.irqs 0 in
      let digits = unmasked (entry d w g) irq_pit (entry_lt d f w g) (omega arith) in
      let (v, w1, got, put, holds, others) =
        update_lem d w g (λ e. set_vector f (set_mask f e false) irq_pit) h digits.0 digits.1 in
      (w1, rw got put, holds, others)

  disable_pit_lem :
      (a : IoApic) (w : W)
      → a.irqs 0 < n_entries
      → entry d w (a.irqs 0) / 2 ^ 16 % 2 ≡ 0
      → (w' : W) × (disable_pit d f a w ≡ some w') × ((q : ℕ) → d.reg w' q ≡ d.reg w q)
  unfolding disable_pit
  disable_pit_lem a w h off =
      let g = a.irqs 0 in
      let e = entry d w g in
      let same : set_mask f e false ≡ e = omega (arith, f.set_bit-replaced e 16 false) in
      let (v, w', got, put, holds, others) =
        update_lem d w g (λ e. set_mask f e false) h (omega (arith, same, entry_lt d f w g))
          (subst (λ x. SameReadOnly x e) (sym same) (refl, refl, refl, refl)) in
      (w', rw got put, same_registers d w w' g (holds ∙ same) others)

  -- The input of the PIT is unmasked and raises the PIT's vector, the rest of its entry and the
  -- other registers stay; and disabling it after that leaves every register as it is, so that
  -- the input stays unmasked.
  pub disable_pit-enable_pit :
      (a : IoApic) (w : W)
      → a.irqs 0 < n_entries
      → let g = a.irqs 0 in
        (w1 w2 : W) × (enable_pit d f a w ≡ some w1)
        × (disable_pit d f a w1 ≡ some w2)
        × (entry d w1 g % 2 ^ 8 ≡ irq_pit)
        × (entry d w1 g / 2 ^ 16 % 2 ≡ 0)
        × (entry d w1 g / 2 ^ 8 % 2 ^ 8 ≡ entry d w g / 2 ^ 8 % 2 ^ 8)
        × (entry d w1 g / 2 ^ 17 ≡ entry d w g / 2 ^ 17)
        × ((q : ℕ) → 0x10 + g * 2 ≢ q → 0x10 + g * 2 + 1 ≢ q → d.reg w1 q ≡ d.reg w q)
        × ((q : ℕ) → d.reg w2 q ≡ d.reg w1 q)
  disable_pit-enable_pit a w h =
      let g = a.irqs 0 in
      let (fits, same, vector, mask, middle, top) =
        unmasked (entry d w g) irq_pit (entry_lt d f w g) (omega arith) in
      let (w1, enabled, holds, others) = enable_pit_lem a w h in
      let unmasked_now = ap (λ e. e / 2 ^ 16 % 2) holds ∙ mask in
      let (w2, disabled, kept) = disable_pit_lem a w1 h unmasked_now in
      (
        w1,
        w2,
        enabled,
        disabled,
        ap (λ e. e % 2 ^ 8) holds ∙ vector,
        unmasked_now,
        ap (λ e. e / 2 ^ 8 % 2 ^ 8) holds ∙ middle,
        ap (λ e. e / 2 ^ 17) holds ∙ top,
        others,
        kept,
      )
