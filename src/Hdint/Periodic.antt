-- ===== src/Hdint/Periodic.antt =====
-- What `enable_timer` (hdint/hpet.rs) makes of a timer of the HPET.
use titanium.Base.{ℕ, ◌+◌, ◌*◌, ◌/◌, ◌%◌, ◌^◌, ◌<◌, ◌≡◌, refl, ap, ◌∙◌}
use titanium.Base.{true, false, none, some, bit_and, lt→ltb, ◌==◌, arith, inl, inr, ◌⊎◌, ◌-◌}
use titanium.Base.Bits.{◌<<<◌}
use titanium.Hdint.Devices.{BitField}
use titanium.Hdint.HpetFields.{
  irq_capabilities, is_enabled, active_irq, is_irq_enabled, is_periodic,
}
use titanium.Hdint.Hpet.{
  configuration_offset, mc_value_offset, capabilities_offset, timer, comparator, capabilities,
  configuration, set_configuration, counter, disable, enable_timer, period_fs, set_comparator,
}
use titanium.Hdint.HpetTimers.{
  started_config, HpetDevice, capability, digit-cases, started_config_lem,
}

module _ (f : BitField) where
  module _ {W : Type 0} (d : HpetDevice W) where
    -- The three writes of `enable_timer`.
    programmed :
        (i k first ticks : ℕ) (w : W)
        → k < 32
        → d.io.read w (timer i) / 2 ^ 4 % 4 ≡ 3
        → d.io.read w (timer i) / 2 ^ 8 % 2 ≡ 0
        → let w2 = d.io.write w (timer i) (started_config f (d.io.read w (timer i)) k) in
          let w' = d.io.write (d.io.write w2 (comparator i) first) (comparator i) ticks in
          (d.next w' i ≡ first)
          × (d.period w' i ≡ ticks)
          × (active_irq f (d.io.read w' (timer i)) ≡ k)
          × (is_irq_enabled f (d.io.read w' (timer i)) ≡ true)
          × (is_periodic f (d.io.read w' (timer i)) ≡ true)
          × (d.io.read w' configuration_offset ≡ d.io.read w configuration_offset)
    programmed i k first ticks w small able whole =
        let io = d.io in
        let config = started_config f (io.read w (timer i)) k in
        let (top, fsb, ro, mode, line, on, periodic, cnf) =
          started_config_lem f (io.read w (timer i)) k small in
        let w2 = io.write w (timer i) config in
        let (stored, conf2) = d.configure_timer w i config (omega (arith, able)) top fsb ro in
        let w3 = io.write w2 (comparator i) first in
        let (next3, stored3, conf3) =
          d.compare_next w2 i first (rw stored (omega (arith, ro, able))) (rw stored (mode ∙ whole))
            (rw stored periodic) (rw stored cnf) in
        let config3 : io.read w3 (timer i) ≡ config - 2 ^ 6 =
          stored3 ∙ ap (λ x. x - 2 ^ 6) stored in
        let (next4, period4, stored4, conf4) =
          d.compare_period w3 i ticks (omega (arith, config3, cnf, ro, able))
            (omega (arith, config3, cnf, mode, whole)) (omega (arith, config3, periodic, cnf))
            (omega (arith, config3, cnf)) in
        let w4 = io.write w3 (comparator i) ticks in
        let config4 : io.read w4 (timer i) ≡ config - 2 ^ 6 = stored4 ∙ config3 in
        let enabled : io.read w4 (timer i) / 2 ^ 2 % 2 ≡ 1 = omega (arith, config4, on, cnf) in
        let repeats : io.read w4 (timer i) / 2 ^ 3 % 2 ≡ 1 =
          omega (arith, config4, periodic, cnf) in
        (
          next4 ∙ next3,
          period4,
          f.get_range-digits (io.read w4 (timer i)) 13 9 (omega arith)
              ∙ omega (arith, config4, line, cnf),
          f.get_bit-digit (io.read w4 (timer i)) 2 ∙ ap (λ x. x == 1) enabled,
          f.get_bit-digit (io.read w4 (timer i)) 3 ∙ ap (λ x. x == 1) repeats,
          conf4 ∙ conf3 ∙ conf2,
        )

    -- A timer of 64 bits that can be periodic and can raise the interrupt, one of 0 to 31, on an HPET
    -- with a period and a time that fits 64 bits as femtoseconds: the HPET stands still, and once it is enabled the timer interrupts on the given
    -- line first a period after the count at the call, then with that period. For such a timer
    -- that cannot raise it, the code panics.
    pub enable_timer_lem :
        (index on_irq period_ns : ℕ) (w : W)
        → on_irq < 32
        → d.io.read w (timer index) / 2 ^ 4 % 4 ≡ 3
        → d.io.read w (timer index) / 2 ^ 8 % 2 ≡ 0
        → period_ns * 1_000_000 < 2 ^ 64
        → 0 < period_fs d.io (capabilities d.io w)
        → let ticks = period_ns * 1_000_000 / period_fs d.io (capabilities d.io w) in
          let w1 = disable d.io f w in
          let can = d.io.read w (timer index) / 2 ^ 32 % 2 ^ 32 / 2 ^ on_irq % 2 in
          ((can ≡ 0) × (enable_timer d.io f index on_irq period_ns w ≡ none))
          ⊎ ((w' : W) × (enable_timer d.io f index on_irq period_ns w ≡ some w')
              × (can ≡ 1)
              × (d.next w' index ≡ (counter d.io w1 + ticks) % 2 ^ 64)
              × (d.period w' index ≡ ticks)
              × (active_irq f (d.io.read w' (timer index)) ≡ on_irq)
              × (is_irq_enabled f (d.io.read w' (timer index)) ≡ true)
              × (is_periodic f (d.io.read w' (timer index)) ≡ true)
              × (is_enabled f (configuration d.io w') ≡ false))
    unfolding enable_timer disable set_configuration configuration capabilities set_comparator
        counter
    enable_timer_lem index on_irq period_ns w small able whole fits pos =
        let io = d.io in
        let w1 = disable io f w in
        let off = f.set_bit (io.read w configuration_offset) 0 false in
        let (same, caps) = d.configure-other w off index in
        let clk = period_fs io (io.read w capabilities_offset) in
        let ticks = period_ns * 1_000_000 / clk in
        let config = io.read w (timer index) in
        let can = config / 2 ^ 32 % 2 ^ 32 / 2 ^ on_irq % 2 in
        let digits : irq_capabilities f (io.read w1 (timer index)) ≡ config / 2 ^ 32 % 2 ^ 32 =
          f.get_range-digits (io.read w1 (timer index)) 63 32 (omega arith)
          ∙ ap (λ x. x / 2 ^ 32 % 2 ^ 32) same in
        let test : (bit_and (irq_capabilities f (io.read w1 (timer index))) (1 <<< on_irq) == 0)
            ≡ (can == 0) =
          ap (λ x. bit_and x (1 <<< on_irq) == 0) digits
          ∙ capability (config / 2 ^ 32 % 2 ^ 32) on_irq in
        elim (digit-cases can (omega arith)) [
          | inl no_irq ↦ inl (
            no_irq,
            rw
                (
                  caps,
                  lt→ltb (period_ns * 1_000_000) (2 ^ 64) fits,
                  lt→ltb 0 clk pos,
                  lt→ltb on_irq 32 small,
                  test,
                  no_irq,
                )
                refl,
          )
          | inr irq ↦
              let first : ℕ = (io.read w1 mc_value_offset + ticks) % 2 ^ 64 in
              let (next', period', line, enabled, repeats, conf) =
                programmed index on_irq first ticks w1 small (ap (λ x. x / 2 ^ 4 % 4) same ∙ able)
                  (ap (λ x. x / 2 ^ 8 % 2) same ∙ whole) in
              let w' =
                io.write
                  (io.write
                    (io.write w1 (timer index) (started_config f (io.read w1 (timer index)) on_irq))
                    (comparator index) first)
                  (comparator index) ticks in
              let stopped : io.read w' configuration_offset / 2 ^ 0 % 2 ≡ 0 = omega (
                arith,
                conf ∙ d.configure w off,
                f.set_bit-replaced (io.read w configuration_offset) 0 false,
              ) in
              inr (
                w',
                rw
                    (
                      caps,
                      lt→ltb (period_ns * 1_000_000) (2 ^ 64) fits,
                      lt→ltb 0 clk pos,
                      lt→ltb on_irq 32 small,
                      test,
                      irq,
                    )
                    refl,
                irq,
                next',
                period',
                line,
                enabled,
                repeats,
                f.get_bit-digit (io.read w' configuration_offset) 0 ∙ ap (λ x. x == 1) stopped,
              )
        ]
