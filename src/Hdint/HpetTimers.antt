-- ===== src/Hdint/HpetTimers.antt =====
-- The timers of the HPET as its specification has them, and the configuration that `enable_timer`
-- (hdint/hpet.rs) writes to one.
use titanium.Base.{ℕ, zero, one-le-pow, ◌+◌, ◌*◌, ◌/◌, ◌%◌, ◌^◌, ◌≤◌, ◌<◌, ◌≡◌, refl, ap, ◌∙◌}
use titanium.Base.{true, bit_and, ◌==◌, arith, ◌⊎◌, ◌-◌, suc}
use titanium.Base.Bits.{◌<<<◌, bit_and_mask}
use titanium.Util.Masks.{bit_and-shifted}
use titanium.Hdint.Devices.{BitField, Mmio}
use titanium.Hdint.HpetFields.{set_active_irq, set_irq_enabled, set_periodic, set_cnf}
use titanium.Hdint.Hpet.{configuration_offset, capabilities_offset, timer, comparator}

-- What `enable_timer` writes to the configuration of a timer.
abbrev pub started_config : BitField → ℕ → ℕ → ℕ
started_config f config on_irq =
    set_cnf f (set_periodic f (set_irq_enabled f (set_active_irq f config on_irq) true) true) true

-- The HPET: its registers, the count at which a timer interrupts next, and the period that is added
-- to it then. A write to the comparator of a periodic timer sets the count while bit 6 of the
-- configuration is on, which goes off by it; it sets the period otherwise. Where bit 4 says that a
-- timer can be periodic, its configuration keeps what it is given, but for its read-only bits. Where
-- bit 5 says that it has 64 bits, and bit 8 does not make it one of 32, it takes 64-bit values.
pub record HpetDevice (W : Type 0) : Type 0 where
  pub io : Mmio W
  pub next : W → ℕ → ℕ
  pub period : W → ℕ → ℕ
  pub configure :
      (w : W) (v : ℕ) → io.read (io.write w configuration_offset v) configuration_offset ≡ v
  pub configure-other :
      (w : W) (v i : ℕ)
      → (io.read (io.write w configuration_offset v) (timer i) ≡ io.read w (timer i))
        × (io.read (io.write w configuration_offset v) capabilities_offset
            ≡ io.read w capabilities_offset)
  pub configure_timer :
      (w : W) (i v : ℕ)
      → io.read w (timer i) / 2 ^ 4 % 2 ≡ 1
      → v / 2 ^ 32 ≡ io.read w (timer i) / 2 ^ 32
      → v / 2 ^ 15 % 2 ≡ io.read w (timer i) / 2 ^ 15 % 2
      → v / 2 ^ 4 % 4 ≡ io.read w (timer i) / 2 ^ 4 % 4
      → (io.read (io.write w (timer i) v) (timer i) ≡ v)
        × (io.read (io.write w (timer i) v) configuration_offset ≡ io.read w configuration_offset)
  pub compare_next :
      (w : W) (i v : ℕ)
      → io.read w (timer i) / 2 ^ 5 % 2 ≡ 1
      → io.read w (timer i) / 2 ^ 8 % 2 ≡ 0
      → io.read w (timer i) / 2 ^ 3 % 2 ≡ 1
      → io.read w (timer i) / 2 ^ 6 % 2 ≡ 1
      → let w' = io.write w (comparator i) v in
        (next w' i ≡ v)
        × (io.read w' (timer i) ≡ io.read w (timer i) - 2 ^ 6)
        × (io.read w' configuration_offset ≡ io.read w configuration_offset)
  pub compare_period :
      (w : W) (i v : ℕ)
      → io.read w (timer i) / 2 ^ 5 % 2 ≡ 1
      → io.read w (timer i) / 2 ^ 8 % 2 ≡ 0
      → io.read w (timer i) / 2 ^ 3 % 2 ≡ 1
      → io.read w (timer i) / 2 ^ 6 % 2 ≡ 0
      → let w' = io.write w (comparator i) v in
        (next w' i ≡ next w i)
        × (period w' i ≡ v)
        × (io.read w' (timer i) ≡ io.read w (timer i))
        × (io.read w' configuration_offset ≡ io.read w configuration_offset)

zero_test : (a p : ℕ) → 1 ≤ p → (a * p == 0) ≡ (a == 0)
zero_test zero p pos = let e : 0 * p ≡ 0 = omega arith in rw e refl
zero_test (suc a) p pos = ground arith

-- The test `irq_capabilities & irq_bit != 0` looks at one digit.
pub capability : (caps k : ℕ) → (bit_and caps (1 <<< k) == 0) ≡ (caps / 2 ^ k % 2 == 0)
capability caps k =
    let digit : bit_and caps (1 <<< k) ≡ caps / 2 ^ k % 2 * 2 ^ k =
      bit_and-shifted k caps 1 ∙ ap (λ t. t * 2 ^ k) (bit_and_mask 1 (caps / 2 ^ k)) in
    rw digit (zero_test (caps / 2 ^ k % 2) (2 ^ k) (one-le-pow k 2 (omega arith)))

pub digit-cases : (x : ℕ) → x < 2 → (x ≡ 0) ⊎ (x ≡ 1)
digit-cases x h = ground arith

module _ (f : BitField) where
  -- The digits of a configuration as `enable_timer` leaves them.
  pub started_config_lem :
      (c k : ℕ)
      → k < 32
      → let c' = started_config f c k in
        (c' / 2 ^ 32 ≡ c / 2 ^ 32)
        × (c' / 2 ^ 15 % 2 ≡ c / 2 ^ 15 % 2)
        × (c' / 2 ^ 4 % 4 ≡ c / 2 ^ 4 % 4)
        × (c' / 2 ^ 8 % 2 ≡ c / 2 ^ 8 % 2)
        × (c' / 2 ^ 9 % 2 ^ 5 ≡ k)
        × (c' / 2 ^ 2 % 2 ≡ 1)
        × (c' / 2 ^ 3 % 2 ≡ 1)
        × (c' / 2 ^ 6 % 2 ≡ 1)
  started_config_lem c k small =
      let c1 = f.set_range c 13 9 k in
      let c2 = f.set_bit c1 2 true in
      let c3 = f.set_bit c2 3 true in
      let e1 : c1 ≡ c / 2 ^ 14 * 2 ^ 14 + k * 2 ^ 9 + c % 2 ^ 9 =
        f.set_range-replaced c 13 9 k (omega arith) (omega arith) in
      let e2 : c2 ≡ c1 / 8 * 8 + 4 + c1 % 4 = f.set_bit-replaced c1 2 true in
      let e3 : c3 ≡ c2 / 16 * 16 + 8 + c2 % 8 = f.set_bit-replaced c2 3 true in
      let e4 : f.set_bit c3 6 true ≡ c3 / 128 * 128 + 64 + c3 % 64 = f.set_bit-replaced c3 6 true in
      let a1 : c1 / 2 ^ 14 ≡ c / 2 ^ 14 = omega (arith, e1) in
      let a2 : c1 / 2 ^ 9 % 2 ^ 5 ≡ k = omega (arith, e1) in
      let a3 : c1 % 2 ^ 9 ≡ c % 2 ^ 9 = omega (arith, e1) in
      let b1 : c2 / 8 ≡ c1 / 8 = omega (arith, e2) in
      let b2 : c2 / 4 % 2 ≡ 1 = omega (arith, e2) in
      let d1 : c3 / 16 ≡ c2 / 16 = omega (arith, e3) in
      let d2 : c3 / 8 % 2 ≡ 1 = omega (arith, e3) in
      let d3 : c3 % 8 ≡ c2 % 8 = omega (arith, e3) in
      let g1 : f.set_bit c3 6 true / 128 ≡ c3 / 128 = omega (arith, e4) in
      let g2 : f.set_bit c3 6 true % 64 ≡ c3 % 64 = omega (arith, e4) in
      let g3 : f.set_bit c3 6 true / 64 % 2 ≡ 1 = omega (arith, e4) in
      let low : f.set_bit c3 6 true / 2 ^ 7 ≡ c1 / 2 ^ 7 = omega (arith, g1, d1, b1) in
      (
        omega (arith, low, a1),
        omega (arith, low, a1),
        omega (arith, g2, d1, b1, a3),
        omega (arith, low, a3),
        omega (arith, low, a2),
        omega (arith, g2, d3, b2),
        omega (arith, g2, d2),
        g3,
      )
