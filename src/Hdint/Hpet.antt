-- ===== src/Hdint/Hpet.antt =====
-- The high precision event timer (hdint/hpet.rs), by its registers of 64 bits. `none` is a panic.
use titanium.Base.{ℕ, ◌+◌, ◌*◌, ◌/◌, ◌%◌, ◌^◌}
use titanium.Base.{true, false, Option, some, bit_and, ltb, check, ◌>>=◌, ◌>>◌, ◌==◌, not}
use titanium.Base.Bits.{◌<<<◌, ◌>>>◌}
use titanium.Hdint.Devices.{Mmio, BitField}
use titanium.Hdint.HpetFields.{
  set_enabled, set_irq_enabled, irq_capabilities, set_active_irq, set_cnf, set_periodic,
}

abbrev pub capabilities_offset : ℕ
capabilities_offset = 0x000

abbrev pub configuration_offset : ℕ
configuration_offset = 0x010

abbrev pub interrupt_status_offset : ℕ
interrupt_status_offset = 0x020

abbrev pub mc_value_offset : ℕ
mc_value_offset = 0x0f0

abbrev pub timer_base_offset : ℕ
timer_base_offset = 0x100

-- The registers of a timer: its configuration, and its comparator 8 bytes on.
abbrev pub timer : ℕ → ℕ
timer index = timer_base_offset + 0x20 * index

abbrev pub comparator : ℕ → ℕ
comparator index = timer index + 8

-- `a * b` on `u64`
abbrev pub checked_mul : ℕ → ℕ → Option ℕ
checked_mul a b = check (ltb (a * b) (2 ^ 64)) >> some (a * b)

module _ {W : Type 0} (io : Mmio W) where
  unfoldable pub capabilities : W → ℕ
  capabilities w = io.read w capabilities_offset

  -- `period_fs`, the upper 32 bits, of `Capabilities`
  abbrev pub period_fs : ℕ → ℕ
  period_fs caps = (caps >>> 32) % 2 ^ 32

  unfoldable pub counter : W → ℕ
  counter w = io.read w mc_value_offset

  unfoldable pub interrupt_status : W → ℕ
  interrupt_status w = bit_and (io.read w interrupt_status_offset) 0xffff_ffff

  unfoldable pub configuration : W → ℕ
  configuration w = io.read w configuration_offset

  unfoldable pub set_configuration : ℕ → W → W
  set_configuration value w = io.write w configuration_offset value

  unfoldable pub get_counter : W → ℕ
  get_counter w = io.read w mc_value_offset

  -- The period is rounded down to whole nanoseconds.
  unfoldable pub get_ns : W → Option ℕ
  get_ns w =
      let clk_period_ns = period_fs (capabilities w) / 1_000_000 in
      checked_mul (get_counter w) clk_period_ns

  -- `comparator` and `set_comparator` of a timer.
  unfoldable pub get_comparator : ℕ → W → ℕ
  get_comparator index w = io.read w (comparator index)

  unfoldable pub set_comparator : ℕ → ℕ → W → W
  set_comparator index value w = io.write w (comparator index) value

  module _ (f : BitField) where
    unfoldable pub enable : W → W
    enable w = set_configuration (set_enabled f (configuration w) true) w

    unfoldable pub disable : W → W
    disable w = set_configuration (set_enabled f (configuration w) false) w

    unfoldable pub disable_timer : ℕ → W → W
    disable_timer index w =
        io.write w (timer index) (set_irq_enabled f (io.read w (timer index)) false)

    unfoldable pub enable_timer : ℕ → ℕ → ℕ → W → Option W
    enable_timer index on_irq period_ns w = do
      let w1 = disable w
      let clk_period_fs = period_fs (capabilities w1)
      period_as ← checked_mul period_ns 1_000_000
      check (ltb 0 clk_period_fs)
      let period_ticks = period_as / clk_period_fs
      let curcount = counter w1
      check (ltb on_irq 32)
      let irq_bit = 1 <<< on_irq
      let timer_config = io.read w1 (timer index)
      check (not (bit_and (irq_capabilities f timer_config) irq_bit == 0))
      let config1 = set_active_irq f timer_config on_irq
      let config2 = set_cnf f (set_periodic f (set_irq_enabled f config1 true) true) true
      let w2 = io.write w1 (timer index) config2
      let w3 = set_comparator index ((curcount + period_ticks) % 2 ^ 64) w2
      some (set_comparator index period_ticks w3)
