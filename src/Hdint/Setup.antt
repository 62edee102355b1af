-- ===== src/Hdint/Setup.antt =====
-- How the kernel starts the timers behind the I/O APIC (hdint.rs): the interval timer, the real-time
-- clock, the event timer. `none` is a panic.
use titanium.Base.{ℕ, zero, suc, ◌/◌, ◌%◌, ◌^◌}
use titanium.Base.{true, false, Option, none, some, ◌==◌, ◌>>=◌}
use titanium.Base.Bits.{◌>>>◌}
use titanium.X86.{Ports}
use titanium.Idt.Table.{irq_rtc, irq_hpet}
use titanium.Hdint.Devices.{BitField, IoApicDevice, Mmio}
use titanium.Hdint.IoApic.{
  IoApic, global_rtc, get_entry, set_entry, set_mask, set_vector, enable_pit,
}
use titanium.Hdint.Pit.{Bus, enable_int}
use titanium.Hdint.Pit as Pit
use titanium.Hdint.Hpet.{disable, disable_timer, timer}

-- `lowest_one` on 32 bits: the place of the lowest set bit, `none` for 0.
unfoldable pub lowest_from : ℕ → ℕ → ℕ → Option ℕ
lowest_from zero k n = none
lowest_from (suc left) k n = elim (n / 2 ^ k % 2 == 1) [
  | true ↦ some k
  | false ↦ lowest_from left (suc k) n
]

module _ {W P H : Type 0} (d : IoApicDevice W) (f : BitField) (ports : Ports P) (io : Mmio H) where
  unfoldable pub init_pit : IoApic → W → Bus P → Option (W × Bus P)
  init_pit a w b = do w' ← enable_pit d f a w; some (w', Pit.init ports b)

  unfoldable pub enable_rtc : IoApic → W → Bus P → Option (W × Bus P)
  enable_rtc a w b = do
    (entry, w1) ← get_entry d w (a.irqs global_rtc)
    w2 ← set_entry d w1 (a.irqs global_rtc) (set_vector f (set_mask f entry false) irq_rtc)
    some (w2, enable_int ports b)

  -- `HPET::new` has mapped the registers before.
  unfoldable pub init_hpet : IoApic → W → H → Option (W × H)
  init_hpet a w h = do
    let h1 = disable io f h
    on_irq ← lowest_from 32 0 ((io.read h1 (timer 0) >>> 32) % 2 ^ 32)
    (entry, w1) ← get_entry d w (a.irqs on_irq)
    w2 ← set_entry d w1 (a.irqs on_irq) (set_vector f (set_mask f entry true) irq_hpet)
    some (w2, disable_timer io f 0 h1)
