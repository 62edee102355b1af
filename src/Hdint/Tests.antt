-- ===== src/Hdint/Tests.antt =====
-- Runs of the theorems on the devices: registers as a function, and fields by arithmetic.
use titanium.Base.{
  ℕ, suc, ◌+◌, ◌-◌, ◌*◌, ◌/◌, ◌%◌, ◌^◌, ◌≤◌, ◌<◌, ◌≡◌, ◌≢◌, refl, ◌==◌, if◌then◌else◌,
}
use titanium.Base.{List, [], ◌∷◌, none, some, arith, ◌⊎◌}
use native.Mathlib.Nat.{mod-lt, mod-eq_of_lt}
use titanium.Idt.Table.{irq_pit}
use titanium.Hdint.Devices.{BitField, IoApicDevice, pit, lapic_clk, other}
use titanium.Hdint.IoApic.{
  IoApic, IoApicOverrideEntry, ApicIrqPolarity, ApicIrqTrigger, enable_pit, disable_pit, polarity,
  trigger, register_override, new_io_apic,
}
use titanium.Hdint.Redirection.{entry}
use titanium.Hdint.PitInput.{disable_pit-enable_pit}
use titanium.Hdint.Override.{Overridden, register_override_lem}
use titanium.Hdint.Pit.{Round, sleep_us, pit_native_freq, pit_timer_rld}
use titanium.Hdint.Sleep.{Sleeps, n_intervals, sleep_us_lem}

abbrev pub fields : BitField
fields = record {
  set_bit = λ x i v. x / 2 ^ suc i * 2 ^ suc i + (if v then 2 ^ i else 0) + x % 2 ^ i;
  set_range = λ x msb lsb v. x / 2 ^ suc msb * 2 ^ suc msb + v * 2 ^ lsb + x % 2 ^ lsb;
  get_bit = λ x i. x / 2 ^ i % 2 == 1;
  get_range = λ x msb lsb. x / 2 ^ lsb % 2 ^ (msb - lsb + 1);
  set_bit-replaced = λ x i v. refl;
  set_range-replaced = λ x msb lsb v order fits. refl;
  get_bit-digit = λ x i. refl;
  get_range-digits = λ x msb lsb order. refl;
}

-- The index register and the others.
abbrev pub Registers : Type 0
Registers = ℕ × (ℕ → ℕ)

abbrev window : Registers → ℕ → Registers
window w x = (w.0, λ q. if w.0 == q then x else w.1 q)

pub window_holds :
    (y r x q : ℕ)
    → x < 2 ^ 32
    → (if r == q then x else y) % 2 ^ 32 ≡ (if r == q then x else y % 2 ^ 32)
window_holds y r x q small = ground (arith, mod-eq_of_lt small)

abbrev pub file : IoApicDevice Registers
file = record {
  reg = λ w q. w.1 q % 2 ^ 32;
  select = λ w r. (r, w.1);
  window_read = λ w. w.1 w.0 % 2 ^ 32;
  window_write = window;
  reg_lt = λ w q. mod-lt (w.1 q) (omega arith);
  reg-select = λ w r q. refl;
  window_read-select = λ w r. refl;
  reg-window_write = λ w r x q small a b. window_holds (w.1 q) r x q small;
}

abbrev pub masked : Registers
masked = (0, λ q. 0x1_0000)

abbrev chip : IoApic
chip = record { id = 0; interrupt_base = 0; irqs = λ i. if 0 == i then 2 else i }

disable_pit-enable_pit_example :
    (w1 w2 : Registers) × (enable_pit file fields chip masked ≡ some w1)
    × (disable_pit file fields chip w1 ≡ some w2)
    × (entry file w1 2 % 2 ^ 8 ≡ irq_pit)
    × (entry file w1 2 / 2 ^ 16 % 2 ≡ 0)
    × (entry file w1 2 / 2 ^ 8 % 2 ^ 8 ≡ entry file masked 2 / 2 ^ 8 % 2 ^ 8)
    × (entry file w1 2 / 2 ^ 17 ≡ entry file masked 2 / 2 ^ 17)
    × ((q : ℕ) → 0x14 ≢ q → 0x15 ≢ q → file.reg w1 q ≡ file.reg masked q)
    × ((q : ℕ) → file.reg w2 q ≡ file.reg w1 q)
disable_pit-enable_pit_example = disable_pit-enable_pit file fields chip masked (omega arith)

abbrev keyboard : IoApicOverrideEntry
keyboard = record { bus_source = 0; irq_source = 9; gsi = 9; flags = 0xf }

abbrev direct : IoApic
direct = new_io_apic 0 0

register_override_lem_run :
    let p = polarity 0xf in
    let t = trigger 0xf in
    (((p ≡ ApicIrqPolarity.reserved) ⊎ (t ≡ ApicIrqTrigger.reserved))
      × (register_override file fields direct keyboard masked ≡ none))
    ⊎ ((a' : IoApic) × (w' : Registers) × (register_override file fields direct keyboard masked
          ≡ some (a', w'))
        × (a'.irqs 9 ≡ 9)
        × ((i : ℕ) → 9 ≢ i → a'.irqs i ≡ direct.irqs i)
        × Overridden p t (entry file masked 9) (entry file w' 9)
        × ((q : ℕ) → 0x22 ≢ q → 0x23 ≢ q → file.reg w' q ≡ file.reg masked q))
register_override_lem_run =
    register_override_lem fields file direct keyboard masked (omega arith) (omega arith)

-- The first interrupt of the PIT comes between a read of the counter and the `hlt`.
abbrev ticking : List Round
ticking = (pit ∷ [], other) ∷ ([], lapic_clk) ∷ (other ∷ [], pit) ∷ ([], pit) ∷ []

sleep_us_lem_example :
    Sleeps (n_intervals 1000) 0 ticking (sleep_us 1000 ticking)
    × (1000 * pit_native_freq ≤ n_intervals 1000 * pit_timer_rld * 1_000_000)
sleep_us_lem_example = sleep_us_lem 1000 ticking (omega arith) (omega arith)
