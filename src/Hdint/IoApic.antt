-- ===== src/Hdint/IoApic.antt =====
-- The I/O APIC (hdint.rs): its registers, redirection entries, and the overrides of the MADT. The
-- device at `base` is a parameter. `none` is a panic.
use titanium.Base.{ℕ, ◌+◌, ◌*◌, ◌%◌, ◌^◌, Bool, true, false}
use titanium.Base.{
  Option, none, some, bit_and, bit_or, ltb, check, ◌>>=◌, ◌>>◌, ◌==◌, if◌then◌else◌,
}
use titanium.Base.Bits.{◌<<<◌, ◌>>>◌}
use titanium.Util.BitRange.{bit_range}
use titanium.Idt.Table.{irq_pit}
use titanium.Hdint.Devices.{BitField, IoApicDevice}

abbrev pub global_pit : ℕ
global_pit = 0

abbrev pub global_rtc : ℕ
global_rtc = 8

-- `ApicIRQPolarity` and `ApicIRQTrigger` of acpi/madt.rs, by their two bits.
pub data ApicIrqPolarity : Type 0 where
  no_override active_hi reserved active_lo : ApicIrqPolarity

pub data ApicIrqTrigger : Type 0 where
  no_override edge reserved level : ApicIrqTrigger

unfoldable pub to_polarity : ℕ → ApicIrqPolarity
to_polarity bits =
    if bits == 0
    then ApicIrqPolarity.no_override
    else (if bits == 1
        then active_hi
        else (if bits == 2 then ApicIrqPolarity.reserved else active_lo))

unfoldable pub to_trigger : ℕ → ApicIrqTrigger
to_trigger bits =
    if bits == 0
    then ApicIrqTrigger.no_override
    else (if bits == 1 then edge else (if bits == 2 then ApicIrqTrigger.reserved else level))

unfoldable pub polarity : ℕ → ApicIrqPolarity
polarity flags = to_polarity (bit_range flags 1 0)

unfoldable pub trigger : ℕ → ApicIrqTrigger
trigger flags = to_trigger (bit_range flags 3 2)

pub record IoApicOverrideEntry : Type 0 where
  pub bus_source : ℕ
  pub irq_source : ℕ
  pub gsi : ℕ
  pub flags : ℕ

-- `irqs` has 32 places.
pub record IoApic : Type 0 where
  pub id : ℕ
  pub interrupt_base : ℕ
  pub irqs : ℕ → ℕ

-- `IOApic::new`, once its registers are mapped: the irqs start direct-mapped.
unfoldable pub new_io_apic : ℕ → ℕ → IoApic
new_io_apic apic_id gsi_base = record { id = apic_id; interrupt_base = gsi_base; irqs = λ i. i }

-- `0x10 + index as u32 * 2`
unfoldable pub entry_register : ℕ → Option ℕ
entry_register index = do let r = 0x10 + index % 2 ^ 32 * 2; check (ltb r (2 ^ 32)); some r

-- The setters of `RedirectionEntry` that the code calls.
module _ (f : BitField) where
  abbrev pub set_vector : ℕ → ℕ → ℕ
  set_vector entry v = f.set_range entry 7 0 v

  abbrev pub set_active_low : ℕ → Bool → ℕ
  set_active_low entry v = f.set_bit entry 13 v

  abbrev pub set_level_triggered : ℕ → Bool → ℕ
  set_level_triggered entry v = f.set_bit entry 15 v

  abbrev pub set_mask : ℕ → Bool → ℕ
  set_mask entry v = f.set_bit entry 16 v

  unfoldable pub override_polarity : ApicIrqPolarity → ℕ → Option ℕ
  override_polarity no_override redentry = some redentry
  override_polarity active_lo redentry = some (set_active_low redentry true)
  override_polarity active_hi redentry = some (set_active_low redentry false)
  override_polarity reserved redentry = none

  unfoldable pub override_trigger : ApicIrqTrigger → ℕ → Option ℕ
  override_trigger no_override redentry = some redentry
  override_trigger level redentry = some (set_level_triggered redentry true)
  override_trigger edge redentry = some (set_level_triggered redentry false)
  override_trigger reserved redentry = none

module _ {W : Type 0} (d : IoApicDevice W) where
  -- `reg & 0xff`
  unfoldable pub read : W → ℕ → ℕ × W
  read w reg = let w' = d.select w (bit_and reg 0xff) in (d.window_read w', w')

  unfoldable pub write : W → ℕ → ℕ → W
  write w reg value = d.window_write (d.select w (bit_and reg 0xff)) value

  unfoldable pub get_entry : W → ℕ → Option (ℕ × W)
  get_entry w index = do
    r ← entry_register index
    let (bot_half, w1) = read w r
    let (top_half, w2) = read w1 (r + 1)
    some (bit_or (top_half <<< 32) bot_half, w2)

  unfoldable pub set_entry : W → ℕ → ℕ → Option W
  set_entry w index entry = do
    let bot_half = bit_and entry 0xffff_ffff
    let top_half = (entry >>> 32) % 2 ^ 32
    r ← entry_register index
    some (write (write w r bot_half) (r + 1) top_half)

  module _ (f : BitField) where
    unfoldable pub register_override : IoApic → IoApicOverrideEntry → W → Option (IoApic × W)
    register_override a ovr w = do
      check (ltb ovr.irq_source 32)
      let a' = record a { irqs = λ i. if ovr.irq_source == i then ovr.gsi else a.irqs i }
      (redentry, w1) ← get_entry w ovr.gsi
      redentry1 ← override_polarity f (polarity ovr.flags) redentry
      redentry2 ← override_trigger f (trigger ovr.flags) redentry1
      w2 ← set_entry w1 ovr.gsi redentry2
      some (a', w2)

    unfoldable pub enable_pit : IoApic → W → Option W
    enable_pit a w = do
      (entry, w1) ← get_entry w (a.irqs global_pit)
      set_entry w1 (a.irqs global_pit) (set_vector f (set_mask f entry false) irq_pit)

    unfoldable pub disable_pit : IoApic → W → Option W
    disable_pit a w = do
      (entry, w1) ← get_entry w (a.irqs global_pit)
      set_entry w1 (a.irqs global_pit) (set_mask f entry false)
