-- ===== src/Madt/Layout.antt =====
-- The fields of the MADT's entries, where the structures of src/acpi/madt.rs read them: `repr(C)` with
-- `packed(2)`, so a field of two bytes or more stands at an even place.
use titanium.Base.{ℕ, ◌+◌, ◌*◌, ◌^◌}
use titanium.Hdint.IoApic.{IoApicOverrideEntry}

pub record LocalApicEntry : Type 0 where
  pub acpi_processor_id : ℕ
  pub apic_id : ℕ
  pub flags : ℕ

pub record IoApicEntry : Type 0 where
  pub apic_id : ℕ
  pub address : ℕ
  pub gsi_base : ℕ

pub record IoApicNonmaskableEntry : Type 0 where
  pub nmi_source : ℕ
  pub flags : ℕ
  pub gsi : ℕ

pub record LocalApicNonmaskableEntry : Type 0 where
  pub acpi_processor_id : ℕ
  pub flags : ℕ
  pub lint : ℕ

pub record LocalApicOverrideEntry : Type 0 where
  pub addr : ℕ

pub record Localx2ApicEntry : Type 0 where
  pub x2apic_id : ℕ
  pub flags : ℕ
  pub acpi_id : ℕ

-- Little-endian words.
abbrev pub u16_at : (ℕ → ℕ) → ℕ → ℕ
u16_at bytes p = bytes p + 2 ^ 8 * bytes (p + 1)

abbrev pub u32_at : (ℕ → ℕ) → ℕ → ℕ
u32_at bytes p = u16_at bytes p + 2 ^ 16 * u16_at bytes (p + 2)

abbrev pub u64_at : (ℕ → ℕ) → ℕ → ℕ
u64_at bytes p = u32_at bytes p + 2 ^ 32 * u32_at bytes (p + 4)

module _ (bytes : ℕ → ℕ) where
  unfoldable pub local_apic_at : ℕ → LocalApicEntry
  local_apic_at p = record {
    acpi_processor_id = bytes (p + 2);
    apic_id = bytes (p + 3);
    flags = u32_at bytes (p + 4);
  }

  unfoldable pub io_apic_at : ℕ → IoApicEntry
  io_apic_at p = record {
    apic_id = bytes (p + 2);
    address = u32_at bytes (p + 4);
    gsi_base = u32_at bytes (p + 8);
  }

  unfoldable pub io_apic_override_at : ℕ → IoApicOverrideEntry
  io_apic_override_at p = record {
    bus_source = bytes (p + 2);
    irq_source = bytes (p + 3);
    gsi = u32_at bytes (p + 4);
    flags = u16_at bytes (p + 8);
  }

  unfoldable pub io_apic_nonmaskable_at : ℕ → IoApicNonmaskableEntry
  io_apic_nonmaskable_at p = record {
    nmi_source = bytes (p + 2);
    flags = u16_at bytes (p + 4);
    gsi = u32_at bytes (p + 6);
  }

  unfoldable pub local_apic_nonmaskable_at : ℕ → LocalApicNonmaskableEntry
  local_apic_nonmaskable_at p = record {
    acpi_processor_id = bytes (p + 2);
    flags = u16_at bytes (p + 4);
    lint = bytes (p + 6);
  }

  unfoldable pub local_apic_override_at : ℕ → LocalApicOverrideEntry
  local_apic_override_at p = record { addr = u64_at bytes (p + 4) }

  unfoldable pub localx2_apic_at : ℕ → Localx2ApicEntry
  localx2_apic_at p = record {
    x2apic_id = u32_at bytes (p + 2);
    flags = u32_at bytes (p + 6);
    acpi_id = u32_at bytes (p + 10);
  }
