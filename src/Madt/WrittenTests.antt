-- ===== src/Madt/WrittenTests.antt =====
-- A table with one I/O APIC and one override, as the firmware writes it.
use titanium.Base.{ℕ, ◌-◌, ◌≡◌, refl, arith, List, [], ◌∷◌, some, map}
use titanium.Base.{get_elem?}
use mathlib.Core.Option
use titanium.Hdint.IoApic.{IoApicOverrideEntry}
use titanium.Madt.Entries.{MadtEntry, entries, finished}
use titanium.Madt.Layout.{IoApicEntry}
use titanium.Madt.Fields.{
  AcpiEntry, controller, source_override, AllFit, table_bytes, BytesFrom, read_fields,
}
use titanium.Madt.Written.{entries-written}

abbrev pub ioapic0 : IoApicEntry
ioapic0 = record { apic_id = 0; address = 0xfec0_0000; gsi_base = 0 }

abbrev pub timer_override : IoApicOverrideEntry
timer_override = record { bus_source = 0; irq_source = 0; gsi = 2; flags = 0 }

abbrev pub firmware : List AcpiEntry
firmware = controller ioapic0 ∷ source_override timer_override ∷ []

abbrev pub memory : List ℕ → ℕ → ℕ
memory l a = Option.get_or (get_elem? l (a - 44)) 0

pub firmware_fits-AllFit : AllFit firmware
firmware_fits-AllFit = ((omega arith, omega arith), ((omega arith, omega arith), tt))

pub firmware_laid : BytesFrom (memory (table_bytes firmware)) 44 0 (table_bytes firmware)
firmware_laid = (
  refl,
  (
    refl,
    (
      refl,
      (
        refl,
        (
          refl,
          (
            refl,
            (
              refl,
              (
                refl,
                (
                  refl,
                  (
                    refl,
                    (
                      refl,
                      (
                        refl,
                        (
                          refl,
                          (
                            refl,
                            (refl, (refl, (refl, (refl, (refl, (refl, (refl, (refl, tt)))))))),
                          ),
                        ),
                      ),
                    ),
                  ),
                ),
              ),
            ),
          ),
        ),
      ),
    ),
  ),
)

entries-written_example :
    (ms : List MadtEntry) × (entries 67 (memory (table_bytes firmware)) 0 66 ≡ finished ms)
    × (map (read_fields (memory (table_bytes firmware))) ms ≡ map some firmware)
entries-written_example =
    entries-written (memory (table_bytes firmware)) 0 66 firmware firmware_fits-AllFit firmware_laid
      refl
