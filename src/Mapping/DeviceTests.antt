-- ===== src/Mapping/DeviceTests.antt =====
-- The devices of a machine whose I/O APIC lies at the end of a page, with empty page tables.
use titanium.Base.{ℕ, ◌+◌, ◌-◌, ◌%◌, ◌≤◌, ◌<◌, ◌≡◌, refl, sym, ap}
use titanium.Base.{
  Option, none, some, arith, ltb, ◌==◌, if◌then◌else◌, Bool-cases, inl, inr, le→ltb,
}
use titanium.Vmem.{page_size, lapic_addr, hpet_addr}
use titanium.X86.{rounding_down, page_table_flags, PageMapper}
use titanium.Madt.Layout.{IoApicEntry}
use titanium.Acpi.{HpetTable}
use titanium.Mapping.Devices.{MappedIoApic, apic_mapping_size, init_local, new, new_hpet}
use titanium.Mapping.Pages.{physical}
use titanium.Mapping.Registers.{map_devices_lem}

pub record Tables : Type 0 where
  pub mapped : ℕ → Option (ℕ × ℕ)
  pub left : ℕ

abbrev pub added : Tables → ℕ → ℕ → ℕ → Tables
added s page frame flags = record {
  mapped = λ q. if page == q then some (frame, flags) else s.mapped q;
  left = s.left - 3;
}

abbrev pub place : Option (ℕ × ℕ) → Tables → ℕ → ℕ → ℕ → Option Tables
place none s page frame flags = if ltb s.left 3 then none else some (added s page frame flags)
place (some m) s page frame flags = none

pub place-free :
    (s : Tables) (m : Option (ℕ × ℕ)) (page frame flags : ℕ)
    → m ≡ none
    → 3 ≤ s.left
    → (s' : Tables) × (place m s page frame flags ≡ some s') × (s.left ≤ s'.left + 3)
place-free s none page frame flags free left =
    (added s page frame flags, rw (le→ltb s.left 3 left) refl, omega arith)
place-free s (some m) page frame flags free left = absurd (cc)

pub place-mapped :
    (s : Tables) (n : Option (ℕ × ℕ)) (page frame flags : ℕ) (m : ℕ × ℕ)
    → n ≡ some m
    → place n s page frame flags ≡ none
place-mapped s none page frame flags m e = absurd (cc)
place-mapped s (some n) page frame flags m e = refl

pub place-added :
    (s s' : Tables) (m : Option (ℕ × ℕ)) (page frame flags : ℕ)
    → place m s page frame flags ≡ some s'
    → added s page frame flags ≡ s'
place-added s s' none page frame flags e = elim (Bool-cases (ltb s.left 3)) [
  | inl h ↦ absurd (ground arith)
  | inr h ↦ ground arith
]
place-added s s' (some m) page frame flags e = absurd (cc)

abbrev pub tables : PageMapper Tables
tables = record {
  map_to = λ s page. place (s.mapped page) s page;
  translate = λ s. s.mapped;
  frames_left = λ s. s.left;
  map_to-unmapped = λ s page. place-free s (s.mapped page) page;
  map_to-mapped = λ s page. place-mapped s (s.mapped page) page;
  translate-map_to = λ s s' page frame flags q e.
      ap (λ t. t.mapped q) (sym (place-added s s' (s.mapped page) page frame flags e));
}

abbrev pub start : Tables
start = record { mapped = λ q. none; left = 20 }

abbrev entry : IoApicEntry
entry = record { apic_id = 1; address = 0xfec0_0ff8; gsi_base = 0 }

abbrev table : HpetTable
table = record {
  flags = 0;
  address = record {
    address_space = 0;
    reg_bit_width = 64;
    reg_bit_offset = 0;
    address = 0xfed0_0000;
  };
  hpet_number = 0;
  minimum_tick = 100;
  page_protection = 0;
}

map_devices_lem_example :
    (s1 : Tables) × (a : MappedIoApic) × (next' : ℕ) × (s2 : Tables) × (s3 : Tables) × (init_local
        tables rounding_down page_table_flags 0xfee0_0000 start
      ≡ some (lapic_addr, s1))
    × (new tables rounding_down page_table_flags entry 0 s1 ≡ some (a, next', s2))
    × (new_hpet tables rounding_down page_table_flags table s2 ≡ some (hpet_addr, s3))
    × (0xfec0_0ff8 % page_size + apic_mapping_size < next' - 0)
    × ((i : ℕ)
        → i < page_size
        → physical tables rounding_down page_table_flags s3 (lapic_addr + i)
          ≡ some (0xfee0_0000 + i))
    × ((i : ℕ)
        → 0xfec0_0ff8 % page_size + i < next' - 0
        → physical tables rounding_down page_table_flags s3 (a.base + i) ≡ some (0xfec0_0ff8 + i))
    × ((i : ℕ)
        → i < page_size
        → physical tables rounding_down page_table_flags s3 (hpet_addr + i)
          ≡ some (0xfed0_0000 + i))
map_devices_lem_example =
    map_devices_lem tables rounding_down page_table_flags 0xfee0_0000 entry table 0 start refl
      (omega arith) refl refl refl refl (λ j b. refl) (omega arith)
