-- ===== src/Limine.antt =====
-- The bootloader (src/limine.rs), and the entries of its memory map (src/limine/memmap.rs).
pub mod Requests
pub mod Responses
pub mod Tests
use titanium.Base.{ℕ, Bool, true, false}

pub data MemmapType : Type 0 where
  usable reserved acpi_reclaimable acpi_nvs bad_memory bootloader_reclaimable : MemmapType
  executable_and_modules framebuffer reserved_mapped : MemmapType

pub record MemmapEntry : Type 0 where
  pub base : ℕ
  pub length : ℕ
  pub ty : MemmapType

-- `self.ty == MemmapType::Usable`
abbrev pub is_usable : MemmapEntry → Bool
is_usable entry = elim entry.ty [ usable ↦ true | _ ↦ false ]
