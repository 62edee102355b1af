-- ===== src/Mapping/Devices.antt =====
-- How the registers of the local APIC, of an I/O APIC and of the event timer get their addresses
-- (`init_local` and `IOApic::new` in hdint.rs, `HPET::new` in hdint/hpet.rs). The mapper of the
-- `x86_64` crate is a parameter. `none` is a panic.
use titanium.Base.{ℕ, zero, suc, ◌+◌, ◌-◌, ◌*◌, ◌/◌, ◌%◌, ◌^◌}
use titanium.Base.{Option, some, check, ◌>>=◌, ◌>>◌, ◌==◌}
use titanium.Vmem.{page_size, lapic_addr, apic_start, hpet_addr}
use titanium.X86.{AlignDown, PageTableFlags, PageMapper}
use titanium.Uacpi.Ports.{checked_add}
use titanium.Madt.Layout.{IoApicEntry}
use titanium.Acpi.{HpetTable}
use titanium.Hdint.IoApic.{IoApic, new_io_apic}

-- `AddressSpace::Memory`
abbrev pub memory_space : ℕ
memory_space = 0

-- `2 * size_of::<u32>()`
abbrev pub apic_mapping_size : ℕ
apic_mapping_size = 2 * 4

-- `IOApic` with the address of its registers.
pub record MappedIoApic : Type 0 where
  pub base : ℕ
  pub controller : IoApic

module _ {S : Type 0} (p : PageMapper S) (down : AlignDown) (f : PageTableFlags) where
  -- `Page::from_start_address` and `PhysFrame::from_start_address`, unwrapped.
  unfoldable pub from_start_address : ℕ → Option ℕ
  from_start_address addr = do check (down.align_down addr page_size == addr); some addr

  abbrev pub lapic_flags : ℕ
  lapic_flags = f.union (f.union (f.union f.present f.writable) f.no_cache) f.write_through

  -- The frame is what `ApicBase::read` finds.
  unfoldable pub init_local : ℕ → S → Option (ℕ × S)
  init_local apic_phys_frame s = do
    page ← from_start_address lapic_addr
    s' ← p.map_to s page apic_phys_frame lapic_flags
    some (lapic_addr, s')

  abbrev pub io_apic_flags : ℕ
  io_apic_flags =
      f.union (f.union (f.union (f.union f.present f.no_cache) f.no_execute) f.write_through)
        f.writable

  -- `for (i, frame) in range.into_iter().enumerate()`, with the rounds that are left.
  unfoldable pub map_pages : ℕ → ℕ → ℕ → ℕ → S → Option S
  map_pages zero i start_addr start_frame s = some s
  map_pages (suc n) i start_addr start_frame s = do
    addr ← checked_add start_addr (i * 0x1000)
    page ← from_start_address addr
    s' ← p.map_to s page (start_frame + i * page_size) io_apic_flags
    map_pages n (suc i) start_addr start_frame s'

  -- `APIC_NEXT_OFFSET` goes in and comes out.
  unfoldable pub new : IoApicEntry → ℕ → S → Option (MappedIoApic × ℕ × S)
  new entry next_offset s = do
    let addr = entry.address
    let start_frame = down.align_down addr page_size
    let end_frame = down.align_down (addr + apic_mapping_size) page_size
    let n_pages = (end_frame - start_frame) / page_size + 1
    start_addr ← checked_add apic_start next_offset
    s' ← map_pages n_pages 0 start_addr start_frame s
    base ← checked_add start_addr (addr - start_frame)
    some (
      record { base = base; controller = new_io_apic entry.apic_id entry.gsi_base },
      (next_offset + n_pages * 0x1000) % 2 ^ 64,
      s',
    )

  abbrev pub hpet_flags : ℕ
  hpet_flags =
      f.union (f.union (f.union (f.union f.present f.writable) f.write_through) f.no_cache)
        f.no_execute

  unfoldable pub new_hpet : HpetTable → S → Option (ℕ × S)
  new_hpet table s = do
    check (table.address.address_space == memory_space)
    frame ← from_start_address table.address.address
    page ← from_start_address hpet_addr
    s' ← p.map_to s page frame hpet_flags
    some (page, s')
