-- ===== src/Boot/Memory.antt =====
-- The first half of `kmain` (src/main.rs), to the heap: the bootloader's answers, the segments and
-- interrupts, the page tables (`paging::init`), the frame allocator, the heap.
use titanium.Base.{ℕ, Bool, true, false}
use titanium.Base.{Option, some, ◌>>=◌, ◌>>◌, check}
use titanium.X86.{is_canonical, AlignUp, AlignDown, PageTableFlags}
use titanium.Bitvec.{BitArray}
use titanium.Gdt.{GlobalDescriptorTable, Segments}
use titanium.Idt.Table.{Table}
use titanium.Idt.Init.{HandlerAddresses}
use titanium.Limine.Requests.{
  RequestHeader, PagingModeRequest, PagingMode, l4, l5, is_base_revision_supported,
}
use titanium.Limine.Responses.{paging_mode, hhdm_offset, rsdp_addr, memmap_entries}
use titanium.Uacpi.Ports.{Addresses, vmem_init, checked_add}
use titanium.Heap.Blocks.{BlockAllocator}
use titanium.Paging.Levels.{total_buddy_bits}
use titanium.Paging.Trim.{Region}
use titanium.Paging.Init.{new}
use titanium.Mapping.Region.{MapperAllocator}
use titanium.Mapping.Clients.{heap_init}
use titanium.Boot.Early.{early_init}

-- The requests with their answers, where the processor finds its page tables, and the handlers.
pub record BootRequests : Type 0 where
  pub base_revision : ℕ × ℕ × ℕ
  pub paging : PagingModeRequest
  pub hhdm : RequestHeader
  pub rsdp : RequestHeader
  pub memmap : RequestHeader
  pub l4_table_frame : ℕ
  pub handlers : HandlerAddresses

-- `==` of the derived `PartialEq`
abbrev pub is_l4 : PagingMode → Bool
is_l4 l4 = true
is_l4 l5 = false

-- `active_l4_page_table`: where the table that `Cr3` names is in the direct map.
unfoldable pub active_l4_page_table : ℕ → ℕ → Option ℕ
active_l4_page_table l4_table_frame phys_offset = do
  virt ← checked_add phys_offset l4_table_frame
  check (is_canonical virt)
  some virt

-- `paging::init`; `OffsetPageTable::new` is a parameter.
unfoldable pub paging_init : {M : Type 0} → (ℕ → ℕ → M) → ℕ → Addresses → Option M
paging_init offset_page_table l4_table_frame a = do
  l4_page_table ← active_l4_page_table l4_table_frame a.hhdm_addr
  some (offset_page_table l4_page_table a.hhdm_addr)

-- What the kernel has then.
pub record Started (G M B H : Type 0) : Type 0 where
  pub addresses : Addresses
  pub gdt : G
  pub segments : Segments
  pub idt : Table
  pub mapper : MapperAllocator M B
  pub heap : BlockAllocator H

module _ {G M B H : Type 0} (gdt : GlobalDescriptorTable G) (v : BitArray total_buddy_bits B)
    (up : AlignUp) (down : AlignDown)
    (map_to : MapperAllocator M B → ℕ → ℕ → ℕ → MapperAllocator M B) (f : PageTableFlags)
    (offset_page_table : ℕ → ℕ → M) (fallback_init : ℕ → ℕ → H) (mem : ℕ → ℕ) where
  unfoldable pub start_memory : BootRequests → B → Option (Started G M B H)
  start_memory r zeroed = do
    check (is_base_revision_supported r.base_revision)
    mode ← paging_mode mem r.paging
    check (is_l4 mode)
    a ← vmem_init (hhdm_offset mem r.hhdm) (rsdp_addr mem r.rsdp)
    (g, segments, idt) ← early_init gdt r.handlers
    answer ← memmap_entries mem r.memmap
    entries ← answer
    mapper ← paging_init offset_page_table r.l4_table_frame a
    allocator ← new v zeroed entries
    (s, heap) ←
        heap_init v up down map_to f fallback_init
          (record { mapper = mapper; allocator = allocator })
    some
        (record { addresses = a; gdt = g; segments = segments; idt = idt; mapper = s; heap = heap })
