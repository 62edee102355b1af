-- ===== src/Boot/MemoryTests.antt =====
-- The boot on a machine with one usable entry, the 128 MiB from 0x800_0000 on.
use titanium.Base.{ℕ, Bool, List, [], ◌∷◌, Option, ◌==◌, if◌then◌else◌}
use titanium.X86.{rounding_up, rounding_down, page_table_flags}
use titanium.Gdt.{Descriptor}
use titanium.Idt.Tests.{addresses}
use titanium.Limine.{MemmapEntry, usable}
use titanium.Limine.Requests.{l4, hhdm_request, rsdp_request, memmap_request, paging_mode_request}
use titanium.Paging.Trim.{Region}
use titanium.Paging.Tests.{bits, zeroed}
use titanium.Mapping.Region.{MapperAllocator}
use titanium.Boot.Memory.{BootRequests, Started, start_memory}
use titanium.Boot.Tests.{list_gdt}

abbrev read : List (ℕ × ℕ) → ℕ → ℕ
read [] a = 0
read ((p, x) ∷ ws) a = if p == a then x else read ws a

abbrev entry : MemmapEntry
entry = record { base = 0x800_0000; length = 0x800_0000; ty = usable }

-- The four answers, then the pointer to the entry, then the entry.
abbrev mem : ℕ → ℕ
mem = read (
    (0x108, 0xffff_8000_0000_0000)
    ∷ (0x208, 0xffff_8000_000e_0000)
    ∷ (0x308, 0)
    ∷ (0x408, 1)
    ∷ (0x410, 0x500)
    ∷ (0x500, 0x600)
    ∷ (0x600, 0x800_0000)
    ∷ (0x608, 0x800_0000)
    ∷ (0x610, 0)
    ∷ [])

abbrev requests : BootRequests
requests = record {
  base_revision = (0xf956_2b2d_5c95_a6c8, 0x6a7b_3849_4453_6bdc, 0);
  paging = record (paging_mode_request l4) { header = record hhdm_request { response = 0x300 } };
  hhdm = record hhdm_request { response = 0x100 };
  rsdp = record rsdp_request { response = 0x200 };
  memmap = record memmap_request { response = 0x400 };
  l4_table_frame = 0x10_0000;
  handlers = addresses;
}

abbrev Pages : Type 0
Pages = MapperAllocator (List (ℕ × ℕ)) (ℕ → Bool)

abbrev map_pair : Pages → ℕ → ℕ → ℕ → Pages
map_pair s page frame flags = record s { mapper = (page, frame) ∷ s.mapper }

abbrev region : ℕ → ℕ → ℕ × ℕ
region start size = (start, size)

abbrev started : BootRequests → Option (Started (List Descriptor) (List (ℕ × ℕ)) (ℕ → Bool) (ℕ × ℕ))
started r =
    start_memory list_gdt bits rounding_up rounding_down map_pair page_table_flags
      (λ table offset. []) region mem r zeroed
