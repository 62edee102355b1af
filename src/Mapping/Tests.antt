-- ===== src/Mapping/Tests.antt =====
-- The regions mapped from an allocator with one free chunk, 128 MiB from address 0x800_0000 on. The
-- page tables are the list of the mapped pairs of a page and a frame, the latest first.
use titanium.Base.{ℕ, ◌+◌, ◌*◌, ◌≤◌, ◌≡◌, ◌⊎◌, refl, Bool, true, false, some, List, [], ◌∷◌, arith}
use titanium.Vmem.{page_size, scheduler_sp_offset}
use titanium.X86.{rounding_up, rounding_down}
use titanium.Base.Powers.{ceil_log2}
use titanium.Paging.Cover.{cover, frame_count}
use titanium.Paging.Allocate.{Exhausted}
use titanium.Paging.Trim.{Region}
use titanium.Paging.Tests.{bits, one_free, one_free-NoOverlap}
use titanium.Mapping.Region.{MapperAllocator, map_frames, page_region, page_region_lem}

abbrev Tables : Type 0
Tables = MapperAllocator (List (ℕ × ℕ)) (ℕ → Bool)

abbrev note_pair : Tables → ℕ → ℕ → ℕ → Tables
note_pair s page frame flags = record s { mapper = (page, frame) ∷ s.mapper }

abbrev boot : Tables
boot = record { mapper = []; allocator = one_free }

abbrev noted : ℕ → ℕ → ℕ → ℕ → ℕ → Tables → Tables
noted = map_frames bits rounding_up rounding_down note_pair

page_region_lem_example :
    (Exhausted bits one_free (ceil_log2 3)
      × (page_region bits rounding_up rounding_down note_pair 0x1000 0x5010 0x7020 3 boot
          ≡ some (boot, false)))
    ⊎ ((b : ℕ → Bool) × (first : ℕ) × (page_region bits rounding_up rounding_down note_pair 0x1000
            0x5010 0x7020 3 boot
          ≡ some
              (noted 3 0x1000 0x5000 (first * page_size) 3 (record boot { allocator = b }), true))
        × (first + 3 ≤ frame_count)
        × Region bits (cover bits one_free) b first (first + 3))
page_region_lem_example =
    page_region_lem bits rounding_up rounding_down note_pair 1 3 0x5010 0x7020 3 boot (omega arith)
      (omega arith) (omega arith) one_free-NoOverlap refl

abbrev stack_top : ℕ
stack_top = 0x20_0000_0000 + scheduler_sp_offset
