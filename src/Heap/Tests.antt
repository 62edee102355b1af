-- ===== src/Heap/Tests.antt =====
-- Runs of the heap's theorems on small heaps.
use titanium.Base.{ℕ, suc, ◌+◌, ◌*◌, ◌≤◌, ◌≡◌, refl, sym, ap, ◌⊎◌}
use titanium.Base.{List, [], ◌∷◌, ◌++◌, none, some, arith}
use titanium.Heap.Blocks.{Layout, LinkedHeap, BlockAllocator, list_index, alloc, dealloc}
use titanium.Heap.Aligned.{alloc-IsAligned, alloc-dealloc, IsAligned}
use titanium.Heap.Multiples.{Multiple}
use titanium.X86.{rounding_up, is_power_of_two, is_power_of_two-page, is_canonical}
use titanium.Heap.Regions.{
  ListNode, find_region, add_free_region, find_region_lem, add_free_region-find_region, HasRoom,
  NoneHasRoom, end_addr,
}
use mathlib.Core.Option

abbrev words : Layout
words = record { size = 24; align = 8 }

-- A heap that never runs out: its state is the number of the next block.
abbrev pub counter_heap : LinkedHeap ℕ
counter_heap = record {
  allocate_first_fit = λ h l. some (h * l.align, suc h);
  deallocate = λ h p l. h;
  allocate_first_fit-aligned = λ h l p h' e.
      (h, Option.some-injective p (h * l.align) (sym (ap (λ o. Option.map (λ r. r.0) o) e)));
}

abbrev pub fresh : BlockAllocator ℕ
fresh = record { list_heads = λ i. []; fallback = 3 }

fresh-IsAligned : IsAligned fresh.list_heads
fresh-IsAligned i = tt

alloc-IsAligned_example :
    let (p, a') = alloc counter_heap words fresh in Multiple p 8 × IsAligned a'.list_heads
alloc-IsAligned_example = alloc-IsAligned counter_heap words 3 fresh refl fresh-IsAligned

words_index : list_index words ≡ some 2
unfolding list_index
words_index = refl

alloc-dealloc_example :
    (a' : BlockAllocator ℕ) × (dealloc counter_heap 96 words fresh ≡ some a')
    × IsAligned a'.list_heads
    × ((alloc counter_heap words a').0 ≡ 96)
    × ((j : ℕ) → (alloc counter_heap words a').1.list_heads j ≡ [])
    × ((alloc counter_heap words a').1.fallback ≡ 3)
alloc-dealloc_example =
    alloc-dealloc counter_heap 96 words 2 fresh words_index (3, refl) fresh-IsAligned

abbrev regions : List ListNode
regions = record { start_addr = 8; size = 16 } ∷ record { start_addr = 4100; size = 8192 } ∷ []

find_region_lem_example :
    ((find_region rounding_up regions 64 4096 ≡ some none)
      × NoneHasRoom rounding_up regions 64 4096)
    ⊎ ((before after : List ListNode) × (region : ListNode) × (start : ℕ) × (find_region rounding_up
            regions 64 4096
          ≡ some (some (region, start, before ++ after)))
        × (regions ≡ before ++ region ∷ after)
        × NoneHasRoom rounding_up before 64 4096
        × HasRoom rounding_up region 64 4096
        × ((q : ℕ) × (start ≡ q * 4096))
        × (region.start_addr ≤ start)
        × (start + 64 ≤ end_addr region))
find_region_lem_example =
    find_region_lem rounding_up regions 64 4096 is_power_of_two-page.0
      (omega arith, (omega arith, tt))

add_free_region-find_region_example :
    (free' : List ListNode) × (add_free_region rounding_up 4096 64 regions ≡ some free')
    × (find_region rounding_up free' 64 16
        ≡ some (some (record { start_addr = 4096; size = 64 }, 4096, regions)))
add_free_region-find_region_example =
    add_free_region-find_region rounding_up 4096 64 16 regions (unfold is_power_of_two in refl) refl
      refl (omega arith) (omega arith) (unfold is_canonical in refl) (unfold is_canonical in refl)
