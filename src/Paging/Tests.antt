-- ===== src/Paging/Tests.antt =====
-- The frame allocator at concrete inputs.
use titanium.Base.{ℕ, ◌+◌, ◌*◌, ◌≤◌, ◌<◌, ◌≡◌, refl, ◌⊎◌}
use titanium.Base.{Bool, true, false, some, List, [], ◌∷◌, arith}
use mathlib.Core.Option
use titanium.Vmem.{page_size}
use titanium.Limine.{MemmapEntry, usable, reserved}
use titanium.Bitvec.{BitArray, bit_function, set_checked}
use titanium.Base.Powers.{ceil_log2}
use titanium.Paging.Levels.{
  level_offset, level_len, total_buddy_bits, level_2mib, level_2mib_len, absolute_to_relative,
  relative_index_to_addr, level_offset_checked,
}
use titanium.Paging.Allocator.{
  allocate_chunk_from_level, allocate_found, split_chunk, allocate_frame_4kib,
  deallocate_frame_4kib, deallocate_frame_2mib, pick_off_contiguous,
}
use titanium.Paging.Cover.{
  cover, cover-set, cover-zeroed, chunk, frame_count, within, NoOverlap, chunk-set,
}
use titanium.Paging.Allocate.{Allocates, Exhausted, allocate_chunk_from_level_lem}
use titanium.Paging.Free.{
  deallocate_frame_4kib_lem, deallocate-allocate_4kib, deallocate_frame_2mib_lem,
}
use titanium.Paging.Trim.{Region}
use titanium.Paging.Pick.{pick_off_contiguous_lem}
use titanium.Paging.Init.{new, mark_entries, mark_entry, mark_levels, align_start, align_end}
use titanium.Paging.Ledger.{Reach, start, later, allocate_4kib, claim, Reach-Balanced}
use titanium.Paging.Init.Marking.{usable_count, new_lem}

abbrev pub bits : BitArray total_buddy_bits (ℕ → Bool)
bits = bit_function total_buddy_bits

abbrev pub zeroed : ℕ → Bool
zeroed i = false

-- The array with just page 0 free, and that page taken.
page_free : ℕ → Bool
page_free = bits.set zeroed (0 + level_offset 0) true

page_taken : ℕ → Bool
page_taken = bits.set page_free (0 + level_offset 0) false

page_free-NoOverlap : NoOverlap bits page_free
unfolding page_free bit_function
page_free-NoOverlap f hf = ground (
  arith,
  cover-set bits zeroed 0 0 true f (omega arith) (unfold level_len in omega arith) hf,
  cover-zeroed bits zeroed f (λ i. refl),
)

page_allocated : allocate_frame_4kib bits page_free ≡ some (page_taken, some 0)
unfolding page_free page_taken bit_function level_offset total_buddy_bits allocate_frame_4kib
    allocate_chunk_from_level allocate_found split_chunk absolute_to_relative level_offset_checked
    set_checked relative_index_to_addr
page_allocated = refl

-- One free chunk: the second of the top level, 128 MiB from address 0x800_0000 on.
pub one_free : ℕ → Bool
one_free = bits.set zeroed (1 + level_offset 15) true

one_free-cover : (f : ℕ) → f < frame_count → cover bits one_free f ≡ within 15 1 f
unfolding one_free bit_function
one_free-cover f hf = ground (
  arith,
  cover-set bits zeroed 15 1 true f (omega arith) (unfold level_len in omega arith) hf,
  cover-zeroed bits zeroed f (λ i. refl),
)

pub one_free-NoOverlap : NoOverlap bits one_free
one_free-NoOverlap f hf = ground (arith, one_free-cover f hf)

allocate_chunk_from_level_lem_example :
    Allocates bits one_free 0 (allocate_chunk_from_level bits one_free 0)
allocate_chunk_from_level_lem_example =
    allocate_chunk_from_level_lem bits one_free 0 (omega arith) one_free-NoOverlap

deallocate_frame_4kib_lem_example :
    (b' : ℕ → Bool) × (deallocate_frame_4kib bits one_free (3 * page_size) ≡ some b')
    × ((g : ℕ) → g < frame_count → cover bits b' g ≡ cover bits one_free g + within 0 3 g)
deallocate_frame_4kib_lem_example =
    deallocate_frame_4kib_lem bits one_free 3 (omega arith) one_free-NoOverlap
      (one_free-cover 3 (omega arith))

unmarked : chunk bits one_free level_2mib 5 ≡ false
unfolding one_free bit_function level_offset
unmarked = refl

deallocate_frame_2mib_lem_example :
    (b' : ℕ → Bool) × (deallocate_frame_2mib bits one_free (5 * 0x20_0000) ≡ some b')
    × ((g : ℕ) → g < frame_count → cover bits b' g ≡ cover bits one_free g + within 0 5 g)
deallocate_frame_2mib_lem_example =
    deallocate_frame_2mib_lem bits one_free 5 (omega (arith, level_2mib_len)) unmarked
      (one_free-cover 5 (omega arith))

pick_off_contiguous_lem_example :
    Exhausted bits one_free (ceil_log2 5)
    ⊎ ((b' : ℕ → Bool) × (first : ℕ) × (pick_off_contiguous bits one_free 5 1
          ≡ some (b', some (first * page_size, 5)))
        × (first + 5 ≤ frame_count)
        × Region bits (cover bits one_free) b' first (first + 5))
pick_off_contiguous_lem_example =
    pick_off_contiguous_lem bits one_free 5 1 one_free-NoOverlap (omega arith) (omega arith)
      (omega arith)

-- The allocator with every chunk of level 3 and above taken, and a free chunk of level 2.
small_only : ℕ → Bool
small_only = bits.set zeroed (0 + level_offset 2) true

small_only-Exhausted : Exhausted bits small_only 3
unfolding small_only bit_function
small_only-Exhausted m i lm hm hi =
    ground
      (arith, chunk-set bits zeroed 2 0 true m i (omega arith) (unfold level_len in omega arith) hi)

eight : 3 ≡ ceil_log2 8
unfolding ceil_log2
eight = refl

deallocate-allocate_4kib_run :
    (b'' : ℕ → Bool) × (deallocate_frame_4kib bits page_taken 0 ≡ some b'')
    × ((g : ℕ) → g < frame_count → cover bits b'' g ≡ cover bits page_free g)
deallocate-allocate_4kib_run =
    deallocate-allocate_4kib bits page_free page_taken 0 page_free-NoOverlap page_allocated

-- A chunk of the top level, split twice for a request of level 13.
split_twice :
    Option.map (λ r. r.1) (allocate_chunk_from_level bits one_free 13) ≡ some (some 0x800_0000)
unfolding one_free bit_function level_offset total_buddy_bits allocate_chunk_from_level
    allocate_found split_chunk absolute_to_relative level_offset_checked set_checked
    relative_index_to_addr
split_twice = refl

abbrev memmap : List MemmapEntry
memmap =
    record { base = 0x1000; length = 0x9_e000; ty = usable }
    ∷ record { base = 0x9_f000; length = 0x1000; ty = reserved }
    ∷ []

new_lem_example :
    (b : ℕ → Bool) × (new bits zeroed memmap ≡ some b)
    × ((f : ℕ) → f < frame_count → cover bits b f ≡ usable_count memmap f)
new_lem_example =
    new_lem bits zeroed memmap (λ i. unfold bit_function in refl) (ground arith)
      (λ f hf. ground arith)

abbrev first_page : List MemmapEntry
first_page = record { base = 0; length = 0x1000; ty = usable } ∷ []

first_page-new : new bits zeroed first_page ≡ some page_free
unfolding page_free bit_function new mark_entries mark_entry mark_levels align_start align_end
    level_offset total_buddy_bits set_checked
first_page-new = refl

page_reached :
    Reach bits zeroed first_page (record { bits = page_taken; held = λ f. 0 + claim 0 (some 0) f })
page_reached = later (start first_page-new) (allocate_4kib page_allocated)

Reach-Balanced_example :
    cover bits page_taken 0 + (0 + claim 0 (some 0) 0) ≡ usable_count first_page 0
Reach-Balanced_example =
    Reach-Balanced bits first_page (λ f hf. ground arith) zeroed
      (record { bits = page_taken; held = λ f. 0 + claim 0 (some 0) f })
      (λ i. unfold bit_function in refl) (ground arith) page_reached 0 (omega arith)
