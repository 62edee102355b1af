-- ===== src/Mapping/Clients.antt =====
-- Two regions that the kernel maps at boot: the heap (`heap::init`) and the scheduler's stack
-- (`stack::make_scheduler_stack`).
use titanium.Base.{ℕ, ◌+◌, ◌-◌, ◌*◌, ◌≤◌, ◌≡◌, refl, ap, ◌∙◌, subst, []}
use titanium.Base.{Option, none, some, arith, inl, inr, ◌⊎◌, check, ◌>>=◌, ◌>>◌}
use titanium.Base.Powers.{ceil_log2}
use titanium.Vmem.{
  page_size, heap_start, heap_size, scheduler_stack_bottom_offset, scheduler_stack_top_offset,
  scheduler_sp_offset,
}
use titanium.X86.{is_power_of_two-page, AlignUp, AlignDown, PageTableFlags}
use titanium.Bitvec.{BitArray}
use titanium.Heap.Blocks.{BlockAllocator}
use titanium.Paging.Levels.{total_buddy_bits}
use titanium.Paging.Cover.{cover, frame_count, NoOverlap}
use titanium.Paging.Allocate.{Exhausted}
use titanium.Paging.Trim.{Region}
use titanium.Mapping.Region.{MapperAllocator, map_frames, page_region, page_region_lem}

levels_heap : ceil_log2 4096 ≡ 12
unfolding ceil_log2
levels_heap = refl

levels_stack : ceil_log2 4 ≡ 2
unfolding ceil_log2
levels_stack = refl

module _ {M B : Type 0} (v : BitArray total_buddy_bits B) (up : AlignUp) (down : AlignDown)
    (map_to : MapperAllocator M B → ℕ → ℕ → ℕ → MapperAllocator M B) (f : PageTableFlags) where
  abbrev pub heap_flags : ℕ
  heap_flags = f.union (f.union f.present f.writable) f.bit_11

  -- `init` of the list allocator is a parameter; the lists of blocks start empty.
  unfoldable pub heap_init :
      {H : Type 0}
      → (ℕ → ℕ → H)
      → MapperAllocator M B
      → Option (MapperAllocator M B × BlockAllocator H)
  heap_init fallback_init s = do
    (s', ok) ←
        page_region v up down map_to 0x20_0000 heap_start (heap_start + heap_size) heap_flags s
    check ok
    some (s', record { list_heads = λ i. []; fallback = fallback_init heap_start heap_size })

  abbrev pub stack_flags : ℕ
  stack_flags = f.union (f.union f.present f.writable) f.bit_10

  unfoldable pub make_scheduler_stack : ℕ → MapperAllocator M B → Option (MapperAllocator M B)
  make_scheduler_stack hhdm_top s = do
    let bottom = hhdm_top + scheduler_stack_bottom_offset
    let top = hhdm_top + scheduler_stack_top_offset
    (s', ok) ←
        page_region v up down map_to page_size (bottom + page_size) (top - page_size) stack_flags s
    check ok
    some (map_to (map_to s' bottom 0 f.bit_9) (top - page_size) 0 f.bit_9)

  -- With no frame in two free chunks, setting up the heap panics only where no chunk of 16 MiB or
  -- more is free. Otherwise it maps the heap's eight 2 MiB pages to contiguous frames that were free,
  -- and the block allocator starts with empty lists over the whole region.
  pub heap_init_lem :
      {H : Type 0} (fallback_init : ℕ → ℕ → H) (s : MapperAllocator M B)
      → NoOverlap v s.allocator
      → (Exhausted v s.allocator 12 × (heap_init fallback_init s ≡ none))
        ⊎ ((b : B) × (first : ℕ) × (heap_init fallback_init s
              ≡ some (
                map_frames v up down map_to 8 0x20_0000 heap_start
                    (first * page_size)
                    heap_flags
                    (record s { allocator = b }),
                record { list_heads = λ i. []; fallback = fallback_init heap_start heap_size },
              ))
            × (first + 4096 ≤ frame_count)
            × Region v (cover v s.allocator) b first (first + 4096))
  unfolding heap_init
  heap_init_lem fallback_init s sole =
      let size : ℕ = 0x20_0000 in
      let (q, e) = down.align_down-multiple heap_start size is_power_of_two-page.1 in
      let (r, e') = up.align_up-multiple (heap_start + heap_size) size is_power_of_two-page.1 in
      let low : down.align_down heap_start size ≡ heap_start = omega (
        arith,
        e,
        down.align_down-le heap_start size is_power_of_two-page.1,
        down.align_down-lt heap_start size is_power_of_two-page.1,
      ) in
      let high : up.align_up (heap_start + heap_size) size ≡ heap_start + 8 * size = omega (
        arith,
        e',
        up.align_up-le (heap_start + heap_size) size is_power_of_two-page.1,
        up.align_up-lt (heap_start + heap_size) size is_power_of_two-page.1,
      ) in
      elim (page_region_lem v up down map_to 512 8 heap_start (heap_start + heap_size) heap_flags s
        (omega arith) (omega arith) (omega arith) sole (omega (arith, low, high))) [
          | inl (empty, failed) ↦
              inl (subst (Exhausted v s.allocator) levels_heap empty, rw failed refl)
          | inr (b, first, done, inside, region) ↦ inr (
            b,
            first,
            rw done (
                ap
                  (λ p. some (
                    map_frames v up down map_to 8 size p (first * page_size) heap_flags
                        (record s { allocator = b }),
                    record { list_heads = λ i. []; fallback = fallback_init heap_start heap_size },
                  ))
                  low),
            inside,
            region,
          )
        ]

  -- With the top of the direct map on a page boundary and no frame in two free chunks, the set-up
  -- of the scheduler's stack panics only where no chunk of four pages or more is free. Otherwise it
  -- maps the four pages that end at the scheduler's first stack pointer, and after them the guard
  -- pages below and above.
  pub make_scheduler_stack_lem :
      (hhdm_pages : ℕ) (s : MapperAllocator M B)
      → NoOverlap v s.allocator
      → let hhdm_top = hhdm_pages * page_size in
        let sp = hhdm_top + scheduler_sp_offset in
        (Exhausted v s.allocator 2 × (make_scheduler_stack hhdm_top s ≡ none))
        ⊎ ((b : B) × (first : ℕ) × (make_scheduler_stack hhdm_top s
              ≡ some (
                  map_to
                    (map_to
                      (map_frames v up down map_to 4 page_size
                        (sp - 4 * page_size)
                        (first * page_size)
                        stack_flags
                        (record s { allocator = b }))
                      (sp - 5 * page_size)
                      0
                      f.bit_9)
                    sp
                    0
                    f.bit_9))
            × (first + 4 ≤ frame_count)
            × Region v (cover v s.allocator) b first (first + 4))
  unfolding make_scheduler_stack
  make_scheduler_stack_lem hhdm_pages s sole =
      let bottom = hhdm_pages * page_size + scheduler_stack_bottom_offset in
      let start = bottom + page_size in
      let end = hhdm_pages * page_size + scheduler_stack_top_offset - page_size in
      let sp = hhdm_pages * page_size + scheduler_sp_offset in
      let (q, e) = down.align_down-multiple start page_size is_power_of_two-page.0 in
      let (r, e') = up.align_up-multiple end page_size is_power_of_two-page.0 in
      let low : down.align_down start page_size ≡ sp - 4 * page_size = omega (
        arith,
        e,
        down.align_down-le start page_size is_power_of_two-page.0,
        down.align_down-lt start page_size is_power_of_two-page.0,
      ) in
      let high : up.align_up end page_size ≡ down.align_down start page_size + 4 * page_size =
        omega (
          arith,
          e',
          low,
          up.align_up-le end page_size is_power_of_two-page.0,
          up.align_up-lt end page_size is_power_of_two-page.0,
        ) in
      let below : bottom ≡ sp - 5 * page_size = omega arith in
      let above : end ≡ sp = omega arith in
      elim (page_region_lem v up down map_to 1 4 start end stack_flags s (omega arith) (omega arith)
        (omega arith) sole high) [
          | inl (empty, failed) ↦
              inl (subst (Exhausted v s.allocator) levels_stack empty, rw failed refl)
          | inr (b, first, done, inside, region) ↦
              let guards = λ (p bottom end : ℕ). some (
                map_to
                  (map_to
                    (map_frames v up down map_to 4 page_size p (first * page_size) stack_flags
                      (record s { allocator = b }))
                    bottom 0 f.bit_9)
                  end 0 f.bit_9) in
              inr (
                b,
                first,
                rw done (
                    ap (λ p. guards p bottom end) low
                    ∙ ap (λ p. guards (sp - 4 * page_size) p end) below
                    ∙ ap (guards (sp - 4 * page_size) (sp - 5 * page_size)) above),
                inside,
                region,
              )
        ]
