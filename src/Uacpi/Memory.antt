-- ===== src/Uacpi/Memory.antt =====
-- Allocation for uACPI (uacpi.rs), on the kernel's allocator: each block starts with a word that
-- holds its size, in front of the address that uACPI gets. As in the code, the pointer that the
-- allocator returns is not tested for null.
use titanium.Base.{ℕ, ◌+◌, ◌-◌, ◌≤◌, ◌<◌, ◌≡◌, refl, ap, ◌∙◌, inl, inr}
use titanium.Base.{Option, none, some, ◌==◌, if◌then◌else◌, arith, ==_refl, lt→ltb}
use titanium.Heap.Blocks.{Layout, LinkedHeap, BlockAllocator, alloc, dealloc, list_index}
use titanium.Heap.Classes.{list_index_lem}
use titanium.Heap.Aligned.{dealloc-small, alloc-head, freed, list_index-large_enough}

-- Memory holds words; a write is seen at its own address.
abbrev pub write_word : (ℕ → ℕ) → ℕ → ℕ → ℕ → ℕ
write_word mem a x b = if a == b then x else mem b

-- `Layout::from_size_align_unchecked(size + size_of::<u64>(), 8)`; `size` is taken to leave room for the
-- word below 2 ^ 64.
abbrev pub header_layout : ℕ → Layout
header_layout size = record { size = size + 8; align = 8 }

module _ {H : Type 0} (heap : LinkedHeap H) where
  unfoldable pub kernel_alloc : ℕ → (ℕ → ℕ) → BlockAllocator H → ℕ × (ℕ → ℕ) × BlockAllocator H
  kernel_alloc size mem a =
      let (ptr, a') = alloc heap (header_layout size) a in (ptr + 8, write_word mem ptr size, a')

  unfoldable pub kernel_free : ℕ → (ℕ → ℕ) → BlockAllocator H → Option (BlockAllocator H)
  kernel_free addr mem a =
      let ptr = addr - 8 in let size = mem ptr in dealloc heap ptr (header_layout size) a

  dealloc-large :
      (ptr : ℕ) (l : Layout) (a : BlockAllocator H)
      → list_index l ≡ none
      → 0 < ptr
      → dealloc heap ptr l a ≡ some (record a { fallback = heap.deallocate a.fallback ptr l })
  unfolding dealloc
  dealloc-large ptr l a out pos = rw (out, lt→ltb 0 ptr pos, dealloc) refl

  free-same :
      (size : ℕ) (mem mem' : ℕ → ℕ) (a : BlockAllocator H)
      → let (p, mem1, a1) = kernel_alloc size mem a in
        mem' (p - 8) ≡ mem1 (p - 8)
        → kernel_free p mem' a1 ≡ dealloc heap (p - 8) (header_layout size) a1
  unfolding kernel_alloc kernel_free
  free-same size mem mem' a kept =
      let ptr = (alloc heap (header_layout size) a).0 in
      let a1 = (alloc heap (header_layout size) a).1 in
      let back : ptr + 8 - 8 ≡ ptr = omega arith in
      let header : mem' (ptr + 8 - 8) ≡ size = kept ∙ rw back (rw (==_refl ptr) refl) in
      ap (λ n. dealloc heap (ptr + 8 - 8) (header_layout n) a1) header

  again :
      (size : ℕ) (mem : ℕ → ℕ) (a : BlockAllocator H)
      → (kernel_alloc size mem a).0 ≡ (alloc heap (header_layout size) a).0 + 8
  unfolding kernel_alloc
  again size mem a = refl

  -- A block that uACPI got and whose header word it kept is freed without a panic, by a call with
  -- the layout that it was allocated with; if the block is of a class of the kernel's allocator, the
  -- next block of the same size has the same address.
  pub kernel_free-alloc :
      (size : ℕ) (mem mem' : ℕ → ℕ) (a : BlockAllocator H)
      → let (p, mem1, a1) = kernel_alloc size mem a in
        0 < p - 8
        → mem' (p - 8) ≡ mem1 (p - 8)
        → (a2 : BlockAllocator H) × (kernel_free p mem' a1 ≡ some a2)
          × (dealloc heap (p - 8) (header_layout size) a1 ≡ some a2)
          × (size + 8 ≤ 2048 → (kernel_alloc size mem' a2).0 ≡ p)
  kernel_free-alloc size mem mem' a found kept =
      let (p, mem1, a1) = kernel_alloc size mem a in
      let l = header_layout size in
      let freeing = free-same size mem mem' a kept in
      elim (list_index_lem l) [
        | inl (out, large) ↦
            let done = dealloc-large (p - 8) l a1 out found in
            (
              record a1 { fallback = heap.deallocate a1.fallback (p - 8) l },
              freeing ∙ done,
              done,
              λ small. absurd (ground arith),
            )
        | inr (i, out, bound, width, fits, smaller) ↦
            let done =
              dealloc-small heap (p - 8) l i a1 out (list_index-large_enough heap l i out) in
            let a2 = freed heap (p - 8) i a1 in
            let head = alloc-head heap l i (p - 8) (a1.list_heads i) a2 out (rw (==_refl i) refl) in
            (
              a2,
              freeing ∙ done,
              done,
              λ small. again size mem' a2 ∙ ap (λ r. r.0 + 8) head ∙ omega arith,
            )
      ]
