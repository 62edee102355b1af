-- ===== src/Heap/Blocks.antt =====
-- `FixedSizeBlockAllocator` (heap.rs). A free list is the list of the addresses of its nodes, the
-- head first; an address 0 is the null pointer. The `linked_list_allocator` crate is a parameter.
use titanium.Base.{ℕ, suc, ◌*◌, ◌≡◌}
use titanium.Base.{
  List, [], ◌∷◌, Option, none, some, ◌==◌, if◌then◌else◌, leb, ltb, check, ◌>>◌, get_elem?,
}
use mathlib.Core.Option

pub record Layout : Type 0 where
  pub size : ℕ
  pub align : ℕ

-- `linked_list_allocator::Heap`: it hands out addresses that are aligned as asked.
pub record LinkedHeap (H : Type 0) : Type 0 where
  pub allocate_first_fit : H → Layout → Option (ℕ × H)
  pub deallocate : H → ℕ → Layout → H
  pub allocate_first_fit-aligned :
      (h : H) (l : Layout) (p : ℕ) (h' : H)
      → allocate_first_fit h l ≡ some (p, h')
      → (q : ℕ) × (p ≡ q * l.align)

abbrev pub block_sizes : List ℕ
block_sizes = 8 ∷ 16 ∷ 32 ∷ 64 ∷ 128 ∷ 256 ∷ 512 ∷ 1024 ∷ 2048 ∷ []

-- The first element from `req` on, by its position.
abbrev pub position : ℕ → List ℕ → Option ℕ
position req [] = none
position req (s ∷ ss) = if leb req s then some 0 else Option.map suc (position req ss)

abbrev pub max : ℕ → ℕ → ℕ
max a b = if leb a b then b else a

unfoldable pub list_index : Layout → Option ℕ
list_index layout = position (max layout.size layout.align) block_sizes

-- `BLOCK_SIZES[index]`, 0 past its end.
abbrev pub block_size : ℕ → ℕ
block_size index = Option.get_or (get_elem? block_sizes index) 0

pub record BlockAllocator (H : Type 0) : Type 0 where
  pub list_heads : ℕ → List ℕ
  pub fallback : H

-- `core::mem::size_of::<ListNode>()` and `core::mem::align_of::<ListNode>()`
abbrev pub node_size : ℕ
node_size = 8

abbrev pub node_align : ℕ
node_align = 8

abbrev pub set_head : (ℕ → List ℕ) → ℕ → List ℕ → ℕ → List ℕ
set_head heads i x j = if i == j then x else heads j

module _ {H : Type 0} (heap : LinkedHeap H) where
  unfoldable pub fallback_alloc : Layout → BlockAllocator H → ℕ × BlockAllocator H
  fallback_alloc layout a = elim (heap.allocate_first_fit a.fallback layout) [
    | some (ptr, h) ↦ (ptr, record a { fallback = h })
    | none ↦ (0, a)
  ]

  unfoldable pub alloc : Layout → BlockAllocator H → ℕ × BlockAllocator H
  alloc layout a = elim (list_index layout) [
    | some index ↦ elim (a.list_heads index) [
      | node ∷ next ↦ (node, record a { list_heads = set_head a.list_heads index next })
      | [] ↦ fallback_alloc (record { size = block_size index; align = block_size index }) a
    ]
    | none ↦ fallback_alloc layout a
  ]

  unfoldable pub dealloc : ℕ → Layout → BlockAllocator H → Option (BlockAllocator H)
  dealloc ptr layout a = elim (list_index layout) [
    | some index ↦ do
      check (leb node_size (block_size index))
      check (leb node_align (block_size index))
      some (record a { list_heads = set_head a.list_heads index (ptr ∷ a.list_heads index) })
    | none ↦ do
      check (ltb 0 ptr)
      some (record a { fallback = heap.deallocate a.fallback ptr layout })
  ]
