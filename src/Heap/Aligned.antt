-- ===== src/Heap/Aligned.antt =====
-- The blocks that the heap hands out: large enough, aligned, and reused last in, first out.
use titanium.Base.{ℕ, ◌+◌, ◌^◌, ◌≤◌, ◌≡◌, refl, sym, ap, ◌∙◌, subst, inl, inr}
use titanium.Base.{List, ◌∷◌, some, arith, true, Bool-cases, leb}
use titanium.Base.{==_refl, List-cases, ◌==◌, Option-cases, ==_iff, le→leb}
use mathlib.Core.Option
use native.Mathlib.Nat.{one-le-pow}
use titanium.Base.Powers.{pow_add}
use titanium.Heap.Multiples.{Multiple, Multiple-zero, pow-le_inverse, Multiple-power, Multiples}
use titanium.Heap.Blocks.{
  Layout, LinkedHeap, BlockAllocator, block_size, list_index, alloc, dealloc, fallback_alloc,
  set_head,
}
use titanium.Heap.Classes.{request, list_index_lem}

align-le-request : (l : Layout) → l.align ≤ request l
align-le-request l = ground arith

-- Every free block is a multiple of its class's size.
abbrev pub IsAligned : (ℕ → List ℕ) → Type 0
IsAligned heads = (i : ℕ) → Multiples (heads i) (2 ^ (i + 3))

set_head-IsAligned :
    (heads : ℕ → List ℕ) (i : ℕ) (xs : List ℕ)
    → IsAligned heads
    → Multiples xs (2 ^ (i + 3))
    → IsAligned (set_head heads i xs)
set_head-IsAligned heads i xs good m j = elim (Bool-cases (i == j)) [
  | inl e ↦ rw e (subst (λ n. Multiples xs (2 ^ (n + 3))) ((==_iff i j).0 e) m)
  | inr e ↦ rw e (good j)
]

module _ {H : Type 0} (heap : LinkedHeap H) where
  fallback_alloc-aligned :
      (l : Layout) (a : BlockAllocator H)
      → let (p, a') = fallback_alloc heap l a in Multiple p l.align × (a'.list_heads ≡ a.list_heads)
  unfolding fallback_alloc
  fallback_alloc-aligned l a = elim (Option-cases (heap.allocate_first_fit a.fallback l)) [
    | inl e ↦ rw (e, fallback_alloc) (Multiple-zero l.align, refl)
    | inr ((p, h), e) ↦
        rw (e, fallback_alloc) (heap.allocate_first_fit-aligned a.fallback l p h e, refl)
  ]

  -- From free lists whose blocks are multiples of their class's size, an allocation returns an
  -- address that is a multiple of the requested alignment, a power of two, and keeps the free lists
  -- so. (The null pointer is such an address.)
  pub alloc-IsAligned :
      (l : Layout) (k : ℕ) (a : BlockAllocator H)
      → l.align ≡ 2 ^ k
      → IsAligned a.list_heads
      → let (p, a') = alloc heap l a in Multiple p l.align × IsAligned a'.list_heads
  unfolding alloc
  alloc-IsAligned l k a power good = elim (list_index_lem l) [
    | inl (out, large) ↦
        let (m, same) = fallback_alloc-aligned l a in
        rw (out, alloc) (m, subst IsAligned (sym same) good)
    | inr (i, out, bound, size, fits, smaller) ↦
        let low : k ≤ i + 3 = pow-le_inverse k (i + 3) (omega (arith, align-le-request l)) in
        elim (List-cases (a.list_heads i)) [
          | inl e ↦
              let block : Layout = record { size = block_size i; align = block_size i } in
              let (m, same) = fallback_alloc-aligned block a in
              rw (out, e, alloc)
                (
                  rw power (
                      Multiple-power _ (i + 3) k low
                        (subst (λ n. Multiple (fallback_alloc heap block a).0 n) size m)),
                  subst IsAligned (sym same) good,
                )
          | inr (x, xs, e) ↦
              let blocks : Multiples (x ∷ xs) (2 ^ (i + 3)) =
                subst (λ l. Multiples l (2 ^ (i + 3))) e (good i) in
              rw (out, e, alloc)
                (
                  rw power (Multiple-power x (i + 3) k low blocks.0),
                  set_head-IsAligned a.list_heads i xs good blocks.1,
                )
        ]
  ]

  abbrev pub freed : ℕ → ℕ → BlockAllocator H → BlockAllocator H
  freed ptr i a = record a { list_heads = set_head a.list_heads i (ptr ∷ a.list_heads i) }

  pub dealloc-small :
      (ptr : ℕ) (l : Layout) (i : ℕ) (a : BlockAllocator H)
      → list_index l ≡ some i
      → leb 8 (block_size i) ≡ true
      → dealloc heap ptr l a ≡ some (freed ptr i a)
  unfolding dealloc
  dealloc-small ptr l i a index size = rw (index, size, dealloc) refl

  pub alloc-head :
      (l : Layout) (i x : ℕ) (xs : List ℕ) (a : BlockAllocator H)
      → list_index l ≡ some i
      → a.list_heads i ≡ x ∷ xs
      → alloc heap l a ≡ (x, record a { list_heads = set_head a.list_heads i xs })
  unfolding alloc
  alloc-head l i x xs a index e = rw (index, e, alloc) refl

  pub list_index-large_enough :
      (l : Layout) (i : ℕ) → list_index l ≡ some i → leb 8 (block_size i) ≡ true
  list_index-large_enough l i index = elim (list_index_lem l) [
    | inl (out, _) ↦ absurd (Option.none-ne-some i (sym out ∙ index))
    | inr (j, out, bound, size, fits, smaller) ↦
        let same : j ≡ i = Option.some-injective j i (sym out ∙ index) in
        subst (λ j. leb 8 (block_size j) ≡ true) same
          (le→leb 8 (block_size j) (omega (arith, sym (pow_add j 3), one-le-pow j 2 (omega arith))))
  ]

  set_head-twice :
      (heads : ℕ → List ℕ) (i : ℕ) (xs : List ℕ) (j : ℕ)
      → set_head (set_head heads i xs) i (heads i) j ≡ heads j
  set_head-twice heads i xs j = elim (Bool-cases (i == j)) [
    | inl e ↦ rw e (ap heads ((==_iff i j).0 e))
    | inr e ↦ rw e refl
  ]

  -- Where a request has a class and the address is a multiple of the class's size, freeing returns
  -- normally and keeps the free lists aligned, and the next allocation of the same layout returns
  -- the same address and restores the free lists and the fallback heap.
  pub alloc-dealloc :
      (ptr : ℕ) (l : Layout) (i : ℕ) (a : BlockAllocator H)
      → list_index l ≡ some i
      → Multiple ptr (2 ^ (i + 3))
      → IsAligned a.list_heads
      → (a' : BlockAllocator H) × (dealloc heap ptr l a ≡ some a')
        × IsAligned a'.list_heads
        × ((alloc heap l a').0 ≡ ptr)
        × ((j : ℕ) → (alloc heap l a').1.list_heads j ≡ a.list_heads j)
        × ((alloc heap l a').1.fallback ≡ a.fallback)
  alloc-dealloc ptr l i a index m good =
      let a' = freed ptr i a in
      let back = alloc-head l i ptr (a.list_heads i) a' index (rw (==_refl i) refl) in
      (
        a',
        dealloc-small ptr l i a index (list_index-large_enough l i index),
        set_head-IsAligned a.list_heads i (ptr ∷ a.list_heads i) good (m, good i),
        ap (λ r. r.0) back,
        λ j.
            ap (λ r. r.1.list_heads j) back
            ∙ set_head-twice a.list_heads i (ptr ∷ a.list_heads i) j,
        ap (λ r. r.1.fallback) back,
      )
