-- ===== src/Heap/Regions.antt =====
-- `LinkedListAllocator` (heap/ll.rs): first fit over a list of free regions. A region is its node's
-- address and size; `align_up` of the `x86_64` crate is a parameter.
use titanium.Base.{ℕ, ◌+◌, ◌-◌, ◌*◌, ◌^◌, ◌≤◌, ◌<◌, ◌≡◌, refl, ap, ◌⊎◌, inl, inr}
use titanium.Base.{List, [], ◌∷◌, ◌++◌, Option, none, some, arith}
use titanium.Base.{◌==◌, if◌then◌else◌, check, ◌>>◌, leb, ltb, lt→ltb, true, false}
use mathlib.Core.Option
use titanium.X86.{AlignUp, is_power_of_two, is_power_of_two-bounds, is_canonical}

pub record ListNode : Type 0 where
  pub start_addr : ℕ
  pub size : ℕ

abbrev pub end_addr : ListNode → ℕ
end_addr node = node.start_addr + node.size

-- The size and the alignment of a node in memory.
abbrev pub node_size : ℕ
node_size = 16

abbrev pub node_align : ℕ
node_align = 8

module _ (x86 : AlignUp) where
  -- `add_free_region`, on the list behind the head node.
  unfoldable pub add_free_region : ℕ → ℕ → List ListNode → Option (List ListNode)
  add_free_region addr size free = do
    check (x86.align_up addr node_align == addr)
    check (leb node_size size)
    some (record { start_addr = addr; size = size } ∷ free)

  -- `none` is a panic, of `align_up` or of an address; `some none` is `Err`.
  unfoldable pub alloc_from_region : ListNode → ℕ → ℕ → Option (Option ℕ)
  alloc_from_region region size align = do
    check (is_power_of_two align)
    let alloc_start = x86.align_up region.start_addr align
    check (ltb alloc_start (2 ^ 64))
    let alloc_end = alloc_start + size
    let excess = end_addr region - alloc_end
    if ltb alloc_end (2 ^ 64)
        then check (is_canonical (end_addr region))
          >> (if ltb (end_addr region) alloc_end
              then some none
              else (if (if ltb 0 excess then ltb excess node_size else false)
                  then some none
                  else check (is_canonical alloc_start) >> some (some alloc_start)))
        else some none

  -- The region found, the start in it, and the list without it; `some none` where none is found.
  unfoldable pub find_region :
      List ListNode → ℕ → ℕ → Option (Option (ListNode × ℕ × List ListNode))
  find_region [] size align = some none
  find_region (region ∷ rest) size align =
      let further = find_region rest size align in
      elim (alloc_from_region region size align) [
        | none ↦ none
        | some (some alloc_start) ↦ some (some (region, alloc_start, rest))
        | some none ↦ Option.map (Option.map (λ f. (f.0, f.1, region ∷ f.2))) further
      ]

  -- From its aligned start on, the region holds the request, and what is left behind it is nothing
  -- or room for a node.
  abbrev pub HasRoom : ListNode → ℕ → ℕ → Type 0
  HasRoom region size align =
      let alloc_end = x86.align_up region.start_addr align + size in
      (alloc_end < 2 ^ 64)
      × (alloc_end ≤ end_addr region)
      × ((alloc_end ≡ end_addr region) ⊎ (alloc_end + node_size ≤ end_addr region))

  -- Below 2 ^ 47 no address is refused.
  alloc_from_region-cases :
      (region : ListNode) (size align : ℕ)
      → is_power_of_two align ≡ true
      → end_addr region < 2 ^ 47
      → ((alloc_from_region region size align ≡ some (some (x86.align_up region.start_addr align)))
          × HasRoom region size align)
        ⊎ ((alloc_from_region region size align ≡ some none) × (HasRoom region size align → ⊥))
  unfolding alloc_from_region is_canonical
  alloc_from_region-cases region size align power low =
      let start = x86.align_up region.start_addr align in
      let near : start < 2 ^ 64 = omega (
        arith,
        x86.align_up-lt region.start_addr align power,
        is_power_of_two-bounds align power,
      ) in
      rw (power, lt→ltb start (2 ^ 64) near) (ground arith)

  -- All regions of a list lack the room.
  abbrev pub NoneHasRoom : List ListNode → ℕ → ℕ → Type 0
  NoneHasRoom [] size align = Unit
  NoneHasRoom (region ∷ rest) size align =
      (HasRoom region size align → ⊥) × NoneHasRoom rest size align

  -- All regions of a list end in the lower half of the addresses, where the heap is.
  abbrev pub AllLow : List ListNode → Type 0
  AllLow [] = Unit
  AllLow (region ∷ rest) = (end_addr region < 2 ^ 47) × AllLow rest

  -- Where all regions end in the lower half of the addresses, a search for an alignment that is a power
  -- of two does not panic. It takes the first region that has room for the request and takes it out
  -- of the list, the others left as they are; the start that it returns is aligned and the request
  -- lies in the region. It finds nothing only where no region has the room.
  pub find_region_lem :
      (free : List ListNode) (size align : ℕ)
      → is_power_of_two align ≡ true
      → AllLow free
      → ((find_region free size align ≡ some none) × NoneHasRoom free size align)
        ⊎ ((before after : List ListNode) × (region : ListNode) × (start : ℕ) × (find_region free
                size align
              ≡ some (some (region, start, before ++ after)))
            × (free ≡ before ++ region ∷ after)
            × NoneHasRoom before size align
            × HasRoom region size align
            × ((q : ℕ) × (start ≡ q * align))
            × (region.start_addr ≤ start)
            × (start + size ≤ end_addr region))
  unfolding find_region
  find_region_lem [] size align power low = inl (refl, tt)
  find_region_lem (region ∷ rest) size align power low =
      elim (alloc_from_region-cases region size align power low.0) [
        | inl (out, room) ↦ inr (
          [],
          rest,
          region,
          x86.align_up region.start_addr align,
          rw (out, find_region) refl,
          refl,
          tt,
          room,
          x86.align_up-multiple region.start_addr align power,
          x86.align_up-le region.start_addr align power,
          room.1,
        )
        | inr (out, lacks) ↦ elim (find_region_lem rest size align power low.1) [
          | inl (none_further, all) ↦ inl (rw (out, none_further, find_region) refl, (lacks, all))
          | inr
                (
                  before, after, found, start, further, split, none_before, room, aligned, above,
                  below,
                ) ↦
              inr (
                region ∷ before,
                after,
                found,
                start,
                rw (out, further, find_region) refl,
                ap (λ l. region ∷ l) split,
                (lacks, none_before),
                room,
                aligned,
                above,
                below,
              )
        ]
      ]

  -- A region of at least 16 bytes between two addresses, aligned for a node and for a request of its
  -- size and a power of two, is given back without a panic, and a search with that request finds it first and leaves the rest.
  pub add_free_region-find_region :
      (addr size align : ℕ) (free : List ListNode)
      → is_power_of_two align ≡ true
      → x86.align_up addr 8 ≡ addr
      → x86.align_up addr align ≡ addr
      → 16 ≤ size
      → addr + size < 2 ^ 64
      → is_canonical addr ≡ true
      → is_canonical (addr + size) ≡ true
      → (free' : List ListNode) × (add_free_region addr size free ≡ some free')
        × (find_region free' size align
            ≡ some (some (record { start_addr = addr; size = size }, addr, free)))
  unfolding add_free_region find_region alloc_from_region
  add_free_region-find_region addr size align free power node start large bound low high =
      let region : ListNode = record { start_addr = addr; size = size } in
      let fits : alloc_from_region region size align ≡ some (some addr) =
        rw (power, start, low, high) (ground arith) in
      (region ∷ free, ground arith, rw (fits, find_region) refl)
