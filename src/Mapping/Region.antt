-- ===== src/Mapping/Region.antt =====
-- `MapperAllocator::page_region` (paging/mapall.rs). `map_to` of the `x86_64` crate is a parameter: it
-- changes the page tables and takes frames for them from the allocator, and the code here does not
-- read its result. `none` is a panic, or fuel that ran out.
use titanium.Base.{ℕ, zero, suc, ◌+◌, ◌-◌, ◌*◌, ◌/◌, ◌^◌, ◌≤◌, ◌<◌, ◌≡◌, refl, sym, ap, ◌∙◌, subst}
use titanium.Base.{
  Bool, true, false, Option, none, some, arith, inl, inr, ◌⊎◌, ◌==◌, ◌>>=◌, ◌>>◌, check, leb,
  le→leb, le_refl,
}
use native.Mathlib.Nat.{mul_assoc, mul-div_cancel}
use titanium.Base.Powers.{ceil_log2, ceil_log2_lem}
use titanium.Vmem.{page_size}
use titanium.X86.{AlignUp, AlignDown}
use titanium.Bitvec.{BitArray}
use titanium.Paging.Levels.{total_buddy_bits, buddy_levels}
use titanium.Paging.Allocator.{pick_off_contiguous}
use titanium.Paging.Cover.{cover, frame_count, NoOverlap}
use titanium.Paging.Allocate.{Exhausted}
use titanium.Paging.Trim.{Region}
use titanium.Paging.Pick.{pick_off_contiguous_lem, pick_off_contiguous-none}

pub record MapperAllocator (M B : Type 0) : Type 0 where
  pub mapper : M
  pub allocator : B

module _ {M B : Type 0} (v : BitArray total_buddy_bits B) (up : AlignUp) (down : AlignDown)
    (map_to : MapperAllocator M B → ℕ → ℕ → ℕ → MapperAllocator M B) where
  -- `for i in 0..n_mapped`, from the page and the frame at hand; pages and frames have `size` bytes.
  unfoldable pub map_frames : ℕ → ℕ → ℕ → ℕ → ℕ → MapperAllocator M B → MapperAllocator M B
  map_frames zero size page frame flags s = s
  map_frames (suc n) size page frame flags s =
      map_frames n size (page + size) (frame + size) flags (map_to s page frame flags)

  -- `while let Some((addr, n_minimal_mapped))`; the result is `true` for `Ok`.
  unfoldable pub map_runs :
      ℕ → ℕ → ℕ → ℕ → ℕ → MapperAllocator M B → Option (MapperAllocator M B × Bool)
  map_runs zero size remaining_frames current_page flags s = none
  map_runs (suc fuel) size remaining_frames current_page flags s =
      let minimum_unit = size / page_size in
      do
        (b, picked) ← pick_off_contiguous v s.allocator remaining_frames minimum_unit
        elim picked [
          | none ↦ some (record s { allocator = b }, false)
          | some (addr, n_minimal_mapped) ↦
              let n_mapped = n_minimal_mapped / minimum_unit in
              let left = remaining_frames - n_minimal_mapped in
              let s' =
                map_frames n_mapped size current_page addr flags (record s { allocator = b }) in
              check (leb n_minimal_mapped remaining_frames) >> elim (left == 0) [
                | true ↦ some (s', true)
                | false ↦ map_runs fuel size left (current_page + n_mapped * size) flags s'
              ]
        ]

  -- One more round than there are frames is fuel enough, since every round maps a frame.
  unfoldable pub page_region :
      ℕ → ℕ → ℕ → ℕ → MapperAllocator M B → Option (MapperAllocator M B × Bool)
  page_region size start end flags s =
      let start = down.align_down start size in
      let end = up.align_up end size in
      let n_underlying_frames = (end - start) / page_size in
      check (leb start end)
      >> map_runs (suc n_underlying_frames) size n_underlying_frames start flags s

  map_runs-picked :
      (fuel size n page flags addr : ℕ) (s : MapperAllocator M B) (b : B)
      → pick_off_contiguous v s.allocator n (size / page_size) ≡ some (b, some (addr, n))
      → map_runs (suc fuel) size n page flags s
        ≡ some (
          map_frames (n / (size / page_size)) size page addr flags (record s { allocator = b }),
          true,
        )
  unfolding map_runs
  map_runs-picked fuel size n page flags addr s b e = ground (arith, e, le→leb n n (le_refl n))

  map_runs-none :
      (fuel size n page flags : ℕ) (s : MapperAllocator M B)
      → pick_off_contiguous v s.allocator n (size / page_size) ≡ some (s.allocator, none)
      → map_runs (suc fuel) size n page flags s ≡ some (s, false)
  unfolding map_runs
  map_runs-none fuel size n page flags s e = rw (e, map_runs) refl

  -- A region that rounds to `k` pages of `unit` frames each, 1 to 2 ^ 15 frames in all, and no frame
  -- in two free chunks: the call returns. It fails, with nothing changed, only where no chunk of the
  -- rounded-up level or above is free; otherwise it succeeds, and has mapped the region's pages in
  -- order to that many contiguous frames, which were free and alone stopped being so before the
  -- first `map_to`.
  pub page_region_lem :
      (unit k start end flags : ℕ) (s : MapperAllocator M B)
      → 1 ≤ unit
      → 1 ≤ k
      → k * unit ≤ 2 ^ 15
      → NoOverlap v s.allocator
      → let size = unit * page_size in
        let first_page = down.align_down start size in
        up.align_up end size ≡ first_page + k * size
        → (Exhausted v s.allocator (ceil_log2 (k * unit))
            × (page_region size start end flags s ≡ some (s, false)))
          ⊎ ((b : B) × (first : ℕ) × (page_region size start end flags s
                ≡ some (
                  map_frames k size first_page
                      (first * page_size)
                      flags
                      (record s { allocator = b }),
                  true,
                ))
              × (first + k * unit ≤ frame_count)
              × Region v (cover v s.allocator) b first (first + k * unit))
  unfolding page_region
  page_region_lem unit k start end flags s pos some_pages small sole extent =
      let size = unit * page_size in
      let first_page = down.align_down start size in
      let n = k * unit in
      let same : unit * page_size / page_size ≡ unit = omega arith in
      let frames : (up.align_up end size - first_page) / page_size ≡ n =
        omega (arith, sym (mul_assoc k unit page_size), extent) in
      let pages : n / (size / page_size) ≡ k = ap (λ u. n / u) same ∙ mul-div_cancel k pos in
      let fits : unit ≤ n = grind arith in
      let pick = pick_off_contiguous v s.allocator n in
      let opened : page_region size start end flags s ≡ map_runs (suc n) size n first_page flags s =
        rw (le→leb first_page (up.align_up end size) (omega (arith, extent)))
          (ap (λ m. map_runs (suc m) size m first_page flags s) frames) in
      elim (pick_off_contiguous_lem v s.allocator n unit sole (omega arith) small fits) [
        | inl empty ↦ inl (
          empty,
          opened
              ∙ map_runs-none n size n first_page flags s (
                  subst (λ u. pick u ≡ some (s.allocator, none)) (sym same)
                    (pick_off_contiguous-none v s.allocator n unit (level n (omega arith) small)
                      empty)),
        )
        | inr (b, first, picked, inside, region) ↦
            let mapped = λ (m : ℕ).
              map_frames m size first_page (first * page_size) flags (record s { allocator = b }) in
            inr (
              b,
              first,
              opened
                  ∙ map_runs-picked n size n first_page flags (first * page_size) s b (
                      subst (λ u. pick u ≡ some (b, some (first * page_size, n))) (sym same) picked)
                  ∙ ap (λ m. some (mapped m, true)) pages,
              inside,
              region,
            )
      ]
    where
      level : (n : ℕ) → 1 ≤ n → n ≤ 2 ^ 15 → ceil_log2 n < buddy_levels
      level n pos small = omega (arith, (ceil_log2_lem n (omega arith)).1 15 small)
