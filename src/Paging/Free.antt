-- ===== src/Paging/Free.antt =====
-- Giving frames back (`FrameDeallocator` of src/paging.rs), for both frame sizes.
use titanium.Base.{ℕ, ◌+◌, ◌*◌, ◌/◌, ◌<◌, ◌≡◌, ap, ◌∙◌, subst}
use titanium.Base.{true, false, some, arith, inl, inr, Bool-cases, ◌⊎◌}
use titanium.Base.{if◌then◌else◌}
use native.Mathlib.Nat.{div-one}
use titanium.Vmem.{page_size}
use titanium.Bitvec.{BitArray, set_checked, set_checked_lem}
use titanium.Paging.Levels.{
  level_offset, level_len, total_buddy_bits, level_2mib, in_range-lt-total, relative_to_absolute,
  relative_index_to_addr, level_offset-zero, frame_level-zero, level_2mib_len, addr-index_zero,
  addr-relative_index, addr-relative_index_2mib,
}
use titanium.Paging.Allocator.{
  merge_loop, merge_up_from, deallocate_frame_4kib, deallocate_frame_2mib, allocate_frame_4kib,
}
use titanium.Paging.Cover.{
  chunk, cover, cover-set, chunk-set, chunk-le-cover, frame_count, within, NoOverlap,
}
use titanium.Paging.Allocate.{allocate_chunk_from_level_lem}
use titanium.Paging.Merge.{merge_loop_lem, merge_loop-suc, joined}

parity : (n : ℕ) → (n / 2 * 2 ≡ n) ⊎ (n / 2 * 2 + 1 ≡ n)
parity n = ground arith

module _ {B : Type 0} (v : BitArray total_buddy_bits B) where
  chunk-of_cover : (b : B) (f : ℕ) → cover v b f ≡ 0 → chunk v b 0 f ≡ false
  chunk-of_cover b f free = elim (Bool-cases (chunk v b 0 f)) [
    | inr e ↦ e
    | inl e ↦ absurd (ground (arith, chunk-le-cover v b 0 f (omega arith), div-one f))
  ]

  -- Marking a taken frame free on level 0.
  mark_frame :
      (b : B) (f g : ℕ)
      → f < frame_count
      → g < frame_count
      → cover v b f ≡ 0
      → cover v (v.set b (f + level_offset 0) true) g ≡ cover v b g + within 0 f g
  mark_frame b f g hf hg taken = ground (
    arith,
    chunk-of_cover b f taken,
    cover-set v b 0 f true g (omega arith) (omega (arith, frame_level-zero)) hg,
  )

  mark_checked :
      (b : B) (f : ℕ)
      → f < frame_count
      → set_checked v b f true ≡ some (v.set b (f + level_offset 0) true)
  mark_checked b f hf =
      let e : f ≡ f + level_offset 0 = omega (arith, level_offset-zero) in
      ap (λ t. set_checked v b t true) e
      ∙ set_checked_lem v b (f + level_offset 0) true
          (in_range-lt-total 0 f (omega arith) (omega (arith, frame_level-zero)))

  -- Where no frame is in two free chunks, freeing the 4 KiB frame number `f`, which was not free,
  -- adds it to the free frames and changes no other frame, whatever buddies are joined on the way;
  -- and it does not panic.
  pub deallocate_frame_4kib_lem :
      (b : B) (f : ℕ)
      → f < frame_count
      → NoOverlap v b
      → cover v b f ≡ 0
      → (b' : B) × (deallocate_frame_4kib v b (f * page_size) ≡ some b')
        × ((g : ℕ) → g < frame_count → cover v b' g ≡ cover v b g + within 0 f g)
  unfolding deallocate_frame_4kib merge_up_from relative_to_absolute
  deallocate_frame_4kib_lem b f hf sole taken =
      let b1 = v.set b (f + level_offset 0) true in
      let r =
        merge_loop_lem v (λ g. cover v b g + within 0 f g)
          (λ g hg. ground (arith, sole g hg, div-one g)) b1 0 15 f (omega arith)
          (omega (arith, frame_level-zero)) (λ g hg. mark_frame b f g hf hg taken) in
      (r.0, rw (addr-relative_index f, mark_checked b f hf) r.1, r.2)

  -- Where no frame is in two free chunks, a 4 KiB frame that was allocated is freed without a panic,
  -- and every frame is then free as often as before the allocation.
  pub deallocate-allocate_4kib :
      (b b' : B) (addr : ℕ)
      → NoOverlap v b
      → allocate_frame_4kib v b ≡ some (b', some addr)
      → (b'' : B) × (deallocate_frame_4kib v b' addr ≡ some b'')
        × ((g : ℕ) → g < frame_count → cover v b'' g ≡ cover v b g)
  unfolding allocate_frame_4kib
  deallocate-allocate_4kib b b' addr sole e =
      elim (allocate_chunk_from_level_lem v b 0 (omega arith) sole) [
        | inl (_, r) ↦ cc
        | inr (b2, i, r, hi, out) ↦
            let eb : b2 ≡ b' = cc in
            let ea : relative_index_to_addr (i, 0) ≡ addr = cc in
            let small : i < frame_count = omega (arith, frame_level-zero) in
            let freed =
              deallocate_frame_4kib_lem b2 i small (λ g hg. omega (arith, out g hg, sole g hg))
                (ground (arith, out i small, sole i small, div-one i)) in
            (
              freed.0,
              subst (λ t. deallocate_frame_4kib v t addr ≡ some freed.0) eb
                  (subst (λ t. deallocate_frame_4kib v b2 t ≡ some freed.0) (addr-index_zero i ∙ ea)
                    freed.1),
              λ g hg. omega (arith, freed.2 g hg, out g hg),
            )
      ]

  -- Freeing the 2 MiB frame number `n`, where its bit is clear and the 4 KiB frame number `n` is in
  -- no free chunk, returns normally and adds that 4 KiB frame to the free ones, and nothing else.
  pub deallocate_frame_2mib_lem :
      (b : B) (n : ℕ)
      → n < level_len level_2mib
      → chunk v b level_2mib n ≡ false
      → cover v b n ≡ 0
      → (b' : B) × (deallocate_frame_2mib v b (n * 0x20_0000) ≡ some b')
        × ((g : ℕ) → g < frame_count → cover v b' g ≡ cover v b g + within 0 n g)
  unfolding deallocate_frame_2mib merge_up_from relative_to_absolute
  deallocate_frame_2mib_lem b n hn taken free = (
    b1,
    rw (addr-relative_index_2mib n, mark_checked b n small)
        (merge_loop-suc v b1 9 5 n (omega arith) hn ∙ unmerged),
    λ g hg. mark_frame b n g small hg free,
  )
    where
      b1 : B
      b1 = v.set b (n + level_offset 0) true

      small : n < frame_count
      small = omega (arith, level_2mib_len)

      stays : (j : ℕ) → j < level_len 9 → chunk v b1 9 j ≡ chunk v b 9 j
      stays j hj =
          chunk-set v b 0 n true 9 j (omega arith) (omega (arith, frame_level-zero, level_2mib_len))
            hj

      own : chunk v b1 9 n ≡ false
      own = stays n hn ∙ taken

      unmerged :
          (if chunk v b1 9 (n / 2 * 2)
            then (if chunk v b1 9 (n / 2 * 2 + 1)
                then merge_loop v (joined v b1 9 (n / 2)) 10 5 (n / 2 + level_offset 10)
                else some b1)
            else some b1)
          ≡ some b1
      unmerged = elim (parity n) [
        | inl even ↦ rw (even, own)
        | inr odd ↦ rw (odd, own) (ground arith)
      ]
