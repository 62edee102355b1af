-- ===== src/Paging/Pick.antt =====
-- `pick_off_contiguous`: what a caller gets and what goes back to the allocator.
use titanium.Base.{ℕ, zero, suc, ◌+◌, ◌-◌, ◌*◌, ◌^◌, ◌≤◌, ◌<◌, ◌≡◌, refl, subst}
use titanium.Base.{false, none, some, arith, inl, inr, ◌⊎◌}
use titanium.Base.{min}
use titanium.Base.Bits.{◌<<<◌}
use titanium.Base.Powers.{ceil_log2, ceil_log2_lem}
use titanium.Vmem.{page_size}
use titanium.Bitvec.{BitArray, set_checked_lem}
use titanium.Paging.Levels.{
  level_offset, level_len, total_buddy_bits, buddy_levels, level_len-pages, in_range-lt-total,
  relative_to_absolute, relative_index_to_addr, addr-roundtrip, addr-level,
}
use titanium.Paging.Allocator.{
  try_levels, trim_loop, pick_off_contiguous, allocate_chunk_from_level,
}
use titanium.Paging.Cover.{
  chunk, cover, cover-set, chunk-of_taken, frame_count, within-range, NoOverlap, Without,
}
use titanium.Paging.Allocate.{Exhausted, allocate_chunk_from_level_lem, allocate_chunk-Exhausted}
use titanium.Paging.Trim.{Region, trim_loop_lem}

width : (t : ℕ) → 1 <<< t ≡ 2 ^ t
width t = omega arith

chunk_end : (l i : ℕ) → l < buddy_levels → i < level_len l → (i + 1) * 2 ^ l ≤ frame_count
chunk_end l i hl hi = grind (arith, level_len-pages l (omega arith))

module _ {B : Type 0} (v : BitArray total_buddy_bits B) where
  -- Every round of the search asks for the same level, so the first answer is the answer.
  try_levels-none :
      (b : B) (target minimum rounds : ℕ)
      → allocate_chunk_from_level v b target ≡ some (b, none)
      → try_levels v b target minimum rounds ≡ some (b, none)
  unfolding try_levels
  try_levels-none b t m zero e = refl
  try_levels-none b t m (suc n) e = rw e (try_levels-none b t m n e)

  -- Where no chunk of the target level or above is free, the request fails, whatever smaller
  -- chunks are free and whatever unit the caller would accept.
  pub pick_off_contiguous-none :
      (b : B) (n_frames min_frames : ℕ)
      → ceil_log2 n_frames < buddy_levels
      → Exhausted v b (ceil_log2 n_frames)
      → pick_off_contiguous v b n_frames min_frames ≡ some (b, none)
  unfolding pick_off_contiguous
  pick_off_contiguous-none b n m hl empty =
      let none_found =
        try_levels-none b (ceil_log2 n) (ceil_log2 m) (ceil_log2 n + 1 - ceil_log2 m)
          (allocate_chunk-Exhausted v b (ceil_log2 n) hl empty) in
      rw none_found

  try_levels-some :
      (b b' : B) (addr target minimum : ℕ)
      → minimum ≤ target
      → allocate_chunk_from_level v b target ≡ some (b', some addr)
      → try_levels v b target minimum (target + 1 - minimum) ≡ some (b', some (addr, target))
  unfolding try_levels
  try_levels-some b b' addr t m h e =
      let rounds : t + 1 - m ≡ suc (t - m) = omega arith in
      let level : m + (t - m) ≡ t = omega arith in rw (rounds, e, level)

  -- What the function does with the chunk that it got, one level `l` of 2 ^ l frames.
  trimmed :
      (c : ℕ → ℕ) (b : B) (l i n : ℕ)
      → ((f : ℕ) → f < frame_count → c f ≤ 1)
      → l < buddy_levels
      → i < level_len l
      → 1 ≤ n
      → n ≤ 2 ^ l
      → Without v c b l i
      → (b' : B) × (trim_loop v 64 (v.set b (i + level_offset l) false) (2 ^ l - n) (i + 1) l
          ≡ some b')
        × (i * 2 ^ l + n ≤ frame_count)
        × Region v c b' (i * 2 ^ l) (i * 2 ^ l + n)
  trimmed c b l i n sole hl hi pos fits out =
      let b1 = v.set b (i + level_offset l) false in
      let top : (i + 1) * 2 ^ l ≤ frame_count = chunk_end l i hl hi in
      let start : i * 2 ^ l < frame_count = omega arith in
      let off : chunk v b l i ≡ false = chunk-of_taken v b l i hl hi (
        ground
          (arith, within-range l i (i * 2 ^ l), out (i * 2 ^ l) start, sole (i * 2 ^ l) start)) in
      let region : Region v c b1 (i * 2 ^ l) ((i + 1) * 2 ^ l) = λ f hf.
        ground (arith, off, out f hf, within-range l i f, cover-set v b l i false f hl hi hf) in
      let r =
        trim_loop_lem v c sole 64 b1 (i * 2 ^ l) (2 ^ l - n) (i + 1) l (omega arith) hl
          (omega arith) (omega arith) top region in
      (r.0, r.1, omega arith, subst (Region v c r.0 (i * 2 ^ l)) (omega arith) r.2)

  -- What a request gets whose unit the rounded-up level holds.
  pub pick_off_contiguous-fits :
      (b : B) (n_frames min_frames : ℕ)
      → NoOverlap v b
      → 1 ≤ n_frames
      → n_frames ≤ 2 ^ 15
      → ceil_log2 min_frames ≤ ceil_log2 n_frames
      → Exhausted v b (ceil_log2 n_frames)
        ⊎ ((b' : B) × (first : ℕ) × (pick_off_contiguous v b n_frames min_frames
              ≡ some (b', some (first * page_size, n_frames)))
            × (first + n_frames ≤ frame_count)
            × Region v (cover v b) b' first (first + n_frames))
  unfolding pick_off_contiguous relative_to_absolute
  pick_off_contiguous-fits b n m sole pos small lower =
      let t = ceil_log2 n in
      let enough = ceil_log2_lem n (omega arith) in
      let hl : t < buddy_levels = omega (arith, enough.1 15 small) in
      elim (allocate_chunk_from_level_lem v b t hl sole) [
        | inl (empty, _) ↦ inl empty
        | inr (b', i, r, hi, out) ↦
            let addr = relative_index_to_addr (i, t) in
            let shorter : min (2 ^ t) n ≡ n = omega (arith, enough.0) in
            let done = trimmed (cover v b) b' t i n sole hl hi pos enough.0 out in
            inr (
              done.0,
              i * 2 ^ t,
              rw
                  (
                    try_levels-some b b' addr t (ceil_log2 m) lower r,
                    addr-roundtrip i t,
                    set_checked_lem v b' (i + level_offset t) false (in_range-lt-total t i hl hi),
                  )
                  (rw (width t, done.1, shorter, addr-level i t) refl),
              done.2,
              done.3,
            )
      ]

  -- Where no frame is in two free chunks, a request for 1 to 2 ^ 15 frames, with a unit that is no
  -- larger, returns normally unless no chunk of the rounded-up level or above is free: the caller
  -- gets `n_frames` contiguous frames from `first` on, and exactly those stop being free.
  pub pick_off_contiguous_lem :
      (b : B) (n_frames min_frames : ℕ)
      → NoOverlap v b
      → 1 ≤ n_frames
      → n_frames ≤ 2 ^ 15
      → min_frames ≤ n_frames
      → Exhausted v b (ceil_log2 n_frames)
        ⊎ ((b' : B) × (first : ℕ) × (pick_off_contiguous v b n_frames min_frames
              ≡ some (b', some (first * page_size, n_frames)))
            × (first + n_frames ≤ frame_count)
            × Region v (cover v b) b' first (first + n_frames))
  pick_off_contiguous_lem b n m sole pos small unit =
      let enough = ceil_log2_lem n (omega arith) in
      let lower : ceil_log2 m ≤ ceil_log2 n =
        (ceil_log2_lem m (omega arith)).1 (ceil_log2 n) (omega (arith, enough.0)) in
      pick_off_contiguous-fits b n m sole pos small lower

  -- A larger unit leaves no level to try.
  pub pick_off_contiguous-unit :
      (b : B) (n_frames min_frames : ℕ)
      → ceil_log2 n_frames < ceil_log2 min_frames
      → pick_off_contiguous v b n_frames min_frames ≡ some (b, none)
  unfolding pick_off_contiguous try_levels
  pick_off_contiguous-unit b n m larger =
      let rounds : ceil_log2 n + 1 - ceil_log2 m ≡ 0 = omega arith in rw rounds refl
