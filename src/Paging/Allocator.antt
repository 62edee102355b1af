-- ===== src/Paging/Allocator.antt =====
-- The buddy allocator of src/paging.rs. Its state is the bit array `buddy_bytes`; every operation
-- returns `none` where the code panics, and otherwise the new array with its result.
-- Logging is left out, and an address is the number that it wraps.
use Prim.Native.Nat.{bit_and}
use titanium.Base.{ℕ, zero, suc, ◌+◌, ◌-◌, ◌^◌, true, false, Option, none, some, ◌>>=◌}
use titanium.Base.{min}
use titanium.Base.Powers.{ceil_log2, highest_one, clear_bit}
use titanium.Base.Bits.{◌<<<◌, ◌>>>◌}
use titanium.Bitvec.{BitArray, set_checked, get_checked}
use titanium.Paging.Levels.{
  level_offset, level_offset_checked, total_buddy_bits, absolute_to_relative, relative_to_absolute,
  addr_to_relative_index, relative_index_to_addr, buddy_levels, level_2mib,
}

module _ {B : Type 0} (v : BitArray total_buddy_bits B) where
  -- The loop `for lower_level in (min_level..level).rev()` with `rounds` levels left to go down.
  unfoldable pub split_chunk : B → ℕ → ℕ → ℕ → Option (B × ℕ)
  split_chunk b min_level zero i = some (b, i)
  split_chunk b min_level (suc rounds) i =
      let lower_level = min_level + rounds in
      do
        b' ← set_checked v b (i + level_offset (suc lower_level)) false
        b'' ← set_checked v b' (i <<< 1 + level_offset lower_level + 1) true
        split_chunk b'' min_level rounds (i <<< 1)

  -- What follows the search: `found` is what `first_one` returned.
  unfoldable pub allocate_found : B → ℕ → ℕ → Option ℕ → Option (B × Option ℕ)
  allocate_found b min_level offset none = some (b, none)
  allocate_found b min_level offset (some found) = do
    (bit_i, level) ← absolute_to_relative (found + offset)
    (b', i) ← split_chunk b min_level (level - min_level) bit_i
    b'' ← set_checked v b' (i + level_offset min_level) false
    some (b'', some (relative_index_to_addr (i, min_level)))

  unfoldable pub allocate_chunk_from_level : B → ℕ → Option (B × Option ℕ)
  allocate_chunk_from_level b min_level = do
    offset ← level_offset_checked min_level
    allocate_found b min_level offset (v.first_one b offset)

  -- The loop `for level in level..BUDDY_LEVELS - 1` with `rounds` levels left to go up.
  -- `&&` reads the second bit only if the first is set.
  unfoldable pub merge_loop : B → ℕ → ℕ → ℕ → Option B
  merge_loop b level zero i = some b
  merge_loop b level (suc rounds) i =
      let i = bit_and i (2 ^ 64 - 2) in
      do
        x ← get_checked v b i
        elim x [
          | false ↦ some b
          | true ↦ do
            y ← get_checked v b (i + 1)
            elim y [
              | false ↦ some b
              | true ↦ do
                b' ← set_checked v b i false
                b'' ← set_checked v b' (i + 1) false
                let local_i = i - level_offset level
                let up = local_i >>> 1 + level_offset (suc level)
                b''' ← set_checked v b'' up true
                merge_loop b''' (suc level) rounds up
            ]
        ]

  unfoldable pub merge_up_from : B → ℕ × ℕ → Option B
  merge_up_from b (index, level) =
      merge_loop b level (buddy_levels - 1 - level) (relative_to_absolute (index, level))

  -- `FrameAllocator<Size4KiB>` and `FrameAllocator<Size2MiB>`; a frame is its start address.
  unfoldable pub allocate_frame_4kib : B → Option (B × Option ℕ)
  allocate_frame_4kib b = allocate_chunk_from_level b 0

  unfoldable pub allocate_frame_2mib : B → Option (B × Option ℕ)
  allocate_frame_2mib b = allocate_chunk_from_level b level_2mib

  -- `FrameDeallocator<Size4KiB>` and `FrameDeallocator<Size2MiB>`.
  unfoldable pub deallocate_frame_4kib : B → ℕ → Option B
  deallocate_frame_4kib b frame = do
    let index = addr_to_relative_index frame 0
    b' ← set_checked v b index true
    merge_up_from b' (index, 0)

  unfoldable pub deallocate_frame_2mib : B → ℕ → Option B
  deallocate_frame_2mib b frame = do
    let index = addr_to_relative_index frame level_2mib
    b' ← set_checked v b index true
    merge_up_from b' (index, level_2mib)

  -- `for level in (minimum_level..=target_level).rev()` with `rounds` levels left; each round asks
  -- for `target_level`. The second part of the result is the address with the round's level.
  unfoldable pub try_levels : B → ℕ → ℕ → ℕ → Option (B × Option (ℕ × ℕ))
  try_levels b target_level minimum_level zero = some (b, none)
  try_levels b target_level minimum_level (suc rounds) = do
    (b', found) ← allocate_chunk_from_level b target_level
    elim found [
      | some addr ↦ some (b', some (addr, minimum_level + rounds))
      | none ↦ try_levels b' target_level minimum_level rounds
    ]

  -- `while let Some(level) = overflow.highest_one()`: gives the frames past the request back.
  unfoldable pub trim_loop : ℕ → B → ℕ → ℕ → ℕ → Option B
  trim_loop zero b overflow index bound_level = none
  trim_loop (suc fuel) b overflow index bound_level = elim (highest_one overflow) [
    | none ↦ some b
    | some level ↦
        let index' = index <<< (bound_level - level) - 1 in
        do
          b' ← set_checked v b (relative_to_absolute (index', level)) true
          trim_loop fuel b' (clear_bit overflow level) index' level
  ]

  unfoldable pub pick_off_contiguous : B → ℕ → ℕ → Option (B × Option (ℕ × ℕ))
  pick_off_contiguous b n_frames min_frames =
      let target_level = ceil_log2 n_frames in
      let minimum_level = ceil_log2 min_frames in
      do
        (b', found) ← try_levels b target_level minimum_level (target_level + 1 - minimum_level)
        elim found [
          | none ↦ some (b', none)
          | some (frame_addr, level) ↦
              let rel_index = addr_to_relative_index frame_addr level in
              let n_mapped = 1 <<< level in
              do
                b'' ← set_checked v b' (relative_to_absolute (rel_index, level)) false
                b''' ← trim_loop 64 b'' (n_mapped - n_frames) (rel_index + 1) level
                some (b''', some (frame_addr, min n_mapped n_frames))
        ]
