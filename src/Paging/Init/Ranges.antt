-- ===== src/Paging/Init/Ranges.antt =====
-- One step of the marking: a chunk at the start of the range, one at its end, the top level's.
use titanium.Base.{ℕ, zero, suc, ◌+◌, ◌*◌, ◌/◌, ◌^◌, ◌≤◌, ◌<◌, ◌≡◌, refl}
use titanium.Base.{true, false, arith}
use titanium.Base.{one-le-pow}
use titanium.Base.Bits.{◌>>>◌}
use titanium.Bitvec.{BitArray}
use titanium.Paging.Levels.{
  level_offset, level_len, total_buddy_bits, buddy_levels, level_offset-lt, total_buddy_bits_lem,
}
use titanium.Paging.Cover.{
  chunk, cover, cover-top, cover_below, cover-set, chunk-of_taken, frame_count, within-range,
  frame-in_range,
}
use titanium.Paging.Trim.{between, Region}

module _ {B : Type 0} (v : BitArray total_buddy_bits B) (c : ℕ → ℕ)
    (sole : (f : ℕ) → f < frame_count → c f ≤ 1) where
  pub start_round :
      (b : B) (l i hi : ℕ)
      → l < buddy_levels
      → i < level_len l
      → (i + 1) * 2 ^ l ≤ hi
      → hi ≤ frame_count
      → Region v c b (i * 2 ^ l) hi
      → Region v c (v.set b (i + level_offset l) true) ((i + 1) * 2 ^ l) hi
  start_round b l i hi hl hi' fits top region f hf =
      let start : i * 2 ^ l < frame_count = omega (arith, one-le-pow l 2) in
      let taken : cover v b (i * 2 ^ l) ≡ 0 =
        ground (arith, one-le-pow l 2, region (i * 2 ^ l) start, sole (i * 2 ^ l) start) in
      ground (
        arith,
        region f hf,
        chunk-of_taken v b l i hl hi' taken,
        cover-set v b l i true f hl hi' hf,
        within-range l i f,
      )

-- Filling a range of the top level moves the frames of its chunks, and no others.
module _ {B : Type 0} (v : BitArray total_buddy_bits B) where
  abbrev pub fill_top : B → ℕ → ℕ → B
  fill_top b lo hi = v.fill b (level_offset 15 + lo) (level_offset 15 + hi) true

  fits : (hi : ℕ) → hi ≤ level_len 15 → level_offset 15 + hi ≤ total_buddy_bits
  fits hi k = omega (arith, total_buddy_bits_lem, level_offset-lt 15 16 (omega arith))

  fill-below :
      (n : ℕ) (b : B) (lo hi f : ℕ)
      → n ≤ 15
      → lo ≤ hi
      → hi ≤ level_len 15
      → f < frame_count
      → cover_below v n (fill_top b lo hi) f ≡ cover_below v n b f
  unfolding cover_below
  fill-below zero b lo hi f hn h k hf = refl
  fill-below (suc n) b lo hi f hn h k hf =
      let j = f >>> n in
      ground (
        arith,
        fill-below n b lo hi f (omega arith) h k hf,
        v.get-fill b (level_offset 15 + lo) (level_offset 15 + hi) true (j + level_offset n)
            (omega arith) (fits hi k),
        frame-in_range n f (omega arith) hf,
        level_offset-lt n 15 (omega arith),
      )

  pub fill-cover :
      (b : B) (lo hi f : ℕ)
      → lo ≤ hi
      → hi ≤ level_len 15
      → f < frame_count
      → (lo ≤ f / 2 ^ 15 → f / 2 ^ 15 < hi → chunk v b 15 (f / 2 ^ 15) ≡ false)
      → cover v (fill_top b lo hi) f ≡ cover v b f + between (lo * 2 ^ 15) (hi * 2 ^ 15) f
  fill-cover b lo hi f h k hf off = ground (
    arith,
    off,
    cover-top v b f,
    cover-top v (fill_top b lo hi) f,
    fill-below 15 b lo hi f (omega arith) h k hf,
    v.get-fill b (level_offset 15 + lo) (level_offset 15 + hi) true (f / 2 ^ 15 + level_offset 15)
        (omega arith) (fits hi k),
  )
