-- ===== src/Paging/Init.antt =====
-- `RuneFrameAllocator::new` of src/paging.rs: marking the usable memory of the bootloader's map.
mod Ranges
pub mod Rounds
pub mod Marking
use titanium.Base.{ℕ, zero, suc, ◌+◌, ◌-◌, ◌*◌, ◌/◌, ◌%◌, ◌≡◌, Bool, true, false, ◌&&◌}
use titanium.Base.{List, [], ◌∷◌, Option, none, some, ◌>>=◌, leb, ◌==◌, if◌then◌else◌}
use titanium.Base.Bits.{◌>>>◌}
use titanium.Vmem.{page_size}
use titanium.Limine.{MemmapEntry, is_usable}
use titanium.Bitvec.{BitArray, set_checked}
use titanium.Paging.Levels.{level_offset, total_buddy_bits, buddy_levels}

module _ {B : Type 0} (v : BitArray total_buddy_bits B) where
  -- `buddy_bytes[lo..hi].fill(true)`, which panics where the range is no range of the array.
  unfoldable pub fill_checked : B → ℕ → ℕ → Option B
  fill_checked b lo hi =
      if leb lo hi && leb hi total_buddy_bits then some (v.fill b lo hi true) else none

  -- `if l_i % 2 != 0`: the first page is stored on this level, and the start is rounded up.
  unfoldable pub align_start : B → ℕ → ℕ → Option (B × ℕ)
  align_start b level l_i =
      if l_i % 2 == 0
      then some (b, l_i)
      else (set_checked v b (level_offset level + l_i) true >>= λ b'. some (b', l_i + 1))

  -- `if l_ei % 2 != 0`: the last page is stored; the shift that follows takes the 1 off.
  unfoldable pub align_end : B → ℕ → ℕ → Option B
  align_end b level l_ei =
      if l_ei % 2 == 0 then some b else set_checked v b (level_offset level + l_ei - 1) true

  -- The loop over the levels below the top, with `rounds` of them left, and the top after it. An
  -- empty range ends the entry.
  unfoldable pub mark_levels : B → ℕ → ℕ → ℕ → ℕ → Option B
  mark_levels b level zero l_i l_ei =
      fill_checked b (level_offset (buddy_levels - 1) + l_i)
        (level_offset (buddy_levels - 1) + l_ei)
  mark_levels b level (suc rounds) l_i l_ei = elim (l_i == l_ei) [
    | true ↦ some b
    | false ↦ do
      (b', i) ← align_start b level l_i
      b'' ← align_end b' level l_ei
      mark_levels b'' (suc level) rounds (i >>> 1) (l_ei >>> 1)
  ]

  unfoldable pub mark_entry : B → MemmapEntry → Option B
  mark_entry b entry =
      let n_pages = entry.length / page_size in
      let raw_frame_i = entry.base / page_size in
      let raw_frame_ei = (entry.base + n_pages * page_size) / page_size in
      mark_levels b 0 (buddy_levels - 1) raw_frame_i raw_frame_ei

  -- The loop over the entries; `.filter(|entry| entry.ty == MemmapType::Usable)` drops the others.
  unfoldable pub mark_entries : B → List MemmapEntry → Option B
  mark_entries b [] = some b
  mark_entries b (entry ∷ rest) =
      if is_usable entry
      then (mark_entry b entry >>= λ b'. mark_entries b' rest)
      else mark_entries b rest

  -- `new`, over the zeroed static array.
  unfoldable pub new : B → List MemmapEntry → Option B
  new zeroed memmap_entries = mark_entries zeroed memmap_entries
