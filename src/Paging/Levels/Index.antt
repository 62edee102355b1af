-- ===== src/Paging/Levels/Index.antt =====
-- The constants and the index arithmetic of src/paging.rs.
use titanium.Base.{ℕ, zero, suc, ◌+◌, ◌-◌, ◌*◌, ◌/◌, ◌<◌}
use titanium.Base.{Option, none, some}
use titanium.Base.{ltb, if◌then◌else◌}
use titanium.Base.Bits.{◌<<<◌, ◌>>>◌}
use titanium.Vmem.{page_size}

abbrev pub max_phys_map : ℕ
max_phys_map = 0x20_0000_0000

abbrev pub max_phys_map_pages : ℕ
max_phys_map_pages = max_phys_map / page_size

abbrev pub max_buddy_bits : ℕ
max_buddy_bits = max_phys_map_pages

abbrev pub buddy_levels : ℕ
buddy_levels = 16

abbrev pub level_2mib : ℕ
level_2mib = 9

-- The bits of one level.
unfoldable pub level_len : ℕ → ℕ
level_len l = max_buddy_bits >>> suc l

-- `LEVEL_OFFSETS`, as the function that its `const` block tabulates.
unfoldable pub level_offset : ℕ → ℕ
unfolding level_len
level_offset zero = 0
level_offset (suc l) = level_offset l + level_len l

-- An index past the end of the table panics.
unfoldable pub level_offset_checked : ℕ → Option ℕ
level_offset_checked l = if ltb l (buddy_levels + 1) then some (level_offset l) else none

unfoldable pub total_buddy_bits : ℕ
unfolding level_offset
total_buddy_bits = level_offset buddy_levels

-- The loop of `absolute_to_relative`; running off the table is `unreachable!()`.
unfoldable pub find_level : ℕ → ℕ → ℕ → Option (ℕ × ℕ)
find_level zero level abs_index = none
find_level (suc left) level abs_index =
    if ltb abs_index (level_offset (suc level))
    then some (abs_index - level_offset level, level)
    else find_level left (suc level) abs_index

unfoldable pub absolute_to_relative : ℕ → Option (ℕ × ℕ)
unfolding find_level level_offset
absolute_to_relative abs_index = find_level buddy_levels 0 abs_index

unfoldable pub relative_to_absolute : ℕ × ℕ → ℕ
relative_to_absolute (index, level) = index + level_offset level

unfoldable pub addr_to_relative_index : ℕ → ℕ → ℕ
addr_to_relative_index addr level = (addr / page_size) >>> level

unfoldable pub addr_to_index : ℕ → ℕ → ℕ
unfolding relative_to_absolute addr_to_relative_index
addr_to_index addr level = relative_to_absolute (addr_to_relative_index addr level, level)

unfoldable pub index_to_addr : ℕ → ℕ
index_to_addr index = index * page_size

unfoldable pub relative_index_to_addr : ℕ × ℕ → ℕ
relative_index_to_addr (index, level) = (index * page_size) <<< level

-- A pair that names a bit of the array.
abbrev pub InRange : ℕ → ℕ → Type 0
InRange level index = (level < buddy_levels) × (index < level_len level)
