-- ===== src/Util/Tests.antt =====
-- A run of the theorem on bit ranges.
use titanium.Base.{ℕ, ◌+◌, ◌-◌, ◌/◌, ◌%◌, ◌^◌, ◌<◌, ◌≡◌, ◌⊎◌, none, some, arith}
use titanium.Util.BitRange.{bit_range, set_bit_range, set_bit_range-bit_range}

set_bit_range-bit_range_example :
    ((10 - 8 + 1 ≡ 64) × (set_bit_range 64 0x1_07ff 10 8 5 ≡ none))
    ⊎ ((x' : ℕ) × (set_bit_range 64 0x1_07ff 10 8 5 ≡ some x')
        × (10 - 8 + 1 < 64)
        × (bit_range x' 10 8 ≡ 5)
        × (x' / 2 ^ 11 ≡ 0x1_07ff / 2 ^ 11)
        × (x' % 2 ^ 8 ≡ 0x1_07ff % 2 ^ 8))
set_bit_range-bit_range_example =
    set_bit_range-bit_range 64 0x1_07ff 10 8 5 (omega arith) (omega arith) (omega arith)
      (omega arith)
