-- ===== src/Util/BitRange.antt =====
-- `bit_range` and `set_bit_range` as the macros of util.rs write them, for a word of `w` bits. An enum
-- is its number. `1 << width` panics where the range is as wide as the word, which `set_bit_range`
-- has as `none`; the others are for narrower ranges only, which are all that the code has.
use titanium.Base.{ℕ, ◌+◌, ◌-◌, ◌*◌, ◌/◌, ◌%◌, ◌^◌, ◌≤◌, ◌<◌, ◌≡◌, sym, ap, ◌∙◌}
use titanium.Base.{
  Option, none, some, check, ltb, lt→ltb, ltb→lt, Bool-cases, inl, inr, ◌⊎◌, ◌>>◌, refl,
}
use titanium.Base.{bit_and, bit_or, arith, one-le-pow, pow-le-pow_right, le_trans}
use native.Mathlib.Nat.{
  mul-add-div_right, mul-add-mod_self_right, div-add-mod', mul-div_cancel, mod-eq_of_lt, mod-lt,
  div-eq_of_lt,
}
use titanium.Base.Bits.{◌<<<◌, ◌>>>◌, bit_and_mask}
use titanium.Util.Masks.{shifted_twice, bit_and-shifted, merge_lem, shifted_lt}

-- `(1 << width) - 1`
abbrev pub low_mask : ℕ → ℕ → ℕ
low_mask msb lsb = 2 ^ (msb - lsb + 1) - 1

-- `!mask`
abbrev pub complement : ℕ → ℕ → ℕ
complement w mask = 2 ^ w - 1 - mask

-- `bitfield_cenum_bitrange!`
unfoldable pub bit_range : ℕ → ℕ → ℕ → ℕ
bit_range x msb lsb = bit_and (x >>> lsb) (low_mask msb lsb)

unfoldable pub set_bit_range : ℕ → ℕ → ℕ → ℕ → ℕ → Option ℕ
set_bit_range w x msb lsb value = do
  check (ltb (msb - lsb + 1) w)
  let mask = (low_mask msb lsb <<< lsb) % 2 ^ w
  let val = (value <<< lsb) % 2 ^ w
  some (bit_or (bit_and x (complement w mask)) (bit_and val mask))

-- `bitfield_volatile_bitrange!`; the value is not shifted to the range.
unfoldable pub volatile_bit_range : ℕ → ℕ → ℕ → ℕ
volatile_bit_range x msb lsb = bit_and (x >>> lsb) (low_mask msb lsb)

unfoldable pub volatile_set_bit_range : ℕ → ℕ → ℕ → ℕ → ℕ → ℕ
volatile_set_bit_range w x msb lsb value =
    let mask = (low_mask msb lsb <<< lsb) % 2 ^ w in
    bit_or (bit_and x (complement w mask)) (bit_and value mask)

-- `bitfield_bitflags_bitrange!`; `known` are the bits that the flags name. The mask of the setter is
-- `((1 << width) + 1) << lsb`.
unfoldable pub flags_bit_range : ℕ → ℕ → ℕ → ℕ → ℕ → ℕ
flags_bit_range w known x msb lsb = bit_and (bit_and x ((low_mask msb lsb <<< lsb) % 2 ^ w)) known

unfoldable pub flags_set_bit_range : ℕ → ℕ → ℕ → ℕ → ℕ → ℕ → ℕ
flags_set_bit_range w known x msb lsb value =
    let mask = ((2 ^ (msb - lsb + 1) + 1) <<< lsb) % 2 ^ w in
    let added = bit_and (bit_and value known) mask in bit_or (bit_and x (complement w mask)) added

mask_fits : (w msb lsb a : ℕ) → lsb ≤ msb → msb < w → a < 2 ^ (msb - lsb + 1) → a * 2 ^ lsb < 2 ^ w
mask_fits w msb lsb a order inside h =
    le_trans (shifted_lt lsb (msb - lsb + 1) a h)
      (pow-le-pow_right {n = 2} (omega arith) {i = msb - lsb + 1 + lsb} {j = w} (omega arith))

-- A range replaced, and what its digits and the others are then.
replaced :
    (x x' v l k : ℕ)
    → v < 2 ^ k
    → x' + x / 2 ^ l % 2 ^ k * 2 ^ l ≡ x + v * 2 ^ l
    → x' ≡ (x / 2 ^ l / 2 ^ k * 2 ^ k + v) * 2 ^ l + x % 2 ^ l
replaced x x' v l k small e =
    let split = div-add-mod' x (2 ^ l) in
    let inner = div-add-mod' (x / 2 ^ l) (2 ^ k) in
    let scaled = ap (λ t. t * 2 ^ l) inner in omega arith

packed : (a s m : ℕ) → s < m → ((a * m + s) / m ≡ a) × ((a * m + s) % m ≡ s)
packed a s m h = (
  mul-add-div_right (omega arith) a s ∙ omega (arith, div-eq_of_lt h),
  mul-add-mod_self_right a m s ∙ mod-eq_of_lt h,
)

digits_of :
    (q v s l k : ℕ)
    → v < 2 ^ k
    → s < 2 ^ l
    → let x = (q * 2 ^ k + v) * 2 ^ l + s in
      (x / 2 ^ l % 2 ^ k ≡ v) × (x / 2 ^ l / 2 ^ k ≡ q) × (x % 2 ^ l ≡ s)
digits_of q v s l k hv hs =
    let (upper, lower) = packed (q * 2 ^ k + v) s (2 ^ l) hs in
    let (above, field) = packed q v (2 ^ k) hv in (rw upper field, rw upper above, lower)

set_bit_range-replaced :
    (w x msb lsb v : ℕ)
    → lsb ≤ msb
    → msb < w
    → msb - lsb + 1 < w
    → x < 2 ^ w
    → v < 2 ^ (msb - lsb + 1)
    → let k = msb - lsb + 1 in
      set_bit_range w x msb lsb v ≡ some ((x / 2 ^ lsb / 2 ^ k * 2 ^ k + v) * 2 ^ lsb + x % 2 ^ lsb)
unfolding set_bit_range
set_bit_range-replaced w x msb lsb v order inside narrow hx hv =
    let k = msb - lsb + 1 in
    let pos = one-le-pow k 2 (omega arith) in
    let mask_lt = mask_fits w msb lsb (low_mask msb lsb) order inside (omega arith) in
    let val_lt = mask_fits w msb lsb v order inside hv in
    let mask_same : (low_mask msb lsb <<< lsb) % 2 ^ w ≡ low_mask msb lsb <<< lsb =
      mod-eq_of_lt mask_lt in
    let val_same : (v <<< lsb) % 2 ^ w ≡ v <<< lsb = mod-eq_of_lt val_lt in
    let old : bit_and x (low_mask msb lsb <<< lsb) ≡ x / 2 ^ lsb % 2 ^ k * 2 ^ lsb =
      bit_and-shifted lsb x (low_mask msb lsb)
      ∙ ap (λ b. b * 2 ^ lsb) (bit_and_mask k (x / 2 ^ lsb)) in
    let new : bit_and (v <<< lsb) (low_mask msb lsb <<< lsb) ≡ v * 2 ^ lsb =
      bit_and-shifted lsb (v <<< lsb) (low_mask msb lsb)
      ∙ ap (λ b. b * 2 ^ lsb)
          (bit_and_mask k (v <<< lsb / 2 ^ lsb)
            ∙ ap (λ u. u % 2 ^ k) (mul-div_cancel v (one-le-pow lsb 2 (omega arith)))
            ∙ mod-eq_of_lt hv) in
    let merged = merge_lem w x (v <<< lsb) (low_mask msb lsb <<< lsb) hx mask_lt in
    rw (lt→ltb k w narrow, mask_same, val_same)
      (ap some (replaced x _ v lsb k hv (omega (arith, merged, old, new))))

-- Writing a value that fits a range, in a word that the range fits: where the range is narrower than
-- the word, it then reads as the value, and the bits above and below it are as before; where it is
-- the whole word, the write panics.
pub set_bit_range-bit_range :
    (w x msb lsb v : ℕ)
    → lsb ≤ msb
    → msb < w
    → x < 2 ^ w
    → v < 2 ^ (msb - lsb + 1)
    → ((msb - lsb + 1 ≡ w) × (set_bit_range w x msb lsb v ≡ none))
      ⊎ ((x' : ℕ) × (set_bit_range w x msb lsb v ≡ some x')
          × (msb - lsb + 1 < w)
          × (bit_range x' msb lsb ≡ v)
          × (x' / 2 ^ (msb + 1) ≡ x / 2 ^ (msb + 1))
          × (x' % 2 ^ lsb ≡ x % 2 ^ lsb))
unfolding bit_range set_bit_range
set_bit_range-bit_range w x msb lsb v order inside hx hv =
    let k = msb - lsb + 1 in
    let low = mod-lt x {m = 2 ^ lsb} (one-le-pow lsb 2 (omega arith)) in
    let (field, above, below) = digits_of (x / 2 ^ lsb / 2 ^ k) v (x % 2 ^ lsb) lsb k hv low in
    let whole = λ (y : ℕ). shifted_twice y lsb k (msb + 1) (omega arith) in
    let y = (x / 2 ^ lsb / 2 ^ k * 2 ^ k + v) * 2 ^ lsb + x % 2 ^ lsb in
    elim (Bool-cases (ltb k w)) [
      | inl e ↦
          let narrow = ltb→lt k w e in
          inr (
            y,
            set_bit_range-replaced w x msb lsb v order inside narrow hx hv,
            narrow,
            bit_and_mask k (y / 2 ^ lsb) ∙ field,
            sym (whole y) ∙ above ∙ whole x,
            below,
          )
      | inr e ↦ inl (ground arith, rw e refl)
    ]

-- What the setter of a flags field leaves of a word: only the bits `lsb` and `lsb + width` are written.
-- For the configuration of a task, whose flags are bits 61, 62 and 63 of the field from 56 to 63, it
-- writes no flag: it clears bit 56 and changes nothing else.
pub flags_set_bit_range-configuration :
    (x value : ℕ)
    → x < 2 ^ 64
    → flags_set_bit_range 64 (7 * 2 ^ 61) x 63 56 value + x / 2 ^ 56 % 2 * 2 ^ 56 ≡ x
unfolding flags_set_bit_range
flags_set_bit_range-configuration x value hx =
    let merged = merge_lem 64 x (bit_and value (7 * 2 ^ 61)) (1 * 2 ^ 56) hx (omega arith) in
    let old = bit_and-shifted 56 x 1 in
    let digit = bit_and_mask 1 (x / 2 ^ 56) in
    let flags = bit_and-shifted 61 value 7 in
    let none_there : bit_and (bit_and value (7 * 2 ^ 61)) (1 * 2 ^ 56) ≡ 0 = omega (
      arith,
      flags,
      bit_and-shifted 56 (bit_and value (7 * 2 ^ 61)) 1,
      bit_and_mask 1 (bit_and value (7 * 2 ^ 61) / 2 ^ 56),
    ) in
    omega (arith, merged, old, digit, none_there)
