-- ===== src/Paging/Levels.antt =====
-- The index arithmetic of the buddy allocator (src/paging.rs): where each level's bits start, and
-- the passage between absolute bit indices, (index, level) pairs and physical addresses.
mod Index
mod Offsets
unfoldable pub use Index.*
pub use Offsets.*
use titanium.Base.{false}
use titanium.Base.{ℕ, zero, suc, ◌+◌, ◌-◌, ◌*◌, ◌/◌, ◌^◌, ◌≤◌, ◌<◌, ◌≡◌, refl, ap}
use titanium.Base.{inl, inr, Bool, true, Option, none, some, arith}
use titanium.Base.{
  ltb, ◌==◌, ==_iff, if◌then◌else◌, Bool-cases, lt→ltb, le→ltb, ltb→lt, tests, subst, le_refl,
}
use native.Mathlib.Nat.{add-zero, add-suc, mul-div_cancel, one-le-pow}
use titanium.Base.Bits.{◌<<<◌, ◌>>>◌}
use titanium.Vmem.{page_size}

module _ (l i : ℕ) (hi : i < level_len l) where
  find_level_lem :
      (left level : ℕ)
      → level ≤ l
      → l < level + left
      → find_level left level (i + level_offset l) ≡ some (i, l)
  unfolding find_level
  find_level_lem zero level p q = absurd (omega arith)
  find_level_lem (suc left) level p q = elim (Bool-cases (level == l)) [
    | inl same ↦
        let e = (==_iff level l).0 same in
        rw
          (
            e,
            lt→ltb (i + level_offset l) (level_offset (suc l)) (omega (arith, level_offset-suc l)),
          )
          (ap (λ (t : ℕ). some (t, l)) (omega arith))
    | inr other ↦
        rw
          (le→ltb (i + level_offset l) (level_offset (suc level))
            (omega (arith, level_offset-suc level, level_offset-lt level l (ground arith))))
          (find_level_lem left (suc level) (ground arith) (omega arith))
  ]

-- Encoding a pair as an absolute index and decoding it gives the pair back.
pub absolute-relative_roundtrip :
    (l i : ℕ)
    → l < buddy_levels
    → i < level_len l
    → absolute_to_relative (relative_to_absolute (i, l)) ≡ some (i, l)
unfolding absolute_to_relative relative_to_absolute
absolute-relative_roundtrip l i hl hi = find_level_lem l i hi buddy_levels 0 (omega arith) hl

find_level_total :
    (left level a : ℕ)
    → level_offset level ≤ a
    → a < level_offset (level + left)
    → (i l : ℕ) × (find_level left level a ≡ some (i, l))
      × (level ≤ l)
      × (l < level + left)
      × (i < level_len l)
      × (a ≡ i + level_offset l)
unfolding find_level
find_level_total zero level a p q = absurd (omega (arith, ap level_offset (add-zero level)))
find_level_total (suc left) level a p q = elim (Bool-cases (ltb a (level_offset (suc level)))) [
  | inl inside ↦ (
    a - level_offset level,
    level,
    rw inside,
    le_refl _,
    omega arith,
    omega (tests, level_offset-suc level),
    omega arith,
  )
  | inr outside ↦
      let r =
        find_level_total left (suc level) a (ground arith)
          (subst (λ t. a < level_offset t) (omega arith) q) in
      (r.0, r.1, rw outside r.2, omega arith, omega arith, r.5, r.6)
]

-- Every bit of the array decodes, to a pair in range that encodes to it.
pub absolute_to_relative_total :
    (a : ℕ)
    → a < total_buddy_bits
    → (i l : ℕ) × (absolute_to_relative a ≡ some (i, l))
      × (l < buddy_levels)
      × (i < level_len l)
      × (a ≡ i + level_offset l)
unfolding absolute_to_relative
absolute_to_relative_total a h =
    let r =
      find_level_total buddy_levels 0 a (unfold level_offset in omega arith)
        (omega (arith, total_buddy_bits_lem)) in
    (r.0, r.1, r.2, omega arith, r.5, r.6)

pub level_offset_checked_lem :
    (l : ℕ) → l ≤ buddy_levels → level_offset_checked l ≡ some (level_offset l)
unfolding level_offset_checked
level_offset_checked_lem l h = ground arith

pub total_buddy_bits-lt : total_buddy_bits < 2 ^ 32
unfolding total_buddy_bits level_offset
total_buddy_bits-lt = omega arith

pub level_offset-zero : level_offset 0 ≡ 0
unfolding level_offset
level_offset-zero = refl

pub frame_level-zero : level_len 0 ≡ 2 ^ 24
unfolding level_len
frame_level-zero = refl

pub level_2mib_len : level_len level_2mib ≡ 2 ^ 15
unfolding level_len
level_2mib_len = refl

pub addr-relative_index : (f : ℕ) → addr_to_relative_index (f * page_size) 0 ≡ f
unfolding addr_to_relative_index
addr-relative_index f = omega arith

pub addr-relative_index_2mib : (n : ℕ) → addr_to_relative_index (n * 0x20_0000) level_2mib ≡ n
unfolding addr_to_relative_index
addr-relative_index_2mib n = omega arith

pub addr-index_zero : (i : ℕ) → i * page_size ≡ relative_index_to_addr (i, 0)
unfolding relative_index_to_addr
addr-index_zero i = omega arith

pub addr-roundtrip : (i l : ℕ) → addr_to_relative_index (relative_index_to_addr (i, l)) l ≡ i
unfolding addr_to_relative_index relative_index_to_addr
addr-roundtrip i l =
    let regroup : i * page_size * 2 ^ l ≡ i * 2 ^ l * page_size = omega arith in
    rw regroup (
      rw (mul-div_cancel (i * 2 ^ l) {n = page_size} (omega arith))
        (mul-div_cancel i (one-le-pow l 2 (omega arith))))

pub addr-level : (i l : ℕ) → relative_index_to_addr (i, l) ≡ i * 2 ^ l * page_size
unfolding relative_index_to_addr
addr-level i l = omega arith

-- Cancelling a common factor.
pub index-lt : (i n p : ℕ) → (i + 1) * p ≤ n * p → 1 ≤ p → i < n
index-lt i n p h pos = grind arith

-- A page at or past 64 GiB whose level 0 index lies in the array has no bit of its own: that index
-- decodes to a chunk of a higher level.
pub level_zero_overrun :
    (index : ℕ)
    → 2 ^ 24 ≤ index
    → index < total_buddy_bits
    → (i l : ℕ) × (absolute_to_relative (relative_to_absolute (index, 0)) ≡ some (i, l))
      × (1 ≤ l)
      × (relative_to_absolute (i, l) ≡ relative_to_absolute (index, 0))
unfolding relative_to_absolute
level_zero_overrun index past inside =
    let at_zero : index + level_offset 0 ≡ index = omega (arith, level_offset-zero) in
    let r = absolute_to_relative_total index inside in
    (
      r.0,
      r.1,
      rw at_zero r.2,
      not_zero r.1 (λ e. omega (
        arith,
        r.4,
        r.5,
        level_offset-zero,
        frame_level-zero,
        ap level_len e,
        ap level_offset e,
      )),
      omega (arith, level_offset-zero, r.5),
    )
  where
    not_zero : (n : ℕ) → (n ≡ 0 → ⊥) → 1 ≤ n
    not_zero zero h = absurd (h refl)
    not_zero (suc n) h = omega arith
