-- ===== src/X86.antt =====
-- What the code uses of the `x86_64` crate: rounding of addresses, page table flags, ports.
use titanium.Base.{ℕ, ◌+◌, ◌-◌, ◌*◌, ◌/◌, ◌^◌, ◌≤◌, ◌<◌, ◌≡◌, refl, arith, bit_or}
use titanium.Base.{Option, none, some, ◌==◌, if◌then◌else◌, Bool, true, false, zero, suc, ltb, leb}
use titanium.Base.{Bool-cases, inl, inr, ==_iff, subst, one-le-pow}
use native.Mathlib.Nat.{lt-div-mul-add, div-mul-le_self}

-- `is_power_of_two` of a `u64`
abbrev power_below : ℕ → ℕ → Bool
power_below zero a = false
power_below (suc n) a = let smaller = power_below n a in if 2 ^ n == a then true else smaller

unfoldable pub is_power_of_two : ℕ → Bool
is_power_of_two a = power_below 64 a

power_below-bounds : (n a : ℕ) → power_below n a ≡ true → (0 < a) × (a + a ≤ 2 ^ n)
power_below-bounds zero a e = cc
power_below-bounds (suc n) a e = elim (Bool-cases (2 ^ n == a)) [
  | inl same ↦
      let last = (==_iff (2 ^ n) a).0 same in
      let pos = one-le-pow n 2 (omega arith) in (omega (arith, last, pos), omega (arith, last))
  | inr other ↦
      let smaller : power_below n a ≡ true =
        subst (λ b. (if b then true else power_below n a) ≡ true) other e in
      let bounds = power_below-bounds n a smaller in (bounds.0, omega (arith, bounds.1))
]

pub is_power_of_two-bounds : (a : ℕ) → is_power_of_two a ≡ true → (0 < a) × (a ≤ 2 ^ 63)
unfolding is_power_of_two
is_power_of_two-bounds a e =
    let bounds = power_below-bounds 64 a e in (bounds.0, omega (arith, bounds.1))

-- The sizes of pages
pub is_power_of_two-page : (is_power_of_two 0x1000 ≡ true) × (is_power_of_two 0x20_0000 ≡ true)
unfolding is_power_of_two
is_power_of_two-page = (refl, refl)

-- `VirtAddr::new` takes the addresses whose bits 47 to 63 are equal, and panics on others.
unfoldable pub is_canonical : ℕ → Bool
is_canonical a =
    if ltb a (2 ^ 47) then true else (if leb (2 ^ 64 - 2 ^ 47) a then ltb a (2 ^ 64) else false)

-- `align_up` returns the multiple of the alignment at the address or next above it; it panics unless
-- the alignment is a power of two, or where that multiple needs more than 64 bits.
pub record AlignUp : Type 0 where
  pub align_up : ℕ → ℕ → ℕ
  pub align_up-le : (addr align : ℕ) → is_power_of_two align ≡ true → addr ≤ align_up addr align
  pub align_up-lt :
      (addr align : ℕ) → is_power_of_two align ≡ true → align_up addr align < addr + align
  pub align_up-multiple :
      (addr align : ℕ) → is_power_of_two align ≡ true → (q : ℕ) × (align_up addr align ≡ q * align)

-- `align_down` returns the multiple at the address or next below it, for the same alignments.
pub record AlignDown : Type 0 where
  pub align_down : ℕ → ℕ → ℕ
  pub align_down-le : (addr align : ℕ) → is_power_of_two align ≡ true → align_down addr align ≤ addr
  pub align_down-lt :
      (addr align : ℕ) → is_power_of_two align ≡ true → addr < align_down addr align + align
  pub align_down-multiple :
      (addr align : ℕ)
      → is_power_of_two align ≡ true
      → (q : ℕ) × (align_down addr align ≡ q * align)

-- The flags of a page table entry that the code names, and their union.
pub record PageTableFlags : Type 0 where
  pub present : ℕ
  pub writable : ℕ
  pub write_through : ℕ
  pub no_cache : ℕ
  pub no_execute : ℕ
  pub bit_9 : ℕ
  pub bit_10 : ℕ
  pub bit_11 : ℕ
  pub union : ℕ → ℕ → ℕ

-- Mapping single pages of 4 KiB, by the addresses where pages and frames begin: `map_to`, then what a
-- page is mapped to, and how many frames the allocator has left. A page can be mapped once, and takes
-- up to three frames for page tables.
pub record PageMapper (S : Type 0) : Type 0 where
  pub map_to : S → ℕ → ℕ → ℕ → Option S
  pub translate : S → ℕ → Option (ℕ × ℕ)
  pub frames_left : S → ℕ
  pub map_to-unmapped :
      (s : S) (page frame flags : ℕ)
      → translate s page ≡ none
      → 3 ≤ frames_left s
      → (s' : S) × (map_to s page frame flags ≡ some s') × (frames_left s ≤ frames_left s' + 3)
  pub map_to-mapped :
      (s : S) (page frame flags : ℕ) (m : ℕ × ℕ)
      → translate s page ≡ some m
      → map_to s page frame flags ≡ none
  pub translate-map_to :
      (s s' : S) (page frame flags q : ℕ)
      → map_to s page frame flags ≡ some s'
      → translate s' q ≡ (if page == q then some (frame, flags) else translate s q)

-- `Port::<T>::new(p).read()` and `.write(x)`, by the width of `T`.
pub record Ports (W : Type 0) : Type 0 where
  pub in8 : ℕ → W → ℕ × W
  pub in16 : ℕ → W → ℕ × W
  pub in32 : ℕ → W → ℕ × W
  pub out8 : ℕ → ℕ → W → W
  pub out16 : ℕ → ℕ → W → W
  pub out32 : ℕ → ℕ → W → W

-- Functions that meet the interfaces.
abbrev pub round_up : ℕ → ℕ → ℕ
round_up addr align = (addr + (align - 1)) / align * align

pub round_up-le : (addr align : ℕ) → 0 < align → addr ≤ round_up addr align
round_up-le addr align pos = omega (arith, lt-div-mul-add {a = addr + (align - 1)} {b = align} pos)

pub round_up-lt : (addr align : ℕ) → 0 < align → round_up addr align < addr + align
round_up-lt addr align pos = omega (arith, div-mul-le_self (addr + (align - 1)) align)

abbrev pub rounding_up : AlignUp
rounding_up = record {
  align_up = round_up;
  align_up-le = λ addr align power. round_up-le addr align (is_power_of_two-bounds align power).0;
  align_up-lt = λ addr align power. round_up-lt addr align (is_power_of_two-bounds align power).0;
  align_up-multiple = λ addr align power. ((addr + (align - 1)) / align, refl);
}

abbrev pub rounding_down : AlignDown
rounding_down = record {
  align_down = λ addr align. addr / align * align;
  align_down-le = λ addr align power. div-mul-le_self addr align;
  align_down-lt = λ addr align power.
      lt-div-mul-add {a = addr} {b = align} (is_power_of_two-bounds align power).0;
  align_down-multiple = λ addr align power. (addr / align, refl);
}

abbrev pub page_table_flags : PageTableFlags
page_table_flags = record {
  present = 1;
  writable = 2;
  write_through = 8;
  no_cache = 0x10;
  no_execute = 2 ^ 63;
  bit_9 = 0x200;
  bit_10 = 0x400;
  bit_11 = 0x800;
  union = bit_or;
}
