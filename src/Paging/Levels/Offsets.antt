-- ===== src/Paging/Levels/Offsets.antt =====
-- Where the bits of each level start: the levels cover the same pages and do not overlap.
use titanium.Base.{false}
use titanium.Base.{ℕ, zero, suc, ◌+◌, ◌-◌, ◌*◌, ◌/◌, ◌^◌, ◌≤◌, ◌<◌, ◌≡◌, refl, ap}
use titanium.Base.{inl, inr, Bool, true, arith}
use titanium.Base.{ltb, ◌==◌, ==_iff, if◌then◌else◌, Bool-cases, ltb→lt, tests, le_refl}
use native.Mathlib.Nat.{add-zero, add-suc}
use titanium.Paging.Levels.Index.{buddy_levels, level_len, level_offset, total_buddy_bits}

-- Sixteen levels are checked one by one.
every_level : (ℕ → Bool) → ℕ → Bool
every_level test zero = true
every_level test (suc below) = if test below then every_level test below else false

every_level_lem :
    (test : ℕ → Bool) (levels l : ℕ) → l < levels → every_level test levels ≡ true → test l ≡ true
unfolding every_level
every_level_lem test zero l inside all = absurd (omega arith)
every_level_lem test (suc below) l inside all = ground (arith, every_level_lem test below l)

len_table : every_level (λ l. level_len l * 2 ^ l == 2 ^ 24) 17 ≡ true
unfolding every_level level_len
len_table = refl

-- Each level covers the same 2 ^ 24 pages.
pub level_len-pages : (l : ℕ) → l ≤ buddy_levels → level_len l * 2 ^ l ≡ 2 ^ 24
level_len-pages l h = (==_iff _ _).0 (every_level_lem _ 17 l (omega arith) len_table)

half_table : every_level (λ l. level_len l == 2 * level_len (suc l)) 16 ≡ true
unfolding every_level level_len
half_table = refl

pub level_len-half : (l : ℕ) → l < buddy_levels → level_len l ≡ 2 * level_len (suc l)
level_len-half l h = (==_iff _ _).0 (every_level_lem _ 16 l h half_table)

even_table : every_level (λ l. level_offset l == level_offset l / 2 * 2) 17 ≡ true
unfolding every_level level_offset
even_table = refl

pub level_offset-even : (l : ℕ) → l ≤ buddy_levels → level_offset l ≡ level_offset l / 2 * 2
level_offset-even l h = (==_iff _ _).0 (every_level_lem _ 17 l (omega arith) even_table)

pub level_offset-suc : (l : ℕ) → level_offset (suc l) ≡ level_offset l + level_len l
unfolding level_offset
level_offset-suc l = refl

pub total_buddy_bits_lem : total_buddy_bits ≡ level_offset buddy_levels
unfolding total_buddy_bits
total_buddy_bits_lem = refl

pub level_offset_mono : (l d : ℕ) → level_offset l ≤ level_offset (l + d)
level_offset_mono l zero = rw (add-zero l) (le_refl _)
level_offset_mono l (suc d) =
    rw (add-suc l d) (omega (arith, level_offset_mono l d, level_offset-suc (l + d)))

-- The levels are disjoint: the bits of the lower stand before those of the higher.
pub level_offset-lt : (l m : ℕ) → l < m → level_offset l + level_len l ≤ level_offset m
level_offset-lt l m h =
    let e : suc l + (m - suc l) ≡ m = omega arith in
    omega (arith, level_offset-suc l, rw e at (level_offset_mono (suc l) (m - suc l)))

pub in_range-lt-total :
    (l i : ℕ) → l < buddy_levels → i < level_len l → i + level_offset l < total_buddy_bits
in_range-lt-total l i h k = omega (arith, total_buddy_bits_lem, level_offset-lt l buddy_levels h)

-- No two pairs in range share a bit.
pub absolute-injective :
    (l i m j : ℕ)
    → i < level_len l
    → j < level_len m
    → i + level_offset l ≡ j + level_offset m
    → (l ≡ m) × (i ≡ j)
absolute-injective l i m j hi hj e = elim (Bool-cases (l == m)) [
  | inl same ↦ let l≡m = (==_iff l m).0 same in (l≡m, omega (arith, ap level_offset l≡m))
  | inr other ↦ elim (Bool-cases (ltb l m)) [
    | inl less ↦ absurd (omega (tests, level_offset-lt l m (ltb→lt l m less)))
    | inr more ↦ absurd (omega (arith, level_offset-lt m l (ground arith)))
  ]
]
