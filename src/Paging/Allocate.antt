-- ===== src/Paging/Allocate.antt =====
-- `allocate_chunk_from_level`: it never panics, hands out exactly one chunk of the requested level
-- when any chunk of that level or above is free, and changes nothing otherwise.
use titanium.Base.{ℕ, ◌+◌, ◌-◌, ◌≤◌, ◌<◌, ◌≡◌, refl, subst, sym}
use titanium.Base.{true, false, Option, none, some, arith, inl, inr, Bool-cases, ◌⊎◌}
use titanium.Base.{Option-cases, ltb, ltb→lt, tests}
use titanium.Bitvec.{BitArray, IsFirstOne, set_checked_lem}
use titanium.Paging.Levels.{
  level_offset, level_offset_checked_lem, level_len, total_buddy_bits, buddy_levels,
  in_range-lt-total, absolute_to_relative_total, relative_index_to_addr, total_buddy_bits_lem,
  level_offset_mono, level_offset-lt,
}
use titanium.Paging.Allocator.{allocate_found, allocate_chunk_from_level}
use titanium.Paging.Cover.{chunk, cover, cover-set, Held, Without, NoOverlap}
use titanium.Paging.Split.{split_chunk_lem}

module _ {B : Type 0} (v : BitArray total_buddy_bits B) where
  -- No chunk of level `l` or above is free.
  abbrev pub Exhausted : B → ℕ → Type 0
  Exhausted b l = (m i : ℕ) → l ≤ m → m < buddy_levels → i < level_len m → chunk v b m i ≡ false

  -- `r` is a normal return: no chunk and no change, or one chunk of level `l`, which leaves the
  -- free frames.
  abbrev pub Allocates : B → ℕ → Option (B × Option ℕ) → Type 0
  Allocates b l r =
      (Exhausted b l × (r ≡ some (b, none)))
      ⊎ ((b' : B) × (i : ℕ) × (r ≡ some (b', some (relative_index_to_addr (i, l))))
          × (i < level_len l)
          × Without v (cover v b) b' l i)

  Held-start :
      (b : B) (l i : ℕ)
      → l < buddy_levels
      → i < level_len l
      → chunk v b l i ≡ true
      → Held v (cover v b) b l i
  Held-start b l i hl hi e f hf = ground (arith, cover-set v b l i false f hl hi hf)

  level_offset-le : (l m : ℕ) → l ≤ m → level_offset l ≤ level_offset m
  level_offset-le l m h =
      subst (λ t. level_offset l ≤ level_offset t) (omega arith) (level_offset_mono l (m - l))

  not_found :
      (b : B) (l : ℕ) → IsFirstOne (v.get b) (level_offset l) total_buddy_bits none → Exhausted b l
  not_found b l none_set m i lm hm hi =
      none_set (i + level_offset m) (omega (arith, level_offset-le l m lm))
        (in_range-lt-total m i hm hi)

  lower-le :
      (b : B) (l level i : ℕ)
      → i < level_len level
      → level_offset l ≤ i + level_offset level
      → l ≤ level
  lower-le b l level i hi h = elim (Bool-cases (ltb level l)) [
    | inl below ↦ absurd (omega (tests, level_offset-lt level l (ltb→lt level l below)))
    | inr above ↦ ground arith
  ]

  allocate_found_lem :
      (b : B) (l r : ℕ)
      → l < buddy_levels
      → NoOverlap v b
      → IsFirstOne (v.get b) (level_offset l) total_buddy_bits (some r)
      → Allocates b l (allocate_found v b l (level_offset l) (some r))
  unfolding allocate_found
  allocate_found_lem b l r hl sole found =
      let (bit_i, level, decodes, hlevel, hbit, place) =
        absolute_to_relative_total (r + level_offset l) (omega arith) in
      let l≤level : l ≤ level = lower-le b l level bit_i hbit (omega arith) in
      let e : l + (level - l) ≡ level = omega arith in
      let marked : chunk v b level bit_i ≡ true =
        subst (λ t. v.get b t ≡ true) (omega arith) found.1 in
      let split =
        split_chunk_lem v (cover v b) sole b l (level - l) bit_i (omega arith)
          (subst (λ t. bit_i < level_len t) (sym e) hbit)
          (subst (λ t. Held v (cover v b) b t bit_i) (sym e)
            (Held-start b level bit_i hlevel hbit marked)) in
      inr (
        v.set split.0 (split.1 + level_offset l) false,
        split.1,
        rw (
          decodes,
          split.2,
          set_checked_lem v split.0 (split.1 + level_offset l) false
              (in_range-lt-total l split.1 hl split.3),
        ),
        split.3,
        split.4,
      )

  Exhausted-first_one :
      (b : B) (l : ℕ)
      → Exhausted b l
      → (o : Option ℕ) → IsFirstOne (v.get b) (level_offset l) total_buddy_bits o
      → o ≡ none
  Exhausted-first_one b l empty none found = refl
  Exhausted-first_one b l empty (some r) found =
      let (i, level, _, hlevel, hi, place) =
        absolute_to_relative_total (r + level_offset l) (omega arith) in
      let set_bit : chunk v b level i ≡ true =
        subst (λ t. v.get b t ≡ true) (omega arith) found.1 in
      let clear_bit = empty level i (lower-le b l level i hi (omega arith)) hlevel hi in cc

  search_lem :
      (b : B) (l : ℕ)
      → l < buddy_levels
      → IsFirstOne (v.get b) (level_offset l) total_buddy_bits (v.first_one b (level_offset l))
  search_lem b l hl =
      v.first_one_lem b (level_offset l)
        (omega (arith, total_buddy_bits_lem, level_offset-le l buddy_levels (omega arith)))

  -- With nothing free at the level or above, the result is `None` and nothing changes.
  pub allocate_chunk-Exhausted :
      (b : B) (l : ℕ)
      → l < buddy_levels
      → Exhausted b l
      → allocate_chunk_from_level v b l ≡ some (b, none)
  unfolding allocate_chunk_from_level allocate_found
  allocate_chunk-Exhausted b l hl empty = rw (
    level_offset_checked_lem l (omega arith),
    Exhausted-first_one b l empty (v.first_one b (level_offset l)) (search_lem b l hl),
  )

  -- Where no frame is in two free chunks, an allocation at a level below 16 returns normally: with
  -- nothing and no change where no chunk of the level or above is free, and otherwise with the
  -- address of a chunk of the level, whose frames are exactly those that stop being free.
  pub allocate_chunk_from_level_lem :
      (b : B) (l : ℕ)
      → l < buddy_levels
      → NoOverlap v b
      → Allocates b l (allocate_chunk_from_level v b l)
  unfolding allocate_chunk_from_level
  allocate_chunk_from_level_lem b l hl sole = elim (Option-cases (v.first_one b (level_offset l))) [
    | inl e ↦
        rw (level_offset_checked_lem l (omega arith), e)
          (inl (
            not_found b l (
                subst (IsFirstOne (v.get b) (level_offset l) total_buddy_bits) e
                  (search_lem b l hl)),
            unfold allocate_found in refl,
          ))
    | inr (r, e) ↦
        rw (level_offset_checked_lem l (omega arith), e)
          (allocate_found_lem b l r hl sole
            (subst (IsFirstOne (v.get b) (level_offset l) total_buddy_bits) e (search_lem b l hl)))
  ]
