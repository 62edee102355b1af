-- ===== src/Paging/Split.antt =====
-- The splitting loop of `allocate_chunk_from_level`: it hands down the lower half of a free chunk
-- and marks the upper halves free.
use titanium.Base.{ℕ, zero, suc, ◌+◌, ◌*◌, ◌^◌, ◌≤◌, ◌<◌, ◌≡◌, refl, ◌∙◌, subst}
use titanium.Base.{true, false, some, arith, inl, inr, Bool-cases}
use titanium.Bitvec.{BitArray, set_checked_lem}
use titanium.Paging.Levels.{
  level_offset, level_len, total_buddy_bits, buddy_levels, level_len-half, in_range-lt-total,
}
use native.Mathlib.Nat.{add-zero, add-suc}
use titanium.Paging.Allocator.{split_chunk}
use titanium.Paging.Cover.{
  chunk, cover-set, chunk-le-cover, chunk-set, Held, Without, frame_count, within, within-first,
  within-halves,
}

split_chunk-suc :
    {B : Type 0} (v : BitArray total_buddy_bits B) (b : B) (m n i : ℕ)
    → suc (m + n) < buddy_levels
    → i < level_len (suc (m + n))
    → i * 2 + 1 < level_len (m + n)
    → split_chunk v b m (suc n) i
      ≡ split_chunk v
          (v.set
            (v.set b (i + level_offset (suc (m + n))) false)
            (i * 2 + 1 + level_offset (m + n))
            true)
          m
          n
          (i * 2)
unfolding split_chunk
split_chunk-suc v b m n i h k up =
    let swap : i * 2 + level_offset (m + n) + 1 ≡ i * 2 + 1 + level_offset (m + n) = omega arith in
    rw (
      set_checked_lem v b (i + level_offset (suc (m + n))) false
          (in_range-lt-total (suc (m + n)) i h k),
      swap,
      set_checked_lem v (v.set b (i + level_offset (suc (m + n))) false)
          (i * 2 + 1 + level_offset (m + n)) true
          (in_range-lt-total (m + n) (i * 2 + 1) (omega arith) up),
    )

module _ {B : Type 0} (v : BitArray total_buddy_bits B) (c : ℕ → ℕ)
    (sole : (f : ℕ) → f < frame_count → c f ≤ 1) where
  -- A chunk whose frames are all taken is not marked free.
  pub Without-chunk :
      (b : B) (l i m j : ℕ)
      → l < buddy_levels
      → i < level_len l
      → m < buddy_levels
      → j < level_len m
      → Without v c b l i
      → within l i (j * 2 ^ m) ≡ 1
      → chunk v b m j ≡ false
  Without-chunk b l i m j hl hi hm hj out inside = elim (Bool-cases (chunk v b m j)) [
    | inr e ↦ e
    | inl e ↦
        let (there, below) = within-first m j hm hj in
        absurd (
          ground (
            arith,
            chunk-le-cover v b m (j * 2 ^ m) hm,
            out (j * 2 ^ m) below,
            sole (j * 2 ^ m) below,
          ))
  ]

  halves-clear :
      (b : B) (l i : ℕ)
      → suc l < buddy_levels
      → i < level_len (suc l)
      → Without v c b (suc l) i
      → (chunk v b l (i * 2) ≡ false) × (chunk v b l (i * 2 + 1) ≡ false)
  halves-clear b l i hl hi out =
      let hl' : l < buddy_levels = omega arith in
      let lo : i * 2 < level_len l = omega (arith, level_len-half l hl') in
      let hi' : i * 2 + 1 < level_len l = omega (arith, level_len-half l hl') in
      (
        Without-chunk b (suc l) i l (i * 2) hl hi hl' lo out
            (ground (arith, within-first l (i * 2) hl' lo, within-halves l i (i * 2 * 2 ^ l))),
        Without-chunk b (suc l) i l (i * 2 + 1) hl hi hl' hi' out (
            ground
              (arith, within-first l (i * 2 + 1) hl' hi', within-halves l i ((i * 2 + 1) * 2 ^ l))),
      )

  -- One round: clear the chunk, mark its upper half, go on with the lower.
  split_round :
      (b : B) (l i : ℕ)
      → suc l < buddy_levels
      → i < level_len (suc l)
      → Held v c b (suc l) i
      → let b' = v.set b (i + level_offset (suc l)) false in
        let b'' = v.set b' (i * 2 + 1 + level_offset l) true in Held v c b'' l (i * 2)
  split_round b l i hl hi held = λ f hf.
      let hl' : l < buddy_levels = omega arith in
      let b' = v.set b (i + level_offset (suc l)) false in
      let b'' = v.set b' (i * 2 + 1 + level_offset l) true in
      let lo : i * 2 < level_len l = omega (arith, level_len-half l hl') in
      let up : i * 2 + 1 < level_len l = omega (arith, level_len-half l hl') in
      ground (
        arith,
        held f hf,
        halves-clear b' l i hl hi held,
        chunk-set v b' l (i * 2 + 1) true l (i * 2) hl' up lo,
        cover-set v b' l (i * 2 + 1) true f hl' up hf,
        cover-set v b'' l (i * 2) false f hl' lo hf,
        within-halves l i f,
      )

  pub split_chunk_lem :
      (b : B) (min_level rounds i : ℕ)
      → min_level + rounds < buddy_levels
      → i < level_len (min_level + rounds)
      → Held v c b (min_level + rounds) i
      → (b' : B) × (i' : ℕ) × (split_chunk v b min_level rounds i ≡ some (b', i'))
        × (i' < level_len min_level)
        × Held v c b' min_level i'
  unfolding split_chunk
  split_chunk_lem b m zero i h k held = (
    b,
    i,
    refl,
    subst (λ t. i < level_len t) (add-zero m) k,
    subst (λ t. Held v c b t i) (add-zero m) held,
  )
  split_chunk_lem b m (suc n) i h k held =
      let l = m + n in
      let e : m + suc n ≡ suc l = add-suc m n in
      let h' : suc l < buddy_levels = omega arith in
      let k' : i < level_len (suc l) = subst (λ t. i < level_len t) e k in
      let up : i * 2 + 1 < level_len l = omega (arith, level_len-half l (omega arith)) in
      let b' = v.set b (i + level_offset (suc l)) false in
      let b'' = v.set b' (i * 2 + 1 + level_offset l) true in
      let r =
        split_chunk_lem b'' m n (i * 2) (omega arith) (omega arith)
          (split_round b l i h' k' (subst (λ t. Held v c b t i) e held)) in
      (r.0, r.1, split_chunk-suc v b m n i h' k' up ∙ r.2, r.3, r.4)
