-- ===== src/Paging/Merge.antt =====
-- `merge_up_from`: joining free buddies changes no frame's state.
use Prim.Native.Nat.{bit_and}
use titanium.Base.{ℕ, zero, suc, ◌+◌, ◌-◌, ◌*◌, ◌/◌, ◌^◌, ◌≤◌, ◌<◌, ◌≡◌, refl, ◌∙◌}
use titanium.Base.{true, false, some, arith, inl, inr, Bool-cases}
use titanium.Base.{if◌then◌else◌}
use titanium.Base.Bits.{clear_low_bit}
use titanium.Bitvec.{BitArray, set_checked_lem, get_checked_lem}
use titanium.Paging.Levels.{
  level_offset, level_len, total_buddy_bits, buddy_levels, level_len-half, in_range-lt-total,
  level_offset-even, total_buddy_bits-lt,
}
use titanium.Paging.Allocator.{merge_loop}
use titanium.Paging.Cover.{
  chunk, cover, cover-set, chunk-set, Without, frame_count, within-first, within-halves,
}
use titanium.Paging.Split.{Without-chunk}

module _ {B : Type 0} (v : BitArray total_buddy_bits B) where
  -- The bits after a pair of buddies has been joined.
  abbrev pub joined : B → ℕ → ℕ → B
  joined b l j =
      v.set (v.set (v.set b (j * 2 + level_offset l) false) (j * 2 + 1 + level_offset l) false)
        (j + level_offset (suc l)) true

  -- `i & !1` rounds an absolute index down to the even member of its pair.
  pair_base :
      (l i : ℕ)
      → l < buddy_levels
      → i < level_len l
      → bit_and (i + level_offset l) (2 ^ 64 - 2) ≡ i / 2 * 2 + level_offset l
  pair_base l i hl hi = omega (
    arith,
    clear_low_bit (i + level_offset l)
        (omega (arith, in_range-lt-total l i hl hi, total_buddy_bits-lt)),
    level_offset-even l (omega arith),
  )

  -- What one round does, by the two bits that it reads.
  pub merge_loop-suc :
      (b : B) (l n i : ℕ)
      → suc l < buddy_levels
      → i < level_len l
      → merge_loop v b l (suc n) (i + level_offset l) ≡ (
          if chunk v b l (i / 2 * 2)
          then (if chunk v b l (i / 2 * 2 + 1)
              then merge_loop v (joined b l (i / 2)) (suc l) n (i / 2 + level_offset (suc l))
              else some b)
          else some b)
  unfolding merge_loop
  merge_loop-suc b l n i hl hi =
      let hl' : l < buddy_levels = omega arith in
      let lo : i / 2 * 2 < level_len l = omega arith in
      let up : i / 2 * 2 + 1 < level_len l = omega (arith, level_len-half l hl') in
      let j : i / 2 < level_len (suc l) = omega (arith, level_len-half l hl') in
      let base = i / 2 * 2 + level_offset l in
      let b1 = v.set b (i / 2 * 2 + level_offset l) false in
      let b2 = v.set b1 (i / 2 * 2 + 1 + level_offset l) false in
      let swap : base + 1 ≡ i / 2 * 2 + 1 + level_offset l = omega arith in
      let half : (base - level_offset l) / 2 ≡ i / 2 = omega arith in
      ground (
        arith,
        pair_base l i hl' hi,
        swap,
        half,
        get_checked_lem v b base (in_range-lt-total l (i / 2 * 2) hl' lo),
        get_checked_lem v b (i / 2 * 2 + 1 + level_offset l)
            (in_range-lt-total l (i / 2 * 2 + 1) hl' up),
        set_checked_lem v b base false (in_range-lt-total l (i / 2 * 2) hl' lo),
        set_checked_lem v b1 (i / 2 * 2 + 1 + level_offset l) false
            (in_range-lt-total l (i / 2 * 2 + 1) hl' up),
        set_checked_lem v b2 (i / 2 + level_offset (suc l)) true
            (in_range-lt-total (suc l) (i / 2) hl j),
      )

  module _ (c : ℕ → ℕ) (sole : (f : ℕ) → f < frame_count → c f ≤ 1) where
    -- With both halves taken out, the frames of the chunk above are taken.
    parted_lem :
        (b : B) (l j : ℕ)
        → suc l < buddy_levels
        → j < level_len (suc l)
        → ((f : ℕ) → f < frame_count → cover v b f ≡ c f)
        → chunk v b l (j * 2) ≡ true
        → chunk v b l (j * 2 + 1) ≡ true
        → Without v c
            (v.set (v.set b (j * 2 + level_offset l) false) (j * 2 + 1 + level_offset l) false)
            (suc l)
            j
    parted_lem b l j hl hj same even odd f hf =
        let hl' : l < buddy_levels = omega arith in
        let lo : j * 2 < level_len l = omega (arith, level_len-half l hl') in
        let up : j * 2 + 1 < level_len l = omega (arith, level_len-half l hl') in
        let b1 = v.set b (j * 2 + level_offset l) false in
        ground (
          arith,
          same f hf,
          chunk-set v b l (j * 2) false l (j * 2 + 1) hl' lo up,
          cover-set v b l (j * 2) false f hl' lo hf,
          cover-set v b1 l (j * 2 + 1) false f hl' up hf,
          within-halves l j f,
        )

    joined-cover :
        (b : B) (l j : ℕ)
        → suc l < buddy_levels
        → j < level_len (suc l)
        → ((f : ℕ) → f < frame_count → cover v b f ≡ c f)
        → chunk v b l (j * 2) ≡ true
        → chunk v b l (j * 2 + 1) ≡ true
        → (f : ℕ) → f < frame_count
        → cover v (joined b l j) f ≡ c f
    joined-cover b l j hl hj same even odd f hf =
        let hl' : l < buddy_levels = omega arith in
        let lo : j * 2 < level_len l = omega (arith, level_len-half l hl') in
        let up : j * 2 + 1 < level_len l = omega (arith, level_len-half l hl') in
        let b1 = v.set b (j * 2 + level_offset l) false in
        let b2 = v.set b1 (j * 2 + 1 + level_offset l) false in
        let parted = parted_lem b l j hl hj same even odd in
        let whole =
          Without-chunk v c sole b2 (suc l) j (suc l) j hl hj hl hj parted
            (ground (arith, within-first (suc l) j hl hj)) in
        ground (arith, parted f hf, whole, cover-set v b2 (suc l) j true f hl hj hf)

    pub merge_loop_lem :
        (b : B) (l n i : ℕ)
        → l + n < buddy_levels
        → i < level_len l
        → ((f : ℕ) → f < frame_count → cover v b f ≡ c f)
        → (b' : B) × (merge_loop v b l n (i + level_offset l) ≡ some b')
          × ((f : ℕ) → f < frame_count → cover v b' f ≡ c f)
    merge_loop_lem b l zero i h hi same = (b, unfold merge_loop in refl, same)
    merge_loop_lem b l (suc n) i h hi same = elim (Bool-cases (chunk v b l (i / 2 * 2))) [
      | inr e ↦ (b, merge_loop-suc b l n i hl hi ∙ ground (arith), same)
      | inl even ↦ elim (Bool-cases (chunk v b l (i / 2 * 2 + 1))) [
        | inr e ↦ (b, merge_loop-suc b l n i hl hi ∙ ground (arith), same)
        | inl odd ↦
            let r =
              merge_loop_lem (joined b l (i / 2)) (suc l) n (i / 2) (omega arith) hj
                (joined-cover b l (i / 2) hl hj same even odd) in
            (r.0, merge_loop-suc b l n i hl hi ∙ ground (arith, r.1), r.2)
      ]
    ]
      where
        hl : suc l < buddy_levels
        hl = omega arith

        hj : i / 2 < level_len (suc l)
        hj = omega (arith, level_len-half l (omega arith))
