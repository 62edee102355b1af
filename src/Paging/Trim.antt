-- ===== src/Paging/Trim.antt =====
-- The tail of `pick_off_contiguous`: the frames of the chunk past the request go back, as chunks
-- of falling size.
use titanium.Base.{ℕ, zero, suc, ◌+◌, ◌-◌, ◌*◌, ◌^◌, ◌≤◌, ◌<◌, ◌≡◌, ap, ◌∙◌, subst, sym}
use titanium.Base.{true, some, arith, inl, inr, Bool-cases}
use titanium.Base.{pow-suc, Option-cases, ltb, leb, ltb→lt, ◌&&◌}
use native.Mathlib.Nat.{add-zero, add-suc, mul_assoc}
use titanium.Base.{pow-le-pow_right, one-le-pow}
use titanium.Base.Bits.{◌<<<◌}
use titanium.Base.Powers.{IsHighest, highest_one, highest_one_lem, clear_bit, clear_bit-highest}
use titanium.Bitvec.{BitArray, set_checked_lem}
use titanium.Paging.Levels.{
  level_offset, level_len, total_buddy_bits, buddy_levels, level_len-pages, in_range-lt-total,
  relative_to_absolute, index-lt,
}
use titanium.Paging.Allocator.{trim_loop}
use titanium.Paging.Cover.{cover, cover-set, chunk-of_taken, frame_count, count, within-range}

-- 1 if `f` lies in the range from `lo` up to `hi`.
abbrev pub between : ℕ → ℕ → ℕ → ℕ
between lo hi f = count (leb lo f && ltb f hi)

pow-add : (a d : ℕ) → 2 ^ (a + d) ≡ 2 ^ a * 2 ^ d
pow-add a zero = ground (arith, add-zero a)
pow-add a (suc d) =
    rw (add-suc a d, pow-suc 2 (a + d), pow-add a d, pow-suc 2 d) (mul_assoc (2 ^ a) (2 ^ d) 2)

-- An index, widened to a lower level, ends at the same frame.
widen : (l bound i : ℕ) → l ≤ bound → (i <<< (bound - l)) * 2 ^ l ≡ i * 2 ^ bound
widen l bound i h =
    mul_assoc i (2 ^ (bound - l)) (2 ^ l)
    ∙ ap (λ t. i * t) (sym (pow-add (bound - l) l) ∙ ap (λ t. 2 ^ t) (omega arith))

highest-lt : (k l o : ℕ) → 2 ^ k ≤ o → o < 2 ^ l → k < l
highest-lt k l o lo hi = elim (Bool-cases (ltb k l)) [
  | inl less ↦ ltb→lt k l less
  | inr more ↦
      absurd (omega (arith, pow-le-pow_right {n = 2} (omega arith) {i = l} {j = k} (ground arith)))
]

pos_of_product : (w p : ℕ) → 1 ≤ w * p → 1 ≤ w
pos_of_product zero p h = absurd (omega arith)
pos_of_product (suc w) p h = omega arith

trim_loop-some :
    {B : Type 0} (v : BitArray total_buddy_bits B) (fuel : ℕ) (b : B) (o i l k : ℕ)
    → highest_one o ≡ some k
    → i <<< (l - k) - 1 + level_offset k < total_buddy_bits
    → trim_loop v (suc fuel) b o i l
      ≡ trim_loop v fuel
          (v.set b (i <<< (l - k) - 1 + level_offset k) true)
          (clear_bit o k)
          (i <<< (l - k) - 1)
          k
unfolding trim_loop relative_to_absolute
trim_loop-some v fuel b o i l k e h =
    ground (arith, set_checked_lem v b (i <<< (l - k) - 1 + level_offset k) true h)

-- The free frames are those of `c` less the range.
abbrev pub Region : {B : Type 0} → BitArray total_buddy_bits B → (ℕ → ℕ) → B → ℕ → ℕ → Type 0
Region v c b lo hi = (f : ℕ) → f < frame_count → cover v b f + between lo hi f ≡ c f

module _ {B : Type 0} (v : BitArray total_buddy_bits B) (c : ℕ → ℕ)
    (sole : (f : ℕ) → f < frame_count → c f ≤ 1) where
  -- One round marks the chunk under the end of the range.
  pub trim_round :
      (b : B) (lo l i : ℕ)
      → l < buddy_levels
      → i < level_len l
      → lo ≤ i * 2 ^ l
      → (i + 1) * 2 ^ l ≤ frame_count
      → Region v c b lo ((i + 1) * 2 ^ l)
      → Region v c (v.set b (i + level_offset l) true) lo (i * 2 ^ l)
  trim_round b lo l i hl hi fits top region f hf =
      let start : i * 2 ^ l < frame_count = omega (arith, one-le-pow l 2) in
      let taken : cover v b (i * 2 ^ l) ≡ 0 =
        ground (arith, one-le-pow l 2, region (i * 2 ^ l) start, sole (i * 2 ^ l) start) in
      ground (
        arith,
        region f hf,
        chunk-of_taken v b l i hl hi taken,
        cover-set v b l i true f hl hi hf,
        within-range l i f,
      )

  pub trim_loop_lem :
      (fuel : ℕ) (b : B) (lo overflow index bound : ℕ)
      → bound < fuel
      → bound < buddy_levels
      → overflow < 2 ^ bound
      → lo + overflow ≤ index * 2 ^ bound
      → index * 2 ^ bound ≤ frame_count
      → Region v c b lo (index * 2 ^ bound)
      → (b' : B) × (trim_loop v fuel b overflow index bound ≡ some b')
        × Region v c b' lo (index * 2 ^ bound - overflow)
  unfolding trim_loop relative_to_absolute
  trim_loop_lem zero b lo o i l h hl ho below top region = absurd (omega arith)
  trim_loop_lem (suc fuel) b lo o i l h hl ho below top region =
      elim (Option-cases (highest_one o)) [
        | inl e ↦
            let none_left : o ≡ 0 = subst (IsHighest o) e highest in
            (b, unfold trim_loop in ground arith, subst (Region v c b lo) (omega arith) region)
        | inr (k, e) ↦
            let top_bit : IsHighest o (some k) = subst (IsHighest o) e highest in
            let less : k < l = highest-lt k l o top_bit.0 ho in
            let w = i <<< (l - k) in
            let ends : w * 2 ^ k ≡ i * 2 ^ l = widen k l i (omega arith) in
            let some_left : 1 ≤ w = pos_of_product w (2 ^ k) (omega (arith, one-le-pow k 2)) in
            let back : w - 1 + 1 ≡ w = omega arith in
            let region' : Region v c b lo ((w - 1 + 1) * 2 ^ k) =
              subst (Region v c b lo) (sym ends ∙ ap (λ t. t * 2 ^ k) (sym back)) region in
            let inside : w - 1 < level_len k =
              index-lt (w - 1) (level_len k) (2 ^ k)
                (omega (arith, level_len-pages k (omega arith), ap (λ (t : ℕ). t * 2 ^ k) back))
                (one-le-pow k 2 (omega arith)) in
            let under : (w - 1) * 2 ^ k + 2 ^ k ≡ i * 2 ^ l =
              omega (arith, ap (λ (t : ℕ). t * 2 ^ k) back) in
            let b' = v.set b (w - 1 + level_offset k) true in
            let rest =
              trim_loop_lem fuel b' lo (o - 2 ^ k) (w - 1) k (omega arith) (omega arith)
                (omega (arith, pow-suc 2 k)) (omega arith) (omega arith)
                (trim_round b lo k (w - 1) (omega arith) inside (omega arith) (omega arith)
                  region') in
            (
              rest.0,
              trim_loop-some v fuel b o i l k e (in_range-lt-total k (w - 1) (omega arith) inside)
                  ∙ ap (λ t. trim_loop v fuel b' t (w - 1) k)
                      (clear_bit-highest o k top_bit.0 top_bit.1)
                  ∙ rest.1,
              subst (Region v c rest.0 lo) (omega arith) rest.2,
            )
      ]
    where
      highest : IsHighest o (highest_one o)
      highest =
          highest_one_lem o
            (omega (arith, pow-le-pow_right {n = 2} (omega arith) {i = l} {j = 64} (omega arith)))
