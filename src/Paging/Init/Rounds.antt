-- ===== src/Paging/Init/Rounds.antt =====
-- What the rounds of `RuneFrameAllocator::new` over the levels mark for one entry.
use titanium.Base.{ℕ, zero, suc, ◌+◌, ◌-◌, ◌*◌, ◌/◌, ◌%◌, ◌^◌, ◌≤◌, ◌<◌, ◌≡◌, ap, ◌∙◌, subst, sym}
use mathlib.Core.Path.{subst₂}
use titanium.Base.{true, false, some, arith, inl, inr, Bool-cases}
use titanium.Base.{◌==◌, one-le-pow, pow-suc}
use titanium.Bitvec.{BitArray, set_checked_lem}
use titanium.Paging.Levels.{
  level_offset, level_len, total_buddy_bits, buddy_levels, level_len-pages, in_range-lt-total,
  total_buddy_bits_lem, level_offset-lt, index-lt,
}
use titanium.Paging.Init.{fill_checked, align_start, align_end, mark_levels}
use titanium.Paging.Init.Ranges.{start_round, fill_top, fill-cover}
use titanium.Paging.Cover.{chunk, cover, chunk-of_taken, frame_count}
use titanium.Paging.Trim.{Region, trim_round}

-- An index is in range if the end of its chunk is a frame.
in_level : (l i e : ℕ) → l < buddy_levels → i < e → e * 2 ^ l ≤ frame_count → i < level_len l
in_level l i e hl h top =
    index-lt i (level_len l) (2 ^ l) (grind (arith, level_len-pages l (omega arith)))
      (one-le-pow l 2 (omega arith))

mul-le : (p : ℕ) {i j : ℕ} → i ≤ j → i * p ≤ j * p
mul-le p h = grind arith

widen_half : (l j : ℕ) → j * 2 ^ suc l ≡ j * 2 * 2 ^ l
widen_half l j = omega (arith, ap (λ (t : ℕ). j * t) (pow-suc 2 l))

mark_levels-suc :
    {B : Type 0} (v : BitArray total_buddy_bits B) (b b' b'' : B) (l n i e i' : ℕ)
    → (i == e) ≡ false
    → align_start v b l i ≡ some (b', i')
    → align_end v b' l e ≡ some b''
    → mark_levels v b l (suc n) i e ≡ mark_levels v b'' (suc l) n (i' / 2) (e / 2)
unfolding mark_levels
mark_levels-suc v b b' b'' l n i e i' more starts ends = ground arith

module _ {B : Type 0} (v : BitArray total_buddy_bits B) (c : ℕ → ℕ)
    (sole : (f : ℕ) → f < frame_count → c f ≤ 1) where
  align_start_lem :
      (b : B) (l i e : ℕ)
      → l < buddy_levels
      → i < e
      → e * 2 ^ l ≤ frame_count
      → Region v c b (i * 2 ^ l) (e * 2 ^ l)
      → (b' : B) × (align_start v b l i ≡ some (b', (i + 1) / 2 * 2))
        × Region v c b' ((i + 1) / 2 * 2 * 2 ^ l) (e * 2 ^ l)
  unfolding align_start
  align_start_lem b l i e hl h top region = elim (Bool-cases (i % 2 == 0)) [
    | inl even ↦ let same : (i + 1) / 2 * 2 ≡ i = ground arith in rw same (b, rw even, region)
    | inr odd ↦
        let up : (i + 1) / 2 * 2 ≡ i + 1 = ground arith in
        let swap : level_offset l + i ≡ i + level_offset l = omega arith in
        let inside = in_level l i e hl h top in
        rw up (
          v.set b (i + level_offset l) true,
          rw (
            odd,
            swap,
            set_checked_lem v b (i + level_offset l) true (in_range-lt-total l i hl inside),
          ),
          start_round v c sole b l i (e * 2 ^ l) hl inside (grind arith) top region,
        )
  ]

  align_end_lem :
      (b : B) (l lo e : ℕ)
      → l < buddy_levels
      → lo ≤ (e / 2 * 2) * 2 ^ l
      → e * 2 ^ l ≤ frame_count
      → Region v c b lo (e * 2 ^ l)
      → (b' : B) × (align_end v b l e ≡ some b') × Region v c b' lo (e / 2 * 2 * 2 ^ l)
  unfolding align_end
  align_end_lem b l lo e hl h top region = elim (Bool-cases (e % 2 == 0)) [
    | inl even ↦ let same : e / 2 * 2 ≡ e = ground arith in rw same (b, rw even, region)
    | inr odd ↦
        let down : e / 2 * 2 + 1 ≡ e = ground arith in
        let i = e / 2 * 2 in
        let place : level_offset l + e - 1 ≡ i + level_offset l = omega arith in
        let inside = in_level l i e hl (omega arith) top in
        (
          v.set b (i + level_offset l) true,
          rw (
            odd,
            place,
            set_checked_lem v b (i + level_offset l) true (in_range-lt-total l i hl inside),
          ),
          trim_round v c sole b lo l i hl inside h (omega (arith, ap (λ (t : ℕ). t * 2 ^ l) down))
              (subst (λ t. Region v c b lo (t * 2 ^ l)) (sym down) region),
        )
  ]

  top_lem :
      (b : B) (i e : ℕ)
      → i ≤ e
      → e * 2 ^ 15 ≤ frame_count
      → Region v c b (i * 2 ^ 15) (e * 2 ^ 15)
      → (b' : B) × (fill_checked v b (level_offset 15 + i) (level_offset 15 + e) ≡ some b')
        × ((f : ℕ) → f < frame_count → cover v b' f ≡ c f)
  unfolding fill_checked
  top_lem b i e h top region =
      let short : e ≤ level_len 15 = omega (arith, level_len-pages 15 (omega arith)) in
      (
        fill_top v b i e,
        ground (arith, total_buddy_bits_lem, level_offset-lt 15 16 (omega arith)),
        λ f hf.
            fill-cover v b i e f h short hf (λ lo hi. off (f / 2 ^ 15) lo hi short) ∙ region f hf,
      )
    where
      off : (j : ℕ) → i ≤ j → j < e → e ≤ level_len 15 → chunk v b 15 j ≡ false
      off j lo hi short =
          let start : j * 2 ^ 15 < frame_count = omega arith in
          chunk-of_taken v b 15 j (omega arith) (omega arith)
            (ground (arith, region (j * 2 ^ 15) start, sole (j * 2 ^ 15) start))

  pub mark_levels_lem :
      (b : B) (l n i e : ℕ)
      → l + n ≡ 15
      → i ≤ e
      → e * 2 ^ l ≤ frame_count
      → Region v c b (i * 2 ^ l) (e * 2 ^ l)
      → (b' : B) × (mark_levels v b l n i e ≡ some b')
        × ((f : ℕ) → f < frame_count → cover v b' f ≡ c f)
  unfolding mark_levels
  mark_levels_lem b l zero i e hl h top region =
      let at_top : l ≡ 15 = omega arith in
      top_lem b i e h (subst (λ t. e * 2 ^ t ≤ frame_count) at_top top)
        (subst (λ t. Region v c b (i * 2 ^ t) (e * 2 ^ t)) at_top region)
  mark_levels_lem b l (suc n) i e hl h top region = elim (Bool-cases (i == e)) [
    | inl done ↦ (b, rw (done, mark_levels), λ f hf. ground (arith, region f hf))
    | inr more ↦
        let hl' : l < buddy_levels = omega arith in
        let some_left : i < e = ground arith in
        let lo = (i + 1) / 2 * 2 in
        let (b', starts, region') = align_start_lem b l i e hl' some_left top region in
        let (b'', ends, region'') =
          align_end_lem b' l (lo * 2 ^ l) e hl' (mul-le (2 ^ l) (omega arith)) top region' in
        let rest =
          mark_levels_lem b'' (suc l) n (lo / 2) (e / 2) (omega arith) (omega arith)
            (omega
              (arith, widen_half l (e / 2), mul-le (2 ^ l) {i = e / 2 * 2} {j = e} (omega arith)))
            (subst₂ (λ x y. Region v c b'' x y)
              (sym (widen_half l (lo / 2) ∙ ap (λ t. t * 2 ^ l) (omega arith)))
              (sym (widen_half l (e / 2))) region'') in
        (rest.0, mark_levels-suc v b b' b'' l n i e lo more starts ends ∙ rest.1, rest.2)
  ]
