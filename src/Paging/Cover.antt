-- ===== src/Paging/Cover.antt =====
-- The abstract view of the buddy bits: how many free chunks hold a given 4 KiB frame.
use titanium.Base.{ℕ, zero, suc, ◌+◌, ◌*◌, ◌/◌, ◌^◌, ◌≤◌, ◌<◌, ◌≡◌, refl}
use titanium.Base.{Bool, true, false, ◌&&◌, arith, inl, inr, Bool-cases}
use titanium.Base.{ltb, ◌==◌, ==_iff, if◌then◌else◌, leb, le_refl, pow-suc}
use titanium.Base.Bits.{◌>>>◌}
use titanium.Bitvec.{BitArray}
use titanium.Paging.Levels.{
  level_offset, level_len, total_buddy_bits, buddy_levels, level_len-pages, in_range-lt-total,
  absolute-injective,
}
use native.Mathlib.Nat.{div-lt_iff_lt-mul, one-le-pow, mul-div_cancel, div-div-eq-div-mul}

-- The frames that every level covers: 64 GiB of them.
abbrev pub frame_count : ℕ
frame_count = 2 ^ 24

abbrev pub count : Bool → ℕ
count true = 1
count false = 0

-- 1 if frame `f` lies in chunk `i` of level `l`.
abbrev pub within : ℕ → ℕ → ℕ → ℕ
within l i f = count (f >>> l == i)

pub frame-in_range : (l f : ℕ) → l < buddy_levels → f < frame_count → f >>> l < level_len l
frame-in_range l f hl hf =
    (div-lt_iff_lt-mul (one-le-pow l 2 (omega arith))).1
      (omega (arith, level_len-pages l (omega arith)))

module _ {B : Type 0} (v : BitArray total_buddy_bits B) where
  -- The bit of chunk `i` on level `l`.
  abbrev pub chunk : B → ℕ → ℕ → Bool
  chunk b l i = v.get b (i + level_offset l)

  -- The free chunks below level `n` that hold frame `f`.
  unfoldable pub cover_below : ℕ → B → ℕ → ℕ
  cover_below zero b f = 0
  cover_below (suc n) b f = cover_below n b f + count (chunk b n (f >>> n))

  pub cover : B → ℕ → ℕ
  cover b f = cover_below buddy_levels b f

  cover_below-zeroed :
      (n : ℕ) (b : B) (f : ℕ) → ((i : ℕ) → v.get b i ≡ false) → cover_below n b f ≡ 0
  unfolding cover_below
  cover_below-zeroed zero b f clear = refl
  cover_below-zeroed (suc n) b f clear =
      ground (arith, cover_below-zeroed n b f clear, clear (f >>> n + level_offset n))

  pub cover-zeroed : (b : B) (f : ℕ) → ((i : ℕ) → v.get b i ≡ false) → cover b f ≡ 0
  unfolding cover
  cover-zeroed b f clear = cover_below-zeroed buddy_levels b f clear

  pub cover-top : (b : B) (f : ℕ) → cover b f ≡ cover_below 15 b f + count (chunk b 15 (f >>> 15))
  unfolding cover cover_below
  cover-top b f = refl

  pub chunk-set :
      (b : B) (l i : ℕ) (x : Bool) (m j : ℕ)
      → l < buddy_levels
      → i < level_len l
      → j < level_len m
      → chunk (v.set b (i + level_offset l) x) m j ≡ (if l == m && i == j then x else chunk b m j)
  chunk-set b l i x m j hl hi hj = ground (
    arith,
    v.get-set b (i + level_offset l) x (j + level_offset m) (in_range-lt-total l i hl hi),
    absolute-injective l i m j hi hj,
  )

  cover_below-set :
      (n : ℕ) (b : B) (l i : ℕ) (x : Bool) (f : ℕ)
      → n ≤ buddy_levels
      → l < buddy_levels
      → i < level_len l
      → f < frame_count
      → cover_below n (v.set b (i + level_offset l) x) f
          + (if ltb l n && (f >>> l == i) then count (chunk b l i) else 0)
        ≡ cover_below n b f + (if ltb l n && (f >>> l == i) then count x else 0)
  unfolding cover_below
  cover_below-set zero b l i x f hn hl hi hf = ground arith
  cover_below-set (suc n) b l i x f hn hl hi hf = ground (
    arith,
    chunk-set b l i x n (f >>> n) hl hi (frame-in_range n f (omega arith) hf),
    cover_below-set n b l i x f (omega arith) hl hi hf,
  )

  -- Writing one bit moves the frames of its chunk, and no others.
  pub cover-set :
      (b : B) (l i : ℕ) (x : Bool) (f : ℕ)
      → l < buddy_levels
      → i < level_len l
      → f < frame_count
      → cover (v.set b (i + level_offset l) x) f + (if f >>> l == i then count (chunk b l i) else 0)
        ≡ cover b f + (if f >>> l == i then count x else 0)
  unfolding cover
  cover-set b l i x f hl hi hf =
      ground (arith, cover_below-set buddy_levels b l i x f (le_refl _) hl hi hf)

  chunk-le-cover_below :
      (n : ℕ) (b : B) (l f : ℕ) → l < n → count (chunk b l (f >>> l)) ≤ cover_below n b f
  unfolding cover_below
  chunk-le-cover_below zero b l f h = absurd (omega arith)
  chunk-le-cover_below (suc n) b l f h = elim (Bool-cases (l == n)) [
    | inl e ↦ rw ((==_iff l n).0 e) (omega arith)
    | inr ne ↦ omega (arith, chunk-le-cover_below n b l f (ground arith))
  ]

  pub chunk-le-cover :
      (b : B) (l f : ℕ) → l < buddy_levels → count (chunk b l (f >>> l)) ≤ cover b f
  unfolding cover
  chunk-le-cover b l f h = chunk-le-cover_below buddy_levels b l f h

  -- A chunk with a frame that is not free is not free.
  pub chunk-of_taken :
      (b : B) (l i : ℕ)
      → l < buddy_levels
      → i < level_len l
      → cover b (i * 2 ^ l) ≡ 0
      → chunk b l i ≡ false
  chunk-of_taken b l i hl hi taken = elim (Bool-cases (chunk b l i)) [
    | inr e ↦ e
    | inl e ↦
        let there : (i * 2 ^ l) / 2 ^ l ≡ i = mul-div_cancel i (one-le-pow l 2 (omega arith)) in
        absurd (ground (arith, chunk-le-cover b l (i * 2 ^ l) hl))
  ]

  -- No frame stands in two free chunks.
  abbrev pub NoOverlap : B → Type 0
  NoOverlap b = (f : ℕ) → f < frame_count → cover b f ≤ 1

  -- With the bit of chunk (l, i) cleared, the free frames are those of `c` less that chunk.
  abbrev pub Held : (ℕ → ℕ) → B → ℕ → ℕ → Type 0
  Held c b l i =
      (f : ℕ) → f < frame_count → cover (v.set b (i + level_offset l) false) f + within l i f ≡ c f

  -- The free frames are those of `c` less chunk (l, i).
  abbrev pub Without : (ℕ → ℕ) → B → ℕ → ℕ → Type 0
  Without c b l i = (f : ℕ) → f < frame_count → cover b f + within l i f ≡ c f

-- The first frame of a chunk lies in it, and is a frame.
pub within-first :
    (l i : ℕ)
    → l < buddy_levels
    → i < level_len l
    → ((i * 2 ^ l) >>> l ≡ i) × (i * 2 ^ l < frame_count)
within-first l i hl hi = (
  mul-div_cancel i (one-le-pow l 2 (omega arith)),
  grind (arith, level_len-pages l (omega arith), one-le-pow l 2),
)

-- A chunk is the union of its two halves.
pub within-halves : (l i f : ℕ) → within (suc l) i f ≡ within l (i * 2) f + within l (i * 2 + 1) f
within-halves l i f = ground (arith, div-div-eq-div-mul f (2 ^ l) 2, pow-suc 2 l)

-- The frames of a chunk are a range.
pub within-range : (l i f : ℕ) → within l i f ≡ count (leb (i * 2 ^ l) f && ltb f ((i + 1) * 2 ^ l))
within-range l i f =
    let pos : 1 ≤ 2 ^ l = one-le-pow l 2 (omega arith) in
    ground (arith, div-lt_iff_lt-mul {x = f} {y = i} pos, div-lt_iff_lt-mul {x = f} {y = i + 1} pos)
