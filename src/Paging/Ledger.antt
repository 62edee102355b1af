-- ===== src/Paging/Ledger.antt =====
-- The allocator over time: any sequence of requests and returns from `new` on, with a ledger of the
-- frames that callers hold.
use titanium.Base.{ℕ, ◌+◌, ◌*◌, ◌-◌, ◌/◌, ◌^◌, ◌≤◌, ◌<◌, ◌≡◌, subst, List}
use titanium.Base.{false, none, some, arith, inl, inr, Option, Bool-cases, ltb, ltb→lt}
use native.Mathlib.Nat.{div-one}
use titanium.Vmem.{page_size}
use titanium.Limine.{MemmapEntry}
use titanium.Bitvec.{BitArray}
use titanium.Base.Powers.{ceil_log2, ceil_log2_lem}
use titanium.Paging.Levels.{
  relative_index_to_addr, total_buddy_bits, buddy_levels, level_2mib, addr_to_relative_index,
  addr-roundtrip,
}
use titanium.Paging.Allocator.{
  allocate_chunk_from_level, allocate_frame_4kib, allocate_frame_2mib, deallocate_frame_4kib,
  pick_off_contiguous,
}
use titanium.Paging.Cover.{cover, frame_count, within, NoOverlap}
use titanium.Paging.Trim.{between}
use titanium.Paging.Allocate.{allocate_chunk_from_level_lem}
use titanium.Paging.Pick.{
  pick_off_contiguous-fits, pick_off_contiguous-unit, pick_off_contiguous-none,
}
use titanium.Paging.Free.{deallocate_frame_4kib_lem}
use titanium.Paging.Init.{new}
use titanium.Paging.Init.Marking.{Fits, usable_count, new_lem}

-- What a caller holds more after an allocation at level `l` returned `r`.
abbrev pub claim : ℕ → Option ℕ → ℕ → ℕ
claim l none f = 0
claim l (some addr) f = within l (addr_to_relative_index addr l) f

-- The same for a contiguous request.
abbrev pub claim_run : Option (ℕ × ℕ) → ℕ → ℕ
claim_run none f = 0
claim_run (some (addr, n)) f = between (addr / page_size) (addr / page_size + n) f

module _ {B : Type 0} (v : BitArray total_buddy_bits B) where
  -- The bits with how often each frame is held.
  pub record Pool : Type 0 where
    pub bits : B
    pub held : ℕ → ℕ

  pub data Step (s : Pool) : Pool → Type 0 where
    allocate_4kib :
        {b : B} {r : Option ℕ}
        → allocate_frame_4kib v s.bits ≡ some (b, r)
        → Step s (record { bits = b; held = λ f. s.held f + claim 0 r f })
    allocate_2mib :
        {b : B} {r : Option ℕ}
        → allocate_frame_2mib v s.bits ≡ some (b, r)
        → Step s (record { bits = b; held = λ f. s.held f + claim level_2mib r f })
    pick_off :
        {b : B} {r : Option (ℕ × ℕ)} (n_frames min_frames : ℕ)
        → 1 ≤ n_frames
        → n_frames ≤ 2 ^ 15
        → min_frames ≤ 2 ^ 63
        → pick_off_contiguous v s.bits n_frames min_frames ≡ some (b, r)
        → Step s (record { bits = b; held = λ f. s.held f + claim_run r f })
    -- Only a frame that is held is given back.
    deallocate_4kib :
        {b : B} (f : ℕ)
        → f < frame_count
        → 1 ≤ s.held f
        → deallocate_frame_4kib v s.bits (f * page_size) ≡ some b
        → Step s (record { bits = b; held = λ g. s.held g - within 0 f g })

  allocate-claim :
      (b b' : B) (l : ℕ) (r : Option ℕ)
      → l < buddy_levels
      → NoOverlap v b
      → allocate_chunk_from_level v b l ≡ some (b', r)
      → (f : ℕ) → f < frame_count
      → cover v b' f + claim l r f ≡ cover v b f
  allocate-claim b b' l r hl sole e f hf = elim (allocate_chunk_from_level_lem v b l hl sole) [
    | inl (_, out) ↦
        let eb : b ≡ b' = cc in
        let er : none ≡ r = cc in
        subst (λ c. cover v c f + claim l r f ≡ cover v b f) eb
          (subst (λ o. cover v b f + claim l o f ≡ cover v b f) er (omega arith))
    | inr (b2, i, out, hi, taken) ↦
        let eb : b2 ≡ b' = cc in
        let er : some (relative_index_to_addr (i, l)) ≡ r = cc in
        subst (λ c. cover v c f + claim l r f ≡ cover v b f) eb
          (subst (λ o. cover v b2 f + claim l o f ≡ cover v b f) er
            (rw (addr-roundtrip i l) (taken f hf)))
  ]

  pick_off-claim :
      (b b' : B) (n m : ℕ) (r : Option (ℕ × ℕ))
      → NoOverlap v b
      → 1 ≤ n
      → n ≤ 2 ^ 15
      → pick_off_contiguous v b n m ≡ some (b', r)
      → (f : ℕ) → f < frame_count
      → cover v b' f + claim_run r f ≡ cover v b f
  pick_off-claim b b' n m r sole pos small e f hf =
      elim (Bool-cases (ltb (ceil_log2 n) (ceil_log2 m))) [
        | inl larger ↦
            let out =
              pick_off_contiguous-unit v b n m (ltb→lt (ceil_log2 n) (ceil_log2 m) larger) in
            unchanged out
        | inr lower ↦ elim (pick_off_contiguous-fits v b n m sole pos small (ground arith)) [
          | inl empty ↦ unchanged (pick_off_contiguous-none v b n m (level n pos small) empty)
          | inr (b2, first, out, _, taken) ↦
              let eb : b2 ≡ b' = cc in
              let er : some (first * page_size, n) ≡ r = cc in
              let place : first * page_size / page_size ≡ first = omega arith in
              subst (λ c. cover v c f + claim_run r f ≡ cover v b f) eb
                (subst (λ o. cover v b2 f + claim_run o f ≡ cover v b f) er (rw place (taken f hf)))
        ]
      ]
    where
      unchanged :
          pick_off_contiguous v b n m ≡ some (b, none) → cover v b' f + claim_run r f ≡ cover v b f
      unchanged out =
          let eb : b ≡ b' = cc in
          let er : none ≡ r = cc in
          subst (λ c. cover v c f + claim_run r f ≡ cover v b f) eb
            (subst (λ o. cover v b f + claim_run o f ≡ cover v b f) er (omega arith))

      level : (n : ℕ) → 1 ≤ n → n ≤ 2 ^ 15 → ceil_log2 n < buddy_levels
      level n pos small = omega (arith, (ceil_log2_lem n (omega arith)).1 15 small)

  -- The states that the kernel reaches from a memory map.
  pub data Reach (zeroed : B) (entries : List MemmapEntry) : Pool → Type 0 where
    start :
        {b : B}
        → new v zeroed entries ≡ some b
        → Reach zeroed entries (record { bits = b; held = λ f. 0 })
    later : {s t : Pool} → Reach zeroed entries s → Step s t → Reach zeroed entries t

  -- Each frame is free or held, and no more often than it is usable.
  abbrev pub Balanced : List MemmapEntry → Pool → Type 0
  Balanced entries s =
      (f : ℕ) → f < frame_count → cover v s.bits f + s.held f ≡ usable_count entries f

  module _ (entries : List MemmapEntry)
      (sole : (f : ℕ) → f < frame_count → usable_count entries f ≤ 1) where
    Balanced-NoOverlap : (s : Pool) → Balanced entries s → NoOverlap v s.bits
    Balanced-NoOverlap s balanced f hf = omega (arith, balanced f hf, sole f hf)

    Step-Balanced : {s t : Pool} → Step s t → Balanced entries s → Balanced entries t
    unfolding allocate_frame_4kib allocate_frame_2mib
    Step-Balanced {s} (allocate_4kib {b} {r} e) balanced f hf = omega (
      arith,
      allocate-claim s.bits b 0 r (omega arith) (Balanced-NoOverlap s balanced) e f hf,
      balanced f hf,
    )
    Step-Balanced {s} (allocate_2mib {b} {r} e) balanced f hf = omega (
      arith,
      allocate-claim s.bits b level_2mib r (omega arith) (Balanced-NoOverlap s balanced) e f hf,
      balanced f hf,
    )
    Step-Balanced {s} (pick_off {b} {r} n m pos small unit e) balanced f hf = omega (
      arith,
      pick_off-claim s.bits b n m r (Balanced-NoOverlap s balanced) pos small e f hf,
      balanced f hf,
    )
    Step-Balanced {s} (deallocate_4kib {b} g hg have e) balanced f hf =
        let (b2, out, gives) =
          deallocate_frame_4kib_lem v s.bits g hg (Balanced-NoOverlap s balanced)
            (omega (arith, balanced g hg, sole g hg)) in
        let eb : b2 ≡ b = cc in
        subst (λ c. cover v c f + (s.held f - within 0 g f) ≡ usable_count entries f) eb
          (ground (arith, gives f hf, balanced f hf, div-one f))

    -- For a memory map whose usable entries are page aligned, below 64 GiB and do not overlap, and
    -- after any sequence of allocations of both sizes, of contiguous requests for 1 to 2 ^ 15 frames
    -- with a unit of at most 2 ^ 63, and of returns of 4 KiB frames that are held, every frame is free
    -- in one chunk or held by one caller if it is usable, and neither if it is not.
    pub Reach-Balanced :
        (zeroed : B) (s : Pool)
        → ((i : ℕ) → v.get zeroed i ≡ false)
        → Fits entries
        → Reach zeroed entries s
        → Balanced entries s
    Reach-Balanced zeroed _ clear fits (start {b} e) f hf =
        let (b2, out, free) = new_lem v zeroed entries clear fits sole in
        let eb : b2 ≡ b = cc in
        subst (λ c. cover v c f + 0 ≡ usable_count entries f) eb (omega (arith, free f hf))
    Reach-Balanced zeroed _ clear fits (later {s} {t} r step) f hf =
        Step-Balanced step (Reach-Balanced zeroed s clear fits r) f hf
