-- ===== src/Paging/Init/Marking.antt =====
-- What `RuneFrameAllocator::new` marks: exactly the pages of the usable entries.
use titanium.Base.{ℕ, ◌+◌, ◌*◌, ◌/◌, ◌%◌, ◌≤◌, ◌<◌, ◌≡◌, refl}
use titanium.Base.{true, false, some, arith, inl, inr, Bool-cases}
use titanium.Base.{if◌then◌else◌, leb, ◌&&◌, List, [], ◌∷◌}
use titanium.Vmem.{page_size}
use titanium.Limine.{MemmapEntry, is_usable}
use titanium.Bitvec.{BitArray}
use titanium.Paging.Levels.{total_buddy_bits}
use titanium.Paging.Init.{mark_entry, mark_entries, new}
use titanium.Paging.Cover.{cover, cover-zeroed, frame_count, count}
use titanium.Paging.Init.Rounds.{mark_levels_lem}

-- 1 if the page `f` lies in the memory of the entry.
abbrev pub page_in : MemmapEntry → ℕ → ℕ
page_in entry f =
    count (
      leb entry.base (f * page_size) && leb (f * page_size + page_size) (entry.base + entry.length))

-- The usable entries that hold page `f`.
abbrev pub usable_count : List MemmapEntry → ℕ → ℕ
usable_count [] f = 0
usable_count (entry ∷ rest) f =
    (if is_usable entry then page_in entry f else 0) + usable_count rest f

-- The bootloader aligns usable entries to pages; the array has room for the first 64 GiB.
abbrev pub Fits : List MemmapEntry → Type 0
Fits [] = Unit {0}
Fits (entry ∷ rest) =
    (is_usable entry ≡ true
      → (entry.base % page_size ≡ 0) × (entry.base + entry.length ≤ frame_count * page_size))
    × Fits rest

module _ {B : Type 0} (v : BitArray total_buddy_bits B) where
  pub mark_entry_lem :
      (b : B) (entry : MemmapEntry)
      → entry.base % page_size ≡ 0
      → entry.base + entry.length ≤ frame_count * page_size
      → ((f : ℕ) → f < frame_count → cover v b f + page_in entry f ≤ 1)
      → (b' : B) × (mark_entry v b entry ≡ some b')
        × ((f : ℕ) → f < frame_count → cover v b' f ≡ cover v b f + page_in entry f)
  unfolding mark_entry
  mark_entry_lem b entry aligned inside sole =
      mark_levels_lem v (λ f. cover v b f + page_in entry f) sole b 0 15 (entry.base / page_size)
        ((entry.base + entry.length / page_size * page_size) / page_size) refl (omega arith)
        (omega arith) (λ f hf. ground arith)

  mark_entries_lem :
      (b : B) (entries : List MemmapEntry)
      → Fits entries
      → ((f : ℕ) → f < frame_count → cover v b f + usable_count entries f ≤ 1)
      → (b' : B) × (mark_entries v b entries ≡ some b')
        × ((f : ℕ) → f < frame_count → cover v b' f ≡ cover v b f + usable_count entries f)
  unfolding mark_entries
  mark_entries_lem b [] fits sole = (b, refl, λ f hf. omega arith)
  mark_entries_lem b (entry ∷ rest) fits sole = elim (Bool-cases (is_usable entry)) [
    | inl is ↦
        let (b', marked, grows) =
          mark_entry_lem b entry (fits.0 is).0 (fits.0 is).1 (λ f hf. ground (arith, sole f hf)) in
        let tail =
          mark_entries_lem b' rest fits.1 (λ f hf. ground (arith, sole f hf, grows f hf)) in
        (tail.0, rw (is, marked) tail.1, λ f hf. ground (arith, tail.2 f hf, grows f hf))
    | inr not ↦
        let tail = mark_entries_lem b rest fits.1 (λ f hf. ground (arith, sole f hf)) in
        (tail.0, rw not tail.1, λ f hf. ground (arith, tail.2 f hf))
  ]

  -- From a zeroed array and a map whose usable entries are page aligned, below 64 GiB and do not
  -- overlap, `new` does not panic, and a page is in exactly as many free chunks as usable entries.
  pub new_lem :
      (zeroed : B) (entries : List MemmapEntry)
      → ((i : ℕ) → v.get zeroed i ≡ false)
      → Fits entries
      → ((f : ℕ) → f < frame_count → usable_count entries f ≤ 1)
      → (b : B) × (new v zeroed entries ≡ some b)
        × ((f : ℕ) → f < frame_count → cover v b f ≡ usable_count entries f)
  unfolding new
  new_lem zeroed entries clear fits sole =
      let r =
        mark_entries_lem zeroed entries fits
          (λ f hf. omega (arith, sole f hf, cover-zeroed v zeroed f clear)) in
      (r.0, r.1, λ f hf. omega (arith, r.2 f hf, cover-zeroed v zeroed f clear))
