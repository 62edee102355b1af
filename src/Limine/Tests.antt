-- ===== src/Limine/Tests.antt =====
-- A memory map of two entries.
use titanium.Base.{ℕ, ◌-◌, ◌/◌, ◌≡◌, refl, List, [], ◌∷◌, none, some, arith, get_elem?}
use mathlib.Core.Option
use titanium.Limine.{MemmapEntry, usable, reserved}
use titanium.Limine.Requests.{RequestHeader, memmap_request}
use titanium.Limine.Responses.{memmap_entries, memmap_entries-Answered}

abbrev low : MemmapEntry
low = record { base = 0; length = 0x9_f000; ty = usable }

abbrev rom : MemmapEntry
rom = record { base = 0xf_0000; length = 0x1_0000; ty = reserved }

-- Words from address 8 on: the answer, the pointers, the entries.
abbrev words : List ℕ
words = 0 ∷ 2 ∷ 32 ∷ 48 ∷ 72 ∷ 0 ∷ 0x9_f000 ∷ 0 ∷ 0xf_0000 ∷ 0x1_0000 ∷ 1 ∷ []

abbrev memory : ℕ → ℕ
memory a = Option.get_or (get_elem? words ((a - 8) / 8)) 0

abbrev answered : RequestHeader
answered = record memmap_request { response = 8 }

memmap_entries-Answered_run :
    (memmap_entries memory answered ≡ some (some (low ∷ rom ∷ [])))
    × (memmap_entries memory memmap_request ≡ none)
memmap_entries-Answered_run =
    memmap_entries-Answered memory answered memmap_request ((48, low) ∷ (72, rom) ∷ [])
      ((λ e. omega (arith, e)), refl, (refl, (refl, tt))) (refl, refl, refl, (refl, refl, refl, tt))
      refl
