-- ===== src/Madt/Scan.antt =====
-- What the iterator yields for a table that is laid out well, and for a record of length 0.
use titanium.Base.{ℕ, zero, suc, ◌+◌, ◌≤◌, ◌<◌, ◌≡◌, refl, ap, ◌∙◌, arith, some}
use titanium.Base.{List, [], ◌∷◌, ltb, lt→ltb, le→ltb, true}
use titanium.Madt.Entries.{
  MadtEntry, entry_at, finished, out_of_fuel, entries_from, entries, madt_size,
}

-- Records that follow one another from `ptr` to `eptr`, each of a known type and with the length of
-- its record in its second byte.
pub data Records (bytes : ℕ → ℕ) (eptr : ℕ) : ℕ → List MadtEntry → Type 0 where
  end_of_table : Records bytes eptr eptr []
  record_at :
      (ptr : ℕ) (e : MadtEntry) (es : List MadtEntry)
      → 0 < bytes (ptr + 1)
      → entry_at ptr (bytes ptr) ≡ some e
      → Records bytes eptr (ptr + bytes (ptr + 1)) es
      → Records bytes eptr ptr (e ∷ es)

Records-le :
    (bytes : ℕ → ℕ) (eptr ptr : ℕ) (es : List MadtEntry) → Records bytes eptr ptr es → ptr ≤ eptr
Records-le bytes eptr _ _ end_of_table = omega arith
Records-le bytes eptr ptr _ (record_at _ e es pos kind rest) =
    omega (arith, Records-le bytes eptr (ptr + bytes (ptr + 1)) es rest)

entries_from-Records :
    (fuel : ℕ) (bytes : ℕ → ℕ) (eptr ptr : ℕ) (es : List MadtEntry)
    → Records bytes eptr ptr es
    → eptr < ptr + fuel
    → entries_from fuel bytes ptr eptr ≡ finished es
unfolding entries_from
entries_from-Records zero bytes eptr ptr es laid h =
    absurd (omega (arith, Records-le bytes eptr ptr es laid))
entries_from-Records (suc fuel) bytes eptr _ _ end_of_table h =
    rw (le→ltb eptr eptr (omega arith), entries_from) refl
entries_from-Records (suc fuel) bytes eptr ptr _ (record_at _ e es pos kind rest) h =
    let next = ptr + bytes (ptr + 1) in
    let inside : ltb ptr eptr ≡ true =
      lt→ltb ptr eptr (omega (arith, Records-le bytes eptr next es rest)) in
    let tail = entries_from-Records fuel bytes eptr next es rest (omega arith) in
    rw (inside, kind, tail, entries_from) refl

-- For a table whose records follow one another up to its end, the iterator yields them all, in
-- order, and ends, with fuel from the table's length on.
pub entries-Records :
    (bytes : ℕ → ℕ) (table len : ℕ) (es : List MadtEntry)
    → Records bytes (table + len) (table + madt_size) es
    → entries (len + 1) bytes table len ≡ finished es
unfolding entries
entries-Records bytes table len es laid =
    entries_from-Records (len + 1) bytes (table + len) (table + madt_size) es laid (omega arith)

-- The same entry, over and over.
abbrev pub copies : ℕ → MadtEntry → List MadtEntry
copies zero e = []
copies (suc n) e = e ∷ copies n e

-- A record of length 0 is yielded over and over, without end.
pub entries_from-length_zero :
    (fuel : ℕ) (bytes : ℕ → ℕ) (ptr eptr : ℕ) (e : MadtEntry)
    → ptr < eptr
    → entry_at ptr (bytes ptr) ≡ some e
    → bytes (ptr + 1) ≡ 0
    → entries_from fuel bytes ptr eptr ≡ out_of_fuel (copies fuel e)
unfolding entries_from
entries_from-length_zero zero bytes ptr eptr e inside kind stuck = refl
entries_from-length_zero (suc fuel) bytes ptr eptr e inside kind stuck =
    let same : ptr + bytes (ptr + 1) ≡ ptr = omega arith in
    let tail : entries_from fuel bytes (ptr + bytes (ptr + 1)) eptr ≡ out_of_fuel (copies fuel e) =
      ap (λ p. entries_from fuel bytes p eptr) same
      ∙ entries_from-length_zero fuel bytes ptr eptr e inside kind stuck in
    rw (lt→ltb ptr eptr inside, kind, tail, entries_from) refl
