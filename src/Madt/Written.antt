-- ===== src/Madt/Written.antt =====
-- What the kernel reads of a table that firmware writes by the ACPI specification
-- (src/acpi/madt.rs): the entries of types 0, 1, 2 and 5, as they were written.
use titanium.Base.{ℕ, ◌+◌, ◌/◌, ◌%◌, ◌^◌, ◌<◌, ◌≡◌, refl, ap, ◌∙◌, sym, subst}
use titanium.Base.{List, [], ◌∷◌, some, arith, length, length-append, map}
use titanium.Madt.Entries.{
  MadtEntry, local_apic, io_apic, io_apic_override, local_apic_override, entry_at, entries,
  finished, madt_size,
}
use titanium.Madt.Scan.{Records, end_of_table, record_at, entries-Records}
use titanium.Madt.Layout.{
  u32_at, u64_at, local_apic_at, io_apic_at, io_apic_override_at, local_apic_override_at,
}
use titanium.Madt.Fields.{
  AcpiEntry, processor, controller, source_override, address_override, le16, le32, spec_bytes, Fits,
  AllFit, table_bytes, BytesFrom, BytesFrom-append, BytesFrom-moved, after-length, read_fields,
  field16, field32,
}

-- Where the iterator finds an entry.
abbrev pub placed_at : ℕ → AcpiEntry → MadtEntry
placed_at p (processor e) = local_apic p
placed_at p (controller e) = io_apic p
placed_at p (source_override e) = io_apic_override p
placed_at p (address_override e) = local_apic_override p

abbrev pub placed : ℕ → List AcpiEntry → List MadtEntry
placed p [] = []
placed p (e ∷ es) = placed_at p e ∷ placed (p + length (spec_bytes e)) es

record Found (bytes : ℕ → ℕ) (p : ℕ) (e : AcpiEntry) : Type 0 where
  known : entry_at p (bytes (p + 0)) ≡ some (placed_at p e)
  long : bytes (p + 1) ≡ length (spec_bytes e)
  fields : read_fields bytes (placed_at p e) ≡ some e

spec_bytes-Found :
    (bytes : ℕ → ℕ) (p : ℕ) (e : AcpiEntry)
    → Fits e
    → BytesFrom bytes p 0 (spec_bytes e)
    → Found bytes p e
unfolding entry_at local_apic_at io_apic_at io_apic_override_at local_apic_override_at
spec_bytes-Found bytes p (processor e) fits w = record {
  known = rw w.0 refl;
  long = w.1.0;
  fields = rw (w.1.1.0, w.1.1.1.0, field32 bytes p 4 e.flags fits w.1.1.1.1) refl;
}
spec_bytes-Found bytes p (controller e) fits w =
    let (front, back) = BytesFrom-append bytes p 4 (le32 e.address) (le32 e.gsi_base) w.1.1.1.1 in
    record {
      known = rw w.0 refl;
      long = w.1.0;
      fields =
          rw
            (
              w.1.1.0,
              field32 bytes p 4 e.address fits.0 front,
              field32 bytes p 8 e.gsi_base fits.1 back,
            )
            refl;
    }
spec_bytes-Found bytes p (source_override e) fits w =
    let (front, back) = BytesFrom-append bytes p 4 (le32 e.gsi) (le16 e.flags) w.1.1.1.1 in
    record {
      known = rw w.0 refl;
      long = w.1.0;
      fields =
          rw
            (
              w.1.1.0,
              w.1.1.1.0,
              field32 bytes p 4 e.gsi fits.0 front,
              field16 bytes p 8 e.flags fits.1 back,
            )
            refl;
    }
spec_bytes-Found bytes p (address_override e) fits w =
    let (front, back) =
      BytesFrom-append bytes p 4 (le32 (e.addr % 2 ^ 32)) (le32 (e.addr / 2 ^ 32)) w.1.1.1.1 in
    let low = field32 bytes p 4 (e.addr % 2 ^ 32) (omega arith) front in
    let high = field32 bytes p 8 (e.addr / 2 ^ 32) (omega arith) back in
    let moved : p + 4 + 4 ≡ p + 8 = omega arith in
    let whole : u64_at bytes (p + 4) ≡ e.addr =
      omega (arith, low, ap (u32_at bytes) moved ∙ high) in
    record { known = rw w.0 refl; long = w.1.0; fields = rw whole refl }

spec_bytes-long : (e : AcpiEntry) → 0 < length (spec_bytes e)
spec_bytes-long (processor e) = omega arith
spec_bytes-long (controller e) = omega arith
spec_bytes-long (source_override e) = omega arith
spec_bytes-long (address_override e) = omega arith

placed-Records :
    (bytes : ℕ → ℕ) (p eptr : ℕ) (es : List AcpiEntry)
    → AllFit es
    → BytesFrom bytes p 0 (table_bytes es)
    → p + length (table_bytes es) ≡ eptr
    → Records bytes eptr p (placed p es) × (map (read_fields bytes) (placed p es) ≡ map some es)
placed-Records bytes p eptr [] fits w e =
    (subst (λ q. Records bytes eptr q []) (omega (arith, e)) end_of_table, refl)
placed-Records bytes p eptr (e ∷ es) (fit, fits) w last =
    let (front, back) = BytesFrom-append bytes p 0 (spec_bytes e) (table_bytes es) w in
    let found = spec_bytes-Found bytes p e fit front in
    let n = length (spec_bytes e) in
    let rest =
      placed-Records bytes (p + n) eptr es fits
        (BytesFrom-moved bytes p (p + n) _ 0 (table_bytes es)
          (ap (λ k. p + k) (after-length (spec_bytes e) 0) ∙ omega arith) back)
        (omega (arith, last, length-append (spec_bytes e) (table_bytes es))) in
    let zero_off : p ≡ p + 0 = omega arith in
    (
      record_at p (placed_at p e) (placed (p + n) es) (omega (arith, found.long, spec_bytes-long e))
          (subst (λ q. entry_at p (bytes q) ≡ some (placed_at p e)) (sym zero_off) found.known)
          (subst (λ k. Records bytes eptr (p + k) (placed (p + n) es)) (sym found.long) rest.0),
      rw (found.fields, rest.1) refl,
    )

pub entries-placed :
    (bytes : ℕ → ℕ) (table len : ℕ) (es : List AcpiEntry)
    → AllFit es
    → BytesFrom bytes (table + madt_size) 0 (table_bytes es)
    → len ≡ madt_size + length (table_bytes es)
    → let ms = placed (table + madt_size) es in
      (entries (len + 1) bytes table len ≡ finished ms) × (map (read_fields bytes) ms ≡ map some es)
entries-placed bytes table len es fits w e =
    let (records, fields) =
      placed-Records bytes (table + madt_size) (table + len) es fits w (omega (arith, e)) in
    (entries-Records bytes table len _ records, fields)

-- Of a table that firmware writes by the specification, with entries of types 0, 1, 2 and 5 whose
-- words fit their fields, the iterator yields each entry in order and ends, and what the kernel reads
-- of each is what was written.
pub entries-written :
    (bytes : ℕ → ℕ) (table len : ℕ) (es : List AcpiEntry)
    → AllFit es
    → BytesFrom bytes (table + madt_size) 0 (table_bytes es)
    → len ≡ madt_size + length (table_bytes es)
    → (ms : List MadtEntry) × (entries (len + 1) bytes table len ≡ finished ms)
      × (map (read_fields bytes) ms ≡ map some es)
entries-written bytes table len es fits w e =
    let (ran, fields) = entries-placed bytes table len es fits w e in
    (placed (table + madt_size) es, ran, fields)
