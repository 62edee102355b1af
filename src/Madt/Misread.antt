-- ===== src/Madt/Misread.antt =====
-- The entries of types 4 and 9, whose structures in src/acpi/madt.rs are not where the ACPI
-- specification has their fields.
use titanium.Base.{ℕ, ◌+◌, ◌*◌, ◌/◌, ◌%◌, ◌^◌, ◌<◌, ◌≡◌, ap, ◌∙◌, List, [], ◌∷◌, ◌++◌, arith}
use titanium.Madt.Layout.{
  LocalApicNonmaskableEntry, Localx2ApicEntry, local_apic_nonmaskable_at, localx2_apic_at,
}
use titanium.Madt.Fields.{BytesFrom, le16, le32}

-- Type 4: the flags follow the processor's id without a gap.
abbrev pub nonmaskable_bytes : LocalApicNonmaskableEntry → List ℕ
nonmaskable_bytes e = 4 ∷ 6 ∷ e.acpi_processor_id ∷ le16 e.flags ++ e.lint ∷ []

-- Type 9: two reserved bytes come before the id.
abbrev pub x2apic_bytes : Localx2ApicEntry → List ℕ
x2apic_bytes e = 9 ∷ 16 ∷ 0 ∷ 0 ∷ le32 e.x2apic_id ++ le32 e.flags ++ le32 e.acpi_id

-- Of an entry of type 4 as the specification has it, the kernel reads flags that are made of the high
-- byte of the flags and the pin; of one of type 9, an id whose low half is zero and whose high
-- half is the id's low half, and flags whose low half is the high half of the id.
pub entry-misread :
    (bytes : ℕ → ℕ) (p q : ℕ) (e : LocalApicNonmaskableEntry) (x : Localx2ApicEntry)
    → e.flags < 2 ^ 16
    → x.x2apic_id < 2 ^ 32
    → x.flags < 2 ^ 32
    → BytesFrom bytes p 0 (nonmaskable_bytes e)
    → BytesFrom bytes q 0 (x2apic_bytes x)
    → ((local_apic_nonmaskable_at bytes p).flags ≡ e.flags / 2 ^ 8 + 2 ^ 8 * e.lint)
      × ((localx2_apic_at bytes q).x2apic_id ≡ 2 ^ 16 * (x.x2apic_id % 2 ^ 16))
      × ((localx2_apic_at bytes q).flags ≡ x.x2apic_id / 2 ^ 16 + 2 ^ 16 * (x.flags % 2 ^ 16))
unfolding local_apic_nonmaskable_at localx2_apic_at
entry-misread bytes p q e x f1 f2 f3 w v =
    let lint : bytes (p + 4 + 1) ≡ e.lint = ap bytes (omega arith) ∙ w.1.1.1.1.1.0 in
    let b3 : bytes (q + 2 + 1) ≡ 0 = ap bytes (omega arith) ∙ v.1.1.1.0 in
    let b4 : bytes (q + 2 + 2) ≡ x.x2apic_id % 2 ^ 8 = ap bytes (omega arith) ∙ v.1.1.1.1.0 in
    let b5 : bytes (q + 2 + 2 + 1) ≡ x.x2apic_id / 2 ^ 8 % 2 ^ 8 =
      ap bytes (omega arith) ∙ v.1.1.1.1.1.0 in
    let b7 : bytes (q + 6 + 1) ≡ x.x2apic_id / 2 ^ 24 % 2 ^ 8 =
      ap bytes (omega arith) ∙ v.1.1.1.1.1.1.1.0 in
    let b8 : bytes (q + 6 + 2) ≡ x.flags % 2 ^ 8 = ap bytes (omega arith) ∙ v.1.1.1.1.1.1.1.1.0 in
    let b9 : bytes (q + 6 + 2 + 1) ≡ x.flags / 2 ^ 8 % 2 ^ 8 =
      ap bytes (omega arith) ∙ v.1.1.1.1.1.1.1.1.1.0 in
    (
      omega (arith, lint, w.1.1.1.1.0),
      omega (arith, v.1.1.0, b3, b4, b5),
      omega (arith, v.1.1.1.1.1.1.0, b7, b8, b9),
    )
