-- ===== src/Madt/Fields.antt =====
-- Tables as firmware writes them, by the ACPI specification, against what the structures of
-- src/acpi/madt.rs read.
use titanium.Base.{ℕ, suc, ◌+◌, ◌/◌, ◌%◌, ◌^◌, ◌<◌, ◌≡◌, ap, ◌∙◌, sym}
use titanium.Base.{List, [], ◌∷◌, ◌++◌, Option, none, some, arith, length}
use titanium.Hdint.IoApic.{IoApicOverrideEntry}
use titanium.Madt.Entries.{MadtEntry, local_apic, io_apic, io_apic_override, local_apic_override}
use titanium.Madt.Layout.{
  LocalApicEntry, IoApicEntry, LocalApicOverrideEntry, u16_at, u32_at, local_apic_at, io_apic_at,
  io_apic_override_at, local_apic_override_at,
}

-- The entries that the kernel reads as the specification has them.
pub data AcpiEntry : Type 0 where
  processor : LocalApicEntry → AcpiEntry
  controller : IoApicEntry → AcpiEntry
  source_override : IoApicOverrideEntry → AcpiEntry
  address_override : LocalApicOverrideEntry → AcpiEntry

abbrev pub le16 : ℕ → List ℕ
le16 n = n % 2 ^ 8 ∷ n / 2 ^ 8 % 2 ^ 8 ∷ []

abbrev pub le32 : ℕ → List ℕ
le32 n = n % 2 ^ 8 ∷ n / 2 ^ 8 % 2 ^ 8 ∷ n / 2 ^ 16 % 2 ^ 8 ∷ n / 2 ^ 24 % 2 ^ 8 ∷ []

-- Type, length, and the fields.
abbrev pub spec_bytes : AcpiEntry → List ℕ
spec_bytes (processor e) = 0 ∷ 8 ∷ e.acpi_processor_id ∷ e.apic_id ∷ le32 e.flags
spec_bytes (controller e) = 1 ∷ 12 ∷ e.apic_id ∷ 0 ∷ le32 e.address ++ le32 e.gsi_base
spec_bytes (source_override e) = 2 ∷ 10 ∷ e.bus_source ∷ e.irq_source ∷ le32 e.gsi ++ le16 e.flags
spec_bytes (address_override e) = 5 ∷ 12 ∷ 0 ∷ 0 ∷ le32 (e.addr % 2 ^ 32) ++ le32 (e.addr / 2 ^ 32)

-- The words fit their fields.
abbrev pub Fits : AcpiEntry → Type 0
Fits (processor e) = e.flags < 2 ^ 32
Fits (controller e) = (e.address < 2 ^ 32) × (e.gsi_base < 2 ^ 32)
Fits (source_override e) = (e.gsi < 2 ^ 32) × (e.flags < 2 ^ 16)
Fits (address_override e) = e.addr < 2 ^ 64

abbrev pub AllFit : List AcpiEntry → Type 0
AllFit [] = Unit {0}
AllFit (e ∷ es) = Fits e × AllFit es

abbrev pub table_bytes : List AcpiEntry → List ℕ
table_bytes [] = []
table_bytes (e ∷ es) = spec_bytes e ++ table_bytes es

-- The bytes from `p + i` on.
abbrev pub BytesFrom : (ℕ → ℕ) → ℕ → ℕ → List ℕ → Type 0
BytesFrom bytes p i [] = Unit {0}
BytesFrom bytes p i (x ∷ xs) = (bytes (p + i) ≡ x) × BytesFrom bytes p (suc i) xs

-- What the kernel reads at an entry that the iterator yields.
abbrev pub read_fields : (ℕ → ℕ) → MadtEntry → Option AcpiEntry
read_fields bytes (local_apic p) = some (processor (local_apic_at bytes p))
read_fields bytes (io_apic p) = some (controller (io_apic_at bytes p))
read_fields bytes (io_apic_override p) = some (source_override (io_apic_override_at bytes p))
read_fields bytes (local_apic_override p) = some (address_override (local_apic_override_at bytes p))
read_fields bytes _ = none

pub field16 :
    (bytes : ℕ → ℕ) (p i n : ℕ)
    → n < 2 ^ 16
    → BytesFrom bytes p i (le16 n)
    → u16_at bytes (p + i) ≡ n
field16 bytes p i n small (b0, (b1, _)) =
    let e1 : bytes (p + i + 1) ≡ n / 2 ^ 8 % 2 ^ 8 = ap bytes (omega arith) ∙ b1 in
    omega (arith, b0, e1)

pub field32 :
    (bytes : ℕ → ℕ) (p i n : ℕ)
    → n < 2 ^ 32
    → BytesFrom bytes p i (le32 n)
    → u32_at bytes (p + i) ≡ n
field32 bytes p i n small (b0, (b1, (b2, (b3, _)))) =
    let e1 : bytes (p + i + 1) ≡ n / 2 ^ 8 % 2 ^ 8 = ap bytes (omega arith) ∙ b1 in
    let e2 : bytes (p + i + 2) ≡ n / 2 ^ 16 % 2 ^ 8 = ap bytes (omega arith) ∙ b2 in
    let e3 : bytes (p + i + 2 + 1) ≡ n / 2 ^ 24 % 2 ^ 8 = ap bytes (omega arith) ∙ b3 in
    omega (arith, b0, e1, e2, e3)

abbrev pub after : List ℕ → ℕ → ℕ
after [] i = i
after (x ∷ xs) i = after xs (suc i)

pub after-length : (xs : List ℕ) (i : ℕ) → after xs i ≡ length xs + i
after-length [] i = omega arith
after-length (x ∷ xs) i = after-length xs (suc i) ∙ omega arith

pub BytesFrom-append :
    (bytes : ℕ → ℕ) (p i : ℕ) (xs ys : List ℕ)
    → BytesFrom bytes p i (xs ++ ys)
    → BytesFrom bytes p i xs × BytesFrom bytes p (after xs i) ys
BytesFrom-append bytes p i [] ys w = (tt, w)
BytesFrom-append bytes p i (x ∷ xs) ys (b, w) =
    let (front, back) = BytesFrom-append bytes p (suc i) xs ys w in ((b, front), back)

pub BytesFrom-moved :
    (bytes : ℕ → ℕ) (p q i j : ℕ) (xs : List ℕ)
    → p + i ≡ q + j
    → BytesFrom bytes p i xs
    → BytesFrom bytes q j xs
BytesFrom-moved bytes p q i j [] e w = tt
BytesFrom-moved bytes p q i j (x ∷ xs) e (b, w) =
    (ap bytes (sym e) ∙ b, BytesFrom-moved bytes p q (suc i) (suc j) xs (omega arith) w)
