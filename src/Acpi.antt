-- ===== src/Acpi.antt =====
-- Finding the ACPI tables (src/acpi.rs), and the HPET's table (src/acpi/hpet.rs). uACPI is a
-- parameter.
pub mod Tests
use titanium.Base.{ℕ, ◌+◌, ◌*◌, ◌/◌, ◌%◌, ◌^◌, ◌≤◌, ◌<◌, ◌≡◌, ◌≢◌, refl, ap, ◌∙◌, Bool, true, false}
use titanium.Base.{List, [], ◌∷◌, ◌++◌, Option, none, some, arith, ◌==◌, if◌then◌else◌}
use titanium.Madt.Layout.{u16_at, u32_at, u64_at}
use titanium.Madt.Fields.{le16, le32, BytesFrom, BytesFrom-append, field16, field32}

abbrev pub uacpi_status_ok : ℕ
uacpi_status_ok = 0

-- `uacpi_initialize` and `uacpi_table_find_by_signature`, with the status first. A search fills in the
-- table where it succeeds, and leaves what was there where it does not.
pub record TableFinder (U : Type 0) : Type 0 where
  pub initialize : U → ℕ × U
  pub find_by_signature : U → ℕ → ℕ → ℕ × ℕ
  pub find-missing :
      (u : U) (signature table : ℕ)
      → (find_by_signature u signature table).0 ≢ uacpi_status_ok
      → (find_by_signature u signature table).1 ≡ table

abbrev pub madt_signature : ℕ
madt_signature = 0x43495041

abbrev pub hpet_signature : ℕ
hpet_signature = 0x54455048

-- A GAS, `Address`.
pub record Address : Type 0 where
  pub address_space : ℕ
  pub reg_bit_width : ℕ
  pub reg_bit_offset : ℕ
  pub address : ℕ

pub record HpetTable : Type 0 where
  pub flags : ℕ
  pub address : Address
  pub hpet_number : ℕ
  pub minimum_tick : ℕ
  pub page_protection : ℕ

-- The size of a table's `Header`.
abbrev pub header_size : ℕ
header_size = 36

-- `HPET`, with `packed(1)`: every field follows the one before.
unfoldable pub hpet_at : (ℕ → ℕ) → ℕ → HpetTable
hpet_at bytes p = record {
  flags = u32_at bytes (p + header_size);
  address = record {
    address_space = bytes (p + 40);
    reg_bit_width = bytes (p + 41);
    reg_bit_offset = bytes (p + 42);
    address = u64_at bytes (p + 44);
  };
  hpet_number = bytes (p + 52);
  minimum_tick = u16_at bytes (p + 53);
  page_protection = bytes (p + 55);
}

-- `HPETFlags`
abbrev pub num_comparators : ℕ → ℕ
num_comparators flags = flags / 2 ^ 8 % 2 ^ 5

abbrev pub pci_vendor_id : ℕ → ℕ
pci_vendor_id flags = flags / 2 ^ 16 % 2 ^ 16

module _ {U : Type 0} (uacpi : TableFinder U) where
  unfoldable pub init_acpi : U → Option U
  init_acpi u =
      let (status, u') = uacpi.initialize u in if status == uacpi_status_ok then some u' else none

  -- `madt` and `hpet`: the table as it is after the search, whatever the status. `uninit` is what the
  -- handle's memory held before.
  unfoldable pub madt : U → ℕ → ℕ
  madt u uninit = (uacpi.find_by_signature u madt_signature uninit).1

  unfoldable pub hpet : U → ℕ → ℕ
  hpet u uninit = (uacpi.find_by_signature u hpet_signature uninit).1

  -- Where uACPI finds no such table, both return a handle on whatever the memory held.
  pub missing-table :
      (u : U) (uninit : ℕ)
      → (uacpi.find_by_signature u madt_signature uninit).0 ≢ uacpi_status_ok
      → (uacpi.find_by_signature u hpet_signature uninit).0 ≢ uacpi_status_ok
      → (madt u uninit ≡ uninit) × (hpet u uninit ≡ uninit)
  unfolding madt hpet
  missing-table u uninit no_madt no_hpet = (
    uacpi.find-missing u madt_signature uninit no_madt,
    uacpi.find-missing u hpet_signature uninit no_hpet,
  )

-- The table behind its header, by the HPET specification.
abbrev pub tick_bytes : HpetTable → List ℕ
tick_bytes t = t.hpet_number ∷ le16 t.minimum_tick ++ t.page_protection ∷ []

abbrev pub address_bytes : HpetTable → List ℕ
address_bytes t =
    t.address.address_space
      ∷ t.address.reg_bit_width
      ∷ t.address.reg_bit_offset
      ∷ 0
      ∷ le32 (t.address.address % 2 ^ 32)
    ++ le32 (t.address.address / 2 ^ 32)
    ++ tick_bytes t

abbrev pub hpet_bytes : HpetTable → List ℕ
hpet_bytes t = le32 t.flags ++ address_bytes t

-- The kernel reads a table that is laid out by the specification, with words that fit their fields,
-- as it was written.
pub hpet_at-written :
    (bytes : ℕ → ℕ) (p : ℕ) (t : HpetTable)
    → t.flags < 2 ^ 32
    → t.address.address < 2 ^ 64
    → t.minimum_tick < 2 ^ 16
    → BytesFrom bytes p header_size (hpet_bytes t)
    → hpet_at bytes p ≡ t
unfolding hpet_at
hpet_at-written bytes p t f1 f2 f3 w =
    let (flags, w1) = BytesFrom-append bytes p 36 (le32 t.flags) (address_bytes t) w in
    let (low, w2) =
      BytesFrom-append bytes p 44 (le32 (t.address.address % 2 ^ 32))
        (le32 (t.address.address / 2 ^ 32) ++ tick_bytes t) w1.1.1.1.1 in
    let (high, w3) =
      BytesFrom-append bytes p 48 (le32 (t.address.address / 2 ^ 32)) (tick_bytes t) w2 in
    let (tick, w4) =
      BytesFrom-append bytes p 53 (le16 t.minimum_tick) (t.page_protection ∷ []) w3.1 in
    let lo = field32 bytes p 44 (t.address.address % 2 ^ 32) (omega arith) low in
    let hi = field32 bytes p 48 (t.address.address / 2 ^ 32) (omega arith) high in
    let moved : p + 44 + 4 ≡ p + 48 = omega arith in
    let whole : u64_at bytes (p + 44) ≡ t.address.address =
      omega (arith, lo, ap (u32_at bytes) moved ∙ hi) in
    rw
      (
        field32 bytes p 36 t.flags f1 flags,
        whole,
        w1.0,
        w1.1.0,
        w1.1.1.0,
        w3.0,
        field16 bytes p 53 t.minimum_tick f3 tick,
        w4.0,
      )
      refl
