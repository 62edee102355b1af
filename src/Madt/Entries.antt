-- ===== src/Madt/Entries.antt =====
-- The iterator `MADT::entries` (acpi/madt.rs), over memory as bytes by their addresses.
use titanium.Base.{ℕ, zero, suc, ◌+◌, Option, none, some, List, [], ◌∷◌, ltb, if◌then◌else◌}

pub data MadtEntry : Type 0 where
  local_apic io_apic io_apic_override io_apic_nonmaskable local_apic_nonmaskable local_apic_override
        localx2_apic :
      ℕ → MadtEntry

-- The entry of a type at an address; other types are `unimplemented!()`.
unfoldable pub entry_at : ℕ → ℕ → Option MadtEntry
entry_at ptr entry_type = elim entry_type [
  | zero ↦ some (local_apic ptr)
  | suc zero ↦ some (io_apic ptr)
  | suc (suc zero) ↦ some (io_apic_override ptr)
  | suc (suc (suc zero)) ↦ some (io_apic_nonmaskable ptr)
  | suc (suc (suc (suc zero))) ↦ some (local_apic_nonmaskable ptr)
  | suc (suc (suc (suc (suc zero)))) ↦ some (local_apic_override ptr)
  | suc (suc (suc (suc (suc (suc (suc (suc (suc zero)))))))) ↦ some (localx2_apic ptr)
  | _ ↦ none
]

-- What a run of the iterator comes to: the end of the table, a panic at a type it does not know, or
-- fuel that runs out, each with the entries that it yielded.
pub data Run : Type 0 where
  finished unknown_type out_of_fuel : List MadtEntry → Run

abbrev pub yielding : MadtEntry → Run → Run
yielding e (finished es) = finished (e ∷ es)
yielding e (unknown_type es) = unknown_type (e ∷ es)
yielding e (out_of_fuel es) = out_of_fuel (e ∷ es)

-- The loop, from `ptr` to `eptr`; the type of an entry is its first byte, its length the second.
unfoldable pub entries_from : ℕ → (ℕ → ℕ) → ℕ → ℕ → Run
entries_from zero bytes ptr eptr = out_of_fuel []
entries_from (suc fuel) bytes ptr eptr =
    let rest = entries_from fuel bytes (ptr + bytes (ptr + 1)) eptr in
    if ltb ptr eptr
    then elim (entry_at ptr (bytes ptr)) [
      | none ↦ unknown_type []
      | some entry ↦ yielding entry rest
    ]
    else finished []

-- The size of the MADT's own fields, which the entries follow.
abbrev pub madt_size : ℕ
madt_size = 44

-- `entries`, for a table at an address with the length in its header.
unfoldable pub entries : ℕ → (ℕ → ℕ) → ℕ → ℕ → Run
entries fuel bytes table length = entries_from fuel bytes (table + madt_size) (table + length)
