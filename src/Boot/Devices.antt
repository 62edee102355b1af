-- ===== src/Boot/Devices.antt =====
-- How `kmain` (src/main.rs) sets up the I/O APIC from the entries of the MADT.
use titanium.Base.{ℕ, ◌+◌, ◌-◌, ◌*◌, ◌%◌, ◌≤◌, ◌<◌, ◌≡◌, ◌≢◌, refl, sym, ap, ◌∙◌, inl, inr}
use titanium.Base.{
  List, [], ◌∷◌, Option, none, some, length, map, ◌==◌, if◌then◌else◌, ◌>>=◌, >>=-eq-some, check,
  ltb,
}
use titanium.Base.{Bool-cases, ==_iff}
use mathlib.Core.Option
use titanium.Hdint.Devices.{BitField, IoApicDevice}
use titanium.Hdint.IoApic.{
  IoApic, IoApicOverrideEntry, ApicIrqPolarity, ApicIrqTrigger, new_io_apic, register_override,
  polarity, trigger, get_entry, set_entry, override_polarity, override_trigger,
}
use titanium.Hdint.Redirection.{n_entries}
use titanium.Hdint.Override.{register_override_lem}
use titanium.Vmem.{page_size, apic_start, apic_size}
use titanium.X86.{AlignDown, PageTableFlags, PageMapper}
use titanium.Mapping.Devices.{MappedIoApic, apic_mapping_size, new}
use titanium.Mapping.Pages.{physical}
use titanium.Mapping.Registers.{new_lem}
use titanium.Madt.Entries.{
  MadtEntry, io_apic, io_apic_override, finished, unknown_type, out_of_fuel, entries, madt_size,
}
use titanium.Madt.Layout.{IoApicEntry, io_apic_at, io_apic_override_at}
use titanium.Madt.Fields.{
  AcpiEntry, processor, controller, source_override, address_override, AllFit, table_bytes,
  BytesFrom, read_fields,
}
use titanium.Madt.Written.{placed, entries-placed}

-- `find_map` over the entries: the first I/O APIC.
unfoldable pub find_io_apic : (ℕ → ℕ) → List MadtEntry → Option IoApicEntry
find_io_apic bytes [] = none
find_io_apic bytes (io_apic p ∷ es) = some (io_apic_at bytes p)
find_io_apic bytes (_ ∷ es) = find_io_apic bytes es

-- The same of the table as it was written.
abbrev pub first_controller : List AcpiEntry → Option IoApicEntry
first_controller [] = none
first_controller (controller c ∷ es) = some c
first_controller (_ ∷ es) = first_controller es

-- Where a legacy interrupt goes: by the last override of its source.
abbrev pub routed : ℕ → ℕ → List AcpiEntry → ℕ
routed i d [] = d
routed i d (source_override o ∷ es) = routed i (if o.irq_source == i then o.gsi else d) es
routed i d (_ ∷ es) = routed i d es

-- Sources and inputs in range, polarities and trigger modes that are not reserved.
abbrev pub ValidOverrides : List AcpiEntry → Type 0
ValidOverrides [] = Unit {0}
ValidOverrides (source_override o ∷ es) =
    (o.irq_source < 32)
    × (o.gsi < n_entries)
    × (polarity o.flags ≢ ApicIrqPolarity.reserved)
    × (trigger o.flags ≢ ApicIrqTrigger.reserved)
    × ValidOverrides es
ValidOverrides (_ ∷ es) = ValidOverrides es

find_io_apic-placed :
    (bytes : ℕ → ℕ) (p : ℕ) (es : List AcpiEntry)
    → map (read_fields bytes) (placed p es) ≡ map some es
    → find_io_apic bytes (placed p es) ≡ first_controller es
unfolding find_io_apic
find_io_apic-placed bytes p [] e = refl
find_io_apic-placed bytes p (processor x ∷ es) e = find_io_apic-placed bytes (p + 8) es cc
find_io_apic-placed bytes p (controller c ∷ es) e = cc
find_io_apic-placed bytes p (source_override o ∷ es) e = find_io_apic-placed bytes (p + 10) es cc
find_io_apic-placed bytes p (address_override x ∷ es) e = find_io_apic-placed bytes (p + 12) es cc

rerouted :
    (a a' : IoApic) (o : IoApicOverrideEntry) (i : ℕ)
    → a'.irqs o.irq_source ≡ o.gsi
    → ((j : ℕ) → o.irq_source ≢ j → a'.irqs j ≡ a.irqs j)
    → a'.irqs i ≡ (if o.irq_source == i then o.gsi else a.irqs i)
rerouted a a' o i now others = elim (Bool-cases (o.irq_source == i)) [
  | inl e ↦ rw e (ap a'.irqs (sym ((==_iff o.irq_source i).0 e)) ∙ now)
  | inr e ↦ rw e (others i (λ h. let t = (==_iff o.irq_source i).1 h in cc))
]

module _ {W : Type 0} (f : BitField) (d : IoApicDevice W) where
  -- `register_override` for each override entry.
  unfoldable pub register_overrides : (ℕ → ℕ) → IoApic → List MadtEntry → W → Option (IoApic × W)
  register_overrides bytes a [] w = some (a, w)
  register_overrides bytes a (io_apic_override p ∷ es) w = do
    (a', w') ← register_override d f a (io_apic_override_at bytes p) w
    register_overrides bytes a' es w'
  register_overrides bytes a (_ ∷ es) w = register_overrides bytes a es w

  register_override-id :
      (a a' : IoApic) (ovr : IoApicOverrideEntry) (w w' : W)
      → register_override d f a ovr w ≡ some (a', w')
      → a'.id ≡ a.id
  unfolding register_override
  register_override-id a a' ovr w w' e =
      let (_, _, e1) = >>=-eq-some (check (ltb ovr.irq_source 32)) _ e in
      let (_, _, e2) = >>=-eq-some (get_entry d w ovr.gsi) _ e1 in
      let (_, _, e3) = >>=-eq-some (override_polarity f (polarity ovr.flags) _) _ e2 in
      let (_, _, e4) = >>=-eq-some (override_trigger f (trigger ovr.flags) _) _ e3 in
      let (_, _, e5) = >>=-eq-some (set_entry d _ ovr.gsi _) _ e4 in
      ap (λ r. r.0.id) (sym (Option.some-injective _ _ e5))

  register_overrides-placed :
      (bytes : ℕ → ℕ) (p : ℕ) (es : List AcpiEntry) (a : IoApic) (w : W)
      → map (read_fields bytes) (placed p es) ≡ map some es
      → ValidOverrides es
      → (a' : IoApic) × (w' : W) × (register_overrides bytes a (placed p es) w ≡ some (a', w'))
        × (a'.id ≡ a.id)
        × ((i : ℕ) → a'.irqs i ≡ routed i (a.irqs i) es)
  unfolding register_overrides
  register_overrides-placed bytes p [] a w e valid = (a, w, refl, refl, λ i. refl)
  register_overrides-placed bytes p (processor x ∷ es) a w e valid =
      register_overrides-placed bytes (p + 8) es a w (cc) valid
  register_overrides-placed bytes p (controller x ∷ es) a w e valid =
      register_overrides-placed bytes (p + 12) es a w (cc) valid
  register_overrides-placed bytes p (address_override x ∷ es) a w e valid =
      register_overrides-placed bytes (p + 12) es a w (cc) valid
  register_overrides-placed bytes p (source_override o ∷ es) a w e
        (source, input, polarity_ok, trigger_ok, valid) =
      let same : io_apic_override_at bytes p ≡ o = cc in
      elim (register_override_lem f d a o w source input) [
        | inl (inl bad, _) ↦ absurd (polarity_ok bad)
        | inl (inr bad, _) ↦ absurd (trigger_ok bad)
        | inr (a1, w1, ran, now, others, _, _) ↦
            let (a', w', rest, ids, irqs) =
              register_overrides-placed bytes (p + 10) es a1 w1 (cc) valid in
            (
              a',
              w',
              rw (same, ran) rest,
              ids ∙ register_override-id a a1 o w w1 ran,
              λ i. irqs i ∙ ap (λ x. routed i x es) (rerouted a a1 o i now others),
            )
      ]

  module _ {S : Type 0} (p : PageMapper S) (down : AlignDown) (flags : PageTableFlags) where
    -- The part of `kmain` from `madt.entries()` to the overrides, for a table at an address with the
    -- length in its header: the first I/O APIC is mapped, then overridden.
    unfoldable pub init_io_apic :
        ℕ → (ℕ → ℕ) → ℕ → ℕ → ℕ → S → W → Option (MappedIoApic × ℕ × S × W)
    init_io_apic fuel bytes table len next_offset s w = elim (entries fuel bytes table len) [
      | finished es ↦ do
        entry ← find_io_apic bytes es
        (ioapic, next_offset', s') ← new p down flags entry next_offset s
        (a, w') ← register_overrides bytes ioapic.controller es w
        some (record ioapic { controller = a }, next_offset', s', w')
      | unknown_type es ↦ none
      | out_of_fuel es ↦ none
    ]

    -- Of a table that firmware writes by the specification with entries of types 0, 1, 2 and 5 only,
    -- whose words fit their fields, with an I/O APIC and with overrides that are valid, the I/O APIC comes up with the id of the first one in the table, and each legacy
    -- interrupt goes where its last override says, or to the input of its own number. With room for
    -- two unmapped pages and six frames left for tables, its registers are mapped to where the table
    -- says that they are: the bytes from its base to the end of the last page, at least nine.
    pub init_io_apic_lem :
        (bytes : ℕ → ℕ) (table len : ℕ) (es : List AcpiEntry) (c : IoApicEntry) (next : ℕ) (s : S)
        (w : W)
        → AllFit es
        → BytesFrom bytes (table + madt_size) 0 (table_bytes es)
        → len ≡ madt_size + length (table_bytes es)
        → first_controller es ≡ some c
        → ValidOverrides es
        → next % page_size ≡ 0
        → next + 2 * page_size ≤ apic_size
        → ((j : ℕ) → j < 2 → p.translate s (apic_start + next + j * page_size) ≡ none)
        → 6 ≤ p.frames_left s
        → (a : MappedIoApic) × (next' : ℕ) × (s' : S) × (w' : W) × (init_io_apic
              (len + 1)
              bytes
              table
              len
              next
              s
              w
            ≡ some (a, next', s', w'))
          × (a.controller.id ≡ c.apic_id)
          × ((i : ℕ) → a.controller.irqs i ≡ routed i i es)
          × (c.address % page_size + apic_mapping_size < next' - next)
          × ((i : ℕ)
              → c.address % page_size + i < next' - next
              → physical p down flags s' (a.base + i) ≡ some (c.address + i))
    unfolding init_io_apic new_io_apic
    init_io_apic_lem bytes table len es c next s w fits laid e first valid aligned room unused
          left =
        let (ran, fields) = entries-placed bytes table len es fits laid e in
        let found = find_io_apic-placed bytes (table + madt_size) es fields ∙ first in
        let (m, next', s', mapped, _, _, made, _, _, enough, at, _) =
          new_lem p down flags c next s aligned room unused left in
        let (a, w', done, ids, irqs) =
          register_overrides-placed bytes (table + madt_size) es m.controller w fields valid in
        (
          record m { controller = a },
          next',
          s',
          w',
          rw (ran, init_io_apic, found, mapped, done) refl,
          ids ∙ ap (λ (t : IoApic). t.id) made,
          λ i. irqs i ∙ ap (λ (t : IoApic). routed i (t.irqs i) es) made,
          enough,
          at,
        )
