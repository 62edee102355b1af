-- ===== src/Mapping/Registers.antt =====
-- Where the registers of the devices are found after they are mapped.
use titanium.Base.{ℕ, ◌+◌, ◌-◌, ◌*◌, ◌/◌, ◌%◌, ◌^◌, ◌≤◌, ◌<◌, ◌≡◌, refl, ◌∙◌}
use titanium.Base.{none, some, arith, inl, inr, ◌⊎◌, lt→ltb}
use titanium.Vmem.{page_size, lapic_addr, apic_start, apic_size, hpet_addr}
use titanium.X86.{AlignDown, PageTableFlags, PageMapper}
use titanium.Madt.Layout.{IoApicEntry}
use titanium.Acpi.{HpetTable}
use titanium.Hdint.IoApic.{new_io_apic}
use titanium.Mapping.Devices.{
  MappedIoApic, memory_space, apic_mapping_size, init_local, new, new_hpet, lapic_flags,
  io_apic_flags, hpet_flags,
}
use titanium.Mapping.Pages.{
  physical, align_down_lem, from_start_address_lem, map_to_lem, map_pages_lem, physical_lem, kept,
}

module _ {S : Type 0} (p : PageMapper S) (down : AlignDown) (f : PageTableFlags) where
  -- With room for two pages in the I/O APICs' space and for their tables, the registers are mapped: all
  -- of the bytes up to the end of the last page, at least nine of them, are the device's, and
  -- pages outside the ones taken are as before.
  pub new_lem :
      (entry : IoApicEntry) (next : ℕ) (s : S)
      → next % page_size ≡ 0
      → next + 2 * page_size ≤ apic_size
      → ((j : ℕ) → j < 2 → p.translate s (apic_start + next + j * page_size) ≡ none)
      → 6 ≤ p.frames_left s
      → (a : MappedIoApic) × (next' : ℕ) × (s' : S) × (new p down f entry next s
          ≡ some (a, next', s'))
        × (p.frames_left s ≤ p.frames_left s' + 6)
        × (a.base ≡ apic_start + next + entry.address % page_size)
        × (a.controller ≡ new_io_apic entry.apic_id entry.gsi_base)
        × (next' ≤ next + 2 * page_size)
        × (next' % page_size ≡ 0)
        × (entry.address % page_size + apic_mapping_size < next' - next)
        × ((i : ℕ)
            → entry.address % page_size + i < next' - next
            → physical p down f s' (a.base + i) ≡ some (entry.address + i))
        × ((q : ℕ)
            → (q < apic_start + next) ⊎ (apic_start + next' ≤ q)
            → p.translate s' q ≡ p.translate s q)
  unfolding new
  new_lem entry next s aligned room free left =
      let addr = entry.address in
      let frame = down.align_down addr page_size in
      let frame' = down.align_down (addr + apic_mapping_size) page_size in
      let n : ℕ = (frame' - frame) / page_size + 1 in
      let low = align_down_lem p down f addr in
      let high = align_down_lem p down f (addr + apic_mapping_size) in
      let some_pages : n ≤ 2 = omega (arith, low, high) in
      let enough : addr % page_size + apic_mapping_size < n * page_size =
        omega (arith, low, high) in
      let start = apic_start + next in
      let (s', e, spent, mapped, others) =
        map_pages_lem p down f n 0 start frame s (omega arith) (omega arith)
          (λ j a b. free j (omega arith)) (omega arith) in
      let wrapped : (next + n * 0x1000) % 2 ^ 64 ≡ next + n * page_size = omega arith in
      let inside : addr - frame ≡ addr % page_size = omega (arith, low) in
      (
        record {
          base = start + (addr - frame);
          controller = new_io_apic entry.apic_id entry.gsi_base;
        },
        (next + n * 0x1000) % 2 ^ 64,
        s',
        rw
            (
              lt→ltb start (2 ^ 64) (omega arith),
              e,
              lt→ltb (start + (addr - frame)) (2 ^ 64) (omega arith),
            )
            refl,
        omega arith,
        omega arith,
        refl,
        omega arith,
        omega arith,
        omega arith,
        λ i small.
            let v = start + (addr - frame) + i in
            let j = (addr % page_size + i) / page_size in
            physical_lem p down f s' v (start + j * page_size) (frame + j * page_size)
              (io_apic_flags p down f) (addr + i) (mapped j (omega arith) (omega arith))
              (omega arith) (omega (arith, low)),
        λ q apart. others q (outside q n wrapped apart),
      )
    where
      outside :
          (q n : ℕ)
          → (next + n * 0x1000) % 2 ^ 64 ≡ next + n * page_size
          → (q < apic_start + next) ⊎ (apic_start + (next + n * 0x1000) % 2 ^ 64 ≤ q)
          → (q < apic_start + next + 0 * page_size) ⊎ (apic_start + next + (0 + n) * page_size ≤ q)
      outside q n e (inl a) = inl (omega arith)
      outside q n e (inr a) = inr (omega arith)

  init_local_lem :
      (frame : ℕ) (s : S)
      → p.translate s lapic_addr ≡ none
      → 3 ≤ p.frames_left s
      → (s' : S) × (init_local p down f frame s ≡ some (lapic_addr, s'))
        × (p.frames_left s ≤ p.frames_left s' + 3)
        × (p.translate s' lapic_addr ≡ some (frame, lapic_flags p down f))
        × ((q : ℕ) → (q < lapic_addr) ⊎ (lapic_addr < q) → p.translate s' q ≡ p.translate s q)
  unfolding init_local
  init_local_lem frame s free left =
      let (s', e, spent, at, same) =
        map_to_lem p down f s lapic_addr frame (lapic_flags p down f) free left in
      (s', rw (from_start_address_lem p down f lapic_addr (omega arith), e) refl, spent, at, same)

  new_hpet_lem :
      (table : HpetTable) (s : S)
      → table.address.address_space ≡ memory_space
      → table.address.address % page_size ≡ 0
      → p.translate s hpet_addr ≡ none
      → 3 ≤ p.frames_left s
      → (s' : S) × (new_hpet p down f table s ≡ some (hpet_addr, s'))
        × (p.frames_left s ≤ p.frames_left s' + 3)
        × (p.translate s' hpet_addr ≡ some (table.address.address, hpet_flags p down f))
        × ((q : ℕ) → (q < hpet_addr) ⊎ (hpet_addr < q) → p.translate s' q ≡ p.translate s q)
  unfolding new_hpet
  new_hpet_lem table s space aligned free left =
      let (s', e, spent, at, same) =
        map_to_lem p down f s hpet_addr table.address.address (hpet_flags p down f) free left in
      (
        s',
        rw
            (
              space,
              from_start_address_lem p down f table.address.address aligned,
              from_start_address_lem p down f hpet_addr (omega arith),
              e,
            )
            refl,
        spent,
        at,
        same,
      )

  -- The kernel maps the local APIC, an I/O APIC and the event timer one after the other. With their
  -- pages unmapped, 12 frames left, room for two pages in the I/O APICs' space and the timer's table
  -- naming a page of memory, none of the three calls panics, and afterwards each device's registers
  -- are at their virtual addresses: the page of the local APIC, the page of the timer, and of the
  -- I/O APIC all bytes up to the end of its last page, at least the first nine.
  pub map_devices_lem :
      (lapic_frame : ℕ) (entry : IoApicEntry) (table : HpetTable) (next : ℕ) (s : S)
      → next % page_size ≡ 0
      → next + 2 * page_size ≤ apic_size
      → table.address.address_space ≡ memory_space
      → table.address.address % page_size ≡ 0
      → p.translate s lapic_addr ≡ none
      → p.translate s hpet_addr ≡ none
      → ((j : ℕ) → j < 2 → p.translate s (apic_start + next + j * page_size) ≡ none)
      → 12 ≤ p.frames_left s
      → (s1 : S) × (a : MappedIoApic) × (next' : ℕ) × (s2 : S) × (s3 : S) × (init_local p down f
            lapic_frame s
          ≡ some (lapic_addr, s1))
        × (new p down f entry next s1 ≡ some (a, next', s2))
        × (new_hpet p down f table s2 ≡ some (hpet_addr, s3))
        × (entry.address % page_size + apic_mapping_size < next' - next)
        × ((i : ℕ) → i < page_size → physical p down f s3 (lapic_addr + i) ≡ some (lapic_frame + i))
        × ((i : ℕ)
            → entry.address % page_size + i < next' - next
            → physical p down f s3 (a.base + i) ≡ some (entry.address + i))
        × ((i : ℕ)
            → i < page_size
            → physical p down f s3 (hpet_addr + i) ≡ some (table.address.address + i))
  map_devices_lem lapic_frame entry table next s aligned room space whole free free' unused left =
      let (s1, e1, spent1, at1, same1) = init_local_lem lapic_frame s free (omega arith) in
      let (a, next', s2, e2, spent2, base, made, top, next_aligned, enough, at2, same2) =
        new_lem entry next s1 aligned room
          (λ j b. same1 (apic_start + next + j * page_size) (inr (omega arith)) ∙ unused j b)
          (omega arith) in
      let (s3, e3, spent3, at3, same3) =
        new_hpet_lem table s2 space whole
          (same2 hpet_addr (inl (omega arith)) ∙ same1 hpet_addr (inr (omega arith)) ∙ free')
          (omega arith) in
      (
        s1,
        a,
        next',
        s2,
        s3,
        e1,
        e2,
        e3,
        enough,
        λ i small.
            physical_lem p down f s3 (lapic_addr + i) lapic_addr lapic_frame (lapic_flags p down f)
              (lapic_frame + i)
              (same3 lapic_addr (inl (omega arith)) ∙ same2 lapic_addr (inl (omega arith)) ∙ at1)
              (omega arith) (omega arith),
        λ i small.
            kept p down f s2 s3 (a.base + i) (some (entry.address + i))
              (same3 ((a.base + i) / page_size * page_size) (inr (omega arith))) (at2 i small),
        λ i small.
            physical_lem p down f s3 (hpet_addr + i) hpet_addr table.address.address
              (hpet_flags p down f) (table.address.address + i) at3 (omega arith) (omega arith),
      )
