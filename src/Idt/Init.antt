-- ===== src/Idt/Init.antt =====
-- The table that `init` sets up (idt.rs). The handlers are the addresses of the wrappers that the
-- macros make around them.
use titanium.Base.{ℕ, ◌^◌, ◌<◌, ◌≡◌, refl, Bool, true, false}
use titanium.Base.{
  Option, none, some, List, [], ◌∷◌, ◌==◌, if◌then◌else◌, ◌>>=◌, Bool-cases, inl, inr,
}
use titanium.Idt.Table.{
  Entry, Table, new_entry, empty_entry, entry_handler, with_trap, is_trap, is_present, set_handler,
  set_handler_only, irq_lapic_clk, irq_pit, irq_rtc, irq_hpet,
}
use titanium.Idt.Handlers.{new_entry-handler, with_trap-is_trap}

pub record HandlerAddresses : Type 0 where
  pub breakpoint : ℕ
  pub inv_opcode : ℕ
  pub double_fault : ℕ
  pub tss_inv : ℕ
  pub snp : ℕ
  pub ss_fault : ℕ
  pub gp_fault : ℕ
  pub page_fault : ℕ
  pub lapic_clk : ℕ
  pub pit : ℕ
  pub rtc : ℕ
  pub hpet : ℕ

-- `InterruptDescriptorTable::new`
abbrev pub new_table : Bool → Table
new_table interrupts = record { entries = λ i. empty_entry; interrupts = interrupts }

-- `interrupts` is the flag before.
unfoldable pub init : ℕ → HandlerAddresses → Bool → Option Table
init cs h interrupts = do
  t1 ← set_handler cs (new_table interrupts) 3 h.breakpoint false
  t2 ← set_handler cs t1 6 h.inv_opcode false
  t3 ← set_handler cs t2 8 h.double_fault true
  t4 ← set_handler cs t3 10 h.tss_inv true
  t5 ← set_handler cs t4 11 h.snp true
  t6 ← set_handler cs t5 12 h.ss_fault true
  t7 ← set_handler cs t6 13 h.gp_fault true
  t8 ← set_handler cs t7 14 h.page_fault true
  t9 ← set_handler_only cs t8 irq_lapic_clk h.lapic_clk
  t10 ← set_handler_only cs t9 irq_pit h.pit
  t11 ← set_handler_only cs t10 irq_rtc h.rtc
  t12 ← set_handler_only cs t11 irq_hpet h.hpet
  some (record t12 { interrupts = true })

-- Which vector has which handler, and whether behind a trap gate, with the last one set first.
abbrev pub vectors : HandlerAddresses → List (ℕ × ℕ × Bool)
vectors h =
    (irq_hpet, h.hpet, false)
    ∷ (irq_rtc, h.rtc, false)
    ∷ (irq_pit, h.pit, false)
    ∷ (irq_lapic_clk, h.lapic_clk, false)
    ∷ (14, h.page_fault, true)
    ∷ (13, h.gp_fault, true)
    ∷ (12, h.ss_fault, true)
    ∷ (11, h.snp, true)
    ∷ (10, h.tss_inv, true)
    ∷ (8, h.double_fault, true)
    ∷ (6, h.inv_opcode, false)
    ∷ (3, h.breakpoint, false)
    ∷ []

abbrev pub handler_of : List (ℕ × ℕ × Bool) → ℕ → Option (ℕ × Bool)
handler_of [] i = none
handler_of ((v, address, trap) ∷ l) i =
    let rest = handler_of l i in if v == i then some (address, trap) else rest

-- What the processor has to find in an entry.
abbrev pub Installed : ℕ → Entry → Option (ℕ × Bool) → Type 0
Installed cs e none = is_present e.opts ≡ false
Installed cs e (some (address, trap)) =
    (entry_handler e ≡ address)
    × (e.gdt_sel ≡ cs)
    × (is_present e.opts ≡ true)
    × (is_trap e.opts ≡ trap)

abbrev pub Addresses64 : List (ℕ × ℕ × Bool) → Type 0
Addresses64 [] = Unit
Addresses64 ((v, address, trap) ∷ l) = (address < 2 ^ 64) × Addresses64 l

abbrev gate : ℕ → ℕ → Bool → Entry
gate cs address trap =
    let entry = new_entry cs address in record entry { opts = with_trap entry.opts trap }

abbrev entries_of : ℕ → List (ℕ × ℕ × Bool) → ℕ → Entry
entries_of cs [] i = empty_entry
entries_of cs ((v, address, trap) ∷ l) i =
    let rest = entries_of cs l i in if v == i then gate cs address trap else rest

entries_of-Installed :
    (cs : ℕ) (l : List (ℕ × ℕ × Bool)) (i : ℕ)
    → Addresses64 l
    → Installed cs (entries_of cs l i) (handler_of l i)
unfolding new_entry is_present
entries_of-Installed cs [] i fits = refl
entries_of-Installed cs ((v, address, trap) ∷ l) i (fit, fits) =
    let ih = entries_of-Installed cs l i fits in
    elim (Bool-cases (v == i)) [
      | inl e ↦ rw e (
        new_entry-handler cs address fit,
        refl,
        (with_trap-is_trap trap).1,
        (with_trap-is_trap trap).0,
      )
      | inr e ↦ rw e ih
    ]

-- Where the handlers are 64-bit addresses, `init` returns with interrupts enabled: each vector of the
-- table has its handler in a present entry, behind a trap gate for the exceptions from 8 on and an
-- interrupt gate for the others, and no other vector has a present entry.
pub init_lem :
    (cs : ℕ) (h : HandlerAddresses) (interrupts : Bool)
    → Addresses64 (vectors h)
    → (t : Table) × (init cs h interrupts ≡ some t)
      × (t.interrupts ≡ true)
      × ((i : ℕ) → Installed cs (t.entries i) (handler_of (vectors h) i))
unfolding init set_handler set_handler_only new_entry with_trap
init_lem cs h interrupts fits =
    let t : Table = record { entries = entries_of cs (vectors h); interrupts = true } in
    (t, refl, refl, λ i. entries_of-Installed cs (vectors h) i fits)
