-- ===== src/Idt/Handlers.antt =====
-- A handler that is loaded is the handler that the processor finds.
use titanium.Base.{ℕ, ◌^◌, ◌<◌, ◌≡◌, refl, ◌≢◌, Bool, true, false}
use titanium.Base.{some, ◌==◌, if◌then◌else◌, arith, ==_refl, ==_ne, lt→ltb, Bool-cases, inl, inr}
use titanium.Idt.Table.{
  Table, new_entry, entry_handler, with_trap, is_trap, is_present, set_handler, load_handler,
  new_options,
}

pub new_entry-handler : (cs h : ℕ) → h < 2 ^ 64 → entry_handler (new_entry cs h) ≡ h
unfolding new_entry
new_entry-handler cs h bound = omega arith

pub with_trap-is_trap :
    (b : Bool)
    → (is_trap (with_trap new_options b) ≡ b) × (is_present (with_trap new_options b) ≡ true)
unfolding is_trap with_trap is_present
with_trap-is_trap true = (refl, refl)
with_trap-is_trap false = (refl, refl)

-- The table with the handler of one interrupt set.
abbrev loaded : ℕ → Table → ℕ → ℕ → Bool → Table
loaded cs t irq h trapping =
    let entry = new_entry cs h in
    record t {
      entries = λ i.
          if irq == i then record entry { opts = with_trap entry.opts trapping } else t.entries i;
    }

load_handler-loaded :
    (cs irq h : ℕ) (t : Table) (trapping : Bool)
    → 31 < irq
    → irq < 64
    → load_handler cs t irq h trapping ≡ some (loaded cs t irq h trapping)
unfolding load_handler set_handler
load_handler-loaded cs irq h t trapping low high = elim (Bool-cases t.interrupts) [
  | inl e ↦ rw (lt→ltb 31 irq low, lt→ltb irq 64 high, e) refl
  | inr e ↦ rw (lt→ltb 31 irq low, lt→ltb irq 64 high, e) refl
]

-- For an interrupt from 32 to 63 and a 64-bit address, loading returns normally: the entry holds the
-- address, is present and is a trap gate as asked, the other entries and the interrupt flag are as
-- before.
pub load_handler_lem :
    (cs irq h : ℕ) (t : Table) (trapping : Bool)
    → 31 < irq
    → irq < 64
    → h < 2 ^ 64
    → (t' : Table) × (load_handler cs t irq h trapping ≡ some t')
      × (entry_handler (t'.entries irq) ≡ h)
      × ((t'.entries irq).gdt_sel ≡ cs)
      × (is_present (t'.entries irq).opts ≡ true)
      × (is_trap (t'.entries irq).opts ≡ trapping)
      × ((j : ℕ) → irq ≢ j → t'.entries j ≡ t.entries j)
      × (t'.interrupts ≡ t.interrupts)
unfolding new_entry
load_handler_lem cs irq h t trapping low high bound = (
  loaded cs t irq h trapping,
  load_handler-loaded cs irq h t trapping low high,
  rw (==_refl irq) (new_entry-handler cs h bound),
  rw (==_refl irq) refl,
  rw (==_refl irq) (with_trap-is_trap trapping).1,
  rw (==_refl irq) (with_trap-is_trap trapping).0,
  λ j differ. rw (==_ne irq j differ) refl,
  refl,
)
