-- ===== src/Idt/Table.antt =====
-- Entries of the table and the operations on it (idt.rs). A handler is its address, `cs` the selector
-- that `CS::get_reg` returns.
use titanium.Base.{ℕ, ◌+◌, ◌-◌, ◌*◌, ◌/◌, ◌%◌, ◌^◌, Bool, true, false}
use titanium.Base.{Option, some, ◌==◌, if◌then◌else◌, ltb, check, ◌>>=◌, ◌>>◌}
use titanium.Base.Bits.{◌>>>◌}

-- The vectors of the devices.
abbrev pub irq_lapic_clk : ℕ
irq_lapic_clk = 0x32

abbrev pub irq_pit : ℕ
irq_pit = 0x33

abbrev pub irq_rtc : ℕ
irq_rtc = 0x34

abbrev pub irq_hpet : ℕ
irq_hpet = 0x35

-- The raw bits of `Options`: `0b111 << 9`, and with the present bit.
abbrev pub empty_options : ℕ
empty_options = 0xe00

abbrev pub new_options : ℕ
new_options = empty_options + 0x8000

unfoldable pub is_present : ℕ → Bool
is_present raw = raw / 0x8000 % 2 == 1

unfoldable pub is_trap : ℕ → Bool
is_trap raw = raw / 0x100 % 2 == 1

-- `(raw & !(1 << 8)) | ((trapped as u16) << 8)`
unfoldable pub with_trap : ℕ → Bool → ℕ
with_trap raw trapped = raw - 0x100 * (raw / 0x100 % 2) + (if trapped then 0x100 else 0)

pub record Entry : Type 0 where
  pub ptr_low : ℕ
  pub gdt_sel : ℕ
  pub opts : ℕ
  pub ptr_mid : ℕ
  pub ptr_top : ℕ

-- `Entry::empty`, with the null selector.
abbrev pub empty_entry : Entry
empty_entry = record { ptr_low = 0; gdt_sel = 0; opts = empty_options; ptr_mid = 0; ptr_top = 0 }

-- `as u16` and `as u32` drop the high bits.
unfoldable pub new_entry : ℕ → ℕ → Entry
new_entry gdt_sel handler = record {
  gdt_sel = gdt_sel;
  ptr_low = handler % 2 ^ 16;
  ptr_mid = (handler >>> 16) % 2 ^ 16;
  ptr_top = (handler >>> 32) % 2 ^ 32;
  opts = new_options;
}

-- The address that the processor reads off an entry.
abbrev pub entry_handler : Entry → ℕ
entry_handler e = e.ptr_low + e.ptr_mid * 2 ^ 16 + e.ptr_top * 2 ^ 32

-- The 64 entries and the interrupt flag.
pub record Table : Type 0 where
  pub entries : ℕ → Entry
  pub interrupts : Bool

-- `set_handler(entry, handler).with_trap(trapping)`; the index panics from 64 on.
unfoldable pub set_handler : ℕ → Table → ℕ → ℕ → Bool → Option Table
set_handler cs t irq handler trapping = do
  check (ltb irq 64)
  let entry = new_entry cs handler
  some (record t {
    entries = λ i.
        if irq == i then record entry { opts = with_trap entry.opts trapping } else t.entries i;
  })

-- `set_handler` alone.
unfoldable pub set_handler_only : ℕ → Table → ℕ → ℕ → Option Table
set_handler_only cs t irq handler = do
  check (ltb irq 64)
  some (record t { entries = λ i. if irq == i then new_entry cs handler else t.entries i })

unfoldable pub load_handler : ℕ → Table → ℕ → ℕ → Bool → Option Table
load_handler cs t irq handler trapping = do
  check (ltb 31 irq)
  let reenable = t.interrupts
  t' ← set_handler cs (record t { interrupts = false }) irq handler trapping
  some (if reenable then record t' { interrupts = true } else t')
