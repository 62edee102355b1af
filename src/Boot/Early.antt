-- ===== src/Boot/Early.antt =====
-- The first steps of `kmain` (src/main.rs): the segments, then the interrupt table, which takes its
-- code segment from them.
use titanium.Base.{ℕ, ◌≡◌, refl, subst, true, Option, some, ◌>>=◌}
use titanium.Gdt.{
  GlobalDescriptorTable, Segments, kernel_code_segment, kernel_data_segment, tss_segment, described,
}
use titanium.Gdt
use titanium.Idt.Table.{Table}
use titanium.Idt.Init.{HandlerAddresses, vectors, handler_of, Addresses64, Installed}
use titanium.Idt.Init
use titanium.Scheduler.Frames.{kernel_cs, kernel_ss}

module _ {G : Type 0} (gdt : GlobalDescriptorTable G) where
  -- `gdt::init` and `idt::init`, in the order of `kmain`.
  unfoldable pub early_init : HandlerAddresses → Option (G × Segments × Table)
  early_init handlers = do
    (g, segments) ← Gdt.init gdt
    idt ← Init.init segments.cs handlers segments.interrupts
    some (g, segments, idt)

  -- With handlers at 64-bit addresses, both return normally. Every handler stands behind a gate
  -- whose selector names the kernel's code segment, the stack segment is the kernel's data segment
  -- and the task register names the task state segment; the selectors are those that the
  -- scheduler's frames are built with, and interrupts are let in.
  pub early_init_lem :
      (handlers : HandlerAddresses)
      → Addresses64 (vectors handlers)
      → (g : G) × (segments : Segments) × (idt : Table) × (early_init handlers
          ≡ some (g, segments, idt))
        × (segments.cs ≡ kernel_cs)
        × (segments.ss ≡ kernel_ss)
        × (described gdt g kernel_cs ≡ some kernel_code_segment)
        × (described gdt g kernel_ss ≡ some kernel_data_segment)
        × (described gdt g segments.tr ≡ some tss_segment)
        × ((i : ℕ) → Installed kernel_cs (idt.entries i) (handler_of (vectors handlers) i))
        × (idt.interrupts ≡ true)
  unfolding early_init
  early_init_lem handlers fits =
      let (g, segments, e, code, data_, _, _, _, _, task, cs, ss) = Gdt.init_lem gdt in
      let (idt, e2, on, installed) = Init.init_lem segments.cs handlers segments.interrupts fits in
      (
        g,
        segments,
        idt,
        rw (e, e2) refl,
        cs,
        ss,
        subst (λ c. described gdt g c ≡ some kernel_code_segment) cs code,
        subst (λ c. described gdt g c ≡ some kernel_data_segment) ss data_,
        task,
        subst (λ c. (i : ℕ) → Installed c (idt.entries i) (handler_of (vectors handlers) i)) cs
            installed,
        on,
      )
