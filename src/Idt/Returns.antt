-- ===== src/Idt/Returns.antt =====
-- What code that is interrupted finds when the entry returns (src/idt.rs, src/hdint.rs,
-- src/hdint/pit.rs).
use titanium.Base.{ℕ, ◌+◌, ◌-◌, ◌*◌, ◌/◌, ◌%◌, ◌^◌, ◌≤◌, ◌≡◌, ◌≢◌, refl, ap}
use titanium.Base.{List, [], ◌∷◌, length, arith, ◌==◌, ==_refl, ==_ne, if◌then◌else◌}
use titanium.Cpu.{
  Cpu, Stack, Reg, Reg-same, rax, rbx, WordsAt, WordsAt-store-Beside, Beside, mem-pushed_all,
  Holds-pushed_all, pushed_all, onto, rsp-pushed, interrupts_off,
}
use titanium.Scheduler.Frames.{kernel_cs, kernel_ss}
use titanium.Hdint.Pit
use titanium.Hdint.Pit.{pit_interval}
use titanium.Idt.Wrappers.{enter, lapic_clk_interrupt, pit_interrupt}

-- The words that the processor pushes.
abbrev pub entry_words : Cpu → List ℕ
entry_words c = kernel_ss ∷ c.stack.rsp ∷ c.rflags ∷ kernel_cs ∷ c.rip ∷ []

abbrev pub aligned : Cpu → Stack
aligned c = record { rsp = c.stack.rsp / 16 * 16; mem = c.stack.mem }

-- The registers, the place, the stack pointer and the flags.
abbrev pub IsBack : Cpu → Cpu → Type 0
IsBack c back =
    (back.rip ≡ c.rip)
    × (back.stack.rsp ≡ c.stack.rsp)
    × (back.rflags ≡ c.rflags)
    × ((r : Reg) → back.regs r ≡ c.regs r)

abbrev lapic_words : Cpu → List ℕ
lapic_words c = kernel_ss ∷ c.stack.rsp ∷ c.rflags ∷ kernel_cs ∷ c.rip ∷ c.regs rax ∷ []

-- The two words that a timer's entry writes, beside a stack that keeps its words.
WordsAt-written :
    (s : Stack) (lo hi a x b y : ℕ) (xs : List ℕ)
    → Beside lo hi a
    → Beside lo hi b
    → lo ≤ s.rsp
    → s.rsp + 8 * length xs ≤ hi
    → WordsAt s.mem s.rsp xs
    → WordsAt (λ d. if d == b then y else (if d == a then x else s.mem d)) s.rsp xs
WordsAt-written s lo hi a x b y xs beside beside2 low high w =
    WordsAt-store-Beside (λ d. if d == a then x else s.mem d) lo hi s.rsp b y xs beside2 low high
      (WordsAt-store-Beside s.mem lo hi s.rsp a x xs beside low high w)

-- The local timer's entry, with 80 bytes of stack and the two words beside them: the code that it
-- interrupts goes on with all its registers and flags; bit 0 of the flags' byte is clear, which
-- ends `sleep_us`, and the interrupt controller has its end-of-interrupt.
pub lapic_clk_interrupt_lem :
    (left : ℕ → ℕ) (h flags eoi : ℕ) (c : Cpu)
    → 80 ≤ c.stack.rsp
    → Beside (c.stack.rsp - 80) c.stack.rsp flags
    → Beside (c.stack.rsp - 80) c.stack.rsp eoi
    → flags ≢ eoi
    → let back = lapic_clk_interrupt left flags eoi (enter h c) in
      IsBack c back
      × (back.stack.mem flags ≡ c.stack.mem flags - c.stack.mem flags % 2)
      × (back.stack.mem eoi ≡ 0)
unfolding lapic_clk_interrupt
lapic_clk_interrupt_lem left h flags eoi c room beside beside2 differ =
    let lo = c.stack.rsp - 80 in
    let s = pushed_all (lapic_words c) (aligned c) in
    let kept =
      mem-pushed_all (lapic_words c) (aligned c) lo c.stack.rsp flags beside (omega arith)
        (omega arith) in
    let v = s.mem flags - s.mem flags % 2 in
    let w =
      WordsAt-written s lo c.stack.rsp flags v eoi 0 (onto (lapic_words c) []) beside beside2
        (omega (arith, rsp-pushed)) (omega (arith, rsp-pushed))
        (Holds-pushed_all (lapic_words c) (aligned c) [] (omega arith) tt) in
    (
      (
        w.1.0,
        w.1.1.1.1.0,
        w.1.1.1.0,
        Reg-same _ c.regs w.0 refl refl refl refl refl refl refl refl refl refl refl refl refl refl,
      ),
      rw (==_ne flags eoi differ, ==_refl flags) (ap (λ x. x - x % 2) kept),
      rw (==_refl eoi) refl,
    )

abbrev pit_words : Cpu → List ℕ
pit_words c =
    kernel_ss
    ∷ c.stack.rsp
    ∷ c.rflags
    ∷ kernel_cs
    ∷ c.rip
    ∷ c.regs rax
    ∷ c.regs rbx
    ∷ interrupts_off c.rflags
    ∷ []

-- The programmable interval timer's entry, with 96 bytes of stack and the two words beside them: the
-- code that it interrupts goes on with all its registers and flags; the counter is where
-- `Hdint.Pit` has it after an interrupt, one interval ahead modulo 2^64, and the interrupt controller
-- has its end-of-interrupt.
pub pit_interrupt_lem :
    (left : ℕ → ℕ) (h timer eoi : ℕ) (c : Cpu)
    → 96 ≤ c.stack.rsp
    → Beside (c.stack.rsp - 96) c.stack.rsp timer
    → Beside (c.stack.rsp - 96) c.stack.rsp eoi
    → timer ≢ eoi
    → let back = pit_interrupt left timer eoi (enter h c) in
      IsBack c back
      × (back.stack.mem timer ≡ Pit.pit_interrupt (c.stack.mem timer))
      × (back.stack.mem eoi ≡ 0)
unfolding pit_interrupt Pit.pit_interrupt
pit_interrupt_lem left h timer eoi c room beside beside2 differ =
    let lo = c.stack.rsp - 96 in
    let s = pushed_all (pit_words c) (aligned c) in
    let kept =
      mem-pushed_all (pit_words c) (aligned c) lo c.stack.rsp timer beside (omega arith)
        (omega arith) in
    let v = (s.mem timer + pit_interval) % 2 ^ 64 in
    let w =
      WordsAt-written s lo c.stack.rsp timer v eoi 0 (onto (pit_words c) []) beside beside2
        (omega (arith, rsp-pushed)) (omega (arith, rsp-pushed))
        (Holds-pushed_all (pit_words c) (aligned c) [] (omega arith) tt) in
    (
      (
        w.1.1.1.0,
        w.1.1.1.1.1.1.0,
        w.1.1.1.1.1.0,
        Reg-same _ c.regs w.1.1.0 w.1.0 refl refl refl refl refl refl refl refl refl refl refl refl
            refl,
      ),
      rw (==_ne timer eoi differ, ==_refl timer) (ap (λ x. (x + pit_interval) % 2 ^ 64) kept),
      rw (==_refl eoi) refl,
    )
