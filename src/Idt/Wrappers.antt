-- ===== src/Idt/Wrappers.antt =====
-- The interrupt entries in assembly: those that src/idt.rs wraps around a function, the timers' of
-- src/hdint.rs and src/hdint/pit.rs, and the frame that they find on the stack.
use titanium.Base.{ℕ, ◌+◌, ◌≤◌, ◌<◌, ◌≡◌, List, [], ◌∷◌}
use titanium.Hdint.Pit.{pit_interval}
use titanium.Scheduler.Frames.{interrupt, kernel_cs, kernel_ss}
use titanium.Cpu.{
  pushed, interrupts_off, Cpu, Instr, rax, rbx, rsi, rdi, rbp, r12, r13, r14, r15, run, push, pop,
  pushfq, popfq, iretq, mov_imm, mov_rsp, load, store, add, and_byte_not_1, call,
}

-- A compiled function by the System V convention: it returns, keeps the registers that are the
-- caller's, and leaves the frame behind its return address as it is.
abbrev pub IsFunction : (Cpu → Cpu) → Type 0
IsFunction f =
    (c : Cpu)
    → ((f c).stack.rsp ≡ c.stack.rsp + 8)
      × ((f c).regs rbx ≡ c.regs rbx)
      × ((f c).regs rbp ≡ c.regs rbp)
      × ((f c).regs r12 ≡ c.regs r12)
      × ((f c).regs r13 ≡ c.regs r13)
      × ((f c).regs r14 ≡ c.regs r14)
      × ((f c).regs r15 ≡ c.regs r15)
      × ((a : ℕ) → c.stack.rsp + 8 ≤ a → a < c.stack.rsp + 48 → (f c).stack.mem a ≡ c.stack.mem a)

-- The wrapper of `handler!`; `back` is the address behind its call.
abbrev pub handler_block : ℕ → (Cpu → Cpu) → List Instr
handler_block back f = mov_rsp rdi ∷ call back f ∷ iretq ∷ []

-- `handler_from_lapic!`
abbrev pub handler_from_lapic_block : ℕ → ℕ → (Cpu → Cpu) → List Instr
handler_from_lapic_block eoi back f =
    mov_rsp rdi ∷ call back f ∷ mov_imm rax 0 ∷ store eoi rax ∷ iretq ∷ []

-- `handler_with_ec!`, up to and with its call.
abbrev pub handler_with_ec_block : ℕ → (Cpu → Cpu) → List Instr
handler_with_ec_block back f = pop rsi ∷ mov_rsp rdi ∷ call back f ∷ []

-- `lapic_clk_interrupt`; `flags` is the address of `TIMER_FLAGS`.
abbrev pub lapic_clk_block : (ℕ → ℕ) → ℕ → ℕ → List Instr
lapic_clk_block left flags eoi =
    push rax ∷ and_byte_not_1 left flags ∷ mov_imm rax 0 ∷ store eoi rax ∷ pop rax ∷ iretq ∷ []

-- `pit_interrupt`; `timer` is the address of `TIMER_COUNTER`.
abbrev pub pit_block : (ℕ → ℕ) → ℕ → ℕ → List Instr
pit_block left timer eoi =
    push rax
    ∷ push rbx
    ∷ pushfq
    ∷ load rax timer
    ∷ mov_imm rbx pit_interval
    ∷ add left rax rbx
    ∷ store timer rax
    ∷ mov_imm rax 0
    ∷ store eoi rax
    ∷ popfq
    ∷ pop rbx
    ∷ pop rax
    ∷ iretq
    ∷ []

unfoldable pub handler : ℕ → (Cpu → Cpu) → Cpu → Cpu
handler back f c = run (handler_block back f) c

unfoldable pub handler_from_lapic : ℕ → ℕ → (Cpu → Cpu) → Cpu → Cpu
handler_from_lapic eoi back f c = run (handler_from_lapic_block eoi back f) c

unfoldable pub handler_with_ec : ℕ → (Cpu → Cpu) → Cpu → Cpu
handler_with_ec back f c = run (handler_with_ec_block back f) c

unfoldable pub lapic_clk_interrupt : (ℕ → ℕ) → ℕ → ℕ → Cpu → Cpu
lapic_clk_interrupt left flags eoi c = run (lapic_clk_block left flags eoi) c

unfoldable pub pit_interrupt : (ℕ → ℕ) → ℕ → ℕ → Cpu → Cpu
pit_interrupt left timer eoi c = run (pit_block left timer eoi) c

-- The processor's own part of an interrupt through an interrupt gate, which keeps interrupts out.
abbrev pub enter : ℕ → Cpu → Cpu
enter h c = record (interrupt h c) { rflags = interrupts_off c.rflags }

-- For some exceptions the processor pushes an error code on top.
abbrev pub enter_with_ec : ℕ → ℕ → Cpu → Cpu
enter_with_ec h ec c = let c' = enter h c in record c' { stack = pushed ec c'.stack }

-- The words of an `InterruptStackFrame`: `ip`, `cs`, `rflags`, `sp`, `ss`.
abbrev pub stack_frame : Cpu → List ℕ
stack_frame c = c.rip ∷ kernel_cs ∷ c.rflags ∷ c.stack.rsp ∷ kernel_ss ∷ []
