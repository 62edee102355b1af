-- ===== src/Idt/WrapperTests.antt =====
-- Runs of the theorems on the interrupt entries.
use titanium.Base.{ℕ, ◌%◌, ◌≡◌, refl, arith, inr}
use titanium.Cpu.{Cpu, rax, rdi, popped, set_reg, WordsAt}
use titanium.Hdint.Pit
use titanium.Idt.Wrappers.{enter, IsFunction, handler_from_lapic, pit_interrupt, stack_frame}
use titanium.Idt.Returns.{IsBack, pit_interrupt_lem}
use titanium.Idt.Called.{called, IsBackBut, handler_from_lapic_lem}

abbrev interrupted : Cpu
interrupted = record {
  regs = λ r. 7;
  stack = record { rsp = 4096; mem = λ a. 5 };
  rflags = 514;
  rip = 99;
}

abbrev sets_zero : ℕ → ℕ
sets_zero flags = 70

-- A function that only leaves a value in `rax`.
abbrev returns : Cpu → Cpu
returns c = set_reg (record c { stack = popped c.stack }) rax 9

returns-IsFunction : IsFunction returns
returns-IsFunction c = (refl, refl, refl, refl, refl, refl, refl, λ a low high. refl)

pit_interrupt_lem_example :
    let back = pit_interrupt sets_zero 8192 9000 (enter 1 interrupted) in
    IsBack interrupted back
    × (back.stack.mem 8192 ≡ Pit.pit_interrupt 5)
    × (back.stack.mem 9000 ≡ 0)
pit_interrupt_lem_example =
    pit_interrupt_lem sets_zero 1 8192 9000 interrupted (omega arith) (inr (omega arith))
      (inr (omega arith)) (λ e. omega arith)

handler_from_lapic_lem_example :
    let at = called 50 (enter 1 interrupted) in
    let end = handler_from_lapic 9000 50 returns (enter 1 interrupted) in
    WordsAt at.stack.mem (at.regs rdi) (stack_frame interrupted)
    × (at.stack.rsp % 16 ≡ 0)
    × IsBackBut interrupted end
    × (end.stack.mem 9000 ≡ 0)
    × (end.regs rax ≡ 0)
handler_from_lapic_lem_example =
    handler_from_lapic_lem 1 9000 50 returns interrupted (omega arith) (inr (omega arith))
      returns-IsFunction
