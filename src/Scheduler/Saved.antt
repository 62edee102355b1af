-- ===== src/Scheduler/Saved.antt =====
-- What a task finds when it is resumed: after it yielded, after it was preempted, at its start.
use titanium.Vmem.{lapic_eoi_addr}
use titanium.Base.{ℕ, ◌+◌, ◌-◌, ◌*◌, ◌/◌, ◌≤◌, ◌<◌, ◌≡◌, refl, ap, ◌∙◌, sym, ◌≢◌}
use titanium.Base.{true, false, arith, List, [], ◌∷◌, le_refl}
use titanium.Cpu.{
  Cpu, rax, rbx, rcx, rdx, rsi, rdi, rbp, r8, r9, r10, r11, r12, r13, r14, r15, run, Stack,
  interrupts_off, pushed, pushed_all, rsp-pushed, Holds-pushed_all, onto, Beside,
  WordsAt-store-Beside,
}
use titanium.Scheduler.Frames.{
  Labels, release_task, scheduler_preempt, resume_cpu, kernel_cs, kernel_ss, taskid_scheduler,
  spawn_block,
}
use titanium.Scheduler.HandedOver.{
  yield_frame, WordsAt-agree, release_task-saves, preempted, preempt_frame, preempt-saves,
}

-- Memory from the saved stack pointer up is as the task left it.
abbrev pub Kept : Cpu → Cpu → Type 0
Kept saved other = (a : ℕ) → saved.regs rdi ≤ a → other.stack.mem a ≡ saved.stack.mem a

-- A task that yielded with 128 bytes of stack, and whose saved words are kept, goes on after its
-- yield with its callee-saved registers, its stack pointer and its flags, but for the interrupt
-- flag: it is off, whatever it was.
pub yield-resume :
    (l : Labels) (scheduler_sp flags : ℕ) (c other : Cpu)
    → 8 * 16 ≤ c.stack.rsp
    → Kept (release_task l scheduler_sp flags c) other
    → let back = resume_cpu ((release_task l scheduler_sp flags c).regs rdi) false other in
      (back.rip ≡ l.yield_resume)
      × (back.stack.rsp ≡ c.stack.rsp)
      × (back.regs rbx ≡ c.regs rbx)
      × (back.regs rbp ≡ c.regs rbp)
      × (back.regs r12 ≡ c.regs r12)
      × (back.regs r13 ≡ c.regs r13)
      × (back.regs r14 ≡ c.regs r14)
      × (back.regs r15 ≡ c.regs r15)
      × (back.rflags ≡ interrupts_off c.rflags)
unfolding resume_cpu
yield-resume l sp flags c other room same =
    let saved = release_task l sp flags c in
    let base = saved.regs rdi in
    let w =
      WordsAt-agree saved.stack.mem other.stack.mem base (base + 8 * 11) base (yield_frame l c)
        (λ d low high. same d low) (le_refl _) (omega arith)
        (release_task-saves l sp flags c room).3 in
    assumption w

-- A task that was preempted with 240 bytes of stack, and whose saved words are kept, goes on where
-- it was, with its stack pointer, its flags and all its registers but two: `r14` holds the
-- scheduler's task id and `r15` the task's own.
pub preempt-resume :
    (l : Labels) (scheduler_sp task_id : ℕ) (c other : Cpu)
    → task_id ≢ taskid_scheduler
    → 8 * 30 ≤ c.stack.rsp
    → Kept (preempted l scheduler_sp task_id c) other
    → let back = resume_cpu ((preempted l scheduler_sp task_id c).regs rdi) true other in
      (back.rip ≡ c.rip)
      × (back.stack.rsp ≡ c.stack.rsp)
      × (back.rflags ≡ c.rflags)
      × (back.regs rax ≡ c.regs rax)
      × (back.regs rbx ≡ c.regs rbx)
      × (back.regs rcx ≡ c.regs rcx)
      × (back.regs rdx ≡ c.regs rdx)
      × (back.regs rsi ≡ c.regs rsi)
      × (back.regs rdi ≡ c.regs rdi)
      × (back.regs rbp ≡ c.regs rbp)
      × (back.regs r8 ≡ c.regs r8)
      × (back.regs r9 ≡ c.regs r9)
      × (back.regs r10 ≡ c.regs r10)
      × (back.regs r11 ≡ c.regs r11)
      × (back.regs r12 ≡ c.regs r12)
      × (back.regs r13 ≡ c.regs r13)
      × (back.regs r14 ≡ taskid_scheduler)
      × (back.regs r15 ≡ task_id)
unfolding resume_cpu
preempt-resume l sp task_id c other differs room same =
    let saved = preempted l sp task_id c in
    let base = saved.regs rdi in
    let w =
      WordsAt-agree saved.stack.mem other.stack.mem base (base + 8 * 21) base
        (preempt_frame task_id c) (λ d low high. same d low) (le_refl _) (omega arith)
        (preempt-saves l sp task_id c differs room).3 in
    assumption w

-- A timer interrupt that hits the scheduler itself, with 240 bytes of stack and the register of the
-- end-of-interrupt beside the 80 below its stack pointer, gives it back its place, its stack pointer,
-- its flags and `rcx`, and gives the interrupt controller its end-of-interrupt; but `rax` is 0, and
-- `r14` and `r15` hold the scheduler's task id.
pub preempt-scheduler :
    (l : Labels) (scheduler_sp : ℕ) (c : Cpu)
    → 8 * 30 ≤ c.stack.rsp
    → Beside (c.stack.rsp - 80) c.stack.rsp lapic_eoi_addr
    → let back = preempted l scheduler_sp taskid_scheduler c in
      (back.rip ≡ c.rip)
      × (back.stack.rsp ≡ c.stack.rsp)
      × (back.rflags ≡ c.rflags)
      × (back.regs rcx ≡ c.regs rcx)
      × (back.regs rax ≡ 0)
      × (back.regs r14 ≡ taskid_scheduler)
      × (back.regs r15 ≡ taskid_scheduler)
      × (back.stack.mem lapic_eoi_addr ≡ 0)
unfolding scheduler_preempt
preempt-scheduler l sp c room beside =
    let words =
      kernel_ss
      ∷ c.stack.rsp
      ∷ c.rflags
      ∷ kernel_cs
      ∷ c.rip
      ∷ c.rflags
      ∷ c.regs rax
      ∷ c.regs rcx
      ∷ [] in
    let aligned : Stack = record { rsp = c.stack.rsp / 16 * 16; mem = c.stack.mem } in
    let s = pushed_all words aligned in
    let h = Holds-pushed_all words aligned [] (omega arith) tt in
    let w =
      WordsAt-store-Beside s.mem (c.stack.rsp - 80) c.stack.rsp s.rsp lapic_eoi_addr 0
        (onto words []) beside (omega (arith, rsp-pushed)) (omega (arith, rsp-pushed)) h in
    (w.1.1.1.0, w.1.1.1.1.1.1.0, w.1.1.1.1.1.0, h.0, refl, refl, refl, refl)

-- The words that are pushed for a new task.
abbrev spawn_words : Labels → Cpu → List ℕ
spawn_words l c =
    l.end_task
    ∷ kernel_ss
    ∷ (pushed l.end_task (record { rsp = c.regs rsi; mem = c.stack.mem })).rsp
    ∷ c.rflags
    ∷ kernel_cs
    ∷ c.regs rdi
    ∷ 0
    ∷ 0
    ∷ 0
    ∷ 0
    ∷ 0
    ∷ 0
    ∷ []

-- A new task with 96 bytes of stack, whose twelve words there are as the spawn left them, starts at its function, on its own
-- stack, with the spawner's flags and zeroed callee-saved registers; the word on top of its stack is
-- the address of `end_task`. The spawner's stack pointer is as before.
pub spawn-resume :
    (l : Labels) (c other : Cpu)
    → 8 * 12 ≤ c.regs rsi
    → ((a : ℕ)
        → (run (spawn_block l) c).regs rax ≤ a
        → a < c.regs rsi
        → other.stack.mem a ≡ (run (spawn_block l) c).stack.mem a)
    → let back = resume_cpu ((run (spawn_block l) c).regs rax) false other in
      (back.rip ≡ c.regs rdi)
      × (back.stack.rsp ≡ c.regs rsi - 8)
      × (back.stack.mem back.stack.rsp ≡ l.end_task)
      × (back.rflags ≡ c.rflags)
      × (back.regs rbx ≡ 0)
      × (back.regs rbp ≡ 0)
      × (back.regs r12 ≡ 0)
      × (back.regs r13 ≡ 0)
      × (back.regs r14 ≡ 0)
      × (back.regs r15 ≡ 0)
      × ((run (spawn_block l) c).stack.rsp ≡ c.stack.rsp)
unfolding resume_cpu
spawn-resume l c other room same =
    let first : Stack = record { rsp = c.regs rsi; mem = c.stack.mem } in
    let started = run (spawn_block l) c in
    let base = started.regs rax in
    let w =
      WordsAt-agree started.stack.mem other.stack.mem base (c.regs rsi) base
        (onto (spawn_words l c) []) same (le_refl _) (omega (arith, rsp-pushed))
        (Holds-pushed_all (spawn_words l c) first [] (omega arith) tt) in
    let landing : other.stack.mem (base + 8 + 8 + 8 + 8 + 8 + 8 + 8 + 8 + 8) ≡ c.regs rsi - 8 =
      w.1.1.1.1.1.1.1.1.1.0 ∙ rsp-pushed l.end_task first in
    let place : base + 8 + 8 + 8 + 8 + 8 + 8 + 8 + 8 + 8 + 8 + 8 ≡ c.regs rsi - 8 =
      omega (arith, rsp-pushed) in
    (
      w.1.1.1.1.1.1.0,
      landing,
      ap other.stack.mem (landing ∙ sym place) ∙ w.1.1.1.1.1.1.1.1.1.1.1.0,
      w.1.1.1.1.1.1.1.1.0,
      w.1.1.1.1.1.0,
      w.1.1.1.1.0,
      w.1.1.1.0,
      w.1.1.0,
      w.1.0,
      w.0,
      refl,
    )
