-- ===== src/Scheduler/HandedOver.antt =====
-- The words that a task leaves on its stack when it hands the processor over to the scheduler
-- (src/scheduler.rs): by yielding, or preempted.
use titanium.Base.{ℕ, ◌+◌, ◌*◌, ◌/◌, ◌≤◌, ◌<◌, ◌≡◌, refl, ◌∙◌, subst, ◌≢◌}
use titanium.Base.{arith, List, [], ◌∷◌, ==_ne, length}
use titanium.Cpu.{
  Cpu, rax, rbx, rcx, rdx, rsi, rdi, rbp, r8, r9, r10, r11, r12, r13, r14, r15, Stack,
  interrupts_off, rsp-pushed, WordsAt, Holds, Holds-pushed_all, pushed_all, onto,
}
use titanium.Scheduler.Frames.{
  Labels, release_task, interrupt, scheduler_preempt, kernel_cs, kernel_ss, taskid_scheduler,
}

-- The words that a yielded task leaves on its stack.
abbrev pub yield_frame : Labels → Cpu → List ℕ
yield_frame l c =
    c.regs r15
    ∷ c.regs r14
    ∷ c.regs r13
    ∷ c.regs r12
    ∷ c.regs rbp
    ∷ c.regs rbx
    ∷ l.yield_resume
    ∷ kernel_cs
    ∷ interrupts_off c.rflags
    ∷ c.stack.rsp
    ∷ kernel_ss
    ∷ []

pub WordsAt-agree :
    (m m' : ℕ → ℕ) (lo hi a : ℕ) (xs : List ℕ)
    → ((d : ℕ) → lo ≤ d → d < hi → m' d ≡ m d)
    → lo ≤ a
    → a + 8 * length xs ≤ hi
    → WordsAt m a xs
    → WordsAt m' a xs
WordsAt-agree m m' lo hi a [] same h high w = tt
WordsAt-agree m m' lo hi a (x ∷ xs) same h high w = (
  same a h (omega arith) ∙ w.0,
  WordsAt-agree m m' lo hi (a + 8) xs same (omega arith) (omega arith) w.1,
)

-- The words that a yielding task pushes, those of its own frame first.
abbrev yield_words : Labels → Cpu → List ℕ
yield_words l c =
    kernel_ss
    ∷ c.stack.rsp
    ∷ interrupts_off c.rflags
    ∷ kernel_cs
    ∷ l.yield_resume
    ∷ c.regs rbx
    ∷ c.regs rbp
    ∷ c.regs r12
    ∷ c.regs r13
    ∷ c.regs r14
    ∷ c.regs r15
    ∷ []

-- Going over to the scheduler leaves five more words under a frame.
module _ (jump_out flags sp : ℕ) where
  abbrev pub handed_over : Stack → Stack
  handed_over s = pushed_all (kernel_ss ∷ sp ∷ flags ∷ kernel_cs ∷ jump_out ∷ []) s

  pub handed_over_lem :
      (s : Stack) (xs : List ℕ)
      → 8 * 5 ≤ s.rsp
      → Holds s xs
      → let s' = handed_over s in
        (s'.mem s'.rsp ≡ jump_out) × (s'.mem (s'.rsp + 8 + 8 + 8) ≡ sp) × WordsAt s'.mem s.rsp xs
  handed_over_lem s xs room w =
      let s' = handed_over s in
      let h = Holds-pushed_all (kernel_ss ∷ sp ∷ flags ∷ kernel_cs ∷ jump_out ∷ []) s xs room w in
      let up : s'.rsp + 8 + 8 + 8 + 8 + 8 ≡ s.rsp = omega (arith, rsp-pushed) in
      (h.0, h.1.1.1.0, subst (λ a. WordsAt s'.mem a xs) up h.1.1.1.1.1)

-- Yielding saves the frame at the address that the scheduler is handed, and goes to the
-- scheduler's stack.
pub release_task-saves :
    (l : Labels) (scheduler_sp flags : ℕ) (c : Cpu)
    → 8 * 16 ≤ c.stack.rsp
    → let c' = release_task l scheduler_sp flags c in
      (c'.rip ≡ l.yield_jump_out)
      × (c'.stack.rsp ≡ scheduler_sp)
      × (c'.regs rsi ≡ flags)
      × WordsAt c'.stack.mem (c'.regs rdi) (yield_frame l c)
unfolding release_task
release_task-saves l sp flags c room =
    let s = pushed_all (yield_words l c) c.stack in
    let own = Holds-pushed_all (yield_words l c) c.stack [] (omega arith) tt in
    let rest =
      handed_over_lem l.yield_jump_out (interrupts_off c.rflags) sp s (yield_frame l c)
        (omega (arith, rsp-pushed)) own in
    (rest.0, rest.1, refl, rest.2)

-- The words of a preempted task, the processor's own first, and the frame that they make.
abbrev pub preempt_words : ℕ → Cpu → List ℕ
preempt_words task_id c =
    kernel_ss
    ∷ c.stack.rsp
    ∷ c.rflags
    ∷ kernel_cs
    ∷ c.rip
    ∷ c.rflags
    ∷ c.regs rax
    ∷ c.regs rcx
    ∷ c.regs rdx
    ∷ c.regs rsi
    ∷ c.regs rdi
    ∷ c.regs r8
    ∷ c.regs r9
    ∷ c.regs r10
    ∷ c.regs r11
    ∷ c.regs rbx
    ∷ c.regs rbp
    ∷ c.regs r12
    ∷ c.regs r13
    ∷ taskid_scheduler
    ∷ task_id
    ∷ []

abbrev pub preempt_frame : ℕ → Cpu → List ℕ
preempt_frame task_id c = onto (preempt_words task_id c) []

-- The processor at the scheduler's door, after the timer interrupted a task.
abbrev pub preempted : Labels → ℕ → ℕ → Cpu → Cpu
preempted l scheduler_sp task_id c =
    scheduler_preempt l scheduler_sp task_id (interrupt l.preempt_entry c)

pub preempt-saves :
    (l : Labels) (scheduler_sp task_id : ℕ) (c : Cpu)
    → task_id ≢ taskid_scheduler
    → 8 * 30 ≤ c.stack.rsp
    → let c' = preempted l scheduler_sp task_id c in
      (c'.rip ≡ l.preempt_jump_out)
      × (c'.stack.rsp ≡ scheduler_sp)
      × (c'.regs rsi ≡ 2)
      × WordsAt c'.stack.mem (c'.regs rdi) (preempt_frame task_id c)
unfolding scheduler_preempt
preempt-saves l sp task_id c other room =
    rw (==_ne task_id taskid_scheduler other) (rest.0, rest.1, refl, rest.2)
  where
    aligned : Stack
    aligned = record { rsp = c.stack.rsp / 16 * 16; mem = c.stack.mem }

    s : Stack
    s = pushed_all (preempt_words task_id c) aligned

    own : Holds s (preempt_frame task_id c)
    own = Holds-pushed_all (preempt_words task_id c) aligned [] (omega arith) tt

    rest :
        let s' = handed_over l.preempt_jump_out c.rflags sp s in
        (s'.mem s'.rsp ≡ l.preempt_jump_out)
        × (s'.mem (s'.rsp + 8 + 8 + 8) ≡ sp)
        × WordsAt s'.mem s.rsp (preempt_frame task_id c)
    rest =
        handed_over_lem l.preempt_jump_out c.rflags sp s (preempt_frame task_id c)
          (omega (arith, rsp-pushed)) own
