-- ===== src/Scheduler/Continued.antt =====
-- A task goes on where it left off (src/scheduler.rs): after it yielded, and after it was preempted.
use titanium.Base.{ℕ, ◌*◌, ◌≤◌, ◌≡◌, ◌≢◌, refl, sym, ◌∙◌, true, [], ==_ne, subst}
use titanium.Cpu.{
  Cpu, rax, rbx, rcx, rdx, rsi, rdi, rbp, r8, r9, r10, r11, r12, r13, interrupts_off, set_reg, r14,
  r15,
}
use titanium.Scheduler.Frames.{Labels, release_task, taskid_scheduler}
use titanium.Scheduler.State.{
  SegQueue, Kernel, running, resume_scheduler, yield_task, resume_kind, resume_kind_bits,
}
use titanium.Scheduler.World.{World, booted, Reach, after_release}
use titanium.Scheduler.HandedOver.{release_task-saves, preempted, preempt-saves}
use titanium.Scheduler.Saved.{Kept, yield-resume, preempt-resume}
use titanium.Scheduler.State.{preempt_task}
use titanium.Scheduler.Away.{Away, door-resumed}

module _ {Q : Type 0} (s : SegQueue Q) where
  -- In a system that runs from a boot with an empty queue, a task yields, other tasks run in any way,
  -- and at last the scheduler serves the task again. With 128 bytes of stack at the yield, and
  -- memory from the saved stack pointer up as the yield left it, the task goes on after its yield
  -- with its callee-saved registers, its stack pointer and its flags, but for the interrupt flag:
  -- it is off, whatever it was.
  pub yield_task-resumed :
      (l : Labels) (scheduler_task scheduler_sp : ℕ) (k : Kernel Q) (w v : World Q)
      (released flags : ℕ) (k1 k2 : Kernel Q)
      → s.to_list k.task_queue ≡ []
      → Reach s (booted s k) w
      → w.started ≡ true
      → 8 * 16 ≤ w.kernel.cpu.stack.rsp
      → yield_task s l scheduler_task scheduler_sp w.kernel ≡ running k1
      → let x = w.kernel.stale_task in
        let c = w.kernel.cpu in
        let saved = release_task l scheduler_sp 1 c in
        Away s x (after_release s w (saved.regs rdi) 1 k1) v
        → Kept saved v.kernel.cpu
        → resume_scheduler s released flags v.kernel ≡ running k2
        → k2.stale_task ≡ x
        → (k2.cpu.rip ≡ l.yield_resume)
          × (k2.cpu.stack.rsp ≡ c.stack.rsp)
          × (k2.cpu.regs rbx ≡ c.regs rbx)
          × (k2.cpu.regs rbp ≡ c.regs rbp)
          × (k2.cpu.regs r12 ≡ c.regs r12)
          × (k2.cpu.regs r13 ≡ c.regs r13)
          × (k2.cpu.regs r14 ≡ c.regs r14)
          × (k2.cpu.regs r15 ≡ c.regs r15)
          × (k2.cpu.rflags ≡ interrupts_off c.rflags)
  unfolding yield_task resume_kind resume_kind_bits
  yield_task-resumed l scheduler_task sp k w v released flags k1 k2 empty r started room e a kept e'
        back =
      let x = w.kernel.stale_task in
      let c = w.kernel.cpu in
      let saved = release_task l sp 1 c in
      let at =
        door-resumed s scheduler_task saved k w v 1 (saved.regs rsi) released flags k1 k2 empty r
          started e (release_task-saves l sp 1 c room).2 a e' back in
      subst
        (λ (d : Cpu).
          (d.rip ≡ l.yield_resume)
          × (d.stack.rsp ≡ c.stack.rsp)
          × (d.regs rbx ≡ c.regs rbx)
          × (d.regs rbp ≡ c.regs rbp)
          × (d.regs r12 ≡ c.regs r12)
          × (d.regs r13 ≡ c.regs r13)
          × (d.regs r14 ≡ c.regs r14)
          × (d.regs r15 ≡ c.regs r15)
          × (d.rflags ≡ interrupts_off c.rflags))
        (sym at) (yield-resume l sp 1 c (set_reg v.kernel.cpu rdi x) room kept)

  preempt_task-switch :
      (l : Labels) (scheduler_task scheduler_sp : ℕ) (k : Kernel Q)
      → (k.tasks k.current_task).task_id ≢ taskid_scheduler
      → let cpu = preempted l scheduler_sp (k.tasks k.current_task).task_id k.cpu in
        preempt_task s l scheduler_task scheduler_sp k
        ≡ resume_scheduler s
            (cpu.regs rdi)
            (cpu.regs rsi)
            (record k { cpu = cpu; current_task = scheduler_task })
  unfolding preempt_task
  preempt_task-switch l scheduler_task sp k other =
      rw (==_ne (k.tasks k.current_task).task_id taskid_scheduler other) refl

  -- In a system that runs from a boot with an empty queue, the timer preempts a task that is not the
  -- scheduler, other tasks run in any way, and at last the scheduler serves the task again. With 240
  -- bytes of stack at the interrupt, and memory from the saved stack pointer up as it was left, the
  -- task goes on where it was with its stack pointer, its flags and all its registers but two:
  -- `r14` holds the scheduler's task id and `r15` the task's own.
  pub preempt_task-resumed :
      (l : Labels) (scheduler_task scheduler_sp : ℕ) (k : Kernel Q) (w v : World Q)
      (released flags : ℕ) (k1 k2 : Kernel Q)
      → s.to_list k.task_queue ≡ []
      → Reach s (booted s k) w
      → w.started ≡ true
      → (w.kernel.tasks w.kernel.current_task).task_id ≢ taskid_scheduler
      → 8 * 30 ≤ w.kernel.cpu.stack.rsp
      → preempt_task s l scheduler_task scheduler_sp w.kernel ≡ running k1
      → let x = w.kernel.stale_task in
        let c = w.kernel.cpu in
        let task_id = (w.kernel.tasks w.kernel.current_task).task_id in
        let saved = preempted l scheduler_sp task_id c in
        Away s x (after_release s w (saved.regs rdi) 2 k1) v
        → Kept saved v.kernel.cpu
        → resume_scheduler s released flags v.kernel ≡ running k2
        → k2.stale_task ≡ x
        → (k2.cpu.rip ≡ c.rip)
          × (k2.cpu.stack.rsp ≡ c.stack.rsp)
          × (k2.cpu.rflags ≡ c.rflags)
          × (k2.cpu.regs rax ≡ c.regs rax)
          × (k2.cpu.regs rbx ≡ c.regs rbx)
          × (k2.cpu.regs rcx ≡ c.regs rcx)
          × (k2.cpu.regs rdx ≡ c.regs rdx)
          × (k2.cpu.regs rsi ≡ c.regs rsi)
          × (k2.cpu.regs rdi ≡ c.regs rdi)
          × (k2.cpu.regs rbp ≡ c.regs rbp)
          × (k2.cpu.regs r8 ≡ c.regs r8)
          × (k2.cpu.regs r9 ≡ c.regs r9)
          × (k2.cpu.regs r10 ≡ c.regs r10)
          × (k2.cpu.regs r11 ≡ c.regs r11)
          × (k2.cpu.regs r12 ≡ c.regs r12)
          × (k2.cpu.regs r13 ≡ c.regs r13)
          × (k2.cpu.regs r14 ≡ taskid_scheduler)
          × (k2.cpu.regs r15 ≡ task_id)
  unfolding resume_kind
  preempt_task-resumed l scheduler_task sp k w v released flags k1 k2 empty r started other room e a
        kept e' back =
      let x = w.kernel.stale_task in
      let c = w.kernel.cpu in
      let task_id = (w.kernel.tasks w.kernel.current_task).task_id in
      let saved = preempted l sp task_id c in
      let at =
        door-resumed s scheduler_task saved k w v 2 (saved.regs rsi) released flags k1 k2 empty r
          started (sym (preempt_task-switch l scheduler_task sp w.kernel other) ∙ e)
          (preempt-saves l sp task_id c other room).2 a e' back in
      subst
        (λ (d : Cpu).
          (d.rip ≡ c.rip)
          × (d.stack.rsp ≡ c.stack.rsp)
          × (d.rflags ≡ c.rflags)
          × (d.regs rax ≡ c.regs rax)
          × (d.regs rbx ≡ c.regs rbx)
          × (d.regs rcx ≡ c.regs rcx)
          × (d.regs rdx ≡ c.regs rdx)
          × (d.regs rsi ≡ c.regs rsi)
          × (d.regs rdi ≡ c.regs rdi)
          × (d.regs rbp ≡ c.regs rbp)
          × (d.regs r8 ≡ c.regs r8)
          × (d.regs r9 ≡ c.regs r9)
          × (d.regs r10 ≡ c.regs r10)
          × (d.regs r11 ≡ c.regs r11)
          × (d.regs r12 ≡ c.regs r12)
          × (d.regs r13 ≡ c.regs r13)
          × (d.regs r14 ≡ taskid_scheduler)
          × (d.regs r15 ≡ task_id))
        (sym at) (preempt-resume l sp task_id c (set_reg v.kernel.cpu rdi x) other room kept)
