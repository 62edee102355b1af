-- ===== src/Scheduler/Frames.antt =====
-- The assembly blocks of src/scheduler.rs that save a task, start one and go back to one. Where an
-- operand is read from memory outside the stack, the value it holds is an argument; the writes to
-- the task pointers are in `Scheduler.State`.
use titanium.Vmem.{lapic_eoi_addr}
use titanium.Base.{ℕ, ◌*◌, ◌/◌, Bool, List, [], ◌∷◌, ◌++◌, ◌==◌, if◌then◌else◌}
use titanium.Cpu.{
  Cpu, Instr, cli, sti, pushfq, popfq, iretq, push, pop, push_imm, mov_imm, mov_rsp, mov_to_rsp,
  load_rsp, store, rax, rbx, rcx, rdx, rsi, rdi, rbp, r8, r9, r10, r11, r12, r13, r14, r15, run,
  pushed, Stack,
}

abbrev pub kernel_cs : ℕ
kernel_cs = 0x08

abbrev pub kernel_ss : ℕ
kernel_ss = 0x10

-- `TASKID_SCHEDULER`
abbrev pub taskid_scheduler : ℕ
taskid_scheduler = 0x8000_ffff_ffff_ffff

-- The addresses that the blocks load by `lea` and `sym`.
pub record Labels : Type 0 where
  pub end_task : ℕ
  pub yield_resume : ℕ
  pub yield_jump_out : ℕ
  pub preempt_jump_out : ℕ
  pub preempt_entry : ℕ

-- The block of `spawn_task`; `rdi` is the task's address and `rsi` its stack.
abbrev pub spawn_block : Labels → List Instr
spawn_block l =
    mov_rsp rdx
    ∷ mov_to_rsp rsi
    ∷ mov_imm rax l.end_task
    ∷ push rax
    ∷ mov_rsp rax
    ∷ push_imm kernel_ss
    ∷ push rax
    ∷ pushfq
    ∷ push_imm kernel_cs
    ∷ push rdi
    ∷ push_imm 0
    ∷ push_imm 0
    ∷ push_imm 0
    ∷ push_imm 0
    ∷ push_imm 0
    ∷ push_imm 0
    ∷ mov_rsp rax
    ∷ mov_to_rsp rdx
    ∷ []

-- The block of `release_task`, given the scheduler's stack pointer.
abbrev pub release_block : Labels → ℕ → List Instr
release_block l scheduler_sp =
    cli
    ∷ mov_rsp rax
    ∷ push_imm kernel_ss
    ∷ push rax
    ∷ pushfq
    ∷ push_imm kernel_cs
    ∷ mov_imm rax l.yield_resume
    ∷ push rax
    ∷ push rbx
    ∷ push rbp
    ∷ push r12
    ∷ push r13
    ∷ push r14
    ∷ push r15
    ∷ mov_rsp rdi
    ∷ push_imm kernel_ss
    ∷ push_imm scheduler_sp
    ∷ pushfq
    ∷ push_imm kernel_cs
    ∷ mov_imm rax l.yield_jump_out
    ∷ push rax
    ∷ iretq
    ∷ []

unfoldable pub release_task : Labels → ℕ → ℕ → Cpu → Cpu
release_task l scheduler_sp flags c = run (mov_imm rsi flags ∷ release_block l scheduler_sp) c

-- The processor's own part of an interrupt: it aligns the stack and pushes five words. The gate is
-- a trap gate, which leaves `rflags` as it is.
abbrev pub interrupt : ℕ → Cpu → Cpu
interrupt handler c =
    let aligned : Stack = record { rsp = c.stack.rsp / 16 * 16; mem = c.stack.mem } in
    record c {
      stack =
          pushed c.rip
            (pushed kernel_cs (pushed c.rflags (pushed c.stack.rsp (pushed kernel_ss aligned))));
      rip = handler;
    }

-- `scheduler_preempt` up to its test; `task_id` is the id of the current task.
abbrev pub preempt_test_block : ℕ → List Instr
preempt_test_block task_id =
    pushfq ∷ push rax ∷ push rcx ∷ mov_imm r15 task_id ∷ mov_imm r14 taskid_scheduler ∷ []

abbrev pub preempt_switch_block : Labels → ℕ → List Instr
preempt_switch_block l scheduler_sp =
    push rdx
    ∷ push rsi
    ∷ push rdi
    ∷ push r8
    ∷ push r9
    ∷ push r10
    ∷ push r11
    ∷ push rbx
    ∷ push rbp
    ∷ push r12
    ∷ push r13
    ∷ push r14
    ∷ push r15
    ∷ mov_rsp rdi
    ∷ mov_imm rsi 2
    ∷ push_imm kernel_ss
    ∷ mov_imm rax scheduler_sp
    ∷ push rax
    ∷ pushfq
    ∷ push_imm kernel_cs
    ∷ mov_imm rax l.preempt_jump_out
    ∷ push rax
    ∷ iretq
    ∷ []

-- From the label `2:` on, where the scheduler itself was interrupted.
abbrev pub preempt_return_block : List Instr
preempt_return_block =
    pop rcx ∷ pop rax ∷ popfq ∷ cli ∷ mov_imm rax 0 ∷ store lapic_eoi_addr rax ∷ iretq ∷ []

unfoldable pub scheduler_preempt : Labels → ℕ → ℕ → Cpu → Cpu
scheduler_preempt l scheduler_sp task_id c =
    if task_id == taskid_scheduler
    then run (preempt_test_block task_id ++ preempt_return_block) c
    else run (preempt_test_block task_id ++ preempt_switch_block l scheduler_sp) c

-- `resume_task`, by the saved stack pointer and by whether flag 0 was set.
abbrev pub resume_block : ℕ → Bool → List Instr
resume_block sp interrupted =
    cli
    ∷ load_rsp sp
    ∷ sti
    ∷ pop r15
    ∷ pop r14
    ∷ pop r13
    ∷ pop r12
    ∷ pop rbp
    ∷ pop rbx
    ∷ (if interrupted
        then pop r11
          ∷ pop r10
          ∷ pop r9
          ∷ pop r8
          ∷ pop rdi
          ∷ pop rsi
          ∷ pop rdx
          ∷ pop rcx
          ∷ pop rax
          ∷ popfq
          ∷ iretq
          ∷ []
        else iretq ∷ [])

unfoldable pub resume_cpu : ℕ → Bool → Cpu → Cpu
resume_cpu sp interrupted c = run (resume_block sp interrupted) c
