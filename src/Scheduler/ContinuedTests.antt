-- ===== src/Scheduler/ContinuedTests.antt =====
-- A task yields, or is preempted, another one computes, and the first goes on.
use titanium.Base.{ℕ, ◌≡◌, ◌^◌, arith, refl, List}
use titanium.Cpu.{Cpu, rax, rbx, rdi, rbp, r12, r13, r14, r15, interrupts_off, set_reg}
use titanium.Scheduler.Frames.{release_task, resume_cpu, scheduler_preempt}
use titanium.Scheduler.State.{
  Kernel, resume_scheduler, start_scheduler, spawn_task, run_scheduler, resume_task, requeue,
  mark_interrupted, resume_kind, make_task_id, yield_task, resume_kind_bits, preempt_task,
}
use titanium.Scheduler.World.{World, after_release, execute, Reach, next, booted}
use titanium.Scheduler.HandedOver.{preempted}
use titanium.Scheduler.Away.{away, on}
use titanium.Scheduler.Continued.{yield_task-resumed, preempt_task-resumed}
use titanium.Scheduler.Tests.{labels, list_queue, kernel_of}
use titanium.Scheduler.RunTests.{empty_kernel, begun, w3, two-tasks}

-- The first of the two tasks, somewhere in its work.
abbrev working : Cpu
working = record {
  regs = λ r. 7;
  stack = record { rsp = 4000; mem = begun.cpu.stack.mem };
  rflags = 514;
  rip = 99;
}

abbrev w4 : World (List ℕ)
w4 = record w3 { kernel = record w3.kernel { cpu = working } }

runs : Reach list_queue (booted list_queue empty_kernel) w4
runs = next two-tasks (execute {w = w3} working)

-- The other one computes.
abbrev computing : World (List ℕ) → World (List ℕ)
computing w = record w { kernel = record w.kernel { cpu = set_reg w.kernel.cpu rax 11 } }

abbrev saved : Cpu
saved = release_task labels 9000 1 working

abbrev after_yield : Kernel (List ℕ)
after_yield = kernel_of (yield_task list_queue labels 1 9000 w4.kernel)

abbrev u : World (List ℕ)
u = after_release list_queue w4 (saved.regs rdi) 1 after_yield

abbrev again : Kernel (List ℕ)
again = kernel_of (resume_scheduler list_queue 7000 1 (computing u).kernel)

yield_task-resumed_example :
    (again.cpu.rip ≡ labels.yield_resume)
    × (again.cpu.stack.rsp ≡ 4000)
    × (again.cpu.regs rbx ≡ 7)
    × (again.cpu.regs rbp ≡ 7)
    × (again.cpu.regs r12 ≡ 7)
    × (again.cpu.regs r13 ≡ 7)
    × (again.cpu.regs r14 ≡ 7)
    × (again.cpu.regs r15 ≡ 7)
    × (again.cpu.rflags ≡ interrupts_off 514)
unfolding spawn_task start_scheduler run_scheduler resume_task make_task_id requeue mark_interrupted
    resume_kind yield_task resume_kind_bits resume_scheduler release_task resume_cpu
yield_task-resumed_example =
    yield_task-resumed list_queue labels 1 9000 empty_kernel w4 (computing u) 7000 1 after_yield
      again refl runs refl (omega arith) refl
      (on (away (omega arith)) (execute {w = u} (computing u).kernel.cpu) (omega arith))
      (λ a h. refl) refl refl

abbrev preempted_cpu : Cpu
preempted_cpu = preempted labels 9000 (make_task_id (2 ^ 63) 256 7) working

abbrev after_preemption : Kernel (List ℕ)
after_preemption = kernel_of (preempt_task list_queue labels 1 9000 w4.kernel)

abbrev u' : World (List ℕ)
u' = after_release list_queue w4 (preempted_cpu.regs rdi) 2 after_preemption

abbrev again' : Kernel (List ℕ)
again' = kernel_of (resume_scheduler list_queue 7000 1 (computing u').kernel)

preempt_task-resumed_example :
    (again'.cpu.rip ≡ 99) × (again'.cpu.stack.rsp ≡ 4000) × (again'.cpu.rflags ≡ 514)
unfolding spawn_task start_scheduler run_scheduler resume_task make_task_id requeue mark_interrupted
    resume_kind preempt_task resume_kind_bits resume_scheduler resume_cpu scheduler_preempt
preempt_task-resumed_example =
    let all =
      preempt_task-resumed list_queue labels 1 9000 empty_kernel w4 (computing u') 7000 1
        after_preemption again' refl runs refl (omega arith) (omega arith) refl
        (on (away (omega arith)) (execute {w = u'} (computing u').kernel.cpu) (omega arith))
        (λ a h. refl) refl refl in
    (all.0, all.1, all.2)
