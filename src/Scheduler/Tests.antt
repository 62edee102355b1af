-- ===== src/Scheduler/Tests.antt =====
-- Runs of the scheduler's theorems on concrete processors and queues.
use titanium.Vmem.{lapic_eoi_addr}
use titanium.Base.{ℕ, ◌≡◌, refl, inl, true, false, ap}
use titanium.Base.{List, [], ◌∷◌, ◌++◌, Option, none, some, arith}
use titanium.Cpu.{Cpu, rax, rbx, rcx, rdi, rbp, r12, r13, r14, r15, run}
use titanium.Scheduler.Frames.{Labels, release_task, resume_cpu, spawn_block, taskid_scheduler}
use titanium.Scheduler.Saved.{yield-resume, preempt-resume, preempt-scheduler, spawn-resume}
use titanium.Scheduler.HandedOver.{preempted}
use titanium.Scheduler.State.{
  SegQueue, Kernel, Next, running, idle, resume_kind, yielded, resume_scheduler, run_scheduler,
  requeue, mark_interrupted, resume_task,
}
use titanium.Scheduler.Order.{Turns, done, turn, Turns-position}

abbrev pub labels : Labels
labels = record {
  end_task = 100;
  yield_resume = 101;
  yield_jump_out = 102;
  preempt_jump_out = 103;
  preempt_entry = 104;
}

abbrev pub processor : Cpu
processor = record {
  regs = λ r. 7;
  stack = record { rsp = 4096; mem = λ a. 0 };
  rflags = 514;
  rip = 99;
}

abbrev yielded_cpu : Cpu
yielded_cpu = release_task labels 8192 1 processor

yield-resume_run :
    let back = resume_cpu (yielded_cpu.regs rdi) false yielded_cpu in
    (back.rip ≡ 101)
    × (back.stack.rsp ≡ 4096)
    × (back.regs rbx ≡ 7)
    × (back.regs rbp ≡ 7)
    × (back.regs r12 ≡ 7)
    × (back.regs r13 ≡ 7)
    × (back.regs r14 ≡ 7)
    × (back.regs r15 ≡ 7)
    × (back.rflags ≡ 2)
yield-resume_run = yield-resume labels 8192 1 processor yielded_cpu (omega arith) (λ a h. refl)

abbrev preempted_cpu : Cpu
preempted_cpu = preempted labels 8192 5 processor

preempt-resume_run :
    let back = resume_cpu (preempted_cpu.regs rdi) true preempted_cpu in
    (back.rip ≡ 99) × (back.stack.rsp ≡ 4096) × (back.rflags ≡ 514)
preempt-resume_run =
    let all =
      preempt-resume labels 8192 5 processor preempted_cpu (omega arith) (omega arith)
        (λ a h. refl) in
    (all.0, all.1, all.2)

preempt-scheduler_example :
    let back = preempted labels 8192 taskid_scheduler processor in
    (back.rip ≡ 99)
    × (back.stack.rsp ≡ 4096)
    × (back.rflags ≡ 514)
    × (back.regs rcx ≡ 7)
    × (back.regs rax ≡ 0)
    × (back.regs r14 ≡ taskid_scheduler)
    × (back.regs r15 ≡ taskid_scheduler)
    × (back.stack.mem lapic_eoi_addr ≡ 0)
preempt-scheduler_example = preempt-scheduler labels 8192 processor (omega arith) (omega arith)

abbrev spawning : Cpu
spawning = record processor { regs = λ r. 2048 }

abbrev spawned : Cpu
spawned = run (spawn_block labels) spawning

spawn-resume_example :
    let back = resume_cpu (spawned.regs rax) false spawned in
    (back.rip ≡ 2048) × (back.stack.rsp ≡ 2040) × (back.stack.mem back.stack.rsp ≡ 100)
spawn-resume_example =
    let all = spawn-resume labels spawning spawned (omega arith) (λ a low high. refl) in
    (all.0, all.1, all.2)

abbrev dequeue_list : List ℕ → Option (ℕ × List ℕ)
dequeue_list [] = none
dequeue_list (x ∷ xs) = some (x, xs)

abbrev pub list_queue : SegQueue (List ℕ)
list_queue = record {
  to_list = λ q. q;
  enqueue = λ q x. q ++ x ∷ [];
  dequeue = dequeue_list;
  to_list-enqueue = λ q x. refl;
  dequeue-nil = λ q e. ap dequeue_list e;
  dequeue-cons = λ q x xs e. (xs, ap dequeue_list e, refl);
}

abbrev kernel : Kernel (List ℕ)
kernel = record {
  cpu = processor;
  tasks = λ p. record { sp = p; task_id = p; flags = 0; wake_on_end = 0 };
  current_task = 1;
  stale_task = 1;
  task_queue = 2 ∷ 3 ∷ [];
  timer = some 5;
  next_task_id = 4;
}

yields : resume_kind 1 ≡ yielded
unfolding resume_kind
yields = refl

abbrev pub kernel_of : Next (List ℕ) → Kernel (List ℕ)
kernel_of (running k) = k
kernel_of (idle k) = k

abbrev second : Kernel (List ℕ)
second = kernel_of (resume_scheduler list_queue 64 1 kernel)

abbrev third : Kernel (List ℕ)
third = kernel_of (resume_scheduler list_queue 72 1 second)

two-Turns : Turns list_queue 2 kernel third
unfolding resume_scheduler run_scheduler requeue resume_kind mark_interrupted resume_task
two-Turns =
    turn {k' = second} 64 1 (inl yields) refl
      (turn {k' = third} 72 1 (inl yields) refl (done third))

Turns-position_example : third.stale_task ≡ 3
Turns-position_example = Turns-position list_queue 2 kernel third 3 refl two-Turns
