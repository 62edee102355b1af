-- ===== src/Scheduler/State.antt =====
-- The scheduler's state and its steps (src/scheduler.rs, src/scheduler/waker.rs): the task pointers,
-- the task records, the queue, and what happens when a task hands the processor back.
use titanium.Base.{ℕ, ◌+◌, ◌-◌, ◌/◌, ◌%◌, ◌^◌, ◌≡◌}
use titanium.Base.{List, [], ◌∷◌, ◌++◌, Option, none, some, ◌==◌, if◌then◌else◌, bit_or, bit_and}
use titanium.Base.{ltb, leb, check, ◌>>=◌, ◌>>◌}
use mathlib.Core.Option
use titanium.Base.Bits.{◌<<<◌}
use titanium.Cpu.{Cpu, rdi, rsi, rax, cli, run, set_reg}
use titanium.Scheduler.Frames.{
  Labels, spawn_block, release_task, resume_cpu, scheduler_preempt, interrupt, taskid_scheduler,
}

-- The lock-free queue of the `crossbeam` crate, by its contents, oldest first.
pub record SegQueue (Q : Type 0) : Type 0 where
  pub to_list : Q → List ℕ
  pub enqueue : Q → ℕ → Q
  pub dequeue : Q → Option (ℕ × Q)
  pub to_list-enqueue : (q : Q) (x : ℕ) → to_list (enqueue q x) ≡ to_list q ++ x ∷ []
  pub dequeue-nil : (q : Q) → to_list q ≡ [] → dequeue q ≡ none
  pub dequeue-cons :
      (q : Q) (x : ℕ) (xs : List ℕ)
      → to_list q ≡ x ∷ xs
      → (q' : Q) × (dequeue q ≡ some (x, q')) × (to_list q' ≡ xs)

pub data ResumeKind : Type 0 where
  blocked yielded preempted complete : ResumeKind

-- The two bits of `ResumedState`.
unfoldable pub resume_kind : ℕ → ResumeKind
resume_kind flags =
    let bits = flags % 4 in
    if bits == 0
    then blocked
    else (if bits == 1 then yielded else (if bits == 2 then preempted else complete))

-- `ResumeKind as u64`
unfoldable pub resume_kind_bits : ResumeKind → ℕ
resume_kind_bits blocked = 0
resume_kind_bits yielded = 1
resume_kind_bits preempted = 2
resume_kind_bits complete = 3

pub record TaskInfo : Type 0 where
  pub sp : ℕ
  pub task_id : ℕ
  pub flags : ℕ
  pub wake_on_end : ℕ

-- A `*mut TaskInfo` is a number, and `tasks` is what it points to. `timer` holds the microseconds
-- that the local timer was last set to, and `none` when it is halted.
pub record Kernel (Q : Type 0) : Type 0 where
  pub cpu : Cpu
  pub tasks : ℕ → TaskInfo
  pub current_task : ℕ
  pub stale_task : ℕ
  pub task_queue : Q
  pub timer : Option ℕ
  pub next_task_id : ℕ

abbrev pub max_task_id : ℕ
max_task_id = 0xffff_ffff_fffe

-- `options.known_bits() | task_raw_id | (priority as u64 & 0x7) << 48`
unfoldable pub make_task_id : ℕ → ℕ → ℕ → ℕ
make_task_id options task_raw_id priority =
    bit_or (bit_or options task_raw_id) (bit_and priority 0x7 <<< 48)

-- The scheduler runs a task, or sleeps in `hlt` for good.
pub data Next (Q : Type 0) : Type 0 where
  running : Kernel Q → Next Q
  idle : Kernel Q → Next Q

abbrev pub write_task : (ℕ → TaskInfo) → ℕ → TaskInfo → ℕ → TaskInfo
write_task tasks p info q = if p == q then info else tasks q

-- `load_task_ptrs`
abbrev pub load_task_ptrs : {Q : Type 0} → ℕ → Kernel Q → Kernel Q
load_task_ptrs info k = record k { stale_task = info; current_task = info }

-- `ResumedState::yielded`
abbrev pub yielded_state : ℕ
yielded_state = resume_kind_bits yielded

module _ {Q : Type 0} (s : SegQueue Q) where
  -- `btr` tests and clears flag 0.
  unfoldable pub resume_task : ℕ → Kernel Q → Kernel Q
  resume_task task_info k =
      let info = k.tasks task_info in
      let interrupted = info.flags % 2 == 1 in
      record k {
        cpu = resume_cpu info.sp interrupted (set_reg k.cpu rdi task_info);
        tasks = write_task k.tasks task_info (record info { flags = info.flags - info.flags % 2 });
        current_task = task_info;
        stale_task = task_info;
      }

  unfoldable pub run_scheduler : Kernel Q → Next Q
  run_scheduler k = elim (s.dequeue k.task_queue) [
    | some (task_ptr, rest) ↦
        running (resume_task task_ptr (record k { task_queue = rest; timer = some 1_000_000 }))
    | none ↦ idle k
  ]

  -- `TaskFlags::INTERRUPTED` is bit 0.
  unfoldable pub mark_interrupted : ResumeKind → TaskInfo → TaskInfo
  mark_interrupted preempted info = record info { flags = bit_or info.flags 1 }
  mark_interrupted _ info = info

  unfoldable pub requeue : ResumeKind → ℕ → Q → Q
  requeue preempted task_ptr q = s.enqueue q task_ptr
  requeue yielded task_ptr q = s.enqueue q task_ptr
  requeue _ task_ptr q = q

  unfoldable pub resume_scheduler : ℕ → ℕ → Kernel Q → Next Q
  resume_scheduler released_stack flags k =
      let kind = resume_kind flags in
      let task_ptr = k.stale_task in
      let info = mark_interrupted kind (k.tasks task_ptr) in
      run_scheduler (record k {
        timer = none;
        task_queue = requeue kind task_ptr k.task_queue;
        tasks = write_task k.tasks task_ptr (record info { sp = released_stack });
      })

  -- `wake` and `wake_by_ref` of the waker.
  unfoldable pub wake : ℕ → Kernel Q → Kernel Q
  wake task_ptr k = record k { task_queue = s.enqueue k.task_queue task_ptr }

  -- `yield_task`, up to the next task: the block, `scheduler_jump_out`, `resume_scheduler`.
  unfoldable pub yield_task : Labels → ℕ → ℕ → Kernel Q → Next Q
  yield_task l scheduler_task scheduler_sp k =
      let cpu = release_task l scheduler_sp yielded_state k.cpu in
      resume_scheduler (cpu.regs rdi) (cpu.regs rsi)
        (record k { cpu = cpu; current_task = scheduler_task })

  -- The timer's interrupt under a task: `scheduler_preempt`, `scheduler_jump_out`, `resume_scheduler`.
  -- The scheduler itself, which the interrupt finds only idle, just goes on. The end-of-interrupt, which
  -- `scheduler_jump_out` writes too, is left out.
  unfoldable pub preempt_task : Labels → ℕ → ℕ → Kernel Q → Next Q
  preempt_task l scheduler_task scheduler_sp k =
      let task_id = (k.tasks k.current_task).task_id in
      let cpu = scheduler_preempt l scheduler_sp task_id (interrupt l.preempt_entry k.cpu) in
      if task_id == taskid_scheduler
      then idle (record k { cpu = cpu })
      else resume_scheduler (cpu.regs rdi) (cpu.regs rsi)
          (record k { cpu = cpu; current_task = scheduler_task })

  -- The scheduler's first entry, from `start_scheduler` on.
  unfoldable pub start_scheduler : ℕ → Kernel Q → Next Q
  start_scheduler scheduler_task k =
      run_scheduler (load_task_ptrs scheduler_task (record k { timer = none }))

  -- `finish_stale_task` panics in its first line.
  unfoldable pub finish_stale_task : Kernel Q → Option (Next Q)
  finish_stale_task k = none

  -- Where a task's function returns to.
  unfoldable pub end_task : ℕ → Kernel Q → Option (Next Q)
  end_task scheduler_task k = finish_stale_task (record k {
    cpu = run (cli ∷ []) (set_reg k.cpu rdi k.current_task);
    current_task = scheduler_task;
  })

  -- `spawn_task`. `options` are the known bits of the configuration; `stack` is what
  -- `make_kernel_stack` returned, and `task_info` the address of the leaked record.
  unfoldable pub spawn_task :
      Labels → ℕ → ℕ → ℕ → Option ℕ → ℕ → Option ℕ → Kernel Q → Option (ℕ × Kernel Q)
  spawn_task l task_addr options priority stack task_info wake_on_end k = do
    check (options / 2 ^ 63 % 2 == 1)
    check (ltb priority 8)
    let task_raw_id = k.next_task_id
    check (leb task_raw_id max_task_id)
    stack_ptr ← stack
    let cpu = run (spawn_block l) (set_reg (set_reg k.cpu rdi task_addr) rsi stack_ptr)
    some (
      task_info,
      record k {
        cpu = cpu;
        next_task_id = task_raw_id + 1;
        tasks = write_task k.tasks task_info (record {
          sp = cpu.regs rax;
          task_id = make_task_id options task_raw_id priority;
          flags = 0;
          wake_on_end = Option.get_or wake_on_end 0;
        });
        task_queue = s.enqueue k.task_queue task_info;
      },
    )
