-- ===== src/Boot/Tasks.antt =====
-- The last steps of `kmain` (src/main.rs): the scheduler's own record, the two tasks, and the jump
-- into the scheduler (src/scheduler.rs).
use titanium.Base.{ℕ, zero, suc, ◌+◌, ◌≡◌, refl, ap, ◌∙◌, subst, none, some, Option}
use titanium.Base.{List, [], ◌∷◌, ◌++◌, ◌>>=◌, arith, ==_refl, le→leb, ◌≤◌}
use titanium.Vmem.{scheduler_sp_offset}
use titanium.Cpu.{Cpu, Instr, rax, rdi, rsi, set_reg, cli, mov_imm, mov_to_rsp, add_imm, run}
use titanium.Scheduler.Frames.{Labels, spawn_block, taskid_scheduler}
use titanium.Scheduler.State.{
  SegQueue, Kernel, Next, running, TaskInfo, write_task, spawn_task, start_scheduler, make_task_id,
  max_task_id,
}
use titanium.Scheduler.TaskIds.{small_kernel}
use titanium.Scheduler.Order.{order, run_scheduler-cons, Turns, done, turn, turn-order}
use titanium.Scheduler.Effects.{started_kernel}

-- `jump_to_scheduler`, given `HHDM_TOP_ADDR` and the flags that an addition leaves.
abbrev pub jump_block : (ℕ → ℕ) → ℕ → List Instr
jump_block left hhdm_top =
    cli ∷ mov_imm rax hhdm_top ∷ add_imm left rax scheduler_sp_offset ∷ mov_to_rsp rax ∷ []

-- `jump_to_scheduler`, with `start_scheduler` behind it.
unfoldable pub jump_to_scheduler : {Q : Type 0} → SegQueue Q → (ℕ → ℕ) → ℕ → ℕ → Kernel Q → Next Q
jump_to_scheduler s left hhdm_top scheduler_task k =
    start_scheduler s scheduler_task (record k { cpu = run (jump_block left hhdm_top) k.cpu })

-- The static state of the scheduler as the program starts.
abbrev pub boot_kernel : {Q : Type 0} → Cpu → (ℕ → TaskInfo) → Q → Kernel Q
boot_kernel cpu tasks q = record {
  cpu = cpu;
  tasks = tasks;
  current_task = 0;
  stale_task = 0;
  task_queue = q;
  timer = none;
  next_task_id = 0x100;
}

-- `scheduler::init`, but for the stack, which `Mapping.Clients` maps: the record at the address of
-- `SCHEDULER_TASK`.
unfoldable pub scheduler_init : {Q : Type 0} → ℕ → ℕ → Kernel Q → Kernel Q
scheduler_init hhdm_top scheduler_task k = record k {
  tasks = write_task k.tasks scheduler_task (record {
    sp = hhdm_top + scheduler_sp_offset;
    task_id = taskid_scheduler;
    flags = 0;
    wake_on_end = 0;
  });
}

-- What `kmain` finds at run time: the functions' addresses, the stacks that `make_kernel_stack`
-- returns for the two tasks, and where their records are.
pub record BootTasks : Type 0 where
  pub labels : Labels
  pub hhdm_top : ℕ
  pub scheduler_task : ℕ
  pub greedy_task : ℕ
  pub coop_task : ℕ
  pub greedy_stack : Option ℕ
  pub coop_stack : Option ℕ
  pub greedy_info : ℕ
  pub coop_info : ℕ

module _ {Q : Type 0} (s : SegQueue Q) (left : ℕ → ℕ) where
  unfoldable pub run_tasks : BootTasks → Kernel Q → Option (Next Q)
  run_tasks b k = do
    (_, k1) ←
        spawn_task s b.labels b.greedy_task small_kernel 0 b.greedy_stack b.greedy_info none
          (scheduler_init b.hhdm_top b.scheduler_task k)
    (_, k2) ← spawn_task s b.labels b.coop_task small_kernel 0 b.coop_stack b.coop_info none k1
    some (jump_to_scheduler s left b.hhdm_top b.scheduler_task k2)

  -- A task that is spawned with a small stack.
  spawn_task-small :
      (l : Labels) (task_addr p sp : ℕ) (stack : Option ℕ) (k : Kernel Q)
      → stack ≡ some sp
      → k.next_task_id ≤ max_task_id
      → (k' : Kernel Q) × (spawn_task s l task_addr small_kernel 0 stack p none k ≡ some (p, k'))
        × (s.to_list k'.task_queue ≡ s.to_list k.task_queue ++ p ∷ [])
        × (k'.next_task_id ≡ k.next_task_id + 1)
        × ((k'.tasks p).task_id ≡ make_task_id small_kernel k.next_task_id 0)
  unfolding spawn_task
  spawn_task-small l task_addr p sp stack k e small =
      let cpu = run (spawn_block l) (set_reg (set_reg k.cpu rdi task_addr) rsi sp) in
      let k' : Kernel Q = record k {
        cpu = cpu;
        next_task_id = k.next_task_id + 1;
        tasks = write_task k.tasks p (record {
          sp = cpu.regs rax;
          task_id = make_task_id small_kernel k.next_task_id 0;
          flags = 0;
          wake_on_end = 0;
        });
        task_queue = s.enqueue k.task_queue p;
      } in
      (
        k',
        rw (e, le→leb k.next_task_id max_task_id small) refl,
        s.to_list-enqueue k.task_queue p,
        refl,
        rw (==_refl p) refl,
      )

  jump_to_scheduler-cons :
      (hhdm_top scheduler_task y : ℕ) (ys : List ℕ) (k : Kernel Q)
      → s.to_list k.task_queue ≡ y ∷ ys
      → (k' : Kernel Q) × (jump_to_scheduler s left hhdm_top scheduler_task k ≡ running k')
        × (order s k' ≡ y ∷ ys)
        × (k'.current_task ≡ y)
        × (k'.timer ≡ some 1_000_000)
  unfolding jump_to_scheduler start_scheduler
  jump_to_scheduler-cons hhdm_top scheduler_task y ys k e =
      let k0 : Kernel Q = record k { cpu = run (jump_block left hhdm_top) k.cpu } in
      let (k', run, waiting, now, timer, _) =
        run_scheduler-cons s (started_kernel s scheduler_task k0) y ys e in
      (k', run, waiting, now, timer)

  -- Where both stacks are found, the boot ends in the greedy task, with the cooperative one behind
  -- it in the queue, and the timer set to a second.
  pub run_tasks-running :
      (b : BootTasks) (cpu : Cpu) (tasks : ℕ → TaskInfo) (q : Q) (sp1 sp2 : ℕ)
      → s.to_list q ≡ []
      → b.greedy_stack ≡ some sp1
      → b.coop_stack ≡ some sp2
      → (k' : Kernel Q) × (run_tasks b (boot_kernel cpu tasks q) ≡ some (running k'))
        × (order s k' ≡ b.greedy_info ∷ b.coop_info ∷ [])
        × (k'.current_task ≡ b.greedy_info)
        × (k'.timer ≡ some 1_000_000)
  unfolding run_tasks scheduler_init
  run_tasks-running b cpu tasks q sp1 sp2 empty e1 e2 =
      let k0 = scheduler_init b.hhdm_top b.scheduler_task (boot_kernel cpu tasks q) in
      let (k1, spawn1, queue1, id1, _) =
        spawn_task-small b.labels b.greedy_task b.greedy_info sp1 b.greedy_stack k0 e1
          (omega arith) in
      let (k2, spawn2, queue2, _, _) =
        spawn_task-small b.labels b.coop_task b.coop_info sp2 b.coop_stack k1 e2
          (omega (arith, id1)) in
      let waiting : s.to_list k2.task_queue ≡ b.greedy_info ∷ b.coop_info ∷ [] =
        queue2
        ∙ ap (λ l. l ++ b.coop_info ∷ []) (queue1 ∙ ap (λ l. l ++ b.greedy_info ∷ []) empty) in
      let (k', run, rest1, rest2, rest3) =
        jump_to_scheduler-cons b.hhdm_top b.scheduler_task b.greedy_info (b.coop_info ∷ []) k2
          waiting in
      (k', rw (spawn1, spawn2) (ap some run), rest1, rest2, rest3)

  head_or : List ℕ → ℕ → ℕ
  head_or [] d = d
  head_or (x ∷ xs) d = x

  tail_of : List ℕ → List ℕ
  tail_of [] = []
  tail_of (x ∷ xs) = xs

  -- Two tasks after a number of turns: the one that runs, and the one that waits.
  abbrev pub after_turns : ℕ → ℕ → ℕ → List ℕ
  after_turns zero a b = a ∷ b ∷ []
  after_turns (suc n) a b = after_turns n b a

  Turns-alternate :
      (n a b : ℕ) (k k' : Kernel Q)
      → order s k ≡ a ∷ b ∷ []
      → Turns s n k k'
      → order s k' ≡ after_turns n a b
  unfolding head_or tail_of
  Turns-alternate _ a b _ _ e (done k) = e
  Turns-alternate _ a b _ _ e (turn {n} {k} {k'} {k''} released flags kind run rest) =
      let stale : k.stale_task ≡ a = ap (λ l. head_or l 0) e in
      let waiting : s.to_list k.task_queue ≡ b ∷ [] = ap tail_of e in
      Turns-alternate n b a k' k''
        (turn-order s k k' released flags kind run
          ∙ ap (λ l. l ++ k.stale_task ∷ []) waiting
          ∙ ap (λ x. b ∷ x ∷ []) stale)
        rest

  -- After the boot, for as long as tasks yield or are preempted, the greedy and the cooperative task
  -- take turns: after any number of turns the kernel runs the one and has the other in the queue.
  pub run_tasks-alternate :
      (b : BootTasks) (cpu : Cpu) (tasks : ℕ → TaskInfo) (q : Q) (sp1 sp2 n : ℕ) (k' k'' : Kernel Q)
      → s.to_list q ≡ []
      → b.greedy_stack ≡ some sp1
      → b.coop_stack ≡ some sp2
      → run_tasks b (boot_kernel cpu tasks q) ≡ some (running k')
      → Turns s n k' k''
      → order s k'' ≡ after_turns n b.greedy_info b.coop_info
  run_tasks-alternate b cpu tasks q sp1 sp2 n k' k'' empty e1 e2 ran turns =
      let (k, run, first, _, _) = run_tasks-running b cpu tasks q sp1 sp2 empty e1 e2 in
      let same : k ≡ k' = cc in
      Turns-alternate n b.greedy_info b.coop_info k' k''
        (subst (λ c. order s c ≡ b.greedy_info ∷ b.coop_info ∷ []) same first) turns
