-- ===== src/Scheduler/Effects.antt =====
-- The effect of each step of the scheduler (src/scheduler.rs) on the tasks' records and on the queue.
use titanium.Base.{ℕ, ◌+◌, ◌-◌, ◌%◌, ◌≡◌, refl, sym, ap, ◌∙◌, inl, inr, subst}
use titanium.Base.{false, List, [], ◌∷◌, ◌++◌, Option, none, some, List-cases, arith}
use titanium.Base.{check, >>=-eq-some, ◌/◌, ◌^◌, ltb, leb}
use mathlib.Core.Option
use titanium.Base.{◌==◌, if◌then◌else◌, Bool-cases, ==_iff, ==_refl}
use titanium.Cpu.{rdi, set_reg}
use titanium.Scheduler.Frames.{Labels, resume_cpu}
use titanium.Scheduler.State.{
  SegQueue, ResumeKind, blocked, yielded, preempted, complete, Kernel, Next, running, idle,
  resume_task, run_scheduler, requeue, resume_scheduler, spawn_task, wake, start_scheduler,
  max_task_id,
}
use titanium.Scheduler.Order.{
  run_scheduler-some, run_scheduler-none, resume_task-sp, released_kernel,
}
use titanium.Scheduler.World.{count, if_blocked, if_complete}

pub count-append : (x : ℕ) (l m : List ℕ) → count x (l ++ m) ≡ count x l + count x m
count-append x [] m = omega arith
count-append x (y ∷ ys) m = omega (arith, count-append x ys m)

module _ {Q : Type 0} (s : SegQueue Q) where
  -- What `run_scheduler` does where it runs a task: the front of the queue, which leaves it.
  abbrev pub Served : Kernel Q → Kernel Q → Type 0
  Served k k' =
      (s.to_list k.task_queue ≡ k'.stale_task ∷ s.to_list k'.task_queue)
      × (k'.cpu
          ≡ resume_cpu (k.tasks k'.stale_task).sp ((k.tasks k'.stale_task).flags % 2 == 1)
              (set_reg k.cpu rdi k'.stale_task))
      × ((p : ℕ) → (k'.tasks p).sp ≡ (k.tasks p).sp)
      × ((p : ℕ)
          → (k'.tasks p).flags ≡ (
              if k'.stale_task == p
              then (k.tasks p).flags - (k.tasks p).flags % 2
              else (k.tasks p).flags))

  resume_task-flags :
      (k : Kernel Q) (y p : ℕ)
      → ((resume_task s y k).tasks p).flags
        ≡ (if y == p then (k.tasks p).flags - (k.tasks p).flags % 2 else (k.tasks p).flags)
  unfolding resume_task
  resume_task-flags k y p = elim (Bool-cases (y == p)) [
    | inl e ↦ rw (e, (==_iff y p).0 e) refl
    | inr e ↦ rw e refl
  ]

  resume_task-Served :
      (k : Kernel Q) (y : ℕ) (rest : Q)
      → s.to_list k.task_queue ≡ y ∷ s.to_list rest
      → Served k (resume_task s y (record k { task_queue = rest; timer = some 1_000_000 }))
  unfolding resume_task
  resume_task-Served k y rest e =
      let served : Kernel Q = record k { task_queue = rest; timer = some 1_000_000 } in
      (e, refl, λ p. resume_task-sp s served y p, λ p. resume_task-flags served y p)

  next_kernel : Next Q → Kernel Q → Kernel Q
  next_kernel (running k) k' = k
  next_kernel (idle k) k' = k'

  pub run_scheduler-Served : (k k' : Kernel Q) → run_scheduler s k ≡ running k' → Served k k'
  unfolding next_kernel
  run_scheduler-Served k k' e = elim (List-cases (s.to_list k.task_queue)) [
    | inl empty ↦
        let stuck = sym (run_scheduler-none s k (s.dequeue-nil k.task_queue empty)) ∙ e in cc
    | inr (y, ys, e1) ↦
        let (rest, out, left) = s.dequeue-cons k.task_queue y ys e1 in
        subst (λ c. Served k c)
          (ap (λ n. next_kernel n k) (sym (run_scheduler-some s k y rest out) ∙ e))
          (resume_task-Served k y rest (e1 ∙ ap (λ l. y ∷ l) (sym left)))
  ]

  -- What `spawn_task` does where it returns.
  abbrev pub Spawned : Kernel Q → ℕ → Kernel Q → Type 0
  Spawned k p k' =
      (s.to_list k'.task_queue ≡ s.to_list k.task_queue ++ p ∷ [])
      × (k'.stale_task ≡ k.stale_task)
      × ((k'.tasks p).flags ≡ 0)
      × ((q : ℕ) → (p == q) ≡ false → k'.tasks q ≡ k.tasks q)

  pub spawn_task-Spawned :
      (l : Labels) (task_addr options priority p : ℕ) (stack parent : Option ℕ) (k k' : Kernel Q)
      → spawn_task s l task_addr options priority stack p parent k ≡ some (p, k')
      → Spawned k p k'
  unfolding spawn_task
  spawn_task-Spawned l task_addr options priority p stack parent k k' e =
      let (u, _, e1) = >>=-eq-some (check (options / 2 ^ 63 % 2 == 1)) _ e in
      let (u2, _, e2) = >>=-eq-some (check (ltb priority 8)) _ e1 in
      let (u3, _, e3) = >>=-eq-some (check (leb k.next_task_id max_task_id)) _ e2 in
      let (stack_ptr, _, e4) = >>=-eq-some stack _ e3 in
      subst (λ c. Spawned k p c) (ap (λ r. r.1) (Option.some-injective _ _ e4))
        (s.to_list-enqueue k.task_queue p, refl, rw (==_refl p) refl, λ q ne. rw ne refl)

  -- A task that hands the processor back is in the queue once more, or blocked, or complete.
  pub count-requeue :
      (kind : ResumeKind) (p x : ℕ) (q : Q)
      → count x (s.to_list (requeue s kind p q))
          + (if p == x then if_blocked kind + if_complete kind else 0)
        ≡ count x (s.to_list q) + (if p == x then 1 else 0)
  unfolding requeue
  count-requeue blocked p x q = ground arith
  count-requeue yielded p x q =
      ground (arith, ap (count x) (s.to_list-enqueue q p), count-append x (s.to_list q) (p ∷ []))
  count-requeue preempted p x q =
      ground (arith, ap (count x) (s.to_list-enqueue q p), count-append x (s.to_list q) (p ∷ []))
  count-requeue complete p x q = ground arith

  pub wake-queue :
      (x : ℕ) (k : Kernel Q) → s.to_list (wake s x k).task_queue ≡ s.to_list k.task_queue ++ x ∷ []
  unfolding wake
  wake-queue x k = s.to_list-enqueue k.task_queue x

  pub wake-same :
      (x : ℕ) (k : Kernel Q)
      → ((wake s x k).tasks ≡ k.tasks) × ((wake s x k).stale_task ≡ k.stale_task)
  unfolding wake
  wake-same x k = (refl, refl)

  abbrev pub started_kernel : ℕ → Kernel Q → Kernel Q
  started_kernel scheduler_task k = record k {
    timer = none;
    stale_task = scheduler_task;
    current_task = scheduler_task;
  }

  pub start_scheduler-Served :
      (scheduler_task : ℕ) (k k' : Kernel Q)
      → start_scheduler s scheduler_task k ≡ running k'
      → Served (started_kernel scheduler_task k) k'
  unfolding start_scheduler
  start_scheduler-Served scheduler_task k k' e =
      run_scheduler-Served (started_kernel scheduler_task k) k' e

  pub resume_scheduler-Served :
      (released flags : ℕ) (k k' : Kernel Q)
      → resume_scheduler s released flags k ≡ running k'
      → Served (released_kernel s released flags k) k'
  unfolding resume_scheduler
  resume_scheduler-Served released flags k k' e =
      run_scheduler-Served (released_kernel s released flags k) k' e
