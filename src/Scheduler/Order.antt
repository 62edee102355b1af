-- ===== src/Scheduler/Order.antt =====
-- In which order tasks run: the queue is served in turn.
use titanium.Base.{ℕ, suc, ◌≡◌, refl, sym, ap, ◌∙◌, subst, ◌⊎◌, inl, inr}
use titanium.Base.{
  List, [], ◌∷◌, ◌++◌, none, some, get_elem?, List-cases, append-last-cons, get_elem?-append_left,
}
use titanium.Base.{◌==◌, Bool-cases, ==_iff, ==_refl}
use mathlib.Core.Option
use titanium.Scheduler.State.{
  SegQueue, blocked, yielded, preempted, complete, resume_kind, Kernel, Next, running, idle,
  write_task, resume_task, run_scheduler, mark_interrupted, requeue, resume_scheduler,
}

module _ {Q : Type 0} (s : SegQueue Q) where
  -- The running task, and those that wait behind it.
  abbrev pub order : Kernel Q → List ℕ
  order k = k.stale_task ∷ s.to_list k.task_queue

  -- The kinds that put a task back into the queue.
  abbrev pub IsRequeued : ℕ → Type 0
  IsRequeued flags = (resume_kind flags ≡ yielded) ⊎ (resume_kind flags ≡ preempted)

  pub run_scheduler-some :
      (k : Kernel Q) (y : ℕ) (rest : Q)
      → s.dequeue k.task_queue ≡ some (y, rest)
      → run_scheduler s k
        ≡ running (resume_task s y (record k { task_queue = rest; timer = some 1_000_000 }))
  unfolding run_scheduler
  run_scheduler-some k y rest out = rw (out, run_scheduler) refl

  pub run_scheduler-none :
      (k : Kernel Q) → s.dequeue k.task_queue ≡ none → run_scheduler s k ≡ idle k
  unfolding run_scheduler
  run_scheduler-none k out = rw (out, run_scheduler) refl

  pub resume_task-sp : (k : Kernel Q) (y p : ℕ) → ((resume_task s y k).tasks p).sp ≡ (k.tasks p).sp
  unfolding resume_task
  resume_task-sp k y p = elim (Bool-cases (y == p)) [
    | inl e ↦ rw (e, (==_iff y p).0 e) refl
    | inr e ↦ rw e refl
  ]

  resume_task-order :
      (k : Kernel Q) (y : ℕ) → order (resume_task s y k) ≡ y ∷ s.to_list k.task_queue
  unfolding resume_task
  resume_task-order k y = refl

  resume_task-current : (k : Kernel Q) (y : ℕ) → (resume_task s y k).current_task ≡ y
  unfolding resume_task
  resume_task-current k y = refl

  resume_task-timer : (k : Kernel Q) (y : ℕ) → (resume_task s y k).timer ≡ k.timer
  unfolding resume_task
  resume_task-timer k y = refl

  pub run_scheduler-cons :
      (k : Kernel Q) (y : ℕ) (ys : List ℕ)
      → s.to_list k.task_queue ≡ y ∷ ys
      → (k' : Kernel Q) × (run_scheduler s k ≡ running k')
        × (order k' ≡ y ∷ ys)
        × (k'.current_task ≡ y)
        × (k'.timer ≡ some 1_000_000)
        × ((p : ℕ) → (k'.tasks p).sp ≡ (k.tasks p).sp)
  run_scheduler-cons k y ys e =
      let (rest, out, left) = s.dequeue-cons k.task_queue y ys e in
      let served : Kernel Q = record k { task_queue = rest; timer = some 1_000_000 } in
      (
        resume_task s y served,
        run_scheduler-some k y rest out,
        resume_task-order served y ∙ ap (λ l. y ∷ l) left,
        resume_task-current served y,
        resume_task-timer served y,
        λ p. resume_task-sp served y p,
      )

  requeue-to_list :
      (flags x : ℕ) (q : Q)
      → IsRequeued flags
      → s.to_list (requeue s (resume_kind flags) x q) ≡ s.to_list q ++ x ∷ []
  unfolding requeue
  requeue-to_list flags x q (inl e) = rw e (s.to_list-enqueue q x)
  requeue-to_list flags x q (inr e) = rw e (s.to_list-enqueue q x)

  requeue-dropped :
      (flags x : ℕ) (q : Q)
      → (resume_kind flags ≡ blocked) ⊎ (resume_kind flags ≡ complete)
      → requeue s (resume_kind flags) x q ≡ q
  unfolding requeue
  requeue-dropped flags x q (inl e) = rw e refl
  requeue-dropped flags x q (inr e) = rw e refl

  -- The kernel as `resume_scheduler` hands it to `run_scheduler`.
  abbrev pub released_kernel : ℕ → ℕ → Kernel Q → Kernel Q
  released_kernel released flags k =
      let info = mark_interrupted s (resume_kind flags) (k.tasks k.stale_task) in
      record k {
        timer = none;
        task_queue = requeue s (resume_kind flags) k.stale_task k.task_queue;
        tasks = write_task k.tasks k.stale_task (record info { sp = released });
      }

  -- A task that yields or is preempted keeps its stack pointer and goes to the end of the queue;
  -- the task at its front runs next, with the timer set to a second.
  pub resume_scheduler-requeued :
      (k : Kernel Q) (released flags y : ℕ) (ys : List ℕ)
      → IsRequeued flags
      → s.to_list k.task_queue ++ k.stale_task ∷ [] ≡ y ∷ ys
      → (k' : Kernel Q) × (resume_scheduler s released flags k ≡ running k')
        × (order k' ≡ y ∷ ys)
        × (k'.current_task ≡ y)
        × (k'.timer ≡ some 1_000_000)
        × ((k'.tasks k.stale_task).sp ≡ released)
  unfolding resume_scheduler
  resume_scheduler-requeued k released flags y ys kind e =
      let (k', run, waiting, now, timer, sps) =
        run_scheduler-cons (released_kernel released flags k) y ys
          (requeue-to_list flags k.stale_task k.task_queue kind ∙ e) in
      (k', run, waiting, now, timer, sps k.stale_task ∙ rw (==_refl k.stale_task) refl)

  -- A task that blocks or completes keeps its stack pointer and does not go back to the queue: the
  -- task at the front runs, and with an empty queue the kernel goes idle with the timer halted.
  pub resume_scheduler-dropped :
      (k : Kernel Q) (released flags : ℕ)
      → (resume_kind flags ≡ blocked) ⊎ (resume_kind flags ≡ complete)
      → ((s.to_list k.task_queue ≡ [])
          × (k' : Kernel Q) × (resume_scheduler s released flags k ≡ idle k')
          × (k'.timer ≡ none)
          × ((k'.tasks k.stale_task).sp ≡ released))
        ⊎ ((y : ℕ) × (ys : List ℕ) × (k' : Kernel Q) × (s.to_list k.task_queue ≡ y ∷ ys)
            × (resume_scheduler s released flags k ≡ running k')
            × (order k' ≡ y ∷ ys)
            × ((k'.tasks k.stale_task).sp ≡ released))
  unfolding resume_scheduler
  resume_scheduler-dropped k released flags kind =
      let same : s.to_list (requeue s (resume_kind flags) k.stale_task k.task_queue)
          ≡ s.to_list k.task_queue =
        ap s.to_list (requeue-dropped flags k.stale_task k.task_queue kind) in
      elim (List-cases (s.to_list k.task_queue)) [
        | inl e ↦ inl (
          e,
          released_kernel released flags k,
          run_scheduler-none (released_kernel released flags k) (s.dequeue-nil _ (same ∙ e)),
          refl,
          rw (==_refl k.stale_task) refl,
        )
        | inr (y, ys, e) ↦
            let (k', run, waiting, now, timer, sps) =
              run_scheduler-cons (released_kernel released flags k) y ys (same ∙ e) in
            inr (y, ys, k', e, run, waiting, sps k.stale_task ∙ rw (==_refl k.stale_task) refl)
      ]

  -- The tasks that run take their turn one after another: each step is a `resume_scheduler` of the
  -- running task with the kind of a yield or a preemption.
  pub data Turns : ℕ → Kernel Q → Kernel Q → Type 0 where
    done : (k : Kernel Q) → Turns 0 k k
    turn :
        {n : ℕ} {k k' k'' : Kernel Q} (released flags : ℕ)
        → IsRequeued flags
        → resume_scheduler s released flags k ≡ running k'
        → Turns n k' k''
        → Turns (suc n) k k''

  running_kernel : Kernel Q → Next Q → Kernel Q
  running_kernel k (running k') = k'
  running_kernel k (idle k') = k

  pub turn-order :
      (k k' : Kernel Q) (released flags : ℕ)
      → IsRequeued flags
      → resume_scheduler s released flags k ≡ running k'
      → order k' ≡ s.to_list k.task_queue ++ k.stale_task ∷ []
  unfolding running_kernel
  turn-order k k' released flags kind e =
      let (y, ys, list) = append-last-cons (s.to_list k.task_queue) k.stale_task in
      let (k'', run, waiting, _, _, _) =
        resume_scheduler-requeued k released flags y ys kind list in
      subst (λ c. order c ≡ s.to_list k.task_queue ++ k.stale_task ∷ [])
        (ap (running_kernel k) (sym run ∙ e)) (waiting ∙ sym list)

  -- Bounded waiting: while tasks yield or are preempted, the task that has `i` tasks before it, the
  -- running one counted, runs after exactly `i` turns.
  pub Turns-position :
      (i : ℕ) (k k' : Kernel Q) (x : ℕ)
      → get_elem? (order k) i ≡ some x
      → Turns i k k'
      → k'.stale_task ≡ x
  Turns-position _ _ _ x e (done k) = Option.some-injective k.stale_task x e
  Turns-position _ _ _ x e (turn {n} {k} {k'} {k''} released flags kind run rest) =
      Turns-position n k' k'' x
        (subst (λ l. get_elem? l n ≡ some x) (sym (turn-order k k' released flags kind run))
          (get_elem?-append_left (s.to_list k.task_queue) (k.stale_task ∷ []) n x e))
        rest
