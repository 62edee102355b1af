-- ===== src/Scheduler/World.antt =====
-- What a running system does to the scheduler (src/scheduler.rs), as a step relation: tasks are
-- spawned, run, hand the processor back in any of the four ways, and are woken.
use titanium.Base.{
  ℕ, suc, ◌+◌, ◌≡◌, Bool, true, false, List, [], ◌∷◌, ◌==◌, if◌then◌else◌, Option, some,
}
use titanium.Cpu.{Cpu}
use titanium.Scheduler.Frames.{Labels}
use titanium.Scheduler.State.{
  SegQueue, ResumeKind, blocked, preempted, complete, resume_kind, Kernel, running,
  resume_scheduler, start_scheduler, spawn_task, wake,
}

-- How often a task stands in a list.
abbrev pub count : ℕ → List ℕ → ℕ
count x [] = 0
count x (y ∷ ys) = (if y == x then 1 else 0) + count x ys

abbrev pub set_at : (ℕ → ℕ) → ℕ → ℕ → ℕ → ℕ
set_at f p v q = if p == q then v else f q

-- The kernel, and a record of what happened so far that the kernel itself does not keep: whether the
-- scheduler runs, how often a task was spawned, blocked without being woken since, and completed, and
-- how often it was woken while it was not blocked; where each task's stack pointer was last left; and
-- whether (1) or not (0) a preempted task's frame lies there, which running the task pops.
pub record World (Q : Type 0) : Type 0 where
  pub kernel : Kernel Q
  pub started : Bool
  pub spawned : ℕ → ℕ
  pub parked : ℕ → ℕ
  pub ended : ℕ → ℕ
  pub again : ℕ → ℕ
  pub left_at : ℕ → ℕ
  pub preempted_frame : ℕ → ℕ

abbrev pub if_blocked : ResumeKind → ℕ
if_blocked blocked = 1
if_blocked _ = 0

abbrev pub if_complete : ResumeKind → ℕ
if_complete complete = 1
if_complete _ = 0

abbrev pub if_preempted : ResumeKind → ℕ
if_preempted preempted = 1
if_preempted _ = 0

module _ {Q : Type 0} (s : SegQueue Q) where
  -- The tasks that can run: those that wait, and the one that does run.
  abbrev pub live : World Q → List ℕ
  live w =
      if w.started
      then w.kernel.stale_task ∷ s.to_list w.kernel.task_queue
      else s.to_list w.kernel.task_queue

  abbrev pub after_spawn : World Q → ℕ → Kernel Q → World Q
  after_spawn w p k' = record w {
    kernel = k';
    spawned = set_at w.spawned p 1;
    left_at = set_at w.left_at p (k'.tasks p).sp;
    preempted_frame = set_at w.preempted_frame p 0;
  }

  abbrev pub after_start : World Q → Kernel Q → World Q
  after_start w k' = record w {
    kernel = k';
    started = true;
    preempted_frame = set_at w.preempted_frame k'.stale_task 0;
  }

  -- The stack pointers and frames as the running task leaves them.
  abbrev pub left_after : World Q → ℕ → ℕ → ℕ
  left_after w released = set_at w.left_at w.kernel.stale_task released

  abbrev pub frames_after : World Q → ℕ → ℕ → ℕ
  frames_after w flags =
      set_at w.preempted_frame w.kernel.stale_task (if_preempted (resume_kind flags))

  abbrev pub after_release : World Q → ℕ → ℕ → Kernel Q → World Q
  after_release w released flags k' =
      let x = w.kernel.stale_task in
      let kind = resume_kind flags in
      record w {
        kernel = k';
        parked = set_at w.parked x (w.parked x + if_blocked kind);
        ended = set_at w.ended x (w.ended x + if_complete kind);
        left_at = left_after w released;
        preempted_frame = set_at (frames_after w flags) k'.stale_task 0;
      }

  abbrev pub after_wake : World Q → ℕ → ℕ → World Q
  after_wake w x n = record w { kernel = wake s x w.kernel; parked = set_at w.parked x n }

  abbrev pub after_wake_again : World Q → ℕ → World Q
  after_wake_again w x = record w {
    kernel = wake s x w.kernel;
    again = set_at w.again x (w.again x + 1);
  }

  -- A new task's record is at an address that no task had before. A waker is one of a task that was
  -- spawned; it is used at any time, whether the task is blocked, waits, runs or is complete.
  pub data Step : World Q → World Q → Type 0 where
    spawn :
        {w : World Q} (l : Labels) (task_addr options priority p : ℕ) (stack parent : Option ℕ)
        (k' : Kernel Q)
        → spawn_task s l task_addr options priority stack p parent w.kernel ≡ some (p, k')
        → w.spawned p ≡ 0
        → Step w (after_spawn w p k')
    start :
        {w : World Q} (scheduler_task : ℕ) (k' : Kernel Q)
        → w.started ≡ false
        → start_scheduler s scheduler_task w.kernel ≡ running k'
        → Step w (after_start w k')
    execute :
        {w : World Q} (cpu : Cpu) → Step w (record w { kernel = record w.kernel { cpu = cpu } })
    release :
        {w : World Q} (released flags : ℕ) (k' : Kernel Q)
        → w.started ≡ true
        → resume_scheduler s released flags w.kernel ≡ running k'
        → Step w (after_release w released flags k')
    wakes : {w : World Q} (x n : ℕ) → w.parked x ≡ suc n → Step w (after_wake w x n)
    wakes_again :
        {w : World Q} (x : ℕ) → w.parked x ≡ 0 → w.spawned x ≡ 1 → Step w (after_wake_again w x)

  -- No task yet.
  abbrev pub booted : Kernel Q → World Q
  booted k = record {
    kernel = k;
    started = false;
    spawned = λ p. 0;
    parked = λ p. 0;
    ended = λ p. 0;
    again = λ p. 0;
    left_at = λ p. 0;
    preempted_frame = λ p. 0;
  }

  pub data Reach (w : World Q) : World Q → Type 0 where
    here : Reach w w
    next : {u v : World Q} → Reach w u → Step u v → Reach w v
