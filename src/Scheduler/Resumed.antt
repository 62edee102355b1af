-- ===== src/Scheduler/Resumed.antt =====
-- Where a task goes on: in every state that a running system reaches, the scheduler
-- (src/scheduler.rs) resumes a task at the stack pointer that it was left at, and by its frame.
use titanium.Base.{ℕ, ◌%◌, ◌≤◌, ◌≡◌, refl, ◌∙◌, true, [], arith, ◌==◌}
use titanium.Cpu.{rdi, set_reg}
use titanium.Scheduler.Frames.{resume_cpu}
use titanium.Scheduler.State.{SegQueue, Kernel, running, resume_scheduler, wake}
use titanium.Scheduler.World.{
  World, Step, spawn, start, execute, release, wakes, wakes_again, booted, Reach, here, next,
  after_release, after_wake, after_wake_again, left_after, frames_after,
}
use titanium.Scheduler.Effects.{spawn_task-Spawned, resume_scheduler-Served}
use titanium.Scheduler.Conserved.{
  IsConserved, Step-IsConserved, booted-IsConserved, Reach-IsConserved,
}
use titanium.Scheduler.Records.{
  IsSaved, spawn-IsSaved, start-IsSaved, release-IsSaved, running-spawned, running-flags,
  frames_after-small, released-Records,
}

module _ {Q : Type 0} (s : SegQueue Q) where
  wake-IsSaved : (w : World Q) (x n : ℕ) → IsSaved s w → IsSaved s (after_wake s w x n)
  unfolding wake
  wake-IsSaved w x n saved = saved

  wake_again-IsSaved : (w : World Q) (x : ℕ) → IsSaved s w → IsSaved s (after_wake_again s w x)
  unfolding wake
  wake_again-IsSaved w x saved = saved

  Step-IsSaved : {w v : World Q} → Step s w v → IsConserved s w → IsSaved s w → IsSaved s v
  Step-IsSaved (spawn {w} l task_addr options priority p stack parent k' e new) h saved =
      let (_, stale, flags, others) =
        spawn_task-Spawned s l task_addr options priority p stack parent w.kernel k' e in
      spawn-IsSaved s w p k' stale flags others saved
  Step-IsSaved (start {w} scheduler_task k' off e) h saved =
      start-IsSaved s w scheduler_task k' e saved
  Step-IsSaved (execute cpu) h saved = saved
  Step-IsSaved (release {w} released flags k' on e) h saved =
      release-IsSaved s w released flags k' on e h saved
  Step-IsSaved (wakes {w} x n e) h saved = wake-IsSaved w x n saved
  Step-IsSaved (wakes_again {w} x e known) h saved = wake_again-IsSaved w x saved

  Reach-IsSaved : {w v : World Q} → Reach s w v → IsConserved s w → IsSaved s w → IsSaved s v
  Reach-IsSaved here h saved = saved
  Reach-IsSaved (next r st) h saved =
      Step-IsSaved st (Reach-IsConserved s r h) (Reach-IsSaved r h saved)

  booted-IsSaved : (k : Kernel Q) → IsSaved s (booted s k)
  booted-IsSaved k = (λ p known. omega (arith, known), λ p. omega arith, λ on. refl)

  frame-test : (n : ℕ) → n ≤ 1 → (n % 2 == 1) ≡ (n == 1)
  frame-test n h = ground arith

  -- Let the system run from a boot with an empty queue, and let the running task hand the processor
  -- back, with its stack pointer, in one of the four ways; where a task runs next, it is one that was
  -- spawned, and the processor goes on by `resume_task` from the stack pointer that this task was
  -- last left at, with a preempted task's frame exactly where its last release was a preemption.
  pub resume_scheduler-resumes :
      (k : Kernel Q) (w : World Q) (released flags : ℕ) (k' : Kernel Q)
      → s.to_list k.task_queue ≡ []
      → Reach s (booted s k) w
      → w.started ≡ true
      → resume_scheduler s released flags w.kernel ≡ running k'
      → let y = k'.stale_task in
        (w.spawned y ≡ 1)
        × (k'.cpu
            ≡ resume_cpu
                (left_after s w released y)
                (frames_after s w flags y == 1)
                (set_reg w.kernel.cpu rdi y))
  resume_scheduler-resumes k w released flags k' empty r on e =
      let y = k'.stale_task in
      let start_h = booted-IsConserved s k empty in
      let h = Reach-IsConserved s r start_h in
      let saved = Reach-IsSaved r start_h (booted-IsSaved k) in
      let known : w.spawned y ≡ 1 =
        running-spawned s (after_release s w released flags k')
          (Step-IsConserved s (release {w = w} released flags k' on e) h) on in
      let (at, bits) =
        released-Records s w released flags y (running-flags s w h saved on) (saved.0 y known) in
      let small = frames_after-small s w flags saved y in
      (
        known,
        (resume_scheduler-Served s released flags w.kernel k' e).1
            ∙ rw (at, bits, frame-test (frames_after s w flags y) small) refl,
      )
