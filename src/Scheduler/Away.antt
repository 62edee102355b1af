-- ===== src/Scheduler/Away.antt =====
-- A task that hands the processor back and later has it again (src/scheduler.rs), with whatever the
-- other tasks do in between.
use titanium.Base.{
  ℕ, ◌≡◌, ◌≢◌, refl, sym, ap, ◌∙◌, true, [], ==_ne, ==_refl, inl, inr, arith, List-cases, ◌==◌,
  subst,
}
use titanium.Cpu.{Cpu, rdi, set_reg}
use titanium.Scheduler.Frames.{resume_cpu}
use titanium.Scheduler.State.{
  SegQueue, Kernel, running, resume_scheduler, run_scheduler, resume_task, resume_kind,
}
use titanium.Scheduler.Order.{run_scheduler-some, run_scheduler-none}
use titanium.Scheduler.World.{
  World, Step, spawn, start, execute, release, wakes, wakes_again, booted, Reach, next,
  after_release, left_after, frames_after, if_preempted, set_at,
}
use titanium.Scheduler.Conserved.{Reach-IsConserved, booted-IsConserved}
use titanium.Scheduler.Records.{running-spawned}
use titanium.Scheduler.Resumed.{resume_scheduler-resumes}

module _ {Q : Type 0} (s : SegQueue Q) where
  -- The system runs on from `u`, and in none of its states `x` is the task that runs.
  pub data Away (x : ℕ) (u : World Q) : World Q → Type 0 where
    away : u.kernel.stale_task ≢ x → Away x u u
    on : {v w : World Q} → Away x u v → Step s v w → w.kernel.stale_task ≢ x → Away x u w

  pub Away-Reach : {x : ℕ} {u v w : World Q} → Reach s u v → Away x v w → Reach s u w
  Away-Reach r (away ne) = r
  Away-Reach r (on a st ne) = next (Away-Reach r a) st

  Away-first : {x : ℕ} {u v : World Q} → Away x u v → u.kernel.stale_task ≢ x
  Away-first (away ne) = ne
  Away-first (on a st ne) = Away-first a

  Away-other : {x : ℕ} {u v : World Q} → Away x u v → v.kernel.stale_task ≢ x
  Away-other (away ne) = ne
  Away-other (on a st ne) = ne

  set_at-other : (f : ℕ → ℕ) (p v q : ℕ) → p ≢ q → set_at f p v q ≡ f q
  set_at-other f p v q ne = rw (==_ne p q ne) refl

  -- What is known of a task that does not run: it was spawned, and where it was left and by what
  -- frame.
  abbrev Left : ℕ → ℕ → ℕ → World Q → Type 0
  Left x sp frame w =
      (w.spawned x ≡ 1) × (w.left_at x ≡ sp) × (w.preempted_frame x ≡ frame) × (w.started ≡ true)

  Step-Left :
      {v w : World Q} (x sp frame : ℕ)
      → Step s v w
      → v.kernel.stale_task ≢ x
      → w.kernel.stale_task ≢ x
      → Left x sp frame v
      → Left x sp frame w
  Step-Left x sp frame (spawn {w = v} l task_addr options priority p stack parent k' e new) was now
        h =
      let other : p ≢ x =
        λ t. let known = h.0 in let z = ap v.spawned t in omega (arith, new, known, z) in
      (
        set_at-other v.spawned p 1 x other ∙ h.0,
        set_at-other v.left_at p (k'.tasks p).sp x other ∙ h.1,
        set_at-other v.preempted_frame p 0 x other ∙ h.2,
        h.3,
      )
  Step-Left x sp frame (start {w = v} scheduler_task k' off e) was now h =
      (h.0, h.1, set_at-other v.preempted_frame k'.stale_task 0 x now ∙ h.2, refl)
  Step-Left x sp frame (execute cpu) was now h = h
  Step-Left x sp frame (release {w = v} released flags k' active e) was now h = (
    h.0,
    set_at-other v.left_at v.kernel.stale_task released x was ∙ h.1,
    set_at-other (frames_after s v flags) k'.stale_task 0 x now
        ∙ set_at-other v.preempted_frame v.kernel.stale_task (if_preempted (resume_kind flags)) x
            was
        ∙ h.2,
    h.3,
  )
  Step-Left x sp frame (wakes {w = v} y n e) was now h = h
  Step-Left x sp frame (wakes_again {w = v} y e known) was now h = h

  Away-Left :
      {x : ℕ} {u v : World Q} (sp frame : ℕ) → Away x u v → Left x sp frame u → Left x sp frame v
  Away-Left {x} sp frame (away ne) h = h
  Away-Left {x} sp frame (on a st ne) h =
      Step-Left x sp frame st (Away-other a) ne (Away-Left sp frame a h)

  -- A task that hands the processor back, while others run, and is then served again.
  resumed :
      (k : Kernel Q) (w v : World Q) (released flags released' flags' : ℕ) (k1 k2 : Kernel Q)
      → s.to_list k.task_queue ≡ []
      → Reach s (booted s k) w
      → w.started ≡ true
      → resume_scheduler s released flags w.kernel ≡ running k1
      → Away w.kernel.stale_task (after_release s w released flags k1) v
      → resume_scheduler s released' flags' v.kernel ≡ running k2
      → k2.stale_task ≡ w.kernel.stale_task
      → k2.cpu
        ≡ resume_cpu released
            (if_preempted (resume_kind flags) == 1)
            (set_reg v.kernel.cpu rdi w.kernel.stale_task)
  resumed k w v released flags released' flags' k1 k2 empty r started e a e' back =
      let x = w.kernel.stale_task in
      let frame = if_preempted (resume_kind flags) in
      let u = after_release s w released flags k1 in
      let h = Reach-IsConserved s r (booted-IsConserved s k empty) in
      let to_u : Reach s (booted s k) u = next r (release {w = w} released flags k1 started e) in
      let at_u : Left x released frame u = (
        running-spawned s w h started,
        rw (==_refl x) refl,
        set_at-other (frames_after s w flags) k1.stale_task 0 x (Away-first a)
            ∙ rw (==_refl x) refl,
        started,
      ) in
      let at_v = Away-Left released frame a at_u in
      let goes_on =
        (resume_scheduler-resumes s k v released' flags' k2 empty (Away-Reach to_u a) at_v.3
          e').1 in
      let other = Away-other a in
      let at = set_at-other v.left_at v.kernel.stale_task released' x other ∙ at_v.1 in
      let by =
        set_at-other v.preempted_frame v.kernel.stale_task (if_preempted (resume_kind flags')) x
          other
        ∙ at_v.2 in
      goes_on
      ∙ ap
          (λ y.
            resume_cpu (left_after s v released' y) (frames_after s v flags' y == 1)
              (set_reg v.kernel.cpu rdi y))
          back
      ∙ ap (λ a. resume_cpu a (frames_after s v flags' x == 1) (set_reg v.kernel.cpu rdi x)) at
      ∙ ap (λ n. resume_cpu released (n == 1) (set_reg v.kernel.cpu rdi x)) by

  abbrev at_door : Cpu → ℕ → Kernel Q → Kernel Q
  at_door cpu scheduler_task k = record k { cpu = cpu; current_task = scheduler_task }

  run_scheduler-current :
      (k k' : Kernel Q) (c : ℕ)
      → run_scheduler s (record k { current_task = c }) ≡ running k'
      → run_scheduler s k ≡ running k'
  unfolding resume_task
  run_scheduler-current k k' c e = elim (List-cases (s.to_list k.task_queue)) [
    | inl empty ↦
        let stuck =
          sym (
            run_scheduler-none s (record k { current_task = c }) (s.dequeue-nil k.task_queue empty))
          ∙ e in
        absurd (cc)
    | inr (y, ys, e1) ↦
        let (rest, out, left) = s.dequeue-cons k.task_queue y ys e1 in
        run_scheduler-some s k y rest out
        ∙ sym (run_scheduler-some s (record k { current_task = c }) y rest out)
        ∙ e
  ]

  resume_scheduler-current :
      (released flags c : ℕ) (k k' : Kernel Q)
      → resume_scheduler s released flags (record k { current_task = c }) ≡ running k'
      → resume_scheduler s released flags k ≡ running k'
  unfolding resume_scheduler
  resume_scheduler-current released flags c k k' e = run_scheduler-current _ k' c e

  -- The same with what is left on the way through the scheduler's door.
  pub door-resumed :
      (scheduler_task : ℕ) (saved : Cpu) (k : Kernel Q) (w v : World Q)
      (bits passed released flags : ℕ) (k1 k2 : Kernel Q)
      → s.to_list k.task_queue ≡ []
      → Reach s (booted s k) w
      → w.started ≡ true
      → resume_scheduler s
          (saved.regs rdi)
          passed
          (record w.kernel { cpu = saved; current_task = scheduler_task })
        ≡ running k1
      → passed ≡ bits
      → Away w.kernel.stale_task (after_release s w (saved.regs rdi) bits k1) v
      → resume_scheduler s released flags v.kernel ≡ running k2
      → k2.stale_task ≡ w.kernel.stale_task
      → k2.cpu
        ≡ resume_cpu
            (saved.regs rdi)
            (if_preempted (resume_kind bits) == 1)
            (set_reg v.kernel.cpu rdi w.kernel.stale_task)
  door-resumed scheduler_task saved k w v bits passed released flags k1 k2 empty r started e same a
        e' back =
      let w' : World Q = record w { kernel = record w.kernel { cpu = saved } } in
      let handed : resume_scheduler s (saved.regs rdi) bits w'.kernel ≡ running k1 =
        resume_scheduler-current (saved.regs rdi) bits scheduler_task w'.kernel k1 (
          subst
            (λ n.
              resume_scheduler s (saved.regs rdi) n
                (record w'.kernel { current_task = scheduler_task })
              ≡ running k1)
            same e) in
      resumed k w' v (saved.regs rdi) bits released flags k1 k2 empty
        (next r (execute {w = w} saved)) started handed a e' back
