-- ===== src/Scheduler/Records.antt =====
-- The records of the tasks (src/scheduler.rs) keep up with what happened to the tasks.
use titanium.Base.{ℕ, ◌≤◌, ◌≡◌, refl, sym, ap, ◌∙◌, inl, inr, subst}
use titanium.Base.{true, false, List, ◌∷◌, arith, ◌==◌, if◌then◌else◌, Bool-cases}
use titanium.Base.{Bool, ==_iff, ==_refl}
use titanium.Scheduler.State.{
  SegQueue, ResumeKind, blocked, yielded, preempted, complete, resume_kind, Kernel, TaskInfo,
  running, resume_scheduler, start_scheduler, mark_interrupted,
}
use titanium.Scheduler.Order.{released_kernel}
use titanium.Scheduler.World.{
  count, World, set_at, if_preempted, after_spawn, after_start, after_release, left_after,
  frames_after,
}
use titanium.Scheduler.Effects.{
  start_scheduler-Served, resume_scheduler-Served, Served, started_kernel,
}
use titanium.Scheduler.Conserved.{IsConserved}

-- The tasks' records hold these stack pointers and frames.
abbrev Records : (ℕ → TaskInfo) → (ℕ → ℕ) → (ℕ → ℕ) → ℕ → Type 0
Records tasks sps frames p = ((tasks p).sp ≡ sps p) × ((tasks p).flags ≡ frames p)

module _ {Q : Type 0} (s : SegQueue Q) where
  -- The record of every spawned task holds the stack pointer it was left at and, in flag 0, whether
  -- a preempted task's frame lies there; under the running task there is none.
  abbrev pub IsSaved : World Q → Type 0
  IsSaved w =
      ((p : ℕ) → w.spawned p ≡ 1 → Records w.kernel.tasks w.left_at w.preempted_frame p)
      × ((p : ℕ) → w.preempted_frame p ≤ 1)
      × (w.started ≡ true → w.preempted_frame w.kernel.stale_task ≡ 0)

  Served-Records :
      (k k' : Kernel Q) (sps frames : ℕ → ℕ) (p : ℕ)
      → Served s k k'
      → frames p ≤ 1
      → Records k.tasks sps frames p
      → Records k'.tasks sps (set_at frames k'.stale_task 0) p
  Served-Records k k' sps frames p (_, _, sp, flags) small (at, bits) =
      (sp p ∙ at, flags p ∙ ground (arith, bits, small))

  mark_interrupted-sp :
      (kind : ResumeKind) (info : TaskInfo) → (mark_interrupted s kind info).sp ≡ info.sp
  unfolding mark_interrupted
  mark_interrupted-sp blocked info = refl
  mark_interrupted-sp yielded info = refl
  mark_interrupted-sp preempted info = refl
  mark_interrupted-sp complete info = refl

  mark_interrupted-flags :
      (kind : ResumeKind) (info : TaskInfo)
      → info.flags ≡ 0
      → (mark_interrupted s kind info).flags ≡ if_preempted kind
  unfolding mark_interrupted
  mark_interrupted-flags blocked info e = e
  mark_interrupted-flags yielded info e = e
  mark_interrupted-flags preempted info e = rw e refl
  mark_interrupted-flags complete info e = e

  pub released-Records :
      (w : World Q) (released flags p : ℕ)
      → (w.kernel.tasks w.kernel.stale_task).flags ≡ 0
      → Records w.kernel.tasks w.left_at w.preempted_frame p
      → Records
          (released_kernel s released flags w.kernel).tasks
          (left_after s w released)
          (frames_after s w flags)
          p
  released-Records w released flags p zero_flags r =
      let x = w.kernel.stale_task in
      elim (Bool-cases (x == p)) [
        | inl e ↦
            rw e (refl, mark_interrupted-flags (resume_kind flags) (w.kernel.tasks x) zero_flags)
        | inr e ↦ rw e r
      ]

  live-front : (b : Bool) (p : ℕ) (l : List ℕ) → b ≡ true → 1 ≤ count p (if b then p ∷ l else l)
  live-front true p l e = rw (==_refl p) (omega arith)
  live-front false p l e = cc

  pub running-spawned :
      (w : World Q) → IsConserved s w → w.started ≡ true → w.spawned w.kernel.stale_task ≡ 1
  running-spawned w h on =
      let x = w.kernel.stale_task in
      omega (
        arith,
        (h x).0,
        (h x).1,
        (h x).2,
        live-front w.started x (s.to_list w.kernel.task_queue) on,
      )

  pub running-flags :
      (w : World Q)
      → IsConserved s w
      → IsSaved w
      → w.started ≡ true
      → (w.kernel.tasks w.kernel.stale_task).flags ≡ 0
  running-flags w h saved on =
      let x = w.kernel.stale_task in (saved.0 x (running-spawned w h on)).1 ∙ saved.2 on

  set_at-small : (f : ℕ → ℕ) (p v x : ℕ) → v ≤ 1 → ((y : ℕ) → f y ≤ 1) → set_at f p v x ≤ 1
  set_at-small f p v x h all = ground (arith, all x)

  if_preempted-small : (kind : ResumeKind) → if_preempted kind ≤ 1
  if_preempted-small blocked = omega arith
  if_preempted-small yielded = omega arith
  if_preempted-small preempted = omega arith
  if_preempted-small complete = omega arith

  pub frames_after-small :
      (w : World Q) (flags : ℕ) → IsSaved w → (x : ℕ) → frames_after s w flags x ≤ 1
  frames_after-small w flags saved x =
      set_at-small w.preempted_frame w.kernel.stale_task (if_preempted (resume_kind flags)) x
        (if_preempted-small (resume_kind flags)) saved.1

  set_at-zero : (f : ℕ → ℕ) (p x : ℕ) → f x ≡ 0 → set_at f p 0 x ≡ 0
  set_at-zero f p x e = ground (arith, e)

  pub spawn-IsSaved :
      (w : World Q) (p : ℕ) (k' : Kernel Q)
      → k'.stale_task ≡ w.kernel.stale_task
      → (k'.tasks p).flags ≡ 0
      → ((q : ℕ) → (p == q) ≡ false → k'.tasks q ≡ w.kernel.tasks q)
      → IsSaved w
      → IsSaved (after_spawn s w p k')
  spawn-IsSaved w p k' stale flags others (records, small, none_under) = (
    λ q known. elim (Bool-cases (p == q)) [
      | inl e ↦ rw e (
        ap (λ z. (k'.tasks z).sp) (sym ((==_iff p q).0 e)),
        ap (λ z. (k'.tasks z).flags) (sym ((==_iff p q).0 e)) ∙ flags,
      )
      | inr e ↦
          let old : w.spawned q ≡ 1 = subst (λ b. (if b then 1 else w.spawned q) ≡ 1) e known in
          rw e (
            ap (λ t. t.sp) (others q e) ∙ (records q old).0,
            ap (λ t. t.flags) (others q e) ∙ (records q old).1,
          )
    ],
    λ x. set_at-small w.preempted_frame p 0 x (omega arith) small,
    λ on.
        ap (set_at w.preempted_frame p 0) stale
        ∙ set_at-zero w.preempted_frame p w.kernel.stale_task (none_under on),
  )

  pub start-IsSaved :
      (w : World Q) (scheduler_task : ℕ) (k' : Kernel Q)
      → start_scheduler s scheduler_task w.kernel ≡ running k'
      → IsSaved w
      → IsSaved (after_start s w k')
  start-IsSaved w scheduler_task k' e (records, small, _) =
      let served = start_scheduler-Served s scheduler_task w.kernel k' e in
      (
        λ p known.
            Served-Records (started_kernel s scheduler_task w.kernel) k' w.left_at w.preempted_frame
              p served (small p) (records p known),
        λ x. set_at-small w.preempted_frame k'.stale_task 0 x (omega arith) small,
        λ _. rw (==_refl k'.stale_task) refl,
      )

  pub release-IsSaved :
      (w : World Q) (released flags : ℕ) (k' : Kernel Q)
      → w.started ≡ true
      → resume_scheduler s released flags w.kernel ≡ running k'
      → IsConserved s w
      → IsSaved w
      → IsSaved (after_release s w released flags k')
  release-IsSaved w released flags k' on e h saved =
      let served = resume_scheduler-Served s released flags w.kernel k' e in
      let small = frames_after-small w flags saved in
      (
        λ p known.
            Served-Records (released_kernel s released flags w.kernel) k' (left_after s w released)
              (frames_after s w flags) p served (small p)
              (released-Records w released flags p (running-flags w h saved on) (saved.0 p known)),
        λ x. set_at-small (frames_after s w flags) k'.stale_task 0 x (omega arith) small,
        λ _. rw (==_refl k'.stale_task) refl,
      )
