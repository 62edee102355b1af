-- ===== src/Scheduler/Conserved.antt =====
-- No task is lost, and none is queued without a wake: where the tasks are in every state of the scheduler
-- (src/scheduler.rs) that a running system reaches.
use titanium.Base.{ℕ, suc, ◌+◌, ◌≤◌, ◌≡◌, refl, sym, ap, ◌∙◌, inl, inr, subst, ◌⊎◌}
use titanium.Base.{
  true, false, List, [], ◌∷◌, ◌++◌, arith, ◌==◌, if◌then◌else◌, Bool-cases, Bool, ==_iff,
}
use titanium.Scheduler.State.{
  SegQueue, resume_kind, Kernel, running, resume_scheduler, start_scheduler, wake,
}
use titanium.Scheduler.World.{
  count, World, live, set_at, if_blocked, if_complete, Step, spawn, start, execute, release, wakes,
  wakes_again, booted, Reach, here, next, after_spawn, after_start, after_release, after_wake,
  after_wake_again,
}
use titanium.Scheduler.Effects.{
  count-append, count-requeue, spawn_task-Spawned, wake-queue, wake-same, start_scheduler-Served,
  resume_scheduler-Served,
}

-- The running task counts once more than the queue says.
abbrev turn_of : Bool → ℕ → ℕ → ℕ
turn_of started p x = if started then (if p == x then 1 else 0) else 0

count-live :
    (started : Bool) (p x : ℕ) (l : List ℕ)
    → count x (if started then p ∷ l else l) ≡ turn_of started p x + count x l
count-live true p x l = refl
count-live false p x l = omega arith

count-last : (x p : ℕ) (l : List ℕ) → count x (l ++ p ∷ []) ≡ count x l + (if p == x then 1 else 0)
count-last x p l = omega (arith, count-append x l (p ∷ []))

set_at-less :
    (f : ℕ → ℕ) (p n x : ℕ) → f p ≡ suc n → set_at f p n x + (if p == x then 1 else 0) ≡ f x
set_at-less f p n x e = elim (Bool-cases (p == x)) [
  | inl same ↦ rw same (omega (arith, e, ap f ((==_iff p x).0 same)))
  | inr other ↦ rw other (omega arith)
]

set_at-more : (f : ℕ → ℕ) (p d x : ℕ) → set_at f p (f p + d) x ≡ f x + (if p == x then d else 0)
set_at-more f p d x = elim (Bool-cases (p == x)) [
  | inl same ↦ rw same (omega (arith, ap f ((==_iff p x).0 same)))
  | inr other ↦ rw other (omega arith)
]

if-sum :
    (b : Bool) (m n : ℕ) → (if b then m + n else 0) ≡ (if b then m else 0) + (if b then n else 0)
if-sum true m n = refl
if-sum false m n = omega arith

module _ {Q : Type 0} (s : SegQueue Q) where
  -- A task that was spawned is in one place: it runs or waits, or it is blocked or complete; and in
  -- one more for each time that it was woken while it was not blocked.
  abbrev pub IsConserved : World Q → Type 0
  IsConserved w =
      (x : ℕ)
      → (count x (live s w) + w.parked x + w.ended x ≡ w.spawned x + w.again x)
        × (w.spawned x ≤ 1)
        × ((w.spawned x ≡ 1) ⊎ (w.again x ≡ 0))

  -- The queue as a step leaves it, by what it gained.
  count-gained :
      (w : World Q) (k' : Kernel Q) (p x : ℕ)
      → s.to_list k'.task_queue ≡ s.to_list w.kernel.task_queue ++ p ∷ []
      → k'.stale_task ≡ w.kernel.stale_task
      → count x (live s (record w { kernel = k' })) ≡ count x (live s w) + (if p == x then 1 else 0)
  count-gained w k' p x queue stale =
      let k = w.kernel in
      let old = count-live w.started k.stale_task x (s.to_list k.task_queue) in
      let new = count-live w.started k'.stale_task x (s.to_list k'.task_queue) in
      let same = ap (λ t. turn_of w.started t x) stale in
      let grown = ap (count x) queue ∙ count-last x p (s.to_list k.task_queue) in
      omega (arith, old, new, same, grown)

  wake-IsConserved :
      (w : World Q) (x n : ℕ)
      → w.parked x ≡ suc n
      → IsConserved w
      → IsConserved (after_wake s w x n)
  wake-IsConserved w x n e h y =
      let gained =
        count-gained w (wake s x w.kernel) x y (wake-queue s x w.kernel)
          (wake-same s x w.kernel).1 in
      (omega (arith, (h y).0, gained, set_at-less w.parked x n y e), (h y).1, (h y).2)

  wake_again-IsConserved :
      (w : World Q) (x : ℕ) → w.spawned x ≡ 1 → IsConserved w → IsConserved (after_wake_again s w x)
  wake_again-IsConserved w x known h y =
      let gained =
        count-gained w (wake s x w.kernel) x y (wake-queue s x w.kernel)
          (wake-same s x w.kernel).1 in
      let more = set_at-more w.again x 1 y in
      (
        omega (arith, (h y).0, gained, more),
        (h y).1,
        elim (Bool-cases (x == y)) [
          | inl same ↦ inl (ap w.spawned (sym ((==_iff x y).0 same)) ∙ known)
          | inr other ↦ elim (h y).2 [
            | inl one ↦ inl one
            | inr zero_times ↦ inr (rw other zero_times)
          ]
        ],
      )

  spawn-IsConserved :
      (w : World Q) (p : ℕ) (k' : Kernel Q)
      → s.to_list k'.task_queue ≡ s.to_list w.kernel.task_queue ++ p ∷ []
      → k'.stale_task ≡ w.kernel.stale_task
      → w.spawned p ≡ 0
      → IsConserved w
      → IsConserved (after_spawn s w p k')
  spawn-IsConserved w p k' queue stale new h y =
      let gained = count-gained w k' p y queue stale in
      let count_up =
        subst (λ z. set_at w.spawned p (z + 1) y ≡ w.spawned y + (if p == y then 1 else 0)) new
          (set_at-more w.spawned p 1 y) in
      (
        omega (arith, (h y).0, gained, count_up),
        ground (arith, (h y).1),
        elim (Bool-cases (p == y)) [ inl same ↦ rw same (inl refl) | inr other ↦ rw other (h y).2 ],
      )

  start-IsConserved :
      (w : World Q) (scheduler_task : ℕ) (k' : Kernel Q)
      → w.started ≡ false
      → start_scheduler s scheduler_task w.kernel ≡ running k'
      → IsConserved w
      → IsConserved (after_start s w k')
  start-IsConserved w scheduler_task k' off e h y =
      let k = w.kernel in
      let old = count-live w.started k.stale_task y (s.to_list k.task_queue) in
      let idle_turn = ap (λ b. turn_of b k.stale_task y) off in
      let moved = ap (count y) (start_scheduler-Served s scheduler_task k k' e).0 in
      (omega (arith, (h y).0, old, idle_turn, moved), (h y).1, (h y).2)

  release-IsConserved :
      (w : World Q) (released flags : ℕ) (k' : Kernel Q)
      → w.started ≡ true
      → resume_scheduler s released flags w.kernel ≡ running k'
      → IsConserved w
      → IsConserved (after_release s w released flags k')
  release-IsConserved w released flags k' on e h y =
      let k = w.kernel in
      let kind = resume_kind flags in
      let x = k.stale_task in
      let old = count-live w.started x y (s.to_list k.task_queue) in
      let its_turn = ap (λ b. turn_of b x y) on in
      let new = ap (λ b. turn_of b k'.stale_task y) on in
      let after = count-live w.started k'.stale_task y (s.to_list k'.task_queue) in
      let moved = ap (count y) (resume_scheduler-Served s released flags k k' e).0 in
      let gone = count-requeue s kind x y k.task_queue in
      let both = if-sum (x == y) (if_blocked kind) (if_complete kind) in
      let blocks = set_at-more w.parked x (if_blocked kind) y in
      let ends = set_at-more w.ended x (if_complete kind) y in
      (
        omega (arith, (h y).0, old, its_turn, new, after, moved, gone, both, blocks, ends),
        (h y).1,
        (h y).2,
      )

  pub Step-IsConserved : {w v : World Q} → Step s w v → IsConserved w → IsConserved v
  Step-IsConserved (spawn {w} l task_addr options priority p stack parent k' e new) h =
      let (queue, stale, _, _) =
        spawn_task-Spawned s l task_addr options priority p stack parent w.kernel k' e in
      spawn-IsConserved w p k' queue stale new h
  Step-IsConserved (start {w} scheduler_task k' off e) h =
      start-IsConserved w scheduler_task k' off e h
  Step-IsConserved (execute cpu) h = h
  Step-IsConserved (release {w} released flags k' on e) h =
      release-IsConserved w released flags k' on e h
  Step-IsConserved (wakes {w} x n e) h = wake-IsConserved w x n e h
  Step-IsConserved (wakes_again {w} x e known) h = wake_again-IsConserved w x known h

  pub Reach-IsConserved : {w v : World Q} → Reach s w v → IsConserved w → IsConserved v
  Reach-IsConserved here h = h
  Reach-IsConserved (next r st) h = Step-IsConserved st (Reach-IsConserved r h)

  pub booted-IsConserved : (k : Kernel Q) → s.to_list k.task_queue ≡ [] → IsConserved (booted s k)
  booted-IsConserved k e x = (omega (arith, ap (count x) e), omega arith, inr refl)

  -- From a boot with an empty queue, whatever is spawned, run, handed back and woken: the times that a
  -- task runs or waits in the queue, is blocked and not woken since, and is complete, are together
  -- one for a task that was spawned, and one more for each time that it was woken while it was not
  -- blocked; no other task is anywhere. So a task that is only woken where it is blocked is in
  -- exactly one place, and each other wake queues it once more.
  pub resume_scheduler-IsConserved :
      (k : Kernel Q) (w : World Q)
      → s.to_list k.task_queue ≡ []
      → Reach s (booted s k) w
      → IsConserved w
  resume_scheduler-IsConserved k w e r = Reach-IsConserved r (booted-IsConserved k e)
