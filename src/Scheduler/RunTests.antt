-- ===== src/Scheduler/RunTests.antt =====
-- A short run of the scheduler: two tasks are spawned, the scheduler starts, and the first yields.
use titanium.Base.{ℕ, ◌≡◌, ◌^◌, ◌≢◌, ◌*◌, arith, refl, ◌==◌, List, [], Option, none, some}
use titanium.Cpu.{rdi, set_reg}
use titanium.Scheduler.Frames.{resume_cpu, taskid_scheduler}
use titanium.Scheduler.State.{
  Kernel, running, resume_scheduler, start_scheduler, spawn_task, run_scheduler, resume_task,
  requeue, mark_interrupted, resume_kind, make_task_id,
}
use titanium.Scheduler.TaskIds.{task_id, priority, as_flags, make_task_id_lem}
use titanium.Scheduler.World.{
  World, spawn, start, wakes_again, booted, Reach, here, next, after_spawn, after_start,
  after_wake_again, left_after, frames_after,
}
use titanium.Scheduler.Conserved.{IsConserved, resume_scheduler-IsConserved}
use titanium.Scheduler.Resumed.{resume_scheduler-resumes}
use titanium.Scheduler.Tests.{labels, processor, list_queue, kernel_of}

abbrev pub empty_kernel : Kernel (List ℕ)
empty_kernel = record {
  cpu = processor;
  tasks = λ p. record { sp = 0; task_id = 0; flags = 0; wake_on_end = 0 };
  current_task = 0;
  stale_task = 0;
  task_queue = [];
  timer = none;
  next_task_id = 0x100;
}

abbrev pub spawned_kernel : Option (ℕ × Kernel (List ℕ)) → Kernel (List ℕ)
spawned_kernel none = empty_kernel
spawned_kernel (some (p, k)) = k

abbrev pub first : Kernel (List ℕ)
first =
    spawned_kernel (spawn_task list_queue labels 2048 (2 ^ 63) 7 (some 4096) 5 none empty_kernel)

abbrev pub second : Kernel (List ℕ)
second = spawned_kernel (spawn_task list_queue labels 3072 (2 ^ 63) 7 (some 8192) 6 none first)

abbrev pub begun : Kernel (List ℕ)
begun = kernel_of (start_scheduler list_queue 1 second)

abbrev pub w0 : World (List ℕ)
w0 = booted list_queue empty_kernel

abbrev pub w1 : World (List ℕ)
w1 = after_spawn list_queue w0 5 first

abbrev pub w2 : World (List ℕ)
w2 = after_spawn list_queue w1 6 second

abbrev pub w3 : World (List ℕ)
w3 = after_start list_queue w2 begun

pub two-tasks : Reach list_queue w0 w3
unfolding spawn_task start_scheduler run_scheduler resume_task make_task_id
two-tasks =
    next
      (next (next here (spawn {w = w0} labels 2048 (2 ^ 63) 7 5 (some 4096) none first refl refl))
        (spawn {w = w1} labels 3072 (2 ^ 63) 7 6 (some 8192) none second refl refl))
      (start {w = w2} 1 begun refl refl)

-- The task that runs is woken, although it is not blocked.
abbrev w4 : World (List ℕ)
w4 = after_wake_again list_queue w3 5

resume_scheduler-IsConserved_example : IsConserved list_queue w4
unfolding spawn_task start_scheduler run_scheduler resume_task make_task_id
resume_scheduler-IsConserved_example =
    resume_scheduler-IsConserved list_queue empty_kernel w4 refl
      (next two-tasks (wakes_again {w = w3} 5 refl refl))

abbrev yielded_to : Kernel (List ℕ)
yielded_to = kernel_of (resume_scheduler list_queue 4000 1 begun)

runs : resume_scheduler list_queue 4000 1 begun ≡ running yielded_to
unfolding resume_scheduler spawn_task start_scheduler run_scheduler resume_task make_task_id requeue
    mark_interrupted resume_kind
runs = refl

resume_scheduler-resumes_example :
    let y = yielded_to.stale_task in
    (w3.spawned y ≡ 1)
    × (yielded_to.cpu
        ≡ resume_cpu
            (left_after list_queue w3 4000 y)
            (frames_after list_queue w3 1 y == 1)
            (set_reg w3.kernel.cpu rdi y))
resume_scheduler-resumes_example =
    resume_scheduler-resumes list_queue empty_kernel w3 4000 1 yielded_to refl two-tasks refl runs

make_task_id_lem_example :
    let id = make_task_id (5 * 2 ^ 61) 256 7 in
    (task_id id ≡ 256) × (priority id ≡ 7) × (as_flags id ≡ 5 * 2 ^ 61) × (id ≢ taskid_scheduler)
make_task_id_lem_example = make_task_id_lem 5 256 7 (omega arith) (omega arith) (omega arith)
