-- ===== src/Stack/Guarded.antt =====
-- Every kernel stack (src/stack.rs) stands between two guard pages.
use titanium.Base.{ℕ, ◌+◌, ◌-◌, ◌≤◌, ◌<◌, ◌≡◌, ap, ◌∙◌}
use titanium.Base.{Bool, true, false, some, if◌then◌else◌, arith}
use titanium.Base.{get_elem?}
use titanium.Vmem.{
  page_size, kernel_stack_space_bottom_offset, kernel_stack_space_top_offset, n_large_kernel_stacks,
}
use titanium.Stack.Manager.{init_guards}
use titanium.Stack.Guards.{init_guards-large, init_guards-small}
use titanium.Stack.Apart.{stack_size, n_stacks, stack_end}

-- The stack space holds every stack with a guard page below and above it, both mapped by `init`.
pub init_guards_lem :
    (hhdm : ℕ) (k : Bool) (i : ℕ)
    → i < n_stacks k
    → let end = stack_end hhdm k i in
      let place = (if k then n_large_kernel_stacks else 0) + i in
      (get_elem? (init_guards hhdm) place ≡ some (end - stack_size k - page_size))
      × (get_elem? (init_guards hhdm) (place + 1) ≡ some end)
      × (hhdm + kernel_stack_space_bottom_offset + page_size + stack_size k ≤ end)
      × (end + page_size ≤ hhdm + kernel_stack_space_top_offset)
init_guards_lem hhdm true i h =
    let next : 16 + i + 1 ≡ 16 + (i + 1) = omega arith in
    (
      init_guards-small hhdm i (omega arith) ∙ ap some (omega arith),
      ap (get_elem? (init_guards hhdm)) next
          ∙ init_guards-small hhdm (i + 1) (omega arith)
          ∙ ap some (omega arith),
      omega arith,
      omega arith,
    )
init_guards_lem hhdm false i h =
    let same : 0 + i ≡ i = omega arith in
    rw same (
      init_guards-large hhdm i (omega arith) ∙ ap some (omega arith),
      init_guards-large hhdm (i + 1) (omega arith) ∙ ap some (omega arith),
      omega arith,
      omega arith,
    )
