-- ===== src/Stack/Manager.antt =====
-- `StackManager` and `init` of src/stack.rs. The mapper is a parameter, since its result is not read;
-- `hhdm` is the address in `HHDM_ADDR`. A bit is set while its stack is free.
use titanium.Base.{ℕ, zero, suc, ◌+◌, ◌-◌, ◌*◌, Bool, true, false}
use titanium.Base.{Option, none, some, if◌then◌else◌, List, [], ◌∷◌}
use titanium.Bitvec.{BitArray}
use titanium.Vmem.{
  page_size, kernel_stack_space_bottom_offset, large_kernel_stack_pages, small_kernel_stack_pages,
  large_kernel_stack_size, small_kernel_stack_size, n_large_kernel_stacks, n_small_kernel_stacks,
  first_large_kernel_stack_top_offset, first_small_kernel_stack_top_offset,
}

pub record StackManager (L S M : Type 0) : Type 0 where
  pub kernel_large_stacks : L
  pub kernel_small_stacks : S
  pub mapper : M
  pub interrupts : Bool

-- The top of a stack.
abbrev pub small_end : ℕ → ℕ → ℕ
small_end hhdm index =
    hhdm + first_small_kernel_stack_top_offset + (small_kernel_stack_size + page_size) * index

abbrev pub large_end : ℕ → ℕ → ℕ
large_end hhdm index =
    hhdm + first_large_kernel_stack_top_offset + (large_kernel_stack_size + page_size) * index

module _ {L S M : Type 0} (large : BitArray n_large_kernel_stacks L)
    (small : BitArray n_small_kernel_stacks S) (page_region : M → ℕ → ℕ → M) where
  unfoldable pub map_small_stack : ℕ → StackManager L S M → StackManager L S M × Option ℕ
  map_small_stack hhdm st = elim (small.first_one st.kernel_small_stacks 0) [
    | none ↦ (record st { interrupts = false }, none)
    | some index ↦
        let end = small_end hhdm index in
        let start = end - small_kernel_stack_size in
        (
          record st {
            kernel_small_stacks = small.set st.kernel_small_stacks index false;
            mapper = page_region st.mapper start end;
            interrupts = true;
          },
          some end,
        )
  ]

  unfoldable pub map_large_stack : ℕ → StackManager L S M → StackManager L S M × Option ℕ
  map_large_stack hhdm st = elim (large.first_one st.kernel_large_stacks 0) [
    | none ↦ (record st { interrupts = false }, none)
    | some index ↦
        let end = large_end hhdm index in
        let start = end - large_kernel_stack_size in
        (
          record st {
            kernel_large_stacks = large.set st.kernel_large_stacks index false;
            mapper = page_region st.mapper start end;
            interrupts = true;
          },
          some end,
        )
  ]

  unfoldable pub make_kernel_stack : ℕ → Bool → StackManager L S M → StackManager L S M × Option ℕ
  make_kernel_stack hhdm small_stack st =
      if small_stack then map_small_stack hhdm st else map_large_stack hhdm st

-- The pages that `init` maps as guards, in order: `rounds` times every `stride` pages.
unfoldable pub guards_from : ℕ → ℕ → ℕ → List ℕ → List ℕ
guards_from zero stride curpage above = above
guards_from (suc rounds) stride curpage above =
    curpage ∷ guards_from rounds stride (curpage + stride * page_size) above

unfoldable pub init_guards : ℕ → List ℕ
init_guards hhdm =
    let bottom_addr = hhdm + kernel_stack_space_bottom_offset in
    guards_from n_large_kernel_stacks (1 + large_kernel_stack_pages) bottom_addr (
      guards_from (n_small_kernel_stacks + 1) (1 + small_kernel_stack_pages)
        (bottom_addr + n_large_kernel_stacks * (1 + large_kernel_stack_pages) * page_size) [])
