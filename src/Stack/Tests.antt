-- ===== src/Stack/Tests.antt =====
-- Runs of the theorems on the kernel stacks.
use titanium.Base.{ℕ, suc, ◌≤◌, ◌<◌, ◌≡◌, refl, Bool, true, false, Option, none, some, arith}
use titanium.Base.{◌⊎◌, get_elem?}
use titanium.Bitvec.{bit_function, search_one}
use titanium.Vmem.{n_large_kernel_stacks, n_small_kernel_stacks}
use titanium.Stack.Manager.{
  StackManager, make_kernel_stack, map_small_stack, map_large_stack, init_guards,
}
use titanium.Stack.Apart.{
  make, now, Apart, make_kernel_stack_lem, make_kernel_stack-Apart, taken, stack_end,
}
use titanium.Stack.Guarded.{init_guards_lem}

-- All stacks are free; the mapper counts its calls.
abbrev fresh : StackManager (ℕ → Bool) (ℕ → Bool) ℕ
fresh = record {
  kernel_large_stacks = λ i. true;
  kernel_small_stacks = λ i. true;
  mapper = 0;
  interrupts = true;
}

abbrev count_calls : ℕ → ℕ → ℕ → ℕ
count_calls calls start end = suc calls

abbrev request_stack :
    Bool → StackManager (ℕ → Bool) (ℕ → Bool) ℕ → StackManager (ℕ → Bool) (ℕ → Bool) ℕ × Option ℕ
request_stack =
    make (bit_function n_large_kernel_stacks) (bit_function n_small_kernel_stacks) count_calls 0

first_small : (request_stack true fresh).1 ≡ some 0x16_2000
unfolding make_kernel_stack map_small_stack bit_function search_one
first_small = refl

then_large : (request_stack false (request_stack true fresh).0).1 ≡ some 0x10_6000
unfolding make_kernel_stack map_small_stack map_large_stack bit_function search_one
then_large = refl

make_kernel_stack-Apart_example : Apart true 0x16_2000 false 0x10_6000
make_kernel_stack-Apart_example =
    make_kernel_stack-Apart (bit_function n_large_kernel_stacks)
      (bit_function n_small_kernel_stacks) count_calls 0 true false 0x16_2000 0x10_6000 fresh
      (request_stack true fresh).0 first_small (now (request_stack true fresh).0) then_large

make_kernel_stack_lem_example :
    (((i : ℕ) → i < 32 → true ≡ false)
      × (request_stack true fresh ≡ (record fresh { interrupts = false }, none)))
    ⊎ ((i : ℕ) × (i < 32)
        × (true ≡ true)
        × ((j : ℕ) → j < i → true ≡ false)
        × (request_stack true fresh ≡ (
          taken
              (bit_function n_large_kernel_stacks)
              (bit_function n_small_kernel_stacks)
              count_calls
              0
              true
              i
              fresh,
          some (stack_end 0 true i),
        )))
unfolding bit_function
make_kernel_stack_lem_example =
    make_kernel_stack_lem (bit_function n_large_kernel_stacks) (bit_function n_small_kernel_stacks)
      count_calls 0 true fresh

init_guards_lem_example :
    (get_elem? (init_guards 0) 17 ≡ some 0x16_2000)
    × (get_elem? (init_guards 0) 18 ≡ some 0x16_4000)
    × (0x10_2000 ≤ 0x16_4000)
    × (0x16_5000 ≤ 0x1a_1000)
init_guards_lem_example = init_guards_lem 0 true 1 (omega arith)
