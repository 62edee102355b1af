-- ===== src/Stack/Guards.antt =====
-- Where the guard pages of `init` (src/stack.rs) stand in their list.
use titanium.Base.{ℕ, zero, suc, ◌+◌, ◌*◌, ◌<◌, ◌≡◌, ap, ◌∙◌, subst, inl, inr}
use titanium.Base.{some, arith, Bool-cases}
use titanium.Base.{List, [], get_elem?, ltb, ltb→lt}
use titanium.Vmem.{page_size, kernel_stack_space_bottom_offset}
use titanium.Stack.Manager.{guards_from, init_guards}

guards_from-get :
    (rounds stride cur i : ℕ) (above : List ℕ)
    → i < rounds
    → get_elem? (guards_from rounds stride cur above) i ≡ some (cur + i * (stride * page_size))
unfolding guards_from
guards_from-get zero stride cur i above h = absurd (omega arith)
guards_from-get (suc rounds) stride cur zero above h = ap some (omega arith)
guards_from-get (suc rounds) stride cur (suc i) above h =
    guards_from-get rounds stride (cur + stride * page_size) i above (omega arith)
    ∙ ap some (grind arith)

guards_from-after :
    (rounds stride cur j : ℕ) (above : List ℕ)
    → get_elem? (guards_from rounds stride cur above) (rounds + j) ≡ get_elem? above j
unfolding guards_from
guards_from-after zero stride cur j above =
    let same : 0 + j ≡ j = omega arith in ap (get_elem? above) same
guards_from-after (suc rounds) stride cur j above =
    let next : suc rounds + j ≡ suc (rounds + j) = omega arith in
    rw next (guards_from-after rounds stride (cur + stride * page_size) j above)

abbrev small_guards : ℕ → List ℕ
small_guards hhdm = guards_from 33 2 (hhdm + kernel_stack_space_bottom_offset + 0x6_0000) []

-- The guard pages by their positions: those below the large stacks, then those around the small.
pub init_guards-large :
    (hhdm i : ℕ)
    → i < 17
    → get_elem? (init_guards hhdm) i ≡ some (hhdm + kernel_stack_space_bottom_offset + i * 0x6000)
unfolding init_guards guards_from
init_guards-large hhdm i h = elim (Bool-cases (ltb i 16)) [
  | inl below ↦
      guards_from-get 16 6 (hhdm + kernel_stack_space_bottom_offset) i (small_guards hhdm)
        (ltb→lt i 16 below)
  | inr past ↦
      let last : 16 ≡ i = ground arith in
      subst
        (λ n.
          get_elem? (init_guards hhdm) n
          ≡ some (hhdm + kernel_stack_space_bottom_offset + n * 0x6000))
        last
        (guards_from-after 16 6 (hhdm + kernel_stack_space_bottom_offset) 0 (small_guards hhdm)
          ∙ ap some {x = hhdm + kernel_stack_space_bottom_offset + 0x6_0000} (omega arith))
]

pub init_guards-small :
    (hhdm j : ℕ)
    → j < 33
    → get_elem? (init_guards hhdm) (16 + j)
      ≡ some (hhdm + kernel_stack_space_bottom_offset + 0x6_0000 + j * 0x2000)
unfolding init_guards
init_guards-small hhdm j h =
    guards_from-after 16 6 (hhdm + kernel_stack_space_bottom_offset) j _
    ∙ guards_from-get 33 2 (hhdm + kernel_stack_space_bottom_offset + 0x6_0000) j [] h
