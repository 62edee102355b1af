-- ===== src/Stack/Apart.antt =====
-- No two kernel stacks touch: each has a guard page below and above, and none is handed out twice.
use titanium.Base.{ℕ, ◌+◌, ◌-◌, ◌≤◌, ◌<◌, ◌≡◌, refl, sym, ap, ◌∙◌, subst, ◌≢◌, ◌⊎◌, inl, inr}
use titanium.Base.{Bool, true, false, Option, none, some, arith, Option-cases}
use titanium.Base.{==_refl}
use titanium.Bitvec.{BitArray, IsFirstOne}
use titanium.Vmem.{
  page_size, n_large_kernel_stacks, n_small_kernel_stacks, large_kernel_stack_size,
  small_kernel_stack_size,
}
use titanium.Stack.Manager.{
  StackManager, small_end, large_end, map_small_stack, map_large_stack, make_kernel_stack,
}
use mathlib.Core.Option

-- By whether a stack is small: the size, the number of stacks and the top of each.
abbrev pub stack_size : Bool → ℕ
stack_size true = small_kernel_stack_size
stack_size false = large_kernel_stack_size

abbrev pub n_stacks : Bool → ℕ
n_stacks true = n_small_kernel_stacks
n_stacks false = n_large_kernel_stacks

abbrev pub stack_end : ℕ → Bool → ℕ → ℕ
stack_end hhdm true index = small_end hhdm index
stack_end hhdm false index = large_end hhdm index

-- A page lies between the two stacks.
abbrev pub Apart : Bool → ℕ → Bool → ℕ → Type 0
Apart k e k' e' = (e + page_size + stack_size k' ≤ e') ⊎ (e' + page_size + stack_size k ≤ e)

stack_end-Apart :
    (hhdm : ℕ) (k k' : Bool) (i i' : ℕ)
    → i < n_stacks k
    → i' < n_stacks k'
    → (k ≢ k') ⊎ (i ≢ i')
    → Apart k (stack_end hhdm k i) k' (stack_end hhdm k' i')
stack_end-Apart hhdm true true i i' h h' (inl differ) = absurd (differ refl)
stack_end-Apart hhdm true true i i' h h' (inr differ) = omega arith
stack_end-Apart hhdm false false i i' h h' (inl differ) = absurd (differ refl)
stack_end-Apart hhdm false false i i' h h' (inr differ) = omega arith
stack_end-Apart hhdm true false i i' h h' differ = omega arith
stack_end-Apart hhdm false true i i' h h' differ = omega arith

true_ne_false : true ≢ false
true_ne_false e = cc

-- The search of a bit array from its start.
first_one-cases :
    {n : ℕ} {B : Type 0} (v : BitArray n B) (b : B)
    → ((v.first_one b 0 ≡ none) × ((i : ℕ) → i < n → v.get b i ≡ false))
      ⊎ ((i : ℕ) × (v.first_one b 0 ≡ some i)
          × (i < n)
          × (v.get b i ≡ true)
          × ((j : ℕ) → j < i → v.get b j ≡ false))
first_one-cases {n} v b = elim (Option-cases (v.first_one b 0)) [
  | inl e ↦
      let all = subst (IsFirstOne (v.get b) 0 n) e (v.first_one_lem b 0 (omega arith)) in
      inl (e, λ i h. all i (omega arith) h)
  | inr (i, e) ↦
      let found = subst (IsFirstOne (v.get b) 0 n) e (v.first_one_lem b 0 (omega arith)) in
      let same : 0 + i ≡ i = omega arith in
      inr (
        i,
        e,
        omega (arith, found.0),
        subst (λ j. v.get b j ≡ true) same found.1,
        λ j h. found.2 j (omega arith) (omega arith),
      )
]

module _ {L S M : Type 0} (large : BitArray n_large_kernel_stacks L)
    (small : BitArray n_small_kernel_stacks S) (page_region : M → ℕ → ℕ → M) (hhdm : ℕ) where
  abbrev pub make : Bool → StackManager L S M → StackManager L S M × Option ℕ
  make = make_kernel_stack large small page_region hhdm

  abbrev pub is_free : Bool → StackManager L S M → ℕ → Bool
  is_free true st i = small.get st.kernel_small_stacks i
  is_free false st i = large.get st.kernel_large_stacks i

  -- The manager once stack `i` is handed out.
  abbrev pub taken : Bool → ℕ → StackManager L S M → StackManager L S M
  taken true i st = record st {
    kernel_small_stacks = small.set st.kernel_small_stacks i false;
    mapper = page_region st.mapper (small_end hhdm i - small_kernel_stack_size) (small_end hhdm i);
    interrupts = true;
  }
  taken false i st = record st {
    kernel_large_stacks = large.set st.kernel_large_stacks i false;
    mapper = page_region st.mapper (large_end hhdm i - large_kernel_stack_size) (large_end hhdm i);
    interrupts = true;
  }

  -- A request takes the first free stack of its kind, maps its pages, and returns its top with
  -- interrupts on. Where no stack of the kind is free, the request fails, and interrupts stay off.
  pub make_kernel_stack_lem :
      (k : Bool) (st : StackManager L S M)
      → (((i : ℕ) → i < n_stacks k → is_free k st i ≡ false)
          × (make k st ≡ (record st { interrupts = false }, none)))
        ⊎ ((i : ℕ) × (i < n_stacks k)
            × (is_free k st i ≡ true)
            × ((j : ℕ) → j < i → is_free k st j ≡ false)
            × (make k st ≡ (taken k i st, some (stack_end hhdm k i))))
  unfolding make_kernel_stack map_small_stack map_large_stack
  make_kernel_stack_lem true st = elim (first_one-cases small st.kernel_small_stacks) [
    | inl (e, all) ↦ inl (all, rw (e, map_small_stack) refl)
    | inr (i, e, bound, free, before) ↦ inr (i, bound, free, before, rw (e, map_small_stack) refl)
  ]
  make_kernel_stack_lem false st = elim (first_one-cases large st.kernel_large_stacks) [
    | inl (e, all) ↦ inl (all, rw (e, map_large_stack) refl)
    | inr (i, e, bound, free, before) ↦ inr (i, bound, free, before, rw (e, map_large_stack) refl)
  ]

  -- A stack that is handed out is never free again, whatever requests follow.
  pub data Later : StackManager L S M → StackManager L S M → Type 0 where
    now : (st : StackManager L S M) → Later st st
    request : {st st' : StackManager L S M} (k : Bool) → Later (make k st).0 st' → Later st st'

  taken-is_free :
      (k k' : Bool) (i j : ℕ) (st : StackManager L S M)
      → i < n_stacks k
      → is_free k' st j ≡ false
      → is_free k' (taken k i st) j ≡ false
  taken-is_free true true i j st h e =
      ground (arith, small.get-set st.kernel_small_stacks i false j)
  taken-is_free false false i j st h e =
      ground (arith, large.get-set st.kernel_large_stacks i false j)
  taken-is_free true false i j st h e = e
  taken-is_free false true i j st h e = e

  taken-is_free_self :
      (k : Bool) (i : ℕ) (st : StackManager L S M)
      → i < n_stacks k
      → is_free k (taken k i st) i ≡ false
  taken-is_free_self true i st h =
      small.get-set st.kernel_small_stacks i false i h ∙ rw (==_refl i) refl
  taken-is_free_self false i st h =
      large.get-set st.kernel_large_stacks i false i h ∙ rw (==_refl i) refl

  make-is_free :
      (k k' : Bool) (j : ℕ) (st : StackManager L S M)
      → is_free k' st j ≡ false
      → is_free k' (make k st).0 j ≡ false
  make-is_free k k' j st e = elim (make_kernel_stack_lem k st) [
    | inl (_, out) ↦ rw out (
        elim k'
            as (λ c.
              is_free c st j ≡ false → is_free c (record st { interrupts = false }) j ≡ false) [
                | true ↦ λ h. h
                | false ↦ λ h. h
              ]
          e)
    | inr (i, h, _, _, out) ↦ rw out (taken-is_free k k' i j st h e)
  ]

  Later-is_free :
      {st st' : StackManager L S M} (k : Bool) (j : ℕ)
      → Later st st'
      → is_free k st j ≡ false
      → is_free k st' j ≡ false
  Later-is_free k j (now st) e = e
  Later-is_free k j (request {st} k' rest) e = Later-is_free k j rest (make-is_free k' k j st e)

  -- A request that returned a stack took a free one.
  made :
      (k : Bool) (e : ℕ) (st : StackManager L S M)
      → (make k st).1 ≡ some e
      → (i : ℕ) × (i < n_stacks k)
        × (is_free k st i ≡ true)
        × (is_free k (make k st).0 i ≡ false)
        × (stack_end hhdm k i ≡ e)
  made k e st out = elim (make_kernel_stack_lem k st) [
    | inl (_, failed) ↦ absurd (Option.none-ne-some e (sym (ap (λ r. r.1) failed) ∙ out))
    | inr (i, h, free, _, done) ↦ (
      i,
      h,
      free,
      ap (λ r. is_free k r.0 i) done ∙ taken-is_free_self k i st h,
      Option.some-injective (stack_end hhdm k i) e (sym (ap (λ r. r.1) done) ∙ out),
    )
  ]

  -- Stacks whose bits differ are not the same.
  differ :
      (k k' : Bool) (i i' : ℕ) (st : StackManager L S M)
      → is_free k st i ≡ false
      → is_free k' st i' ≡ true
      → (k ≢ k') ⊎ (i ≢ i')
  differ true true i i' st gone free =
      inr (λ e. true_ne_false (sym free ∙ subst (λ j. is_free true st j ≡ false) e gone))
  differ false false i i' st gone free =
      inr (λ e. true_ne_false (sym free ∙ subst (λ j. is_free false st j ≡ false) e gone))
  differ true false i i' st gone free = inl true_ne_false
  differ false true i i' st gone free = inl (λ e. true_ne_false (sym e))

  -- Two requests that succeed, with any requests between them, return stacks with a page between
  -- them.
  pub make_kernel_stack-Apart :
      (k k' : Bool) (e e' : ℕ) (st st' : StackManager L S M)
      → (make k st).1 ≡ some e
      → Later (make k st).0 st'
      → (make k' st').1 ≡ some e'
      → Apart k e k' e'
  make_kernel_stack-Apart k k' e e' st st' first between second =
      let (i, h, _, gone, at) = made k e st first in
      let (i', h', free, _, at') = made k' e' st' second in
      subst (λ a. Apart k a k' e') at
        (subst (λ a. Apart k (stack_end hhdm k i) k' a) at'
          (stack_end-Apart hhdm k k' i i' h h'
            (differ k k' i i' st' (Later-is_free k i between gone) free)))
