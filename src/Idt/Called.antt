-- ===== src/Idt/Called.antt =====
-- What the functions behind the wrappers of src/idt.rs are called with, and what they return to.
use titanium.Base.{ℕ, ◌+◌, ◌-◌, ◌*◌, ◌/◌, ◌%◌, ◌≤◌, ◌<◌, ◌≡◌, refl, ◌∙◌, sym, subst}
use titanium.Base.{List, [], ◌∷◌, length, arith, ==_refl}
use titanium.Cpu.{
  Cpu, Stack, rax, rbx, rsi, rdi, rbp, r12, r13, r14, r15, set_reg, popped, pushed, rsp-pushed,
  WordsAt, WordsAt-store-Beside, Beside, Holds-pushed_all, Holds-pushed,
}
use titanium.Idt.Wrappers.{
  enter, enter_with_ec, stack_frame, IsFunction, handler, handler_from_lapic, handler_with_ec,
}
use titanium.Idt.Returns.{entry_words, aligned}

-- The frame is as it was where a function left these bytes alone.
WordsAt-kept :
    (m m' : ℕ → ℕ) (lo hi a : ℕ) (xs : List ℕ)
    → ((d : ℕ) → lo ≤ d → d < hi → m' d ≡ m d)
    → lo ≤ a
    → a + 8 * length xs ≤ hi
    → WordsAt m a xs
    → WordsAt m' a xs
WordsAt-kept m m' lo hi a [] same low high w = tt
WordsAt-kept m m' lo hi a (x ∷ xs) same low high w = (
  same a low (omega arith) ∙ w.0,
  WordsAt-kept m m' lo hi (a + 8) xs same (omega arith) (omega arith) w.1,
)

-- The state in which a wrapper calls its function.
abbrev pub called : ℕ → Cpu → Cpu
called back c = let c' = set_reg c rdi c.stack.rsp in record c' { stack = pushed back c'.stack }

-- The stack pointer under the frame.
enter-rsp : (h : ℕ) (c : Cpu) → (enter h c).stack.rsp ≡ c.stack.rsp / 16 * 16 - 40
enter-rsp h c = omega (arith, rsp-pushed)

enter-frame :
    (h : ℕ) (c : Cpu)
    → 64 ≤ c.stack.rsp
    → WordsAt (enter h c).stack.mem (enter h c).stack.rsp (stack_frame c)
enter-frame h c room = Holds-pushed_all (entry_words c) (aligned c) [] (omega arith) tt

pushed-up : (x : ℕ) (s : Stack) → 8 ≤ s.rsp → (pushed x s).rsp + 8 ≡ s.rsp
pushed-up x s room = omega (arith, rsp-pushed)

-- A function is called with the address of the words on top of the stack, and returns to them.
called-words :
    (back : ℕ) (c : Cpu) (xs : List ℕ)
    → 8 ≤ c.stack.rsp
    → WordsAt c.stack.mem c.stack.rsp xs
    → WordsAt (called back c).stack.mem ((called back c).regs rdi) xs
called-words back c xs room w =
    subst (λ a. WordsAt (pushed back c.stack).mem a xs) (pushed-up back c.stack room)
      (Holds-pushed back c.stack xs room w).1

called-back :
    (back : ℕ) (f : Cpu → Cpu) (c : Cpu) (xs : List ℕ)
    → 8 ≤ c.stack.rsp
    → length xs ≤ 5
    → IsFunction f
    → WordsAt c.stack.mem c.stack.rsp xs
    → let after = f (called back c) in
      (after.stack.rsp ≡ c.stack.rsp) × WordsAt after.stack.mem after.stack.rsp xs
called-back back f c xs room short function w =
    let at = called back c in
    let up = pushed-up back c.stack room in
    let (rsp, _, _, _, _, _, _, mem) = function at in
    (
      rsp ∙ up,
      WordsAt-kept at.stack.mem (f at).stack.mem (at.stack.rsp + 8) (at.stack.rsp + 48)
          (f at).stack.rsp xs mem (omega (arith, rsp)) (omega (arith, rsp))
          (subst (λ a. WordsAt at.stack.mem a xs) (sym (rsp ∙ up)) (called-words back c xs room w)),
    )

-- The place, the stack pointer, the flags and the registers that a function keeps.
abbrev pub IsBackBut : Cpu → Cpu → Type 0
IsBackBut c back =
    (back.rip ≡ c.rip)
    × (back.stack.rsp ≡ c.stack.rsp)
    × (back.rflags ≡ c.rflags)
    × (back.regs rbx ≡ c.regs rbx)
    × (back.regs rbp ≡ c.regs rbp)
    × (back.regs r12 ≡ c.regs r12)
    × (back.regs r13 ≡ c.regs r13)
    × (back.regs r14 ≡ c.regs r14)
    × (back.regs r15 ≡ c.regs r15)

-- With 64 bytes of stack, `handler!` hands its function the address of the interrupt's stack frame,
-- on a stack pointer that 16 divides, and a function that keeps the calling convention returns to
-- the interrupted code with its stack pointer, its flags and the registers that a function keeps;
-- any other register is as the function left it.
pub handler_lem :
    (h back : ℕ) (f : Cpu → Cpu) (c : Cpu)
    → 64 ≤ c.stack.rsp
    → IsFunction f
    → let at = called back (enter h c) in
      let end = handler back f (enter h c) in
      WordsAt at.stack.mem (at.regs rdi) (stack_frame c)
      × (at.stack.rsp % 16 ≡ 0)
      × IsBackBut c end
      × (end.regs rdi ≡ (f at).regs rdi)
unfolding handler
handler_lem h back f c room function =
    let entered = enter h c in
    let space : 8 ≤ entered.stack.rsp = omega (arith, enter-rsp h c) in
    let w = enter-frame h c room in
    let (_, rbxs, rbps, r12s, r13s, r14s, r15s, _) = function (called back entered) in
    let (rsp, frame) = called-back back f entered (stack_frame c) space (omega arith) function w in
    (
      called-words back entered (stack_frame c) space w,
      omega (arith, enter-rsp h c, pushed-up back entered.stack space),
      (frame.0, frame.1.1.1.0, frame.1.1.0, rbxs, rbps, r12s, r13s, r14s, r15s),
      refl,
    )

-- The same of `handler_from_lapic!`, with the interrupt controller's word beside the frame: it also
-- signals the end of the interrupt, and the interrupted code finds 0 in `rax`.
pub handler_from_lapic_lem :
    (h eoi back : ℕ) (f : Cpu → Cpu) (c : Cpu)
    → 64 ≤ c.stack.rsp
    → Beside (c.stack.rsp - 64) c.stack.rsp eoi
    → IsFunction f
    → let at = called back (enter h c) in
      let end = handler_from_lapic eoi back f (enter h c) in
      WordsAt at.stack.mem (at.regs rdi) (stack_frame c)
      × (at.stack.rsp % 16 ≡ 0)
      × IsBackBut c end
      × (end.stack.mem eoi ≡ 0)
      × (end.regs rax ≡ 0)
unfolding handler_from_lapic
handler_from_lapic_lem h eoi back f c room beside function =
    let entered = enter h c in
    let space : 8 ≤ entered.stack.rsp = omega (arith, enter-rsp h c) in
    let w = enter-frame h c room in
    let after = f (called back entered) in
    let (_, rbxs, rbps, r12s, r13s, r14s, r15s, _) = function (called back entered) in
    let (rsp, kept) = called-back back f entered (stack_frame c) space (omega arith) function w in
    let frame =
      WordsAt-store-Beside after.stack.mem (c.stack.rsp - 64) c.stack.rsp after.stack.rsp eoi 0
        (stack_frame c) beside (omega (arith, rsp, enter-rsp h c))
        (omega (arith, rsp, enter-rsp h c)) kept in
    (
      called-words back entered (stack_frame c) space w,
      omega (arith, enter-rsp h c, pushed-up back entered.stack space),
      (frame.0, frame.1.1.1.0, frame.1.1.0, rbxs, rbps, r12s, r13s, r14s, r15s),
      rw (==_refl eoi) refl,
      refl,
    )

-- For an exception with an error code, with 64 bytes of stack, `handler_with_ec!` calls its function
-- with the address of the stack frame and the error code.
pub handler_with_ec_lem :
    (h ec back : ℕ) (f : Cpu → Cpu) (c : Cpu)
    → 64 ≤ c.stack.rsp
    → (at : Cpu) × (handler_with_ec back f (enter_with_ec h ec c) ≡ f at)
      × (at.regs rsi ≡ ec)
      × WordsAt at.stack.mem (at.regs rdi) (stack_frame c)
unfolding handler_with_ec
handler_with_ec_lem h ec back f c room =
    let s = (enter_with_ec h ec c).stack in
    let c' : Cpu = set_reg (record (enter_with_ec h ec c) { stack = popped s }) rsi (s.mem s.rsp) in
    let w =
      Holds-pushed ec (enter h c).stack (stack_frame c) (omega (arith, enter-rsp h c))
        (enter-frame h c room) in
    (called back c', refl, w.0, called-words back c' (stack_frame c) (omega arith) w.1)
