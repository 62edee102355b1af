-- ===== src/Cpu.antt =====
-- The part of the x86-64 instruction set that the assembly blocks of src/scheduler.rs,
-- src/idt.rs and src/hdint.rs use, so that each block is a list of instructions, one for each line of
-- the source.
mod Words
pub use Words.*
use titanium.Base.{
  ℕ, zero, suc, ◌+◌, ◌-◌, ◌*◌, ◌/◌, ◌%◌, ◌^◌, ◌≡◌, Bool, true, false, List, [], ◌∷◌,
}
use titanium.Base.{◌==◌, if◌then◌else◌}

pub data Reg : Type 0 where
  rax rbx rcx rdx rsi rdi rbp r8 r9 r10 r11 r12 r13 r14 r15 : Reg

abbrev pub reg_index : Reg → ℕ
reg_index rax = 0
reg_index rbx = 1
reg_index rcx = 2
reg_index rdx = 3
reg_index rsi = 4
reg_index rdi = 5
reg_index rbp = 6
reg_index r8 = 7
reg_index r9 = 8
reg_index r10 = 9
reg_index r11 = 10
reg_index r12 = 11
reg_index r13 = 12
reg_index r14 = 13
reg_index r15 = 14

pub record Cpu : Type 0 where
  pub regs : Reg → ℕ
  pub stack : Stack
  pub rflags : ℕ
  pub rip : ℕ

abbrev pub set_reg : Cpu → Reg → ℕ → Cpu
set_reg c r x = record c { regs = λ s. if reg_index r == reg_index s then x else c.regs s }

-- Bit 9 of `rflags` lets interrupts in.
abbrev pub interrupts_on : ℕ → ℕ
interrupts_on flags = flags + 512 * (1 - flags / 512 % 2)

abbrev pub interrupts_off : ℕ → ℕ
interrupts_off flags = flags - 512 * (flags / 512 % 2)

pub data Instr : Type 0 where
  cli sti pushfq popfq iretq : Instr
  push pop : Reg → Instr
  push_imm : ℕ → Instr
  -- `mov r, imm` and `lea r, label`
  mov_imm : Reg → ℕ → Instr
  mov_rsp : Reg → Instr
  mov_to_rsp : Reg → Instr
  load_rsp : ℕ → Instr
  -- `mov r, [a]` and `mov [a], r`
  load : Reg → ℕ → Instr
  store : ℕ → Reg → Instr
  -- `add r, r'`, `add r, imm` and `and byte ptr [a], !1`, with the flags that they leave
  add : (ℕ → ℕ) → Reg → Reg → Instr
  add_imm : (ℕ → ℕ) → Reg → ℕ → Instr
  and_byte_not_1 : (ℕ → ℕ) → ℕ → Instr
  -- A call of a function, which runs to its return, with the return address
  call : ℕ → (Cpu → Cpu) → Instr

abbrev pub iret : Cpu → Cpu
iret c =
    let s0 = c.stack in
    let s1 = popped s0 in
    let s2 = popped s1 in
    let s3 = popped s2 in
    record c { rip = top s0; rflags = top s2; stack = record { rsp = top s3; mem = s0.mem } }

abbrev pub write_mem : (ℕ → ℕ) → ℕ → ℕ → ℕ → ℕ
write_mem mem b x a = if a == b then x else mem a

abbrev pub exec : Instr → Cpu → Cpu
exec cli c = record c { rflags = interrupts_off c.rflags }
exec sti c = record c { rflags = interrupts_on c.rflags }
exec pushfq c = record c { stack = pushed c.rflags c.stack }
exec popfq c = record c { rflags = top c.stack; stack = popped c.stack }
exec iretq c = iret c
exec (push r) c = record c { stack = pushed (c.regs r) c.stack }
exec (pop r) c = set_reg (record c { stack = popped c.stack }) r (top c.stack)
exec (push_imm x) c = record c { stack = pushed x c.stack }
exec (mov_imm r x) c = set_reg c r x
exec (mov_rsp r) c = set_reg c r c.stack.rsp
exec (mov_to_rsp r) c = record c { stack = record { rsp = c.regs r; mem = c.stack.mem } }
exec (load_rsp x) c = record c { stack = record { rsp = x; mem = c.stack.mem } }
exec (load r a) c = set_reg c r (c.stack.mem a)
exec (store a r) c = record c {
  stack = record { rsp = c.stack.rsp; mem = write_mem c.stack.mem a (c.regs r) };
}
exec (add left r s) c =
    set_reg (record c { rflags = left c.rflags }) r ((c.regs r + c.regs s) % 2 ^ 64)
exec (add_imm left r x) c =
    set_reg (record c { rflags = left c.rflags }) r ((c.regs r + x) % 2 ^ 64)
exec (and_byte_not_1 left a) c =
    let old = c.stack.mem a in
    record c {
      rflags = left c.rflags;
      stack = record { rsp = c.stack.rsp; mem = write_mem c.stack.mem a (old - old % 2) };
    }
exec (call back f) c = f (record c { stack = pushed back c.stack })

abbrev pub run : List Instr → Cpu → Cpu
run [] c = c
run (i ∷ is) c = run is (exec i c)

-- Registers that agree one by one.
pub Reg-same :
    (f g : Reg → ℕ)
    → f rax ≡ g rax
    → f rbx ≡ g rbx
    → f rcx ≡ g rcx
    → f rdx ≡ g rdx
    → f rsi ≡ g rsi
    → f rdi ≡ g rdi
    → f rbp ≡ g rbp
    → f r8 ≡ g r8
    → f r9 ≡ g r9
    → f r10 ≡ g r10
    → f r11 ≡ g r11
    → f r12 ≡ g r12
    → f r13 ≡ g r13
    → f r14 ≡ g r14
    → f r15 ≡ g r15
    → (r : Reg) → f r ≡ g r
Reg-same f g e _ _ _ _ _ _ _ _ _ _ _ _ _ _ rax = e
Reg-same f g _ e _ _ _ _ _ _ _ _ _ _ _ _ _ rbx = e
Reg-same f g _ _ e _ _ _ _ _ _ _ _ _ _ _ _ rcx = e
Reg-same f g _ _ _ e _ _ _ _ _ _ _ _ _ _ _ rdx = e
Reg-same f g _ _ _ _ e _ _ _ _ _ _ _ _ _ _ rsi = e
Reg-same f g _ _ _ _ _ e _ _ _ _ _ _ _ _ _ rdi = e
Reg-same f g _ _ _ _ _ _ e _ _ _ _ _ _ _ _ rbp = e
Reg-same f g _ _ _ _ _ _ _ e _ _ _ _ _ _ _ r8 = e
Reg-same f g _ _ _ _ _ _ _ _ e _ _ _ _ _ _ r9 = e
Reg-same f g _ _ _ _ _ _ _ _ _ e _ _ _ _ _ r10 = e
Reg-same f g _ _ _ _ _ _ _ _ _ _ e _ _ _ _ r11 = e
Reg-same f g _ _ _ _ _ _ _ _ _ _ _ e _ _ _ r12 = e
Reg-same f g _ _ _ _ _ _ _ _ _ _ _ _ e _ _ r13 = e
Reg-same f g _ _ _ _ _ _ _ _ _ _ _ _ _ e _ r14 = e
Reg-same f g _ _ _ _ _ _ _ _ _ _ _ _ _ _ e r15 = e
