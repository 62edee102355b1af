-- ===== src/Serial/Machine.antt =====
-- Printing while interrupts come in whose handlers print too (src/serial.rs), as a step relation.
use titanium.Base.{
  ℕ, ◌≡◌, refl, sym, ap, ◌∙◌, Bool, true, false, none, some, List, [], ◌∷◌, ◌++◌, if◌then◌else◌,
  Bool-cases, inl, inr, arith,
}
use mathlib.Core.List.{append-nil, append_assoc}
use titanium.Serial.{Port, print_begin, write_char, write_fmt, print_end, print, debug_dot}

-- What the interrupted code is doing: something else, or printing, with the bytes that are left and
-- `reenable`.
pub data Context : Type 0 where
  elsewhere : Context
  printing : List ℕ → Bool → Context

-- The messages so far, in the order in which they were begun, are kept beside the port.
pub record Machine : Type 0 where
  pub port : Port
  pub context : Context
  pub messages : List (List ℕ)

abbrev pub left : Context → List ℕ
left elsewhere = []
left (printing args reenable) = args

abbrev pub join : List (List ℕ) → List ℕ
join [] = []
join (m ∷ ms) = m ++ join ms

-- The port as an interrupt's handler finds it, and as the code goes on after the handler.
abbrev pub entered : Port → Port
entered s = record s { interrupts = false }

abbrev pub returned : Port → Port
returned s = record s { interrupts = true }

-- The code prints byte by byte, or switches interrupts on and off while it does not print; a handler
-- runs only where interrupts are on.
pub data Step : Machine → Machine → Type 0 where
  begin :
      {s : Port} {ms : List (List ℕ)} (args : List ℕ) (reenable : Bool) (s' : Port)
      → print_begin s ≡ some (reenable, s')
      → Step
          (record { port = s; context = elsewhere; messages = ms })
          (record { port = s'; context = printing args reenable; messages = ms ++ args ∷ [] })
  write :
      {s : Port} {ms : List (List ℕ)} (c : ℕ) (args : List ℕ) (reenable : Bool)
      → Step
          (record { port = s; context = printing (c ∷ args) reenable; messages = ms })
          (record { port = write_char c s; context = printing args reenable; messages = ms })
  finish :
      {s : Port} {ms : List (List ℕ)} (reenable : Bool)
      → Step
          (record { port = s; context = printing [] reenable; messages = ms })
          (record { port = print_end reenable s; context = elsewhere; messages = ms })
  set_interrupts :
      {s : Port} {ms : List (List ℕ)} (on : Bool)
      → Step
          (record { port = s; context = elsewhere; messages = ms })
          (record { port = record s { interrupts = on }; context = elsewhere; messages = ms })
  handler_prints :
      {m : Machine} (args : List ℕ) (s' : Port)
      → m.port.interrupts ≡ true
      → print args (entered m.port) ≡ some s'
      → Step m (record m { port = returned s'; messages = m.messages ++ args ∷ [] })
  handler_dots :
      {m : Machine}
      → m.port.interrupts ≡ true
      → Step m (record m {
        port = returned (debug_dot (entered m.port));
        messages = m.messages ++ (46 ∷ []) ∷ [];
      })

pub data Reach : Machine → Machine → Type 0 where
  here : {m : Machine} → Reach m m
  next : {m n o : Machine} → Reach m n → Step n o → Reach m o

-- While the code prints, it has the lock and interrupts are off.
pub record IsWhole (m : Machine) : Type 0 where
  pub complete : m.port.written ++ left m.context ≡ join m.messages
  pub locks :
      (args : List ℕ) (reenable : Bool)
      → m.context ≡ printing args reenable
      → (m.port.interrupts ≡ false) × (m.port.locked ≡ true)
  pub free : m.context ≡ elsewhere → m.port.locked ≡ false

pub join-append : (ms : List (List ℕ)) (m : List ℕ) → join (ms ++ m ∷ []) ≡ join ms ++ m
join-append [] m = append-nil m
join-append (a ∷ ms) m = ap (λ l. a ++ l) (join-append ms m) ∙ sym (append_assoc a (join ms) m)

write_fmt_lem :
    (args : List ℕ) (s : Port) → write_fmt args s ≡ record s { written = s.written ++ args }
unfolding write_fmt
write_fmt_lem [] s = ap (λ l. record s { written = l }) (sym (append-nil s.written))
write_fmt_lem (c ∷ args) s =
    write_fmt_lem args (write_char c s)
    ∙ ap (λ l. record s { written = l }) (append_assoc s.written (c ∷ []) args)

-- A call with the lock free prints the message and restores the flag; with the lock held it hangs.
pub print_lem :
    (args : List ℕ) (s : Port)
    → print args s ≡ (if s.locked then none else some (record s { written = s.written ++ args }))
unfolding print print_begin print_end
print_lem args s = elim (Bool-cases s.locked) [
  | inl e ↦ rw e refl
  | inr e ↦ elim (Bool-cases s.interrupts) [
    | inl on ↦ rw (e, on, write_fmt_lem args (record s { interrupts = false; locked = true })) refl
    | inr off ↦
        rw (e, off, write_fmt_lem args (record s { interrupts = false; locked = true })) refl
  ]
]

pub elsewhere-printing : (args : List ℕ) (reenable : Bool) → elsewhere ≡ printing args reenable → ⊥
elsewhere-printing args reenable e = cc

pub print_begin_lem :
    (s s' : Port) (reenable : Bool)
    → print_begin s ≡ some (reenable, s')
    → (s'.written ≡ s.written) × (s'.interrupts ≡ false) × (s'.locked ≡ true)
unfolding print_begin
print_begin_lem s s' reenable e = ground arith

pub print_end_lem :
    (reenable : Bool) (s : Port)
    → ((print_end reenable s).written ≡ s.written) × ((print_end reenable s).locked ≡ false)
unfolding print_end
print_end_lem true s = (refl, refl)
print_end_lem false s = (refl, refl)
