-- ===== src/Serial/Whole.antt =====
-- No handler waits for the lock of the serial port, and the messages come out whole.
use titanium.Base.{
  ℕ, ◌≡◌, refl, sym, ap, ◌∙◌, Bool, true, false, none, some, List, [], ◌∷◌, ◌++◌, if◌then◌else◌,
  inl, inr, ◌⊎◌, arith,
}
use mathlib.Core.List.{append-nil, append_assoc}
use titanium.Serial.{Port, print, debug_dot}
use titanium.Serial.Machine.{
  IsWhole, Context, Machine, Reach, Step, begin, elsewhere, elsewhere-printing, entered, finish,
  handler_dots, handler_prints, here, join, join-append, left, next, print_begin_lem, print_end_lem,
  print_lem, printing, returned, set_interrupts, write,
}

-- Interrupts are on only where the lock is free.
on-elsewhere : (m : Machine) → IsWhole m → m.port.interrupts ≡ true → m.context ≡ elsewhere
on-elsewhere m h on = context_of m.context refl
  where
    context_of : (c : Context) → m.context ≡ c → m.context ≡ elsewhere
    context_of elsewhere e = e
    context_of (printing args reenable) e = let off = (h.locks args reenable e).0 in absurd (cc)

on-free : (m : Machine) → IsWhole m → m.port.interrupts ≡ true → m.port.locked ≡ false
on-free m h on = h.free (on-elsewhere m h on)

print-some :
    (args : List ℕ) (s s' : Port)
    → s.locked ≡ false
    → print args s ≡ some s'
    → (s'.written ≡ s.written ++ args) × (s'.locked ≡ false)
print-some args s s' free e = ground (arith, print_lem args s)

debug_dot_lem :
    (s : Port)
    → s.locked ≡ false
    → ((debug_dot s).written ≡ s.written ++ 46 ∷ []) × ((debug_dot s).locked ≡ false)
unfolding debug_dot
debug_dot_lem s free = rw free (refl, refl)

-- A whole message more, by a handler.
appended :
    (m : Machine) (args : List ℕ) (s : Port)
    → IsWhole m
    → m.port.interrupts ≡ true
    → s.written ≡ m.port.written ++ args
    → s.locked ≡ false
    → IsWhole (record m { port = s; messages = m.messages ++ args ∷ [] })
appended m args s h on more free =
    let away = on-elsewhere m h on in
    let before : m.port.written ≡ join m.messages =
      sym (append-nil m.port.written)
      ∙ ap (λ c. m.port.written ++ left c) (sym away)
      ∙ h.complete in
    record {
      complete =
          ap (λ c. s.written ++ left c) away
          ∙ append-nil s.written
          ∙ more
          ∙ ap (λ l. l ++ args) before
          ∙ sym (join-append m.messages args);
      locks = λ a r e. absurd (elsewhere-printing a r (sym away ∙ e));
      free = λ e. free;
    }

Step-IsWhole : {m n : Machine} → Step m n → IsWhole m → IsWhole n
Step-IsWhole (begin {s} {ms} args reenable s' e) h =
    let (same, off, locked) = print_begin_lem s s' reenable e in
    record {
      complete =
          ap (λ l. l ++ args) (same ∙ sym (append-nil s.written) ∙ h.complete)
          ∙ sym (join-append ms args);
      locks = λ a r e'. (off, locked);
      free = λ e'. absurd (elsewhere-printing args reenable (sym e'));
    }
Step-IsWhole (write {s} {ms} c args reenable) h = record {
  complete = append_assoc s.written (c ∷ []) args ∙ h.complete;
  locks = λ a r e. h.locks (c ∷ args) reenable refl;
  free = λ e. absurd (elsewhere-printing args reenable (sym e));
}
Step-IsWhole (finish {s} {ms} reenable) h =
    let (same, free) = print_end_lem reenable s in
    record {
      complete = ap (λ l. l ++ []) same ∙ h.complete;
      locks = λ a r e. absurd (elsewhere-printing a r e);
      free = λ e. free;
    }
Step-IsWhole (set_interrupts {s} {ms} on) h = record {
  complete = h.complete;
  locks = λ a r e. absurd (elsewhere-printing a r e);
  free = h.free;
}
Step-IsWhole (handler_prints {m} args s' on e) h =
    let (same, free) = print-some args (entered m.port) s' (on-free m h on) e in
    appended m args (returned s') h on same free
Step-IsWhole (handler_dots {m} on) h =
    let (same, free) = debug_dot_lem (entered m.port) (on-free m h on) in
    appended m (46 ∷ []) (returned (debug_dot (entered m.port))) h on same free

Reach-IsWhole : {m n : Machine} → Reach m n → IsWhole m → IsWhole n
Reach-IsWhole here h = h
Reach-IsWhole (next r st) h = Step-IsWhole st (Reach-IsWhole r h)

abbrev pub started : Bool → Machine
started interrupts = record {
  port = record { interrupts = interrupts; locked = false; written = [] };
  context = elsewhere;
  messages = [];
}

context-cases :
    (c : Context)
    → (c ≡ elsewhere) ⊎ ((args : List ℕ) × (reenable : Bool) × (c ≡ printing args reenable))
context-cases elsewhere = inl refl
context-cases (printing args reenable) = inr (args, reenable, refl)

-- While the code prints and handlers interrupt it, what the port was given, with what is left of a
-- message on the way, is always the messages one after the other, each in one piece. A handler that
-- prints returns wherever the code does not print; where it does, interrupts are off, and a handler
-- that comes all the same, as that of a fault does, hangs in its print.
pub Reach-Whole :
    (interrupts : Bool) (m : Machine) (args : List ℕ)
    → Reach (started interrupts) m
    → (m.port.written ++ left m.context ≡ join m.messages)
      × (((m.context ≡ elsewhere)
            × (print args (entered m.port)
                ≡ some (record (entered m.port) { written = m.port.written ++ args })))
          ⊎ ((m.port.interrupts ≡ false) × (print args (entered m.port) ≡ none)))
Reach-Whole interrupts m args r =
    let h = Reach-IsWhole r (record {
      complete = refl;
      locks = λ a b e. absurd (elsewhere-printing a b e);
      free = λ e. refl;
    }) in
    let printed : print args (entered m.port) ≡ (
        if m.port.locked
        then none
        else some (record (entered m.port) { written = m.port.written ++ args })) =
      print_lem args (entered m.port) in
    (
      h.complete,
      elim (context-cases m.context) [
        | inl away ↦ inl (
          away,
          printed
              ∙ ap
                  (λ b.
                    if b
                    then none
                    else some (record (entered m.port) { written = m.port.written ++ args }))
                  (h.free away),
        )
        | inr (a, b, e) ↦ inr (
          (h.locks a b e).0,
          printed
              ∙ ap
                  (λ t.
                    if t
                    then none
                    else some (record (entered m.port) { written = m.port.written ++ args }))
                  (h.locks a b e).1,
        )
      ],
    )
