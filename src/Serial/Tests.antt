-- ===== src/Serial/Tests.antt =====
-- A message of two bytes, a dot of the timer behind it, and a second message that is half out.
use titanium.Base.{ℕ, ◌≡◌, refl, ◌++◌, true, false, none, some, [], ◌∷◌, List, ◌⊎◌}
use titanium.Serial.{Port, print, print_begin, print_end, write_fmt, debug_dot}
use titanium.Serial.Whole.{started, Reach-Whole}
use titanium.Serial.Machine.{
  Machine, elsewhere, printing, Reach, here, next, begin, write, finish, handler_dots, left, join,
  entered,
}

abbrev taken : List ℕ → Port
taken l = record { interrupts = false; locked = true; written = l }

abbrev idle : List ℕ → Port
idle l = record { interrupts = true; locked = false; written = l }

abbrev half : Machine
half = record {
  port = taken (72 ∷ 105 ∷ 46 ∷ 72 ∷ []);
  context = printing (105 ∷ []) true;
  messages = (72 ∷ 105 ∷ []) ∷ (46 ∷ []) ∷ (72 ∷ 105 ∷ []) ∷ [];
}

half_way : Reach (started true) half
unfolding print_begin print_end debug_dot
half_way =
    next
      (next
        (next
          (next
            (next
              (next (next here (begin (72 ∷ 105 ∷ []) true (taken []) refl))
                (write 72 (105 ∷ []) true))
              (write 105 [] true))
            (finish true))
          (handler_dots refl))
        (begin (72 ∷ 105 ∷ []) true (taken (72 ∷ 105 ∷ 46 ∷ [])) refl))
      (write 72 (105 ∷ []) true)

Reach-Whole_example :
    (half.port.written ++ left half.context ≡ join half.messages)
    × (((half.context ≡ elsewhere)
          × (print (33 ∷ []) (entered half.port)
              ≡ some (record (entered half.port) { written = half.port.written ++ 33 ∷ [] })))
        ⊎ ((half.port.interrupts ≡ false) × (print (33 ∷ []) (entered half.port) ≡ none)))
Reach-Whole_example = Reach-Whole true half (33 ∷ []) half_way

first : print (72 ∷ []) (idle []) ≡ some (idle (72 ∷ []))
unfolding print print_begin print_end write_fmt
first = refl
