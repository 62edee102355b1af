-- ===== src/Uacpi/Events.antt =====
-- Events for uACPI (uacpi.rs): a counter of 16 bits. `none` is a panic.
use titanium.Base.{ℕ, zero, suc, ◌+◌, ◌-◌, ◌%◌, ◌^◌, ◌<◌, ◌≡◌, refl, Bool, true}
use titanium.Base.{Option, none, some, List, [], ◌∷◌, ltb, check, ◌>>=◌, ◌>>◌, arith}

unfoldable pub create_event : ℕ
create_event = 0

-- `try_update` with `(v > 0).then(|| v - 1)`; the timeout is not read.
unfoldable pub wait_for_event : ℕ → ℕ → Option (Bool × ℕ)
wait_for_event timeout counter = do check (ltb 0 counter); some (true, counter - 1)

-- `fetch_add(1)` wraps around.
unfoldable pub signal_event : ℕ → ℕ
signal_event counter = (counter + 1) % 2 ^ 16

unfoldable pub reset_event : ℕ → ℕ
reset_event counter = 0

pub data EventCall : Type 0 where
  wait : ℕ → EventCall
  signal reset : EventCall

-- A sequence of calls on one event.
unfoldable pub run_events : List EventCall → ℕ → Option ℕ
run_events [] counter = some counter
run_events (wait timeout ∷ calls) counter =
    wait_for_event timeout counter >>= λ r. run_events calls r.1
run_events (signal ∷ calls) counter = run_events calls (signal_event counter)
run_events (reset ∷ calls) counter = run_events calls (reset_event counter)

-- The promise: a counter without bound that each signal raises and each wait lowers.
unfoldable pub run_semaphore : List EventCall → ℕ → Option ℕ
run_semaphore [] n = some n
run_semaphore (wait timeout ∷ calls) zero = none
run_semaphore (wait timeout ∷ calls) (suc n) = run_semaphore calls n
run_semaphore (signal ∷ calls) n = run_semaphore calls (suc n)
run_semaphore (reset ∷ calls) n = run_semaphore calls 0

abbrev pub signals : List EventCall → ℕ
signals [] = 0
signals (wait timeout ∷ calls) = signals calls
signals (signal ∷ calls) = suc (signals calls)
signals (reset ∷ calls) = signals calls

-- As long as the counter and the signals to come stay below 2 ^ 16, any sequence of calls does what
-- a counting semaphore without bound does, panics included.
pub run_events-semaphore :
    (calls : List EventCall) (n : ℕ)
    → n + signals calls < 2 ^ 16
    → run_events calls n ≡ run_semaphore calls n
unfolding run_events run_semaphore wait_for_event signal_event reset_event
run_events-semaphore [] n h = refl
run_events-semaphore (wait timeout ∷ calls) zero h = refl
run_events-semaphore (wait timeout ∷ calls) (suc n) h =
    let same : suc n - 1 ≡ n = omega arith in
    let some_left : ltb 0 (suc n) ≡ true = ground arith in
    rw (some_left, same) (run_events-semaphore calls n (omega arith))
run_events-semaphore (signal ∷ calls) n h =
    let whole : (n + 1) % 2 ^ 16 ≡ suc n = omega arith in
    rw whole (run_events-semaphore calls (suc n) (omega arith))
run_events-semaphore (reset ∷ calls) n h = run_events-semaphore calls 0 (omega arith)

-- The bound is tight: a signal to a counter of 2 ^ 16 - 1 loses all signals, and the next wait
-- panics.
pub signal_event-overflow :
    (timeout : ℕ) → wait_for_event timeout (signal_event (2 ^ 16 - 1)) ≡ none
unfolding wait_for_event signal_event
signal_event-overflow timeout = refl
