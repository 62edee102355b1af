-- ===== src/Hdint/Sleep.antt =====
-- How long `PIT::sleep_us` sleeps (hdint/pit.rs).
use titanium.Base.{ℕ, suc, ◌+◌, ◌-◌, ◌*◌, ◌/◌, ◌^◌, ◌≤◌, ◌<◌, ◌≡◌, refl, ap, ◌∙◌, subst}
use titanium.Base.{Option, none, some, List, [], ◌∷◌, ◌++◌}
use titanium.Base.{ltb, lt→ltb, le→ltb, ltb→lt, Bool-cases, arith, inl, inr, ◌⊎◌}
use titanium.Hdint.Devices.{Wake, pit, lapic_clk, other}
use titanium.Hdint.Pit.{
  pit_native_freq, pit_timer_rld, pit_interval, pit_interrupt, counted, counted_all, Round,
  after_round, sleep_from, sleep_us,
}

-- How many of the interrupts are the PIT's.
abbrev pub pits : List Wake → ℕ
pits [] = 0
pits (pit ∷ wakes) = suc (pits wakes)
pits (lapic_clk ∷ wakes) = pits wakes
pits (other ∷ wakes) = pits wakes

abbrev pub round_pits : Round → ℕ
round_pits (early, last) = pits early + pits (last ∷ [])

abbrev pub all_pits : List Round → ℕ
all_pits [] = 0
all_pits (r ∷ rounds) = round_pits r + all_pits rounds

-- The least number of intervals that make up `us` microseconds.
abbrev pub n_intervals : ℕ → ℕ
n_intervals us = (us * 2 ^ 24 + (pit_interval - 1)) / pit_interval

-- Before each of the rounds, fewer than `m` interrupts of the PIT had come.
abbrev pub Missing : ℕ → List Round → Type 0
Missing m [] = Unit
Missing m (r ∷ rounds) = (0 < m) × Missing (m - round_pits r) rounds

-- What a run comes to that still misses `m` interrupts and has counted `k`.
abbrev pub Sleeps : ℕ → ℕ → List Round → Option (ℕ × List Round) → Type 0
Sleeps m k rounds result =
    ((all_pits rounds < m) × (result ≡ none))
    ⊎ ((before after : List Round) × (rounds ≡ before ++ after)
        × (m ≤ all_pits before)
        × Missing m before
        × (result ≡ some ((k + all_pits before) * pit_interval, after)))

counted-intervals :
    (w : Wake) (k : ℕ)
    → (k + pits (w ∷ [])) * pit_interval < 2 ^ 64
    → counted w (k * pit_interval) ≡ (k + pits (w ∷ [])) * pit_interval
unfolding pit_interrupt
counted-intervals pit k fits = omega arith
counted-intervals lapic_clk k fits = omega arith
counted-intervals other k fits = omega arith

pits-front : (w : Wake) (ws : List Wake) → pits (w ∷ ws) ≡ pits (w ∷ []) + pits ws
pits-front pit ws = omega arith
pits-front lapic_clk ws = omega arith
pits-front other ws = omega arith

counted_all-intervals :
    (ws : List Wake) (k : ℕ)
    → (k + pits ws) * pit_interval < 2 ^ 64
    → counted_all ws (k * pit_interval) ≡ (k + pits ws) * pit_interval
counted_all-intervals [] k fits = omega arith
counted_all-intervals (w ∷ ws) k fits =
    let front = pits-front w ws in
    ap (counted_all ws) (counted-intervals w k (omega (arith, front)))
    ∙ counted_all-intervals ws (k + pits (w ∷ [])) (omega (arith, front))
    ∙ omega (arith, front)

after_round-intervals :
    (r : Round) (k : ℕ)
    → (k + round_pits r) * pit_interval < 2 ^ 64
    → after_round r (k * pit_interval) ≡ (k + round_pits r) * pit_interval
after_round-intervals (early, last) k fits =
    ap (counted last) (counted_all-intervals early k (omega arith))
    ∙ counted-intervals last (k + pits early) (omega arith)
    ∙ omega arith

sleep_from-done : (v c : ℕ) (rounds : List Round) → v ≤ c → sleep_from v c rounds ≡ some (c, rounds)
unfolding sleep_from
sleep_from-done v c [] h = rw (le→ltb c v h) refl
sleep_from-done v c (r ∷ rounds) h = rw (le→ltb c v h) refl

sleep_from-round :
    (v c : ℕ) (r : Round) (rounds : List Round)
    → c < v
    → sleep_from v c (r ∷ rounds) ≡ sleep_from v (after_round r c) rounds
unfolding sleep_from
sleep_from-round v c r rounds h = rw (lt→ltb c v h) refl

sleep_from-stuck : (v c : ℕ) → c < v → sleep_from v c [] ≡ none
unfolding sleep_from
sleep_from-stuck v c h = rw (lt→ltb c v h) refl

sleep_from-full :
    (v n k : ℕ) (rounds : List Round)
    → n ≤ k
    → v ≤ n * pit_interval
    → Sleeps (n - k) k rounds (sleep_from v (k * pit_interval) rounds)
sleep_from-full v n k rounds full enough =
    let same : k ≡ k + 0 = omega arith in
    inr (
      [],
      rounds,
      refl,
      omega arith,
      tt,
      sleep_from-done v (k * pit_interval) rounds (omega arith)
          ∙ ap (λ (i : ℕ). some (i * pit_interval, rounds)) same,
    )

-- The same with one more round in front.
Sleeps-round :
    (n k : ℕ) (r : Round) (rounds : List Round) (result result' : Option (ℕ × List Round))
    → k < n
    → result' ≡ result
    → Sleeps (n - (k + round_pits r)) (k + round_pits r) rounds result
    → Sleeps (n - k) k (r ∷ rounds) result'
Sleeps-round n k r rounds result result' more same (inl (few, stuck)) =
    inl (omega arith, same ∙ stuck)
Sleeps-round n k r rounds result result' more same
      (inr (before, after, split, enough, missing, done)) =
    let less : n - (k + round_pits r) ≡ n - k - round_pits r = omega arith in
    let total : k + round_pits r + all_pits before ≡ k + (round_pits r + all_pits before) =
      omega arith in
    inr (
      r ∷ before,
      after,
      ap (λ l. r ∷ l) split,
      omega arith,
      (omega arith, subst (λ m. Missing m before) less missing),
      same ∙ done ∙ ap (λ (i : ℕ). some (i * pit_interval, after)) total,
    )

-- With `k` intervals counted, where `v` takes `n`.
sleep_from-Sleeps :
    (v n k : ℕ) (rounds : List Round)
    → v ≤ n * pit_interval
    → n * pit_interval < v + pit_interval
    → (k + all_pits rounds) * pit_interval < 2 ^ 64
    → Sleeps (n - k) k rounds (sleep_from v (k * pit_interval) rounds)
sleep_from-Sleeps v n k [] enough least fits = elim (Bool-cases (ltb k n)) [
  | inl e ↦
      let more = ltb→lt k n e in
      inl (omega arith, sleep_from-stuck v (k * pit_interval) (omega arith))
  | inr e ↦ sleep_from-full v n k [] (ground arith) enough
]
sleep_from-Sleeps v n k (r ∷ rounds) enough least fits =
    let ih = sleep_from-Sleeps v n (k + round_pits r) rounds enough least (omega arith) in
    elim (Bool-cases (ltb k n)) [
      | inl e ↦
          let more = ltb→lt k n e in
          Sleeps-round n k r rounds _ _ more
            (sleep_from-round v (k * pit_interval) r rounds (omega arith)
              ∙ ap (λ (c : ℕ). sleep_from v c rounds) (after_round-intervals r k (omega arith)))
            ih
      | inr e ↦ sleep_from-full v n k (r ∷ rounds) (ground arith) enough
    ]

-- As long as the counter does not overflow, a sleep ends with the first `hlt` by whose end as many
-- interrupts of the PIT came as `us` microseconds take intervals of the constant, whatever other
-- interrupts come and wherever in the loop they do; until then it does not end. That many periods of
-- the PIT, at its native frequency and reload value, are at least `us` microseconds. An interrupt
-- that comes between the read of the counter and the `hlt` counts, but the sleep goes on to the next.
pub sleep_us_lem :
    (us : ℕ) (rounds : List Round)
    → us < 2 ^ 32
    → all_pits rounds * pit_interval < 2 ^ 64
    → Sleeps (n_intervals us) 0 rounds (sleep_us us rounds)
      × (us * pit_native_freq ≤ n_intervals us * pit_timer_rld * 1_000_000)
unfolding sleep_us
sleep_us_lem us rounds small fits =
    let n = n_intervals us in
    let none_counted : n - 0 ≡ n = omega arith in
    (
      subst (λ m. Sleeps m 0 rounds (sleep_us us rounds)) none_counted
          (sleep_from-Sleeps (us * 2 ^ 24) n 0 rounds (omega arith) (omega arith) (omega arith)),
      omega arith,
    )
