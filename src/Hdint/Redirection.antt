-- ===== src/Hdint/Redirection.antt =====
-- What the operations of the I/O APIC do to its redirection entries.
use titanium.Base.{ℕ, ◌+◌, ◌*◌, ◌/◌, ◌%◌, ◌^◌, ◌<◌, ◌≡◌, ◌≢◌, refl, sym, ◌∙◌, subst}
use titanium.Base.{some, bit_and, bit_or, arith, inl, inr}
use titanium.Base.{◌==◌, if◌then◌else◌, lt→ltb, ==_refl, ==_ne, ==_iff, Bool-cases}
use titanium.Base.Bits.{◌<<<◌, bit_and_mask, bit_or_fields}
use titanium.Hdint.Devices.{BitField, IoApicDevice}
use titanium.Hdint.IoApic.{entry_register, read, write, get_entry, set_entry}

-- The entries that the 8 bits of the index register reach.
abbrev pub n_entries : ℕ
n_entries = 120

-- Two entries with the same read-only bits, in both halves.
abbrev pub SameReadOnly : ℕ → ℕ → Type 0
SameReadOnly e e' =
    (e / 2 ^ 12 % 2 ≡ e' / 2 ^ 12 % 2)
    × (e / 2 ^ 14 % 2 ≡ e' / 2 ^ 14 % 2)
    × (e / 2 ^ 44 % 2 ≡ e' / 2 ^ 44 % 2)
    × (e / 2 ^ 46 % 2 ≡ e' / 2 ^ 46 % 2)

module _ {W : Type 0} (d : IoApicDevice W) where
  -- The redirection entry behind an input.
  abbrev pub entry : W → ℕ → ℕ
  entry w g = d.reg w (0x10 + g * 2 + 1) * 2 ^ 32 + d.reg w (0x10 + g * 2)

  entry_register-eq : (g : ℕ) → g < n_entries → entry_register g ≡ some (0x10 + g * 2)
  unfolding entry_register
  entry_register-eq g h =
      let same : g % 2 ^ 32 ≡ g = omega arith in
      rw (same, lt→ltb (0x10 + g * 2) (2 ^ 32) (omega arith)) refl

  low_byte : (r : ℕ) → r < 256 → bit_and r 0xff ≡ r
  low_byte r h = bit_and_mask 8 r ∙ omega arith

  pub get_entry_lem :
      (w : W) (g : ℕ)
      → g < n_entries
      → (w' : W) × (get_entry d w g ≡ some (entry w g, w')) × ((q : ℕ) → d.reg w' q ≡ d.reg w q)
  unfolding get_entry read
  get_entry_lem w g h =
      let r = 0x10 + g * 2 in
      let w1 = d.select w r in
      let w2 = d.select w1 (r + 1) in
      let keeps : (q : ℕ) → d.reg w2 q ≡ d.reg w q =
        λ q. d.reg-select w1 (r + 1) q ∙ d.reg-select w r q in
      let bot : d.window_read w1 ≡ d.reg w r = d.window_read-select w r in
      let top : d.window_read w2 ≡ d.reg w (r + 1) =
        d.window_read-select w1 (r + 1) ∙ d.reg-select w r (r + 1) in
      let joined : bit_or (d.reg w (r + 1) <<< 32) (d.reg w r) ≡ entry w g =
        bit_or_fields 32 (d.reg w (r + 1)) (d.reg w r) (d.reg_lt w r) in
      (
        w2,
        rw
            (
              entry_register-eq g h,
              low_byte r (omega arith),
              low_byte (r + 1) (omega arith),
              bot,
              top,
              joined,
            )
            refl,
        keeps,
      )

  set_entry_lem :
      (w : W) (g e : ℕ)
      → g < n_entries
      → e < 2 ^ 64
      → SameReadOnly e (entry w g)
      → (w' : W) × (set_entry d w g e ≡ some w')
        × (entry w' g ≡ e)
        × ((q : ℕ) → 0x10 + g * 2 ≢ q → 0x10 + g * 2 + 1 ≢ q → d.reg w' q ≡ d.reg w q)
  unfolding set_entry write
  set_entry_lem w g e h fits (a, b, a', b') =
      let r = 0x10 + g * 2 in
      let low = e % 2 ^ 32 in
      let high = e / 2 ^ 32 in
      let w1 = d.window_write (d.select w r) low in
      let w2 = d.window_write (d.select w1 (r + 1)) high in
      let lo_lt = d.reg_lt w r in
      let hi_lt = d.reg_lt w (r + 1) in
      let first : (q : ℕ) → d.reg w1 q ≡ (if r == q then low else d.reg w q) =
        λ q. d.reg-window_write w r low q (omega arith) (omega arith) (omega arith) in
      let untouched : d.reg w1 (r + 1) ≡ d.reg w (r + 1) =
        first (r + 1) ∙ rw (==_ne r (r + 1) (λ e. omega arith)) refl in
      let second : (q : ℕ) → d.reg w2 q ≡ (if r + 1 == q then high else d.reg w1 q) = λ q.
        d.reg-window_write w1 (r + 1) high q (omega arith) (omega (arith, untouched))
          (omega (arith, untouched)) in
      let wrote_high : d.reg w2 (r + 1) ≡ high = second (r + 1) ∙ rw (==_refl (r + 1)) refl in
      let wrote_low : d.reg w2 r ≡ low =
        second r ∙ rw (==_ne (r + 1) r (λ e. omega arith)) (first r ∙ rw (==_refl r) refl) in
      let mask : bit_and e 0xffff_ffff ≡ low = bit_and_mask 32 e in
      let whole : high % 2 ^ 32 ≡ high = omega arith in
      (
        w2,
        rw
            (
              entry_register-eq g h,
              mask,
              whole,
              write,
              low_byte r (omega arith),
              low_byte (r + 1) (omega arith),
            )
            refl,
        omega (arith, wrote_high, wrote_low),
        λ q other other'.
            second q ∙ rw (==_ne (r + 1) q other') (first q ∙ rw (==_ne r q other) refl),
      )

  -- An entry read, changed and written back, and the state after the write.
  pub update_lem :
      (w : W) (g : ℕ) (change : ℕ → ℕ)
      → g < n_entries
      → change (entry w g) < 2 ^ 64
      → SameReadOnly (change (entry w g)) (entry w g)
      → (w1 w2 : W) × (get_entry d w g ≡ some (entry w g, w1))
        × (set_entry d w1 g (change (entry w g)) ≡ some w2)
        × (entry w2 g ≡ change (entry w g))
        × ((q : ℕ) → 0x10 + g * 2 ≢ q → 0x10 + g * 2 + 1 ≢ q → d.reg w2 q ≡ d.reg w q)
  update_lem w g change h fits same =
      let (w1, got, keeps) = get_entry_lem w g h in
      let lower = keeps (0x10 + g * 2) in
      let upper = keeps (0x10 + g * 2 + 1) in
      let there : entry w1 g ≡ entry w g = omega arith in
      let (w2, put, holds, others) =
        set_entry_lem w1 g (change (entry w g)) h fits
          (subst (SameReadOnly (change (entry w g))) (sym there) same) in
      (w1, w2, got, put, holds, λ q a b. others q a b ∙ keeps q)

  -- States with the same entry whose other registers are the same.
  pub same_registers :
      (w w' : W) (g : ℕ)
      → entry w' g ≡ entry w g
      → ((q : ℕ) → 0x10 + g * 2 ≢ q → 0x10 + g * 2 + 1 ≢ q → d.reg w' q ≡ d.reg w q)
      → (q : ℕ) → d.reg w' q ≡ d.reg w q
  same_registers w w' g e others q =
      let r = 0x10 + g * 2 in
      let lower : d.reg w' r ≡ d.reg w r =
        omega (arith, e, d.reg_lt w r, d.reg_lt w (r + 1), d.reg_lt w' r, d.reg_lt w' (r + 1)) in
      let upper : d.reg w' (r + 1) ≡ d.reg w (r + 1) =
        omega (arith, e, d.reg_lt w r, d.reg_lt w (r + 1), d.reg_lt w' r, d.reg_lt w' (r + 1)) in
      elim (Bool-cases (r == q)) [
        | inl at ↦ subst (λ p. d.reg w' p ≡ d.reg w p) ((==_iff r q).0 at) lower
        | inr off ↦ elim (Bool-cases (r + 1 == q)) [
          | inl at ↦ subst (λ p. d.reg w' p ≡ d.reg w p) ((==_iff (r + 1) q).0 at) upper
          | inr off' ↦ others q (λ e. absurd (ground arith)) (λ e. absurd (ground arith))
        ]
      ]

  module _ (f : BitField) where
    pub entry_lt : (w : W) (g : ℕ) → entry w g < 2 ^ 64
    entry_lt w g = omega (arith, d.reg_lt w (0x10 + g * 2), d.reg_lt w (0x10 + g * 2 + 1))
