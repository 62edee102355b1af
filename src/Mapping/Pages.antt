-- ===== src/Mapping/Pages.antt =====
-- Single pages: where they are mapped, and the loop of `IOApic::new` over its pages.
use titanium.Base.{ℕ, zero, suc, ◌+◌, ◌*◌, ◌/◌, ◌%◌, ◌^◌, ◌≤◌, ◌<◌, ◌≡◌, refl, sym, ap, ◌∙◌}
use titanium.Base.{
  Option, none, some, arith, inl, inr, ◌⊎◌, ◌>>=◌, if◌then◌else◌, lt→ltb, ==_ne, ==_iff,
}
use titanium.Vmem.{page_size}
use titanium.X86.{is_power_of_two-page, AlignDown, PageTableFlags, PageMapper}
use titanium.Mapping.Devices.{from_start_address, map_pages, io_apic_flags}

module _ {S : Type 0} (p : PageMapper S) (down : AlignDown) (f : PageTableFlags) where
  -- The physical address that a virtual one leads to.
  abbrev pub physical : S → ℕ → Option ℕ
  physical s v = do
    (frame, flags) ← p.translate s (v / page_size * page_size)
    some (frame + v % page_size)

  pub align_down_lem : (a : ℕ) → down.align_down a page_size ≡ a / page_size * page_size
  align_down_lem a =
      let (q, e) = down.align_down-multiple a page_size is_power_of_two-page.0 in
      omega (
        arith,
        e,
        down.align_down-le a page_size is_power_of_two-page.0,
        down.align_down-lt a page_size is_power_of_two-page.0,
      )

  pub from_start_address_lem : (a : ℕ) → a % page_size ≡ 0 → from_start_address p down f a ≡ some a
  unfolding from_start_address
  from_start_address_lem a e =
      let same : down.align_down a page_size ≡ a = omega (arith, align_down_lem a) in
      rw ((==_iff (down.align_down a page_size) a).1 same) refl

  -- One page.
  pub map_to_lem :
      (s : S) (page frame flags : ℕ)
      → p.translate s page ≡ none
      → 3 ≤ p.frames_left s
      → (s' : S) × (p.map_to s page frame flags ≡ some s')
        × (p.frames_left s ≤ p.frames_left s' + 3)
        × (p.translate s' page ≡ some (frame, flags))
        × ((q : ℕ) → (q < page) ⊎ (page < q) → p.translate s' q ≡ p.translate s q)
  map_to_lem s page frame flags free left =
      let (s', e, spent) = p.map_to-unmapped s page frame flags free left in
      (
        s',
        e,
        spent,
        p.translate-map_to s s' page frame flags page e
            ∙ ap (λ t. if t then some (frame, flags) else p.translate s page)
                ((==_iff page page).1 refl),
        λ q apart.
            p.translate-map_to s s' page frame flags q e
            ∙ ap (λ t. if t then some (frame, flags) else p.translate s q)
                (==_ne page q (λ h. ground arith)),
      )

  -- The `n` pages from page `i` on are unmapped: they are mapped in order, and no other.
  pub map_pages_lem :
      (n i start frame : ℕ) (s : S)
      → start % page_size ≡ 0
      → start + (i + n) * page_size < 2 ^ 64
      → ((j : ℕ) → i ≤ j → j < i + n → p.translate s (start + j * page_size) ≡ none)
      → 3 * n ≤ p.frames_left s
      → (s' : S) × (map_pages p down f n i start frame s ≡ some s')
        × (p.frames_left s ≤ p.frames_left s' + 3 * n)
        × ((j : ℕ)
            → i ≤ j
            → j < i + n
            → p.translate s' (start + j * page_size)
              ≡ some (frame + j * page_size, io_apic_flags p down f))
        × ((q : ℕ)
            → (q < start + i * page_size) ⊎ (start + (i + n) * page_size ≤ q)
            → p.translate s' q ≡ p.translate s q)
  unfolding map_pages
  map_pages_lem zero i start frame s aligned fits free left =
      (s, refl, omega arith, λ j a b. absurd (omega arith), λ q apart. refl)
  map_pages_lem (suc n) i start frame s aligned fits free left =
      let page = start + i * page_size in
      let (s1, e, spent, here, others) =
        map_to_lem s page (frame + i * page_size) (io_apic_flags p down f)
          (free i (omega arith) (omega arith)) (omega arith) in
      let still : (j : ℕ)
          → suc i ≤ j
          → j < suc i + n
          → p.translate s1 (start + j * page_size) ≡ none =
        λ j a b.
          others (start + j * page_size) (inr (omega arith)) ∙ free j (omega arith) (omega arith) in
      let (s', e', spent', mapped, same) =
        map_pages_lem n (suc i) start frame s1 aligned (omega arith) still (omega arith) in
      (
        s',
        rw
            (
              lt→ltb (start + i * 0x1000) (2 ^ 64) (omega arith),
              from_start_address_lem page (omega arith),
              e,
            )
            e',
        omega arith,
        λ j a b. elim (eq_or_above i j a) [
          | inl h ↦
              ap (λ k. p.translate s' (start + k * page_size)) (sym h)
              ∙ same page (inl (omega arith))
              ∙ here
              ∙ ap (λ k. some (frame + k * page_size, io_apic_flags p down f)) h
          | inr h ↦ mapped j h (omega arith)
        ],
        λ q apart. same q (widen q apart) ∙ others q (apart_of q apart),
      )
    where
      eq_or_above : (i j : ℕ) → i ≤ j → (i ≡ j) ⊎ (suc i ≤ j)
      eq_or_above i j a = ground arith

      widen :
          (q : ℕ)
          → (q < start + i * page_size) ⊎ (start + (i + suc n) * page_size ≤ q)
          → (q < start + suc i * page_size) ⊎ (start + (suc i + n) * page_size ≤ q)
      widen q (inl a) = inl (omega arith)
      widen q (inr a) = inr (omega arith)

      apart_of :
          (q : ℕ)
          → (q < start + i * page_size) ⊎ (start + (i + suc n) * page_size ≤ q)
          → (q < start + i * page_size) ⊎ (start + i * page_size < q)
      apart_of q (inl a) = inl (omega arith)
      apart_of q (inr a) = inr (omega arith)

  pub physical_lem :
      (s : S) (v page frame flags place : ℕ)
      → p.translate s page ≡ some (frame, flags)
      → page ≡ v / page_size * page_size
      → frame + v % page_size ≡ place
      → physical s v ≡ some place
  physical_lem s v page frame flags place e at same =
      ap (λ q. p.translate s q >>= λ m. some (m.0 + v % page_size)) (sym at)
      ∙ ap (λ o. o >>= λ (m : ℕ × ℕ). some (m.0 + v % page_size)) e
      ∙ ap some same

  pub kept :
      (s s' : S) (v : ℕ) (m : Option ℕ)
      → p.translate s' (v / page_size * page_size) ≡ p.translate s (v / page_size * page_size)
      → physical s v ≡ m
      → physical s' v ≡ m
  kept s s' v m same e = ap (λ o. o >>= λ (t : ℕ × ℕ). some (t.0 + v % page_size)) same ∙ e
