-- ===== src/Framebuffer/Rows.antt =====
-- What the rows of the icon leave on the screen.
use titanium.Base.{ℕ, zero, suc, ◌+◌, ◌*◌, ◌^◌, ◌≤◌, ◌<◌, ◌≡◌, refl, sym, ap, ◌∙◌}
use titanium.Base.{some, arith, inl, inr, ◌⊎◌, lt→ltb}
use native.Mathlib.Nat.{mul-le-mul_right}
use titanium.Framebuffer.Galley.{Framebuffer}
use titanium.Framebuffer.Icon.{icon_height, icon_width, draw_icon_row, draw_icon_rows}
use titanium.Framebuffer.Drawn.{swapped, draw_icon_row_lem}

module _ (icon : ℕ → ℕ) (bytes : (i : ℕ) → icon i < 256) where
  module _ (address : ℕ) (framebuffer : Framebuffer) where
    -- Where a byte of a row lies, against the square in row `r`.
    abbrev Outside : ℕ → ℕ → ℕ → ℕ → ℕ → Type 0
    Outside py off r sx pitch =
        (address + py * pitch + off < address + r * pitch + 4 * (sx + 0))
        ⊎ (address + r * pitch + 4 * (sx + (0 + icon_width)) ≤ address + py * pitch + off)

    other_row :
        (py off r sx pitch : ℕ)
        → off < pitch
        → 4 * (sx + icon_width) ≤ pitch
        → (py < r) ⊎ (r < py)
        → Outside py off r sx pitch
    other_row py off r sx pitch small wide (inl h) =
        inl (omega (arith, mul-le-mul_right {m = suc py} {n = r} pitch h))
    other_row py off r sx pitch small wide (inr h) =
        inr (omega (arith, mul-le-mul_right {m = suc r} {n = py} pitch h))

    other_column :
        (py off r sx pitch : ℕ)
        → off < pitch
        → 4 * (sx + icon_width) ≤ pitch
        → (off < 4 * sx) ⊎ (4 * (sx + icon_width) ≤ off)
        → Outside py off r sx pitch
    other_column py off r sx pitch small wide h = elim (compare_rows py r) [
      | inl apart ↦ other_row py off r sx pitch small wide apart
      | inr e ↦
          let same : py * pitch ≡ r * pitch = ap (λ j. j * pitch) e in
          elim h [ inl a ↦ inl (omega arith) | inr a ↦ inr (omega arith) ]
    ]
      where
        compare_rows : (a b : ℕ) → ((a < b) ⊎ (b < a)) ⊎ (a ≡ b)
        compare_rows a b = ground arith

    -- The rows from `y` on.
    pub draw_icon_rows_lem :
        (n y sx sy : ℕ) (mem : ℕ → ℕ)
        → 4 * (sx + icon_width) ≤ framebuffer.pitch
        → (sy + (y + n)) * framebuffer.pitch < 2 ^ 64
        → (mem' : ℕ → ℕ) × (draw_icon_rows icon address framebuffer n y sx sy mem ≡ some mem')
          × ((j c k : ℕ)
              → y ≤ j
              → j < y + n
              → c < icon_width
              → k < 4
              → mem' (address + (sy + j) * framebuffer.pitch + 4 * (sx + c) + k)
                ≡ icon (4 * (c + j * icon_height) + swapped k))
          × ((py off : ℕ)
              → off < framebuffer.pitch
              → ((py < sy + y) ⊎ (sy + (y + n) ≤ py))
                ⊎ ((off < 4 * sx) ⊎ (4 * (sx + icon_width) ≤ off))
              → mem' (address + py * framebuffer.pitch + off)
                ≡ mem (address + py * framebuffer.pitch + off))
    unfolding draw_icon_rows
    draw_icon_rows_lem zero y sx sy mem wide fits =
        (mem, refl, λ j c k a b lc lk. absurd (omega arith), λ py off small h. refl)
    draw_icon_rows_lem (suc n) y sx sy mem wide fits =
        let pitch = framebuffer.pitch in
        let row = address + (sy + y) * pitch in
        let mem1 = draw_icon_row icon address framebuffer icon_width 0 y sx row mem in
        let (drawn, unchanged) =
          draw_icon_row_lem icon bytes address framebuffer icon_width 0 y sx row mem in
        let (mem', e, drawn', unchanged') =
          draw_icon_rows_lem n (suc y) sx sy mem1 wide (ap_lt fits) in
        (
          mem',
          rw (lt→ltb ((sy + y) * pitch) (2 ^ 64) (first_lt fits)) e,
          λ j c k a b lc lk. elim (here_or_later j a) [
            | inl h ↦
                let at : ℕ = row + 4 * (sx + c) + k in
                let place : address + (sy + j) * pitch + 4 * (sx + c) + k ≡ at =
                  ap (λ t. address + (sy + t) * pitch + 4 * (sx + c) + k) (sym h) in
                let split : at ≡ address + (sy + y) * pitch + (4 * (sx + c) + k) = omega arith in
                ap mem' (place ∙ split)
                ∙ unchanged' (sy + y) (4 * (sx + c) + k) (omega arith) (inl (inl (omega arith)))
                ∙ ap mem1 (sym split)
                ∙ drawn c k (omega arith) (omega arith) lk
                ∙ ap (λ t. icon (4 * (c + t * icon_height) + swapped k)) h
            | inr h ↦ drawn' j c k h (omega arith) lc lk
          ],
          λ py off small h.
              unchanged' py off small (later py off h)
              ∙ unchanged (address + py * pitch + off) (outside py off small h),
        )
      where
        ap_lt :
            (sy + (y + suc n)) * framebuffer.pitch < 2 ^ 64
            → (sy + (suc y + n)) * framebuffer.pitch < 2 ^ 64
        ap_lt h =
            let e : sy + (y + suc n) ≡ sy + (suc y + n) = omega arith in
            let e' : (sy + (y + suc n)) * framebuffer.pitch
                ≡ (sy + (suc y + n)) * framebuffer.pitch =
              ap (λ t. t * framebuffer.pitch) e in
            omega arith

        first_lt :
            (sy + (y + suc n)) * framebuffer.pitch < 2 ^ 64 → (sy + y) * framebuffer.pitch < 2 ^ 64
        first_lt h =
            let l : sy + y ≤ sy + (y + suc n) = omega arith in
            omega (arith, mul-le-mul_right {m = sy + y} {n = sy + (y + suc n)} framebuffer.pitch l)

        here_or_later : (j : ℕ) → y ≤ j → (y ≡ j) ⊎ (suc y ≤ j)
        here_or_later j a = ground arith

        later :
            (py off : ℕ)
            → ((py < sy + y) ⊎ (sy + (y + suc n) ≤ py))
              ⊎ ((off < 4 * sx) ⊎ (4 * (sx + icon_width) ≤ off))
            → ((py < sy + suc y) ⊎ (sy + (suc y + n) ≤ py))
              ⊎ ((off < 4 * sx) ⊎ (4 * (sx + icon_width) ≤ off))
        later py off (inl (inl a)) = inl (inl (omega arith))
        later py off (inl (inr a)) = inl (inr (omega arith))
        later py off (inr h) = inr h

        outside :
            (py off : ℕ)
            → off < framebuffer.pitch
            → ((py < sy + y) ⊎ (sy + (y + suc n) ≤ py))
              ⊎ ((off < 4 * sx) ⊎ (4 * (sx + icon_width) ≤ off))
            → Outside py off (sy + y) sx framebuffer.pitch
        outside py off small (inl (inl a)) =
            other_row py off (sy + y) sx framebuffer.pitch small wide (inl a)
        outside py off small (inl (inr a)) =
            other_row py off (sy + y) sx framebuffer.pitch small wide (inr (omega arith))
        outside py off small (inr h) =
            other_column py off (sy + y) sx framebuffer.pitch small wide h
