-- ===== src/Framebuffer/Square.antt =====
-- What the icon leaves on the screen: the square in the middle.
use titanium.Base.{ℕ, ◌+◌, ◌-◌, ◌*◌, ◌/◌, ◌^◌, ◌≤◌, ◌<◌, ◌≡◌, refl, ap, ◌∙◌}
use titanium.Base.{
  none, some, leb, ltb, arith, inl, inr, ◌⊎◌, le→leb, Bool-cases, true, false, ltb→lt,
}
use native.Mathlib.Nat.{mul-le-mul_right}
use titanium.Framebuffer.Galley.{Framebuffer}
use titanium.Framebuffer.Icon.{icon_width, draw_icon}
use titanium.Framebuffer.Drawn.{swapped}
use titanium.Framebuffer.Rows.{draw_icon_rows_lem}

module _ (icon : ℕ → ℕ) (bytes : (i : ℕ) → icon i < 256) where
  module _ (address : ℕ) (framebuffer : Framebuffer) where
    -- On a screen that is less than 256 pixels wide or high the icon panics. On any other, with rows of
    -- at least four bytes for each pixel and less than 2 ^ 64 bytes in all, it does not: the square
    -- in the middle is the icon's, pixel by pixel, with red and blue changed over, and every
    -- other byte of every row is as it was.
    pub draw_icon_lem :
        (mem : ℕ → ℕ)
        → 4 * framebuffer.width ≤ framebuffer.pitch
        → framebuffer.height * framebuffer.pitch < 2 ^ 64
        → let left = framebuffer.width / 2 - 128 in
          let top = framebuffer.height / 2 - 128 in
          (((framebuffer.width < 256) ⊎ (framebuffer.height < 256))
            × (draw_icon icon address framebuffer mem ≡ none))
          ⊎ ((mem' : ℕ → ℕ) × (draw_icon icon address framebuffer mem ≡ some mem')
              × (left + 256 ≤ framebuffer.width)
              × (top + 256 ≤ framebuffer.height)
              × ((x y k : ℕ)
                  → x < 256
                  → y < 256
                  → k < 4
                  → mem' (address + (top + y) * framebuffer.pitch + 4 * (left + x) + k)
                    ≡ icon (4 * (x + 256 * y) + swapped k))
              × ((py off : ℕ)
                  → off < framebuffer.pitch
                  → ((py < top) ⊎ (top + 256 ≤ py)) ⊎ ((off < 4 * left) ⊎ (4 * (left + 256) ≤ off))
                  → mem' (address + py * framebuffer.pitch + off)
                    ≡ mem (address + py * framebuffer.pitch + off)))
    unfolding draw_icon
    draw_icon_lem mem wide fits = elim (Bool-cases (ltb framebuffer.width 256)) [
      | inl narrow ↦ inl (inl (ltb→lt framebuffer.width 256 narrow), too_narrow narrow)
      | inr broad ↦ elim (Bool-cases (ltb framebuffer.height 256)) [
        | inl low ↦ inl (inr (ltb→lt framebuffer.height 256 low), too_low broad low)
        | inr high ↦
            let left = framebuffer.width / 2 - 128 in
            let top = framebuffer.height / 2 - 128 in
            let inside : left + 256 ≤ framebuffer.width = ground arith in
            let inside' : top + 256 ≤ framebuffer.height = ground arith in
            let (mem', e, drawn, same) =
              draw_icon_rows_lem icon bytes address framebuffer 256 0 left top mem (omega arith) (
                omega (
                  arith,
                  mul-le-mul_right {m = top + 256} {n = framebuffer.height} framebuffer.pitch
                      inside',
                )) in
            inr (
              mem',
              rw
                  (
                    le→leb 128 (framebuffer.width / 2) (ground arith),
                    le→leb 128 (framebuffer.height / 2) (ground arith),
                  )
                  e,
              inside,
              inside',
              λ x y k lx ly lk.
                  drawn y x k (omega arith) (omega arith) lx lk
                  ∙ (let e : 4 * (x + y * 256) ≡ 4 * (x + 256 * y) = omega arith in
                      ap (λ t. icon (t + swapped k)) e),
              λ py off small h. same py off small (shifted top left py off h),
            )
      ]
    ]
      where
        too_narrow :
            ltb framebuffer.width 256 ≡ true → draw_icon icon address framebuffer mem ≡ none
        too_narrow h =
            let off : leb 128 (framebuffer.width / 2) ≡ false = ground arith in rw off refl

        too_low :
            ltb framebuffer.width 256 ≡ false
            → ltb framebuffer.height 256 ≡ true
            → draw_icon icon address framebuffer mem ≡ none
        too_low b h =
            let on : leb 128 (framebuffer.width / 2) ≡ true = ground arith in
            let off : leb 128 (framebuffer.height / 2) ≡ false = ground arith in rw (on, off) refl

        shifted :
            (top left py off : ℕ)
            → ((py < top) ⊎ (top + 256 ≤ py)) ⊎ ((off < 4 * left) ⊎ (4 * (left + 256) ≤ off))
            → ((py < top + 0) ⊎ (top + (0 + 256) ≤ py))
              ⊎ ((off < 4 * left) ⊎ (4 * (left + icon_width) ≤ off))
        shifted top left py off h = ground arith
