-- ===== src/Boot/Screen.antt =====
-- The icon on the first frame buffer, as `kmain` (src/main.rs) draws it, with what it reads of the frame
-- buffer (src/limine.rs).
use titanium.Base.{ℕ, ◌+◌, ◌≡◌, refl, List, [], ◌∷◌}
use titanium.Base.{Option, none, some}
use titanium.Limine.Requests.{RequestHeader}
use titanium.Limine.Responses.{framebuffers, framebuffers-Answered, Answered}
use titanium.Framebuffer.Galley.{Framebuffer}
use titanium.Framebuffer.Icon.{draw_icon}

module _ (mem : ℕ → ℕ) where
  -- The first fields of `Framebuffer`, over memory as words.
  unfoldable pub framebuffer_address : ℕ → ℕ
  framebuffer_address p = mem p

  unfoldable pub framebuffer_at : ℕ → Framebuffer
  framebuffer_at p = record { width = mem (p + 8); height = mem (p + 16); pitch = mem (p + 24) }

  -- `framebuffers().and_then(|b| b.first())`; without one nothing is drawn.
  unfoldable pub draw_first : (ℕ → ℕ) → Option (List ℕ) → (ℕ → ℕ) → Option (ℕ → ℕ)
  draw_first icon none bytes = some bytes
  draw_first icon (some []) bytes = some bytes
  draw_first icon (some (p ∷ ps)) bytes =
      draw_icon icon (framebuffer_address p) (framebuffer_at p) bytes

  unfoldable pub show_icon : RequestHeader → (ℕ → ℕ) → (ℕ → ℕ) → Option (ℕ → ℕ)
  show_icon r icon bytes = draw_first icon (framebuffers mem r) bytes

  -- Where the bootloader answers with frame buffers, the icon is drawn on the first, by the width, the
  -- height and the pitch in its record; where it does not answer, nothing is drawn.
  pub show_icon_lem :
      (r r' : RequestHeader) (p : ℕ) (ps : List ℕ) (icon bytes : ℕ → ℕ)
      → Answered mem r (p ∷ ps)
      → r'.response ≡ 0
      → (show_icon r icon bytes
          ≡ draw_icon icon
              (mem p)
              (record { width = mem (p + 8); height = mem (p + 16); pitch = mem (p + 24) })
              bytes)
        × (show_icon r' icon bytes ≡ some bytes)
  unfolding show_icon draw_first framebuffer_address framebuffer_at
  show_icon_lem r r' p ps icon bytes answered null =
      let (there, missing) = framebuffers-Answered mem r r' (p ∷ ps) answered null in
      (rw there refl, rw missing refl)
