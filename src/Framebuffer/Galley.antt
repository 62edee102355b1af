-- ===== src/Framebuffer/Galley.antt =====
-- `draw_galley_at` (framebuffer/font.rs). The font file is a parameter: its header and its bytes.
-- Coordinates are taken to be small enough that no sum overflows.
use titanium.Base.{ℕ, zero, suc, ◌+◌, ◌-◌, ◌*◌, ◌/◌, ◌%◌, ◌^◌, ◌||◌}
use titanium.Base.{Option, none, some, List, [], ◌∷◌, ltb, ◌==◌, if◌then◌else◌}

pub record PsfFontHeader : Type 0 where
  pub headersize : ℕ
  pub numglyph : ℕ
  pub bytesperglyph : ℕ
  pub height : ℕ
  pub width : ℕ

pub data Dim : Type 0 where
  unbounded : Dim
  strict : ℕ → Dim

-- The text is a list of code points.
pub record Galley : Type 0 where
  pub text : List ℕ
  pub width : Dim
  pub height : Dim

pub record Style : Type 0 where
  pub fg : ℕ
  pub bg : ℕ

pub record Point : Type 0 where
  pub x : ℕ
  pub y : ℕ

pub record Framebuffer : Type 0 where
  pub width : ℕ
  pub height : ℕ
  pub pitch : ℕ

module _ (font : PsfFontHeader) (bytes : ℕ → ℕ) (framebuffer : Framebuffer) where
  -- Where the next glyph goes: further on, or on a new line; `none` is the return on overflow.
  unfoldable pub new_line : Dim → Point → Point → Option Point
  new_line unbounded point offset = some (record { x = 0; y = offset.y + font.height })
  new_line (strict max_height) point offset =
      if ltb max_height (offset.y + font.height)
        || ltb framebuffer.height (point.y + offset.y + font.height)
      then none
      else some (record { x = 0; y = offset.y + font.height })

  unfoldable pub wrap : Dim → Dim → Point → Point → Option Point
  wrap unbounded height point offset = some offset
  wrap (strict max_width) height point offset =
      if ltb max_width (offset.x + font.width)
        || ltb framebuffer.width (point.x + offset.x + font.width)
      then new_line height point offset
      else some offset

  unfoldable pub glyph_index : ℕ → ℕ
  glyph_index c = if ltb font.numglyph c then 0 else c

  -- The glyphs that the loop over the text draws, with their offsets, in order.
  unfoldable pub layout_from : Dim → Dim → Point → Point → List ℕ → List (ℕ × Point)
  layout_from width height point offset [] = []
  layout_from width height point offset (c ∷ text) = elim (wrap width height point offset) [
    | none ↦ []
    | some o ↦
        (glyph_index c, o) ∷ layout_from width height point (record o { x = o.x + font.width }) text
  ]

  -- The pixels by their byte offset from the frame buffer's address.
  abbrev pub write_pixel : (ℕ → ℕ) → ℕ → ℕ → ℕ → ℕ
  write_pixel frame a px b = if a == b then px else frame b

  -- `for x in 0..width`, with `n` columns left.
  unfoldable pub draw_row : ℕ → ℕ → Style → ℕ → ℕ → (ℕ → ℕ) → ℕ → ℕ
  draw_row zero x style row glyph_row frame = frame
  draw_row (suc n) x style row glyph_row frame =
      let glyph_byte = bytes (glyph_row + x / 8) in
      let px_data = if glyph_byte / 2 ^ (7 - x % 8) % 2 == 1 then style.fg else style.bg in
      draw_row n (suc x) style row glyph_row (write_pixel frame (row + 4 * x) px_data)

  -- `for y in 0..height`, with `n` rows left.
  unfoldable pub draw_rows : ℕ → ℕ → Style → Point → ℕ → (ℕ → ℕ) → ℕ → ℕ
  draw_rows zero y style corner glyph_row frame = frame
  draw_rows (suc n) y style corner glyph_row frame =
      let row = (corner.y + y) * framebuffer.pitch + 4 * corner.x in
      draw_rows n (suc y) style corner (glyph_row + font.width / 8)
        (draw_row font.width 0 style row glyph_row frame)

  unfoldable pub draw_glyph : Style → Point → ℕ × Point → (ℕ → ℕ) → ℕ → ℕ
  draw_glyph style point (glyph_idx, offset) frame =
      draw_rows font.height 0 style (record { x = point.x + offset.x; y = point.y + offset.y })
        (font.headersize + glyph_idx * font.bytesperglyph) frame

  unfoldable pub draw_glyphs : Style → Point → List (ℕ × Point) → (ℕ → ℕ) → ℕ → ℕ
  draw_glyphs style point [] frame = frame
  draw_glyphs style point (g ∷ glyphs) frame =
      draw_glyphs style point glyphs (draw_glyph style point g frame)

  unfoldable pub draw_galley_at : Galley → Style → Point → (ℕ → ℕ) → ℕ → ℕ
  draw_galley_at galley style point frame =
      draw_glyphs style point
        (layout_from galley.width galley.height point (record { x = 0; y = 0 }) galley.text) frame

  -- Green on black.
  unfoldable pub print_str_at : Point → List ℕ → (ℕ → ℕ) → ℕ → ℕ
  print_str_at point string frame =
      draw_galley_at (record { text = string; width = unbounded; height = unbounded })
        (record { fg = 0xff00_ff00; bg = 0 }) point frame
