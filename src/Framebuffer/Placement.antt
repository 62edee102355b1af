-- ===== src/Framebuffer/Placement.antt =====
-- Where a galley's glyphs are drawn.
use titanium.Base.{ℕ, ◌+◌, ◌≤◌, ◌<◌, ◌≡◌, refl, ap, ◌∙◌, subst, ◌||◌}
use titanium.Base.{
  Option, none, some, List, [], ◌∷◌, ltb, arith, sym, lt→ltb, le→ltb, inl, inr, ◌⊎◌, Bool-cases,
}
use titanium.Framebuffer.Galley.{
  PsfFontHeader, strict, Point, Framebuffer, new_line, wrap, glyph_index, layout_from,
}

module _ (font : PsfFontHeader) (bytes : ℕ → ℕ) (framebuffer : Framebuffer)
    (max_width max_height : ℕ) (point : Point) where
  -- A glyph that lies in the width of the galley and of the frame buffer, and whose top lies in both
  -- heights.
  abbrev pub InColumn : ℕ × Point → Type 0
  InColumn (g, o) =
      (g ≤ font.numglyph)
      × (o.x + font.width ≤ max_width)
      × (point.x + o.x + font.width ≤ framebuffer.width)
      × (o.y ≤ max_height)
      × (point.y + o.y ≤ framebuffer.height)

  abbrev pub AllInColumn : List (ℕ × Point) → Type 0
  AllInColumn [] = Unit
  AllInColumn (g ∷ glyphs) = InColumn g × AllInColumn glyphs

  glyph_index-le : (c : ℕ) → glyph_index font bytes framebuffer c ≤ font.numglyph
  unfolding glyph_index
  glyph_index-le c = ground arith

  abbrev LowEnough : Point → Type 0
  LowEnough o = (o.y ≤ max_height) × (point.y + o.y ≤ framebuffer.height)

  wrap_lem :
      (offset : Point)
      → font.width ≤ max_width
      → point.x + font.width ≤ framebuffer.width
      → LowEnough offset
      → (wrap font bytes framebuffer (strict max_width) (strict max_height) point offset ≡ none)
        ⊎ ((o : Point) × (wrap font bytes framebuffer
                (strict max_width)
                (strict max_height)
                point
                offset
              ≡ some o)
            × (o.x + font.width ≤ max_width)
            × (point.x + o.x + font.width ≤ framebuffer.width)
            × LowEnough o)
  unfolding wrap new_line
  wrap_lem offset narrow inside low =
      let wide =
        ltb max_width (offset.x + font.width)
        || ltb framebuffer.width (point.x + offset.x + font.width) in
      let tall =
        ltb max_height (offset.y + font.height)
        || ltb framebuffer.height (point.y + offset.y + font.height) in
      elim (Bool-cases wide) [
        | inl e ↦ elim (Bool-cases tall) [
          | inl e' ↦ inl (rw (e, e') refl)
          | inr e' ↦ inr (
            record { x = 0; y = offset.y + font.height },
            rw (e, e') refl,
            omega arith,
            omega arith,
            (ground arith, ground arith),
          )
        ]
        | inr e ↦ inr (offset, rw e refl, ground arith, ground arith, low)
      ]

  abbrev laid_out : Point → List ℕ → List (ℕ × Point)
  laid_out offset text =
      layout_from font bytes framebuffer (strict max_width) (strict max_height) point offset text

  abbrev wrapped : Point → Option Point
  wrapped offset = wrap font bytes framebuffer (strict max_width) (strict max_height) point offset

  laid_out-none :
      (c : ℕ) (text : List ℕ) (offset : Point)
      → wrapped offset ≡ none
      → laid_out offset (c ∷ text) ≡ []
  unfolding layout_from
  laid_out-none c text offset e = ground (arith, e)

  laid_out-some :
      (c : ℕ) (text : List ℕ) (offset o : Point)
      → wrapped offset ≡ some o
      → laid_out offset (c ∷ text)
        ≡ (glyph_index font bytes framebuffer c, o)
          ∷ laid_out (record o { x = o.x + font.width }) text
  unfolding layout_from
  laid_out-some c text offset o e = ground (arith, e)

  -- In a galley with strict sides, where a glyph fits the width of the galley and of the frame buffer
  -- and the text starts at a height inside the frame buffer, every glyph that is drawn is one of the
  -- font's or the one after its last, its columns lie inside both widths, and its first row lies
  -- at most at the end of both heights, whatever the text is.
  pub layout_from_lem :
      (text : List ℕ) (offset : Point)
      → font.width ≤ max_width
      → point.x + font.width ≤ framebuffer.width
      → (offset.y ≤ max_height) × (point.y + offset.y ≤ framebuffer.height)
      → AllInColumn (
          layout_from font bytes framebuffer
            (strict max_width)
            (strict max_height)
            point
            offset
            text)
  unfolding layout_from
  layout_from_lem [] offset narrow inside low = tt
  layout_from_lem (c ∷ text) offset narrow inside low =
      let after = λ (o : Point) (h : LowEnough o).
        layout_from_lem text (record o { x = o.x + font.width }) narrow inside h in
      elim (wrap_lem offset narrow inside low) [
        | inl e ↦ subst AllInColumn (sym (laid_out-none c text offset e)) tt
        | inr (o, e, column, column', low') ↦
            subst AllInColumn (sym (laid_out-some c text offset o e))
              ((glyph_index-le c, column, column', low'.0, low'.1), after o low')
      ]

  stays :
      font.width ≡ max_width
      → point.x + font.width ≤ framebuffer.width
      → wrapped (record { x = 0; y = 0 }) ≡ some (record { x = 0; y = 0 })
  unfolding wrap
  stays w inside =
      rw
        (
          le→ltb max_width (0 + font.width) (omega arith),
          le→ltb framebuffer.width (point.x + 0 + font.width) (omega arith),
        )
        refl

  goes_down :
      0 < font.width
      → font.width ≡ max_width
      → font.height ≡ max_height
      → point.y + font.height ≤ framebuffer.height
      → wrapped (record { x = 0 + font.width; y = 0 }) ≡ some (record { x = 0; y = font.height })
  unfolding wrap new_line
  goes_down pos w h inside =
      let same : 0 + font.height ≡ font.height = omega arith in
      rw
        (
          lt→ltb max_width (0 + font.width + font.width) (omega arith),
          le→ltb max_height (0 + font.height) (omega arith),
          le→ltb framebuffer.height (point.y + 0 + font.height) (omega arith),
        )
        (ap (λ (y : ℕ). some (record { x = 0; y = y })) same)

  -- The last line may stand below the height: two glyphs in a galley that is one glyph wide and one
  -- glyph high are drawn, the second right under the galley.
  pub layout_from-too_tall :
      (c c' : ℕ)
      → 0 < font.width
      → font.width ≡ max_width
      → font.height ≡ max_height
      → point.x + font.width ≤ framebuffer.width
      → point.y + font.height ≤ framebuffer.height
      → layout_from font bytes framebuffer
          (strict max_width)
          (strict max_height)
          point
          (record { x = 0; y = 0 })
          (c ∷ c' ∷ [])
        ≡ (glyph_index font bytes framebuffer c, record { x = 0; y = 0 })
          ∷ (glyph_index font bytes framebuffer c', record { x = 0; y = font.height })
          ∷ []
  unfolding layout_from
  layout_from-too_tall c c' pos w h inside inside' =
      let start : Point = record { x = 0; y = 0 } in
      let second : Point = record { x = 0 + font.width; y = 0 } in
      let under : Point = record { x = 0; y = font.height } in
      let first = laid_out-some c (c' ∷ []) start start (stays w inside) in
      let next = laid_out-some c' [] second under (goes_down pos w h inside') in
      first ∙ ap (λ l. (glyph_index font bytes framebuffer c, start) ∷ l) next
