-- ===== src/Framebuffer/Tests.antt =====
-- Runs on a screen of 640 by 480 pixels: a small galley, and an icon of counted bytes.
use titanium.Base.{ℕ, ◌+◌, ◌-◌, ◌*◌, ◌/◌, ◌%◌, ◌≤◌, ◌<◌, ◌≡◌, ◌⊎◌, none, some, [], ◌∷◌, arith}
use titanium.Framebuffer.Galley.{PsfFontHeader, Point, Framebuffer, strict, layout_from}
use titanium.Framebuffer.Icon.{draw_icon}
use titanium.Framebuffer.Drawn.{swapped}
use titanium.Framebuffer.Square.{draw_icon_lem}
use titanium.Framebuffer.Placement.{AllInColumn, layout_from_lem}

abbrev font : PsfFontHeader
font = record { headersize = 32; numglyph = 256; bytesperglyph = 12; height = 12; width = 8 }

abbrev screen : Framebuffer
screen = record { width = 640; height = 480; pitch = 2560 }

abbrev corner : Point
corner = record { x = 100; y = 50 }

abbrev blank : ℕ → ℕ
blank b = 0

layout_from_lem_example : AllInColumn font blank screen 20 30 corner (
    layout_from font blank screen
      (strict 20)
      (strict 30)
      corner
      (record { x = 0; y = 0 })
      (72 ∷ 105 ∷ 33 ∷ []))
layout_from_lem_example =
    layout_from_lem font blank screen 20 30 corner (72 ∷ 105 ∷ 33 ∷ []) (record { x = 0; y = 0 })
      (omega arith) (omega arith) (omega arith, omega arith)

abbrev counted : ℕ → ℕ
counted i = i % 256

counted_lt : (i : ℕ) → counted i < 256
counted_lt i = omega arith

draw_icon_lem_example :
    (((640 < 256) ⊎ (480 < 256)) × (draw_icon counted 0x1000 screen blank ≡ none))
    ⊎ ((mem' : ℕ → ℕ) × (draw_icon counted 0x1000 screen blank ≡ some mem')
        × (640 / 2 - 128 + 256 ≤ 640)
        × (480 / 2 - 128 + 256 ≤ 480)
        × ((x y k : ℕ)
            → x < 256
            → y < 256
            → k < 4
            → mem' (0x1000 + (480 / 2 - 128 + y) * 2560 + 4 * (640 / 2 - 128 + x) + k)
              ≡ counted (4 * (x + 256 * y) + swapped k))
        × ((py off : ℕ)
            → off < 2560
            → ((py < 480 / 2 - 128) ⊎ (480 / 2 - 128 + 256 ≤ py))
              ⊎ ((off < 4 * (640 / 2 - 128)) ⊎ (4 * (640 / 2 - 128 + 256) ≤ off))
            → mem' (0x1000 + py * 2560 + off) ≡ blank (0x1000 + py * 2560 + off)))
draw_icon_lem_example =
    draw_icon_lem counted counted_lt 0x1000 screen blank (omega arith) (omega arith)
