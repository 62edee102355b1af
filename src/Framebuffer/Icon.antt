-- ===== src/Framebuffer/Icon.antt =====
-- The icon in the middle of the screen (`draw_icon` of src/framebuffer.rs). Memory is bytes, as is the
-- file with the icon, and `none` is a panic.
use titanium.Base.{ℕ, zero, suc, ◌+◌, ◌-◌, ◌*◌, ◌/◌, ◌%◌, ◌^◌, ◌&&◌}
use titanium.Base.{Option, some, leb, ltb, if◌then◌else◌, check, ◌>>=◌, ◌>>◌}
use titanium.Madt.Layout.{u32_at}
use titanium.Framebuffer.Galley.{Framebuffer, Point}
use titanium.Uacpi.Ports.{checked_add}

abbrev pub icon_height : ℕ
icon_height = 256

abbrev pub icon_width : ℕ
icon_width = 256

-- A `u32` written to memory, the lowest byte first.
unfoldable pub write_u32 : ℕ → ℕ → (ℕ → ℕ) → ℕ → ℕ
write_u32 p value mem q =
    if leb p q && ltb q (p + 4) then value / 2 ^ (8 * (q - p)) % 256 else mem q

-- `let [r,g,b,a] = px.to_le_bytes()` and `u32::from_le_bytes([b,g,r,a])`
unfoldable pub px_data : ℕ → ℕ
px_data px =
    let r = px % 256 in
    let g = px / 256 % 256 in
    let b = px / 0x1_0000 % 256 in
    let a = px / 0x100_0000 % 256 in b + 256 * g + 0x1_0000 * r + 0x100_0000 * a

module _ (icon : ℕ → ℕ) (address : ℕ) (framebuffer : Framebuffer) where
  -- `for x in 0..ICON_WIDTH`, with the rounds that are left.
  unfoldable pub draw_icon_row : ℕ → ℕ → ℕ → ℕ → ℕ → (ℕ → ℕ) → ℕ → ℕ
  draw_icon_row zero x y sx row_ptr mem = mem
  draw_icon_row (suc n) x y sx row_ptr mem =
      draw_icon_row n (suc x) y sx row_ptr
        (write_u32 (row_ptr + 4 * (sx + x)) (px_data (u32_at icon (4 * (x + y * icon_height)))) mem)

  -- `for y in 0..ICON_HEIGHT`; the product is on 64 bits.
  unfoldable pub draw_icon_rows : ℕ → ℕ → ℕ → ℕ → (ℕ → ℕ) → Option (ℕ → ℕ)
  draw_icon_rows zero y sx sy mem = some mem
  draw_icon_rows (suc n) y sx sy mem = do
    check (ltb ((sy + y) * framebuffer.pitch) (2 ^ 64))
    draw_icon_rows n (suc y) sx sy
        (draw_icon_row icon_width 0 y sx (address + (sy + y) * framebuffer.pitch) mem)

  unfoldable pub draw_icon : (ℕ → ℕ) → Option (ℕ → ℕ)
  draw_icon mem = do
    let cx = framebuffer.width / 2
    let cy = framebuffer.height / 2
    check (leb (icon_width / 2) cx)
    check (leb (icon_height / 2) cy)
    draw_icon_rows icon_height 0 (cx - icon_width / 2) (cy - icon_height / 2) mem

-- `Add` and `Sub` of points; a coordinate that overflows panics.
unfoldable pub point_add : Point → Point → Option Point
point_add a rhs = do
  x ← checked_add a.x rhs.x
  y ← checked_add a.y rhs.y
  some (record { x = x; y = y })

unfoldable pub point_sub : Point → Point → Option Point
point_sub a rhs = do
  check (leb rhs.x a.x)
  check (leb rhs.y a.y)
  some (record { x = a.x - rhs.x; y = a.y - rhs.y })

-- `Framebuffer::byte_size` and `pixel_size` of limine.rs, on 64 bits.
unfoldable pub byte_size : Framebuffer → Option ℕ
byte_size framebuffer = do
  check (ltb (framebuffer.height * framebuffer.pitch) (2 ^ 64))
  some (framebuffer.height * framebuffer.pitch)

unfoldable pub pixel_size : Framebuffer → Option ℕ
pixel_size framebuffer = do
  check (ltb (framebuffer.width * framebuffer.height) (2 ^ 64))
  some (framebuffer.width * framebuffer.height)
