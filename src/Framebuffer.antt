-- ===== src/Framebuffer.antt =====
-- Text and the icon on the frame buffer (src/framebuffer.rs, src/framebuffer/font.rs).
pub mod Galley
pub mod Placement
pub mod Icon
pub mod Drawn
pub mod Rows
pub mod Square
pub mod Tests
