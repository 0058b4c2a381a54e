-- ===== src/Gfx.antt =====
-- kernel/src/gfx: the framebuffer and the terminal that is drawn on it.
pub mod Drm
pub mod Ansi
pub mod Vt
