-- ===== src/Gfx/Drm.antt =====
-- kernel/src/gfx/drm/drm.c with DRM_WRITETHROUGH, as config.h sets it: pixels, rectangles and
-- characters in the memory of the screen or of a buffer. The spinlocks order whole operations.
-- u64 arithmetic wraps at 2 ^ 64.
pub mod Pixel
pub mod Draws
pub mod Rect
pub mod Char
pub mod Device
pub mod Glyph
pub mod Transfer
pub mod Register
pub mod Line
pub mod Walk
pub mod Rounds
pub mod Straight
pub mod Circle
mod Tests
use limix.Base.{
  ℕ, zero, suc, ◌+◌, ◌-◌, ◌*◌, ◌/◌, ◌%◌, ◌^◌, Bool, true, false, not, ◌||◌, ◌==◌, ltb, leb,
  if◌then◌else◌, Option, none, some, bit_and,
}
use limix.Libk.Memory.{Mem, store}

abbrev pub wrap : ℕ → ℕ
wrap x = x % 2 ^ 64

-- `Drm`
pub record Drm : Type 0 where
  pub framebuffer : ℕ
  pub width : ℕ
  pub height : ℕ
  pub bpp : ℕ
  pub flags : ℕ
  pub pitch : ℕ

-- The static variables of drm.c, the address and size of the screen in g_fb, and g_8x16_font.
pub record Display : Type 0 where
  pub mem : Mem
  pub screen : Drm
  pub drms : ℕ → Drm
  pub active : ℕ
  pub initialized : Bool
  pub font : Option (ℕ → ℕ)

abbrev pub max_drms : ℕ
max_drms = 1

-- Where the pixels of drm `n` lie: on the screen, or in its own buffer.
abbrev pub base : ℕ → Display → ℕ
base n s = if s.active == n then (s.screen).framebuffer else (s.drms n).framebuffer

unfoldable pub drm_plot : ℕ → ℕ → ℕ → ℕ → Display → Display
drm_plot n x y c s =
    let d = s.drms n in
    let a = wrap (base n s + (d.pitch * y + wrap (x * d.bpp) / 8)) in
    if not s.initialized
    then s
    else if ltb d.width x
    then s
    else if ltb d.height y
    then s
    else record s { mem = store 4 s.mem a c }

-- The inner loop over `y`, and the loop over `x`, with the rounds that are left.
unfoldable pub fill_column : ℕ → ℕ → ℕ → ℕ → ℕ → Display → Display
fill_column zero n x y c s = s
fill_column (suc rows) n x y c s = fill_column rows n x (y + 1) c (drm_plot n x y c s)

unfoldable pub fill_columns : ℕ → ℕ → ℕ → ℕ → ℕ → ℕ → Display → Display
fill_columns zero rows n x y c s = s
fill_columns (suc columns) rows n x y c s =
    fill_columns columns rows n (x + 1) y c (fill_column rows n x y c s)

unfoldable pub drm_fill_rect : ℕ → ℕ → ℕ → ℕ → ℕ → ℕ → Display → Display
drm_fill_rect n x0 y0 x1 y1 c s =
    if not s.initialized then s else fill_columns (x1 - x0) (y1 - y0) n x0 y0 c s

unfoldable pub drm_fill_rel_rect : ℕ → ℕ → ℕ → ℕ → ℕ → ℕ → Display → Display
drm_fill_rel_rect n x0 y0 w h c s =
    if not s.initialized
    then s
    else fill_columns (wrap (x0 + w) - x0) (wrap (y0 + h) - y0) n x0 y0 c s
