-- ===== src/Gfx/Vt/Cursor.antt =====
-- The cursor and the cells of the terminal of kernel/src/gfx/vt/vt.c.
use limix.Base.{ℕ, zero, suc, ◌+◌, ◌-◌, ◌*◌, ◌^◌, ◌≤◌, ◌<◌, ◌≡◌, arith, true, false, leb}
use native.Mathlib.Nat.{mul-le-mul_left, mul-suc, mul_comm}
use limix.Gfx.Drm.{wrap}
use limix.Gfx.Drm.Device.{drm_clear}
use limix.Gfx.Vt.{
  Vt, cursor, vt_draw_char, draw_cells, draw_dirty, redraw, draw_changes, vt_flush, scroll,
  vt_advance_y,
}

-- The cursor lies on the screen, a scroll step fits it, and its cells have numbers that do not wrap.
pub record IsReady (v : Vt) : Type 0 where
  pub available : v.avail ≡ true
  pub column : v.x < v.width
  pub line : v.y < v.height
  pub tall : 4 ≤ v.height
  pub small_width : v.width < 2 ^ 20
  pub small_height : v.height < 2 ^ 20

-- What drawing leaves as it is.
pub record Keeps (v r : Vt) : Type 0 where
  pub buffer : r.buffer ≡ v.buffer
  pub height : r.height ≡ v.height
  pub width : r.width ≡ v.width
  pub x : r.x ≡ v.x
  pub y : r.y ≡ v.y
  pub state : r.state ≡ v.state
  pub avail : r.avail ≡ v.avail
  pub termcode : r.termcode ≡ v.termcode

draws_char : (i : ℕ) (v : Vt) → Keeps v (vt_draw_char i v)
unfolding vt_draw_char
draws_char i v = ground arith

trans_Keeps : (v r t : Vt) → Keeps v r → Keeps r t → Keeps v t
trans_Keeps v r t k l = ground arith

draw_cells-Keeps : (left i : ℕ) (v : Vt) → Keeps v (draw_cells left i v)
unfolding draw_cells
draw_cells-Keeps zero i v = ground arith
draw_cells-Keeps (suc left) i v =
    trans_Keeps v (vt_draw_char i v) _ (draws_char i v)
      (draw_cells-Keeps left (i + 1) (vt_draw_char i v))

draw_dirty-Keeps : (left i : ℕ) (v : Vt) → Keeps v (draw_dirty left i v)
unfolding draw_dirty
draw_dirty-Keeps zero i v = ground arith
draw_dirty-Keeps (suc left) i v =
    ground (arith, draws_char i v, draw_dirty-Keeps left (i + 1) (vt_draw_char i v))

redraw-Keeps : (v : Vt) → Keeps v (redraw v)
unfolding redraw
redraw-Keeps v =
    let cleared : Vt = record v { display = drm_clear v.drm v.display } in
    ground (arith, draw_cells-Keeps (wrap (v.width * v.height)) 0 cleared)

draw_changes-Keeps : (v : Vt) → Keeps v (draw_changes v)
unfolding draw_changes
draw_changes-Keeps v =
    ground (arith, draw_dirty-Keeps (v.dirty_end + 1 - v.dirty_start) v.dirty_start v)

pub vt_flush-Keeps : (v : Vt) → Keeps v (vt_flush v)
unfolding vt_flush
vt_flush-Keeps v = ground (arith, redraw-Keeps v, draw_changes-Keeps (redraw v))

-- The numbers of the cells of a ready terminal do not wrap.
pub cells_small :
    (v : Vt)
    → IsReady v
    → (wrap (v.width * v.height) ≡ v.width * v.height)
      × (cursor v ≡ v.y * v.width + v.x)
      × (v.y * v.width + v.width ≤ v.width * v.height)
cells_small v r =
    let wide : v.width * suc v.y ≤ v.width * v.height = mul-le-mul_left v.width r.line in
    let bound : v.width * v.height ≤ v.width * 2 ^ 20 =
      mul-le-mul_left v.width (omega (arith, r.small_height)) in
    omega (arith, wide, bound, mul-suc v.width v.y, mul_comm v.y v.width, r.small_width, r.column)

-- One line down on the screen, and past its end.
pub next_line :
    (v : Vt) → IsReady v → v.y + 1 < v.height → Keeps (record v { y = v.y + 1 }) (vt_advance_y v)
unfolding vt_advance_y
next_line v r l =
    let fits : leb v.height (wrap (v.y + 1)) ≡ false = ground (arith, r.small_height) in
    ground
      (arith, r.available, fits, vt_flush-Keeps (record v { y = wrap (v.y + 1); dirty = true }))

pub next_screen :
    (v : Vt)
    → IsReady v
    → v.y + 1 ≡ v.height
    → Keeps
        (record v { y = v.height - 4; buffer = scroll v.width v.height v.buffer })
        (vt_advance_y v)
unfolding vt_advance_y
next_screen v r l =
    let full : leb v.height (wrap (v.y + 1)) ≡ true = ground (arith, r.small_height) in
    ground (
      arith,
      r.available,
      full,
      vt_flush-Keeps (record v {
        y = wrap (wrap (v.y + 1) + 2 ^ 64 - 4);
        dirty = true;
        buffer = scroll v.width v.height v.buffer;
        full_redraw = true;
      }),
    )
