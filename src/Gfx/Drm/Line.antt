-- ===== src/Gfx/Drm/Line.antt =====
-- The lines and circles of kernel/src/gfx/drm/drm.c. An i32 is its 32-bit pattern; sums wrap.
use limix.Base.{
  ℕ, zero, suc, ◌+◌, ◌-◌, ◌*◌, ◌/◌, ◌%◌, ◌^◌, Bool, not, ◌==◌, ltb, leb, if◌then◌else◌,
}
use limix.Gfx.Drm.{wrap, Display, drm_plot}

abbrev pub negative : ℕ → Bool
negative w = leb (2 ^ 31) w

abbrev pub add32 : ℕ → ℕ → ℕ
add32 a b = (a + b) % 2 ^ 32

abbrev pub sub32 : ℕ → ℕ → ℕ
sub32 a b = (a + 2 ^ 32 - b) % 2 ^ 32

-- A u64 as an i32, and an i32 as a u64.
abbrev pub low32 : ℕ → ℕ
low32 x = x % 2 ^ 32

abbrev pub extend : ℕ → ℕ
extend w = if negative w then w + (2 ^ 64 - 2 ^ 32) else w

-- `sign(d)`, and `if (d < 0) d *= -1`
unfoldable pub sign : ℕ → ℕ
sign d = if negative d then 2 ^ 32 - 1 else if d == 0 then 0 else 1

unfoldable pub magnitude : ℕ → ℕ
magnitude d = if negative d then sub32 0 d else d

-- `a < b` of two i32.
unfoldable pub less32 : ℕ → ℕ → Bool
less32 a b = ltb (add32 a (2 ^ 31)) (add32 b (2 ^ 31))

-- The variables of drm_plot_line that its loop keeps.
pub record Slope : Type 0 where
  pub deltafastdirection : ℕ
  pub deltaslowdirection : ℕ
  pub pdx : ℕ
  pub pdy : ℕ
  pub ddx : ℕ
  pub ddy : ℕ

-- Those that it changes.
pub record Pen : Type 0 where
  pub err : ℕ
  pub x : ℕ
  pub y : ℕ

unfoldable pub slope_of : ℕ → ℕ → Slope
unfolding sign magnitude less32
slope_of dx dy =
    if less32 (magnitude dy) (magnitude dx)
    then record {
      deltafastdirection = magnitude dx;
      deltaslowdirection = magnitude dy;
      pdx = sign dx;
      pdy = 0;
      ddx = sign dx;
      ddy = sign dy;
    }
    else record {
      deltafastdirection = magnitude dy;
      deltaslowdirection = magnitude dx;
      pdx = 0;
      pdy = sign dy;
      ddx = sign dx;
      ddy = sign dy;
    }

unfoldable pub pen_step : Slope → Pen → Pen
pen_step l p =
    let err = sub32 p.err l.deltaslowdirection in
    if negative err
    then record { err = add32 err l.deltafastdirection; x = add32 p.x l.ddx; y = add32 p.y l.ddy }
    else record { err = err; x = add32 p.x l.pdx; y = add32 p.y l.pdy }

-- `for (t = 0; t < deltafastdirection; ++t)`, with the rounds that are left.
unfoldable pub line_loop : ℕ → Slope → Pen → ℕ → ℕ → Display → Display
line_loop zero l p n c s = s
line_loop (suc left) l p n c s =
    let q = pen_step l p in line_loop left l q n c (drm_plot n (extend q.x) (extend q.y) c s)

-- A negative bound gives no rounds.
abbrev pub line_rounds : Slope → ℕ
line_rounds l = if negative l.deltafastdirection then 0 else l.deltafastdirection

unfoldable pub drm_plot_line : ℕ → ℕ → ℕ → ℕ → ℕ → ℕ → Display → Display
unfolding line_loop slope_of
drm_plot_line n x0 y0 x1 y1 c s =
    let l = slope_of (low32 (wrap (x1 + 2 ^ 64 - x0))) (low32 (wrap (y1 + 2 ^ 64 - y0))) in
    let p : Pen = record { err = l.deltafastdirection / 2; x = low32 x0; y = low32 y0 } in
    if not s.initialized
    then s
    else line_loop (line_rounds l) l p n c (drm_plot n (extend (low32 x0)) (extend (low32 y0)) c s)

unfoldable pub drm_plot_rect : ℕ → ℕ → ℕ → ℕ → ℕ → ℕ → Display → Display
unfolding drm_plot_line
drm_plot_rect n x0 y0 x1 y1 c s =
    if not s.initialized
    then s
    else drm_plot_line n x1 y0 x1 y1 c (
        drm_plot_line n x0 y1 x1 y1 c
          (drm_plot_line n x0 y0 x0 y1 c (drm_plot_line n x0 y0 x1 y0 c s)))

-- The variables of the loop of drm_plot_circle.
pub record Arc : Type 0 where
  pub f : ℕ
  pub ddf_x : ℕ
  pub ddf_y : ℕ
  pub x : ℕ
  pub y : ℕ

unfoldable pub arc_step : Arc → Arc
arc_step a =
    let down = not (negative a.f) in
    let ddf_y = if down then add32 a.ddf_y 2 else a.ddf_y in
    let f = if down then add32 a.f ddf_y else a.f in
    let ddf_x = add32 a.ddf_x 2 in
    record {
      f = add32 f (add32 ddf_x 1);
      ddf_x = ddf_x;
      ddf_y = ddf_y;
      x = add32 a.x 1;
      y = if down then sub32 a.y 1 else a.y;
    }

-- `x0 + d` and `x0 - d` for an i32 `d`.
abbrev pub plus : ℕ → ℕ → ℕ
plus x d = wrap (x + extend d)

abbrev pub minus : ℕ → ℕ → ℕ
minus x d = wrap (x + 2 ^ 64 - extend d)

unfoldable pub plot_octants : ℕ → ℕ → ℕ → ℕ → Arc → Display → Display
plot_octants n x0 y0 c a s = drm_plot n (minus x0 a.y) (minus y0 a.x) c (
    drm_plot n (plus x0 a.y) (minus y0 a.x) c (
      drm_plot n (minus x0 a.y) (plus y0 a.x) c (
        drm_plot n (plus x0 a.y) (plus y0 a.x) c (
          drm_plot n (minus x0 a.x) (minus y0 a.y) c (
            drm_plot n (plus x0 a.x) (minus y0 a.y) c (
              drm_plot n (minus x0 a.x) (plus y0 a.y) c
                (drm_plot n (plus x0 a.x) (plus y0 a.y) c s)))))))

-- `while (x < y)` on fuel: `x` grows and `y` does not, so as many rounds as the radius are enough.
unfoldable pub circle_loop : ℕ → ℕ → ℕ → ℕ → ℕ → Arc → Display → Display
unfolding less32
circle_loop zero n x0 y0 c a s = s
circle_loop (suc fuel) n x0 y0 c a s =
    let rest = circle_loop fuel n x0 y0 c (arc_step a) (plot_octants n x0 y0 c (arc_step a) s) in
    if less32 a.x a.y then rest else s

unfoldable pub drm_plot_circle : ℕ → ℕ → ℕ → ℕ → ℕ → Display → Display
unfolding circle_loop
drm_plot_circle n x0 y0 r c s =
    let a : Arc = record {
      f = low32 (wrap (1 + 2 ^ 64 - r));
      ddf_x = 0;
      ddf_y = low32 (wrap ((2 ^ 64 - 2) * r));
      x = 0;
      y = low32 r;
    } in
    let s1 = drm_plot n x0 (wrap (y0 + r)) c s in
    let s2 = drm_plot n x0 (wrap (y0 + 2 ^ 64 - r)) c s1 in
    let s3 = drm_plot n (wrap (x0 + r)) y0 c s2 in
    let s4 = drm_plot n (wrap (x0 + 2 ^ 64 - r)) y0 c s3 in
    if not s.initialized then s else circle_loop (low32 r) n x0 y0 c a s4
