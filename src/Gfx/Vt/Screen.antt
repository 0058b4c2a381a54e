-- ===== src/Gfx/Vt/Screen.antt =====
-- What the terminal of kernel/src/gfx/vt/vt.c shows on its drm after a full redraw.
use limix.Base.{
  ℕ, zero, suc, ◌+◌, ◌-◌, ◌*◌, ◌/◌, ◌%◌, ◌^◌, ◌≤◌, ◌<◌, ◌≡◌, ap, ◌∙◌, arith, true, false, ◌&&◌,
  ◌==◌, ltb, leb, if◌then◌else◌, some, Bool-cases, inl, inr,
}
use native.Mathlib.Nat.{mod-lt, div-lt_iff_lt-mul, mul_comm, mul-le-mul_left, mul-suc}
use limix.Libk.Memory.{Mem, kmemset}
use limix.Gfx.Drm.{Display, wrap, drm_fill_rel_rect}
use limix.Gfx.Drm.Char.{glyph, drm_plot_char_solid}
use limix.Gfx.Drm.Device.{drm_clear, drm_is_attached_to_process}
use limix.Gfx.Drm.Draws.{
  Mode, Draws, pixel, with_mem, Mode-with_mem, Draws-none, Draws-then, Draws-eq,
}
use limix.Gfx.Drm.Rect.{in_rect, drm_fill_rel_rect-Draws}
use limix.Gfx.Drm.Glyph.{ink, rows_ink, drm_plot_char_solid-Draws}
use limix.Gfx.Drm.Transfer.{place}
use limix.Gfx.Vt.{Cell, Vt, vt_draw_char, draw_cells, redraw, draw_changes, vt_flush, vt_redraw}

-- The colour of column `cx` and line `cy` of a cell.
unfoldable pub cell_color : (ℕ → ℕ) → Cell → ℕ → ℕ → ℕ
cell_color font c cx cy =
    if c.unicode == 0 then c.bg else ink (glyph font c.unicode cy) (7 - cx) c.fg c.bg

-- Cells `i` to `i + left - 1` of rows of `w` cells get their colours.
abbrev pub cells_ink : (ℕ → ℕ) → (ℕ → Cell) → ℕ → ℕ → ℕ → ℕ → ℕ → ℕ → ℕ
cells_ink font buffer w left i px py o =
    let k = py / 16 * w + px / 8 in
    if ltb px (w * 8) && leb i k && ltb k (i + left)
    then cell_color font (buffer k) (px % 8) (py % 16)
    else o

-- The colours of all cells are colours.
pub record Colors (buffer : ℕ → Cell) : Type 0 where
  pub fg : (i : ℕ) → (buffer i).fg < 2 ^ 32
  pub bg : (i : ℕ) → (buffer i).bg < 2 ^ 32

-- A pixel lies in the rectangle of cell `i` if its own cell is `i`.
cell_rect :
    (w i px py : ℕ)
    → 0 < w
    → in_rect (i % w * 8) (i / w * 16) 8 16 px py ≡ (ltb px (w * 8) && (py / 16 * w + px / 8 == i))
cell_rect w i px py pos = elim (Bool-cases (ltb px (w * 8))) [
  | inl here ↦ ground (arith, here, place w (px / 8) (py / 16) i (ground arith))
  | inr out ↦ ground (arith, out, mod-lt i pos)
]

-- One cell.
draw_shape :
    (font : ℕ → ℕ) (buffer : ℕ → Cell) (w i px py o : ℕ)
    → 0 < w
    → (if in_rect (i % w * 8) (i / w * 16) 8 16 px py
        then cell_color font (buffer i) (px - i % w * 8) (py - i / w * 16)
        else o)
      ≡ cells_ink font buffer w 1 i px py o
draw_shape font buffer w i px py o pos =
    elim (Bool-cases (in_rect (i % w * 8) (i / w * 16) 8 16 px py)) [
      | inl inside ↦
          let cell : py / 16 * w + px / 8 ≡ i = ground (arith, inside, cell_rect w i px py pos) in
          let column : px - i % w * 8 ≡ px % 8 = ground (arith, inside) in
          let line : py - i / w * 16 ≡ py % 16 = ground (arith, inside) in
          rw (column, line, cell) (ground (arith, inside, cell_rect w i px py pos))
      | inr outside ↦ ground (arith, outside, cell_rect w i px py pos)
    ]

module _ (font : ℕ → ℕ) where
  abbrev cell_ink : Cell → ℕ → ℕ → ℕ → ℕ → ℕ → ℕ
  cell_ink c x y px py o = if in_rect x y 8 16 px py then cell_color font c (px - x) (py - y) else o

  draw_cell-Draws :
      (n x y : ℕ) (c : Cell) (s : Display)
      → s.font ≡ some font
      → Mode n s
      → c.fg < 2 ^ 32
      → c.bg < 2 ^ 32
      → x + 8 ≤ (s.drms n).width
      → y + 16 ≤ (s.drms n).height
      → x + 8 < 2 ^ 64
      → y + 16 < 2 ^ 64
      → Draws n (cell_ink c x y) s (
          if c.unicode == 0
          then drm_fill_rel_rect n x y 8 16 c.bg s
          else drm_plot_char_solid n x y c.unicode c.fg c.bg s)
  unfolding cell_color
  draw_cell-Draws n x y c s e m fg bg wx wy sx sy = elim (Bool-cases (c.unicode == 0)) [
    | inl empty ↦ rw empty (
        Draws-eq n _ _ s _ (λ px py o. ground (arith, empty))
          (drm_fill_rel_rect-Draws n c.bg bg x y 8 16 s m wx wy sx sy))
    | inr full ↦ rw full (
        Draws-eq n _ _ s _ (λ px py o. inked px py o full)
          (drm_plot_char_solid-Draws n c.fg c.bg fg bg font x y c.unicode s e m wx wy sx sy))
  ]
    where
      inked :
          (px py o : ℕ)
          → (c.unicode == 0) ≡ false
          → rows_ink 16 font 0 x y c.unicode c.fg c.bg px py o ≡ cell_ink c x y px py o
      inked px py o full = elim (Bool-cases (in_rect x y 8 16 px py)) [
        | inl inside ↦
            let e : x + 8 - 1 - px ≡ 7 - (px - x) = ground (arith, inside) in
            ground (
              arith,
              inside,
              full,
              ap (λ (k : ℕ). ink (glyph font c.unicode (py - y)) k c.fg c.bg) e,
            )
        | inr outside ↦ ground (arith, outside)
      ]

-- The cells of the terminal have a place on its drm, whose mode and font are set.
pub record Placed (font : ℕ → ℕ) (v : Vt) (s : Display) : Type 0 where
  pub available : v.avail ≡ true
  pub mode : Mode v.drm s
  pub loaded : s.font ≡ some font
  pub across : v.width * 8 ≤ (s.drms v.drm).width
  pub down : v.height * 16 ≤ (s.drms v.drm).height
  pub small_height : v.height < 2 ^ 20

module _ (font : ℕ → ℕ) (v : Vt) (colors : Colors v.buffer) where
  abbrev drawn : ℕ → Display → Display
  drawn i s =
      let c = v.buffer i in
      let px = wrap (i % v.width * 8) in
      let py = wrap (i / v.width * 16) in
      if c.unicode == 0
      then drm_fill_rel_rect v.drm px py 8 16 c.bg s
      else drm_plot_char_solid v.drm px py c.unicode c.fg c.bg s

  draw_char-drawn :
      (i : ℕ) (s : Display)
      → v.avail ≡ true
      → vt_draw_char i (record v { display = s }) ≡ record v { display = drawn i s }
  unfolding vt_draw_char
  draw_char-drawn i s a = ground (arith, a)

  drawn-Draws :
      (i : ℕ) (s : Display)
      → Placed font v s
      → 0 < v.width
      → i < v.width * v.height
      → Draws v.drm (cells_ink font v.buffer v.width 1 i) s (drawn i s)
  drawn-Draws i s p pos l =
      let column = mod-lt i pos in
      let line : i / v.width < v.height =
        (div-lt_iff_lt-mul pos).1 (omega (arith, mul_comm v.width v.height)) in
      let sx : wrap (i % v.width * 8) ≡ i % v.width * 8 =
        omega (arith, p.across, (p.mode).narrow) in
      let sy : wrap (i / v.width * 16) ≡ i / v.width * 16 = omega (arith, p.small_height) in
      rw (sx, sy)
        (Draws-eq v.drm _ _ s _ (λ px py o. draw_shape font v.buffer v.width i px py o pos)
          (draw_cell-Draws font v.drm (i % v.width * 8) (i / v.width * 16) (v.buffer i) s p.loaded
            p.mode (colors.fg i) (colors.bg i) (omega (arith, p.across)) (omega (arith, p.down))
            (omega (arith, p.across, (p.mode).narrow)) (omega (arith, p.small_height))))

  Placed-with_mem : (s : Display) (m : Mem) → Placed font v s → Placed font v (with_mem s m)
  Placed-with_mem s m p = record {
    available = p.available;
    mode = Mode-with_mem v.drm s m p.mode;
    loaded = p.loaded;
    across = p.across;
    down = p.down;
    small_height = p.small_height;
  }

  draw_next :
      (left i : ℕ) (s : Display)
      → v.avail ≡ true
      → draw_cells (suc left) i (record v { display = s })
        ≡ draw_cells left (i + 1) (record v { display = drawn i s })
  unfolding draw_cells
  draw_next left i s a = ap (draw_cells left (i + 1)) (draw_char-drawn i s a)

  draw_cells-Draws :
      (left i : ℕ) (s : Display)
      → Placed font v s
      → 0 < v.width
      → i + left ≤ v.width * v.height
      → Draws v.drm
          (cells_ink font v.buffer v.width left i)
          s
          (draw_cells left i (record v { display = s })).display
  unfolding draw_cells
  draw_cells-Draws zero i s p pos l =
      Draws-eq v.drm _ _ s s (λ px py o. ground arith) (Draws-none v.drm s)
  draw_cells-Draws (suc left) i s p pos l =
      let one = drawn-Draws i s p pos (omega arith) in
      rw (draw_next left i s p.available) (
        Draws-eq v.drm _ _ s _ (λ px py o. ground arith)
          (Draws-then v.drm _ (cells_ink font v.buffer v.width left (i + 1)) s (drawn i s)
            (λ t. (draw_cells left (i + 1) (record v { display = t })).display) one
            (draw_cells-Draws left (i + 1) (with_mem s one.mem) (Placed-with_mem s one.mem p) pos
              (omega arith))))

  -- All cells.
  all_ink :
      (px py o : ℕ)
      → px < v.width * 8
      → py < v.height * 16
      → cells_ink font v.buffer v.width (v.width * v.height) 0 px py o
        ≡ cell_color font (v.buffer (py / 16 * v.width + px / 8)) (px % 8) (py % 16)
  all_ink px py o wx wy =
      let rows : v.width * suc (py / 16) ≤ v.width * v.height =
        mul-le-mul_left v.width (omega arith) in
      let inside : py / 16 * v.width + px / 8 < v.width * v.height =
        omega (arith, rows, mul-suc v.width (py / 16), mul_comm v.width (py / 16)) in
      ground (arith, inside)

cleared : (n : ℕ) (s : Display) → s.initialized ≡ true → (m : Mem) × (drm_clear n s ≡ with_mem s m)
unfolding drm_clear
cleared n s e =
    let d = s.drms n in
    (kmemset s.mem d.framebuffer 0 (wrap (d.width * d.height * d.bpp) / 8), ground (arith, e))

-- A full redraw clears the drm and draws all cells.
redraw_display :
    (v : Vt)
    → v.avail ≡ true
    → v.width * v.height < 2 ^ 64
    → drm_is_attached_to_process v.drm v.display ≡ false
    → (vt_redraw v).display
      ≡ (draw_cells
          (v.width * v.height)
          0
          (record v { full_redraw = true; display = drm_clear v.drm v.display })).display
unfolding vt_redraw vt_flush redraw draw_changes
redraw_display v a small free =
    let u : Vt = record v { full_redraw = true; display = drm_clear v.drm v.display } in
    let size : wrap (v.width * v.height) ≡ v.width * v.height = omega arith in
    let all : draw_cells (wrap (v.width * v.height)) 0 u ≡ draw_cells (v.width * v.height) 0 u =
      ap (λ (k : ℕ). draw_cells k 0 u) size in
    ground (arith, a, free, all)

-- vt_redraw with a loaded font makes each pixel of the text area what its cell says: the background of
-- an empty cell, and the glyph in the colours of any other. The terminal has a place on its drm, which
-- no process has taken, and its cells have colours of 32 bits.
pub vt_redraw-shows :
    (font : ℕ → ℕ) (v : Vt) (px py : ℕ)
    → Colors v.buffer
    → Placed font v v.display
    → v.width * v.height < 2 ^ 64
    → drm_is_attached_to_process v.drm v.display ≡ false
    → px < v.width * 8
    → py < v.height * 16
    → pixel v.drm v.display ((vt_redraw v).display).mem px py
      ≡ cell_color font (v.buffer (py / 16 * v.width + px / 8)) (px % 8) (py % 16)
vt_redraw-shows font v px py colors p small free wx wy =
    let u : Vt = record v { full_redraw = true } in
    let (m, clear) = cleared v.drm v.display (p.mode).initialized in
    let s = with_mem v.display m in
    let placed : Placed font u s = record {
      available = p.available;
      mode = Mode-with_mem v.drm v.display m p.mode;
      loaded = p.loaded;
      across = p.across;
      down = p.down;
      small_height = p.small_height;
    } in
    let d =
      draw_cells-Draws font u colors (v.width * v.height) 0 s placed (omega arith) (omega arith) in
    let drawn_all : (vt_redraw v).display ≡ with_mem s d.mem =
      redraw_display v p.available small free
      ∙ ap (λ (t : Display). (draw_cells (v.width * v.height) 0 (record u { display = t })).display)
          clear
      ∙ d.ran in
    ap (λ (t : Display). pixel v.drm v.display t.mem px py) drawn_all
    ∙ d.pixels px py (omega (arith, p.across)) (omega (arith, p.down))
    ∙ all_ink font u colors px py (pixel v.drm v.display m px py) wx wy
