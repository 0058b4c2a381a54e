-- ===== src/Gfx/Vt.antt =====
-- kernel/src/gfx/vt/vt.c: the text terminal. The buffer is an array of cells; kmemmove and kmemset
-- on it act on whole cells. The spinlock orders whole calls, and CONFIG_SCROLL_STEP is 4. Numbers
-- are u64 and wrap. LOG_SERIAL is not defined in the build.
pub mod Cursor
pub mod Page
pub mod Print
pub mod Bounds
pub mod Text
pub mod Screen
mod Tests
use limix.Base.{
  ℕ, zero, suc, ◌+◌, ◌-◌, ◌*◌, ◌/◌, ◌%◌, ◌^◌, Bool, true, false, not, ◌==◌, ltb, leb, if◌then◌else◌,
  Option, none, some, bit_and, bit_or, List, [], ◌∷◌, ◌&&◌,
}
use limix.Mm.Pmm.{MemoryTag}
use limix.Gfx.Drm.{wrap, Display, drm_fill_rel_rect}
use limix.Gfx.Drm.Char.{drm_plot_char_solid}
use limix.Gfx.Drm.Device.{drm_clear, drm_is_attached_to_process, hhdm_request_pages}
use limix.Gfx.Ansi.{
  Rendition, AnsiState, vt_bold, vt_dim, vt_reverse, ansi_convert_fg, ansi_convert_bg, ansi_process,
}

abbrev pub scroll_step : ℕ
scroll_step = 4

-- `VtChar`
pub record Cell : Type 0 where
  pub unicode : ℕ
  pub fg : ℕ
  pub bg : ℕ

abbrev pub blank : Cell
blank = record { unicode = 0; fg = 0; bg = 0 }

-- The static variables of vt.c, and the display that it draws on.
pub record Vt : Type 0 where
  pub buffer : ℕ → Cell
  pub height : ℕ
  pub width : ℕ
  pub x : ℕ
  pub y : ℕ
  pub dirty_start : ℕ
  pub dirty_end : ℕ
  pub dirty : Bool
  pub full_redraw : Bool
  pub state : AnsiState
  pub drm : ℕ
  pub avail : Bool
  pub termcode : Bool
  pub display : Display

unfoldable pub vt_draw_char : ℕ → Vt → Vt
vt_draw_char i v =
    let c = v.buffer i in
    let px = wrap (i % v.width * 8) in
    let py = wrap (i / v.width * 16) in
    if not v.avail then v else record v {
      display =
          if c.unicode == 0
          then drm_fill_rel_rect v.drm px py 8 16 c.bg v.display
          else drm_plot_char_solid v.drm px py c.unicode c.fg c.bg v.display;
    }

-- `left` cells from `i` on.
unfoldable pub draw_cells : ℕ → ℕ → Vt → Vt
draw_cells zero i v = v
draw_cells (suc left) i v = draw_cells left (i + 1) (vt_draw_char i v)

-- The loop over the dirty cells, which ends at the end of the buffer.
unfoldable pub draw_dirty : ℕ → ℕ → Vt → Vt
draw_dirty zero i v = v
draw_dirty (suc left) i v = elim (leb (wrap (v.width * v.height)) i) [
  | true ↦ v
  | false ↦ draw_dirty left (i + 1) (vt_draw_char i v)
]

unfoldable pub redraw : Vt → Vt
redraw v =
    if v.full_redraw
    then record (draw_cells (wrap (v.width * v.height)) 0
        (record v { display = drm_clear v.drm v.display })) { full_redraw = false; dirty = false }
    else v

unfoldable pub draw_changes : Vt → Vt
draw_changes v =
    if v.dirty
    then record (draw_dirty (v.dirty_end + 1 - v.dirty_start) v.dirty_start v) { dirty = false }
    else v

-- drm_sync writes nothing, since all writes go through.
unfoldable pub vt_flush : Vt → Vt
unfolding redraw draw_changes
vt_flush v =
    let r = draw_changes (redraw v) in
    if not v.avail
    then v
    else if drm_is_attached_to_process v.drm v.display
    then v
    else record r { dirty_start = wrap (r.width * r.height); dirty_end = 1 }

unfoldable pub vt_redraw : Vt → Vt
vt_redraw v = if not v.avail then v else vt_flush (record v { full_redraw = true })

unfoldable pub vt_clear : Vt → Vt
vt_clear v =
    if not v.avail
    then v
    else vt_flush (record v {
      x = 0;
      y = 0;
      buffer = λ i. if ltb i (wrap (v.height * v.width)) then blank else v.buffer i;
      full_redraw = true;
    })

-- `none` is a panic; `v.buffer` is what the pages hold before.
unfoldable pub vt_init : ℕ → ℕ → List MemoryTag → Vt → Option (Vt × List MemoryTag)
vt_init hhaddr n tags v =
    let w = ((v.display).drms n).width / 8 in
    let h = ((v.display).drms n).height / 16 in
    elim (hhdm_request_pages hhaddr (wrap (wrap (w * h * 12) + 4095) / 4096) tags) [
      | none ↦ none
      | some (a, tags') ↦
          if a == 0
          then none
          else some (
            vt_clear (record v {
              drm = n;
              width = w;
              height = h;
              state = record v.state { gr = record { fg_index = 7; bg_index = 0; font_state = 0 } };
              avail = true;
            }),
            tags',
          )
    ]

-- The buffer moved up by `scroll_step` lines, with blank lines at the end.
unfoldable pub scroll : ℕ → ℕ → (ℕ → Cell) → ℕ → Cell
scroll w h buffer i =
    let kept = wrap (w * wrap (h + 2 ^ 64 - scroll_step)) in
    if ltb i kept
    then buffer (i + w * scroll_step)
    else if ltb i (kept + w * scroll_step)
    then blank
    else buffer i

unfoldable pub vt_advance_y : Vt → Vt
vt_advance_y v =
    let down = record v { y = wrap (v.y + 1); dirty = true } in
    if not v.avail
    then v
    else vt_flush (
        if leb v.height (wrap (v.y + 1))
        then record down {
          y = wrap (wrap (v.y + 1) + 2 ^ 64 - scroll_step);
          buffer = scroll v.width v.height v.buffer;
          full_redraw = true;
        }
        else down)

unfoldable pub vt_advance_x : Vt → Vt
vt_advance_x v =
    if not v.avail
    then v
    else if leb v.width (wrap (v.x + 1))
    then vt_advance_y (record v { x = 0 })
    else record v { x = wrap (v.x + 1) }

-- The first switch of kprintc: what a code behind BEL does to the rendition.
unfoldable pub apply_termcode : ℕ → Rendition → Rendition
apply_termcode c gr =
    if c == 0x01
    then record { fg_index = 7; bg_index = 0; font_state = 0 }
    else if c == 0x02
    then record gr { font_state = bit_or gr.font_state vt_dim }
    else if c == 0x03
    then record gr { font_state = bit_or gr.font_state vt_bold }
    else if c == 0x04
    then record gr { font_state = bit_or gr.font_state vt_reverse }
    else if c == 0x05
    then record gr { font_state = bit_and gr.font_state (0xff - vt_dim) }
    else if c == 0x06
    then record gr { font_state = bit_and gr.font_state (0xff - vt_bold) }
    else if c == 0x07
    then record gr { font_state = bit_and gr.font_state (0xff - vt_reverse) }
    else if leb 0x11 c && leb c 0x18
    then record gr { fg_index = c - 0x11 }
    else if leb 0x21 c && leb c 0x28
    then record gr { bg_index = c - 0x21 }
    else gr

-- The place of the cursor in the buffer.
abbrev pub cursor : Vt → ℕ
cursor v = wrap (v.y * v.width + v.x)

unfoldable pub mark_dirty : Vt → Vt
mark_dirty v = record v {
  dirty = true;
  dirty_start = if ltb (cursor v) v.dirty_start then cursor v else v.dirty_start;
  dirty_end = if ltb (cursor v) v.dirty_end then v.dirty_end else cursor v;
}

-- A character of the buffer is the C char, sign extended to a u32.
abbrev pub char_cell : ℕ → Rendition → Cell
char_cell c gr = record {
  unicode = if ltb c 128 then c else c + (2 ^ 32 - 256);
  fg = ansi_convert_fg gr;
  bg = ansi_convert_bg gr;
}

unfoldable pub put_char : ℕ → Vt → Vt
unfolding mark_dirty
put_char c v = vt_advance_x (record (mark_dirty v) {
  buffer = λ i. if i == cursor v then char_cell c (v.state).gr else v.buffer i;
})

unfoldable pub tab : ℕ → Vt → Vt
tab zero v = v
tab (suc left) v = tab left (vt_advance_x v)

-- The second switch of kprintc.
unfoldable pub print_plain : ℕ → Vt → Vt
unfolding mark_dirty put_char tab
print_plain c v =
    if c == 0x0a
    then vt_advance_y (vt_flush (mark_dirty v))
    else if c == 0x0d
    then record v { x = 0 }
    else if c == 0x08
    then record v { x = wrap (v.x + 2 ^ 64 - 1) }
    else if c == 0x07
    then record v { termcode = true }
    else if c == 0x09
    then tab 8 v
    else put_char c v

unfoldable pub kprintc : ℕ → Vt → Vt
unfolding print_plain
kprintc c v =
    if not v.avail
    then v
    else if (v.state).working
    then record v { state = ansi_process v.state c }
    else if v.termcode
    then record v {
      termcode = false;
      state = record v.state { gr = apply_termcode c (v.state).gr };
    }
    else print_plain c v

unfoldable pub print_all : List ℕ → Vt → Vt
print_all [] v = v
print_all (c ∷ cs) v = print_all cs (kprintc c v)

-- `s` as the bytes before its 0.
unfoldable pub kprint : List ℕ → Vt → Vt
kprint s v = if not v.avail then v else vt_flush (print_all s v)
