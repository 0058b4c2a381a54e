-- ===== src/Gfx/Vt/Tests.antt =====
-- The theorems on the terminal at one of 8 columns and 4 lines.
use limix.Base.{ℕ, ◌%◌, ◌≡◌, refl, arith, true, false, none, some, List, [], ◌∷◌}
use limix.Gfx.Drm.{Drm}
use limix.Gfx.Ansi.{c1}
use limix.Gfx.Vt.{blank, Vt, kprint, vt_redraw}
use limix.Gfx.Vt.Cursor.{IsReady}
use limix.Gfx.Vt.Page.{type_bytes}
use limix.Gfx.Vt.Print.{page_of, Shows, kprint-Shows}
use limix.Gfx.Vt.Bounds.{kprint-outside}
use limix.Gfx.Drm.Draws.{Mode, pixel}
use limix.Gfx.Drm.Device.{drm_is_attached_to_process}
use limix.Gfx.Vt.Screen.{Colors, Placed, cell_color, vt_redraw-shows}

abbrev drm : Drm
drm = record { framebuffer = 0x1000; width = 64; height = 64; bpp = 32; flags = 0; pitch = 256 }

-- The terminal with the cursor in column `x` of line `y`.
abbrev terminal : ℕ → ℕ → Vt
terminal x y = record {
  buffer = λ i. blank;
  height = 4;
  width = 8;
  x = x;
  y = y;
  dirty_start = 32;
  dirty_end = 1;
  dirty = false;
  full_redraw = false;
  state = record {
    working = false;
    phase = c1;
    gr = record { fg_index = 7; bg_index = 0; font_state = 0 };
  };
  drm = 0;
  avail = true;
  termcode = false;
  display = record {
    mem = λ a. 0;
    screen = drm;
    drms = λ n. drm;
    active = 0;
    initialized = true;
    font = none;
  };
}

abbrev ready : IsReady (terminal 5 3)
ready = record {
  available = refl;
  column = omega arith;
  line = omega arith;
  tall = omega arith;
  small_width = omega arith;
  small_height = omega arith;
}

abbrev at_home : IsReady (terminal 0 0)
at_home = record {
  available = refl;
  column = omega arith;
  line = omega arith;
  tall = omega arith;
  small_width = omega arith;
  small_height = omega arith;
}

abbrev message : List ℕ
message = b'a' ∷ b'b' ∷ 0x0a ∷ 0x07 ∷ 0x11 ∷ b'c' ∷ 0x09 ∷ b'd' ∷ []

abbrev word : List ℕ
word = b'a' ∷ b'b' ∷ []

kprint-Shows_example :
    Shows (type_bytes message (page_of (terminal 5 3))) (kprint message (terminal 5 3))
kprint-Shows_example =
    kprint-Shows message (page_of (terminal 5 3)) (terminal 5 3)
      record { ready = ready; text = refl; page = refl } refl

kprint-outside_example : (kprint message (terminal 5 3)).buffer 32 ≡ (terminal 5 3).buffer 32
kprint-outside_example = kprint-outside message (terminal 5 3) 32 ready refl refl (omega arith)

abbrev font : ℕ → ℕ
font i = i % 256

-- The terminal with a font and one character.
abbrev lit : Vt
lit = record (terminal 0 0) {
  buffer = λ i. record { unicode = 65; fg = 0xff; bg = 1 };
  display = record (terminal 0 0).display { font = some font };
}

abbrev colors : Colors lit.buffer
colors = record { fg = λ i. omega arith; bg = λ i. omega arith }

abbrev mode : Mode 0 lit.display
mode = record {
  initialized = refl;
  bpp = refl;
  rows = omega arith;
  extent = omega arith;
  narrow = omega arith;
}

abbrev placed : Placed font lit lit.display
placed = record {
  available = refl;
  mode = mode;
  loaded = refl;
  across = omega arith;
  down = omega arith;
  small_height = omega arith;
}

vt_redraw-shows_example :
    pixel 0 lit.display ((vt_redraw lit).display).mem 13 20
    ≡ cell_color font (record { unicode = 65; fg = 0xff; bg = 1 }) 5 4
unfolding drm_is_attached_to_process
vt_redraw-shows_example =
    vt_redraw-shows font lit 13 20 colors placed (omega arith) refl (omega arith) (omega arith)
