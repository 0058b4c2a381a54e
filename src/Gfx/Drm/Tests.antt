-- ===== src/Gfx/Drm/Tests.antt =====
-- The drawing theorems on a display of 64 by 64 pixels.
use limix.Base.{ℕ, ◌+◌, ◌*◌, ◌%◌, ◌^◌, ◌≡◌, ◌<◌, ◌≤◌, ◌⊎◌, refl, arith, true, some, List, ◌∷◌}
use limix.Gfx.Drm.{Drm, Display}
use limix.Gfx.Drm.Char.{drm_plot_char_solid}
use limix.Gfx.Drm.Device.{e_success, e_outofbounds, drm_write}
use limix.Gfx.Drm.Draws.{Mode, Draws}
use limix.Gfx.Drm.Transfer.{words_ink, drm_write-Draws}
use limix.Gfx.Drm.Line.{drm_plot_line}
use limix.Gfx.Drm.Walk.{Walk, plot_all}
use limix.Gfx.Drm.Straight.{steps, drm_plot_line-Walk}
use limix.Gfx.Drm.Glyph.{rows_ink, drm_plot_char_solid-Draws}

abbrev buffer : Drm
buffer = record { framebuffer = 0x8000; width = 64; height = 64; bpp = 32; flags = 0; pitch = 256 }

abbrev screen : Drm
screen = record { framebuffer = 0x1000; width = 64; height = 64; bpp = 32; flags = 0; pitch = 256 }

abbrev font : ℕ → ℕ
font i = i % 256

abbrev display : Display
display = record {
  mem = λ a. 0;
  screen = screen;
  drms = λ n. buffer;
  active = 0;
  initialized = true;
  font = some font;
}

abbrev mode : Mode 0 display
mode = record {
  initialized = refl;
  bpp = refl;
  rows = omega arith;
  extent = omega arith;
  narrow = omega arith;
}

bytes32 : (i : ℕ) → i % 256 < 2 ^ 32
bytes32 i = omega arith

drm_plot_char_solid-Draws_example :
    Draws 0
      (rows_ink 16 font 0 8 16 65 0xff 1)
      display
      (drm_plot_char_solid 0 8 16 65 0xff 1 display)
drm_plot_char_solid-Draws_example =
    drm_plot_char_solid-Draws 0 0xff 1 (omega arith) (omega arith) font 8 16 65 display refl mode
      (omega arith) (omega arith) (omega arith) (omega arith)

drm_write-Draws_example :
    ((64 * 64 < 10 + 20) × (drm_write 0 10 20 (λ i. i % 256) display ≡ (e_outofbounds, display)))
    ⊎ ((10 + 20 ≤ 64 * 64)
        × (r : Display) × (drm_write 0 10 20 (λ i. i % 256) display ≡ (e_success, r))
        × Draws 0 (words_ink 20 64 10 (λ i. i % 256)) display r)
drm_write-Draws_example =
    drm_write-Draws 0 10 20 (λ i. i % 256) display mode bytes32 (omega arith) (omega arith)

drm_plot_line-Walk_example :
    (ps : List (ℕ × ℕ)) × (drm_plot_line 0 20 3 5 9 0xff display
      ≡ plot_all 0 0xff ((20, 3) ∷ ps) display)
    × Walk (steps 20 3 5 9) 20 3 5 9 ps
drm_plot_line-Walk_example =
    drm_plot_line-Walk 0 0xff 20 3 5 9 (omega arith) (omega arith) (omega arith) (omega arith)
      display refl
