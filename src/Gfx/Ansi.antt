-- ===== src/Gfx/Ansi.antt =====
-- kernel/src/gfx/vt/ansi.c: colours of a rendition, and the parser of escape sequences. Fields that
-- no code reads (the RGB colours and the arguments of a sequence) are left out.
use limix.Base.{ℕ, ◌==◌, Bool, false, if◌then◌else◌, bit_and, List, [], ◌∷◌, get_or}

-- `VtGraphicRendition`
pub record Rendition : Type 0 where
  pub fg_index : ℕ
  pub bg_index : ℕ
  pub font_state : ℕ

-- `enum AnsiStateEnum`
pub data Phase : Type 0 where
  c1 csi_cmd arg semicolon : Phase

-- `AnsiState`
pub record AnsiState : Type 0 where
  pub working : Bool
  pub phase : Phase
  pub gr : Rendition

abbrev pub vt_bold : ℕ
vt_bold = 1

abbrev pub vt_dim : ℕ
vt_dim = 2

abbrev pub vt_reverse : ℕ
vt_reverse = 4

abbrev pub normal_colors : List ℕ
normal_colors =
    0x000000 ∷ 0xd32f2f ∷ 0xafb42b ∷ 0xfbc02d ∷ 0x512da8 ∷ 0x7b1fa2 ∷ 0xfbc02d ∷ 0xeeeeee ∷ []

abbrev pub dim_colors : List ℕ
dim_colors =
    0x000000 ∷ 0xb71c1c ∷ 0x827717 ∷ 0xf57f17 ∷ 0x311b92 ∷ 0x4a148c ∷ 0xf57f17 ∷ 0x9e9e9e ∷ []

abbrev pub bright_colors : List ℕ
bright_colors =
    0x7f7f7f ∷ 0xf44336 ∷ 0xcddc39 ∷ 0xffeb3b ∷ 0x673ab7 ∷ 0x8e24aa ∷ 0xffeb3b ∷ 0xffffff ∷ []

-- The indices are below 8.
unfoldable pub fg_color : Rendition → ℕ
fg_color gr =
    if bit_and gr.font_state vt_bold == 0
    then (if bit_and gr.font_state vt_dim == 0
        then get_or normal_colors gr.fg_index 0
        else get_or dim_colors gr.fg_index 0)
    else get_or bright_colors gr.fg_index 0

unfoldable pub bg_color : Rendition → ℕ
bg_color gr = get_or normal_colors gr.bg_index 0

unfoldable pub ansi_convert_fg : Rendition → ℕ
unfolding fg_color bg_color
ansi_convert_fg gr = if bit_and gr.font_state vt_reverse == 0 then fg_color gr else bg_color gr

unfoldable pub ansi_convert_bg : Rendition → ℕ
unfolding fg_color bg_color
ansi_convert_bg gr = if bit_and gr.font_state vt_reverse == 0 then bg_color gr else fg_color gr

unfoldable pub ansi_process : AnsiState → ℕ → AnsiState
ansi_process s c = elim s.phase [
  | c1 ↦ if c == b'[' then record s { phase = csi_cmd } else record s { working = false }
  | csi_cmd ↦ s
  | semicolon ↦ s
  | arg ↦ s
]
