-- ===== src/Gfx/Vt/Page.antt =====
-- The terminal of kernel/src/gfx/vt/vt.c as a page of cells: what a byte means for it.
use limix.Base.{
  ℕ, zero, suc, ◌+◌, ◌-◌, ◌*◌, ◌/◌, Bool, true, false, ◌==◌, ltb, leb, if◌then◌else◌, List, [], ◌∷◌,
}
use limix.Gfx.Ansi.{Rendition}
use limix.Gfx.Vt.{Cell, blank, char_cell, apply_termcode}

-- The cells, the number of the next one, the rendition, and whether a code for it is due.
pub record Page : Type 0 where
  pub columns : ℕ
  pub lines : ℕ
  pub cells : ℕ → Cell
  pub next : ℕ
  pub gr : Rendition
  pub pending : Bool

-- Past the last cell, the lines move up by four and four blank ones follow.
unfoldable pub settle : Page → Page
settle p =
    let kept = p.columns * (p.lines - 4) in
    if leb (p.columns * p.lines) p.next
    then record p {
      cells = λ i.
          if ltb i kept
          then p.cells (i + p.columns * 4)
          else if ltb i (kept + p.columns * 4)
          then blank
          else p.cells i;
      next = p.next - p.columns * 4;
    }
    else p

unfoldable pub step_right : Page → Page
step_right p = settle (record p { next = p.next + 1 })

unfoldable pub step_down : Page → Page
step_down p = settle (record p { next = p.next + p.columns })

unfoldable pub steps_right : ℕ → Page → Page
steps_right zero p = p
steps_right (suc left) p = steps_right left (step_right p)

unfoldable pub line_start : Page → Page
line_start p = record p { next = p.next / p.columns * p.columns }

unfoldable pub write : ℕ → Page → Page
write c p = record p { cells = λ i. if i == p.next then char_cell c p.gr else p.cells i }

unfoldable pub type_plain : ℕ → Page → Page
type_plain c p =
    if c == 0x0a
    then step_down p
    else if c == 0x0d
    then line_start p
    else if c == 0x08
    then record p { next = p.next - 1 }
    else if c == 0x07
    then record p { pending = true }
    else if c == 0x09
    then steps_right 8 p
    else step_right (write c p)

unfoldable pub type_byte : ℕ → Page → Page
unfolding type_plain
type_byte c p =
    if p.pending then record p { pending = false; gr = apply_termcode c p.gr } else type_plain c p

unfoldable pub type_bytes : List ℕ → Page → Page
type_bytes [] p = p
type_bytes (c ∷ cs) p = type_bytes cs (type_byte c p)
