-- ===== src/Gfx/Drm/Glyph.antt =====
-- Characters of the 8x16 font.
use limix.Base.{
  ℕ, zero, suc, ◌+◌, ◌-◌, ◌*◌, ◌/◌, ◌%◌, ◌^◌, ◌≤◌, ◌<◌, ◌≡◌, ap, arith, ◌==◌, if◌then◌else◌,
  bit_and, Bool-cases, inl, inr, some,
}
use native.Mathlib.Nat.{pow-suc, one-le-pow}
use limix.Base.Bits.{bit_and-bit}
use limix.Gfx.Drm.{Display, drm_fill_rel_rect}
use limix.Gfx.Drm.Char.{glyph, solid_bits, solid_rows, drm_plot_char_solid}
use limix.Gfx.Drm.Draws.{Mode, Draws, with_mem, Mode-with_mem, Draws-none, Draws-then, Draws-eq}
use limix.Gfx.Drm.Rect.{in_rect, painted, drm_fill_rel_rect-Draws}

-- The colour of column `k` from the right in a row of a glyph.
abbrev pub ink : ℕ → ℕ → ℕ → ℕ → ℕ
ink bits k c b = if bits / 2 ^ k % 2 == 0 then b else c

-- The `left` columns from `x` on of a row of a glyph.
abbrev pub row_ink : ℕ → ℕ → ℕ → ℕ → ℕ → ℕ → ℕ → ℕ → ℕ → ℕ
row_ink left bits x y c b px py o =
    if in_rect x y left 1 px py then ink bits (x + left - 1 - px) c b else o

-- The `left` rows from row `hi` on of character `ch` at `(x, y)`.
abbrev pub rows_ink : ℕ → (ℕ → ℕ) → ℕ → ℕ → ℕ → ℕ → ℕ → ℕ → ℕ → ℕ → ℕ → ℕ
rows_ink left font hi x y ch c b px py o =
    if in_rect x (y + hi) 8 left px py then ink (glyph font ch (py - y)) (x + 8 - 1 - px) c b else o

mask_ink : (k bits c b : ℕ) → (if bit_and bits (2 ^ k) == 0 then b else c) ≡ ink bits k c b
mask_ink k bits c b = elim (Bool-cases (bits / 2 ^ k % 2 == 0)) [
  | inl clear ↦
      let e : bits / 2 ^ k % 2 ≡ 0 = ground arith in
      ground (arith, bit_and-bit k bits, ap (λ (t : ℕ). t * 2 ^ k) e)
  | inr set ↦
      let e : bits / 2 ^ k % 2 ≡ 1 = ground arith in
      ground (arith, bit_and-bit k bits, ap (λ (t : ℕ). t * 2 ^ k) e, one-le-pow k 2 (omega arith))
]

module _ (n c b : ℕ) (small_c : c < 2 ^ 32) (small_b : b < 2 ^ 32) where
  solid_bits-Draws :
      (left bits x y : ℕ) (s : Display)
      → Mode n s
      → x + left ≤ (s.drms n).width
      → y < (s.drms n).height
      → x + left < 2 ^ 64
      → y + 1 < 2 ^ 64
      → Draws n (row_ink left bits x y c b) s (solid_bits left bits (2 ^ left / 2) n x y c b s)
  unfolding solid_bits
  solid_bits-Draws zero bits x y s m w h sx sy =
      Draws-eq n _ _ s s (λ px py o. ground arith) (Draws-none n s)
  solid_bits-Draws (suc left) bits x y s m w h sx sy =
      rw (half, next, mask_ink left bits c b)
        (Draws-eq n _ _ s _ shape (
          Draws-then n _ (row_ink left bits (x + 1) y c b) s
            (drm_fill_rel_rect n x y 1 1 (ink bits left c b) s)
            (solid_bits left bits (2 ^ left / 2) n (x + 1) y c b) one
            (solid_bits-Draws left bits (x + 1) y (with_mem s one.mem) (Mode-with_mem n s one.mem m)
              (omega arith) h (omega arith) sy)))
    where
      half : 2 ^ suc left / 2 ≡ 2 ^ left
      half = omega (arith, pow-suc 2 left)

      next : (x + 1) % 2 ^ 64 ≡ x + 1
      next = omega arith

      one :
          Draws n
            (painted (in_rect x y 1 1) (ink bits left c b))
            s
            (drm_fill_rel_rect n x y 1 1 (ink bits left c b) s)
      one =
          drm_fill_rel_rect-Draws n (ink bits left c b) (ground arith) x y 1 1 s m (omega arith)
            (omega arith) (omega arith) (omega arith)

      shape :
          (px py o : ℕ)
          → row_ink left bits
              (x + 1)
              y
              c
              b
              px
              py
              (painted (in_rect x y 1 1) (ink bits left c b) px py o)
            ≡ row_ink (suc left) bits x y c b px py o
      shape px py o = elim (Bool-cases (px == x)) [
        | inl first ↦
            let e : x + suc left - 1 - px ≡ left = ground arith in
            ground (arith, first, ap (λ (k : ℕ). ink bits k c b) e)
        | inr later ↦
            let e : x + suc left - 1 - px ≡ x + 1 + left - 1 - px = omega arith in
            ground (arith, later, ap (λ (k : ℕ). ink bits k c b) e)
      ]

  solid_rows-Draws :
      (left : ℕ) (font : ℕ → ℕ) (hi x y ch : ℕ) (s : Display)
      → Mode n s
      → x + 8 ≤ (s.drms n).width
      → y + hi + left ≤ (s.drms n).height
      → x + 8 < 2 ^ 64
      → y + hi + left < 2 ^ 64
      → Draws n (rows_ink left font hi x y ch c b) s (solid_rows left font hi n x y ch c b s)
  unfolding solid_rows
  solid_rows-Draws zero font hi x y ch s m w h sx sy =
      Draws-eq n _ _ s s (λ px py o. ground arith) (Draws-none n s)
  solid_rows-Draws (suc left) font hi x y ch s m w h sx sy = rw row (
      Draws-eq n _ _ s _ shape (
        Draws-then n _ (rows_ink left font (hi + 1) x y ch c b) s
          (solid_bits 8 (glyph font ch hi) 0x80 n x (y + hi) c b s)
          (solid_rows left font (hi + 1) n x y ch c b) one
          (solid_rows-Draws left font (hi + 1) x y ch (with_mem s one.mem)
            (Mode-with_mem n s one.mem m) w (omega arith) sx (omega arith))))
    where
      row : (y + hi) % 2 ^ 64 ≡ y + hi
      row = omega arith

      one :
          Draws n
            (row_ink 8 (glyph font ch hi) x (y + hi) c b)
            s
            (solid_bits 8 (glyph font ch hi) 0x80 n x (y + hi) c b s)
      one = solid_bits-Draws 8 (glyph font ch hi) x (y + hi) s m w (omega arith) sx (omega arith)

      shape :
          (px py o : ℕ)
          → rows_ink left font
              (hi + 1)
              x
              y
              ch
              c
              b
              px
              py
              (row_ink 8 (glyph font ch hi) x (y + hi) c b px py o)
            ≡ rows_ink (suc left) font hi x y ch c b px py o
      shape px py o = elim (Bool-cases (py == y + hi)) [
        | inl first ↦
            let e : hi ≡ py - y = ground arith in
            ground (arith, first, ap (λ (k : ℕ). ink (glyph font ch k) (x + 8 - 1 - px) c b) e)
        | inr later ↦ ground (arith, later)
      ]

  char_rows :
      (font : ℕ → ℕ) (x y ch : ℕ) (s : Display)
      → s.font ≡ some font
      → drm_plot_char_solid n x y ch c b s ≡ solid_rows 16 font 0 n x y ch c b s
  unfolding drm_plot_char_solid
  char_rows font x y ch s e = ground (arith, e)

  -- In a mode of 32 bits for each pixel, drm_plot_char_solid of a character of the loaded font, at a
  -- place that lies on the drm and whose ends do not wrap, gives the 8 by 16 pixels the two colours
  -- as the bits of the glyph say, and keeps all else.
  pub drm_plot_char_solid-Draws :
      (font : ℕ → ℕ) (x y ch : ℕ) (s : Display)
      → s.font ≡ some font
      → Mode n s
      → x + 8 ≤ (s.drms n).width
      → y + 16 ≤ (s.drms n).height
      → x + 8 < 2 ^ 64
      → y + 16 < 2 ^ 64
      → Draws n (rows_ink 16 font 0 x y ch c b) s (drm_plot_char_solid n x y ch c b s)
  drm_plot_char_solid-Draws font x y ch s e m w h sx sy =
      rw (char_rows font x y ch s e)
        (solid_rows-Draws 16 font 0 x y ch s m w (omega arith) sx (omega arith))
