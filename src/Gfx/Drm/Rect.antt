-- ===== src/Gfx/Drm/Rect.antt =====
-- Filled rectangles.
use limix.Base.{
  ℕ, zero, suc, ◌+◌, ◌-◌, ◌%◌, ◌^◌, ◌≤◌, ◌<◌, ◌≡◌, arith, Bool, ◌&&◌, ltb, leb, if◌then◌else◌,
}
use limix.Gfx.Drm.{Display, drm_plot, fill_column, fill_columns, drm_fill_rect, drm_fill_rel_rect}
use limix.Gfx.Drm.Draws.{
  Mode, Draws, with_mem, Mode-with_mem, Draws-none, Draws-then, Draws-eq, drm_plot-Draws,
}

-- Pixel `(px, py)` lies in the rectangle of `w` by `h` pixels at `(x, y)`.
abbrev pub in_rect : ℕ → ℕ → ℕ → ℕ → ℕ → ℕ → Bool
in_rect x y w h px py = leb x px && ltb px (x + w) && leb y py && ltb py (y + h)

abbrev pub painted : (ℕ → ℕ → Bool) → ℕ → ℕ → ℕ → ℕ → ℕ
painted area c px py o = if area px py then c else o

module _ (n c : ℕ) (small : c < 2 ^ 32) where
  fill_column-Draws :
      (rows x y : ℕ) (s : Display)
      → Mode n s
      → x < (s.drms n).width
      → y + rows ≤ (s.drms n).height
      → Draws n (painted (in_rect x y 1 rows) c) s (fill_column rows n x y c s)
  unfolding fill_column
  fill_column-Draws zero x y s m w h = Draws-eq n _ _ s s (λ px py o. ground arith) (Draws-none n s)
  fill_column-Draws (suc rows) x y s m w h =
      let one = drm_plot-Draws n s x y c m w (omega arith) small in
      Draws-eq n _ _ s _ (λ px py o. ground arith)
        (Draws-then n _ (painted (in_rect x (y + 1) 1 rows) c) s (drm_plot n x y c s)
          (fill_column rows n x (y + 1) c) one
          (fill_column-Draws rows x (y + 1) (with_mem s one.mem) (Mode-with_mem n s one.mem m) w
            (omega arith)))

  fill_columns-Draws :
      (columns rows x y : ℕ) (s : Display)
      → Mode n s
      → x + columns ≤ (s.drms n).width
      → y + rows ≤ (s.drms n).height
      → Draws n (painted (in_rect x y columns rows) c) s (fill_columns columns rows n x y c s)
  unfolding fill_columns
  fill_columns-Draws zero rows x y s m w h =
      Draws-eq n _ _ s s (λ px py o. ground arith) (Draws-none n s)
  fill_columns-Draws (suc columns) rows x y s m w h =
      let one = fill_column-Draws rows x y s m (omega arith) h in
      Draws-eq n _ _ s _ (λ px py o. ground arith)
        (Draws-then n _ (painted (in_rect (x + 1) y columns rows) c) s (fill_column rows n x y c s)
          (fill_columns columns rows n (x + 1) y c) one
          (fill_columns-Draws columns rows (x + 1) y (with_mem s one.mem)
            (Mode-with_mem n s one.mem m) (omega arith) h))

  -- In a mode of 32 bits for each pixel, drm_fill_rel_rect of a rectangle that lies on the drm, with
  -- ends that do not wrap, gives its pixels the colour, keeps all other pixels, and writes nothing
  -- outside the buffer of the drm.
  pub drm_fill_rel_rect-Draws :
      (x y w h : ℕ) (s : Display)
      → Mode n s
      → x + w ≤ (s.drms n).width
      → y + h ≤ (s.drms n).height
      → x + w < 2 ^ 64
      → y + h < 2 ^ 64
      → Draws n (painted (in_rect x y w h) c) s (drm_fill_rel_rect n x y w h c s)
  unfolding drm_fill_rel_rect
  drm_fill_rel_rect-Draws x y w h s m inx iny smallx smally =
      let ex : (x + w) % 2 ^ 64 - x ≡ w = omega arith in
      let ey : (y + h) % 2 ^ 64 - y ≡ h = omega arith in
      simp (m.initialized, ex, ey) (fill_columns-Draws w h x y s m inx iny)

  -- The same for drm_fill_rect, from corner to corner.
  pub drm_fill_rect-Draws :
      (x0 y0 x1 y1 : ℕ) (s : Display)
      → Mode n s
      → x0 ≤ x1
      → y0 ≤ y1
      → x1 ≤ (s.drms n).width
      → y1 ≤ (s.drms n).height
      → Draws n (painted (in_rect x0 y0 (x1 - x0) (y1 - y0)) c) s (drm_fill_rect n x0 y0 x1 y1 c s)
  unfolding drm_fill_rect
  drm_fill_rect-Draws x0 y0 x1 y1 s m lx ly inx iny =
      simp (m.initialized)
        (fill_columns-Draws (x1 - x0) (y1 - y0) x0 y0 s m (omega arith) (omega arith))
