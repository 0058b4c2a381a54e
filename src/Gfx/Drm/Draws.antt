-- ===== src/Gfx/Drm/Draws.antt =====
-- What a drawing operation does to the pixels of one drm, and how two of them compose.
use limix.Base.{
  ℕ, suc, ◌+◌, ◌*◌, ◌/◌, ◌%◌, ◌^◌, ◌≤◌, ◌<◌, ◌≡◌, refl, ap, ◌∙◌, arith, true, false, ◌&&◌, ◌==◌,
  ltb, if◌then◌else◌, inl, inr, ◌⊎◌, Bool-cases,
}
use native.Mathlib.Nat.{mul-le-mul_left, mul-suc}
use limix.Libk.Memory.{Mem, load, store}
use limix.Gfx.Drm.{Display, base, drm_plot}
use limix.Gfx.Drm.Pixel.{store-outside, load-store_apart, load-store_self}

-- A mode of 32 bits for each pixel, with rows that do not overlap and a buffer that does not wrap.
pub record Mode (n : ℕ) (s : Display) : Type 0 where
  pub initialized : s.initialized ≡ true
  pub bpp : (s.drms n).bpp ≡ 32
  pub rows : 4 * (s.drms n).width ≤ (s.drms n).pitch
  pub extent : base n s + (s.drms n).pitch * (s.drms n).height < 2 ^ 64
  pub narrow : (s.drms n).width * 32 < 2 ^ 64

abbrev pub pixel_address : ℕ → Display → ℕ → ℕ → ℕ
pixel_address n s x y = base n s + ((s.drms n).pitch * y + 4 * x)

abbrev pub pixel : ℕ → Display → Mem → ℕ → ℕ → ℕ
pixel n s m x y = load 4 m (pixel_address n s x y)

abbrev pub Outside : ℕ → Display → ℕ → Type 0
Outside n s a = (a < base n s) ⊎ (base n s + (s.drms n).pitch * (s.drms n).height ≤ a)

abbrev pub with_mem : Display → Mem → Display
with_mem s m = record s { mem = m }

-- From `s` to `r` only memory changed, pixel `(x, y)` of drm `n` from `o` to `f x y o`, and nothing
-- outside the buffer of that drm.
pub record Draws (n : ℕ) (f : ℕ → ℕ → ℕ → ℕ) (s r : Display) : Type 0 where
  pub mem : Mem
  pub ran : r ≡ with_mem s mem
  pub pixels :
      (x y : ℕ)
      → x < (s.drms n).width
      → y < (s.drms n).height
      → pixel n s mem x y ≡ f x y (pixel n s s.mem x y)
  pub outside : (a : ℕ) → Outside n s a → mem a ≡ s.mem a

row-le : (p y y' : ℕ) → y < y' → p * y + p ≤ p * y'
row-le p y y' l = omega (arith, mul-le-mul_left {m = suc y} {n = y'} p l, mul-suc p y)

module _ (n : ℕ) where
  pub Mode-with_mem : (s : Display) (m : Mem) → Mode n s → Mode n (with_mem s m)
  Mode-with_mem s m mode = record {
    initialized = mode.initialized;
    bpp = mode.bpp;
    rows = mode.rows;
    extent = mode.extent;
    narrow = mode.narrow;
  }

  pub Draws-none : (s : Display) → Draws n (λ x y o. o) s s
  Draws-none s = record { mem = s.mem; ran = refl; pixels = λ x y w h. refl; outside = λ a o. refl }

  pub Draws-then :
      (f g : ℕ → ℕ → ℕ → ℕ) (s r : Display) (op : Display → Display)
      → (d : Draws n f s r) → Draws n g (with_mem s d.mem) (op (with_mem s d.mem))
      → Draws n (λ x y o. g x y (f x y o)) s (op r)
  Draws-then f g s r op d e = record {
    mem = e.mem;
    ran = ap op d.ran ∙ e.ran;
    pixels = λ x y w h. e.pixels x y w h ∙ ap (g x y) (d.pixels x y w h);
    outside = λ a o. e.outside a o ∙ d.outside a o;
  }

  pub Draws-eq :
      (f g : ℕ → ℕ → ℕ → ℕ) (s r : Display)
      → ((x y o : ℕ) → f x y o ≡ g x y o)
      → Draws n f s r
      → Draws n g s r
  Draws-eq f g s r same d = record {
    mem = d.mem;
    ran = d.ran;
    pixels = λ x y w h. d.pixels x y w h ∙ same x y (pixel n s s.mem x y);
    outside = d.outside;
  }

  -- A row ends before the next begins, so two pixels do not overlap.
  pixels_apart :
      (s : Display) (x y px py : ℕ)
      → Mode n s
      → x < (s.drms n).width
      → px < (s.drms n).width
      → ((px ≡ x) × (py ≡ y))
        ⊎ ((pixel_address n s px py + 4 ≤ pixel_address n s x y)
            ⊎ (pixel_address n s x y + 4 ≤ pixel_address n s px py))
  pixels_apart s x y px py m w pw = elim (Bool-cases (py == y)) [
    | inl same ↦
        let e : py ≡ y = ground arith in
        let rows : p * py ≡ p * y = ap (λ (t : ℕ). p * t) e in grind (arith, rows)
    | inr other ↦ elim (Bool-cases (ltb py y)) [
      | inl above ↦ inr (inl (omega (arith, row-le p py y (ground arith), m.rows)))
      | inr below ↦ inr (inr (omega (arith, row-le p y py (ground arith), m.rows)))
    ]
  ]
    where
      p : ℕ
      p = (s.drms n).pitch

  pixel_in_buffer :
      (s : Display) (x y : ℕ)
      → Mode n s
      → x < (s.drms n).width
      → y < (s.drms n).height
      → pixel_address n s x y + 4 ≤ base n s + (s.drms n).pitch * (s.drms n).height
  pixel_in_buffer s x y m w h = omega (arith, row-le (s.drms n).pitch y (s.drms n).height h, m.rows)

  plot_address :
      (s : Display) (x y : ℕ)
      → Mode n s
      → x < (s.drms n).width
      → y < (s.drms n).height
      → (base n s + ((s.drms n).pitch * y + x * (s.drms n).bpp % 2 ^ 64 / 8)) % 2 ^ 64
        ≡ pixel_address n s x y
  plot_address s x y m w h =
      omega (arith, ap (λ (t : ℕ). x * t) m.bpp, m.narrow, m.extent, pixel_in_buffer s x y m w h)

  -- A pixel of the mode is written, and nothing else.
  pub drm_plot-Draws :
      (s : Display) (x y c : ℕ)
      → Mode n s
      → x < (s.drms n).width
      → y < (s.drms n).height
      → c < 2 ^ 32
      → Draws n (λ px py o. if px == x && py == y then c else o) s (drm_plot n x y c s)
  unfolding drm_plot
  drm_plot-Draws s x y c m w h small = record {
    mem = store 4 s.mem (pixel_address n s x y) c;
    ran = ground (arith, m.initialized, plot_address s x y m w h);
    pixels = λ px py pw ph. plotted px py pw (pixels_apart s x y px py m w pw);
    outside = λ a o.
        store-outside 4 s.mem (pixel_address n s x y) c a
          (ground (arith, o, pixel_in_buffer s x y m w h));
  }
    where
      at : ℕ
      at = pixel_address n s x y

      differ :
          (px py : ℕ)
          → ((pixel_address n s px py + 4 ≤ at) ⊎ (at + 4 ≤ pixel_address n s px py))
          → (px == x && py == y) ≡ false
      differ px py apart = elim (Bool-cases (px == x && py == y)) [
        | inr no_match ↦ no_match
        | inl both ↦
            let ex : px ≡ x = ground arith in
            let ey : py ≡ y = ground arith in
            absurd (grind (arith, ap (λ (t : ℕ). (s.drms n).pitch * t) ey))
      ]

      plotted :
          (px py : ℕ)
          → px < (s.drms n).width
          → ((px ≡ x) × (py ≡ y))
            ⊎ ((pixel_address n s px py + 4 ≤ at) ⊎ (at + 4 ≤ pixel_address n s px py))
          → pixel n s (store 4 s.mem at c) px py
            ≡ (if px == x && py == y then c else pixel n s s.mem px py)
      plotted px py pw (inl (ex, ey)) =
          rw (ex, ey) (load-store_self 4 s.mem at c small ∙ ground arith)
      plotted px py pw (inr apart) =
          load-store_apart 4 4 s.mem at c (pixel_address n s px py) apart
          ∙ rw (differ px py apart) refl
