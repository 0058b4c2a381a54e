-- ===== src/Gfx/Drm/Transfer.antt =====
-- Writing to the device file of a drm.
use limix.Base.{
  ℕ, zero, suc, ◌+◌, ◌-◌, ◌*◌, ◌/◌, ◌%◌, ◌^◌, ◌≤◌, ◌<◌, ◌≡◌, sym, ap, ◌∙◌, arith, ◌&&◌, ◌==◌, ltb,
  leb, if◌then◌else◌, Bool-cases, inl, inr, ◌⊎◌,
}
use native.Mathlib.Nat.{
  mul-add-div_right, div-eq_of_lt, mul-add-mod_self_right, mod-eq_of_lt, div-add-mod', mod-lt,
  div-lt_iff_lt-mul, mul_comm,
}
use limix.Gfx.Drm.{wrap, Display, drm_plot}
use limix.Gfx.Drm.Device.{e_success, e_outofbounds, out_of_bounds, write_loop, drm_write}
use limix.Gfx.Drm.Draws.{
  Mode, Draws, pixel, with_mem, Mode-with_mem, Draws-none, Draws-then, Draws-eq, drm_plot-Draws,
}

-- Pixel number `k` of rows of `w` pixels.
pub place : (w px py k : ℕ) → px < w → (px == k % w && py == k / w) ≡ (py * w + px == k)
place w px py k l = elim (Bool-cases (py * w + px == k)) [
  | inl here ↦
      let e : py * w + px ≡ k = ground arith in
      ground (
        arith,
        here,
        ap (λ (t : ℕ). t % w) e,
        ap (λ (t : ℕ). t / w) e,
        mul-add-div_right {m = w} (omega arith) py px,
        div-eq_of_lt l,
        mul-add-mod_self_right py w px,
        mod-eq_of_lt l,
      )
  | inr other ↦ elim (Bool-cases (px == k % w && py == k / w)) [
    | inr differ ↦ differ ∙ sym other
    | inl same ↦
        let ey : py ≡ k / w = ground arith in
        absurd (ground (arith, other, same, div-add-mod' k w, ap (λ (t : ℕ). t * w) ey))
  ]
]

-- Pixels `k` to `k + left - 1` get the words, in order.
abbrev pub words_ink : ℕ → ℕ → ℕ → (ℕ → ℕ) → ℕ → ℕ → ℕ → ℕ
words_ink left w k words px py o =
    let i = py * w + px in if leb k i && ltb i (k + left) then words (i - k) else o

abbrev pub Words32 : (ℕ → ℕ) → Type 0
Words32 words = (i : ℕ) → words i < 2 ^ 32

mul_pos_left : (a b c : ℕ) → 0 < c → c ≤ a * b → 0 < a
mul_pos_left zero b c pos l = absurd (omega arith)
mul_pos_left (suc a) b c pos l = omega arith

module _ (n : ℕ) where
  pub Draws-eq_within :
      (f g : ℕ → ℕ → ℕ → ℕ) (s r : Display)
      → ((x y o : ℕ) → x < (s.drms n).width → f x y o ≡ g x y o)
      → Draws n f s r
      → Draws n g s r
  Draws-eq_within f g s r same d = record {
    mem = d.mem;
    ran = d.ran;
    pixels = λ x y w h. d.pixels x y w h ∙ same x y (pixel n s s.mem x y) w;
    outside = d.outside;
  }

  write_loop-Draws :
      (left k : ℕ) (words : ℕ → ℕ) (s : Display)
      → Mode n s
      → Words32 words
      → (s.drms n).width * (s.drms n).height < 2 ^ 64
      → k + left ≤ (s.drms n).width * (s.drms n).height
      → Draws n (words_ink left (s.drms n).width k words) s (write_loop left n k words s)
  unfolding write_loop
  write_loop-Draws zero k words s m small area fits =
      Draws-eq n _ _ s s (λ px py o. ground arith) (Draws-none n s)
  write_loop-Draws (suc left) k words s m small area fits =
      let next : wrap (k + 1) ≡ k + 1 = omega arith in
      rw next (
        Draws-eq_within _ _ s _ shape (
          Draws-then n _ (words_ink left w (k + 1) rest) s (drm_plot n (k % w) (k / w) (words 0) s)
            (write_loop left n (k + 1) rest) one
            (write_loop-Draws left (k + 1) rest (with_mem s one.mem) (Mode-with_mem n s one.mem m)
              (λ i. small (i + 1)) area (omega arith))))
    where
      w : ℕ
      w = (s.drms n).width

      rest : ℕ → ℕ
      rest i = words (i + 1)

      some_width : 0 < w
      some_width = mul_pos_left w (s.drms n).height (suc left) (omega arith) (omega arith)

      one :
          Draws n
            (λ px py o. if px == k % w && py == k / w then words 0 else o)
            s
            (drm_plot n (k % w) (k / w) (words 0) s)
      one =
          drm_plot-Draws n s (k % w) (k / w) (words 0) m (mod-lt k some_width)
            ((div-lt_iff_lt-mul some_width).1 (omega (arith, mul_comm w (s.drms n).height)))
            (small 0)

      shape :
          (px py o : ℕ)
          → px < w
          → words_ink left w (k + 1) rest px py (if px == k % w && py == k / w then words 0 else o)
            ≡ words_ink (suc left) w k words px py o
      shape px py o l = elim (Bool-cases (py * w + px == k)) [
        | inl here ↦
            let e : py * w + px - k ≡ 0 = ground arith in
            ground (arith, here, place w px py k l, ap words e)
        | inr other ↦ elim (Bool-cases (ltb k (py * w + px))) [
          | inl later ↦
              let e : py * w + px - (k + 1) + 1 ≡ py * w + px - k = ground (arith, later) in
              ground (arith, other, later, place w px py k l, ap words e)
          | inr before ↦ ground (arith, other, before, place w px py k l)
        ]
      ]

  -- In a mode of 32 bits for each pixel, with numbers of pixels that do not wrap, a write to the
  -- device file whose end does not wrap is refused and changes nothing if it ends behind the last
  -- pixel; any other sets its pixels to the words, in order, and keeps all else.
  pub drm_write-Draws :
      (o size : ℕ) (words : ℕ → ℕ) (s : Display)
      → Mode n s
      → Words32 words
      → (s.drms n).width * (s.drms n).height < 2 ^ 64
      → o + size < 2 ^ 64
      → (((s.drms n).width * (s.drms n).height < o + size)
          × (drm_write n o size words s ≡ (e_outofbounds, s)))
        ⊎ ((o + size ≤ (s.drms n).width * (s.drms n).height)
            × (r : Display) × (drm_write n o size words s ≡ (e_success, r))
            × Draws n (words_ink size (s.drms n).width o words) s r)
  unfolding drm_write out_of_bounds
  drm_write-Draws o size words s m small area whole = elim (Bool-cases (out_of_bounds n o size s)) [
    | inl beyond ↦ inl (ground (arith, beyond), ground (arith, beyond))
    | inr within ↦ inr (
      ground (arith, within),
      write_loop size n o words s,
      ground (arith, within),
      write_loop-Draws size o words s m small area (ground (arith, within)),
    )
  ]
