-- ===== src/Gfx/Drm/Straight.antt =====
-- A line from one pixel to another.
use mathlib.Core.Path.{subst}
use limix.Base.{
  ℕ, ◌+◌, ◌-◌, ◌/◌, ◌^◌, ◌≤◌, ◌<◌, ◌≡◌, refl, sym, ◌∙◌, arith, true, false, ◌==◌, ltb,
  if◌then◌else◌, Bool-cases, inl, inr, List, ◌∷◌,
}
use native.Mathlib.Nat.{mul_comm}
use limix.Gfx.Drm.{wrap, Display, drm_plot}
use limix.Gfx.Drm.Line.{
  negative, low32, extend, sign, magnitude, less32, Slope, Pen, slope_of, line_loop, drm_plot_line,
}
use limix.Gfx.Drm.Walk.{Walk, plot_all, Toward, Major, Major-zero, x_major, y_major}
use limix.Gfx.Drm.Rounds.{Walked, no_rounds, line_loop-Walked}

abbrev pub distance : ℕ → ℕ → ℕ
distance a b = if ltb a b then b - a else a - b

-- The number of steps, each in any of eight directions.
abbrev pub steps : ℕ → ℕ → ℕ → ℕ → ℕ
steps x0 y0 x1 y1 = if ltb (distance y0 y1) (distance x0 x1) then distance x0 x1 else distance y0 y1

abbrev difference : ℕ → ℕ → ℕ
difference a b = low32 (wrap (b + 2 ^ 64 - a))

difference_up : (a b : ℕ) → a < 2 ^ 31 → b < 2 ^ 31 → a ≤ b → difference a b ≡ b - a
difference_up a b la lb l = omega arith

difference_down : (a b : ℕ) → a < 2 ^ 31 → b < 2 ^ 31 → b < a → difference a b ≡ 2 ^ 32 - (a - b)
difference_down a b la lb l = omega arith

magnitude-difference :
    (a b : ℕ) → a < 2 ^ 31 → b < 2 ^ 31 → magnitude (difference a b) ≡ distance a b
unfolding magnitude
magnitude-difference a b la lb = elim (Bool-cases (ltb b a)) [
  | inl e ↦ rw (difference_down a b la lb (ground (arith, e))) (ground (arith, e))
  | inr e ↦ rw (difference_up a b la lb (ground (arith, e))) (ground (arith, e))
]

sign-Toward :
    (a b : ℕ) → a < 2 ^ 31 → b < 2 ^ 31 → Toward (sign (difference a b)) a (distance a b) b
unfolding sign
sign-Toward a b la lb = elim (Bool-cases (ltb b a)) [
  | inl e ↦ rw (difference_down a b la lb (ground (arith, e))) (ground (arith, e))
  | inr e ↦ rw (difference_up a b la lb (ground (arith, e))) (ground (arith, e))
]

less32_small : (a b : ℕ) → a < 2 ^ 31 → b < 2 ^ 31 → less32 a b ≡ ltb a b
unfolding less32
less32_small a b la lb = ground arith

distance_small : (a b : ℕ) → a < 2 ^ 31 → b < 2 ^ 31 → distance a b < 2 ^ 31
distance_small a b la lb = ground arith

-- The slope of a line whose ends are small.
abbrev fast_x : ℕ → ℕ → ℕ → ℕ → Slope
fast_x x0 y0 x1 y1 = record {
  deltafastdirection = distance x0 x1;
  deltaslowdirection = distance y0 y1;
  pdx = sign (difference x0 x1);
  pdy = 0;
  ddx = sign (difference x0 x1);
  ddy = sign (difference y0 y1);
}

abbrev fast_y : ℕ → ℕ → ℕ → ℕ → Slope
fast_y x0 y0 x1 y1 = record {
  deltafastdirection = distance y0 y1;
  deltaslowdirection = distance x0 x1;
  pdx = 0;
  pdy = sign (difference y0 y1);
  ddx = sign (difference x0 x1);
  ddy = sign (difference y0 y1);
}

module _ (n c x0 y0 x1 y1 : ℕ) (lx0 : x0 < 2 ^ 31) (ly0 : y0 < 2 ^ 31) (lx1 : x1 < 2 ^ 31)
    (ly1 : y1 < 2 ^ 31) where
  slope_x :
      distance y0 y1 < distance x0 x1
      → slope_of (difference x0 x1) (difference y0 y1) ≡ fast_x x0 y0 x1 y1
  unfolding slope_of
  slope_x l =
      let less : ltb (distance y0 y1) (distance x0 x1) ≡ true = ground (arith, l) in
      rw
        (
          slope_of,
          magnitude-difference x0 x1 lx0 lx1,
          magnitude-difference y0 y1 ly0 ly1,
          less32_small (distance y0 y1) (distance x0 x1) (distance_small y0 y1 ly0 ly1)
              (distance_small x0 x1 lx0 lx1),
          less,
        )
        refl

  slope_y :
      distance x0 x1 ≤ distance y0 y1
      → slope_of (difference x0 x1) (difference y0 y1) ≡ fast_y x0 y0 x1 y1
  unfolding slope_of
  slope_y l =
      let less : ltb (distance y0 y1) (distance x0 x1) ≡ false = ground (arith, l) in
      rw
        (
          slope_of,
          magnitude-difference x0 x1 lx0 lx1,
          magnitude-difference y0 y1 ly0 ly1,
          less32_small (distance y0 y1) (distance x0 x1) (distance_small y0 y1 ly0 ly1)
              (distance_small x0 x1 lx0 lx1),
          less,
        )
        refl

  abbrev first : Slope → Pen
  first l = record { err = l.deltafastdirection / 2; x = x0; y = y0 }

  plot_from :
      (l : Slope) (s : Display)
      → s.initialized ≡ true
      → slope_of (difference x0 x1) (difference y0 y1) ≡ l
      → l.deltafastdirection < 2 ^ 31
      → drm_plot_line n x0 y0 x1 y1 c s
        ≡ line_loop l.deltafastdirection l (first l) n c (drm_plot n x0 y0 c s)
  unfolding drm_plot_line
  plot_from l s on e small =
      let lowx : low32 x0 ≡ x0 = omega arith in
      let lowy : low32 y0 ≡ y0 = omega arith in
      let extx : extend x0 ≡ x0 = ground arith in
      let exty : extend y0 ≡ y0 = ground arith in
      let pos : negative l.deltafastdirection ≡ false = ground (arith, small) in
      simp (drm_plot_line, on, e, lowx, lowy, extx, exty, pos) refl

  loop_walks :
      (l : Slope) (kx ky : ℕ) (s : Display)
      → l.deltafastdirection < 2 ^ 31
      → l.deltaslowdirection ≤ l.deltafastdirection
      → Major l l.deltafastdirection l.deltaslowdirection kx ky
      → Toward l.ddx x0 kx x1
      → Toward l.ddy y0 ky y1
      → Walked l.deltafastdirection l (first l) x1 y1 n c s
  loop_walks l kx ky s small slow m tx ty = elim (Bool-cases (l.deltafastdirection == 0)) [
    | inl z ↦
        let zero_fast : l.deltafastdirection ≡ 0 = ground arith in
        let zero_slow : l.deltaslowdirection ≡ 0 = omega (arith, slow) in
        subst (λ (r : ℕ). Walked r l (first l) x1 y1 n c s) (sym zero_fast)
          (no_rounds l kx ky (first l) x1 y1 n c s tx ty
            (Major-zero l l.deltafastdirection l.deltaslowdirection kx ky m zero_fast zero_slow))
    | inr nz ↦
        line_loop-Walked l n c x1 y1 (l.deltafastdirection / 2) small slow (ground (arith, nz))
          l.deltafastdirection l.deltaslowdirection kx ky (first l) s m tx ty (ground (arith, nz))
          (omega (arith, mul_comm l.deltaslowdirection l.deltafastdirection))
  ]

  walk_with :
      (l : Slope) (kx ky k : ℕ) (s : Display)
      → s.initialized ≡ true
      → slope_of (difference x0 x1) (difference y0 y1) ≡ l
      → l.deltafastdirection < 2 ^ 31
      → l.deltaslowdirection ≤ l.deltafastdirection
      → Major l l.deltafastdirection l.deltaslowdirection kx ky
      → Toward l.ddx x0 kx x1
      → Toward l.ddy y0 ky y1
      → k ≡ l.deltafastdirection
      → (ps : List (ℕ × ℕ)) × (drm_plot_line n x0 y0 x1 y1 c s ≡ plot_all n c ((x0, y0) ∷ ps) s)
        × Walk k x0 y0 x1 y1 ps
  unfolding plot_all
  walk_with l kx ky k s on e small slow m tx ty whole =
      let (ps, run, walk) = loop_walks l kx ky (drm_plot n x0 y0 c s) small slow m tx ty in
      (
        ps,
        plot_from l s on e small ∙ run,
        subst (λ (r : ℕ). Walk r x0 y0 x1 y1 ps) (sym whole) walk,
      )

  -- Once the drms are set up, a line between two pixels with coordinates below 2 ^ 31 sets the first
  -- pixel and then, in as few steps as there can be between the two, each to one of the eight pixels
  -- around, the pixels of a walk to the second.
  pub drm_plot_line-Walk :
      (s : Display)
      → s.initialized ≡ true
      → (ps : List (ℕ × ℕ)) × (drm_plot_line n x0 y0 x1 y1 c s ≡ plot_all n c ((x0, y0) ∷ ps) s)
        × Walk (steps x0 y0 x1 y1) x0 y0 x1 y1 ps
  drm_plot_line-Walk s on =
      let tx = sign-Toward x0 x1 lx0 lx1 in
      let ty = sign-Toward y0 y1 ly0 ly1 in
      elim (Bool-cases (ltb (distance y0 y1) (distance x0 x1))) [
        | inl e ↦
            let l : distance y0 y1 < distance x0 x1 = ground (arith, e) in
            walk_with (fast_x x0 y0 x1 y1) (distance x0 x1) (distance y0 y1) (steps x0 y0 x1 y1) s
              on (slope_x l) (distance_small x0 x1 lx0 lx1) (omega (arith, l)) (x_major refl refl)
              tx ty (ground (arith, e))
        | inr e ↦
            let l : distance x0 x1 ≤ distance y0 y1 = ground (arith, e) in
            walk_with (fast_y x0 y0 x1 y1) (distance x0 x1) (distance y0 y1) (steps x0 y0 x1 y1) s
              on (slope_y l) (distance_small y0 y1 ly0 ly1) l (y_major refl refl) tx ty
              (ground (arith, e))
      ]
