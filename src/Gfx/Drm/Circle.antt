-- ===== src/Gfx/Drm/Circle.antt =====
-- The loop of drm_plot_circle ends.
use limix.Base.{
  ℕ, zero, suc, ◌+◌, ◌^◌, ◌≤◌, ◌<◌, ◌≡◌, refl, sym, ◌∙◌, arith, false, ltb, Bool-cases, inl, inr,
}
use limix.Gfx.Drm.{Display}
use limix.Gfx.Drm.Line.{less32, Arc, arc_step, plot_octants, circle_loop}

less32_below : (a b : ℕ) → a < 2 ^ 31 → b < 2 ^ 31 → less32 a b ≡ ltb a b
unfolding less32
less32_below a b la lb = ground arith

arc_step_x : (a : Arc) → a.x < 2 ^ 31 → (arc_step a).x ≡ a.x + 1
unfolding arc_step
arc_step_x a l = omega arith

arc_step_y :
    (a : Arc) → a.y < 2 ^ 31 → 0 < a.y → ((arc_step a).y ≤ a.y) × (a.y ≤ (arc_step a).y + 1)
unfolding arc_step
arc_step_y a l pos = ground arith

-- A loop whose `x` is not below `y` is over.
circle_over :
    (fuel n x0 y0 c : ℕ) (a : Arc) (s : Display)
    → less32 a.x a.y ≡ false
    → circle_loop fuel n x0 y0 c a s ≡ s
unfolding circle_loop
circle_over zero n x0 y0 c a s h = refl
circle_over (suc fuel) n x0 y0 c a s h = rw (circle_loop, h) refl

-- Once the fuel is as much as `y` is above `x`, both below 2 ^ 31, more of it changes nothing.
pub circle_loop-enough :
    (fuel more n x0 y0 c : ℕ) (a : Arc) (s : Display)
    → a.x < 2 ^ 31
    → a.y < 2 ^ 31
    → a.y ≤ a.x + fuel
    → circle_loop (fuel + more) n x0 y0 c a s ≡ circle_loop fuel n x0 y0 c a s
unfolding circle_loop
circle_loop-enough zero more n x0 y0 c a s lx ly h =
    let over : less32 a.x a.y ≡ false = less32_below a.x a.y lx ly ∙ ground (arith, h) in
    circle_over (0 + more) n x0 y0 c a s over
circle_loop-enough (suc fuel) more n x0 y0 c a s lx ly h =
    let q : suc fuel + more ≡ suc (fuel + more) = omega arith in
    elim (Bool-cases (ltb a.x a.y)) [
      | inl e ↦
          let (down, up) = arc_step_y a ly (ground (arith, e)) in
          rw (q, circle_loop, less32_below a.x a.y lx ly, e)
            (circle_loop-enough fuel more n x0 y0 c (arc_step a)
              (plot_octants n x0 y0 c (arc_step a) s) (ground (arith, e, arc_step_x a lx))
              (omega (arith, down)) (omega (arith, down, arc_step_x a lx, h)))
      | inr e ↦
          let over : less32 a.x a.y ≡ false = less32_below a.x a.y lx ly ∙ e in
          circle_over (suc fuel + more) n x0 y0 c a s over
          ∙ sym (circle_over (suc fuel) n x0 y0 c a s over)
    ]
