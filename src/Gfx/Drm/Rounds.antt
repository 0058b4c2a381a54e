-- ===== src/Gfx/Drm/Rounds.antt =====
-- The rounds of the loop of a line make a walk.
use limix.Base.{
  ℕ, zero, suc, ◌+◌, ◌-◌, ◌*◌, ◌^◌, ◌≤◌, ◌<◌, ◌≡◌, refl, arith, ltb, Bool-cases, inl, inr, List, [],
  ◌∷◌,
}
use mathlib.Core.Path.{subst}
use native.Mathlib.Nat.{suc-mul}
use limix.Gfx.Drm.{Display, drm_plot}
use limix.Gfx.Drm.Line.{add32, Slope, Pen, pen_step, line_loop}
use limix.Gfx.Drm.Walk.{
  Near, Walk, stay, move, plot_all, Toward, Toward-step, Toward-end, Major, Major-zero,
  Major-diagonal, Major-straight, no_diagonal, pen_step_diagonal, pen_step_straight, extend_small,
}

-- A walk that starts at a pen, and what the loop draws.
abbrev pub Walked : ℕ → Slope → Pen → ℕ → ℕ → ℕ → ℕ → Display → Type 0
Walked r l p x1 y1 n c s =
    (ps : List (ℕ × ℕ)) × (line_loop r l p n c s ≡ plot_all n c ps s) × Walk r p.x p.y x1 y1 ps

-- Without rounds the pen is where it should be.
pub no_rounds :
    (l : Slope) (kx ky : ℕ) (p : Pen) (x1 y1 n c : ℕ) (s : Display)
    → Toward l.ddx p.x kx x1
    → Toward l.ddy p.y ky y1
    → (kx ≡ 0) × (ky ≡ 0)
    → Walked 0 l p x1 y1 n c s
unfolding line_loop plot_all
no_rounds l kx ky p x1 y1 n c s tx ty (zx, zy) =
    let ex = Toward-end l.ddx p.x x1 (subst (λ (k : ℕ). Toward l.ddx p.x k x1) zx tx) in
    let ey = Toward-end l.ddy p.y y1 (subst (λ (k : ℕ). Toward l.ddy p.y k y1) zy ty) in
    (
      [],
      refl,
      subst (λ (t : ℕ). Walk 0 p.x p.y t y1 []) ex
          (subst (λ (t : ℕ). Walk 0 p.x p.y p.x t []) ey (stay p.x p.y)),
    )

module _ (l : Slope) (n c x1 y1 e0 : ℕ) (small : l.deltafastdirection < 2 ^ 31)
    (slow : l.deltaslowdirection ≤ l.deltafastdirection) (start : e0 < l.deltafastdirection) where
  -- One round is drawn, and a walk from there.
  step-Walked :
      (r kx ky : ℕ) (p q : Pen) (s : Display)
      → pen_step l p ≡ q
      → Near p.x q.x
      → Near p.y q.y
      → Toward l.ddx q.x kx x1
      → Toward l.ddy q.y ky y1
      → Walked r l q x1 y1 n c (drm_plot n q.x q.y c s)
      → Walked (suc r) l p x1 y1 n c s
  unfolding line_loop plot_all
  step-Walked r kx ky p q s e nx ny tx ty (ps, run, walk) = (
    (q.x, q.y) ∷ ps,
    rw (line_loop, e, extend_small l.ddx q.x kx x1 tx, extend_small l.ddy q.y ky y1 ty) run,
    move r p.x p.y q.x q.y x1 y1 ps nx ny walk,
  )

  abbrev Goes : ℕ → Type 0
  Goes r =
      (q kx ky : ℕ) (p : Pen) (s : Display)
      → Major l r q kx ky
      → Toward l.ddx p.x kx x1
      → Toward l.ddy p.y ky y1
      → p.err < l.deltafastdirection
      → p.err + q * l.deltafastdirection ≡ e0 + r * l.deltaslowdirection
      → Walked r l p x1 y1 n c s

  diagonal :
      (r : ℕ)
      → Goes r
      → (q kx ky : ℕ) (p : Pen) (s : Display) → Major l (suc r) q kx ky
      → Toward l.ddx p.x kx x1
      → Toward l.ddy p.y ky y1
      → p.err < l.deltafastdirection
      → p.err + q * l.deltafastdirection ≡ e0 + suc r * l.deltaslowdirection
      → p.err < l.deltaslowdirection
      → Walked (suc r) l p x1 y1 n c s
  diagonal r go zero kx ky p s m tx ty below inv d =
      absurd (omega (arith, inv, d, suc-mul r l.deltaslowdirection))
  diagonal r go (suc q) kx ky p s m tx ty below inv d =
      let (kx', ky', ex, ey, m') = Major-diagonal l r q kx ky m in
      let (tx', nx) =
        Toward-step l.ddx p.x kx' x1 (subst (λ (k : ℕ). Toward l.ddx p.x k x1) ex tx) in
      let (ty', ny) =
        Toward-step l.ddy p.y ky' y1 (subst (λ (k : ℕ). Toward l.ddy p.y k y1) ey ty) in
      let next : Pen = record {
        err = p.err + l.deltafastdirection - l.deltaslowdirection;
        x = add32 p.x l.ddx;
        y = add32 p.y l.ddy;
      } in
      step-Walked r kx' ky' p next s (pen_step_diagonal l p small slow d) nx ny tx' ty' (
        go q kx' ky' next (drm_plot n next.x next.y c s) m' tx' ty' (omega arith) (
          omega
            (arith, inv, d, slow, suc-mul r l.deltaslowdirection, suc-mul q l.deltafastdirection)))

  straight :
      (r : ℕ)
      → Goes r
      → (q kx ky : ℕ) (p : Pen) (s : Display) → Major l (suc r) q kx ky
      → Toward l.ddx p.x kx x1
      → Toward l.ddy p.y ky y1
      → p.err < l.deltafastdirection
      → p.err + q * l.deltafastdirection ≡ e0 + suc r * l.deltaslowdirection
      → l.deltaslowdirection ≤ p.err
      → Walked (suc r) l p x1 y1 n c s
  straight r go q kx ky p s m tx ty below inv d =
      let (kx', ky', (tx', nx), (ty', ny), m') = Major-straight l r q kx ky p x1 y1 m tx ty in
      let next : Pen = record {
        err = p.err - l.deltaslowdirection;
        x = add32 p.x l.pdx;
        y = add32 p.y l.pdy;
      } in
      step-Walked r kx' ky' p next s (pen_step_straight l p (omega arith) d) nx ny tx' ty' (
        go q kx' ky' next (drm_plot n next.x next.y c s) m' tx' ty' (omega arith)
          (omega (arith, inv, d, suc-mul r l.deltaslowdirection)))

  pub line_loop-Walked :
      (r q kx ky : ℕ) (p : Pen) (s : Display)
      → Major l r q kx ky
      → Toward l.ddx p.x kx x1
      → Toward l.ddy p.y ky y1
      → p.err < l.deltafastdirection
      → p.err + q * l.deltafastdirection ≡ e0 + r * l.deltaslowdirection
      → Walked r l p x1 y1 n c s
  unfolding line_loop plot_all
  line_loop-Walked zero q kx ky p s m tx ty below inv =
      let none_left = no_diagonal q p.err l.deltafastdirection e0 (omega (arith, inv)) start in
      no_rounds l kx ky p x1 y1 n c s tx ty (Major-zero l 0 q kx ky m refl none_left)
  line_loop-Walked (suc r) q kx ky p s m tx ty below inv =
      elim (Bool-cases (ltb p.err l.deltaslowdirection)) [
        | inl d ↦ diagonal r (line_loop-Walked r) q kx ky p s m tx ty below inv (ground (arith, d))
        | inr d ↦ straight r (line_loop-Walked r) q kx ky p s m tx ty below inv (ground (arith, d))
      ]
