-- ===== src/Gfx/Drm/Walk.antt =====
-- What a walk from pixel to pixel is, and one round of the loop of a line.
use limix.Base.{
  ℕ, zero, suc, ◌+◌, ◌-◌, ◌*◌, ◌^◌, ◌≤◌, ◌<◌, ◌≡◌, ◌⊎◌, refl, arith, true, false, List, [], ◌∷◌,
}
use native.Mathlib.Nat.{suc-mul}
use limix.Gfx.Drm.{Display, drm_plot}
use limix.Gfx.Drm.Line.{negative, add32, sub32, extend, Slope, Pen, pen_step}

-- Two numbers that differ by at most 1.
abbrev pub Near : ℕ → ℕ → Type 0
Near a b = (a ≤ b + 1) × (b ≤ a + 1)

-- `ps` leads from a pixel to another in `k` steps, each to one of the pixels around.
pub data Walk : ℕ → ℕ → ℕ → ℕ → ℕ → List (ℕ × ℕ) → Type 0 where
  stay : (x y : ℕ) → Walk 0 x y x y []
  move :
      (k x y x' y' x1 y1 : ℕ) (ps : List (ℕ × ℕ))
      → Near x x'
      → Near y y'
      → Walk k x' y' x1 y1 ps
      → Walk (suc k) x y x1 y1 ((x', y') ∷ ps)

unfoldable pub plot_all : ℕ → ℕ → List (ℕ × ℕ) → Display → Display
plot_all n c [] s = s
plot_all n c ((x, y) ∷ ps) s = plot_all n c ps (drm_plot n x y c s)

-- `k` steps by the i32 `d` lead from `a` to `b`, and both are small.
abbrev pub Toward : ℕ → ℕ → ℕ → ℕ → Type 0
Toward d a k b =
    (a < 2 ^ 31)
    × (b < 2 ^ 31)
    × (((d ≡ 1) × (a + k ≡ b)) ⊎ (((d ≡ 2 ^ 32 - 1) × (b + k ≡ a)) ⊎ ((d ≡ 0) × (k ≡ 0) × (a ≡ b))))

pub Toward-step :
    (d a k b : ℕ) → Toward d a (suc k) b → Toward d (add32 a d) k b × Near a (add32 a d)
Toward-step d a k b h = ground (arith, h)

pub Toward-end : (d a b : ℕ) → Toward d a 0 b → a ≡ b
Toward-end d a b h = ground (arith, h)

-- `r` rounds are left, `q` of them diagonal; the fast direction is that of x or of y.
pub data Major (l : Slope) (r q : ℕ) : ℕ → ℕ → Type 0 where
  x_major : l.pdx ≡ l.ddx → l.pdy ≡ 0 → Major l r q r q
  y_major : l.pdx ≡ 0 → l.pdy ≡ l.ddy → Major l r q q r

pub Major-zero :
    (l : Slope) (r q kx ky : ℕ) → Major l r q kx ky → r ≡ 0 → q ≡ 0 → (kx ≡ 0) × (ky ≡ 0)
Major-zero l r q kx ky (x_major a b) y z = (y, z)
Major-zero l r q kx ky (y_major a b) y z = (z, y)

pub Major-diagonal :
    (l : Slope) (r q kx ky : ℕ)
    → Major l (suc r) (suc q) kx ky
    → (kx' : ℕ) × (ky' : ℕ) × (kx ≡ suc kx') × (ky ≡ suc ky') × Major l r q kx' ky'
Major-diagonal l r q kx ky (x_major a b) = (r, q, refl, refl, x_major a b)
Major-diagonal l r q kx ky (y_major a b) = (q, r, refl, refl, y_major a b)

-- A step by 0.
Toward-stay :
    (d a k b e : ℕ) → e ≡ 0 → Toward d a k b → Toward d (add32 a e) k b × Near a (add32 a e)
Toward-stay d a k b e z h = ground (arith, z, h)

Toward-step_by :
    (d a k b e : ℕ) → e ≡ d → Toward d a (suc k) b → Toward d (add32 a e) k b × Near a (add32 a e)
Toward-step_by d a k b e z h = ground (arith, z, h)

pub Major-straight :
    (l : Slope) (r q kx ky : ℕ) (p : Pen) (x1 y1 : ℕ)
    → Major l (suc r) q kx ky
    → Toward l.ddx p.x kx x1
    → Toward l.ddy p.y ky y1
    → (kx' : ℕ) × (ky' : ℕ) × (Toward l.ddx (add32 p.x l.pdx) kx' x1 × Near p.x (add32 p.x l.pdx))
      × (Toward l.ddy (add32 p.y l.pdy) ky' y1 × Near p.y (add32 p.y l.pdy))
      × Major l r q kx' ky'
Major-straight l r q kx ky p x1 y1 (x_major a b) tx ty = (
  r,
  q,
  Toward-step_by l.ddx p.x r x1 l.pdx a tx,
  Toward-stay l.ddy p.y q y1 l.pdy b ty,
  x_major a b,
)
Major-straight l r q kx ky p x1 y1 (y_major a b) tx ty = (
  q,
  r,
  Toward-stay l.ddx p.x q x1 l.pdx a tx,
  Toward-step_by l.ddy p.y r y1 l.pdy b ty,
  y_major a b,
)

pub no_diagonal : (q err f e0 : ℕ) → err + q * f ≡ e0 → e0 < f → q ≡ 0
no_diagonal zero err f e0 h l = refl
no_diagonal (suc q) err f e0 h l = absurd (omega (arith, h, l, suc-mul q f))

pub pen_step_diagonal :
    (l : Slope) (p : Pen)
    → l.deltafastdirection < 2 ^ 31
    → l.deltaslowdirection ≤ l.deltafastdirection
    → p.err < l.deltaslowdirection
    → pen_step l p ≡ record {
      err = p.err + l.deltafastdirection - l.deltaslowdirection;
      x = add32 p.x l.ddx;
      y = add32 p.y l.ddy;
    }
unfolding pen_step
pen_step_diagonal l p small slow below =
    let e : sub32 p.err l.deltaslowdirection ≡ p.err + 2 ^ 32 - l.deltaslowdirection =
      omega arith in
    let back : add32 (p.err + 2 ^ 32 - l.deltaslowdirection) l.deltafastdirection
        ≡ p.err + l.deltafastdirection - l.deltaslowdirection =
      omega arith in
    let neg : negative (p.err + 2 ^ 32 - l.deltaslowdirection) ≡ true = ground arith in
    rw (pen_step, e, neg, back) refl

pub pen_step_straight :
    (l : Slope) (p : Pen)
    → p.err < 2 ^ 31
    → l.deltaslowdirection ≤ p.err
    → pen_step l p
      ≡ record { err = p.err - l.deltaslowdirection; x = add32 p.x l.pdx; y = add32 p.y l.pdy }
unfolding pen_step
pen_step_straight l p small above =
    let e : sub32 p.err l.deltaslowdirection ≡ p.err - l.deltaslowdirection = omega arith in
    let pos : negative (p.err - l.deltaslowdirection) ≡ false = ground arith in
    rw (pen_step, e, pos) refl

pub extend_small : (d x k y : ℕ) → Toward d x k y → extend x ≡ x
extend_small d x k y h = ground (arith, h)
