-- ===== src/Gfx/Vt/Bounds.antt =====
-- Where printing may change the buffer of kernel/src/gfx/vt/vt.c.
use limix.Base.{
  ℕ, zero, suc, ◌+◌, ◌-◌, ◌*◌, ◌≤◌, ◌<◌, ◌≡◌, refl, sym, ap, ◌∙◌, arith, Bool, true, false, ◌==◌,
  leb, if◌then◌else◌, List, [], ◌∷◌, Bool-cases, inl, inr,
}
use native.Mathlib.Nat.{mul-add, div-mul-le_self}
use limix.Gfx.Vt.{Vt, kprint}
use limix.Gfx.Vt.Cursor.{IsReady, cells_small}
use limix.Gfx.Vt.Page.{
  Page, settle, step_right, step_down, steps_right, line_start, write, type_plain, type_byte,
  type_bytes,
}
use limix.Gfx.Vt.Print.{page_of, no_backspace, kprint-Shows}

-- The next cell of the page is one of its cells.
record Fits (p : Page) : Type 0 where
  wide : 0 < p.columns
  tall : 4 ≤ p.lines
  inside : p.next < p.columns * p.lines

-- `q` is such a page with the same cells past the end.
record Within (p q : Page) : Type 0 where
  fits : Fits q
  columns : q.columns ≡ p.columns
  lines : q.lines ≡ p.lines
  outside : (i : ℕ) → p.columns * p.lines ≤ i → q.cells i ≡ p.cells i

Within-then : (p q r : Page) → Within p q → Within q r → Within p r
Within-then p q r w u = record {
  fits = u.fits;
  columns = ground (arith, u.columns, w.columns);
  lines = ground (arith, u.lines, w.lines);
  outside = λ i l.
      let same : q.columns * q.lines ≡ p.columns * p.lines = rw (w.columns, w.lines) refl in
      u.outside i (omega arith) ∙ w.outside i l;
}

kept_rows : (w h : ℕ) → 4 ≤ h → w * (h - 4) + w * 4 ≡ w * h
kept_rows w h l =
    let e : h - 4 + 4 ≡ h = omega arith in sym (mul-add w (h - 4) 4) ∙ ap (λ (t : ℕ). w * t) e

settle-Within :
    (p : Page) (k : ℕ)
    → Fits p
    → k < p.columns * p.lines + p.columns * 4
    → Within p (settle (record p { next = k }))
unfolding settle
settle-Within p k f l = elim (Bool-cases (leb (p.columns * p.lines) k)) [
  | inl e ↦ rw e record {
    fits = ground (arith, f);
    columns = refl;
    lines = refl;
    outside = λ i o. ground (arith, kept_rows p.columns p.lines f.tall);
  }
  | inr e ↦
      rw e record { fits = ground (arith, f); columns = refl; lines = refl; outside = λ i o. refl }
]

choose : {p q r : Page} (b : Bool) → Within p q → Within p r → Within p (if b then q else r)
choose true w u = w
choose false w u = u

still :
    (p q : Page)
    → Fits p
    → q.columns ≡ p.columns
    → q.lines ≡ p.lines
    → q.cells ≡ p.cells
    → q.next ≤ p.next
    → Within p q
still p q f c l e n = record {
  fits = record {
    wide = ground (arith, f, c);
    tall = ground (arith, f, l);
    inside = rw (c, l) (omega (arith, f.inside));
  };
  columns = c;
  lines = l;
  outside = λ i o. ground (arith, e);
}

module _ (p : Page) (f : Fits p) where
  four_columns : p.columns * 4 ≤ p.columns * p.lines
  four_columns = omega (arith, kept_rows p.columns p.lines f.tall)

  right-Within : Within p (step_right p)
  unfolding step_right
  right-Within = settle-Within p (p.next + 1) f (omega (arith, f.inside, f.wide))

  down-Within : Within p (step_down p)
  unfolding step_down
  down-Within = settle-Within p (p.next + p.columns) f (omega (arith, f.inside, f.wide))

  start-Within : Within p (line_start p)
  unfolding line_start
  start-Within = still p _ f refl refl refl (div-mul-le_self p.next p.columns)

  write-Within : (c : ℕ) → Within p (write c p)
  unfolding write
  write-Within c = record {
    fits = ground (arith, f);
    columns = refl;
    lines = refl;
    outside = λ i o. ground (arith, f.inside);
  }

rights-Within : (left : ℕ) (p : Page) → Fits p → Within p (steps_right left p)
unfolding steps_right
rights-Within zero p f = still p p f refl refl refl (omega arith)
rights-Within (suc left) p f =
    let w = right-Within p f in
    Within-then p (step_right p) _ w (rights-Within left (step_right p) w.fits)

type_plain-Within : (c : ℕ) (p : Page) → Fits p → Within p (type_plain c p)
unfolding type_plain
type_plain-Within c p f = choose (c == 0x0a) (down-Within p f) (
    choose (c == 0x0d) (start-Within p f) (
      choose (c == 0x08) (still p _ f refl refl refl (omega arith)) (
        choose (c == 0x07) (still p _ f refl refl refl (omega arith)) (
          choose (c == 0x09) (rights-Within 8 p f)
            (Within-then p (write c p) _ w (right-Within (write c p) w.fits))))))
  where
    w : Within p (write c p)
    w = write-Within p f c

type_byte-Within : (c : ℕ) (p : Page) → Fits p → Within p (type_byte c p)
unfolding type_byte
type_byte-Within c p f =
    choose p.pending (still p _ f refl refl refl (omega arith)) (type_plain-Within c p f)

type_bytes-Within : (s : List ℕ) (p : Page) → Fits p → Within p (type_bytes s p)
unfolding type_bytes
type_bytes-Within [] p f = still p p f refl refl refl (omega arith)
type_bytes-Within (c ∷ cs) p f =
    let w = type_byte-Within c p f in
    Within-then p (type_byte c p) _ w (type_bytes-Within cs (type_byte c p) w.fits)

-- kprint of a string without a backspace changes no memory past the cells of a ready terminal, which
-- parses no escape sequence.
pub kprint-outside :
    (s : List ℕ) (v : Vt) (i : ℕ)
    → IsReady v
    → (v.state).working ≡ false
    → no_backspace s ≡ true
    → v.width * v.height ≤ i
    → (kprint s v).buffer i ≡ v.buffer i
kprint-outside s v i r text n l =
    let p = page_of v in
    let shown = kprint-Shows s p v record { ready = r; text = text; page = refl } n in
    let fits : Fits p = record {
      wide = omega (arith, r.column);
      tall = r.tall;
      inside = omega (arith, (cells_small v r).2, r.column);
    } in
    ap (λ (q : Page). q.cells i) shown.page ∙ (type_bytes-Within s p fits).outside i l
