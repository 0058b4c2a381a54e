-- ===== src/Gfx/Vt/Print.antt =====
-- The functions of kernel/src/gfx/vt/vt.c that print, against the page.
use limix.Base.{
  ℕ, zero, suc, ◌+◌, ◌-◌, ◌*◌, ◌^◌, ◌≤◌, ◌<◌, ◌≡◌, refl, sym, ap, ◌∙◌, arith, Bool, true, false,
  not, ◌&&◌, ◌==◌, ltb, leb, if◌then◌else◌, List, [], ◌∷◌, Bool-cases, inl, inr, fun_ext,
}
use mathlib.Core.Path.{subst}
use native.Mathlib.Nat.{mul-le-mul_left, mul_comm, add-mul, div-eq_of_lt, mul-add-div_right}
use limix.Gfx.Drm.{wrap}
use limix.Gfx.Vt.{
  Cell, blank, char_cell, Vt, vt_flush, scroll, vt_advance_y, vt_advance_x, mark_dirty, put_char,
  tab, print_plain, kprintc, print_all, kprint,
}
use limix.Gfx.Vt.Cursor.{IsReady, Keeps, vt_flush-Keeps, cells_small, next_line, next_screen}
use limix.Gfx.Vt.Page.{
  Page, settle, step_right, step_down, steps_right, line_start, write, type_plain, type_byte,
  type_bytes,
}

abbrev pub page_of : Vt → Page
page_of v = record {
  columns = v.width;
  lines = v.height;
  cells = v.buffer;
  next = v.y * v.width + v.x;
  gr = (v.state).gr;
  pending = v.termcode;
}

-- The terminal `v` is ready, parses no escape sequence, and shows the page `p`.
pub record Shows (p : Page) (v : Vt) : Type 0 where
  pub ready : IsReady v
  pub text : (v.state).working ≡ false
  pub page : page_of v ≡ p

-- What holds for the page of a terminal holds for the page that it shows.
at_page :
    (op : Page → Page) (run : Vt → Vt)
    → ((v : Vt) → IsReady v → (v.state).working ≡ false → Shows (op (page_of v)) (run v))
    → (p : Page) (v : Vt) → Shows p v
    → Shows (op p) (run v)
at_page op run h p v s = subst (λ q. Shows (op q) (run v)) s.page (h v s.ready s.text)

Shows-kept : (p : Page) (v r : Vt) → Keeps v r → Shows p v → Shows p r
Shows-kept p v r k s = record {
  ready = ground (arith, s.ready);
  text = ground (arith, s.text);
  page = ground (arith, s.page);
}

scroll-settle :
    (w h : ℕ) (b : ℕ → Cell)
    → 4 ≤ h
    → h < 2 ^ 20
    → w * (h - 4) < 2 ^ 64
    → scroll w h b ≡ λ i.
        if ltb i (w * (h - 4))
        then b (i + w * 4)
        else if ltb i (w * (h - 4) + w * 4)
        then blank
        else b i
unfolding scroll
scroll-settle w h b tall small fits =
    let lines : wrap (h + 2 ^ 64 - 4) ≡ h - 4 = omega arith in
    let kept : wrap (w * wrap (h + 2 ^ 64 - 4)) ≡ w * (h - 4) =
      ap (λ (t : ℕ). wrap (w * t)) lines ∙ omega arith in
    fun_ext λ i. rw kept refl

module _ (v : Vt) (r : IsReady v) (text : (v.state).working ≡ false) where
  rows_fit : (k : ℕ) → k ≤ v.height → k * v.width ≤ v.width * v.height
  rows_fit k l = omega (arith, mul-le-mul_left v.width l, mul_comm k v.width)

  down_fits : v.y + 1 < v.height → Shows (step_down (page_of v)) (vt_advance_y v)
  unfolding step_down settle
  down_fits l =
      let k = next_line v r l in
      let fits : leb (v.width * v.height) (v.y * v.width + v.x + v.width) ≡ false =
        ground (arith, rows_fit (v.y + 2) (ground arith), add-mul v.y 2 v.width, r.column) in
      rw fits record {
        ready = ground (arith, k);
        text = ground (arith, k);
        page = ground (arith, k, add-mul v.y 1 v.width);
      }

  last_row : v.y + 1 ≡ v.height → v.y * v.width + v.width ≡ v.width * v.height
  last_row e =
      omega (arith, ap (λ (t : ℕ). t * v.width) e, add-mul v.y 1 v.width, mul_comm v.width v.height)

  kept_rows : (v.height - 4) * v.width + 4 * v.width ≡ v.width * v.height
  kept_rows =
      let e : v.height - 4 + 4 ≡ v.height = omega (arith, r.tall) in
      omega (
        arith,
        ap (λ (t : ℕ). t * v.width) e,
        add-mul (v.height - 4) 4 v.width,
        mul_comm v.width v.height,
      )

  kept_small : v.width * (v.height - 4) < 2 ^ 64
  kept_small = omega (
    arith,
    r.small_width,
    rows_fit (v.height - 4) (omega arith),
    mul_comm v.width (v.height - 4),
    (cells_small v r).0,
  )

  down_scrolls : v.y + 1 ≡ v.height → Shows (step_down (page_of v)) (vt_advance_y v)
  unfolding step_down settle
  down_scrolls l =
      let k = next_screen v r l in
      let full : leb (v.width * v.height) (v.y * v.width + v.x + v.width) ≡ true =
        ground (arith, last_row l) in
      rw full record {
        ready = ground (arith, k);
        text = ground (arith, k);
        page = ground (
          arith,
          k,
          last_row l,
          kept_rows,
          scroll-settle v.width v.height v.buffer r.tall r.small_height kept_small,
        );
      }

abbrev Runs : (Page → Page) → (Vt → Vt) → Type 0
Runs op run = (v : Vt) → IsReady v → (v.state).working ≡ false → Shows (op (page_of v)) (run v)

down_page : Runs step_down vt_advance_y
down_page v r t = elim (Bool-cases (ltb (v.y + 1) v.height)) [
  | inl e ↦ down_fits v r t (ground arith)
  | inr e ↦ down_scrolls v r t (ground (arith, r.line))
]

right_fits :
    (v : Vt) (r : IsReady v)
    → v.x + 1 < v.width
    → step_right (page_of v) ≡ page_of (record v { x = v.x + 1 })
unfolding step_right settle
right_fits v r l =
    let fits : leb (v.width * v.height) (v.y * v.width + v.x + 1) ≡ false =
      ground (arith, (cells_small v r).2) in
    rw fits (ground arith)

right_turns :
    (v : Vt) (r : IsReady v)
    → v.x + 1 ≡ v.width
    → step_right (page_of v) ≡ step_down (page_of (record v { x = 0 }))
unfolding step_right step_down
right_turns v r l = ap (λ (k : ℕ). settle (record (page_of v) { next = k })) (omega arith)

right_page : Runs step_right vt_advance_x
unfolding vt_advance_x
right_page v r t = elim (Bool-cases (ltb (v.x + 1) v.width)) [
  | inl e ↦
      let small : wrap (v.x + 1) ≡ v.x + 1 = omega (arith, r.column, r.small_width) in
      let fits : leb v.width (v.x + 1) ≡ false = ground (arith) in
      rw (r.available, small, fits)
        record { ready = ground (arith, r); text = t; page = sym (right_fits v r (ground arith)) }
  | inr e ↦
      let full : leb v.width (wrap (v.x + 1)) ≡ true = ground (arith, r.column, r.small_width) in
      ground (
        arith,
        full,
        r.available,
        right_turns v r (ground (arith, r.column)),
        down_page (record v { x = 0 })
            (record {
              available = r.available;
              column = omega (arith, r.column);
              line = r.line;
              tall = r.tall;
              small_width = r.small_width;
              small_height = r.small_height;
            })
            t,
      )
]

rights_page : (left : ℕ) → Runs (steps_right left) (tab left)
unfolding steps_right tab
rights_page zero v r t = record { ready = r; text = t; page = refl }
rights_page (suc left) v r t =
    at_page (steps_right left) (tab left) (rights_page left) _ _ (right_page v r t)

flush_page : Runs (λ p. p) vt_flush
flush_page v r t = Shows-kept _ _ _ (vt_flush-Keeps v) record { ready = r; text = t; page = refl }

mark_page : Runs (λ p. p) mark_dirty
unfolding mark_dirty
mark_page v r t = record { ready = ground (arith, r); text = t; page = refl }

write_page : (c : ℕ) → Runs (λ p. step_right (write c p)) (put_char c)
unfolding put_char write
write_page c v r t = at_page step_right vt_advance_x right_page _ _ record {
  ready = ground (arith, r);
  text = t;
  page =
      ap
        (λ (n : ℕ). record (page_of v) {
          cells = λ i. if i == n then char_cell c (v.state).gr else v.buffer i;
        })
        (cells_small v r).1;
}

start_page : Runs line_start (λ v. record v { x = 0 })
unfolding line_start
start_page v r t = record {
  ready = ground (arith, r);
  text = t;
  page = ground (
    arith,
    div-eq_of_lt r.column,
    mul-add-div_right {m = v.width} (omega (arith, r.column)) v.y v.x,
  );
}

choose :
    {p q : Page} {v w : Vt} (b : Bool)
    → (b ≡ true → Shows p v)
    → (b ≡ false → Shows q w)
    → Shows (if b then p else q) (if b then v else w)
choose true f g = f refl
choose false f g = g refl

choose_last :
    {p : Page} {w : Vt} (v : Vt) (b : Bool) → b ≡ false → Shows p w → Shows p (if b then v else w)
choose_last v true e s = absurd (ground arith)
choose_last v false e s = s

module _ (c : ℕ) (v : Vt) (r : IsReady v) (text : (v.state).working ≡ false) where
  line_feed_page : Shows (step_down (page_of v)) (vt_advance_y (vt_flush (mark_dirty v)))
  line_feed_page =
      at_page step_down vt_advance_y down_page _ _
        (at_page (λ p. p) vt_flush flush_page _ _ (mark_page v r text))

  back_page :
      0 < v.x
      → Shows
          (record (page_of v) { next = v.y * v.width + v.x - 1 })
          (record v { x = wrap (v.x + 2 ^ 64 - 1) })
  back_page l = record { ready = ground (arith, r); text = text; page = ground (arith, r) }

  plain_page : (c ≡ 8 → 0 < v.x) → Shows (type_plain c (page_of v)) (print_plain c v)
  unfolding print_plain type_plain
  plain_page back =
      choose (c == 0x0a) (λ e. line_feed_page)
        (λ e.
          choose (c == 0x0d) (λ e. start_page v r text)
            (λ e.
              choose (c == 0x08) (λ e. back_page (back (ground arith)))
                (λ e.
                  choose (c == 0x07)
                    (λ e. record { ready = ground (arith, r); text = text; page = refl })
                    (λ e.
                      choose (c == 0x09) (λ e. rights_page 8 v r text)
                        (λ e. write_page c v r text)))))

  byte_page : (c ≡ 8 → 0 < v.x) → Shows (type_byte c (page_of v)) (kprintc c v)
  unfolding kprintc type_byte
  byte_page back = choose_last _ (not v.avail) (ground (arith, r.available)) (
      choose_last _ (v.state).working text (
        choose v.termcode (λ e. record { ready = ground (arith, r); text = text; page = refl })
          (λ e. plain_page back)))

-- A byte that kprintc prints does to the terminal what it does to the page that is shown. The
-- terminal is ready, parses no escape sequence, and a backspace does not meet the first column.
pub kprintc-Shows :
    (c : ℕ) (p : Page) (v : Vt)
    → Shows p v
    → (c ≡ 8 → 0 < v.x)
    → Shows (type_byte c p) (kprintc c v)
kprintc-Shows c p v s back =
    subst (λ q. Shows (type_byte c q) (kprintc c v)) s.page (byte_page c v s.ready s.text back)

abbrev pub no_backspace : List ℕ → Bool
no_backspace [] = true
no_backspace (c ∷ cs) = not (c == 8) && no_backspace cs

pub print_all-Shows :
    (s : List ℕ) (p : Page) (v : Vt)
    → Shows p v
    → no_backspace s ≡ true
    → Shows (type_bytes s p) (print_all s v)
unfolding type_bytes print_all
print_all-Shows [] p v sh n = sh
print_all-Shows (c ∷ cs) p v sh n =
    print_all-Shows cs (type_byte c p) (kprintc c v)
      (kprintc-Shows c p v sh (λ e. absurd (ground arith))) (ground arith)

-- kprint of a string without a backspace does to a ready terminal, which parses no escape sequence,
-- what the bytes do one by one to the page that it shows.
pub kprint-Shows :
    (s : List ℕ) (p : Page) (v : Vt)
    → Shows p v
    → no_backspace s ≡ true
    → Shows (type_bytes s p) (kprint s v)
unfolding kprint
kprint-Shows s p v sh n =
    choose_last _ (not v.avail) (ground (arith, sh.ready))
      (at_page (λ q. q) vt_flush flush_page _ _ (print_all-Shows s p v sh n))
