-- ===== src/Gfx/Vt/Text.antt =====
-- Printable text in the cells of the terminal.
use limix.Base.{
  ℕ, zero, suc, ◌+◌, ◌-◌, ◌*◌, ◌^◌, ◌≤◌, ◌<◌, ◌≡◌, refl, sym, ap, ◌∙◌, arith, Bool, true, false,
  not, ◌&&◌, ◌==◌, leb, if◌then◌else◌, List, [], ◌∷◌, length, get_or,
}
use limix.Gfx.Drm.{wrap}
use limix.Gfx.Vt.{
  Cell, char_cell, Vt, cursor, vt_flush, vt_advance_x, put_char, print_plain, kprintc, print_all,
  kprint,
}
use limix.Gfx.Vt.Cursor.{IsReady, vt_flush-Keeps}
use limix.Gfx.Vt.Page.{Page, settle, step_right, write, type_plain, type_byte, type_bytes}
use limix.Gfx.Vt.Print.{page_of, no_backspace, kprint-Shows}

abbrev pub printable : List ℕ → Bool
printable [] = true
printable (c ∷ cs) = leb 0x20 c && printable cs

printable_forward : (s : List ℕ) → printable s ≡ true → no_backspace s ≡ true
printable_forward [] p = refl
printable_forward (c ∷ cs) p = ground (arith, printable_forward cs)

typed :
    (c : ℕ) (p : Page)
    → p.pending ≡ false
    → 0x20 ≤ c
    → p.next + 1 < p.columns * p.lines
    → type_byte c p ≡ record (write c p) { next = p.next + 1 }
unfolding type_byte type_plain step_right settle write
typed c p pend vis fits =
    let a : leb (p.columns * p.lines) (p.next + 1) ≡ false = ground (arith) in
    ground (arith, pend, a)

module _ (c : ℕ) (cs : List ℕ) (p : Page) (pend : p.pending ≡ false)
    (vis : printable (c ∷ cs) ≡ true) (fits : p.next + length (c ∷ cs) < p.columns * p.lines) where
  after : type_bytes (c ∷ cs) p ≡ type_bytes cs (record (write c p) { next = p.next + 1 })
  unfolding type_bytes
  after = ap (type_bytes cs) (typed c p pend (ground arith) (omega (arith, fits)))

type_bytes-before :
    (s : List ℕ) (p : Page) (i : ℕ)
    → p.pending ≡ false
    → printable s ≡ true
    → p.next + length s < p.columns * p.lines
    → i < p.next
    → (type_bytes s p).cells i ≡ p.cells i
unfolding write type_bytes
type_bytes-before [] p i pend vis fits l = refl
type_bytes-before (c ∷ cs) p i pend vis fits l =
    let q : Page = record (write c p) { next = p.next + 1 } in
    let rest : (type_bytes cs q).cells i ≡ q.cells i =
      type_bytes-before cs q i pend (ground arith) (omega (arith, fits)) (omega arith) in
    ap (λ (t : Page). t.cells i) (after c cs p pend vis fits) ∙ rest ∙ ground arith

type_bytes-at :
    (s : List ℕ) (p : Page) (k : ℕ)
    → p.pending ≡ false
    → printable s ≡ true
    → p.next + length s < p.columns * p.lines
    → k < length s
    → (type_bytes s p).cells (p.next + k) ≡ char_cell (get_or s k 0) p.gr
unfolding write
type_bytes-at [] p k pend vis fits l = absurd (omega arith)
type_bytes-at (c ∷ cs) p zero pend vis fits l =
    let q : Page = record (write c p) { next = p.next + 1 } in
    let rest : (type_bytes cs q).cells (p.next + 0) ≡ q.cells (p.next + 0) =
      type_bytes-before cs q (p.next + 0) pend (ground arith) (omega (arith, fits)) (omega arith) in
    ap (λ (t : Page). t.cells (p.next + 0)) (after c cs p pend vis fits) ∙ rest ∙ ground arith
type_bytes-at (c ∷ cs) p (suc k) pend vis fits l =
    let q : Page = record (write c p) { next = p.next + 1 } in
    let rest : (type_bytes cs q).cells (p.next + 1 + k) ≡ char_cell (get_or cs k 0) p.gr =
      type_bytes-at cs q k pend (ground arith) (omega (arith, fits)) (omega arith) in
    let place : p.next + suc k ≡ p.next + 1 + k = omega arith in
    ap (λ (t : Page). t.cells (p.next + suc k)) (after c cs p pend vis fits) ∙ rw place rest

-- Text of bytes from 32 on, which ends before the last cell, stands in the cells from the cursor on,
-- in the colours of the rendition. The terminal is ready and reads no escape sequence or colour code.
pub kprint-text :
    (s : List ℕ) (v : Vt) (k : ℕ)
    → IsReady v
    → (v.state).working ≡ false
    → v.termcode ≡ false
    → printable s ≡ true
    → v.y * v.width + v.x + length s < v.width * v.height
    → k < length s
    → (kprint s v).buffer (v.y * v.width + v.x + k) ≡ char_cell (get_or s k 0) (v.state).gr
kprint-text s v k r text pend vis fits l =
    let p = page_of v in
    let shown =
      kprint-Shows s p v record { ready = r; text = text; page = refl } (printable_forward s vis) in
    ap (λ (q : Page). q.cells (p.next + k)) shown.page ∙ type_bytes-at s p k pend vis fits l

back_first :
    (v : Vt)
    → v.avail ≡ true
    → (v.state).working ≡ false
    → v.termcode ≡ false
    → v.x ≡ 0
    → kprintc 8 v ≡ record v { x = 2 ^ 64 - 1 }
unfolding kprintc
back_first v a text pend x = ground (arith, a, text, pend)

skip : (v w : Vt) (b : Bool) → b ≡ false → (if b then v else w) ≡ w
skip v w true e = absurd (ground arith)
skip v w false e = refl

plain_char : (c : ℕ) (v : Vt) → 0x20 ≤ c → print_plain c v ≡ put_char c v
unfolding print_plain
plain_char c v l =
    skip _ _ (c == 0x0a) (ground arith)
    ∙ skip _ _ (c == 0x0d) (ground arith)
    ∙ skip _ _ (c == 0x08) (ground arith)
    ∙ skip _ _ (c == 0x07) (ground arith)
    ∙ skip _ _ (c == 0x09) (ground arith)

printed_char :
    (c : ℕ) (v : Vt)
    → v.avail ≡ true
    → (v.state).working ≡ false
    → v.termcode ≡ false
    → 0x20 ≤ c
    → kprintc c v ≡ put_char c v
unfolding kprintc
printed_char c v a text pend l =
    skip _ _ (not v.avail) (ground (arith, a))
    ∙ skip _ _ (v.state).working text
    ∙ skip _ _ v.termcode pend
    ∙ plain_char c v l

put_first :
    (c : ℕ) (v : Vt)
    → v.avail ≡ true
    → v.x ≡ 2 ^ 64 - 1
    → 0 < v.width
    → (put_char c v).buffer (cursor v) ≡ char_cell c (v.state).gr
unfolding put_char vt_advance_x
put_first c v a x w =
    let wraps : leb v.width (wrap (v.x + 1)) ≡ false = ground (arith, x) in
    let self : (cursor v == cursor v) ≡ true = ground arith in
    ap (λ (t : Vt). t.buffer (cursor v))
      (skip _ _ (not v.avail) (ground (arith, a)) ∙ skip _ _ (leb v.width (wrap (v.x + 1))) wraps)
    ∙ rw self refl

-- A backspace at the first cell and a byte from 32 on put a character into cell 2 ^ 64 - 1, which no
-- buffer has: it is the memory before the buffer. The terminal is ready and reads no escape sequence
-- or colour code.
pub kprint-backspace_home :
    (v : Vt) (c : ℕ)
    → IsReady v
    → (v.state).working ≡ false
    → v.termcode ≡ false
    → v.x ≡ 0
    → v.y ≡ 0
    → 0x20 ≤ c
    → (kprint (8 ∷ c ∷ []) v).buffer (2 ^ 64 - 1) ≡ char_cell c (v.state).gr
unfolding kprint print_all
kprint-backspace_home v c r text pend x y l =
    let u : Vt = record v { x = 2 ^ 64 - 1 } in
    let far : cursor u ≡ 2 ^ 64 - 1 = ground (arith, y) in
    let printed : kprint (8 ∷ c ∷ []) v ≡ vt_flush (put_char c u) = ground (
      arith,
      r.available,
      back_first v r.available text pend x,
      printed_char c u r.available text pend l,
    ) in
    let kept = (vt_flush-Keeps (put_char c u)).buffer in
    let cell = put_first c u r.available refl (omega (arith, r.column)) in
    ap (λ (t : Vt). t.buffer (2 ^ 64 - 1)) printed
    ∙ ap (λ (b : ℕ → Cell). b (2 ^ 64 - 1)) kept
    ∙ ap (put_char c u).buffer (sym far)
    ∙ cell
