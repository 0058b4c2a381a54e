-- ===== src/Mm/Vmm/Map.antt =====
-- What vmm_map does to a page whose tables are there.
use limix.Base.{
  ℕ, ◌+◌, ◌/◌, ◌%◌, ◌^◌, ◌<◌, ◌≡◌, ◌≢◌, refl, sym, ap, ◌∙◌, arith, true, false, not, ◌&&◌, ◌==◌,
  if◌then◌else◌, some, bit_or,
}
use limix.Base.Bits.{bit_or-fields, bit_or-top, bit_or-odd, bit_and-bit}
use limix.Mm.Vmm.{
  Paging, page, absent, large, present, large_page, frame, walk_page, walk_table, mmu_page,
  vmm_address, vmm_fractal_pml4, vmm_fractal_pdp, vmm_fractal_pd, vmm_fractal_pt, writeable,
  mmu_writeable, write_entry, ensure_table, vmm_map,
}
use limix.Mm.Vmm.Fractal.{
  Recursive, fractal_pml4, fractal_pdp, fractal_pd, fractal_pt, read_at, writeable_pt,
}

-- The entry that vmm_map writes.
abbrev pub leaf : ℕ → ℕ → ℕ
leaf p flags = bit_or (bit_or (vmm_address p) 1) flags

leaf-top : (p flags : ℕ) → flags < 2 ^ 12 → leaf p flags / 2 ^ 12 ≡ p / 2 ^ 12
leaf-top p flags l =
    bit_or-top 12 (bit_or (vmm_address p) 1) flags l
    ∙ bit_or-top 12 (vmm_address p) 1 (omega arith)
    ∙ omega arith

leaf-present : (p flags : ℕ) → present (leaf p flags % 2 ^ 64) ≡ true
leaf-present p flags =
    let sum : bit_or (vmm_address p) 1 ≡ vmm_address p + 1 =
      bit_or-fields 12 (p / 2 ^ 12) 1 (omega arith) in
    let odd : leaf p flags % 2 ≡ 1 =
      bit_or-odd (bit_or (vmm_address p) 1) flags (omega (arith, sum)) in
    ground (arith, odd, bit_and-bit 0 (leaf p flags % 2 ^ 64))

-- The table of level 1 that holds the entry of `v`.
pub record Tables (s : Paging) (v b c d : ℕ) : Type 0 where
  pub pdp : walk_table s (frame s.cr3) (v / 2 ^ 39 % 2 ^ 9) ≡ page b
  pub pd : walk_table s b (v / 2 ^ 30 % 2 ^ 9) ≡ page c
  pub pt : walk_table s c (v / 2 ^ 21 % 2 ^ 9) ≡ page d

-- These entries and entry 260 of the top table allow writes.
pub record Writeable (s : Paging) (v b c : ℕ) : Type 0 where
  pub self_writeable : writeable (s.entry (frame s.cr3) 260) ≡ true
  pub pdp_writeable : writeable (s.entry (frame s.cr3) (v / 2 ^ 39 % 2 ^ 9)) ≡ true
  pub pd_writeable : writeable (s.entry b (v / 2 ^ 30 % 2 ^ 9)) ≡ true
  pub pt_writeable : writeable (s.entry c (v / 2 ^ 21 % 2 ^ 9)) ≡ true

table_frame : (s : Paging) (a i b : ℕ) → walk_table s a i ≡ page b → frame (s.entry a i) ≡ b
unfolding walk_table
table_frame s a i b h = ground (arith, h)

table_entry :
    (s : Paging) (a i b : ℕ)
    → walk_table s a i ≡ page b
    → (present (s.entry a i) ≡ true)
      × (large_page (s.entry a i) ≡ false)
      × (walk_page s a i ≡ page b)
unfolding walk_table walk_page
table_entry s a i b h = (ground (arith, h), ground (arith, h), ground (arith, h))

ensure_there :
    (s : Paging) (t a i : ℕ)
    → mmu_page s t ≡ page a
    → present (s.entry a i) ≡ true
    → large_page (s.entry a i) ≡ false
    → ensure_table t i s ≡ some s
unfolding ensure_table
ensure_there s t a i m p l = ground (arith, read_at s t a i m, p, l)

-- The memory with one entry changed.
abbrev pub with_entry : Paging → ℕ → ℕ → ℕ → Paging
with_entry s a i e = record s {
  entry = λ b j. if b == a && j == i then e % 2 ^ 64 else s.entry b j;
}

write_at :
    (s : Paging) (t a i e : ℕ)
    → mmu_page s t ≡ page a
    → mmu_writeable s t ≡ true
    → write_entry s t i e ≡ some (with_entry s a i e)
unfolding write_entry
write_at s t a i e m w = ground (arith, m, w)

table_kept :
    (s : Paging) (d l e a i : ℕ) → a ≢ d → walk_table (with_entry s d l e) a i ≡ walk_table s a i
unfolding walk_table
table_kept s d l e a i n =
    let other : (a == d) ≡ false = ground (arith, n) in
    let same : (with_entry s d l e).entry a i ≡ s.entry a i = rw other refl in
    ap
      (λ (t : ℕ).
        if not (present t) then absent else if large_page t then large else page (frame t))
      same

new_leaf :
    (s : Paging) (d l p flags : ℕ)
    → p < 2 ^ 52
    → flags < 2 ^ 12
    → walk_page (with_entry s d l (leaf p flags)) d l ≡ page (vmm_address p)
unfolding walk_page
new_leaf s d l p flags small fl =
    let self : (d == d && l == l) ≡ true = ground arith in
    let top = leaf-top p flags fl in
    let address : frame (leaf p flags % 2 ^ 64) ≡ vmm_address p = omega (arith, top) in
    rw self (rw (leaf-present p flags) (ap page address))

map_steps :
    (s : Paging) (v p flags : ℕ) (t : Paging)
    → ensure_table vmm_fractal_pml4 (v / 2 ^ 39 % 2 ^ 9) s ≡ some s
    → ensure_table (vmm_fractal_pdp (v / 2 ^ 39 % 2 ^ 9)) (v / 2 ^ 30 % 2 ^ 9) s ≡ some s
    → ensure_table (vmm_fractal_pd (v / 2 ^ 39 % 2 ^ 9) (v / 2 ^ 30 % 2 ^ 9)) (v / 2 ^ 21 % 2 ^ 9) s
      ≡ some s
    → write_entry s
        (vmm_fractal_pt (v / 2 ^ 39 % 2 ^ 9) (v / 2 ^ 30 % 2 ^ 9) (v / 2 ^ 21 % 2 ^ 9))
        (v / 2 ^ 12 % 2 ^ 9)
        (leaf p flags)
      ≡ some t
    → vmm_map v p flags s ≡ some t
unfolding vmm_map
map_steps s v p flags t a b c d = rw (vmm_map, a, b, c) d

walk_steps :
    (s : Paging) (v b c d q : ℕ)
    → walk_table s (frame s.cr3) (v / 2 ^ 39 % 2 ^ 9) ≡ page b
    → walk_table s b (v / 2 ^ 30 % 2 ^ 9) ≡ page c
    → walk_table s c (v / 2 ^ 21 % 2 ^ 9) ≡ page d
    → walk_page s d (v / 2 ^ 12 % 2 ^ 9) ≡ page q
    → mmu_page s v ≡ page q
unfolding mmu_page
walk_steps s v b c d q e f g h = rw (mmu_page, e) (rw f (rw g h))

-- Where entry 260 of the top table names that table itself and no entry has one of the bits from 52
-- on; where the three tables of a virtual address are there and the last is none of those above it;
-- and where entry 260 and the three entries on the way to the last table allow writes: vmm_map writes
-- one entry of the last table, and the processor then translates the address to the page that was
-- given. The physical address has at most 52 bits and the flags 12.
pub vmm_map-translates :
    (s : Paging) (v p flags b c d : ℕ)
    → Recursive s
    → Tables s v b c d
    → Writeable s v b c
    → d ≢ frame s.cr3
    → d ≢ b
    → d ≢ c
    → p < 2 ^ 52
    → flags < 2 ^ 12
    → (vmm_map v p flags s ≡ some (with_entry s d (v / 2 ^ 12 % 2 ^ 9) (leaf p flags)))
      × (mmu_page (with_entry s d (v / 2 ^ 12 % 2 ^ 9) (leaf p flags)) v ≡ page (vmm_address p))
vmm_map-translates s v p flags b c d r t w na nb nc small fl = (run, walk)
  where
    i : ℕ
    i = v / 2 ^ 39 % 2 ^ 9

    j : ℕ
    j = v / 2 ^ 30 % 2 ^ 9

    h : ℕ
    h = v / 2 ^ 21 % 2 ^ 9

    l : ℕ
    l = v / 2 ^ 12 % 2 ^ 9

    a : ℕ
    a = frame s.cr3

    li : i < 512
    li = omega arith

    lj : j < 512
    lj = omega arith

    lh : h < 512
    lh = omega arith

    e1 :
        (present (s.entry a i) ≡ true)
        × (large_page (s.entry a i) ≡ false)
        × (walk_page s a i ≡ page b)
    e1 = table_entry s a i b t.pdp

    e2 :
        (present (s.entry b j) ≡ true)
        × (large_page (s.entry b j) ≡ false)
        × (walk_page s b j ≡ page c)
    e2 = table_entry s b j c t.pd

    e3 :
        (present (s.entry c h) ≡ true)
        × (large_page (s.entry c h) ≡ false)
        × (walk_page s c h ≡ page d)
    e3 = table_entry s c h d t.pt

    at1 : ensure_table vmm_fractal_pml4 i s ≡ some s
    at1 = ensure_there s _ a i (fractal_pml4 s r) e1.0 e1.1

    at2 : ensure_table (vmm_fractal_pdp i) j s ≡ some s
    at2 = ensure_there s _ b j (fractal_pdp s r i li ∙ e1.2) e2.0 e2.1

    at3 : ensure_table (vmm_fractal_pd i j) h s ≡ some s
    at3 = ensure_there s _ c h (fractal_pd s r i j li lj ∙ rw t.pdp e2.2) e3.0 e3.1

    allowed : mmu_writeable s (vmm_fractal_pt i j h) ≡ true
    allowed =
        writeable_pt s r i j h b c li lj lh (table_frame s a i b t.pdp) (table_frame s b j c t.pd)
        ∙ rw (w.self_writeable, w.pdp_writeable, w.pd_writeable, w.pt_writeable) refl

    at4 :
        write_entry s (vmm_fractal_pt i j h) l (leaf p flags)
        ≡ some (with_entry s d l (leaf p flags))
    at4 =
        write_at s _ d l (leaf p flags) (fractal_pt s r i j h li lj lh ∙ rw t.pdp (rw t.pd e3.2))
          allowed

    run : vmm_map v p flags s ≡ some (with_entry s d l (leaf p flags))
    run = map_steps s v p flags (with_entry s d l (leaf p flags)) at1 at2 at3 at4

    walk : mmu_page (with_entry s d l (leaf p flags)) v ≡ page (vmm_address p)
    walk =
        walk_steps (with_entry s d l (leaf p flags)) v b c d (vmm_address p)
          (table_kept s d l (leaf p flags) a i (λ q. na (sym q)) ∙ t.pdp)
          (table_kept s d l (leaf p flags) b j (λ q. nb (sym q)) ∙ t.pd)
          (table_kept s d l (leaf p flags) c h (λ q. nc (sym q)) ∙ t.pt)
          (new_leaf s d l p flags small fl)
