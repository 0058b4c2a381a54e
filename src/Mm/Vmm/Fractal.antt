-- ===== src/Mm/Vmm/Fractal.antt =====
-- The tables at the fractal addresses of kernel/src/mm/vmm.c, and vmm_mapping.
use limix.Base.{
  ℕ, ◌+◌, ◌*◌, ◌/◌, ◌%◌, ◌^◌, ◌<◌, ◌≡◌, refl, ap, ◌∙◌, arith, true, false, if◌then◌else◌, ◌&&◌,
  Option, none, some, Bool-cases, inl, inr,
}
use limix.Mm.Address.{mm_fix, canonical, mm_fix-canonical}
use limix.Mm.Vmm.{
  Paging, Walk, page, absent, large, ◌>>=◌, present, large_page, frame, walk_page, walk_table,
  mmu_page, vmm_address, vmm_pmi2addr, vmm_fractal_pml4, vmm_fractal_pdp, vmm_fractal_pd,
  vmm_fractal_pt, writeable, mmu_writeable, read_entry, Mapping, mapped, null, panic, fault,
  through, vmm_mapping,
}

-- Entry 260 of the top table names the table itself, and entries have no bits from 52 on.
pub record Recursive (s : Paging) : Type 0 where
  pub self_present : present (s.entry (frame s.cr3) 260) ≡ true
  pub self_table : large_page (s.entry (frame s.cr3) 260) ≡ false
  pub self : frame (s.entry (frame s.cr3) 260) ≡ frame s.cr3
  pub narrow : (a i : ℕ) → s.entry a i < 2 ^ 52

pmi2addr-canonical :
    (a b c d : ℕ)
    → a < 512
    → b < 512
    → c < 512
    → d < 512
    → vmm_pmi2addr a b c d ≡ canonical (a * 2 ^ 39 + b * 2 ^ 30 + c * 2 ^ 21 + d * 2 ^ 12)
unfolding vmm_pmi2addr
pmi2addr-canonical a b c d la lb lc ld =
    let small : (a * 2 ^ 39 + b * 2 ^ 30 + c * 2 ^ 21 + d * 2 ^ 12) % 2 ^ 64
        ≡ a * 2 ^ 39 + b * 2 ^ 30 + c * 2 ^ 21 + d * 2 ^ 12 =
      omega arith in
    ap mm_fix small ∙ mm_fix-canonical _ (omega arith)

-- The indices of such an address.
indices :
    (a b c d : ℕ)
    → a < 512
    → b < 512
    → c < 512
    → d < 512
    → (vmm_pmi2addr a b c d / 2 ^ 39 % 2 ^ 9 ≡ a)
      × (vmm_pmi2addr a b c d / 2 ^ 30 % 2 ^ 9 ≡ b)
      × (vmm_pmi2addr a b c d / 2 ^ 21 % 2 ^ 9 ≡ c)
      × (vmm_pmi2addr a b c d / 2 ^ 12 % 2 ^ 9 ≡ d)
indices a b c d la lb lc ld =
    rw (pmi2addr-canonical a b c d la lb lc ld)
      (ground arith, ground arith, ground arith, ground arith)

module _ (s : Paging) (r : Recursive s) where
  walk_self : walk_table s (frame s.cr3) 260 ≡ page (frame s.cr3)
  unfolding walk_table
  walk_self = ground (arith, r.self_present, r.self_table, r.self)

  mmu_of :
      (a b c d : ℕ)
      → a < 512
      → b < 512
      → c < 512
      → d < 512
      → mmu_page s (vmm_pmi2addr a b c d) ≡ (
          walk_table s (frame s.cr3) a >>= λ x.
          walk_table s x b >>= λ y. walk_table s y c >>= λ z. walk_page s z d)
  unfolding mmu_page
  mmu_of a b c d la lb lc ld =
      let (ea, eb, ec, ed) = indices a b c d la lb lc ld in rw (ea, eb, ec, ed) refl

  pub fractal_pml4 : mmu_page s vmm_fractal_pml4 ≡ page (frame s.cr3)
  unfolding walk_page
  fractal_pml4 =
      mmu_of 260 260 260 260 (omega arith) (omega arith) (omega arith) (omega arith)
      ∙ rw walk_self (rw walk_self (rw walk_self (ground (arith, r.self_present, r.self))))

  pub fractal_pdp : (i : ℕ) → i < 512 → mmu_page s (vmm_fractal_pdp i) ≡ walk_page s (frame s.cr3) i
  fractal_pdp i l =
      mmu_of 260 260 260 i (omega arith) (omega arith) (omega arith) l
      ∙ rw walk_self (rw walk_self (rw walk_self refl))

  pub fractal_pd :
      (i j : ℕ)
      → i < 512
      → j < 512
      → mmu_page s (vmm_fractal_pd i j) ≡ (walk_table s (frame s.cr3) i >>= λ b. walk_page s b j)
  fractal_pd i j l k =
      mmu_of 260 260 i j (omega arith) (omega arith) l k ∙ rw walk_self (rw walk_self refl)

  pub fractal_pt :
      (i j h : ℕ)
      → i < 512
      → j < 512
      → h < 512
      → mmu_page s (vmm_fractal_pt i j h)
        ≡ (walk_table s (frame s.cr3) i >>= λ b. walk_table s b j >>= λ c. walk_page s c h)
  fractal_pt i j h l k o = mmu_of 260 i j h (omega arith) l k o ∙ rw walk_self refl

-- A write to a last table goes through entry 260 and the three entries on the way to it.
pub writeable_pt :
    (s : Paging) (r : Recursive s) (i j h b c : ℕ)
    → i < 512
    → j < 512
    → h < 512
    → frame (s.entry (frame s.cr3) i) ≡ b
    → frame (s.entry b j) ≡ c
    → mmu_writeable s (vmm_fractal_pt i j h) ≡ (
        writeable (s.entry (frame s.cr3) 260)
        && writeable (s.entry (frame s.cr3) i)
        && writeable (s.entry b j)
        && writeable (s.entry c h))
unfolding mmu_writeable
writeable_pt s r i j h b c li lj lh eb ec =
    let (e0, e1, e2, e3) = indices 260 i j h (omega arith) li lj lh in
    rw (e0, e1, e2, e3, r.self, eb, ec) refl

-- What vmm_mapping answers for a walk.
abbrev pub answer : Walk → Mapping
answer w = elim w [ page a ↦ mapped a | absent ↦ null | large ↦ panic ]

through-answer :
    (s : Paging) (a i : ℕ) (o : Option ℕ) (next : Mapping) (rest : ℕ → Walk)
    → o ≡ some (s.entry a i)
    → (walk_table s a i ≡ page (frame (s.entry a i))
        → walk_page s a i ≡ page (frame (s.entry a i))
        → next ≡ answer (rest (frame (s.entry a i))))
    → through o next ≡ answer (walk_table s a i >>= rest)
unfolding through walk_table walk_page
through-answer s a i o next rest read deeper = elim (Bool-cases (present (s.entry a i))) [
  | inr missing ↦ rw read (rw missing refl)
  | inl there ↦ elim (Bool-cases (large_page (s.entry a i))) [
    | inl big ↦ rw read (rw (there, big) refl)
    | inr small ↦ rw read (rw (there, small) (deeper (rw (there, small) refl) (rw there refl)))
  ]
]

pub read_at :
    (s : Paging) (v a i : ℕ) → mmu_page s v ≡ page a → read_entry s v i ≡ some (s.entry a i)
unfolding read_entry
read_at s v a i e = ground (arith, e)

last-answer :
    (s : Paging) (a i : ℕ) (o : Option ℕ)
    → s.entry a i < 2 ^ 52
    → o ≡ some (s.entry a i)
    → (elim o [ none ↦ fault | some e ↦ if present e then mapped (vmm_address e) else null ])
      ≡ answer (walk_page s a i)
unfolding walk_page
last-answer s a i o narrow read =
    let same : vmm_address (s.entry a i) ≡ frame (s.entry a i) = omega arith in
    elim (Bool-cases (present (s.entry a i))) [
      | inr missing ↦ rw read (rw missing refl)
      | inl there ↦ rw read (rw there (ap mapped same))
    ]

-- Where entry 260 of the top table names that table itself, and no entry of any table has one of the
-- bits from 52 on, such as the one against execution: vmm_mapping gives the address of the page to
-- which the processor translates the virtual address, NULL where it finds none, and a panic where it
-- meets a large page; it never faults.
pub vmm_mapping-answer :
    (s : Paging) (v : ℕ) → Recursive s → vmm_mapping s v ≡ answer (mmu_page s v)
unfolding vmm_mapping mmu_page
vmm_mapping-answer s v r =
    through-answer s a i (read_entry s vmm_fractal_pml4 i) _ _ (read_at s _ a i (fractal_pml4 s r))
      (λ t1 p1.
        through-answer s b j (read_entry s (vmm_fractal_pdp i) j) _ _
          (read_at s _ b j (fractal_pdp s r i li ∙ p1))
          (λ t2 p2.
            through-answer s c h (read_entry s (vmm_fractal_pd i j) h) _ _
              (read_at s _ c h (fractal_pd s r i j li lj ∙ rw t1 p2))
              (λ t3 p3.
                last-answer s d l (read_entry s (vmm_fractal_pt i j h) l) (r.narrow d l)
                  (read_at s _ d l (fractal_pt s r i j h li lj lh ∙ rw t1 (rw t2 p3))))))
  where
    i : ℕ
    i = v / 2 ^ 39 % 2 ^ 9

    j : ℕ
    j = v / 2 ^ 30 % 2 ^ 9

    h : ℕ
    h = v / 2 ^ 21 % 2 ^ 9

    l : ℕ
    l = v / 2 ^ 12 % 2 ^ 9

    li : i < 512
    li = omega arith

    lj : j < 512
    lj = omega arith

    lh : h < 512
    lh = omega arith

    a : ℕ
    a = frame s.cr3

    b : ℕ
    b = frame (s.entry a i)

    c : ℕ
    c = frame (s.entry b j)

    d : ℕ
    d = frame (s.entry c h)
