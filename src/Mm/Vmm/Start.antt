-- ===== src/Mm/Vmm/Start.antt =====
-- The tables that vmm_init and vmm_new leave.
use limix.Base.{
  ℕ, ◌+◌, ◌/◌, ◌%◌, ◌^◌, ◌<◌, ◌≤◌, ◌≡◌, ◌≢◌, refl, sym, ap, ◌∙◌, arith, true, false, not, ◌&&◌,
  ◌==◌, ltb, if◌then◌else◌, some, List, bit_or,
}
use limix.Base.Bits.{bit_or-fields, bit_or-top, bit_or-odd, bit_and-bit}
use limix.Mm.Pmm.{MemoryTag, mark_pages, request_page}
use limix.Mm.Vmm.{Paging, present, large_page, frame, vmm_address, self_entry, vmm_init, vmm_new}
use limix.Mm.Vmm.Fractal.{Recursive}

-- The address of a page, below 2 ^ 52.
abbrev pub IsPage : ℕ → Type 0
IsPage a = (a % 2 ^ 12 ≡ 0) × (a < 2 ^ 52)

module _ (a : ℕ) (p : IsPage a) where
  self_entry-div : (k : ℕ) → 2 < 2 ^ k → self_entry a / 2 ^ k ≡ vmm_address a / 2 ^ k
  self_entry-div k l = bit_or-top k _ 2 l ∙ bit_or-top k _ 1 (omega (arith, l))

  self_entry-present : present (self_entry a) ≡ true
  self_entry-present =
      let one : bit_or (vmm_address a) 1 ≡ vmm_address a + 1 =
        bit_or-fields 12 (a / 2 ^ 12) 1 (omega arith) in
      let odd : self_entry a % 2 ≡ 1 =
        bit_or-odd (bit_or (vmm_address a) 1) 2 (omega (arith, one)) in
      ground (arith, odd, bit_and-bit 0 (self_entry a))

  self_entry-large_page : large_page (self_entry a) ≡ false
  self_entry-large_page =
      let even : self_entry a / 2 ^ 7 % 2 ≡ 0 = omega (arith, self_entry-div 7 (omega arith)) in
      ground (arith, even, bit_and-bit 7 (self_entry a))

  frame-self_entry : frame (self_entry a) ≡ a
  frame-self_entry = omega (arith, self_entry-div 12 (omega arith), p.0, p.1)

  self_entry-lt : self_entry a < 2 ^ 52
  self_entry-lt = omega (arith, self_entry-div 12 (omega arith), p.1)

-- No entry has bits from 52 on.
abbrev pub Narrow : Paging → Type 0
Narrow s = (b j : ℕ) → s.entry b j < 2 ^ 52

made_recursive :
    (s : Paging) (a : ℕ)
    → IsPage a
    → s.cr3 ≡ a
    → s.entry a 260 ≡ self_entry a
    → Narrow s
    → Recursive s
made_recursive s a p e f n =
    let top : frame s.cr3 ≡ a = omega (arith, p.0, p.1) in
    let entry : s.entry (frame s.cr3) 260 ≡ self_entry a = rw top f in
    record {
      self_present = rw entry (self_entry-present a p);
      self_table = rw entry (self_entry-large_page a p);
      self = ap frame entry ∙ frame-self_entry a p ∙ sym top;
      narrow = n;
    }

-- vmm_init at a page, where mark_pages finds it free, makes the tables recursive. No entry has bits
-- from 52 on.
pub vmm_init-Recursive :
    (s : Paging) (tags' : List MemoryTag)
    → IsPage s.cr3
    → Narrow s
    → mark_pages s.cr3 1 s.tags ≡ some tags'
    → (t : Paging) × (vmm_init s ≡ some t) × Recursive t
unfolding vmm_init
vmm_init-Recursive s tags' p n free =
    (t, ground (arith, free), made_recursive t s.cr3 p refl self narrow)
  where
    t : Paging
    t = record s {
      entry = λ b j. if b == s.cr3 && j == 260 then self_entry s.cr3 else s.entry b j;
      tags = tags';
    }

    self : t.entry s.cr3 260 ≡ self_entry s.cr3
    self = ground arith

    narrow : Narrow t
    narrow b j = ground (arith, n b j, self_entry-lt s.cr3 p)

-- vmm_new, where two pages are free, gives the second one as a top table that is recursive, maps
-- nothing in the lower half, and has the entries of the running tables in the upper half but for
-- entry 260. No entry has bits from 52 on.
pub vmm_new-Recursive :
    (s : Paging) (a n : ℕ) (tags1 tags2 : List MemoryTag)
    → request_page s.tags ≡ some (a, tags1)
    → request_page tags1 ≡ some (n, tags2)
    → IsPage n
    → Narrow s
    → (t : Paging) × (vmm_new s ≡ some (t, n))
      × Recursive (record t { cr3 = n })
      × ((j : ℕ) → j < 256 → t.entry n j ≡ 0)
      × ((j : ℕ) → 256 ≤ j → j < 512 → j ≢ 260 → t.entry n j ≡ s.entry (vmm_address s.cr3) j)
unfolding vmm_new
vmm_new-Recursive s a n tags1 tags2 first second p narrow = (
  t,
  ground (arith, first, second),
  made_recursive (record t { cr3 = n }) n p refl self narrow',
  λ j l. ground arith,
  λ j l h other. ground arith,
)
  where
    t : Paging
    t = record s {
      entry = λ b j.
          if not (b == n && ltb j 512)
          then s.entry b j
          else if j == 260
          then self_entry n
          else if ltb j 256
          then 0
          else s.entry (vmm_address s.cr3) j;
      tags = tags2;
    }

    self : t.entry n 260 ≡ self_entry n
    self = ground arith

    narrow' : Narrow t
    narrow' b j = ground (arith, narrow b j, narrow (vmm_address s.cr3) j, self_entry-lt n p)
