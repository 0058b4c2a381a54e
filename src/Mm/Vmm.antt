-- ===== src/Mm/Vmm.antt =====
-- kernel/src/mm/vmm.c: page tables, which the code reaches through entry 260 of the top one, which
-- names that table itself. The memory of tables is a function from the address of a page and the
-- number of an entry; a change is seen at once, as CR3 is written after it. HHDM of the address of a
-- table is where the same table is mapped directly.
pub mod Fractal
pub mod Map
pub mod Start
mod Tests
use limix.Base.{
  ℕ, ◌+◌, ◌*◌, ◌/◌, ◌%◌, ◌^◌, Bool, true, false, not, ◌&&◌, ◌==◌, ltb, if◌then◌else◌, Option, none,
  some, List, bit_and, bit_or,
}
use limix.Mm.Address.{mm_fix}
use limix.Mm.Pmm.{MemoryTag, mark_pages, request_page}

abbrev pub vmm_present : ℕ
vmm_present = 1

abbrev pub vmm_writeable : ℕ
vmm_writeable = 2

abbrev pub vmm_page_size : ℕ
vmm_page_size = 128

-- `VMM_ADDRESS`
abbrev pub vmm_address : ℕ → ℕ
vmm_address e = e / 2 ^ 12 * 2 ^ 12

-- `VMM_PMI2ADDR`
unfoldable pub vmm_pmi2addr : ℕ → ℕ → ℕ → ℕ → ℕ
vmm_pmi2addr pdpi pdi pti pi =
    mm_fix ((pdpi * 2 ^ 39 + pdi * 2 ^ 30 + pti * 2 ^ 21 + pi * 2 ^ 12) % 2 ^ 64)

abbrev pub vmm_fractal_index : ℕ
vmm_fractal_index = 260

abbrev pub vmm_fractal_pml4 : ℕ
vmm_fractal_pml4 =
    vmm_pmi2addr vmm_fractal_index vmm_fractal_index vmm_fractal_index vmm_fractal_index

abbrev pub vmm_fractal_pdp : ℕ → ℕ
vmm_fractal_pdp pdp = vmm_pmi2addr vmm_fractal_index vmm_fractal_index vmm_fractal_index pdp

abbrev pub vmm_fractal_pd : ℕ → ℕ → ℕ
vmm_fractal_pd pdp pd = vmm_pmi2addr vmm_fractal_index vmm_fractal_index pdp pd

abbrev pub vmm_fractal_pt : ℕ → ℕ → ℕ → ℕ
vmm_fractal_pt pdp pd pt = vmm_pmi2addr vmm_fractal_index pdp pd pt

-- The tables, the register CR3, and the free pages.
pub record Paging : Type 0 where
  pub entry : ℕ → ℕ → ℕ
  pub cr3 : ℕ
  pub tags : List MemoryTag

-- What the processor makes of a virtual address: the page, no page, or one of 2 MiB or more.
pub data Walk : Type 0 where
  page : ℕ → Walk
  absent large : Walk

infixl 5 ◌>>=◌
abbrev pub ◌>>=◌ : Walk → (ℕ → Walk) → Walk
page a >>= f = f a
absent >>= f = absent
large >>= f = large

abbrev pub present : ℕ → Bool
present e = not (bit_and e vmm_present == 0)

abbrev pub large_page : ℕ → Bool
large_page e = not (bit_and e vmm_page_size == 0)

-- Bits 12 to 51 of an entry are the address of what it names.
abbrev pub frame : ℕ → ℕ
frame e = e / 2 ^ 12 % 2 ^ 40 * 2 ^ 12

unfoldable pub walk_page : Paging → ℕ → ℕ → Walk
walk_page s a i = if present (s.entry a i) then page (frame (s.entry a i)) else absent

unfoldable pub walk_table : Paging → ℕ → ℕ → Walk
walk_table s a i =
    if not (present (s.entry a i))
    then absent
    else if large_page (s.entry a i)
    then large
    else page (frame (s.entry a i))

-- The four levels that the processor walks.
unfoldable pub mmu_page : Paging → ℕ → Walk
mmu_page s v = walk_table s (frame s.cr3) (v / 2 ^ 39 % 2 ^ 9) >>= λ b.
    walk_table s b (v / 2 ^ 30 % 2 ^ 9) >>= λ c.
    walk_table s c (v / 2 ^ 21 % 2 ^ 9) >>= λ d. walk_page s d (v / 2 ^ 12 % 2 ^ 9)

-- Entry `i` of the table at a virtual address; `none` is a page fault.
unfoldable pub read_entry : Paging → ℕ → ℕ → Option ℕ
read_entry s v i = elim (mmu_page s v) [
  | page a ↦ some (s.entry a i)
  | absent ↦ none
  | large ↦ none
]

abbrev pub writeable : ℕ → Bool
writeable e = not (bit_and e vmm_writeable == 0)

-- Whether the four entries on the way to a page all allow writes, as the processor asks with the
-- write-protect bit of CR0 set.
unfoldable pub mmu_writeable : Paging → ℕ → Bool
mmu_writeable s v =
    let e = s.entry (frame s.cr3) (v / 2 ^ 39 % 2 ^ 9) in
    let f = s.entry (frame e) (v / 2 ^ 30 % 2 ^ 9) in
    let g = s.entry (frame f) (v / 2 ^ 21 % 2 ^ 9) in
    let h = s.entry (frame g) (v / 2 ^ 12 % 2 ^ 9) in
    writeable e && writeable f && writeable g && writeable h

unfoldable pub write_entry : Paging → ℕ → ℕ → ℕ → Option Paging
write_entry s v i e = elim (mmu_page s v) [
  | page a ↦
      if mmu_writeable s v
      then some (record s { entry = λ b j. if b == a && j == i then e % 2 ^ 64 else s.entry b j })
      else none
  | absent ↦ none
  | large ↦ none
]

-- Entry 260 of a table that names the table itself.
abbrev pub self_entry : ℕ → ℕ
self_entry a = bit_or (bit_or (vmm_address a) vmm_present) vmm_writeable

-- `none` is a panic of mark_pages.
unfoldable pub vmm_init : Paging → Option Paging
vmm_init s = elim (mark_pages s.cr3 1 s.tags) [
  | none ↦ none
  | some tags' ↦ some (record s {
    entry = λ b j. if b == s.cr3 && j == vmm_fractal_index then self_entry s.cr3 else s.entry b j;
    tags = tags';
  })
]

-- HHDM names its argument twice, so request_page is called twice and the second page is used. The
-- entries below 256 are cleared, the others copied. `none` is a panic.
unfoldable pub vmm_new : Paging → Option (Paging × ℕ)
vmm_new s = elim (request_page s.tags) [
  | none ↦ none
  | some (a, tags1) ↦ elim (request_page tags1) [
    | none ↦ none
    | some (n, tags2) ↦ some (
      record s {
        entry = λ b j.
            if not (b == n && ltb j 512)
            then s.entry b j
            else if j == vmm_fractal_index
            then self_entry n
            else if ltb j 256
            then 0
            else s.entry (vmm_address s.cr3) j;
        tags = tags2;
      },
      n,
    )
  ]
]

-- The end of vmm_mapping: an address, NULL, kernel_panic_error or a page fault.
pub data Mapping : Type 0 where
  mapped : ℕ → Mapping
  null panic fault : Mapping

-- The tests between two levels of vmm_mapping.
unfoldable pub through : Option ℕ → Mapping → Mapping
through e next = elim e [
  | none ↦ fault
  | some e ↦ if not (present e) then null else if large_page e then panic else next
]

unfoldable pub vmm_mapping : Paging → ℕ → Mapping
unfolding through read_entry
vmm_mapping s v =
    let pdp_i = v / 2 ^ 39 % 2 ^ 9 in
    let pd_i = v / 2 ^ 30 % 2 ^ 9 in
    let pt_i = v / 2 ^ 21 % 2 ^ 9 in
    let p_i = v / 2 ^ 12 % 2 ^ 9 in
    through (read_entry s vmm_fractal_pml4 pdp_i) (
      through (read_entry s (vmm_fractal_pdp pdp_i) pd_i) (
        through (read_entry s (vmm_fractal_pd pdp_i pd_i) pt_i)
          (elim (read_entry s (vmm_fractal_pt pdp_i pd_i pt_i) p_i) [
            | none ↦ fault
            | some e ↦ if present e then mapped (vmm_address e) else null
          ])))

-- One level of vmm_map: a missing table is a cleared page. `none` is a panic or a page fault.
unfoldable pub ensure_table : ℕ → ℕ → Paging → Option Paging
unfolding read_entry write_entry
ensure_table table i s = elim (read_entry s table i) [
  | none ↦ none
  | some e ↦
      let made : Option Paging = elim (request_page s.tags) [
        | none ↦ none
        | some (a, tags') ↦
            elim (write_entry (record s { tags = tags' }) table i
              (bit_or (bit_or (vmm_address a) vmm_present) vmm_writeable)) [
                | none ↦ none
                | some s1 ↦ elim (read_entry s1 table i) [
                  | none ↦ none
                  | some e1 ↦ some (record s1 {
                    entry = λ b j. if b == vmm_address e1 && ltb j 512 then 0 else s1.entry b j;
                  })
                ]
              ]
      ] in
      let s1 : Option Paging = if present e then some s else made in
      elim s1 [ none ↦ none | some s1 ↦ if large_page e then none else some s1 ]
]

unfoldable pub vmm_map : ℕ → ℕ → ℕ → Paging → Option Paging
unfolding ensure_table write_entry
vmm_map v p flags s =
    let pdp_i = v / 2 ^ 39 % 2 ^ 9 in
    let pd_i = v / 2 ^ 30 % 2 ^ 9 in
    let pt_i = v / 2 ^ 21 % 2 ^ 9 in
    let p_i = v / 2 ^ 12 % 2 ^ 9 in
    elim (ensure_table vmm_fractal_pml4 pdp_i s) [
      | none ↦ none
      | some s1 ↦ elim (ensure_table (vmm_fractal_pdp pdp_i) pd_i s1) [
        | none ↦ none
        | some s2 ↦ elim (ensure_table (vmm_fractal_pd pdp_i pd_i) pt_i s2) [
          | none ↦ none
          | some s3 ↦
              write_entry s3 (vmm_fractal_pt pdp_i pd_i pt_i) p_i
                (bit_or (bit_or (vmm_address p) vmm_present) flags)
        ]
      ]
    ]
