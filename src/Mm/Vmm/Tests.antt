-- ===== src/Mm/Vmm/Tests.antt =====
-- The theorems on page tables at tables in the pages 1 to 4.
use limix.Base.{ℕ, ◌<◌, ◌≤◌, ◌≡◌, ◌≢◌, refl, arith, ◌==◌, ◌&&◌, if◌then◌else◌, some, List, [], ◌∷◌}
use limix.Mm.Pmm.{
  MemoryTag, tag, mark_pages, request_page, mark_loop, fix_memtags, fix_rounds, fix_pass, merge_all,
  drop_empty, merge_into,
}
use limix.Mm.Vmm.{Paging, page, walk_table, mmu_page, vmm_mapping, vmm_map, vmm_new}
use limix.Mm.Vmm.Fractal.{Recursive, answer, vmm_mapping-answer}
use limix.Mm.Vmm.Map.{Tables, Writeable, with_entry, leaf, vmm_map-translates}
use limix.Mm.Vmm.Start.{Narrow, vmm_new-Recursive}

-- Page 1 is the top table; pages 2, 3 and 4 are those for the first 2 MiB.
abbrev tables : ℕ → ℕ → ℕ
tables a i =
    if a == 0x1000 && i == 260
    then 0x1003
    else if a == 0x1000 && i == 0
    then 0x2003
    else if a == 0x2000 && i == 0
    then 0x3003
    else if a == 0x3000 && i == 0
    then 0x4003
    else if a == 0x4000 && i == 5
    then 0x9003
    else 0

abbrev free : List MemoryTag
free = tag 1 1 ∷ tag 8 2 ∷ []

abbrev paging : Paging
paging = record { entry = tables; cr3 = 0x1000; tags = free }

narrow : Narrow paging
narrow a i = ground arith

abbrev recursive : Recursive paging
recursive = record { self_present = refl; self_table = refl; self = refl; narrow = narrow }

vmm_mapping-answer_example : vmm_mapping paging 0x5000 ≡ answer (mmu_page paging 0x5000)
vmm_mapping-answer_example = vmm_mapping-answer paging 0x5000 recursive

abbrev path : Tables paging 0x7000 0x2000 0x3000 0x4000
unfolding walk_table
path = record { pdp = refl; pd = refl; pt = refl }

abbrev path_writeable : Writeable paging 0x7000 0x2000 0x3000
path_writeable = record {
  self_writeable = refl;
  pdp_writeable = refl;
  pd_writeable = refl;
  pt_writeable = refl;
}

vmm_map-translates_example :
    (vmm_map 0x7000 0xa000 3 paging ≡ some (with_entry paging 0x4000 7 (leaf 0xa000 3)))
    × (mmu_page (with_entry paging 0x4000 7 (leaf 0xa000 3)) 0x7000 ≡ page 0xa000)
vmm_map-translates_example =
    vmm_map-translates paging 0x7000 0xa000 3 0x2000 0x3000 0x4000 recursive path path_writeable
      (omega arith) (omega arith) (omega arith) (omega arith) (omega arith)

vmm_new-Recursive_example :
    (t : Paging) × (vmm_new paging ≡ some (t, 0x8000))
    × Recursive (record t { cr3 = 0x8000 })
    × ((j : ℕ) → j < 256 → t.entry 0x8000 j ≡ 0)
    × ((j : ℕ) → 256 ≤ j → j < 512 → j ≢ 260 → t.entry 0x8000 j ≡ tables 0x1000 j)
unfolding request_page mark_pages mark_loop fix_memtags fix_rounds fix_pass merge_all drop_empty
    merge_into
vmm_new-Recursive_example =
    vmm_new-Recursive paging 0x1000 0x8000 (tag 8 2 ∷ []) (tag 9 1 ∷ []) refl refl
      (refl, omega arith) narrow
